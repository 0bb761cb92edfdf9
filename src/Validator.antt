-- ===== src/Validator.antt =====
-- hedwig/validators/base.py: `HedwigBaseValidator`. The abstract methods are an interface; what the
-- base class does with them is in the children.
pub mod Headers
pub mod MessageType
pub mod Attributes
pub mod Codec
use hedwig_python.Prelude.{ℕ, String, Bool, List}
use hedwig_python.Python.Exn.{Result}
use hedwig_python.Python.Value.{Value, Entries}
use hedwig_python.Version.{StrictVersion}

-- A payload on the wire: `str`, or `bytes`.
pub data Payload : Type 0 where
  text : String → Payload
  binary : List ℕ → Payload

-- The named tuple of the same name.
pub record MetaAttributes : Type 0 where
  pub timestamp : Value
  pub publisher : Value
  pub headers : Entries
  pub id : Value
  pub schema : Value
  pub format_version : Value

-- What a subclass gives: the constructor's arguments and the abstract methods. `D` is decoded
-- data, and `Raw` is data as extracted from a payload.
pub record Format (D Raw : Type 0) : Type 0 where
  pub schema_fmt : String → String → String
  pub current_format_version : StrictVersion
  pub extract_data : Payload → Entries → Bool → Result (MetaAttributes × Raw)
  pub extract_data_firehose : String → Result (MetaAttributes × Raw)
  pub decode_data : MetaAttributes → String → StrictVersion → Raw → Result D
  pub verify_known_minor_version : String → StrictVersion → Result (Unit {0})
  pub encode_payload : MetaAttributes → D → Bool → Result (Payload × Entries)
  pub encode_payload_firehose : String → StrictVersion → MetaAttributes → D → Result String
