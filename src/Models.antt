-- ===== src/Models.antt =====
-- hedwig/models.py: messages and their metadata. `D` is the type of message data and `P` that of
-- the provider's metadata. Both dataclasses are frozen, so a changed copy is a new record.
use hedwig_python.Prelude.{ℕ, String, Option, none, some, [], ◌==◌, string_eq, if◌then◌else◌}
use hedwig_python.Prelude.Int.{ℤ}
use hedwig_python.Python.Value.{Value, int, str, Entries}
use hedwig_python.Version.{StrictVersion}

pub record Metadata (P : Type 0) : Type 0 where
  pub timestamp : Value
  pub publisher : Value
  pub headers : Entries
  pub provider_metadata : Option P

-- `type` is a `str`. `id`, `timestamp` and `publisher` are as dynamic as in the source.
pub record Message (D P : Type 0) : Type 0 where
  pub content : D
  pub type : String
  pub version : StrictVersion
  pub id : Value
  pub metadata : Metadata P

-- `msg_type` of `Message.new`: a `str`, or an enum, of which the value counts.
pub data MsgType : Type 0 where
  text : String → MsgType
  member : String → MsgType

unfoldable pub type_name : MsgType → String
type_name (text s) = s
type_name (member value) = value

-- `x or default` on an optional text: the empty text counts as missing.
or_default : Option String → String → String
or_default none fresh = fresh
or_default (some s) fresh = if s == "" then fresh else s

or_empty : Option Entries → Entries
or_empty none = []
or_empty (some m) = m

module _ {D P : Type 0} where
  -- `uuid` is `str(uuid.uuid4())`, `now_ms` is `int(time.time() * 1000)`, and `publisher` is
  -- HEDWIG_PUBLISHER. Data are immutable here, so `deepcopy` has nothing to do.
  unfoldable pub new :
      (uuid : String) (now_ms : ℤ) (publisher : Value)
      → MsgType
      → StrictVersion
      → D
      → Option String
      → Option Entries
      → Message D P
  unfolding type_name or_default or_empty
  new uuid now_ms publisher msg_type version content msg_id headers = record {
    content = content;
    type = type_name msg_type;
    version = version;
    id = str (or_default msg_id uuid);
    metadata = record {
      timestamp = int now_ms;
      publisher = publisher;
      headers = or_empty headers;
      provider_metadata = none;
    };
  }

  abbrev pub major_version : Message D P → ℕ
  major_version m = m.version.major

  abbrev pub timestamp : Message D P → Value
  timestamp m = m.metadata.timestamp

  abbrev pub headers : Message D P → Entries
  headers m = m.metadata.headers

  abbrev pub provider_metadata : Message D P → Option P
  provider_metadata m = m.metadata.provider_metadata

  abbrev pub publisher : Message D P → Value
  publisher m = m.metadata.publisher

  unfoldable pub with_headers : Message D P → Entries → Message D P
  with_headers m new_headers =
      let meta = m.metadata in record m { metadata = record meta { headers = new_headers } }

  unfoldable pub with_provider_metadata : Message D P → Option P → Message D P
  with_provider_metadata m new_metadata =
      let meta = m.metadata in
      record m { metadata = record meta { provider_metadata = new_metadata } }
