-- ===== src/Validator/Attributes.antt =====
-- `_encode_meta_attributes` and `_decode_meta_attributes` of hedwig/validators/base.py.
pub mod RoundTrip
pub mod Marked
pub mod Written
use mathlib.Core.Option
use hedwig_python.Prelude.{
  String, ◌≡◌, refl, Bool, true, false, ◌&&◌, not, Option, none, some, List, [], ◌∷◌, ◌++◌, arith,
  All, if◌then◌else◌, ◌==◌, string_eq,
}
use hedwig_python.Prelude.Int.{ℤ}
use hedwig_python.Python.Dict.{get, update}
use hedwig_python.Python.Exn.{
  Result, ok, raise, validation_error, value_error, key_error, type_error, assertion_error,
  attribute_error, guard, from_option, ◌>>=◌, ◌>>◌,
}
use hedwig_python.Python.Value.{
  Key, name, other_key, Value, str, int, strict_version, Entries, is_str, to_str, key_eq,
}
use hedwig_python.Text.IntLiteral.{int_of}
use hedwig_python.Text.Prefix.{starts_with}
use hedwig_python.Version.{StrictVersion, parse, version_str}
use hedwig_python.Validator.{MetaAttributes}
use hedwig_python.Validator.Headers.{reserved}

-- attributes.get(attr) is a `str`
abbrev pub has_text : Entries → String → Bool
has_text attributes attr = elim (get (name attr) attributes) [ none ↦ false | some v ↦ is_str v ]

abbrev pub required : List String
required =
    "hedwig_format_version" ∷ "hedwig_id" ∷ "hedwig_message_timestamp" ∷ "hedwig_publisher"
    ∷ "hedwig_schema" ∷ []

-- The loop over the required attributes.
unfoldable pub check_required : List String → Entries → Result (Unit {0})
check_required [] attributes = ok tt
check_required (attr ∷ rest) attributes =
    let others = check_required rest attributes in
    guard (has_text attributes attr) validation_error >> others

-- {k: v for k, v in attributes.items() if not k.startswith("hedwig_")}
unfoldable pub custom_headers : Entries → Result Entries
custom_headers [] = ok []
custom_headers ((other_key n, v) ∷ rest) = raise attribute_error
custom_headers ((name k, v) ∷ rest) = do
  others ← custom_headers rest
  ok (if starts_with k reserved then others else (name k, v) ∷ others)

-- attributes[attr]
abbrev pub item : Entries → String → Result Value
item attributes attr = from_option key_error (get (name attr) attributes)

-- int(v) and StrictVersion(v) of a `str`
abbrev pub int_value : Value → Result Value
int_value (str s) = from_option value_error (Option.map int (int_of s))
int_value other = raise type_error

-- An empty text makes an object without a version, which fails when it is compared: that
-- AttributeError is raised here.
abbrev pub version_value : Value → Result Value
version_value (str s) =
    if s == ""
    then raise attribute_error
    else from_option value_error (Option.map strict_version (parse s))
version_value other = raise type_error

-- `setting` is HEDWIG_USE_TRANSPORT_MESSAGE_ATTRIBUTES.
unfoldable pub decode_meta_attributes : Bool → Entries → Result MetaAttributes
unfolding check_required
decode_meta_attributes setting attributes = do
  guard setting assertion_error
  check_required required attributes
  headers ← custom_headers attributes
  timestamp ← item attributes "hedwig_message_timestamp" >>= int_value
  publisher ← item attributes "hedwig_publisher"
  id ← item attributes "hedwig_id"
  schema ← item attributes "hedwig_schema"
  format_version ← item attributes "hedwig_format_version" >>= version_value
  ok (record {
    timestamp = timestamp;
    publisher = publisher;
    headers = headers;
    id = id;
    schema = schema;
    format_version = format_version;
  })

-- The attributes of hedwig's own. `show` is `str` on objects that are no texts or numbers.
unfoldable pub own_attributes : (Value → String) → MetaAttributes → Entries
unfolding to_str
own_attributes show meta =
    (name "hedwig_format_version", str (to_str show meta.format_version))
    ∷ (name "hedwig_id", str (to_str show meta.id))
    ∷ (name "hedwig_message_timestamp", str (to_str show meta.timestamp))
    ∷ (name "hedwig_publisher", meta.publisher)
    ∷ (name "hedwig_schema", meta.schema)
    ∷ []

unfoldable pub encode_meta_attributes : (Value → String) → Bool → MetaAttributes → Result Entries
unfolding own_attributes
encode_meta_attributes show setting meta = do
  guard setting assertion_error
  ok (update (own_attributes show meta) meta.headers)
