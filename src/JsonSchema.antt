-- ===== src/JsonSchema.antt =====
-- hedwig/validators/jsonschema.py: `JSONSchemaValidator`.
pub mod Check
pub mod RoundTrip
pub mod Formats
pub mod Textual
pub mod Container
pub mod Firehose
use Prim.Native.String.{◌++◌ as ◌<>◌}
use hedwig_python.Prelude.{
  ℕ, String, ◌≡◌, refl, Bool, true, false, ◌&&◌, not, Option, none, some, List, [], ◌∷◌, ltb, ◌==◌,
  string_eq, if◌then◌else◌,
}
use hedwig_python.Python.Dict.{get, has_key}
use hedwig_python.Python.Exn.{
  Result, ok, raise, validation_error, key_error, type_error, attribute_error, assertion_error,
  value_error, guard, from_option, ◌>>=◌, ◌>>◌,
}
use hedwig_python.Python.Value.{
  Key, name, Value, str, strict_version, dict, Fields, end, field, Entries, to_entries, of_entries,
  is_truthy, key_eq,
}
use hedwig_python.Text.Decimal.{decimal_onto}
use hedwig_python.Text.Prefix.{starts_with}
use hedwig_python.Version.{StrictVersion, version, version_str, parse, version_beq}
use hedwig_python.Validator.{Payload, text, binary, MetaAttributes, Format}
use hedwig_python.Validator.Attributes.{decode_meta_attributes, encode_meta_attributes}

-- The code outside the repository that the validator calls. `loads` and `dumps` are Python's
-- `json`, the latter with the arguments of `_encode_payload_helper`. The others are package
-- `jsonschema` over the schemas that were loaded: `container_valid v` and `valid v s` say that
-- `iter_errors` of the container's validator, and of the application's with schema `s`, is empty,
-- and `resolve` finds a schema by its pointer. `show` is `str` on objects that are no texts or
-- numbers.
pub record Library : Type 0 where
  pub loads : String → Option Value
  pub dumps : Value → Result String
  pub container_valid : Value → Bool
  pub valid : Value → Value → Bool
  pub resolve : String → Option Value
  pub show : Value → String

-- v[k]
unfoldable pub subscript : Value → String → Result Value
subscript (dict fs) k = from_option key_error (get (name k) (to_entries fs))
subscript other k = raise type_error

-- What `.items()` goes through. (The container's schema lets only an object be the headers.)
unfoldable pub entries_of : Value → Result Entries
entries_of (dict fs) = ok (to_entries fs)
entries_of other = raise attribute_error

-- str.startswith, of a value
unfoldable pub value_starts_with : Value → String → Result Bool
value_starts_with (str s) p = ok (starts_with s p)
value_starts_with other p = raise attribute_error

-- StrictVersion(v).version: of what is false, the object has no version.
unfoldable pub strict_version_of : Value → Result StrictVersion
strict_version_of v = if is_truthy v then parse_of v else raise attribute_error
  where
    parse_of : Value → Result StrictVersion
    parse_of (str s) = from_option value_error (parse s)
    parse_of other = raise type_error

-- v == w, for a version on the right
unfoldable pub equals_version : Value → StrictVersion → Bool
equals_version (strict_version v) w = version_beq v w
equals_version other w = false

unfoldable pub schema_fmt : String → String → String → String
schema_fmt schema_root message_type message_version =
    schema_root <> ("#/schemas/" <> (message_type <> ("/" <> message_version)))

abbrev pub format_version : StrictVersion
format_version = version 1 0

-- `setting` is HEDWIG_USE_TRANSPORT_MESSAGE_ATTRIBUTES, and `schema_root` is the schema's `id`.
module _ (lib : Library) (setting : Bool) (schema_root : String) where
  -- The container format: the meta attributes come with the data.
  unfoldable pub extract_container : Value → Result (MetaAttributes × Value)
  unfolding subscript entries_of
  extract_container payload = do
    guard (lib.container_valid payload) validation_error
    content ← subscript payload "data"
    metadata ← subscript payload "metadata"
    timestamp ← subscript metadata "timestamp"
    publisher ← subscript metadata "publisher"
    found ← subscript metadata "headers"
    id ← subscript payload "id"
    schema ← subscript payload "schema"
    format ← subscript payload "format_version"
    headers ← entries_of found
    ok (
      record {
        timestamp = timestamp;
        publisher = publisher;
        headers = headers;
        id = id;
        schema = schema;
        format_version = format;
      },
      content,
    )

  -- The transport's attributes carry the meta attributes.
  unfoldable pub extract_plain : Value → Entries → Result (MetaAttributes × Value)
  extract_plain payload attributes = do
    meta ← decode_meta_attributes setting attributes
    guard (equals_version meta.format_version format_version) validation_error
    ok (meta, payload)

  unfoldable pub extract_data : Payload → Entries → Bool → Result (MetaAttributes × Value)
  unfolding extract_container extract_plain
  extract_data (binary b) attributes use_transport = raise assertion_error
  extract_data (text s) attributes use_transport = do
    payload ← from_option validation_error (lib.loads s)
    if use_transport then extract_plain payload attributes else extract_container payload

  unfoldable pub extract_data_firehose : String → Result (MetaAttributes × Value)
  unfolding extract_data
  extract_data_firehose line = extract_data (text line) [] false

  -- f"{major_version}.*"
  unfoldable pub schema_of : String → ℕ → Result Value
  unfolding schema_fmt decimal_onto
  schema_of message_type major_version =
      from_option validation_error
        (lib.resolve (schema_fmt schema_root message_type (decimal_onto major_version ".*")))

  unfoldable pub verify_known_minor_version : String → StrictVersion → Result (Unit {0})
  unfolding schema_of strict_version_of subscript
  verify_known_minor_version message_type full_version = do
    schema ← schema_of message_type full_version.major
    schema_full_version ← subscript schema "x-version" >>= strict_version_of
    guard (not (ltb schema_full_version.minor full_version.minor)) validation_error

  unfoldable pub decode_data : MetaAttributes → String → StrictVersion → Value → Result Value
  unfolding schema_of value_starts_with
  decode_data meta message_type full_version content = do
    ours ← value_starts_with meta.schema schema_root
    guard ours validation_error
    schema ← schema_of message_type full_version.major
    guard (lib.valid content schema) validation_error
    ok content

  unfoldable pub container : MetaAttributes → Value → Value
  container meta content = dict (
      field (name "format_version") (str (version_str format_version)) (
        field (name "schema") meta.schema (
          field (name "id") meta.id (
            field (name "metadata")
              (dict (
                field (name "timestamp") meta.timestamp (
                  field (name "publisher") meta.publisher
                    (field (name "headers") (dict (of_entries meta.headers)) end))))
              (field (name "data") content end)))))

  -- `_encode_payload_helper`
  unfoldable pub encode_payload : MetaAttributes → Value → Bool → Result (Payload × Entries)
  unfolding container
  encode_payload meta content false = do
    line ← lib.dumps (container meta content)
    ok (text line, meta.headers)
  encode_payload meta content true = do
    attributes ← encode_meta_attributes lib.show setting meta
    line ← lib.dumps content
    ok (text line, attributes)

  unfoldable pub encode_payload_firehose :
      String → StrictVersion → MetaAttributes → Value → Result String
  encode_payload_firehose message_type version meta content = lib.dumps (container meta content)

  abbrev pub json_format : Format Value Value
  json_format = record {
    schema_fmt = schema_fmt schema_root;
    current_format_version = format_version;
    extract_data = extract_data;
    extract_data_firehose = extract_data_firehose;
    decode_data = decode_data;
    verify_known_minor_version = verify_known_minor_version;
    encode_payload = encode_payload;
    encode_payload_firehose = encode_payload_firehose;
  }
