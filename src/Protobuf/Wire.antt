-- ===== src/Protobuf/Wire.antt =====
-- The abstract methods of `HedwigBaseValidator`, as hedwig/validators/protobuf.py gives them.
use mathlib.Core.Option
use hedwig_python.Prelude.{ℕ, String, Bool, true, false, not, Option, none, some, [], ltb}
use hedwig_python.Python.Dict.{get}
use hedwig_python.Python.Exn.{
  Result, ok, raise, validation_error, assertion_error, value_error, decode_error, guard,
  from_option, ◌>>=◌, ◌>>◌,
}
use hedwig_python.Python.Value.{str, int, Entries, to_str, key_eq}
use hedwig_python.Text.Base64.{decodebytes}
use hedwig_python.Text.Base64.Unbroken.{b64encode}
use hedwig_python.Version.{StrictVersion, version_str}
use hedwig_python.Validator.{Payload, text, binary, MetaAttributes, Format}
use hedwig_python.Validator.Attributes.{decode_meta_attributes, encode_meta_attributes}
use hedwig_python.JsonSchema.{equals_version}
use hedwig_python.Protobuf.{
  Container, Library, Coding, decode_proto_json, as_invalid, numbered_eq, Messages, Extracted, any,
  encoded, schema_fmt, format_version, text_field, int_field, set_headers,
}

-- The meta attributes that a container carries.
abbrev pub container_meta : {A : Type 0} → Container A → MetaAttributes
container_meta msg = record {
  timestamp = int msg.timestamp;
  publisher = str msg.publisher;
  headers = msg.headers;
  id = str msg.id;
  schema = str msg.schema;
  format_version = str msg.format_version;
}

-- `setting` is HEDWIG_USE_TRANSPORT_MESSAGE_ATTRIBUTES, and `proto_messages` the field.
module _ {C M A : Type 0} (lib : Library C M A) (coding : Coding C M A) (setting : Bool)
    (proto_messages : Messages C) where
  abbrev pub class_of : String → ℕ → Result C
  class_of message_type major_version =
      from_option validation_error (get (message_type, major_version) proto_messages)

  unfoldable pub verify_known_minor_version : String → StrictVersion → Result (Unit {0})
  verify_known_minor_version message_type full_version = do
    msg_class ← class_of message_type full_version.major
    guard (not (ltb (lib.options msg_class).minor_version full_version.minor)) validation_error

  unfoldable pub extract_data : Payload → Entries → Bool → Result (MetaAttributes × Extracted A)
  extract_data message_payload attributes false = do
    msg_payload ← as_invalid (coding.decode_container message_payload)
    ok (container_meta msg_payload, any msg_payload.data_)
  extract_data message_payload attributes true = do
    meta_attrs ← decode_meta_attributes setting attributes
    guard (equals_version meta_attrs.format_version format_version) validation_error
    ok (meta_attrs, encoded message_payload)

  -- A Value is the base64 of a message of an unknown type.
  abbrev pub opened : A → Option (Option String) → Result (Extracted A)
  opened data_ none = ok (any data_)
  opened data_ (some none) = raise assertion_error
  opened data_ (some (some s)) =
      from_option value_error (Option.map (λ bytes. encoded (binary bytes)) (decodebytes s))

  unfoldable pub extract_data_firehose : String → Result (MetaAttributes × Extracted A)
  extract_data_firehose line = do
    msg_payload ← as_invalid (decode_proto_json lib lib.parse_json_container (text line))
    data_ ← opened msg_payload.data_ (lib.value_text msg_payload.data_)
    ok (container_meta msg_payload, data_)

  -- The body of the `try` statement.
  unfoldable pub decode_extracted : C → Extracted A → Result M
  decode_extracted msg_class (any data_) = do
    guard (lib.is data_ msg_class) assertion_error
    from_option decode_error (lib.unpack msg_class data_)
  decode_extracted msg_class (encoded payload) = coding.decode_proto msg_class payload

  unfoldable pub decode_data : MetaAttributes → String → StrictVersion → Extracted A → Result M
  unfolding decode_extracted
  decode_data meta_attrs message_type full_version data_ = do
    msg_class ← class_of message_type full_version.major
    as_invalid (decode_extracted msg_class data_)

  -- The container with its meta attributes set.
  unfoldable pub fill_container : MetaAttributes → A → Result (Container A)
  unfolding set_headers to_str
  fill_container meta_attrs data_ = do
    publisher ← text_field meta_attrs.publisher
    timestamp ← int_field meta_attrs.timestamp
    headers ← set_headers meta_attrs.headers []
    schema ← text_field meta_attrs.schema
    ok (record {
      format_version = version_str format_version;
      id = to_str lib.show meta_attrs.id;
      publisher = publisher;
      timestamp = timestamp;
      headers = headers;
      schema = schema;
      data_ = data_;
    })

  unfoldable pub encode_payload : MetaAttributes → M → Bool → Result (Payload × Entries)
  unfolding fill_container
  encode_payload meta_attrs data_ false = do
    msg ← fill_container meta_attrs (lib.pack data_)
    payload ← coding.encode_container msg
    ok (payload, meta_attrs.headers)
  encode_payload meta_attrs data_ true = do
    payload ← coding.encode_proto data_
    msg_attrs ← encode_meta_attributes lib.show setting meta_attrs
    ok (payload, msg_attrs)

  -- try: ... except ValidationError: ...
  abbrev pub packed : Result (Unit {0}) → M → Result A
  packed (ok _) data_ = ok (lib.pack data_)
  packed (raise validation_error) data_ =
      lib.serialize data_ >>= λ bytes. ok (lib.pack_text (b64encode bytes))
  packed (raise e) data_ = raise e

  unfoldable pub encode_payload_firehose :
      String → StrictVersion → MetaAttributes → M → Result String
  unfolding verify_known_minor_version fill_container b64encode
  encode_payload_firehose message_type version meta_attrs data_ = do
    any_ ← packed (verify_known_minor_version message_type version) data_
    msg ← fill_container meta_attrs any_
    lib.print_json_container msg

  abbrev pub proto_format : Format M (Extracted A)
  proto_format = record {
    schema_fmt = schema_fmt;
    current_format_version = format_version;
    extract_data = extract_data;
    extract_data_firehose = extract_data_firehose;
    decode_data = decode_data;
    verify_known_minor_version = verify_known_minor_version;
    encode_payload = encode_payload;
    encode_payload_firehose = encode_payload_firehose;
  }
