-- ===== src/Tests/Codecs.antt =====
-- The JSON validator on a concrete message.
use hedwig_python.Prelude.{
  String, ◌≡◌, refl, true, false, Option, none, some, [], ◌∷◌, ◌++◌, All, ◌==◌, string_eq,
  if◌then◌else◌,
}
use hedwig_python.Prelude.Int.{pos}
use hedwig_python.Python.Dict.{IsDict, has_key, get, put, update}
use hedwig_python.Python.Exn.{ok}
use hedwig_python.Python.Plain.{plain}
use hedwig_python.Python.Value.{name, Value, int, str, dict, end, field, Entries, key_eq, to_str}
use hedwig_python.Version.{version, parse, version_beq, version_str}
use hedwig_python.Models.{Message, headers, with_headers, with_provider_metadata}
use hedwig_python.Text.Segments.{has_slash, search_schema, split_slash}
use hedwig_python.Text.Prefix.{starts_with}
use hedwig_python.Text.IntLiteral.{int_of, int_str}
use hedwig_python.Text.Decimal.{decimal_onto, emit, digit, is_digit, span_digits}
use hedwig_python.Validator.{text}
use hedwig_python.Validator.Headers.{verify_headers, IsSane}
use hedwig_python.Validator.Attributes.{
  encode_meta_attributes, decode_meta_attributes, custom_headers, check_required, own_attributes,
}
use hedwig_python.Validator.MessageType.{IsTypeName, encode_message_type, decode_message_type}
use hedwig_python.Validator.Codec.{
  serialize, deserialize, serialize_containerized, deserialize_containerized, serialize_firehose,
  deserialize_firehose, meta_of, deserialize_with, serialize_with, build,
}
use hedwig_python.JsonSchema.{
  Library, json_format, verify_known_minor_version, encode_payload, extract_data, container,
  entries_of, equals_version, extract_container, extract_plain, schema_fmt, schema_of,
  strict_version_of, subscript, value_starts_with, decode_data,
}
use hedwig_python.JsonSchema.RoundTrip.{IsJson, IsTyped, deserialize-serialize}
use hedwig_python.JsonSchema.{encode_payload_firehose, extract_data_firehose}
use hedwig_python.JsonSchema.Firehose.{deserialize_firehose-serialize_firehose}
use hedwig_python.JsonSchema.Container.{deserialize_containerized-serialize_containerized}
use hedwig_python.Tests.Toy.{toy, toy-IsJson, dumps, loads, same}

abbrev pub root : String
root = "https://h/schema"

-- The schema of `trip`, of which minor versions up to 3 are known.
abbrev resolve : String → Option Value
resolve s =
    if s == "https://h/schema#/schemas/trip/1.*"
    then some (dict (field (name "x-version") (str "1.3") end))
    else none

abbrev pub no_content : Value
no_content = dict end

abbrev pub lib : Library
lib = toy no_content (str "unused") (λ v s. true) resolve

abbrev pub trip_for : (P : Type 0) → Message Value P
trip_for P = record {
  content = no_content;
  type = "trip";
  version = version 1 2;
  id = str "id-1";
  metadata = record {
    timestamp = int (pos 1460868253255);
    publisher = str "myapp";
    headers = (name "request_id", str "r-1") ∷ [];
    provider_metadata = none;
  };
}

abbrev pub trip : Message Value String
trip = trip_for String

abbrev pub trip_attributes : Entries
trip_attributes =
    (name "hedwig_format_version", str "1.0")
    ∷ (name "hedwig_id", str "id-1")
    ∷ (name "hedwig_message_timestamp", str "1460868253255")
    ∷ (name "hedwig_publisher", str "myapp")
    ∷ (name "hedwig_schema", str "https://h/schema#/schemas/trip/1.2")
    ∷ (name "request_id", str "r-1")
    ∷ []

pub trip_for-serialize :
    (P : Type 0)
    → serialize true (json_format lib true root) (trip_for P) ≡ ok (text "first", trip_attributes)
unfolding serialize verify_known_minor_version encode_payload extract_data container entries_of
    equals_version extract_container extract_plain schema_fmt schema_of strict_version_of subscript
    value_starts_with decode_data get update put has_key parse version_beq version_str
    verify_headers starts_with encode_meta_attributes decode_meta_attributes custom_headers
    check_required own_attributes meta_of deserialize_with serialize_with build encode_message_type
    decode_message_type int_of int_str decimal_onto emit digit is_digit span_digits search_schema
    split_slash to_str dumps loads same
trip_for-serialize P = refl

-- The same message with a header of a trace.
abbrev pub trace_header : Entries
trace_header = (name "traceparent", str "publish/trip") ∷ []

pub trip_traced-serialize :
    (P : Type 0)
    → serialize true
        (json_format lib true root)
        (with_headers (trip_for P) (update (headers (trip_for P)) trace_header))
      ≡ ok (text "first", trip_attributes ++ trace_header)
unfolding serialize verify_known_minor_version encode_payload extract_data container entries_of
    equals_version extract_container extract_plain schema_fmt schema_of strict_version_of subscript
    value_starts_with decode_data get update put has_key parse version_beq version_str
    verify_headers starts_with encode_meta_attributes decode_meta_attributes custom_headers
    check_required own_attributes meta_of deserialize_with serialize_with build encode_message_type
    decode_message_type int_of int_str decimal_onto emit digit is_digit span_digits search_schema
    with_headers split_slash to_str dumps loads same
trip_traced-serialize P = refl

pub trip-serialize :
    serialize true (json_format lib true root) trip ≡ ok (text "first", trip_attributes)
trip-serialize = trip_for-serialize String

abbrev pub trip_for-IsTyped : (P : Type 0) → IsTyped (trip_for P)
trip_for-IsTyped P = record {
  millis = pos 1460868253255;
  service = "myapp";
  uuid = "id-1";
  timestamp = refl;
  publisher = refl;
  id = refl;
}

abbrev pub trip-IsTyped : IsTyped trip
trip-IsTyped = trip_for-IsTyped String

pub trip-IsTypeName : IsTypeName "trip"
unfolding has_slash
trip-IsTypeName = record { no_slash = refl; nonempty = λ h. cc }

pub trip-plain : plain no_content ≡ true
unfolding plain
trip-plain = refl

pub trip-IsDict : IsDict (headers trip)
unfolding has_key
trip-IsDict = (refl, tt)

abbrev pub lib-IsJson : IsJson lib
lib-IsJson = toy-IsJson no_content (str "unused") (λ v s. true) resolve

deserialize-serialize_example :
    deserialize true (json_format lib true root) (text "first") trip_attributes (some "receipt")
    ≡ ok (with_provider_metadata trip (some "receipt"))
deserialize-serialize_example =
    deserialize-serialize lib lib-IsJson root trip (text "first") trip_attributes (some "receipt")
      trip-IsTyped trip-IsTypeName trip-plain trip-IsDict trip-serialize

-- The container of `trip`.
abbrev box : Value
box = dict (
    field (name "format_version") (str "1.0") (
      field (name "schema") (str "https://h/schema#/schemas/trip/1.2") (
        field (name "id") (str "id-1") (
          field (name "metadata")
            (dict (
              field (name "timestamp") (int (pos 1460868253255)) (
                field (name "publisher") (str "myapp")
                  (field (name "headers") (dict (field (name "request_id") (str "r-1") end)) end))))
            (field (name "data") no_content end)))))

abbrev boxes : Library
boxes = toy no_content box (λ v s. true) resolve

boxed : serialize_containerized (json_format boxes false root) trip ≡ ok (text "second")
unfolding serialize_containerized serialize_with verify_known_minor_version encode_payload
    extract_data container entries_of equals_version extract_container extract_plain schema_fmt
    schema_of strict_version_of subscript value_starts_with decode_data get update put has_key parse
    version_beq version_str verify_headers starts_with encode_meta_attributes decode_meta_attributes
    custom_headers check_required own_attributes meta_of deserialize_with build encode_message_type
    decode_message_type int_of int_str decimal_onto emit digit is_digit span_digits search_schema
    split_slash to_str dumps loads same
boxed = refl

deserialize_containerized-serialize_containerized_example :
    deserialize_containerized (json_format boxes false root) (text "second")
    ≡ ok (with_provider_metadata trip none)
deserialize_containerized-serialize_containerized_example =
    deserialize_containerized-serialize_containerized boxes
      (toy-IsJson no_content box (λ v s. true) resolve) root false trip (text "second") trip-IsTyped
      trip-IsTypeName trip-plain trip-IsDict boxed

wire-IsSane : All IsSane (headers trip)
unfolding starts_with
wire-IsSane = ((refl, refl, refl), tt)

lined : serialize_firehose (json_format boxes false root) trip ≡ ok "second"
unfolding serialize_firehose deserialize_firehose encode_payload_firehose extract_data_firehose
    verify_known_minor_version encode_payload extract_data container entries_of equals_version
    extract_container extract_plain schema_fmt schema_of strict_version_of subscript
    value_starts_with decode_data get update put has_key parse version_beq version_str
    verify_headers starts_with encode_meta_attributes decode_meta_attributes custom_headers
    check_required own_attributes meta_of build encode_message_type decode_message_type int_of
    int_str decimal_onto emit digit is_digit span_digits search_schema split_slash to_str dumps
    loads same
lined = refl

deserialize_firehose-serialize_firehose_example :
    deserialize_firehose (json_format boxes false root) "second"
    ≡ ok (with_provider_metadata trip none)
deserialize_firehose-serialize_firehose_example =
    deserialize_firehose-serialize_firehose boxes (toy-IsJson no_content box (λ v s. true) resolve)
      root false trip "second" trip-IsTyped trip-IsTypeName trip-plain wire-IsSane trip-IsDict lined
