-- ===== src/Tests/Protobufs.antt =====
-- Messages with the protobuf validator.
use hedwig_python.Prelude.{
  String, ◌≡◌, refl, true, false, none, some, List, [], ◌∷◌, string_eq, nat_eq, All,
}
use hedwig_python.Prelude.Int.{pos}
use hedwig_python.Python.Dict.{get, has_key, put, update, IsDict}
use hedwig_python.Python.Dict.Arranged.{IsArranged}
use hedwig_python.Python.Exn.{ok}
use hedwig_python.Python.Value.{name, int, str, Entries, key_eq, to_str}
use hedwig_python.Text.Base64.{
  decodebytes, decode_text, value_of, place_of, symbol, letter_at, step, value_step, padding_step,
}
use hedwig_python.Text.Base64.Unbroken.{b64encode}
use hedwig_python.Text.Decimal.{decimal_onto, emit, digit, is_digit, span_digits}
use hedwig_python.Text.IntLiteral.{int_of, int_str}
use hedwig_python.Text.Prefix.{starts_with}
use hedwig_python.Text.Segments.{search_schema, split_slash}
use hedwig_python.Version.{StrictVersion, version, version_str, parse, version_beq}
use hedwig_python.Models.{Message, with_headers, with_provider_metadata}
use hedwig_python.Validator.{binary}
use hedwig_python.Validator.Headers.{verify_headers, IsSane}
use hedwig_python.Validator.MessageType.{encode_message_type, decode_message_type}
use hedwig_python.Validator.Attributes.{
  own_attributes, encode_meta_attributes, decode_meta_attributes, check_required, custom_headers,
}
use hedwig_python.Validator.Codec.{
  serialize, deserialize, serialize_with, deserialize_with, build, meta_of, serialize_containerized,
  deserialize_containerized, serialize_firehose, deserialize_firehose,
}
use hedwig_python.JsonSchema.{equals_version}
use hedwig_python.JsonSchema.Check.{major_of}
use hedwig_python.JsonSchema.RoundTrip.{IsTyped}
use hedwig_python.Protobuf.{
  Container, binary_coding, numbered_eq, Messages, schema_fmt, set_headers,
}
use hedwig_python.Protobuf.Wire.{
  verify_known_minor_version, extract_data, extract_data_firehose, decode_extracted, decode_data,
  fill_container, encode_payload, encode_payload_firehose, proto_format,
}
use hedwig_python.Protobuf.RoundTrip.{binary-IsCoding, deserialize-serialize_proto}
use hedwig_python.Protobuf.Boxed.{boxed, deserialize-serialize_container}
use hedwig_python.Protobuf.Boxed.Firehose.{deserialize-serialize_line}
use hedwig_python.Protobuf.Check.{
  check_schema, check_messages, check_message, message_type_of, register, class_parts, number_of,
  check_keys,
}
use hedwig_python.Protobuf.Check.Registered.{IsListed, IsDeclared, check_schema-IsDeclared}
use hedwig_python.Tests.Codecs.{trip-IsTypeName}
use hedwig_python.Tests.Toy.{same}
use hedwig_python.Tests.Protos.{
  Kind, trip, ping, Note, Held, packed_note, packed_word, parse_note, container_beq, held_beq,
  kind_beq, bool_beq, proto_lib, proto_lib-IsPrinting, proto_lib-IsBoxing, proto_lib-IsLining,
}

abbrev note : Note
note = record { kind = trip; is_on = true }

abbrev request : Entries
request = (name "request_id", str "r-1") ∷ []

abbrev message : StrictVersion → Message Note String
message v = record {
  content = note;
  type = "trip";
  version = v;
  id = str "id-1";
  metadata = record {
    timestamp = int (pos 1460868253255);
    publisher = str "myapp";
    headers = request;
    provider_metadata = none;
  };
}

message-IsTyped : (v : StrictVersion) → IsTyped (message v)
message-IsTyped v = record {
  millis = pos 1460868253255;
  service = "myapp";
  uuid = "id-1";
  timestamp = refl;
  publisher = refl;
  id = refl;
}

abbrev messages : Messages Kind
messages = (("trip", 1), trip) ∷ (("ping", 2), ping) ∷ []

registered : get ("trip", 1) messages ≡ some trip
unfolding get
registered = refl

request-IsDict : IsDict request
unfolding has_key
request-IsDict = (refl, tt)

request-IsSane : All IsSane request
unfolding starts_with
request-IsSane = ((refl, refl, refl), tt)

-- The containers for a known minor version and for one that is not known.
abbrev box : Container Held
box = boxed (pos 1460868253255) "myapp" request "id-1" "trip/1.2" (packed_note note)

abbrev odd_box : Container Held
odd_box = boxed (pos 1460868253255) "myapp" request "id-1" "trip/1.5" (packed_word "AQ==")

abbrev attributes : Entries
attributes =
    (name "hedwig_format_version", str "1.0")
    ∷ (name "hedwig_id", str "id-1")
    ∷ (name "hedwig_message_timestamp", str "1460868253255")
    ∷ (name "hedwig_publisher", str "myapp")
    ∷ (name "hedwig_schema", str "trip/1.2")
    ∷ (name "request_id", str "r-1")
    ∷ []

serialized :
    serialize true
      (proto_format (proto_lib box) (binary_coding (proto_lib box)) true messages)
      (message (version 1 2))
    ≡ ok (binary (1 ∷ []), attributes)
unfolding serialize serialize_with deserialize_with build meta_of verify_known_minor_version
    encode_payload extract_data decode_data decode_extracted binary_coding parse_note get put update
    has_key verify_headers starts_with encode_message_type decode_message_type schema_fmt
    encode_meta_attributes decode_meta_attributes own_attributes custom_headers check_required
    equals_version version_beq version_str parse int_of int_str decimal_onto emit digit is_digit
    span_digits search_schema split_slash to_str
serialized = refl

deserialize-serialize_proto_example :
    deserialize true
      (proto_format (proto_lib box) (binary_coding (proto_lib box)) true messages)
      (binary (1 ∷ []))
      attributes
      (some "receipt")
    ≡ ok (with_provider_metadata (message (version 1 2)) (some "receipt"))
deserialize-serialize_proto_example =
    deserialize-serialize_proto (proto_lib box) (binary_coding (proto_lib box)) (λ n. n.kind)
      (binary-IsCoding (proto_lib box) (λ n. n.kind) (proto_lib-IsPrinting box)) messages
      (message (version 1 2)) (binary (1 ∷ [])) attributes (some "receipt")
      (message-IsTyped (version 1 2)) trip-IsTypeName registered request-IsDict serialized

contained :
    serialize_containerized
      (proto_format (proto_lib box) (binary_coding (proto_lib box)) false messages)
      (message (version 1 2))
    ≡ ok (binary (7 ∷ []))
unfolding serialize_containerized serialize_with deserialize_with build meta_of
    verify_known_minor_version encode_payload extract_data decode_data decode_extracted
    binary_coding get put has_key verify_headers fill_container set_headers starts_with
    encode_message_type decode_message_type schema_fmt version_str parse decimal_onto emit digit
    is_digit span_digits search_schema split_slash to_str container_beq held_beq kind_beq bool_beq
    same
contained = refl

deserialize-serialize_container_example :
    (found : Entries) × IsArranged found request
    × (deserialize_containerized
          (proto_format (proto_lib box) (binary_coding (proto_lib box)) false messages)
          (binary (7 ∷ []))
        ≡ ok (with_provider_metadata (with_headers (message (version 1 2)) found) none))
deserialize-serialize_container_example =
    deserialize-serialize_container (proto_lib box) (binary_coding (proto_lib box)) (λ n. n.kind)
      (proto_lib-IsBoxing box) false messages (message (version 1 2)) (binary (7 ∷ []))
      (message-IsTyped (version 1 2)) trip-IsTypeName registered request-IsDict contained

lined :
    serialize_firehose
      (proto_format (proto_lib odd_box) (binary_coding (proto_lib odd_box)) false messages)
      (message (version 1 5))
    ≡ ok "known"
unfolding serialize_firehose deserialize_firehose build meta_of verify_known_minor_version
    encode_payload_firehose extract_data_firehose decode_data decode_extracted binary_coding
    parse_note get put has_key fill_container set_headers encode_message_type decode_message_type
    schema_fmt version_str parse decimal_onto emit digit is_digit span_digits search_schema
    split_slash to_str container_beq held_beq same b64encode decodebytes decode_text value_of
    place_of symbol letter_at step value_step padding_step
lined = refl

deserialize-serialize_line_example :
    (found : Entries) × IsArranged found request
    × (deserialize_firehose
          (proto_format (proto_lib odd_box) (binary_coding (proto_lib odd_box)) false messages)
          "known"
        ≡ ok (with_provider_metadata (with_headers (message (version 1 5)) found) none))
deserialize-serialize_line_example =
    deserialize-serialize_line (proto_lib odd_box) (λ n. n.kind) (proto_lib-IsPrinting odd_box)
      (proto_lib-IsLining odd_box) false messages (message (version 1 5)) "known"
      (message-IsTyped (version 1 5)) trip-IsTypeName registered request-IsSane request-IsDict lined

abbrev keys : List (String × String)
keys = ("trip", "1.*") ∷ ("ping", "2.*") ∷ []

checked : check_schema (proto_lib box) keys (trip ∷ ping ∷ []) ≡ ok messages
unfolding check_schema check_messages check_message message_type_of register class_parts number_of
    check_keys major_of put has_key span_digits is_digit
checked = refl

check_schema-IsDeclared_example :
    All (IsListed (proto_lib box) messages) (trip ∷ ping ∷ [])
    × All (IsDeclared (proto_lib box) messages) keys
check_schema-IsDeclared_example =
    check_schema-IsDeclared (proto_lib box) keys (trip ∷ ping ∷ []) messages checked
