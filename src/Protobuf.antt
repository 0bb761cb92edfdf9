-- ===== src/Protobuf.antt =====
-- hedwig/validators/protobuf.py: `ProtobufValidator` and `ProtobufJSONValidator`.
pub mod Wire
pub mod RoundTrip
pub mod Boxed
pub mod Check
use Prim.Native.String.{◌++◌ as ◌<>◌}
use mathlib.Core.Option
use hedwig_python.Prelude.{
  ℕ, String, ◌≡◌, refl, Bool, true, false, ◌&&◌, not, Option, none, some, List, [], ◌∷◌, ltb, ◌==◌,
  string_eq, nat_eq, ◌↔◌, if◌then◌else◌, Eq, arith, ==_iff,
}
use hedwig_python.Prelude.Int.{ℤ}
use hedwig_python.Python.Dict.{get, put}
use hedwig_python.Python.Exn.{
  Result, ok, raise, validation_error, type_error, assertion_error, value_error, runtime_error,
  decode_error, guard, from_option, ◌>>=◌, ◌>>◌,
}
use hedwig_python.Python.Value.{
  Key, name, other_key, Value, str, int, strict_version, Entries, to_str, key_eq,
}
use hedwig_python.Text.Base64.{decodebytes}
use hedwig_python.Text.Base64.Unbroken.{b64encode}
use hedwig_python.Version.{StrictVersion, version, version_str}
use hedwig_python.Validator.{Payload, text, binary, MetaAttributes, Format}
use hedwig_python.Validator.Attributes.{decode_meta_attributes, encode_meta_attributes}
use hedwig_python.JsonSchema.{equals_version}

-- The options of a message class, hedwig/protobuf/options.proto. `is_defined` says that the
-- application set them; a field that was not set is 0 or the empty text.
pub record Options : Type 0 where
  pub is_defined : Bool
  pub message_type : String
  pub major_version : ℕ
  pub minor_version : ℕ

-- PayloadV1, hedwig/protobuf/container.proto, with the type `A` of Any. The timestamp is in
-- milliseconds.
pub record Container (A : Type 0) : Type 0 where
  pub format_version : String
  pub id : String
  pub publisher : String
  pub timestamp : ℤ
  pub headers : Entries
  pub schema : String
  pub data_ : A

-- Package protobuf, for classes `C`, messages `M` and values `A` of Any: `parse` and
-- `parse_container` are ParseFromString, `parse_json` and `parse_json_container` are
-- json_format.Parse, where `none` is their error; the printing functions are SerializeToString and
-- MessageToJson, which may raise. `pack` and `pack_text` are Pack of a message, and of a Value that is a text; `is`
-- is Is; `unpack` is Unpack; `value_text` gives the text of an Any that is a Value, which is
-- `some none` if the Value is of another kind. `show` is `str` on objects that are no texts or
-- numbers.
pub record Library (C M A : Type 0) : Type 0 where
  pub class_name : C → String
  pub options : C → Options
  pub parse : C → List ℕ → Option M
  pub serialize : M → Result (List ℕ)
  pub parse_container : List ℕ → Option (Container A)
  pub serialize_container : Container A → Result (List ℕ)
  pub parse_json : C → String → Option M
  pub print_json : M → Result String
  pub parse_json_container : String → Option (Container A)
  pub print_json_container : Container A → Result String
  pub pack : M → A
  pub pack_text : String → A
  pub is : A → C → Bool
  pub unpack : C → A → Option M
  pub value_text : A → Option (Option String)
  pub show : Value → String

-- `_decode_proto` and `_encode_proto` of a validator, on messages and on containers.
pub record Coding (C M A : Type 0) : Type 0 where
  pub decode_proto : C → Payload → Result M
  pub encode_proto : M → Result Payload
  pub decode_container : Payload → Result (Container A)
  pub encode_container : Container A → Result Payload

module _ {C M A : Type 0} (lib : Library C M A) where
  -- decode_proto_json and encode_proto_json
  abbrev pub decode_proto_json : {X : Type 0} → (String → Option X) → Payload → Result X
  decode_proto_json parse (text s) = from_option decode_error (parse s)
  decode_proto_json parse (binary bytes) = raise assertion_error

  abbrev pub decode_proto_bytes : {X : Type 0} → (List ℕ → Option X) → Payload → Result X
  decode_proto_bytes parse (binary bytes) = from_option decode_error (parse bytes)
  decode_proto_bytes parse (text s) = raise assertion_error

  -- ProtobufValidator
  unfoldable pub binary_coding : Coding C M A
  binary_coding = record {
    decode_proto = λ msg_class. decode_proto_bytes (lib.parse msg_class);
    encode_proto = λ msg. lib.serialize msg >>= λ bytes. ok (binary bytes);
    decode_container = decode_proto_bytes lib.parse_container;
    encode_container = λ msg. lib.serialize_container msg >>= λ bytes. ok (binary bytes);
  }

  -- ProtobufJSONValidator
  unfoldable pub json_coding : Coding C M A
  json_coding = record {
    decode_proto = λ msg_class. decode_proto_json (lib.parse_json msg_class);
    encode_proto = λ msg. lib.print_json msg >>= λ s. ok (text s);
    decode_container = decode_proto_json lib.parse_json_container;
    encode_container = λ msg. lib.print_json_container msg >>= λ s. ok (text s);
  }

-- except (DecodeError, RuntimeError, AssertionError, ParseError): raise ValidationError
abbrev pub as_invalid : {X : Type 0} → Result X → Result X
as_invalid (raise decode_error) = raise validation_error
as_invalid (raise runtime_error) = raise validation_error
as_invalid (raise assertion_error) = raise validation_error
as_invalid r = r

-- Keys of `proto_messages`: a message type and a major version.
pub numbered_iff : (a b : String × ℕ) → ((a.0 == b.0 && a.1 == b.1) ≡ true) ↔ (a ≡ b)
numbered_iff (s, m) (t, n) = ground (arith, ==_iff s t, ==_iff m n)

instance abbrev pub numbered_eq : Eq (String × ℕ)
numbered_eq = record { same_key = λ a b. a.0 == b.0 && a.1 == b.1; same_key_iff = numbered_iff }

abbrev pub Messages : Type 0 → Type 0
Messages C = List ((String × ℕ) × C)

-- Data as extracted: an Any, or an encoded message.
pub data Extracted (A : Type 0) : Type 0 where
  any : A → Extracted A
  encoded : Payload → Extracted A

unfoldable pub schema_fmt : String → String → String
schema_fmt message_type message_version = message_type <> ("/" <> message_version)

abbrev pub format_version : StrictVersion
format_version = version 1 0

-- Fields of protobuf messages take values of their type only.
abbrev pub text_field : Value → Result String
text_field (str s) = ok s
text_field other = raise type_error

abbrev pub int_field : Value → Result ℤ
int_field (int z) = ok z
int_field other = raise type_error

-- for k, v in headers.items(): msg.metadata.headers[k] = v
unfoldable pub set_headers : Entries → Entries → Result Entries
set_headers [] found = ok found
set_headers ((name k, str v) ∷ headers) found = set_headers headers (put (name k) (str v) found)
set_headers (_ ∷ headers) found = raise type_error
