-- ===== src/Protobuf/RoundTrip.antt =====
-- With transport attributes: a message that `serialize` returned a payload for is given back by
-- `deserialize`.
use hedwig_python.Prelude.{
  ℕ, String, ◌≡◌, refl, sym, ◌∙◌, subst, Bool, true, Option, some, List, arith, All,
}
use hedwig_python.Prelude.Int.{ℤ}
use hedwig_python.Python.Dict.{get, IsDict}
use hedwig_python.Python.Exn.{ok, >>=-eq-ok, ok-inj}
use hedwig_python.Python.Value.{Entries, key_eq}
use hedwig_python.Text.Segments.{search_schema-bare}
use hedwig_python.Version.{StrictVersion, version_beq_refl}
use hedwig_python.Models.{Message, headers, major_version, with_provider_metadata}
use hedwig_python.Validator.{Payload, MetaAttributes}
use hedwig_python.Validator.Headers.{IsSane}
use hedwig_python.Validator.MessageType.{IsTypeName, IsSchemaFmt, encode_message_type}
use hedwig_python.Validator.Attributes.{encode_meta_attributes, decode_meta_attributes}
use hedwig_python.Validator.Attributes.RoundTrip.{wire_meta, decode-encode_meta_attributes}
use hedwig_python.Validator.Codec.{meta_of, serialize, deserialize}
use hedwig_python.Validator.Codec.Checked.{serialize_with-IsServed}
use hedwig_python.Validator.Codec.RoundTrip.{Reads, deserialize_with-serialize_with}
use hedwig_python.JsonSchema.{equals_version}
use hedwig_python.JsonSchema.RoundTrip.{slash, IsTyped}
use hedwig_python.Protobuf.{
  Library, Coding, binary_coding, json_coding, numbered_eq, Messages, Extracted, encoded,
  schema_fmt, format_version,
}
use hedwig_python.Protobuf.Wire.{
  extract_data, decode_extracted, decode_data, encode_payload, proto_format,
}

pub schema_fmt-IsSchemaFmt : IsSchemaFmt schema_fmt
unfolding schema_fmt
schema_fmt-IsSchemaFmt t v ht hv nt nv = rw (slash v) (search_schema-bare t v ht hv nt nv)

-- What package protobuf promises of a validator's coding: a message is decoded, by its class, from
-- what it was encoded to.
pub record IsCoding {C M A : Type 0} (coding : Coding C M A) (kind : M → C) : Type 0 where
  pub decode_proto-encode_proto :
      (m : M) (payload : Payload)
      → coding.encode_proto m ≡ ok payload
      → coding.decode_proto (kind m) payload ≡ ok m

-- It promises so for both of its formats.
pub record IsPrinting {C M A : Type 0} (lib : Library C M A) (kind : M → C) : Type 0 where
  pub parse-serialize :
      (m : M) (bytes : List ℕ) → lib.serialize m ≡ ok bytes → lib.parse (kind m) bytes ≡ some m
  pub parse_json-print_json :
      (m : M) (s : String) → lib.print_json m ≡ ok s → lib.parse_json (kind m) s ≡ some m

module _ {C M A : Type 0} (lib : Library C M A) (kind : M → C)
    (printing : IsPrinting lib kind) where
  pub binary-IsCoding : IsCoding (binary_coding lib) kind
  unfolding binary_coding
  binary-IsCoding = record {
    decode_proto-encode_proto = λ m payload h.
        let (bytes, e, same) = >>=-eq-ok (lib.serialize m) _ h in
        rw (← ok-inj same) (rw (printing.parse-serialize m bytes e) refl);
  }

  pub json-IsCoding : IsCoding (json_coding lib) kind
  unfolding json_coding
  json-IsCoding = record {
    decode_proto-encode_proto = λ m payload h.
        let (line, e, same) = >>=-eq-ok (lib.print_json m) _ h in
        rw (← ok-inj same) (rw (printing.parse_json-print_json m line e) refl);
  }

module _ {C M A : Type 0} (lib : Library C M A) (coding : Coding C M A) (setting : Bool)
    (proto_messages : Messages C) where
  pub meta_of-wire_meta :
      {P : Type 0} (m : Message M P) (typed : IsTyped m)
      → meta_of (proto_format lib coding setting proto_messages) m
        ≡ wire_meta typed.millis typed.service
            (headers m)
            typed.uuid
            (encode_message_type (proto_format lib coding setting proto_messages) m.type m.version)
            format_version
  unfolding meta_of
  meta_of-wire_meta m typed = ground (arith, typed.timestamp, typed.publisher, typed.id)

  -- The class that is found decodes what it is given.
  pub decode_data-class :
      (meta : MetaAttributes) (t : String) (v : StrictVersion) (data_ : Extracted A) (msg_class : C)
      (content : M)
      → get (t, v.major) proto_messages ≡ some msg_class
      → decode_extracted lib coding setting proto_messages msg_class data_ ≡ ok content
      → decode_data lib coding setting proto_messages meta t v data_ ≡ ok content
  unfolding decode_data
  decode_data-class meta t v data_ msg_class content found e = rw found (rw e refl)

module _ {C M A : Type 0} (lib : Library C M A) (coding : Coding C M A) (kind : M → C)
    (coded : IsCoding coding kind) (proto_messages : Messages C) where
  extract_data_read :
      (z : ℤ) (publisher : String) (headers : Entries) (id schema : String) (payload : Payload)
      (attributes : Entries)
      → decode_meta_attributes true attributes
        ≡ ok (wire_meta z publisher headers id schema format_version)
      → extract_data lib coding true proto_messages payload attributes true
        ≡ ok (wire_meta z publisher headers id schema format_version, encoded payload)
  unfolding extract_data equals_version
  extract_data_read z publisher headers id schema payload attributes decoded =
      rw decoded (rw (version_beq_refl format_version) refl)

  -- What was encoded is extracted again.
  encoded-Reads :
      (z : ℤ) (publisher : String) (headers : Entries) (id schema : String) (content : M)
      (t : String) (v : StrictVersion) (payload : Payload) (attrs : Entries)
      → get (t, v.major) proto_messages ≡ some (kind content)
      → All IsSane headers
      → IsDict headers
      → encode_payload lib coding true proto_messages
          (wire_meta z publisher headers id schema format_version)
          content
          true
        ≡ ok (payload, attrs)
      → Reads
          (proto_format lib coding true proto_messages)
          true
          (wire_meta z publisher headers id schema format_version)
          t
          v
          content
          payload
          attrs
  unfolding encode_payload
  encoded-Reads z publisher headers id schema content t v payload attrs found sane once h =
      let meta = wire_meta z publisher headers id schema format_version in
      let (data_, put, h₁) = >>=-eq-ok (coding.encode_proto content) _ h in
      let (attributes, written, same) =
        >>=-eq-ok (encode_meta_attributes lib.show true meta) _ h₁ in
      let back =
        decode-encode_meta_attributes lib.show z publisher headers id schema format_version sane
          once in
      let read =
        extract_data_read z publisher headers id schema data_ attributes (rw written at back) in
      let decoded =
        decode_data-class lib coding true proto_messages meta t v (encoded data_) (kind content)
          content found
          (unfold decode_extracted in coded.decode_proto-encode_proto content data_ put) in
      record {
        wire = meta;
        raw = encoded data_;
        extracted = ground (arith, read);
        agrees = record {
          timestamp = refl;
          publisher = refl;
          headers = refl;
          id = refl;
          schema = refl;
        };
        decoded = λ d e. ok-inj (sym e ∙ decoded);
      }

-- With transport attributes, whatever the provider adds, and for both codings: a message of a class
-- that is registered for its type and major version is given back by `deserialize`, field by field,
-- if `serialize` returned.
pub deserialize-serialize_proto :
    {C M A P : Type 0} (lib : Library C M A) (coding : Coding C M A) (kind : M → C)
    (coded : IsCoding coding kind) (proto_messages : Messages C) (m : Message M P)
    (payload : Payload) (attrs : Entries) (pm : Option P)
    → IsTyped m
    → IsTypeName m.type
    → get (m.type, major_version m) proto_messages ≡ some (kind m.content)
    → IsDict (headers m)
    → serialize true (proto_format lib coding true proto_messages) m ≡ ok (payload, attrs)
    → deserialize true (proto_format lib coding true proto_messages) payload attrs pm
      ≡ ok (with_provider_metadata m pm)
unfolding serialize deserialize
deserialize-serialize_proto lib coding kind coded proto_messages m payload attrs pm typed named
      found once h =
    let fmt = proto_format lib coding true proto_messages in
    let s = serialize_with-IsServed fmt m true payload attrs h in
    let wired = meta_of-wire_meta lib coding true proto_messages m typed in
    let schema = encode_message_type fmt m.type m.version in
    let reads =
      encoded-Reads lib coding kind coded proto_messages typed.millis typed.service (headers m)
        typed.uuid schema m.content m.type m.version payload attrs found s.sane once
        (subst
          (λ meta.
            encode_payload lib coding true proto_messages meta m.content true ≡ ok (payload, attrs))
          wired s.encoded) in
    deserialize_with-serialize_with fmt schema_fmt-IsSchemaFmt true m payload attrs pm h named (
      subst (λ meta. Reads fmt true meta m.type m.version m.content payload attrs) (sym wired)
        reads)
