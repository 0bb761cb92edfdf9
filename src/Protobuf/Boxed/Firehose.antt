-- ===== src/Protobuf/Boxed/Firehose.antt =====
-- Lines of firehose files: what `serialize_firehose` of `ProtobufValidator` returned is read back by
-- `deserialize_firehose`, also where the message's minor version is not known.
use hedwig_python.Prelude.{
  ℕ, String, ◌≡◌, refl, ap, ◌∙◌, ◌⊎◌, inl, inr, subst, Bool, true, false, ltb, some, none, List,
  All, Bool-cases,
}
use hedwig_python.Python.Dict.{get, IsDict}
use hedwig_python.Python.Dict.Arranged.{IsArranged}
use hedwig_python.Python.Exn.{Result, ok, raise, validation_error, >>=-eq-ok, ok-inj, ◌>>=◌}
use hedwig_python.Python.Value.{Entries, key_eq}
use hedwig_python.Text.Base64.RoundTrip.{IsByte}
use hedwig_python.Text.Base64.Unbroken.{b64encode, decodebytes-b64encode}
use hedwig_python.Models.{Message, headers, major_version, with_headers, with_provider_metadata}
use hedwig_python.Validator.{binary}
use hedwig_python.Validator.Headers.{IsSane}
use hedwig_python.Validator.MessageType.{
  IsTypeName, encode_message_type, decode-encode_message_type,
}
use hedwig_python.Validator.Codec.{meta_of, build, serialize_firehose, deserialize_firehose}
use hedwig_python.Validator.Codec.RoundTrip.{build-Agrees}
use hedwig_python.JsonSchema.RoundTrip.{IsTyped}
use hedwig_python.Protobuf.{
  Container, Library, Coding, binary_coding, numbered_eq, Messages, Extracted, any, encoded,
}
use hedwig_python.Protobuf.Wire.{
  container_meta, opened, packed, verify_known_minor_version, extract_data_firehose,
  decode_extracted, fill_container, encode_payload_firehose, proto_format,
}
use hedwig_python.Protobuf.RoundTrip.{
  schema_fmt-IsSchemaFmt, meta_of-wire_meta, decode_data-class, IsPrinting,
}
use hedwig_python.Protobuf.Boxed.{boxed, fill_container-boxed, rearranged}

-- What package protobuf promises of lines: a container is parsed from the JSON that it was printed
-- as, with its headers in any order; a packed message is no Value, is of its class, and is unpacked
-- by it; the text of a packed Value is found; and messages are serialized to bytes.
pub record IsLining {C M A : Type 0} (lib : Library C M A) (kind : M → C) : Type 0 where
  pub parse-print_json_container :
      (c : Container A) (line : String)
      → IsDict c.headers
      → lib.print_json_container c ≡ ok line
      → (found : Entries) × IsArranged found c.headers
        × (lib.parse_json_container line ≡ some (record c { headers = found }))
  pub is-pack : (m : M) → lib.is (lib.pack m) (kind m) ≡ true
  pub unpack-pack : (m : M) → lib.unpack (kind m) (lib.pack m) ≡ some m
  pub value_text-pack : (m : M) → lib.value_text (lib.pack m) ≡ none
  pub value_text-pack_text : (s : String) → lib.value_text (lib.pack_text s) ≡ some (some s)
  pub serialize-bytes : (m : M) (bytes : List ℕ) → lib.serialize m ≡ ok bytes → All IsByte bytes

module _ {C M A P : Type 0} (lib : Library C M A) (kind : M → C) (printing : IsPrinting lib kind)
    (lining : IsLining lib kind) (setting : Bool) (proto_messages : Messages C) (m : Message M P)
    (typed : IsTyped m) where
  abbrev coding : Coding C M A
  coding = binary_coding lib

  abbrev line_box : A → Container A
  line_box data_ =
      boxed typed.millis typed.service (headers m) typed.uuid
        (encode_message_type (proto_format lib coding setting proto_messages) m.type m.version)
        data_

  -- An Any that stands for the message's content in a line.
  record Stands (data_ : A) : Type 0 where
    packing :
        packed lib coding setting proto_messages
          (verify_known_minor_version lib coding setting proto_messages m.type m.version)
          m.content
        ≡ ok data_
    extracted : Extracted A
    opens : opened lib coding setting proto_messages data_ (lib.value_text data_) ≡ ok extracted
    decodes :
        decode_extracted lib coding setting proto_messages (kind m.content) extracted ≡ ok m.content

  known :
      verify_known_minor_version lib coding setting proto_messages m.type m.version ≡ ok tt
      → Stands (lib.pack m.content)
  unfolding decode_extracted
  known e = record {
    packing = rw e refl;
    extracted = any (lib.pack m.content);
    opens = rw (lining.value_text-pack m.content) refl;
    decodes = rw (lining.is-pack m.content) (rw (lining.unpack-pack m.content) refl);
  }

  unknown :
      (bytes : List ℕ)
      → verify_known_minor_version lib coding setting proto_messages m.type m.version
        ≡ raise validation_error
      → lib.serialize m.content ≡ ok bytes
      → Stands (lib.pack_text (b64encode bytes))
  unfolding decode_extracted binary_coding
  unknown bytes e serialized = record {
    packing = rw e (rw serialized refl);
    extracted = encoded (binary bytes);
    opens =
        rw (lining.value_text-pack_text (b64encode bytes)) (
          rw (decodebytes-b64encode bytes (lining.serialize-bytes m.content bytes serialized))
            refl);
    decodes = rw (printing.parse-serialize m.content bytes serialized) refl;
  }

  verified :
      get (m.type, major_version m) proto_messages ≡ some (kind m.content)
      → (verify_known_minor_version lib coding setting proto_messages m.type m.version ≡ ok tt)
        ⊎ (verify_known_minor_version lib coding setting proto_messages m.type m.version
            ≡ raise validation_error)
  unfolding verify_known_minor_version
  verified registered =
      elim (Bool-cases (ltb (lib.options (kind m.content)).minor_version m.version.minor)) [
        | inl e ↦ inr (rw registered (rw e refl))
        | inr e ↦ inl (rw registered (rw e refl))
      ]

  -- What is packed stands for the content, if anything is.
  standing :
      (data_ : A)
      → get (m.type, major_version m) proto_messages ≡ some (kind m.content)
      → packed lib coding setting proto_messages
          (verify_known_minor_version lib coding setting proto_messages m.type m.version)
          m.content
        ≡ ok data_
      → Stands data_
  standing data_ registered h = elim (verified registered) [
    | inl e ↦ subst Stands (ok-inj (rw e at h)) (known e)
    | inr e ↦
        let (bytes, serialized, same) = >>=-eq-ok (lib.serialize m.content) _ (rw e at h) in
        subst Stands (ok-inj same) (unknown bytes e serialized)
  ]

  printed :
      (data_ : A) (line : String)
      → All IsSane (headers m)
      → IsDict (headers m)
      → (fill_container lib coding setting proto_messages
            (meta_of (proto_format lib coding setting proto_messages) m)
            data_
          >>= λ msg. lib.print_json_container msg)
        ≡ ok line
      → lib.print_json_container (line_box data_) ≡ ok line
  printed data_ line sane once h =
      let fmt = proto_format lib coding setting proto_messages in
      let filled =
        fill_container-boxed lib coding setting proto_messages typed.millis typed.service
          (headers m) typed.uuid (encode_message_type fmt m.type m.version) data_ sane once in
      let g =
        subst
          (λ meta.
            (fill_container lib coding setting proto_messages meta data_ >>= λ msg.
            lib.print_json_container msg)
            ≡ ok line)
          (meta_of-wire_meta lib coding setting proto_messages m typed) h in
      rw filled at g

  read_line :
      (data_ : A) (found : Entries) (line : String)
      → (stands : Stands data_) → IsTypeName m.type
      → get (m.type, major_version m) proto_messages ≡ some (kind m.content)
      → lib.parse_json_container line ≡ some (record (line_box data_) { headers = found })
      → deserialize_firehose (proto_format lib coding setting proto_messages) line
        ≡ ok (with_provider_metadata (with_headers m found) none)
  unfolding deserialize_firehose extract_data_firehose with_headers
  read_line data_ found line stands named registered parsed =
      let fmt = proto_format lib coding setting proto_messages in
      let wire = container_meta (record (line_box data_) { headers = found }) in
      rw parsed (
        rw stands.opens (
          rw (decode-encode_message_type fmt schema_fmt-IsSchemaFmt m.type m.version named) (
            ap (λ (d : Result M). d >>= λ content. ok (build wire none m.type m.version content))
              (decode_data-class lib coding setting proto_messages wire m.type m.version
                stands.extracted (kind m.content) m.content registered stands.decodes)
            ∙ ap ok (
                build-Agrees fmt schema_fmt-IsSchemaFmt false (with_headers m found) wire none
                  m.content (rearranged lib coding setting proto_messages m typed found data_)
                  refl))))

-- Whatever the settings are, with ProtobufValidator's coding: a message with sane headers, of a
-- class that is registered for its type and major version, is given back by `deserialize_firehose`,
-- without the provider's metadata and with its headers in some order, if `serialize_firehose`
-- returned a line; be its minor version known or not.
pub deserialize-serialize_line :
    {C M A P : Type 0} (lib : Library C M A) (kind : M → C) (printing : IsPrinting lib kind)
    (lining : IsLining lib kind) (setting : Bool) (proto_messages : Messages C) (m : Message M P)
    (line : String)
    → IsTyped m
    → IsTypeName m.type
    → get (m.type, major_version m) proto_messages ≡ some (kind m.content)
    → All IsSane (headers m)
    → IsDict (headers m)
    → serialize_firehose (proto_format lib (binary_coding lib) setting proto_messages) m ≡ ok line
    → (found : Entries) × IsArranged found (headers m)
      × (deserialize_firehose (proto_format lib (binary_coding lib) setting proto_messages) line
          ≡ ok (with_provider_metadata (with_headers m found) none))
unfolding serialize_firehose encode_payload_firehose
deserialize-serialize_line {P} lib kind printing lining setting proto_messages m line typed named
      registered sane once h =
    let fmt = proto_format lib (binary_coding lib) setting proto_messages in
    let (written, encoded_, h₁) =
      >>=-eq-ok
        (encode_payload_firehose lib (binary_coding lib) setting proto_messages m.type m.version
          (meta_of fmt m) m.content)
        _ h in
    let (_, accepted, same) = >>=-eq-ok (deserialize_firehose {P = P} fmt written) _ h₁ in
    let (data_, packing, filling) =
      >>=-eq-ok
        (packed lib (binary_coding lib) setting proto_messages
          (verify_known_minor_version lib (binary_coding lib) setting proto_messages m.type
            m.version)
          m.content)
        _ encoded_ in
    let stands =
      standing lib kind printing lining setting proto_messages m typed data_ registered packing in
    let c = line_box lib kind printing lining setting proto_messages m typed data_ in
    let (found, arranged, parsed) = lining.parse-print_json_container c written once (
      printed lib kind printing lining setting proto_messages m typed data_ written sane once
        filling) in
    (
      found,
      arranged,
      rw (← ok-inj same) (
          read_line lib kind printing lining setting proto_messages m typed data_ found written
            stands named registered parsed),
    )
