-- ===== src/Protobuf/Boxed.antt =====
-- The container: a message that `serialize_containerized` returned a payload for is given back by
-- `deserialize_containerized`.
pub mod Firehose
use hedwig_python.Prelude.{
  String, ◌≡◌, refl, sym, ap, ◌∙◌, subst, Bool, true, false, Option, some, none, List, [], ◌∷◌,
  arith, All, if◌then◌else◌,
}
use hedwig_python.Prelude.Int.{ℤ}
use hedwig_python.Python.Dict.{get, put, update, IsDict, IsFresh-nil, update-fresh}
use hedwig_python.Python.Dict.Arranged.{IsArranged, All-IsArranged}
use hedwig_python.Python.Exn.{Result, ok, >>=-eq-ok, ok-inj, ◌>>=◌}
use hedwig_python.Python.Value.{name, other_key, Value, int, str, Entries, key_eq, to_str}
use hedwig_python.Version.{version_str}
use hedwig_python.Models.{Message, headers, major_version, with_headers, with_provider_metadata}
use hedwig_python.Validator.{Payload, MetaAttributes}
use hedwig_python.Validator.Headers.{IsSane}
use hedwig_python.Validator.MessageType.{IsTypeName, encode_message_type}
use hedwig_python.Validator.Attributes.RoundTrip.{wire_meta}
use hedwig_python.Validator.Codec.{
  meta_of, build, serialize_with, deserialize_with, serialize_containerized,
  deserialize_containerized,
}
use hedwig_python.Validator.Codec.Checked.{serialize_with-IsServed}
use hedwig_python.Validator.Codec.RoundTrip.{Agrees, Reads, deserialize_with_read, build-Agrees}
use hedwig_python.JsonSchema.RoundTrip.{IsTyped}
use hedwig_python.Protobuf.{
  Container, Library, Coding, as_invalid, numbered_eq, Messages, Extracted, any, format_version,
  set_headers,
}
use hedwig_python.Protobuf.Wire.{
  container_meta, extract_data, decode_extracted, decode_data, fill_container, encode_payload,
  proto_format,
}
use hedwig_python.Protobuf.RoundTrip.{schema_fmt-IsSchemaFmt, meta_of-wire_meta, decode_data-class}

-- What package protobuf promises of containers: a container is decoded from what it was encoded to,
-- with its headers, which are a map, in any order; and a packed message is of its class, and
-- unpacked by it.
pub record IsBoxing {C M A : Type 0} (lib : Library C M A) (coding : Coding C M A) (kind : M → C)
    : Type 0 where
  pub decode-encode_container :
      (c : Container A) (payload : Payload)
      → IsDict c.headers
      → coding.encode_container c ≡ ok payload
      → (found : Entries) × IsArranged found c.headers
        × (coding.decode_container payload ≡ ok (record c { headers = found }))
  pub is-pack : (m : M) → lib.is (lib.pack m) (kind m) ≡ true
  pub unpack-pack : (m : M) → lib.unpack (kind m) (lib.pack m) ≡ some m

set_headers-update : (m found : Entries) → All IsSane m → set_headers m found ≡ ok (update found m)
unfolding set_headers update
set_headers-update [] found h = refl
set_headers-update ((name k, str v) ∷ m) found (first, others) =
    set_headers-update m (put (name k) (str v) found) others
set_headers-update ((name k, v) ∷ m) found (first, others) = cc
set_headers-update ((other_key n, v) ∷ m) found (first, others) = cc

-- A container with the given parts.
abbrev pub boxed : {A : Type 0} → ℤ → String → Entries → String → String → A → Container A
boxed z publisher headers id schema data_ = record {
  format_version = version_str format_version;
  id = id;
  publisher = publisher;
  timestamp = z;
  headers = headers;
  schema = schema;
  data_ = data_;
}

module _ {C M A : Type 0} (lib : Library C M A) (coding : Coding C M A) (setting : Bool)
    (proto_messages : Messages C) where
  pub fill_container-boxed :
      (z : ℤ) (publisher : String) (headers : Entries) (id schema : String) (data_ : A)
      → All IsSane headers
      → IsDict headers
      → fill_container lib coding setting proto_messages
          (wire_meta z publisher headers id schema format_version)
          data_
        ≡ ok (boxed z publisher headers id schema data_)
  unfolding fill_container to_str
  fill_container-boxed z publisher headers id schema data_ sane once =
      rw (set_headers-update headers [] sane)
        (rw (update-fresh [] headers once (IsFresh-nil headers)) refl)

  -- A message whose headers came back in another order.
  pub rearranged :
      {P : Type 0} (m : Message M P) (typed : IsTyped m) (found : Entries) (data_ : A)
      → Agrees (meta_of (proto_format lib coding setting proto_messages) (with_headers m found)) (
          container_meta (
            boxed typed.millis typed.service found typed.uuid
              (encode_message_type
                (proto_format lib coding setting proto_messages)
                m.type
                m.version)
              data_))
  unfolding meta_of with_headers
  rearranged m typed found data_ = record {
    timestamp = sym typed.timestamp;
    publisher = sym typed.publisher;
    headers = refl;
    id = sym typed.id;
    schema = refl;
  }

module _ {C M A P : Type 0} (lib : Library C M A) (coding : Coding C M A) (kind : M → C)
    (boxing : IsBoxing lib coding kind) (setting : Bool) (proto_messages : Messages C)
    (m : Message M P) (typed : IsTyped m) where
  abbrev box : Container A
  box =
      boxed typed.millis typed.service (headers m) typed.uuid
        (encode_message_type (proto_format lib coding setting proto_messages) m.type m.version)
        (lib.pack m.content)

  sent :
      (payload : Payload) (attrs : Entries)
      → All IsSane (headers m)
      → IsDict (headers m)
      → encode_payload lib coding setting proto_messages
          (meta_of (proto_format lib coding setting proto_messages) m)
          m.content
          false
        ≡ ok (payload, attrs)
      → coding.encode_container box ≡ ok payload
  unfolding encode_payload
  sent payload attrs sane once h =
      let fmt = proto_format lib coding setting proto_messages in
      let schema = encode_message_type fmt m.type m.version in
      let g =
        subst
          (λ meta.
            encode_payload lib coding setting proto_messages meta m.content false
            ≡ ok (payload, attrs))
          (meta_of-wire_meta lib coding setting proto_messages m typed) h in
      let filled =
        fill_container-boxed lib coding setting proto_messages typed.millis typed.service
          (headers m) typed.uuid schema (lib.pack m.content) sane once in
      let (written, put, same) = >>=-eq-ok (coding.encode_container box) _ (rw filled at g) in
      put ∙ ap (λ (r : Result (Payload × Entries)). r >>= λ p. ok p.0) same

  unpacked :
      (meta : MetaAttributes)
      → get (m.type, major_version m) proto_messages ≡ some (kind m.content)
      → decode_data lib coding setting proto_messages meta m.type m.version
          (any (lib.pack m.content))
        ≡ ok m.content
  unfolding decode_extracted
  unpacked meta found =
      decode_data-class lib coding setting proto_messages meta m.type m.version
        (any (lib.pack m.content)) (kind m.content) m.content found
        (rw (boxing.is-pack m.content) (rw (boxing.unpack-pack m.content) refl))

  read :
      (found : Entries) (payload : Payload) (attrs : Entries)
      → get (m.type, major_version m) proto_messages ≡ some (kind m.content)
      → coding.decode_container payload ≡ ok (record box { headers = found })
      → Reads
          (proto_format lib coding setting proto_messages)
          false
          (meta_of (proto_format lib coding setting proto_messages) (with_headers m found))
          m.type
          m.version
          m.content
          payload
          attrs
  unfolding extract_data
  read found payload attrs registered opened = record {
    wire = container_meta (record box { headers = found });
    raw = any (lib.pack m.content);
    extracted = rw opened refl;
    agrees = rearranged lib coding setting proto_messages m typed found (lib.pack m.content);
    decoded = λ d e.
        ok-inj (sym e ∙ unpacked (container_meta (record box { headers = found })) registered);
  }

  -- Decoding a container that has the headers in some order.
  given_back :
      (found : Entries) (payload : Payload) (pm : Option P)
      → IsTypeName m.type
      → All IsSane found
      → get (m.type, major_version m) proto_messages ≡ some (kind m.content)
      → coding.decode_container payload ≡ ok (record box { headers = found })
      → deserialize_with (proto_format lib coding setting proto_messages) payload [] pm false
        ≡ ok (with_provider_metadata (with_headers m found) pm)
  unfolding read with_headers
  given_back found payload pm named sane registered opened =
      let fmt = proto_format lib coding setting proto_messages in
      let m' = with_headers m found in
      let r = read found payload [] registered opened in
      let wire = container_meta (record box { headers = found }) in
      deserialize_with_read fmt schema_fmt-IsSchemaFmt false m' payload [] named sane r pm
      ∙ ap (λ (d : Result M). d >>= λ content. ok (build wire pm m.type m.version content))
          (unpacked wire registered)
      ∙ ap ok (
          build-Agrees fmt schema_fmt-IsSchemaFmt false m' wire pm m.content
            (rearranged lib coding setting proto_messages m typed found (lib.pack m.content)) refl)

-- Whatever the settings are, and for both codings: a message of a class that is registered for its
-- type and major version is given back by `deserialize_containerized`, without the provider's
-- metadata and with its headers in some order, if `serialize_containerized` returned.
pub deserialize-serialize_container :
    {C M A P : Type 0} (lib : Library C M A) (coding : Coding C M A) (kind : M → C)
    (boxing : IsBoxing lib coding kind) (setting : Bool) (proto_messages : Messages C)
    (m : Message M P) (payload : Payload)
    → IsTyped m
    → IsTypeName m.type
    → get (m.type, major_version m) proto_messages ≡ some (kind m.content)
    → IsDict (headers m)
    → serialize_containerized (proto_format lib coding setting proto_messages) m ≡ ok payload
    → (found : Entries) × IsArranged found (headers m)
      × (deserialize_containerized (proto_format lib coding setting proto_messages) payload
          ≡ ok (with_provider_metadata (with_headers m found) none))
unfolding serialize_containerized deserialize_containerized
deserialize-serialize_container {P} lib coding kind boxing setting proto_messages m payload typed
      named registered once h =
    let fmt = proto_format lib coding setting proto_messages in
    let (written, h₁, same) = >>=-eq-ok (serialize_with {P = P} fmt m false) _ h in
    let s = serialize_with-IsServed fmt m false written.0 written.1 h₁ in
    let c = box lib coding kind boxing setting proto_messages m typed in
    let put_in =
      sent lib coding kind boxing setting proto_messages m typed written.0 written.1 s.sane once
        s.encoded in
    let (found, arranged, opens) = boxing.decode-encode_container c written.0 once put_in in
    let sane = All-IsArranged IsSane found (headers m) arranged s.sane in
    (
      found,
      arranged,
      rw (← ok-inj same) (
          given_back lib coding kind boxing setting proto_messages m typed found written.0 none
            named sane registered opens),
    )
