-- ===== src/JsonSchema/Container.antt =====
-- The container format: a message whose `serialize_containerized` returned a payload is given back
-- by `deserialize_containerized`.
use hedwig_python.Prelude.{
  String, ◌≡◌, refl, sym, subst, Bool, true, false, Option, none, some, [], ◌∷◌, arith, All,
}
use hedwig_python.Prelude.Int.{ℤ}
use hedwig_python.Python.Dict.{get, has_key, IsDict}
use hedwig_python.Python.Exn.{ok, guard, validation_error, >>=-eq-ok, guard-eq-ok}
use hedwig_python.Python.Plain.{plain}
use hedwig_python.Python.Value.{
  name, other_key, Value, int, str, dict, Entries, key_eq, of_entries, to_entries-of_entries,
}
use hedwig_python.Version.{StrictVersion, version_str}
use hedwig_python.Models.{Message, headers, with_provider_metadata}
use hedwig_python.Validator.{Payload, text, binary, MetaAttributes}
use hedwig_python.Validator.Headers.{IsSane}
use hedwig_python.Validator.MessageType.{IsTypeName, encode_message_type}
use hedwig_python.Validator.Attributes.RoundTrip.{wire_meta}
use hedwig_python.Validator.Codec.{
  serialize_with, deserialize_with, serialize_containerized, deserialize_containerized,
}
use hedwig_python.Validator.Codec.Checked.{serialize_with-IsServed}
use hedwig_python.Validator.Codec.RoundTrip.{Reads, deserialize_with-serialize_with}
use hedwig_python.JsonSchema.{
  Library, format_version, subscript, entries_of, extract_container, extract_data, container,
  encode_payload, json_format,
}
use hedwig_python.JsonSchema.RoundTrip.{
  IsJson, IsTyped, schema_fmt-IsSchemaFmt, decode_data-same, meta_of-wire_meta,
}

plain-headers : (m : Entries) → All IsSane m → IsDict m → plain (dict (of_entries m)) ≡ true
unfolding plain
plain-headers [] sane once = refl
plain-headers ((name k, str v) ∷ m) (here, there) (new, once) =
    rw (to_entries-of_entries m) (rw new (rw (plain-headers m there once) refl))
plain-headers ((name k, v) ∷ m) (here, there) (new, once) = cc
plain-headers ((other_key n, v) ∷ m) (here, there) (new, once) = cc

module _ (lib : Library) (setting : Bool) (root : String) (box : Value) where
  pub extract_data_box :
      (line : String) (attributes : Entries)
      → lib.loads line ≡ some box
      → extract_data lib setting root (text line) attributes false
        ≡ extract_container lib setting root box
  unfolding extract_data
  extract_data_box line attributes read = rw read

  pub container_checked :
      (seen : MetaAttributes × Value)
      → extract_container lib setting root box ≡ ok seen
      → lib.container_valid box ≡ true
  unfolding extract_container
  container_checked seen h =
      let (u, checked, _) = >>=-eq-ok (guard (lib.container_valid box) validation_error) _ h in
      guard-eq-ok (lib.container_valid box) validation_error checked

module _ (lib : Library) (json : IsJson lib) (root : String) (setting : Bool) (z : ℤ)
    (publisher : String) (headers : Entries) (id schema : String) (content : Value) where
  abbrev meta : MetaAttributes
  meta = wire_meta z publisher headers id schema format_version

  pub plain-container :
      plain content ≡ true
      → All IsSane headers
      → IsDict headers
      → plain (container lib setting root meta content) ≡ true
  unfolding container plain has_key
  plain-container p sane once = rw (plain-headers headers sane once) (rw p refl)

  -- What stands in an accepted container.
  abbrev pub wire : MetaAttributes
  wire = record {
    timestamp = int z;
    publisher = str publisher;
    headers = headers;
    id = str id;
    schema = str schema;
    format_version = str (version_str format_version);
  }

  pub extract_container-container :
      lib.container_valid (container lib setting root meta content) ≡ true
      → extract_container lib setting root (container lib setting root meta content)
        ≡ ok (wire, content)
  unfolding extract_container
  extract_container-container h =
      rw h (unfold container subscript get entries_of in rw (to_entries-of_entries headers) refl)

  -- An encoded container that was accepted is extracted again.
  container-Reads :
      (t : String) (v : StrictVersion) (payload : Payload) (attrs : Entries)
      (seen : MetaAttributes × Value)
      → plain content ≡ true
      → All IsSane headers
      → IsDict headers
      → encode_payload lib setting root meta content false ≡ ok (payload, attrs)
      → extract_data lib setting root payload attrs false ≡ ok seen
      → Reads (json_format lib setting root) false meta t v content payload attrs
  unfolding encode_payload
  container-Reads t v payload attrs seen p sane once h accepted =
      let box = container lib setting root meta content in
      let (line, dumped, same) = >>=-eq-ok (lib.dumps box) _ h in
      let read = json.loads-dumps box line (plain-container p sane once) dumped in
      let opened = extract_data_box lib setting root box line attrs read in
      let checked : lib.container_valid box ≡ true =
        container_checked lib setting root box seen (ground (arith, opened)) in
      record {
        wire = wire;
        raw = content;
        extracted = ground (arith, opened, extract_container-container checked);
        agrees = record {
          timestamp = refl;
          publisher = refl;
          headers = refl;
          id = refl;
          schema = refl;
        };
        decoded = λ d e. decode_data-same lib json root setting wire t v content d e;
      }

module _ {P : Type 0} (lib : Library) (root : String) (setting : Bool) where
  -- The attributes beside a container are not read.
  deserialize_with-attrs :
      (payload : Payload) (attrs others : Entries) (pm : Option P)
      → deserialize_with (json_format lib setting root) payload attrs pm false
        ≡ deserialize_with (json_format lib setting root) payload others pm false
  unfolding deserialize_with extract_data
  deserialize_with-attrs (text line) attrs others pm = refl
  deserialize_with-attrs (binary b) attrs others pm = refl

  -- A message that was accepted as a container is given back.
  deserialize_with-container :
      (json : IsJson lib) (m : Message Value P) (payload : Payload) (attrs : Entries)
      (pm : Option P)
      → IsTyped m
      → IsTypeName m.type
      → plain m.content ≡ true
      → IsDict (headers m)
      → serialize_with (json_format lib setting root) m false ≡ ok (payload, attrs)
      → deserialize_with (json_format lib setting root) payload attrs pm false
        ≡ ok (with_provider_metadata m pm)
  unfolding deserialize_with
  deserialize_with-container json m payload attrs pm typed named p once h =
      let fmt = json_format lib setting root in
      let s = serialize_with-IsServed fmt m false payload attrs h in
      let wired = meta_of-wire_meta lib root setting m typed in
      let schema = encode_message_type fmt m.type m.version in
      let (seen, extracted, _) =
        >>=-eq-ok (extract_data lib setting root payload attrs false) _ s.accepted in
      let reads =
        container-Reads lib json root setting typed.millis typed.service (headers m) typed.uuid
          schema m.content m.type m.version payload attrs seen p s.sane once
          (subst
            (λ meta. encode_payload lib setting root meta m.content false ≡ ok (payload, attrs))
            wired s.encoded)
          extracted in
      deserialize_with-serialize_with fmt (schema_fmt-IsSchemaFmt root) false m payload attrs pm h
        named
        (subst (λ meta. Reads fmt false meta m.type m.version m.content payload attrs) (sym wired)
          reads)

-- Whatever the settings are: a message whose `serialize_containerized` returned a payload is given
-- back, field by field, by `deserialize_containerized`, without the provider's metadata.
pub deserialize_containerized-serialize_containerized :
    {P : Type 0} (lib : Library) (json : IsJson lib) (root : String) (setting : Bool)
    (m : Message Value P) (payload : Payload)
    → IsTyped m
    → IsTypeName m.type
    → plain m.content ≡ true
    → IsDict (headers m)
    → serialize_containerized (json_format lib setting root) m ≡ ok payload
    → deserialize_containerized (json_format lib setting root) payload
      ≡ ok (with_provider_metadata m none)
unfolding serialize_containerized deserialize_containerized
deserialize_containerized-serialize_containerized {P} lib json root setting m payload typed named p
      once h =
    let fmt = json_format lib setting root in
    let ((sent, attrs), served, same) = >>=-eq-ok (serialize_with fmt m false) _ h in
    let back =
      deserialize_with-container lib root setting json m sent attrs none typed named p once
        served in
    ground (arith, back, deserialize_with-attrs {P = P} lib root setting sent attrs [] none)
