-- ===== src/JsonSchema/RoundTrip.antt =====
-- A message that `serialize` returned a payload for is given back by `deserialize`.
use Prim.Native.String.append
use Prim.Native.String.{◌++◌ as ◌<>◌}
use package.text.Mathlib.TextLemmas.{append_assoc}
use hedwig_python.Prelude.{
  String, ◌≡◌, refl, sym, ap, ◌∙◌, subst, Bool, true, Option, some, arith, All,
}
use hedwig_python.Prelude.Int.{ℤ}
use hedwig_python.Python.Dict.{IsDict}
use hedwig_python.Python.Exn.{ok, >>=-eq-ok}
use hedwig_python.Python.Plain.{plain}
use hedwig_python.Python.Value.{Value, int, str, Entries, key_eq}
use hedwig_python.Text.Segments.{search_schema-joined}
use hedwig_python.Version.{StrictVersion, version_beq_refl}
use hedwig_python.Models.{Message, headers, with_provider_metadata}
use hedwig_python.Validator.{Payload, text, MetaAttributes}
use hedwig_python.Validator.Headers.{IsSane}
use hedwig_python.Validator.MessageType.{IsTypeName, IsSchemaFmt, encode_message_type}
use hedwig_python.Validator.Attributes.{encode_meta_attributes, decode_meta_attributes}
use hedwig_python.Validator.Attributes.RoundTrip.{wire_meta, decode-encode_meta_attributes}
use hedwig_python.Validator.Codec.{meta_of, serialize, deserialize}
use hedwig_python.Validator.Codec.Checked.{serialize_with-IsServed}
use hedwig_python.Validator.Codec.RoundTrip.{Reads, deserialize_with-serialize_with}
use hedwig_python.JsonSchema.{
  Library, schema_fmt, format_version, equals_version, extract_data, encode_payload, decode_data,
  json_format,
}

pub slash : (s : String) → "/" <> s ≡ String.◌∷◌ "/" s
slash s = append.cons "/" "" s ∙ ap (λ (x : String). String.◌∷◌ "/" x) (append.nil s)

cut : (s : String) → "#/schemas/" <> s ≡ "#/schemas" <> String.◌∷◌ "/" s
cut s = append_assoc "#/schemas" "/" s ∙ ap (λ (x : String). "#/schemas" <> x) (slash s)

regroup :
    (root t v : String)
    → schema_fmt root t v ≡ (root <> "#/schemas") <> String.◌∷◌ "/" (t <> String.◌∷◌ "/" v)
unfolding schema_fmt
regroup root t v = rw (slash v) (
    rw (cut (t <> String.◌∷◌ "/" v))
      (sym (append_assoc root "#/schemas" (String.◌∷◌ "/" (t <> String.◌∷◌ "/" v)))))

-- The pattern finds the type and the version in the schemas that are sent.
pub schema_fmt-IsSchemaFmt : (root : String) → IsSchemaFmt (schema_fmt root)
schema_fmt-IsSchemaFmt root t v ht hv nt nv =
    rw (regroup root t v) (search_schema-joined (root <> "#/schemas") t v ht hv nt nv)

-- What `json` promises: plain data are read back from what was printed.
pub record IsJson (lib : Library) : Type 0 where
  pub loads-dumps :
      (v : Value) (s : String) → plain v ≡ true → lib.dumps v ≡ ok s → lib.loads s ≡ some v

module _ (lib : Library) (json : IsJson lib) (root : String) where
  -- Validation returns the data as they came.
  pub decode_data-same :
      (setting : Bool) (meta : MetaAttributes) (t : String) (v : StrictVersion) (raw d : Value)
      → decode_data lib setting root meta t v raw ≡ ok d
      → d ≡ raw
  unfolding decode_data
  decode_data-same setting meta t v raw d h = ground arith

  extract_data_read :
      (z : ℤ) (publisher : String) (headers : Entries) (id schema line : String) (content : Value)
      (attributes : Entries)
      → lib.loads line ≡ some content
      → decode_meta_attributes true attributes
        ≡ ok (wire_meta z publisher headers id schema format_version)
      → extract_data lib true root (text line) attributes true
        ≡ ok (wire_meta z publisher headers id schema format_version, content)
  unfolding extract_data equals_version
  extract_data_read z publisher headers id schema line content attributes read decoded =
      rw read (rw decoded (rw (version_beq_refl format_version) refl))

  -- With transport attributes: what was encoded is extracted again.
  plain-Reads :
      (z : ℤ) (publisher : String) (headers : Entries) (id schema : String) (content : Value)
      (t : String) (v : StrictVersion) (payload : Payload) (attrs : Entries)
      → plain content ≡ true
      → All IsSane headers
      → IsDict headers
      → encode_payload lib true root
          (wire_meta z publisher headers id schema format_version)
          content
          true
        ≡ ok (payload, attrs)
      → Reads
          (json_format lib true root)
          true
          (wire_meta z publisher headers id schema format_version)
          t
          v
          content
          payload
          attrs
  unfolding encode_payload
  plain-Reads z publisher headers id schema content t v payload attrs p sane once h =
      let meta = wire_meta z publisher headers id schema format_version in
      let (attributes, encoded, h₁) = >>=-eq-ok (encode_meta_attributes lib.show true meta) _ h in
      let (line, dumped, same) = >>=-eq-ok (lib.dumps content) _ h₁ in
      let back =
        decode-encode_meta_attributes lib.show z publisher headers id schema format_version sane
          once in
      let read =
        extract_data_read z publisher headers id schema line content attributes
          (json.loads-dumps content line p dumped) (rw encoded at back) in
      record {
        wire = meta;
        raw = content;
        extracted = ground (arith, read);
        agrees = record {
          timestamp = refl;
          publisher = refl;
          headers = refl;
          id = refl;
          schema = refl;
        };
        decoded = λ d e. decode_data-same true meta t v content d e;
      }

-- The fields of a message have the types that its class declares.
pub record IsTyped {D P : Type 0} (m : Message D P) : Type 0 where
  pub millis : ℤ
  pub service : String
  pub uuid : String
  pub timestamp : m.metadata.timestamp ≡ int millis
  pub publisher : m.metadata.publisher ≡ str service
  pub id : m.id ≡ str uuid

module _ {P : Type 0} (lib : Library) (root : String) (setting : Bool) where
  pub meta_of-wire_meta :
      (m : Message Value P) (typed : IsTyped m)
      → meta_of (json_format lib setting root) m
        ≡ wire_meta typed.millis typed.service
            (headers m)
            typed.uuid
            (encode_message_type (json_format lib setting root) m.type m.version)
            format_version
  unfolding meta_of
  meta_of-wire_meta m typed = ground (arith, typed.timestamp, typed.publisher, typed.id)

-- With transport attributes, whatever the provider adds: a message whose `serialize` returned is
-- given back by `deserialize`, field by field.
pub deserialize-serialize :
    {P : Type 0} (lib : Library) (json : IsJson lib) (root : String) (m : Message Value P)
    (payload : Payload) (attrs : Entries) (pm : Option P)
    → IsTyped m
    → IsTypeName m.type
    → plain m.content ≡ true
    → IsDict (headers m)
    → serialize true (json_format lib true root) m ≡ ok (payload, attrs)
    → deserialize true (json_format lib true root) payload attrs pm
      ≡ ok (with_provider_metadata m pm)
unfolding serialize deserialize
deserialize-serialize lib json root m payload attrs pm typed named p once h =
    let fmt = json_format lib true root in
    let s = serialize_with-IsServed fmt m true payload attrs h in
    let wired = meta_of-wire_meta lib root true m typed in
    let schema = encode_message_type fmt m.type m.version in
    let reads =
      plain-Reads lib json root typed.millis typed.service (headers m) typed.uuid schema m.content
        m.type m.version payload attrs p s.sane once
        (subst (λ meta. encode_payload lib true root meta m.content true ≡ ok (payload, attrs))
          wired s.encoded) in
    deserialize_with-serialize_with fmt (schema_fmt-IsSchemaFmt root) true m payload attrs pm h
      named
      (subst (λ meta. Reads fmt true meta m.type m.version m.content payload attrs) (sym wired)
        reads)
