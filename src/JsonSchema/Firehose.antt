-- ===== src/JsonSchema/Firehose.antt =====
-- Lines of firehose files: what `serialize_firehose` returned is read back by `deserialize_firehose`.
use hedwig_python.Prelude.{String, ◌≡◌, refl, sym, ap, subst, ◌∙◌, Bool, true, false, none, [], All}
use hedwig_python.Python.Dict.{IsDict}
use hedwig_python.Python.Exn.{ok, ◌>>=◌, >>=-eq-ok, ok-inj}
use hedwig_python.Python.Plain.{plain}
use hedwig_python.Python.Value.{Value, key_eq}
use hedwig_python.Models.{Message, headers, with_provider_metadata}
use hedwig_python.Validator.{MetaAttributes, Format}
use hedwig_python.Validator.Headers.{IsSane}
use hedwig_python.Validator.MessageType.{
  IsTypeName, IsSchemaFmt, encode_message_type, decode-encode_message_type,
}
use hedwig_python.Validator.Attributes.RoundTrip.{wire_meta}
use hedwig_python.Validator.Codec.{build, meta_of, serialize_firehose, deserialize_firehose}
use hedwig_python.Validator.Codec.RoundTrip.{Agrees, build-Agrees}
use hedwig_python.JsonSchema.{
  Library, format_version, extract_data_firehose, container, encode_payload_firehose, decode_data,
  json_format,
}
use hedwig_python.JsonSchema.RoundTrip.{
  IsJson, IsTyped, schema_fmt-IsSchemaFmt, decode_data-same, meta_of-wire_meta,
}
use hedwig_python.JsonSchema.Container.{
  wire, plain-container, extract_data_box, container_checked, extract_container-container,
}

module _ {D Raw P : Type 0} (fmt : Format D Raw) (found : IsSchemaFmt fmt.schema_fmt) where
  -- A line whose meta attributes are those of a message.
  deserialize_firehose_read :
      (m : Message D P) (line : String) (seen : MetaAttributes) (raw : Raw)
      → IsTypeName m.type
      → fmt.extract_data_firehose line ≡ ok (seen, raw)
      → Agrees (meta_of fmt m) seen
      → deserialize_firehose {P = P} fmt line ≡ (do
        content ← fmt.decode_data seen m.type m.version raw
        ok (build seen none m.type m.version content))
  unfolding deserialize_firehose meta_of
  deserialize_firehose_read m line seen raw named e a =
      rw e (rw a.schema (rw (decode-encode_message_type fmt found m.type m.version named) refl))

-- Whatever the settings are: a message with sane headers whose `serialize_firehose` returned a line is
-- given back, field by field, by `deserialize_firehose`, without the provider's metadata.
pub deserialize_firehose-serialize_firehose :
    {P : Type 0} (lib : Library) (json : IsJson lib) (root : String) (setting : Bool)
    (m : Message Value P) (line : String)
    → IsTyped m
    → IsTypeName m.type
    → plain m.content ≡ true
    → All IsSane (headers m)
    → IsDict (headers m)
    → serialize_firehose (json_format lib setting root) m ≡ ok line
    → deserialize_firehose (json_format lib setting root) line ≡ ok (with_provider_metadata m none)
unfolding serialize_firehose encode_payload_firehose deserialize_firehose extract_data_firehose
deserialize_firehose-serialize_firehose {P} lib json root setting m line typed named p sane once h =
    let fmt = json_format lib setting root in
    let schema = encode_message_type fmt m.type m.version in
    let meta = wire_meta typed.millis typed.service (headers m) typed.uuid schema format_version in
    let wired = meta_of-wire_meta lib root setting m typed in
    let box = container lib setting root meta m.content in
    let (written, dumped, h₁) =
      >>=-eq-ok (lib.dumps (container lib setting root (meta_of fmt m) m.content)) _ h in
    let (decoded, accepted, same) = >>=-eq-ok (deserialize_firehose {P = P} fmt written) _ h₁ in
    let printed : lib.dumps box ≡ ok written =
      subst (λ x. lib.dumps (container lib setting root x m.content) ≡ ok written) wired dumped in
    let w =
      wire lib json root setting typed.millis typed.service (headers m) typed.uuid schema
        m.content in
    let plain_box =
      plain-container lib json root setting typed.millis typed.service (headers m) typed.uuid schema
        m.content p sane once in
    let opened =
      extract_data_box lib setting root box written []
        (json.loads-dumps box written plain_box printed) in
    let (seen, extracted, rest) =
      >>=-eq-ok (extract_data_firehose lib setting root written) _ accepted in
    let valid : lib.container_valid box ≡ true =
      container_checked lib setting root box seen (sym opened ∙ extracted) in
    let read : extract_data_firehose lib setting root written ≡ ok (w, m.content) =
      opened
      ∙ extract_container-container lib json root setting typed.millis typed.service (headers m)
          typed.uuid schema m.content valid in
    let agrees : Agrees (meta_of fmt m) w =
      subst (λ x. Agrees x w) (sym wired)
        (record { timestamp = refl; publisher = refl; headers = refl; id = refl; schema = refl }) in
    let back =
      deserialize_firehose_read {P = P} fmt (schema_fmt-IsSchemaFmt root) m written w m.content
        named read agrees in
    let (content, checked, _) =
      >>=-eq-ok (decode_data lib setting root w m.type m.version m.content) _
        (sym back ∙ accepted) in
    let unchanged =
      decode_data-same lib json root setting w m.type m.version m.content content checked in
    let result : deserialize_firehose fmt written ≡ ok (with_provider_metadata m none) =
      back
      ∙ rw checked (
          ap ok (
            build-Agrees fmt (schema_fmt-IsSchemaFmt root) false m w none content agrees
              unchanged)) in
    subst (λ l. deserialize_firehose fmt l ≡ ok (with_provider_metadata m none)) (ok-inj same)
      result
