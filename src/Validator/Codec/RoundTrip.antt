-- ===== src/Validator/Codec/RoundTrip.antt =====
-- What was serialized is deserialized to the same message, for every format whose
-- payloads read back, as `Reads` says.
use hedwig_python.Prelude.{String, ◌≡◌, refl, Bool, Option, none, arith, All, ap}
use hedwig_python.Python.Exn.{ok, ◌>>=◌, >>=-eq-ok}
use hedwig_python.Python.Value.{Entries, key_eq}
use hedwig_python.Version.{StrictVersion}
use hedwig_python.Models.{Message, headers, with_provider_metadata}
use hedwig_python.Validator.{Payload, MetaAttributes, Format}
use hedwig_python.Validator.Headers.{verify_headers_iff, IsSane}
use hedwig_python.Validator.MessageType.{IsTypeName, IsSchemaFmt, decode-encode_message_type}
use hedwig_python.Validator.Codec.{build, deserialize_with, serialize_with, meta_of}
use hedwig_python.Validator.Codec.Checked.{serialize_with-IsServed}

-- The wire carries everything but the format's version, which is its own.
pub record Agrees (meta wire : MetaAttributes) : Type 0 where
  pub timestamp : wire.timestamp ≡ meta.timestamp
  pub publisher : wire.publisher ≡ meta.publisher
  pub headers : wire.headers ≡ meta.headers
  pub id : wire.id ≡ meta.id
  pub schema : wire.schema ≡ meta.schema

-- An encoded payload is extracted to meta attributes that agree, and to raw data which, when they
-- are accepted, decode to the given content.
pub record Reads {D Raw : Type 0} (fmt : Format D Raw) (use_transport : Bool)
    (meta : MetaAttributes) (message_type : String) (version : StrictVersion) (content : D)
    (payload : Payload) (attrs : Entries) : Type 0 where
  pub wire : MetaAttributes
  pub raw : Raw
  pub extracted : fmt.extract_data payload attrs use_transport ≡ ok (wire, raw)
  pub agrees : Agrees meta wire
  pub decoded : (d : D) → fmt.decode_data wire message_type version raw ≡ ok d → d ≡ content

module _ {D Raw P : Type 0} (fmt : Format D Raw) (found : IsSchemaFmt fmt.schema_fmt)
    (use_transport : Bool) where
  -- Decoding, by the parts that are known.
  pub deserialize_with_read :
      (m : Message D P) (payload : Payload) (attrs : Entries)
      → IsTypeName m.type
      → All IsSane (headers m)
      → (r : Reads fmt use_transport (meta_of fmt m) m.type m.version m.content payload attrs)
      → (pm : Option P)
      → deserialize_with fmt payload attrs pm use_transport ≡ (do
        content ← fmt.decode_data r.wire m.type m.version r.raw
        ok (build r.wire pm m.type m.version content))
  unfolding deserialize_with
  deserialize_with_read m payload attrs named sane r pm = rw r.extracted (
      rw r.agrees.headers (
        unfold meta_of in
        rw ((verify_headers_iff (headers m)).1 sane) (
          rw r.agrees.schema
            (rw (decode-encode_message_type fmt found m.type m.version named) refl))))

  pub build-Agrees :
      (m : Message D P) (wire : MetaAttributes) (pm : Option P) (content : D)
      → Agrees (meta_of fmt m) wire
      → content ≡ m.content
      → build wire pm m.type m.version content ≡ with_provider_metadata m pm
  unfolding build with_provider_metadata meta_of
  build-Agrees m wire pm content a e = ground arith

  pub deserialize_with-serialize_with :
      (m : Message D P) (payload : Payload) (attrs : Entries) (pm : Option P)
      → serialize_with fmt m use_transport ≡ ok (payload, attrs)
      → IsTypeName m.type
      → Reads fmt use_transport (meta_of fmt m) m.type m.version m.content payload attrs
      → deserialize_with fmt payload attrs pm use_transport ≡ ok (with_provider_metadata m pm)
  deserialize_with-serialize_with m payload attrs pm h named r =
      let s = serialize_with-IsServed fmt m use_transport payload attrs h in
      let seen = deserialize_with_read m payload attrs named s.sane r none in
      let (content, e, _) =
        >>=-eq-ok (fmt.decode_data r.wire m.type m.version r.raw) _ (rw seen at s.accepted) in
      rw (deserialize_with_read m payload attrs named s.sane r pm)
        (rw e (ap ok (build-Agrees m r.wire pm content r.agrees (r.decoded content e))))
