-- ===== src/Validator/Codec/Checked.antt =====
-- What the decoding before a send guarantees, whatever the format is.
use hedwig_python.Prelude.{◌≡◌, Bool, Option, none, arith, All}
use hedwig_python.Python.Exn.{ok, ◌>>=◌, >>=-eq-ok}
use hedwig_python.Python.Value.{Entries}
use hedwig_python.Models.{Message, headers, with_provider_metadata}
use hedwig_python.Validator.{Payload, Format}
use hedwig_python.Validator.Headers.{verify_headers, verify_headers_iff, IsSane}
use hedwig_python.Validator.Codec.{build, deserialize_with, serialize_with, meta_of}

module _ {D Raw P : Type 0} (fmt : Format D Raw) where
  -- The provider's metadata goes into the message and has no other effect.
  pub deserialize_with-provider_metadata :
      (payload : Payload) (attributes : Entries) (pm : Option P) (use_transport : Bool)
      → deserialize_with fmt payload attributes pm use_transport ≡ (do
        m ← deserialize_with {P = P} fmt payload attributes none use_transport
        ok (with_provider_metadata m pm))
  unfolding deserialize_with build with_provider_metadata
  deserialize_with-provider_metadata payload attributes pm use_transport = ground arith

  -- What `_serialize` established when it returned.
  pub record IsServed (m : Message D P) (use_transport : Bool) (payload : Payload) (attrs : Entries)
      : Type 0 where
    pub known : fmt.verify_known_minor_version m.type m.version ≡ ok tt
    pub sane : All IsSane (headers m)
    pub encoded : fmt.encode_payload (meta_of fmt m) m.content use_transport ≡ ok (payload, attrs)
    pub decoded : Message D P
    pub accepted : deserialize_with fmt payload attrs none use_transport ≡ ok decoded

  pub serialize_with-IsServed :
      (m : Message D P) (use_transport : Bool) (payload : Payload) (attrs : Entries)
      → serialize_with fmt m use_transport ≡ ok (payload, attrs)
      → IsServed m use_transport payload attrs
  unfolding serialize_with
  serialize_with-IsServed m use_transport payload attrs h =
      let (u, known, h₁) = >>=-eq-ok (fmt.verify_known_minor_version m.type m.version) _ h in
      let (w, sane, h₂) = >>=-eq-ok (verify_headers (headers m)) _ h₁ in
      let (sent, encoded, h₃) =
        >>=-eq-ok (fmt.encode_payload (meta_of fmt m) m.content use_transport) _ h₂ in
      let (decoded, accepted, same) =
        >>=-eq-ok (deserialize_with {P = P} fmt sent.0 sent.1 none use_transport) _ h₃ in
      record {
        known = known;
        sane = (verify_headers_iff (headers m)).0 sane;
        encoded = ground arith;
        decoded = decoded;
        accepted = ground arith;
      }
