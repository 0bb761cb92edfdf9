-- ===== src/Redis/Delivery.antt =====
-- A message from its serialization over a stream to its callback.
use hedwig_python.Prelude.{
  ℕ, String, ◌≡◌, refl, ap, ◌∙◌, subst, true, some, All, string_eq, pair_eq,
}
use hedwig_python.Python.Dict.{get, has_key, IsDict}
use hedwig_python.Python.Exn.{ok, >>=-eq-ok, ok-inj}
use hedwig_python.Python.Plain.{plain}
use hedwig_python.Python.Value.{Value, Entries, key_eq}
use hedwig_python.Text.Prefix.{starts_with}
use hedwig_python.Models.{Message, headers, major_version, with_provider_metadata}
use hedwig_python.Callback.{Function, Registry, check_signature, version_pattern}
use hedwig_python.Consumer.Handler.{message_handler}
use hedwig_python.Validator.{Payload, MetaAttributes}
use hedwig_python.Validator.Headers.{IsSane}
use hedwig_python.Validator.MessageType.{IsTypeName}
use hedwig_python.Validator.Attributes.{own_attributes, encode_meta_attributes}
use hedwig_python.Validator.Attributes.Written.{encoded, no_key, written-IsDict}
use hedwig_python.Validator.Codec.{serialize, deserialize, meta_of}
use hedwig_python.Validator.Codec.Checked.{serialize_with-IsServed}
use hedwig_python.JsonSchema.{Library, encode_payload, json_format}
use hedwig_python.JsonSchema.RoundTrip.{IsJson, IsTyped}
use hedwig_python.EndToEnd.{delivery}
use hedwig_python.Redis.{
  StreamFields, RedisMetadata, utf8, redis_message, encode_fields, process_message,
}
use hedwig_python.Redis.Packed.{IsUnpacked, IsPayload, process_message-redis_message}

module _ (show : Value → String) (meta : MetaAttributes) (sane : All IsSane meta.headers)
    (once : IsDict meta.headers) where
  pub encode_meta_attributes-IsUnpacked :
      (attributes : Entries)
      → encode_meta_attributes show true meta ≡ ok attributes
      → IsUnpacked attributes
  unfolding starts_with has_key own_attributes
  encode_meta_attributes-IsUnpacked attributes h =
      subst IsUnpacked (encoded show meta sane once attributes h) (record {
        once = written-IsDict show meta sane once;
        no_payload = no_key show meta sane once "hedwig_payload" refl refl;
        no_encoding = no_key show meta sane once "hedwig_encoding" refl refl;
      })

-- What the JSON validator returns: a text, and attributes that are free of the two names.
pub json_sent :
    {P : Type 0} (lib : Library) (root : String) (m : Message Value P) (payload : Payload)
    (attrs : Entries)
    → IsDict (headers m)
    → serialize true (json_format lib true root) m ≡ ok (payload, attrs)
    → IsPayload payload × IsUnpacked attrs
unfolding serialize encode_payload meta_of
json_sent lib root m payload attrs once h =
    let fmt = json_format lib true root in
    let s = serialize_with-IsServed fmt m true payload attrs h in
    let meta = meta_of fmt m in
    let (attributes, written, h₁) =
      >>=-eq-ok (encode_meta_attributes lib.show true meta) _ s.encoded in
    let (line, dumped, same) = >>=-eq-ok (lib.dumps m.content) _ h₁ in
    (
      subst IsPayload (ap (λ r. r.0) (ok-inj same)) tt,
      subst IsUnpacked (ap (λ r. r.1) (ok-inj same))
          (encode_meta_attributes-IsUnpacked lib.show meta s.sane once attributes written),
    )

-- Whatever entry of a stream has the fields that a serialized message was sent with, and however
-- often it was delivered: processing it runs the callback for its type and major version, on the
-- message that was sent with the entry's metadata.
pub delivery_over_redis :
    (lib : Library) (json : IsJson lib) (root : String)
    (callbacks : Registry (Message Value RedisMetadata))
    (fn : Function (Message Value RedisMetadata)) (m : Message Value RedisMetadata)
    (payload : Payload) (attrs : Entries) (stream id : String) (attempt : ℕ) (fields : StreamFields)
    → IsTyped m
    → IsTypeName m.type
    → plain m.content ≡ true
    → IsDict (headers m)
    → serialize true (json_format lib true root) m ≡ ok (payload, attrs)
    → encode_fields (redis_message payload attrs) ≡ ok fields
    → get (m.type, version_pattern (major_version m)) callbacks ≡ some fn
    → check_signature fn.parameters ≡ ok tt
    → process_message
        (message_handler callbacks (deserialize true (json_format lib true root)))
        (record {
          stream = utf8 stream;
          key = utf8 id;
          payload = fields;
          delivery_attempt = attempt;
        })
      ≡ fn.run (
          with_provider_metadata m
            (some (record { id = id; stream = stream; delivery_attempt = attempt })))
delivery_over_redis lib json root callbacks fn m payload attrs stream id attempt fields typed named
      p once sent stored registered signed =
    let (good, unpacked) = json_sent lib root m payload attrs once sent in
    process_message-redis_message
      (message_handler callbacks (deserialize true (json_format lib true root))) stream id attempt
      payload attrs fields good unpacked stored
    ∙ delivery lib json root callbacks fn m payload attrs
        (some (record { id = id; stream = stream; delivery_attempt = attempt })) typed named p once
        sent registered signed
