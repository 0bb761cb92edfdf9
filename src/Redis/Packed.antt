-- ===== src/Redis/Packed.antt =====
-- What was sent over a stream is what the handler is given.
use hedwig_python.Prelude.{
  ℕ, String, ◌≡◌, refl, ◌∙◌, ap, subst, false, Option, some, [], ◌∷◌, All, string_eq,
}
use hedwig_python.Python.Dict.{
  get, put, remove, has_key, IsDict, put-fresh, update-fresh, get-none, get-snoc, remove-absent,
  remove-snoc, IsFresh-single, IsDict-put, has_key-put,
}
use hedwig_python.Python.Exn.{Result, ok, ◌>>=◌, >>=-eq-ok, ok-inj}
use hedwig_python.Python.Value.{name, str, Entries, key_eq}
use hedwig_python.Text.Base64.{encodebytes}
use hedwig_python.Text.Base64.RoundTrip.{IsByte, decodebytes-encodebytes}
use hedwig_python.Validator.{Payload, text, binary}
use hedwig_python.Redis.{
  utf8, decode, StreamFields, RedisMessage, RedisMetadata, text_payload, redis_message,
  encode_fields, message_attributes, is_base64, payload_of, process_message,
}

message_attributes-encode_fields :
    (m : Entries) (fields : StreamFields)
    → encode_fields m ≡ ok fields
    → message_attributes fields ≡ ok m
unfolding encode_fields message_attributes decode
message_attributes-encode_fields [] fields h =
    subst (λ fs. message_attributes fs ≡ ok []) (ok-inj h) refl
message_attributes-encode_fields ((name k, str v) ∷ m) fields h =
    let (rest, encoded, same) = >>=-eq-ok (encode_fields m) _ h in
    subst (λ fs. message_attributes fs ≡ ok ((name k, str v) ∷ m)) (ok-inj same)
      (rw (message_attributes-encode_fields m rest encoded) refl)
message_attributes-encode_fields _ fields h = cc

-- The attributes that the validator gives: no two of one name, and neither of the two names that
-- Redis messages have beside them.
pub record IsUnpacked (attributes : Entries) : Type 0 where
  pub once : IsDict attributes
  pub no_payload : has_key (name "hedwig_payload") attributes ≡ false
  pub no_encoding : has_key (name "hedwig_encoding") attributes ≡ false

abbrev pub IsPayload : Payload → Type 0
IsPayload (text s) = Unit {0}
IsPayload (binary bytes) = All IsByte bytes

module _ (handler : Payload → Entries → Option RedisMetadata → Result (Unit {0}))
    (stream id : String) (attempt : ℕ) where
  abbrev received : StreamFields → RedisMessage
  received fields = record {
    stream = utf8 stream;
    key = utf8 id;
    payload = fields;
    delivery_attempt = attempt;
  }

  abbrev metadata : RedisMetadata
  metadata = record { id = id; stream = stream; delivery_attempt = attempt }

  opened :
      (s : String) (m : Entries) (fields : StreamFields)
      → message_attributes fields ≡ ok ((name "hedwig_payload", str s) ∷ m)
      → process_message handler (received fields) ≡ (
          payload_of (is_base64 (get (name "hedwig_encoding") m)) s >>= λ payload.
          handler payload (remove (name "hedwig_encoding") m) (some metadata))
  unfolding process_message decode get remove
  opened s m fields e = rw e refl

  unpacked :
      (payload : Payload) (attributes : Entries) (fields : StreamFields)
      → IsPayload payload
      → IsUnpacked attributes
      → message_attributes fields
        ≡ ok (
            (name "hedwig_payload", str (text_payload payload attributes).0)
            ∷ (text_payload payload attributes).1)
      → process_message handler (received fields) ≡ handler payload attributes (some metadata)
  unfolding text_payload
  unpacked (text s) attributes fields good h e =
      opened s attributes fields e
      ∙ rw (get-none (name "hedwig_encoding") attributes h.no_encoding)
          (rw (remove-absent (name "hedwig_encoding") attributes h.no_encoding) refl)
  unpacked (binary bytes) attributes fields good h e =
      let added = put-fresh (name "hedwig_encoding") (str "base64") attributes h.no_encoding in
      opened (encodebytes bytes) (put (name "hedwig_encoding") (str "base64") attributes) fields e
      ∙ rw added (
          rw (get-snoc (name "hedwig_encoding") (str "base64") attributes h.no_encoding) (
            rw (remove-snoc (name "hedwig_encoding") (str "base64") attributes h.no_encoding)
              (rw (decodebytes-encodebytes bytes good) refl)))

  redis_message-fields :
      (payload : Payload) (attributes : Entries)
      → IsUnpacked attributes
      → redis_message payload attributes
        ≡ (name "hedwig_payload", str (text_payload payload attributes).0)
          ∷ (text_payload payload attributes).1
  unfolding redis_message text_payload
  redis_message-fields (text s) attributes h =
      update-fresh ((name "hedwig_payload", str s) ∷ []) attributes h.once
        (IsFresh-single (name "hedwig_payload") (str s) attributes h.no_payload)
  redis_message-fields (binary bytes) attributes h =
      update-fresh ((name "hedwig_payload", str (encodebytes bytes)) ∷ [])
        (put (name "hedwig_encoding") (str "base64") attributes)
        (IsDict-put (name "hedwig_encoding") (str "base64") attributes h.once)
        (IsFresh-single (name "hedwig_payload") (str (encodebytes bytes))
          (put (name "hedwig_encoding") (str "base64") attributes)
          (has_key-put (name "hedwig_encoding") (name "hedwig_payload") (str "base64") attributes
            ∙ h.no_payload))

-- Whatever entry of a stream has the fields that were sent, the handler is given the payload, be
-- it a text or bytes, and the attributes as the validator returned them.
pub process_message-redis_message :
    (handler : Payload → Entries → Option RedisMetadata → Result (Unit {0})) (stream id : String)
    (attempt : ℕ) (payload : Payload) (attributes : Entries) (fields : StreamFields)
    → IsPayload payload
    → IsUnpacked attributes
    → encode_fields (redis_message payload attributes) ≡ ok fields
    → process_message handler (record {
      stream = utf8 stream;
      key = utf8 id;
      payload = fields;
      delivery_attempt = attempt;
    })
      ≡ handler payload attributes
          (some (record { id = id; stream = stream; delivery_attempt = attempt }))
process_message-redis_message handler stream id attempt payload attributes fields good h sent =
    unpacked handler stream id attempt payload attributes fields good h (
      message_attributes-encode_fields (redis_message payload attributes) fields sent
      ∙ ap ok (redis_message-fields handler stream id attempt payload attributes h))
