-- ===== src/Redis.antt =====
-- hedwig/backends/redis.py: messages over Redis streams.
pub mod Packed
pub mod Pull
pub mod Attempts
pub mod Requeue
pub mod Delivery
use hedwig_python.Prelude.{
  ℕ, String, ◌≡◌, refl, Bool, true, false, Option, none, some, List, [], ◌∷◌, string_eq, ◌==◌,
  if◌then◌else◌,
}
use Prim.Native.String.{◌++◌ as ◌<>◌}
use mathlib.Core.Option
use hedwig_python.Python.Dict.{get, put, remove, update}
use hedwig_python.Python.Action.{Action}
use hedwig_python.Python.Exn.{
  Result, ok, raise, key_error, attribute_error, type_error, unicode_error, value_error,
  from_option, ◌>>=◌, ◌>>◌,
}
use hedwig_python.Python.Value.{Key, name, other_key, Value, str, Entries, is_str, to_str, key_eq}
use hedwig_python.Text.Base64.{encodebytes, decodebytes}
use hedwig_python.Models.{Message}
use hedwig_python.Validator.{Payload, text, binary}
use hedwig_python.Publisher.{Topic, here, Routing, topic}

-- A `bytes` object: the UTF-8 encoding of one text, or bytes that encode none.
pub data Bytes : Type 0 where
  utf8 : String → Bytes
  not_utf8 : List ℕ → Bytes

-- b.decode()
unfoldable pub decode : Bytes → Result String
decode (utf8 s) = ok s
decode (not_utf8 bytes) = raise unicode_error

abbrev pub StreamFields : Type 0
StreamFields = List (Bytes × Bytes)

pub record RedisMessage : Type 0 where
  pub stream : Bytes
  pub key : Bytes
  pub payload : StreamFields
  pub delivery_attempt : ℕ

pub record RedisMetadata : Type 0 where
  pub id : String
  pub stream : String
  pub delivery_attempt : ℕ

-- Bytes go as base64, and an attribute says so.
unfoldable pub text_payload : Payload → Entries → String × Entries
text_payload (text s) attributes = (s, attributes)
text_payload (binary bytes) attributes =
    (encodebytes bytes, put (name "hedwig_encoding") (str "base64") attributes)

-- {"hedwig_payload": payload, **attributes}
unfoldable pub redis_message : Payload → Entries → Entries
unfolding text_payload
redis_message payload attributes =
    let sent = text_payload payload attributes in
    update ((name "hedwig_payload", str sent.0) ∷ []) sent.1

-- {k.encode(): v.encode() for k, v in m.items()}
unfoldable pub encode_fields : Entries → Result StreamFields
encode_fields [] = ok []
encode_fields ((name k, str v) ∷ m) = do fields ← encode_fields m; ok ((utf8 k, utf8 v) ∷ fields)
encode_fields (_ ∷ m) = raise attribute_error

-- `message_attributes`
unfoldable pub message_attributes : StreamFields → Result Entries
unfolding decode
message_attributes [] = ok []
message_attributes ((k, v) ∷ fields) = do
  key ← decode k
  value ← decode v
  m ← message_attributes fields
  ok ((name key, str value) ∷ m)

-- f"hedwig:{self.topic(message)}", where `show` prints a topic that is a tuple
unfoldable pub stream_name : (Topic → String) → Topic → String
stream_name show (here t) = "hedwig:" <> t
stream_name show t = "hedwig:" <> show t

module _ {D P : Type 0} (routing : Routing) (show : Topic → String)
    (show_value : Value → String) where
  unfoldable pub mock_queue_message :
      (Message D P → Result (Payload × Entries)) → Message D P → Result RedisMessage
  unfolding redis_message encode_fields stream_name topic to_str
  mock_queue_message serialize message = do
    (payload, attributes) ← serialize message
    fields ← encode_fields (redis_message payload attributes)
    topic_ ← topic routing message
    timestamp ←
        from_option key_error
          (get (name "hedwig_message_timestamp") (text_payload payload attributes).1)
    ok (record {
      stream = utf8 (stream_name show topic_);
      key = utf8 (to_str show_value timestamp <> "-0");
      payload = fields;
      delivery_attempt = 1;
    })

-- isinstance(v, str), which all fields are
abbrev pub text_of : Value → Result String
text_of (str s) = ok s
text_of other = raise type_error

abbrev pub is_base64 : Option Value → Bool
is_base64 (some (str s)) = s == "base64"
is_base64 _ = false

abbrev pub payload_of : Bool → String → Result Payload
payload_of true s = from_option value_error (Option.map binary (decodebytes s))
payload_of false s = ok (text s)

-- `handler` is `self.message_handler`.
unfoldable pub process_message :
    (Payload → Entries → Option RedisMetadata → Result (Unit {0}))
    → RedisMessage
    → Result (Unit {0})
unfolding message_attributes
process_message handler queue_message = do
  stream ← decode queue_message.stream
  message_id ← decode queue_message.key
  fields ← message_attributes queue_message.payload
  message_payload ← from_option key_error (get (name "hedwig_payload") fields) >>= text_of
  let others = remove (name "hedwig_payload") fields
  payload ← payload_of (is_base64 (get (name "hedwig_encoding") others)) message_payload
  handler payload (remove (name "hedwig_encoding") others) (
      some (record {
        id = message_id;
        stream = stream;
        delivery_attempt = queue_message.delivery_attempt;
      }))

-- `_publish`, where `xadd` is the client's.
unfoldable pub publish_over_redis :
    {D P S : Type 0} (routing : Routing) (show : Topic → String)
    (xadd : String → Entries → Action S String)
    → Message D P
    → Payload
    → Entries
    → Action S String
unfolding redis_message stream_name topic
publish_over_redis {S = S} routing show xadd message payload attributes s =
    publish_to (topic routing message) s
  where
    publish_to : Result Topic → Action S String
    publish_to (ok t) s = xadd (stream_name show t) (redis_message payload attributes) s
    publish_to (raise e) s = (raise e, s)
