-- ===== src/Aws/Received.antt =====
-- What was sent to a topic is what the handler is given.
use hedwig_python.Prelude.{
  String, ◌≡◌, refl, false, Option, some, [], ◌∷◌, All, All-append, string_eq,
}
use hedwig_python.Python.Dict.{get, has_key, put-fresh, get-snoc, get-none}
use hedwig_python.Python.Exn.{Result, ok}
use hedwig_python.Python.Value.{Key, name, other_key, Value, str, Entries, key_eq, to_str}
use hedwig_python.Text.Base64.RoundTrip.{decodebytes-encodebytes}
use hedwig_python.Validator.{Payload, text, binary}
use hedwig_python.Validator.Headers.{IsText}
use hedwig_python.Redis.{text_payload, is_base64, payload_of}
use hedwig_python.Redis.Packed.{IsPayload}
use hedwig_python.Aws.{
  SqsMessage, AwsMetadata, sent_attributes, string_values, or_none, system_int, process_message,
}

module _ (show : Value → String) (show_key : Key → String) where
  string_values-sent_attributes :
      (m : Entries) → All IsText m → string_values (sent_attributes show show_key m) ≡ ok m
  unfolding string_values sent_attributes to_str
  string_values-sent_attributes [] h = refl
  string_values-sent_attributes ((name k, str v) ∷ m) (here, there) =
      rw (string_values-sent_attributes m there) refl
  string_values-sent_attributes ((name k, v) ∷ m) (here, there) = cc
  string_values-sent_attributes ((other_key n, v) ∷ m) (here, there) = cc

  pub sent-IsText :
      (payload : Payload) (attributes : Entries)
      → has_key (name "hedwig_encoding") attributes ≡ false
      → All IsText attributes
      → All IsText (text_payload payload attributes).1
  unfolding text_payload
  sent-IsText (text s) attributes h typed = typed
  sent-IsText (binary bytes) attributes h typed =
      rw (put-fresh (name "hedwig_encoding") (str "base64") attributes h) (
        All-append IsText attributes ((name "hedwig_encoding", str "base64") ∷ []) typed
          ((refl, refl), tt))

  payload_of-text_payload :
      (payload : Payload) (attributes : Entries)
      → has_key (name "hedwig_encoding") attributes ≡ false
      → IsPayload payload
      → payload_of
          (is_base64 (get (name "hedwig_encoding") (text_payload payload attributes).1))
          (text_payload payload attributes).0
        ≡ ok payload
  unfolding text_payload
  payload_of-text_payload (text s) attributes h good =
      rw (get-none (name "hedwig_encoding") attributes h) refl
  payload_of-text_payload (binary bytes) attributes h good =
      rw (put-fresh (name "hedwig_encoding") (str "base64") attributes h) (
        rw (get-snoc (name "hedwig_encoding") (str "base64") attributes h)
          (rw (decodebytes-encodebytes bytes good) refl))

-- A message of a queue that a topic feeds has the body and the attributes that were sent, and the
-- system's times and count.
pub record IsReceived (show : Value → String) (show_key : Key → String) (payload : Payload)
    (attributes : Entries) (metadata : AwsMetadata) (q : SqsMessage) : Type 0 where
  pub body : q.body ≡ (text_payload payload attributes).0
  pub message_attributes :
      or_none q.message_attributes
      ≡ sent_attributes show show_key (text_payload payload attributes).1
  pub receipt : q.receipt_handle ≡ metadata.receipt
  pub first :
      system_int q.attributes "ApproximateFirstReceiveTimestamp" ≡ ok metadata.first_receive_time
  pub sent : system_int q.attributes "SentTimestamp" ≡ ok metadata.sent_time
  pub count : system_int q.attributes "ApproximateReceiveCount" ≡ ok metadata.receive_count

-- The handler is given the payload that was sent over SNS, be it a text or bytes, the attributes,
-- with a mark that bytes were encoded, and the message's metadata.
pub process_message-sent :
    (handler : Payload → Entries → Option AwsMetadata → Result (Unit {0})) (show : Value → String)
    (show_key : Key → String) (payload : Payload) (attributes : Entries) (metadata : AwsMetadata)
    (q : SqsMessage)
    → IsPayload payload
    → All IsText attributes
    → has_key (name "hedwig_encoding") attributes ≡ false
    → IsReceived show show_key payload attributes metadata q
    → process_message handler q
      ≡ handler payload (text_payload payload attributes).1 (some metadata)
unfolding process_message
process_message-sent handler show show_key payload attributes metadata q good typed no_encoding r =
    rw r.message_attributes (
      rw
        (string_values-sent_attributes show show_key (text_payload payload attributes).1
          (sent-IsText show show_key payload attributes no_encoding typed))
        (rw r.body (
          rw (payload_of-text_payload show show_key payload attributes no_encoding good)
            (rw r.first (rw r.sent (rw r.count (rw r.receipt refl)))))))
