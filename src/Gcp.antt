-- ===== src/Gcp.antt =====
-- hedwig/backends/gcp.py: messages over Google Pub/Sub.
pub mod Credentials
pub mod Keywords
pub mod Publishing
pub mod Received
pub mod Pull
pub mod Requeue
pub mod Delivery
use mathlib.Core.Option
use hedwig_python.Prelude.{ℕ, String, Bool, true, false, Option, none, some, List, ◌==◌, string_eq}
use hedwig_python.Python.Dict.{get, put}
use hedwig_python.Python.Exn.{Result, ok, raise, unicode_error, from_option, ◌>>=◌}
use hedwig_python.Python.Value.{Key, name, Value, str, Entries, key_eq}
use hedwig_python.Text.Utf8.{encode_utf8, decode_utf8}
use hedwig_python.Models.{Message}
use hedwig_python.Validator.{Payload, text, binary}

-- What the code reads of the library's message. Its publish time is in microseconds since 1970, and
-- without a dead letter policy there is no count of the attempts.
pub record SubscriberMessage : Type 0 where
  pub data_ : List ℕ
  pub attributes : Entries
  pub message_id : String
  pub ack_id : String
  pub publish_time : ℕ
  pub delivery_attempt : Option ℕ

pub record MessageWrapper : Type 0 where
  pub message : SubscriberMessage
  pub subscription_path : String

pub record GoogleMetadata : Type 0 where
  pub ack_id : String
  pub subscription_path : String
  pub publish_time : ℕ
  pub delivery_attempt : Option ℕ

-- Pub/Sub takes bytes: a text goes as UTF-8, and an attribute says so.
unfoldable pub bytes_payload : Payload → Entries → List ℕ × Entries
unfolding encode_utf8
bytes_payload (text s) attributes =
    (encode_utf8 s, put (name "hedwig_encoding") (str "utf8") attributes)
bytes_payload (binary bytes) attributes = (bytes, attributes)

-- `_mock_queue_message`, at the time `now_us` in microseconds; `show_ms` gives the text of its
-- milliseconds.
unfoldable pub mock_queue_message :
    {D P : Type 0} (now_us : ℕ) (show_ms : ℕ → String)
    → (Message D P → Result (Payload × Entries))
    → Message D P
    → Result MessageWrapper
unfolding bytes_payload
mock_queue_message now_us show_ms serialize message = do
  (payload, attributes) ← serialize message
  let ready = bytes_payload payload attributes
  ok (record {
    message = record {
      data_ = ready.0;
      attributes = ready.1;
      message_id = show_ms now_us;
      ack_id = "test-receipt";
      publish_time = now_us;
      delivery_attempt = some 1;
    };
    subscription_path = "test-subscription";
  })

abbrev pub is_utf8 : Option Value → Bool
is_utf8 (some (str s)) = s == "utf8"
is_utf8 _ = false

abbrev pub payload_of : Bool → List ℕ → Result Payload
payload_of true data_ = from_option unicode_error (Option.map text (decode_utf8 data_))
payload_of false data_ = ok (binary data_)

abbrev pub metadata_of : MessageWrapper → GoogleMetadata
metadata_of q = record {
  ack_id = q.message.ack_id;
  subscription_path = q.subscription_path;
  publish_time = q.message.publish_time;
  delivery_attempt = q.message.delivery_attempt;
}

-- `handler` is `self.message_handler`.
unfoldable pub process_message :
    (Payload → Entries → Option GoogleMetadata → Result (Unit {0}))
    → MessageWrapper
    → Result (Unit {0})
process_message handler queue_message = do
  let attributes = queue_message.message.attributes
  payload ←
      payload_of (is_utf8 (get (name "hedwig_encoding") attributes)) queue_message.message.data_
  handler payload attributes (some (metadata_of queue_message))
