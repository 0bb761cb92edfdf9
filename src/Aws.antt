-- ===== src/Aws.antt =====
-- hedwig/backends/aws.py: messages over SNS topics and SQS queues.
pub mod Received
pub mod Requeue
pub mod Lambda
pub mod Delivery
use Prim.Native.String.{◌++◌ as ◌<>◌}
use mathlib.Core.Option
use hedwig_python.Prelude.{
  ℕ, zero, suc, String, ◌≡◌, refl, Bool, true, false, Option, none, some, List, [], ◌∷◌, string_eq,
  ◌==◌, if◌then◌else◌,
}
use hedwig_python.Prelude.Int.{ℤ, pos}
use hedwig_python.Python.Action.{Action, pure, lift, and_then, caught, ◌>>=◌, ◌>>◌}
use hedwig_python.Python.Dict.{get}
use hedwig_python.Python.Exn
use hedwig_python.Python.Exn.{
  Result, ok, raise, key_error, value_error, type_error, attribute_error, from_option,
}
use hedwig_python.Python.Value.{Key, name, Value, int, str, Entries, to_str, key_eq}
use hedwig_python.Text.IntLiteral.{int_of}
use hedwig_python.Models.{Message}
use hedwig_python.Validator.{Payload, text, binary}
use hedwig_python.Publisher.{Topic, here, elsewhere, Routing, topic}
use hedwig_python.Redis.{text_payload, is_base64, payload_of}

-- A message attribute of SNS and SQS: its `StringValue`, which one of a binary type lacks.
pub record MessageAttribute : Type 0 where
  pub data_type : String
  pub string_value : Option String

abbrev pub MessageAttributes : Type 0
MessageAttributes = List (String × MessageAttribute)

-- What the code reads of an SQS message. Without attributes there is no dictionary of them.
-- `attributes` are the system's: times in milliseconds, and a count.
pub record SqsMessage : Type 0 where
  pub message_id : String
  pub receipt_handle : String
  pub body : String
  pub message_attributes : Option MessageAttributes
  pub attributes : List (String × Value)

-- The times are in milliseconds since 1970.
pub record AwsMetadata : Type 0 where
  pub receipt : String
  pub first_receive_time : ℤ
  pub sent_time : ℤ
  pub receive_count : ℤ

-- {str(k): {'DataType': 'String', 'StringValue': str(v)} for k, v in attributes.items()}. `show` is
-- `str` on objects that are no texts or numbers, and `show_key` on keys that are none.
abbrev pub key_str : (Key → String) → Key → String
key_str show_key (name s) = s
key_str show_key k = show_key k

unfoldable pub sent_attributes : (Value → String) → (Key → String) → Entries → MessageAttributes
unfolding to_str
sent_attributes show show_key [] = []
sent_attributes show show_key ((k, v) ∷ m) =
    (key_str show_key k, record { data_type = "String"; string_value = some (to_str show v) })
    ∷ sent_attributes show show_key m

-- {k: o['StringValue'] for k, o in m.items()}
unfoldable pub string_values : MessageAttributes → Result Entries
string_values [] = ok []
string_values ((k, o) ∷ m) =
    Exn.◌>>=◌ (from_option key_error o.string_value)
      λ v. Exn.◌>>=◌ (string_values m) λ rest. ok ((name k, str v) ∷ rest)

-- `queue_message.message_attributes or {}`
abbrev pub or_none : Option MessageAttributes → MessageAttributes
or_none none = []
or_none (some m) = m

-- `message_attributes` of the SQS consumer, without `or {}`
unfoldable pub message_attributes : SqsMessage → Result Entries
unfolding string_values
message_attributes q = string_values_of q.message_attributes
  where
    string_values_of : Option MessageAttributes → Result Entries
    string_values_of none = raise attribute_error
    string_values_of (some m) = string_values m

-- int(queue_message.attributes[k])
abbrev pub int_value : Value → Result ℤ
int_value (int z) = ok z
int_value (str s) = from_option value_error (int_of s)
int_value _ = raise type_error

abbrev pub system_int : List (String × Value) → String → Result ℤ
system_int attributes k = Exn.◌>>=◌ (from_option key_error (get k attributes)) int_value

-- `handler` is `self.message_handler`. A time that `datetime` cannot hold is an error there.
unfoldable pub process_message :
    (Payload → Entries → Option AwsMetadata → Result (Unit {0})) → SqsMessage → Result (Unit {0})
unfolding string_values
process_message handler q = Exn.◌>>=◌ (string_values (or_none q.message_attributes)) λ attributes.
    Exn.◌>>=◌ (payload_of (is_base64 (get (name "hedwig_encoding") attributes)) q.body) λ payload.
      Exn.◌>>=◌ (system_int q.attributes "ApproximateFirstReceiveTimestamp") λ first.
        Exn.◌>>=◌ (system_int q.attributes "SentTimestamp") λ sent.
          Exn.◌>>=◌ (system_int q.attributes "ApproximateReceiveCount") λ count.
            handler payload attributes (
              some (record {
                receipt = q.receipt_handle;
                first_receive_time = first;
                sent_time = sent;
                receive_count = count;
              }))

-- `_get_sns_topic`, for a region and AWS_ACCOUNT_ID
unfoldable pub topic_arn : String → String → Topic → String
topic_arn region account_id (here t) =
    "arn:aws:sns:" <> (region <> (":" <> (account_id <> (":hedwig-" <> t))))
topic_arn region account_id (elsewhere t account) =
    "arn:aws:sns:" <> (region <> (":" <> (account <> (":hedwig-" <> t))))

-- `_publish_over_sns`, where `send` is the client's `publish` and `retry` is the decorator.
unfoldable pub publish_over_sns :
    {S : Type 0} (retry : Action S String → Action S String) (show : Value → String)
    (show_key : Key → String) (send : String → String → MessageAttributes → Action S String)
    → String
    → String
    → Entries
    → Action S String
unfolding sent_attributes
publish_over_sns retry show show_key send arn message_payload attributes =
    retry (send arn message_payload (sent_attributes show show_key attributes))

-- `_publish`
unfoldable pub publish_over_aws :
    {D P S : Type 0} (retry : Action S String → Action S String) (show : Value → String)
    (show_key : Key → String) (send : String → String → MessageAttributes → Action S String)
    (routing : Routing) (region account_id : String)
    → Message D P
    → Payload
    → Entries
    → Action S String
unfolding publish_over_sns topic_arn topic text_payload
publish_over_aws retry show show_key send routing region account_id message payload attributes =
    lift (topic routing message) >>= λ t.
    publish_over_sns retry show show_key send (topic_arn region account_id t)
      (text_payload payload attributes).0 (text_payload payload attributes).1

-- `_mock_queue_message`, with the times of its two looks at the clock in milliseconds. A mock has no
-- `message_id` of its own.
unfoldable pub mock_queue_message :
    {D P : Type 0} (show : Value → String) (show_key : Key → String) (sent first_receive : ℤ)
    → (Message D P → Result (Payload × Entries))
    → Message D P
    → Result SqsMessage
unfolding text_payload sent_attributes
mock_queue_message show show_key sent first_receive serialize message =
    Exn.◌>>=◌ (serialize message) λ served.
      let ready = text_payload served.0 served.1 in
      ok (record {
        message_id = "";
        receipt_handle = "test-receipt";
        body = ready.0;
        message_attributes = some (sent_attributes show show_key ready.1);
        attributes =
            ("ApproximateReceiveCount", int (pos 1))
            ∷ ("SentTimestamp", int sent)
            ∷ ("ApproximateFirstReceiveTimestamp", int first_receive)
            ∷ [];
      })
