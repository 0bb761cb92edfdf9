-- ===== src/Tests/Pubsub.antt =====
-- Messages over Pub/Sub, on concrete services.
use hedwig_python.Prelude.{
  ℕ, ◌≡◌, ◌≤◌, refl, true, false, Option, none, some, List, [], ◌∷◌, ◌++◌, string_eq, pair_eq,
  arith, ltb, if◌then◌else◌,
}
use hedwig_python.Prelude.Int.{pos}
use hedwig_python.Python.Action.{pure}
use hedwig_python.Python.Dict.{get, has_key, put}
use hedwig_python.Python.Exn.{Result, ok, raise, type_error, value_error, other_exception}
use hedwig_python.Python.Value.{Value, name, str, Entries, key_eq}
use hedwig_python.Models.{Message, with_provider_metadata}
use hedwig_python.Validator.{Payload, text, binary}
use hedwig_python.Validator.Codec.{deserialize}
use hedwig_python.JsonSchema.{json_format}
use hedwig_python.Text.Decimal.{decimal_onto, emit, digit}
use hedwig_python.Text.Utf8.{encode_utf8}
use hedwig_python.Callback.{
  positional, message_class, Function, Registry, check_signature, version_pattern,
}
use hedwig_python.Consumer.{init}
use hedwig_python.Consumer.Loop.{Backend}
use hedwig_python.Consumer.Outcome.{verdict}
use hedwig_python.Consumer.Handler.{message_handler}
use hedwig_python.Consumer.Survival.{IsServed}
use hedwig_python.Gcp.{
  SubscriberMessage, MessageWrapper, GoogleMetadata, bytes_payload, metadata_of, process_message,
}
use hedwig_python.Gcp.Delivery.{delivery_over_pubsub}
use hedwig_python.Gcp.Pull.{
  Turn, schedule, get as take, Stream, Subscriber, extend_visibility_timeout,
}
use hedwig_python.Gcp.Pull.Settled.{arrivals, gets}
use hedwig_python.Gcp.Pull.Delivered.{IsOpen, IsDelivered}
use hedwig_python.Gcp.Pull.Consumed.{settled, fetch_round, fetch_round-IsDelivered}
use hedwig_python.Gcp.Pull.Bounds.{extend_visibility_timeout-bounded}
use hedwig_python.Tests.Codecs.{
  root, lib, lib-IsJson, trip_for, trip_attributes, trip_for-IsTyped, trip-IsTypeName, trip-plain,
  trip-IsDict, trip_for-serialize,
}

abbrev message : List ℕ → Entries → SubscriberMessage
message data_ attributes = record {
  data_ = data_;
  attributes = attributes;
  message_id = "m-1";
  ack_id = "a-1";
  publish_time = 1000;
  delivery_attempt = some 2;
}

abbrev received : List ℕ → Entries → MessageWrapper
received data_ attributes = record { message = message data_ attributes; subscription_path = "s" }

-- A text with characters of one to four bytes.
abbrev euro : MessageWrapper
euro =
    received (97 ∷ 195 ∷ 169 ∷ 226 ∷ 130 ∷ 172 ∷ 240 ∷ 159 ∷ 152 ∷ 128 ∷ [])
      ((name "hedwig_id", str "id-1") ∷ (name "hedwig_encoding", str "utf8") ∷ [])

abbrev attributes : Entries
attributes = (name "hedwig_id", str "id-1") ∷ []

abbrev handler : Payload → Entries → Option GoogleMetadata → Result (Unit {0})
handler (text s) _ _ = ok tt
handler (binary bs) _ _ = raise type_error

no_encoding : has_key (name "hedwig_encoding") attributes ≡ false
unfolding has_key
no_encoding = refl

euro_data : euro.message.data_ ≡ (bytes_payload (text "aé€😀") attributes).0
unfolding bytes_payload encode_utf8
euro_data = refl

euro_attributes : euro.message.attributes ≡ (bytes_payload (text "aé€😀") attributes).1
unfolding bytes_payload put
euro_attributes = refl

abbrev trip_message : MessageWrapper
trip_message =
    received (102 ∷ 105 ∷ 114 ∷ 115 ∷ 116 ∷ [])
      (trip_attributes ++ (name "hedwig_encoding", str "utf8") ∷ [])

trip_data : trip_message.message.data_ ≡ (bytes_payload (text "first") trip_attributes).0
unfolding bytes_payload encode_utf8
trip_data = refl

trip_marked : trip_message.message.attributes ≡ (bytes_payload (text "first") trip_attributes).1
unfolding bytes_payload put
trip_marked = refl

abbrev callback_fn : Function (Message Value GoogleMetadata)
callback_fn = record {
  parameters = (record { kind = positional; name = "message"; annotation = message_class }) ∷ [];
  run = λ m. raise value_error;
}

abbrev callbacks : Registry (Message Value GoogleMetadata)
callbacks = (("trip", "1.*"), callback_fn) ∷ []

registered : get ("trip", version_pattern 1) callbacks ≡ some callback_fn
unfolding get version_pattern decimal_onto emit digit
registered = refl

signed : check_signature callback_fn.parameters ≡ ok tt
unfolding check_signature
signed = refl

delivery_over_pubsub_example :
    process_message
      (message_handler callbacks (deserialize true (json_format lib true root)))
      trip_message
    ≡ callback_fn.run
        (with_provider_metadata (trip_for GoogleMetadata) (some (metadata_of trip_message)))
delivery_over_pubsub_example =
    delivery_over_pubsub lib lib-IsJson root callbacks callback_fn (trip_for GoogleMetadata)
      (text "first") trip_attributes trip_message (trip_for-IsTyped GoogleMetadata) trip-IsTypeName
      trip-plain trip-IsDict (trip_for-serialize GoogleMetadata) trip_data trip_marked registered
      signed

-- A service that keeps the last deadline, or `late` in place of one that is too late.
abbrev service : ℕ → Subscriber ℕ ℕ
service late = record {
  subscribe = λ path n seconds. pure 0;
  cancel = λ future. pure tt;
  ack = λ m. pure tt;
  nack = λ m. pure tt;
  modify_ack_deadline = λ path ack_id seconds s. (ok tt, if ltb 600 seconds then late else seconds);
}

service-IsOpen : IsOpen (service 0)
service-IsOpen = record { subscribes = λ path n seconds s. (0, refl); cancels = λ future s. refl }

-- A message without attributes is refused by the callback.
abbrev backend : Backend MessageWrapper
backend = record {
  message_attributes = λ q. ok q.message.attributes;
  pre_process_hook = λ q. ok tt;
  process_message = λ q. process_message handler q;
  post_process_hook = λ q. ok tt;
  ack_message = λ q. raise other_exception;
  nack_message = λ q. ok tt;
  extended_at = λ q. [];
  received_at = λ q. 0;
  processed_at = λ q. 0;
}

backend-IsServed : (q : MessageWrapper) → IsServed backend q
backend-IsServed q = record {
  nacks = refl;
  attributes = q.message.attributes;
  has_attributes = refl;
}

abbrev turns : List Turn
turns = take 1 1 ∷ schedule "s" euro.message ∷ schedule "s" (message [] []) ∷ take 2 2 ∷ []

abbrev last_turns : List Turn
last_turns = take 3 3 ∷ schedule "t" euro.message ∷ take 4 4 ∷ take 5 5 ∷ take 6 6 ∷ take 7 7 ∷ []

abbrev stream : Stream ℕ
stream = record { world = record { consumer = init 15 none; server = 0 }; work_queue = [] }

fetch_round-IsDelivered_example :
    IsDelivered
      (verdict backend)
      settled
      turns
      last_turns
      stream
      (fetch_round (service 0) backend true ("s" ∷ "t" ∷ []) 10 none turns last_turns stream)
unfolding arrivals gets
fetch_round-IsDelivered_example =
    fetch_round-IsDelivered (service 0) backend true ("s" ∷ "t" ∷ []) 10 none turns last_turns
      stream service-IsOpen refl (backend-IsServed euro, (backend-IsServed (received [] []), tt))
      (backend-IsServed _, tt) (omega arith)

extend_visibility_timeout-bounded_example :
    extend_visibility_timeout (service 0) 100 (pos 601) (metadata_of euro) stream.world
    ≡ extend_visibility_timeout (service 1) 100 (pos 601) (metadata_of euro) stream.world
extend_visibility_timeout-bounded_example =
    extend_visibility_timeout-bounded (service 0) (service 1) 100 (pos 601) (metadata_of euro)
      stream.world (λ path ack_id seconds s h. rw (early seconds h) refl)
  where
    early : (seconds : ℕ) → seconds ≤ 600 → ltb 600 seconds ≡ false
    early seconds h = ground arith
