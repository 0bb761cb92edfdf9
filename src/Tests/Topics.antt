-- ===== src/Tests/Topics.antt =====
-- A message over an SNS topic, from `serialize` to its callback.
use hedwig_python.Prelude.{
  String, ◌≡◌, refl, true, none, some, List, [], ◌∷◌, ◌++◌, ◌==◌, string_eq, if◌then◌else◌, pair_eq,
}
use hedwig_python.Prelude.Int.{pos}
use hedwig_python.Python.Action.{Action, lift, ◌>>◌}
use hedwig_python.Python.Dict.{get}
use hedwig_python.Python.Exn.{ok, raise, type_error}
use hedwig_python.Python.Value.{Value, int, str}
use hedwig_python.Text.Decimal.{decimal_onto, emit, digit, is_digit, span_digits}
use hedwig_python.Text.IntLiteral.{int_of}
use hedwig_python.Models.{with_provider_metadata}
use hedwig_python.Callback.{
  positional, message_class, Function, Registry, check_signature, version_pattern,
}
use hedwig_python.Models.{Message}
use hedwig_python.Consumer.Handler.{message_handler}
use hedwig_python.Validator.{text}
use hedwig_python.Validator.Codec.{deserialize}
use hedwig_python.JsonSchema.{json_format}
use hedwig_python.JsonSchema.Textual.{IsTextual, serialize-IsTextual}
use hedwig_python.Redis.{text_payload}
use hedwig_python.Aws.{SqsMessage, AwsMetadata, sent_attributes, process_message}
use hedwig_python.Aws.Received.{IsReceived}
use hedwig_python.Aws.Lambda.{SnsRecord}
use hedwig_python.Aws.Lambda as Lambda
use hedwig_python.Aws.Lambda.Published.{published_values}
use hedwig_python.Aws.Delivery.{handled, delivery_over_sns}
use hedwig_python.Tests.Codecs.{
  root, lib, lib-IsJson, trip_for, trip_attributes, trip_for-IsTyped, trip-IsTypeName, trip-plain,
  trip-IsDict, trip_for-serialize,
}

serialize-IsTextual_example : IsTextual (text "first") trip_attributes
serialize-IsTextual_example =
    serialize-IsTextual lib root true (trip_for AwsMetadata) (text "first") trip_attributes
      (trip_for-IsTyped AwsMetadata) trip-IsDict (trip_for-serialize AwsMetadata)

abbrev queued : SqsMessage
queued = record {
  message_id = "m-1";
  receipt_handle = "r-1";
  body = "first";
  message_attributes = some (sent_attributes (λ v. "?") (λ k. "?") trip_attributes);
  attributes =
      ("ApproximateFirstReceiveTimestamp", int (pos 1000))
      ∷ ("SentTimestamp", str "900")
      ∷ ("ApproximateReceiveCount", int (pos 1))
      ∷ [];
}

abbrev queue_metadata : AwsMetadata
queue_metadata = record {
  receipt = "r-1";
  first_receive_time = pos 1000;
  sent_time = pos 900;
  receive_count = pos 1;
}

queued-IsReceived :
    IsReceived (λ v. "?") (λ k. "?") (text "first") trip_attributes queue_metadata queued
unfolding text_payload get int_of span_digits is_digit
queued-IsReceived = record {
  body = refl;
  message_attributes = refl;
  receipt = refl;
  first = refl;
  sent = refl;
  count = refl;
}

abbrev sns_record : SnsRecord
sns_record = record {
  message = "first";
  message_attributes = published_values (λ v. "?") (λ k. "?") trip_attributes;
  attributes = none;
}

abbrev callback_fn : Function (Message Value AwsMetadata)
callback_fn = record {
  parameters = (record { kind = positional; name = "message"; annotation = message_class }) ∷ [];
  run = λ m. if m.type == "trip" then ok tt else raise type_error;
}

abbrev callbacks : Registry (Message Value AwsMetadata)
callbacks = (("trip", "1.*"), callback_fn) ∷ []

registered : get ("trip", version_pattern 1) callbacks ≡ some callback_fn
unfolding get version_pattern decimal_onto emit digit
registered = refl

signed : check_signature callback_fn.parameters ≡ ok tt
unfolding check_signature
signed = refl

abbrev noted : String → SnsRecord → Action (List String) (Unit {0})
noted s r log = (ok tt, log ++ s ∷ [])

delivery_over_sns_example :
    (process_message
        (message_handler callbacks (deserialize true (json_format lib true root)))
        queued
      ≡ callback_fn.run (with_provider_metadata (trip_for AwsMetadata) (some queue_metadata)))
    × (Lambda.process_message
          (handled (noted "pre") (noted "post") (λ payload attributes.
            message_handler callbacks
              (deserialize true (json_format lib true root))
              payload
              attributes
              none))
          sns_record
          []
        ≡ (noted "pre" sns_record
              >> (lift (callback_fn.run (with_provider_metadata (trip_for AwsMetadata) none))
                  >> noted "post" sns_record))
            [])
unfolding text_payload
delivery_over_sns_example =
    delivery_over_sns lib lib-IsJson root callbacks callback_fn (trip_for AwsMetadata)
      (text "first") trip_attributes (λ v. "?") (λ k. "?") queue_metadata queued sns_record
      (noted "pre") (noted "post") [] (trip_for-IsTyped AwsMetadata) trip-IsTypeName trip-plain
      trip-IsDict (trip_for-serialize AwsMetadata) queued-IsReceived refl refl registered signed
