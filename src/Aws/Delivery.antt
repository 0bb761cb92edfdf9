-- ===== src/Aws/Delivery.antt =====
-- A message from its serialization over an SNS topic to its callback, by a queue or by a lambda.
use hedwig_python.Prelude.{String, ◌≡◌, refl, ap, ◌∙◌, true, Option, none, some, string_eq, pair_eq}
use hedwig_python.Python.Action.{Action, lift, ◌>>◌}
use hedwig_python.Python.Dict.{get, IsDict}
use hedwig_python.Python.Exn.{Result, ok}
use hedwig_python.Python.Plain.{plain}
use hedwig_python.Python.Value.{Key, Value, Entries, key_eq}
use hedwig_python.Models.{Message, headers, major_version, with_provider_metadata}
use hedwig_python.Callback.{Function, Registry, check_signature, version_pattern}
use hedwig_python.Consumer.Handler.{message_handler}
use hedwig_python.Validator.{Payload}
use hedwig_python.Validator.MessageType.{IsTypeName}
use hedwig_python.Validator.Codec.{serialize, deserialize}
use hedwig_python.JsonSchema.{Library, json_format}
use hedwig_python.JsonSchema.RoundTrip.{IsJson, IsTyped}
use hedwig_python.JsonSchema.Textual.{IsTextual, serialize-IsTextual}
use hedwig_python.EndToEnd.{delivery}
use hedwig_python.Redis.{text_payload}
use hedwig_python.Redis.Delivery.{json_sent}
use hedwig_python.Aws.{SqsMessage, AwsMetadata, process_message}
use hedwig_python.Aws.Received.{IsReceived, process_message-sent}
use hedwig_python.Aws.Lambda.{SnsRecord, Hooks}
use hedwig_python.Aws.Lambda as Lambda
use hedwig_python.Aws.Lambda.Published.{as_text, published_values, process_message-published}

abbrev pub handled :
    {S : Type 0}
    → (SnsRecord → Action S (Unit {0}))
    → (SnsRecord → Action S (Unit {0}))
    → (Payload → Entries → Result (Unit {0}))
    → Hooks S
handled pre post handler = record {
  pre_process = pre;
  post_process = post;
  handler = λ payload attributes. lift (handler payload attributes);
}

-- A text goes without a mark, and is a text in a lambda.
unmarked :
    (payload : Payload) (attrs : Entries)
    → IsTextual payload attrs
    → (text_payload payload attrs).1 ≡ attrs
unfolding text_payload
unmarked payload attrs sent = rw sent.is_text refl

as_text-IsTextual :
    (payload : Payload) (attrs : Entries) → IsTextual payload attrs → as_text payload ≡ ok payload
as_text-IsTextual payload attrs sent = rw sent.is_text refl

-- A serialized message that was published to a topic. From a queue that the topic feeds, and however
-- often it was received: `process_message` runs the callback for its type and major version, on the
-- message that was sent with the metadata of SQS. In a lambda: the callback is run on the message
-- without metadata, between the two hooks, each only if none before it raised.
pub delivery_over_sns :
    {S : Type 0} (lib : Library) (json : IsJson lib) (root : String)
    (callbacks : Registry (Message Value AwsMetadata)) (fn : Function (Message Value AwsMetadata))
    (m : Message Value AwsMetadata) (payload : Payload) (attrs : Entries) (show : Value → String)
    (show_key : Key → String) (metadata : AwsMetadata) (q : SqsMessage) (r : SnsRecord)
    (pre post : SnsRecord → Action S (Unit {0})) (s : S)
    → IsTyped m
    → IsTypeName m.type
    → plain m.content ≡ true
    → IsDict (headers m)
    → serialize true (json_format lib true root) m ≡ ok (payload, attrs)
    → IsReceived show show_key payload attrs metadata q
    → r.message ≡ (text_payload payload attrs).0
    → r.message_attributes ≡ published_values show show_key (text_payload payload attrs).1
    → get (m.type, version_pattern (major_version m)) callbacks ≡ some fn
    → check_signature fn.parameters ≡ ok tt
    → (process_message (message_handler callbacks (deserialize true (json_format lib true root))) q
        ≡ fn.run (with_provider_metadata m (some metadata)))
      × (Lambda.process_message
            (handled pre post (λ payload attributes.
              message_handler callbacks
                (deserialize true (json_format lib true root))
                payload
                attributes
                none))
            r
            s
          ≡ (pre r >> (lift (fn.run (with_provider_metadata m none)) >> post r)) s)
delivery_over_sns lib json root callbacks fn m payload attrs show show_key metadata q r pre post s
      typed named p once serialized received body values registered signed =
    let handler = message_handler callbacks (deserialize true (json_format lib true root)) in
    let (good, unpacked) = json_sent lib root m payload attrs once serialized in
    let sent = serialize-IsTextual lib root true m payload attrs typed once serialized in
    let delivered = λ (pm : Option AwsMetadata).
      delivery lib json root callbacks fn m payload attrs pm typed named p once serialized
        registered signed in
    (
      process_message-sent handler show show_key payload attrs metadata q good sent.texts
            unpacked.no_encoding received
          ∙ rw (unmarked payload attrs sent) (delivered (some metadata)),
      process_message-published
            (handled pre post (λ given attributes. handler given attributes none)) show show_key
            payload attrs r good sent.texts unpacked.no_encoding body values s
          ∙ rw (as_text-IsTextual payload attrs sent) (
              rw (unmarked payload attrs sent) (
                ap (λ (ran : Result (Unit {0})). (pre r >> (lift ran >> post r)) s)
                  (delivered none))),
    )
