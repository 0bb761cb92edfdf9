-- ===== src/Gcp/Delivery.antt =====
-- A message from its serialization over Pub/Sub to its callback.
use hedwig_python.Prelude.{String, ◌≡◌, refl, ◌∙◌, true, Option, some, string_eq, pair_eq}
use hedwig_python.Python.Dict.{get, put, IsDict}
use hedwig_python.Python.Exn.{ok}
use hedwig_python.Python.Plain.{plain}
use hedwig_python.Python.Value.{name, str, Value, Entries, key_eq}
use hedwig_python.Models.{Message, headers, major_version, with_provider_metadata}
use hedwig_python.Callback.{Function, Registry, check_signature, version_pattern}
use hedwig_python.Consumer.Handler.{message_handler, build_message}
use hedwig_python.Validator.{Payload, text, binary}
use hedwig_python.Validator.MessageType.{IsTypeName}
use hedwig_python.Validator.Attributes.Marked.{decode_meta_attributes-marked}
use hedwig_python.Validator.Codec.{serialize, deserialize, deserialize_with}
use hedwig_python.JsonSchema.{Library, extract_data, extract_plain, json_format}
use hedwig_python.JsonSchema.RoundTrip.{IsJson, IsTyped}
use hedwig_python.EndToEnd.{delivery}
use hedwig_python.Redis.Delivery.{json_sent}
use hedwig_python.Gcp.{GoogleMetadata, MessageWrapper, bytes_payload, metadata_of, process_message}
use hedwig_python.Gcp.Received.{process_message-bytes_payload}

module _ (lib : Library) (root : String) where
  extract_data-marked :
      (payload : Payload) (v : Value) (m : Entries)
      → extract_data lib true root payload (put (name "hedwig_encoding") v m) true
        ≡ extract_data lib true root payload m true
  unfolding extract_data extract_plain
  extract_data-marked (text s) v m = rw (decode_meta_attributes-marked v m true) refl
  extract_data-marked (binary bytes) v m = refl

  deserialize-marked :
      {P : Type 0} (payload : Payload) (v : Value) (m : Entries) (pm : Option P)
      → deserialize true (json_format lib true root) payload (put (name "hedwig_encoding") v m) pm
        ≡ deserialize true (json_format lib true root) payload m pm
  unfolding deserialize deserialize_with
  deserialize-marked payload v m pm = rw (extract_data-marked payload v m) refl

  deserialize-bytes_payload :
      {P : Type 0} (payload : Payload) (m : Entries) (pm : Option P)
      → deserialize true (json_format lib true root) payload (bytes_payload payload m).1 pm
        ≡ deserialize true (json_format lib true root) payload m pm
  unfolding bytes_payload
  deserialize-bytes_payload (text s) m pm = deserialize-marked (text s) (str "utf8") m pm
  deserialize-bytes_payload (binary bytes) m pm = refl

-- Whatever message of a subscription has the data and the attributes that a serialized message was
-- published with, and however it is identified and however often it was delivered: processing it
-- runs the callback for its type and major version, on the message that was sent with the
-- metadata of Pub/Sub.
pub delivery_over_pubsub :
    (lib : Library) (json : IsJson lib) (root : String)
    (callbacks : Registry (Message Value GoogleMetadata))
    (fn : Function (Message Value GoogleMetadata)) (m : Message Value GoogleMetadata)
    (payload : Payload) (attrs : Entries) (q : MessageWrapper)
    → IsTyped m
    → IsTypeName m.type
    → plain m.content ≡ true
    → IsDict (headers m)
    → serialize true (json_format lib true root) m ≡ ok (payload, attrs)
    → q.message.data_ ≡ (bytes_payload payload attrs).0
    → q.message.attributes ≡ (bytes_payload payload attrs).1
    → get (m.type, version_pattern (major_version m)) callbacks ≡ some fn
    → check_signature fn.parameters ≡ ok tt
    → process_message (message_handler callbacks (deserialize true (json_format lib true root))) q
      ≡ fn.run (with_provider_metadata m (some (metadata_of q)))
unfolding message_handler build_message
delivery_over_pubsub lib json root callbacks fn m payload attrs q typed named p once serialized
      data_ attributes registered signed =
    let (good, unpacked) = json_sent lib root m payload attrs once serialized in
    process_message-bytes_payload
      (message_handler callbacks (deserialize true (json_format lib true root))) payload attrs q
      unpacked.no_encoding data_ attributes
    ∙ rw (deserialize-bytes_payload lib root payload attrs (some (metadata_of q))) (
        delivery lib json root callbacks fn m payload attrs (some (metadata_of q)) typed named p
          once serialized registered signed)
