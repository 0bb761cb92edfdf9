-- ===== src/Gcp/Received.antt =====
-- What was published to Pub/Sub is what the handler is given.
use hedwig_python.Prelude.{◌≡◌, refl, false, Option, some, string_eq}
use hedwig_python.Python.Dict.{get, has_key, get-put, get-none}
use hedwig_python.Python.Exn.{Result, ok}
use hedwig_python.Python.Value.{name, str, Entries, key_eq}
use hedwig_python.Text.Utf8.RoundTrip.{decode_utf8-encode_utf8}
use hedwig_python.Validator.{Payload, text, binary}
use hedwig_python.Gcp.{
  MessageWrapper, GoogleMetadata, bytes_payload, is_utf8, payload_of, metadata_of, process_message,
}

payload_of-bytes_payload :
    (payload : Payload) (attributes : Entries)
    → has_key (name "hedwig_encoding") attributes ≡ false
    → payload_of
        (is_utf8 (get (name "hedwig_encoding") (bytes_payload payload attributes).1))
        (bytes_payload payload attributes).0
      ≡ ok payload
unfolding bytes_payload
payload_of-bytes_payload (text s) attributes h =
    rw (get-put (name "hedwig_encoding") (name "hedwig_encoding") (str "utf8") attributes)
      (rw (decode_utf8-encode_utf8 s) refl)
payload_of-bytes_payload (binary bytes) attributes h =
    rw (get-none (name "hedwig_encoding") attributes h) refl

-- Whatever message has the data and the attributes that were published for a payload, be it any
-- text or any bytes: the handler is given the payload, the attributes, with a mark for a text, and
-- the message's metadata.
pub process_message-bytes_payload :
    (handler : Payload → Entries → Option GoogleMetadata → Result (Unit {0})) (payload : Payload)
    (attributes : Entries) (q : MessageWrapper)
    → has_key (name "hedwig_encoding") attributes ≡ false
    → q.message.data_ ≡ (bytes_payload payload attributes).0
    → q.message.attributes ≡ (bytes_payload payload attributes).1
    → process_message handler q
      ≡ handler payload (bytes_payload payload attributes).1 (some (metadata_of q))
unfolding process_message
process_message-bytes_payload handler payload attributes q h sent attrs =
    rw sent (rw attrs (rw (payload_of-bytes_payload payload attributes h) refl))
