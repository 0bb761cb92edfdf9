-- ===== src/Validator/Codec.antt =====
-- `_deserialize`, `_serialize` and the public methods over them, of hedwig/validators/base.py.
pub mod Checked
pub mod RoundTrip
use hedwig_python.Prelude.{String, Bool, false, Option, none, [], ◌≡◌, refl}
use hedwig_python.Python.Exn.{Result, ok, ◌>>=◌, ◌>>◌}
use hedwig_python.Python.Value.{Value, str, strict_version, Entries}
use hedwig_python.Version.{StrictVersion}
use hedwig_python.Models.{Message, headers, timestamp, publisher}
use hedwig_python.Validator.{Payload, MetaAttributes, Format}
use hedwig_python.Validator.Headers.{verify_headers}
use hedwig_python.Validator.MessageType.{encode_message_type, decode_message_type}

-- Message(...) as both decoding methods call it.
unfoldable pub build :
    {D P : Type 0} → MetaAttributes → Option P → String → StrictVersion → D → Message D P
build meta provider_metadata message_type version content = record {
  content = content;
  type = message_type;
  version = version;
  id = meta.id;
  metadata = record {
    timestamp = meta.timestamp;
    publisher = meta.publisher;
    headers = meta.headers;
    provider_metadata = provider_metadata;
  };
}

module _ {D Raw P : Type 0} (fmt : Format D Raw) where
  -- `_deserialize`
  unfoldable pub deserialize_with : Payload → Entries → Option P → Bool → Result (Message D P)
  deserialize_with payload attributes provider_metadata use_transport_attributes = do
    (meta, extracted) ← fmt.extract_data payload attributes use_transport_attributes
    verify_headers meta.headers
    (message_type, version) ← decode_message_type meta.schema
    content ← fmt.decode_data meta message_type version extracted
    ok (build meta provider_metadata message_type version content)

  unfoldable pub deserialize_containerized : Payload → Result (Message D P)
  unfolding deserialize_with
  deserialize_containerized payload = deserialize_with payload [] none false

  -- Headers of a firehose line are not checked.
  unfoldable pub deserialize_firehose : String → Result (Message D P)
  deserialize_firehose line = do
    (meta, extracted) ← fmt.extract_data_firehose line
    (message_type, version) ← decode_message_type meta.schema
    content ← fmt.decode_data meta message_type version extracted
    ok (build meta none message_type version content)

  -- MetaAttributes(...) as both encoding methods call it.
  unfoldable pub meta_of : Message D P → MetaAttributes
  unfolding encode_message_type
  meta_of message = record {
    timestamp = timestamp message;
    publisher = publisher message;
    headers = headers message;
    id = message.id;
    schema = str (encode_message_type fmt message.type message.version);
    format_version = strict_version fmt.current_format_version;
  }

module _ {D Raw P : Type 0} (fmt : Format D Raw) where
  -- `_serialize`: the encoded payload is decoded again before it is returned.
  unfoldable pub serialize_with : Message D P → Bool → Result (Payload × Entries)
  unfolding deserialize_with
  serialize_with message use_transport_attributes = do
    fmt.verify_known_minor_version message.type message.version
    verify_headers (headers message)
    (payload, attrs) ←
        fmt.encode_payload (meta_of fmt message) message.content use_transport_attributes
    deserialize_with {P = P} fmt payload attrs none use_transport_attributes
    ok (payload, attrs)

  unfoldable pub serialize_containerized : Message D P → Result Payload
  unfolding serialize_with
  serialize_containerized message = do (payload, attrs) ← serialize_with message false; ok payload

  unfoldable pub serialize_firehose : Message D P → Result String
  unfolding deserialize_firehose
  serialize_firehose message = do
    line ←
        fmt.encode_payload_firehose message.type message.version (meta_of fmt message)
          message.content
    deserialize_firehose {P = P} fmt line
    ok line

-- `setting` is HEDWIG_USE_TRANSPORT_MESSAGE_ATTRIBUTES.
module _ {D Raw P : Type 0} (setting : Bool) (fmt : Format D Raw) where
  unfoldable pub deserialize : Payload → Entries → Option P → Result (Message D P)
  unfolding deserialize_with
  deserialize payload attributes provider_metadata =
      deserialize_with fmt payload attributes provider_metadata setting

  unfoldable pub serialize : Message D P → Result (Payload × Entries)
  unfolding serialize_with
  serialize message = serialize_with fmt message setting
