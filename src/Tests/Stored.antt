-- ===== src/Tests/Stored.antt =====
-- Messages over Redis streams, as they are stored.
use hedwig_python.Prelude.{
  ℕ, ◌≡◌, refl, true, Option, some, List, [], ◌∷◌, ◌==◌, string_eq, if◌then◌else◌, pair_eq,
}
use hedwig_python.Python.Exn.{Result, ok, raise, type_error}
use hedwig_python.Python.Dict.{get, put, update, has_key}
use hedwig_python.Python.Value.{Value, name, str, Entries, key_eq}
use hedwig_python.Text.Decimal.{decimal_onto, emit, digit}
use hedwig_python.Text.Base64.{encodebytes}
use hedwig_python.Models.{Message, with_provider_metadata}
use hedwig_python.Validator.{Payload, text, binary}
use hedwig_python.Validator.Codec.{deserialize}
use hedwig_python.JsonSchema.{json_format}
use hedwig_python.Callback.{
  positional, message_class, Function, Registry, check_signature, version_pattern,
}
use hedwig_python.Consumer.Handler.{message_handler}
use hedwig_python.Redis.{
  StreamFields, RedisMetadata, utf8, text_payload, redis_message, encode_fields, process_message,
}
use hedwig_python.Redis.Packed.{IsUnpacked}
use hedwig_python.Redis.Delivery.{delivery_over_redis}
use hedwig_python.Tests.Codecs.{
  root, lib, lib-IsJson, trip_for, trip_attributes, trip_for-IsTyped, trip-IsTypeName, trip-plain,
  trip-IsDict, trip_for-serialize,
}

-- A message with bytes, which go as base64.
abbrev bytes : List ℕ
bytes = 0 ∷ 255 ∷ 16 ∷ 7 ∷ []

abbrev attributes : Entries
attributes = (name "hedwig_id", str "id-1") ∷ (name "zone", str "eu") ∷ []

abbrev stored : StreamFields
stored =
    (utf8 "hedwig_payload", utf8 "AP8QBw==\n")
    ∷ (utf8 "hedwig_id", utf8 "id-1")
    ∷ (utf8 "zone", utf8 "eu")
    ∷ (utf8 "hedwig_encoding", utf8 "base64")
    ∷ []

bytes-stored : encode_fields (redis_message (binary bytes) attributes) ≡ ok stored
unfolding redis_message text_payload encode_fields put update encodebytes
bytes-stored = refl

attributes-IsUnpacked : IsUnpacked attributes
unfolding has_key
attributes-IsUnpacked = record { once = (refl, (refl, tt)); no_payload = refl; no_encoding = refl }

abbrev handler : Payload → Entries → Option RedisMetadata → Result (Unit {0})
handler (text s) _ _ = raise type_error
handler (binary bs) _ _ = ok tt

abbrev trip_stored : StreamFields
trip_stored =
    (utf8 "hedwig_payload", utf8 "first")
    ∷ (utf8 "hedwig_format_version", utf8 "1.0")
    ∷ (utf8 "hedwig_id", utf8 "id-1")
    ∷ (utf8 "hedwig_message_timestamp", utf8 "1460868253255")
    ∷ (utf8 "hedwig_publisher", utf8 "myapp")
    ∷ (utf8 "hedwig_schema", utf8 "https://h/schema#/schemas/trip/1.2")
    ∷ (utf8 "request_id", utf8 "r-1")
    ∷ []

trip-stored : encode_fields (redis_message (text "first") trip_attributes) ≡ ok trip_stored
unfolding redis_message text_payload encode_fields put update
trip-stored = refl

abbrev callback_fn : Function (Message Value RedisMetadata)
callback_fn = record {
  parameters = (record { kind = positional; name = "message"; annotation = message_class }) ∷ [];
  run = λ m. if m.type == "trip" then ok tt else raise type_error;
}

abbrev callbacks : Registry (Message Value RedisMetadata)
callbacks = (("trip", "1.*"), callback_fn) ∷ []

registered : get ("trip", version_pattern 1) callbacks ≡ some callback_fn
unfolding get version_pattern decimal_onto emit digit
registered = refl

signed : check_signature callback_fn.parameters ≡ ok tt
unfolding check_signature
signed = refl

delivery_over_redis_example :
    process_message
      (message_handler callbacks (deserialize true (json_format lib true root)))
      (record { stream = utf8 "s"; key = utf8 "1-0"; payload = trip_stored; delivery_attempt = 2 })
    ≡ callback_fn.run (
        with_provider_metadata
          (trip_for RedisMetadata)
          (some (record { id = "1-0"; stream = "s"; delivery_attempt = 2 })))
delivery_over_redis_example =
    delivery_over_redis lib lib-IsJson root callbacks callback_fn (trip_for RedisMetadata)
      (text "first") trip_attributes "s" "1-0" 2 trip_stored (trip_for-IsTyped RedisMetadata)
      trip-IsTypeName trip-plain trip-IsDict (trip_for-serialize RedisMetadata) trip-stored
      registered signed
