-- ===== src/Settings/Defaults.antt =====
-- The tables of hedwig/conf/__init__.py.
use hedwig_python.Prelude.{String, Bool, true, false, ◌||◌, List, [], ◌∷◌, ◌==◌, string_eq}
use hedwig_python.Settings.Import.{
  none_value, text_value, number_value, flag_value, list_value, dict_value, no_members, no_entries,
  Attributes,
}

-- _DEFAULTS
unfoldable pub defaults : {O : Type 0} → Attributes O
defaults =
    ("AWS_REGION", none_value)
    ∷ ("AWS_ACCOUNT_ID", none_value)
    ∷ ("AWS_ACCESS_KEY", none_value)
    ∷ ("AWS_CONNECT_TIMEOUT_S", number_value 2)
    ∷ ("AWS_ENDPOINT_SNS", none_value)
    ∷ ("AWS_ENDPOINT_SQS", none_value)
    ∷ ("AWS_READ_TIMEOUT_S", number_value 2)
    ∷ ("AWS_SECRET_KEY", none_value)
    ∷ ("AWS_SESSION_TOKEN", none_value)
    ∷ ("GOOGLE_APPLICATION_CREDENTIALS", none_value)
    ∷ ("GOOGLE_CLOUD_PROJECT", none_value)
    ∷ ("GOOGLE_PUBSUB_READ_TIMEOUT_S", number_value 5)
    ∷ ("REDIS_URL", none_value)
    ∷ ("HEDWIG_CALLBACKS", dict_value no_entries)
    ∷ ("HEDWIG_CONSUMER_BACKEND", none_value)
    ∷ ("HEDWIG_DATA_VALIDATOR_CLASS", text_value "hedwig.validators.jsonschema.JSONSchemaValidator")
    ∷ ("HEDWIG_DEFAULT_HEADERS", text_value "hedwig.conf.default_headers_hook")
    ∷ ("HEDWIG_HEARTBEAT_INACTIVITY_RESET_S", none_value)
    ∷ ("HEDWIG_HEARTBEAT_INTERVAL_S", number_value 15)
    ∷ ("HEDWIG_HEARTBEAT_HOOK", text_value "hedwig.conf.noop_hook")
    ∷ ("HEDWIG_MESSAGE_ROUTING", dict_value no_entries)
    ∷ ("HEDWIG_PRE_PROCESS_HOOK", text_value "hedwig.conf.noop_hook")
    ∷ ("HEDWIG_POST_PROCESS_HOOK", text_value "hedwig.conf.noop_hook")
    ∷ ("HEDWIG_PUBLISHER", none_value)
    ∷ ("HEDWIG_PUBLISHER_BACKEND", none_value)
    ∷ ("HEDWIG_PUBLISHER_GCP_BATCH_SETTINGS", list_value no_members)
    ∷ ("HEDWIG_QUEUE", none_value)
    ∷ ("HEDWIG_JSONSCHEMA_FILE", none_value)
    ∷ ("HEDWIG_MAX_DELIVERY_ATTEMPTS", none_value)
    ∷ ("HEDWIG_PROTOBUF_MESSAGES", none_value)
    ∷ ("HEDWIG_SYNC", flag_value false)
    ∷ ("HEDWIG_SUBSCRIPTIONS", list_value no_members)
    ∷ ("HEDWIG_VISIBILITY_TIMEOUT_S", none_value)
    ∷ ("HEDWIG_USE_TRANSPORT_MESSAGE_ATTRIBUTES", flag_value true)
    ∷ []

-- _IMPORT_STRINGS
unfoldable pub import_strings : List String
import_strings =
    "HEDWIG_CONSUMER_BACKEND" ∷ "HEDWIG_DATA_VALIDATOR_CLASS" ∷ "HEDWIG_DEFAULT_HEADERS"
    ∷ "HEDWIG_HEARTBEAT_HOOK" ∷ "HEDWIG_PRE_PROCESS_HOOK" ∷ "HEDWIG_POST_PROCESS_HOOK"
    ∷ "HEDWIG_PUBLISHER_BACKEND" ∷ []

-- _IMPORT_DICT_VALUES
abbrev pub import_dict_values : List String
import_dict_values = "HEDWIG_CALLBACKS" ∷ []

-- _IMPORT_LIST_VALUES
abbrev pub import_list_values : List String
import_list_values = "HEDWIG_PROTOBUF_MESSAGES" ∷ []

-- attr in names
abbrev pub among : String → List String → Bool
among attr [] = false
among attr (n ∷ names) = attr == n || among attr names
