-- ===== src/Aws/Lambda.antt =====
-- The SNS consumer of hedwig/backends/aws.py, which a lambda calls.
pub mod Published
use mathlib.Core.Option
use hedwig_python.Prelude.{
  ℕ, String, Bool, true, false, Option, none, some, List, [], ◌∷◌, string_eq,
}
use hedwig_python.Python.Action.{Action, pure, lift, ◌>>=◌, ◌>>◌}
use hedwig_python.Python.Dict.{get}
use hedwig_python.Python.Exn as Exn
use hedwig_python.Python.Exn.{
  Result, ok, raise, from_option, value_error, unicode_error, key_error, runtime_error,
}
use hedwig_python.Python.Value.{name, str, Entries, key_eq}
use hedwig_python.Text.Base64.{decodebytes}
use hedwig_python.Text.Utf8.{decode_utf8}
use hedwig_python.Validator.{Payload, text}
use hedwig_python.Consumer.Loop.{maybe_instrument}
use hedwig_python.Redis.{is_base64}

-- What the code reads of a record: `message` and the values of `message_attributes` under `Sns`, and
-- `attributes`, if the record has them itself.
pub record SnsRecord : Type 0 where
  pub message : String
  pub message_attributes : List (String × String)
  pub attributes : Option Entries

-- {k: o["Value"] for k, o in ...}
unfoldable pub values : List (String × String) → Entries
values [] = []
values ((k, v) ∷ m) = (name k, str v) ∷ values m

-- base64.decodebytes(message_payload.encode()).decode(), where the encoding is marked.
abbrev pub decoded : Option (List ℕ) → Result Payload
decoded none = raise value_error
decoded (some bytes) = from_option unicode_error (Option.map text (decode_utf8 bytes))

abbrev pub message_payload : Bool → String → Result Payload
message_payload true message = decoded (decodebytes message)
message_payload false message = ok (text message)

unfoldable pub message_attributes : SnsRecord → Result Entries
message_attributes queue_message = from_option key_error queue_message.attributes

-- The other operations.
abbrev pub invalid_operation : {A : Type 0} → Result A
invalid_operation = raise runtime_error

-- The hooks of the settings, and `self.message_handler`, on the state `S` of the application.
pub record Hooks (S : Type 0) : Type 0 where
  pub pre_process : SnsRecord → Action S (Unit {0})
  pub post_process : SnsRecord → Action S (Unit {0})
  pub handler : Payload → Entries → Action S (Unit {0})

module _ {S : Type 0} (hooks : Hooks S) where
  unfoldable pub process_message : SnsRecord → Action S (Unit {0})
  unfolding values
  process_message queue_message = do
    hooks.pre_process queue_message
    let attributes = values queue_message.message_attributes
    payload ← lift (
        message_payload (is_base64 (get (name "hedwig_encoding") attributes)) queue_message.message)
    hooks.handler payload attributes
    hooks.post_process queue_message

  -- `instrumented` says whether the instrumentation can be imported.
  unfoldable pub process_messages : Bool → List SnsRecord → Action S (Unit {0})
  unfolding process_message message_attributes
  process_messages instrumented [] = pure tt
  process_messages instrumented (record_ ∷ records) = do
    lift (message_attributes record_)
    maybe_instrument instrumented (process_message record_)
    process_messages instrumented records
