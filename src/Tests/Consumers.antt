-- ===== src/Tests/Consumers.antt =====
-- The consumer's loop and handler on concrete messages and backends.
use hedwig_python.Prelude.{
  ℕ, String, ◌≡◌, refl, true, none, some, List, [], ◌∷◌, All, if◌then◌else◌, ◌==◌, nat_eq, pair_eq,
  string_eq, ◌↔◌, ◌⊎◌, ◌≢◌,
}
use hedwig_python.Python.Action.{Action, pure}
use hedwig_python.Python.Dict.{get}
use hedwig_python.Python.Exn.{
  Result, ok, raise, ◌>>=◌, value_error, attribute_error, retry_exception, ignore_exception,
  import_error, configuration_error,
}
use hedwig_python.Python.Value.{Value}
use hedwig_python.Models.{Message, major_version, with_provider_metadata}
use hedwig_python.Text.Decimal.{decimal_onto, emit, digit}
use hedwig_python.Validator.{text}
use hedwig_python.Validator.Codec.{deserialize}
use hedwig_python.Callback.{
  positional, message_class, Function, Registry, check_signature, version_pattern,
}
use hedwig_python.Callback.Signature.{IsMessageParameter, check_signature_exact}
use hedwig_python.JsonSchema.{json_format}
use hedwig_python.Consumer.{Consumer, init}
use hedwig_python.Consumer.Loop.{Backend, handle, visit_all, fetch_and_process_messages}
use hedwig_python.Consumer.Handler.{message_handler, routed, message_handler_outcome}
use hedwig_python.Consumer.Outcome.{settlements, returned, counted_after, verdict, verdicts}
use hedwig_python.Consumer.Outcome.Settled.{settlements-handle}
use hedwig_python.Consumer.Outcome.Counted.{error_count-handle}
use hedwig_python.Consumer.Survival.{IsServed, visit_all-settles}
use hedwig_python.Consumer.Heartbeat.{beats, Spaced, fetch-IsPaced}
use hedwig_python.EndToEnd.{delivery}
use hedwig_python.Tests.Codecs.{
  root, lib, lib-IsJson, trip, trip_attributes, trip-IsTyped, trip-IsTypeName, trip-plain,
  trip-IsDict, trip-serialize,
}

-- Message 0 has no attributes, 1 fails, 2 asks for a retry, 3 asks to be ignored, 4 is refused by
-- the first hook, and the acknowledgement of 5 fails.
abbrev process_message : ℕ → Result (Unit {0})
process_message q =
    if q == 1
    then raise value_error
    else if q == 2
    then raise retry_exception
    else if q == 3
    then raise ignore_exception
    else ok tt

abbrev backend : Backend ℕ
backend = record {
  message_attributes = λ q. if q == 0 then raise attribute_error else ok [];
  pre_process_hook = λ q. if q == 4 then raise value_error else ok tt;
  process_message = process_message;
  post_process_hook = λ q. ok tt;
  ack_message = λ q. if q == 5 then raise import_error else ok tt;
  nack_message = λ q. ok tt;
  extended_at = λ q. 180 ∷ 190 ∷ [];
  received_at = λ q. 100;
  processed_at = λ q. 200;
}

abbrev start : Consumer ℕ
start = record {
  error_count = 7;
  heartbeat_called_at = 50;
  last_message_received_at = 40;
  heartbeat_interval = 30;
  heartbeat_inactivity_reset = none;
  history = [];
}

settlements-handle_example :
    settlements (handle backend 1 start).1.history ≡ verdict backend 1 ∷ settlements start.history
settlements-handle_example = settlements-handle backend 1 start

error_count-handle_example : (handle backend 1 start).1.error_count ≡ (
    if returned (backend.pre_process_hook 1)
    then counted_after
        (backend.process_message 1)
        (returned (backend.nack_message 1))
        start.error_count
    else start.error_count)
error_count-handle_example = error_count-handle backend 1 start

served : (q : ℕ) → (backend.message_attributes q ≡ ok []) → IsServed backend q
served q h = record { nacks = refl; attributes = []; has_attributes = h }

five-IsServed : All (IsServed backend) (1 ∷ 2 ∷ 3 ∷ 4 ∷ 5 ∷ [])
five-IsServed =
    (served 1 refl, (served 2 refl, (served 3 refl, (served 4 refl, (served 5 refl, tt)))))

visit_all-settles_example :
    ((visit_all backend true (1 ∷ 2 ∷ 3 ∷ 4 ∷ 5 ∷ []) start).0 ≡ ok tt)
    × (settlements (visit_all backend true (1 ∷ 2 ∷ 3 ∷ 4 ∷ 5 ∷ []) start).1.history
        ≡ verdicts backend (1 ∷ 2 ∷ 3 ∷ 4 ∷ 5 ∷ []) (settlements start.history))
visit_all-settles_example =
    visit_all-settles backend true (1 ∷ 2 ∷ 3 ∷ 4 ∷ 5 ∷ []) start five-IsServed

abbrev pulls : List (Action (Consumer ℕ) (List ℕ))
pulls = pure (1 ∷ 2 ∷ []) ∷ pure (3 ∷ []) ∷ []

fetch-IsPaced_example :
    Spaced 30 (beats (fetch_and_process_messages backend true pulls (init 30 (some 5))).1.history)
fetch-IsPaced_example = fetch-IsPaced 30 backend true (some 5) pulls ((λ c p. p), ((λ c p. p), tt))

abbrev handler : Function (Message Value String)
handler = record {
  parameters = (record { kind = positional; name = "message"; annotation = message_class }) ∷ [];
  run = λ m. if m.type == "trip" then ok tt else raise value_error;
}

abbrev callbacks : Registry (Message Value String)
callbacks = (("trip", "1.*"), handler) ∷ []

check_signature_exact_example :
    ((check_signature handler.parameters ≡ ok tt)
      ↔ ((handler.parameters ≢ []) × All IsMessageParameter handler.parameters))
    × ((check_signature handler.parameters ≡ ok tt)
        ⊎ (check_signature handler.parameters ≡ raise configuration_error))
check_signature_exact_example = check_signature_exact handler.parameters

message_handler_outcome_example :
    message_handler callbacks (λ payload attributes pm. ok trip) (text "first") trip_attributes none
    ≡ (Result.ok trip >>= λ m.
        routed callbacks m (get (m.type, version_pattern (major_version m)) callbacks))
message_handler_outcome_example =
    message_handler_outcome callbacks (λ payload attributes pm. ok trip) (text "first")
      trip_attributes none

registered : get (trip.type, version_pattern (major_version trip)) callbacks ≡ some handler
unfolding get version_pattern decimal_onto emit digit
registered = refl

signed : check_signature handler.parameters ≡ ok tt
unfolding check_signature
signed = refl

delivery_example :
    message_handler callbacks
      (deserialize true (json_format lib true root))
      (text "first")
      trip_attributes
      (some "receipt")
    ≡ handler.run (with_provider_metadata trip (some "receipt"))
delivery_example =
    delivery lib lib-IsJson root callbacks handler trip (text "first") trip_attributes
      (some "receipt") trip-IsTyped trip-IsTypeName trip-plain trip-IsDict trip-serialize registered
      signed
