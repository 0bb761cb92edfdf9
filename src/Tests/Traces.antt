-- ===== src/Tests/Traces.antt =====
-- A trace over a publisher and a consumer.
use hedwig_python.Prelude.{
  String, ◌≡◌, refl, ap, true, false, Option, none, some, List, [], ◌∷◌, ◌++◌, ◌==◌, string_eq,
  if◌then◌else◌, pair_eq,
}
use hedwig_python.Python.Action.{Action}
use hedwig_python.Python.Dict.{get, has_key, put}
use hedwig_python.Python.Exn.{ok, raise, type_error}
use hedwig_python.Python.Value.{name, Value, str, Entries, key_eq}
use hedwig_python.Text.Decimal.{decimal_onto, emit, digit}
use hedwig_python.Models.{Message, with_provider_metadata}
use hedwig_python.Callback.{
  positional, message_class, Function, Registry, check_signature, version_pattern,
}
use hedwig_python.Consumer.{Consumer, init}
use hedwig_python.Consumer.Loop.{Backend, second_yield}
use hedwig_python.Consumer.Outcome.{settlements, verdict}
use hedwig_python.Validator.{Payload, text}
use hedwig_python.Validator.Codec.{serialize, deserialize}
use hedwig_python.JsonSchema.{json_format}
use hedwig_python.Instrumentation.{
  Tracer, consumer, is_raised, publish_traced, handler_traced, visit_traced,
}
use hedwig_python.Instrumentation.Continuity.{
  IsPropagator, IsVisited, traced, publishing, trace_continues,
}
use hedwig_python.Tests.Codecs.{
  root, lib, lib-IsJson, trip_for, trip_attributes, trace_header, trip_for-IsTyped, trip-IsTypeName,
  trip-plain, trip-IsDict, trip_traced-serialize,
}

-- The names of the open spans, the current one first; a context is a name.
abbrev Spans : Type 0
Spans = List String

abbrev current_name : Spans → String
current_name [] = "none"
current_name (span ∷ spans) = span

abbrev renamed : String → Spans → Spans
renamed new [] = []
renamed new (span ∷ spans) = new ∷ spans

abbrev ended : Spans → Spans
ended [] = []
ended (span ∷ spans) = spans

abbrev parent_of : Option Value → String
parent_of (some (str s)) = s
parent_of _ = "none"

abbrev tracer : Tracer Spans String
tracer = record {
  start = λ span parent kind s. span ∷ s;
  end_span = λ raised. ended;
  update_name = renamed;
  current = current_name;
  inject = λ s carrier. put (name "traceparent") (str (current_name s)) carrier;
  extract = λ carrier. parent_of (get (name "traceparent") carrier);
}

tracer-IsPropagator : IsPropagator tracer
unfolding get has_key put
tracer-IsPropagator = record {
  once = λ s. (refl, tt);
  extract-inject =
      λ s carrier found. ap parent_of (found (name "traceparent") (str (current_name s)) refl);
}

abbrev message : Message Value String
message = trip_for String

injected_trip :
    serialize true (json_format lib true root) (traced tracer message [])
    ≡ ok (text "first", trip_attributes ++ trace_header)
unfolding put
injected_trip = trip_traced-serialize String

abbrev callback_fn : Function (Message Value String)
callback_fn = record {
  parameters = (record { kind = positional; name = "message"; annotation = message_class }) ∷ [];
  run = λ m. if m.type == "trip" then ok tt else raise type_error;
}

abbrev callbacks : Registry (Message Value String)
callbacks = (("trip", "1.*"), callback_fn) ∷ []

registered : get ("trip", version_pattern 1) callbacks ≡ some callback_fn
unfolding get version_pattern decimal_onto emit digit
registered = refl

signed : check_signature callback_fn.parameters ≡ ok tt
unfolding check_signature
signed = refl

abbrev sending : Message Value String → Payload → Entries → Action Spans String
sending m payload attributes s = (ok "id-9", s)

-- A queue message, which is acknowledged or sent back.
abbrev queue : Backend (Unit {0})
queue = record {
  message_attributes = λ q. ok (trip_attributes ++ trace_header);
  pre_process_hook = λ q. ok tt;
  process_message = λ q. ok tt;
  post_process_hook = λ q. ok tt;
  ack_message = λ q. ok tt;
  nack_message = λ q. ok tt;
  extended_at = λ q. [];
  received_at = λ q. 100;
  processed_at = λ q. 200;
}

abbrev waiting : Consumer (Unit {0})
waiting = init 15 none

trace_continues_example :
    (publish_traced tracer (serialize true (json_format lib true root)) sending message [] ≡ (
      second_yield true
          (sending
            (traced tracer message [])
            (text "first")
            (trip_attributes ++ trace_header)
            (publishing tracer message [])).0,
      tracer.end_span
          (is_raised
            (sending
              (traced tracer message [])
              (text "first")
              (trip_attributes ++ trace_header)
              (publishing tracer message [])).0)
          (sending
            (traced tracer message [])
            (text "first")
            (trip_attributes ++ trace_header)
            (publishing tracer message [])).1,
    ))
    × IsVisited
        (tracer.end_span false (
          tracer.update_name "trip" (
            tracer.start "message_received"
              (some (tracer.current (publishing tracer message [])))
              consumer
              [])))
        (verdict
            (record queue {
              process_message =
                  λ _. callback_fn.run (with_provider_metadata (traced tracer message []) none);
            })
            tt
          ∷ settlements waiting.history)
        (visit_traced tracer queue
          (λ _.
            handler_traced tracer callbacks
              (deserialize true (json_format lib true root))
              (text "first")
              (trip_attributes ++ trace_header)
              none)
          tt
          ([], waiting))
trace_continues_example =
    trace_continues tracer tracer-IsPropagator lib lib-IsJson root callbacks callback_fn sending
      message (text "first") (trip_attributes ++ trace_header) none queue tt waiting [] []
      (trip_for-IsTyped String) trip-IsTypeName trip-plain trip-IsDict injected_trip registered
      signed refl refl refl
