-- ===== src/Instrumentation.antt =====
-- hedwig/instrumentation/__init__.py, with the methods of hedwig/backends/base.py that call it, where
-- it can be imported. OpenTelemetry is a parameter.
pub mod Continuity
use Prim.Native.String.{◌++◌ as ◌<>◌}
use hedwig_python.Prelude.{String, Bool, true, false, Option, none, some, []}
use hedwig_python.Python.Action.{Action, lift, modify, ◌>>=◌, ◌>>◌}
use hedwig_python.Python.Dict.{update}
use hedwig_python.Python.Exn.{Result, ok, raise}
use hedwig_python.Python.Value.{Entries, key_eq}
use hedwig_python.Models.{Message, headers, with_headers}
use hedwig_python.Callback.{Registry}
use hedwig_python.Consumer.Handler.{build_message, exec_callback}
use hedwig_python.Consumer.{Consumer}
use hedwig_python.Consumer.Loop.{Backend, maybe_instrument, handle}
use hedwig_python.Validator.{Payload}

pub data SpanKind : Type 0 where
  consumer producer : SpanKind

-- A tracer on the state `S`, with contexts of type `C`. `start` makes a span of a name, below a
-- context or below the current span, and makes it the current one; `end_span` ends the current span,
-- with whether an exception went through it; `update_name` renames it. `current` is the context of
-- the current span. `inject` adds headers for the current span, and `extract` finds a context.
pub record Tracer (S C : Type 0) : Type 0 where
  pub start : String → Option C → SpanKind → S → S
  pub end_span : Bool → S → S
  pub update_name : String → S → S
  pub current : S → C
  pub inject : S → Entries → Entries
  pub extract : Entries → C

abbrev pub is_raised : {A : Type 0} → Result A → Bool
is_raised (ok a) = false
is_raised (raise e) = true

module _ {S C : Type 0} (tracer : Tracer S C) where
  -- with tracer.start_as_current_span(...): body
  unfoldable pub as_current_span :
      {A : Type 0} → String → Option C → SpanKind → Action S A → Action S A
  as_current_span name context kind body s =
      let r = body (tracer.start name context kind s) in (r.0, tracer.end_span (is_raised r.0) r.1)

  -- The body of a `with` statement over it stands in for the `yield`.
  unfoldable pub on_receive : {A : Type 0} → Entries → Action S A → Action S A
  unfolding as_current_span
  on_receive attributes =
      as_current_span "message_received" (some (tracer.extract attributes)) consumer

  unfoldable pub on_message : {D P : Type 0} → Message D P → Action S (Unit {0})
  on_message message = modify (tracer.update_name message.type)

  -- The body is given the headers into which the tracing headers were injected.
  unfoldable pub on_publish :
      {A D P : Type 0} → Message D P → Entries → (Entries → Action S A) → Action S A
  unfolding as_current_span
  on_publish message headers body =
      as_current_span ("publish/" <> message.type) none producer
        (λ s. body (tracer.inject s headers) s)

  -- `publish` of a publisher behind the default headers, in its `with _maybe_instrument(...)`
  unfoldable pub publish_traced :
      {D P : Type 0}
      → (Message D P → Result (Payload × Entries))
      → (Message D P → Payload → Entries → Action S String)
      → Message D P
      → Action S String
  unfolding on_publish
  publish_traced serialize send message = maybe_instrument true (
      on_publish message [] (λ instrumentation_headers. do
        let traced = with_headers message (update (headers message) instrumentation_headers)
        (payload, attributes) ← lift (serialize traced)
        send traced payload attributes))

  -- `message_handler`, with `_maybe_update_instrumentation`
  unfoldable pub handler_traced :
      {D P : Type 0}
      → Registry (Message D P)
      → (Payload → Entries → Option P → Result (Message D P))
      → Payload
      → Entries
      → Option P
      → Action S (Unit {0})
  unfolding on_message
  handler_traced callbacks deserialize payload attributes provider_metadata = do
    message ← lift (build_message callbacks deserialize payload attributes provider_metadata)
    on_message message
    lift (exec_callback callbacks message)

-- A tracer beside the state of a consumer.
abbrev pub beside : {S C Q : Type 0} → Tracer S C → Tracer (S × Consumer Q) C
beside tracer = record {
  start = λ name context kind (s, c). (tracer.start name context kind s, c);
  end_span = λ raised (s, c). (tracer.end_span raised s, c);
  update_name = λ name (s, c). (tracer.update_name name s, c);
  current = λ (s, c). tracer.current s;
  inject = λ (s, c) headers. tracer.inject s headers;
  extract = tracer.extract;
}

module _ {S C Q : Type 0} (tracer : Tracer S C) (b : Backend Q)
    (process : Q → Action S (Unit {0})) where
  abbrev pub processed : Q → Result (Unit {0}) → S → S
  processed q (ok u) s = (process q s).1
  processed q (raise e) s = s

  -- The body of the `with` statement in the consumer's loop, where `process_message` is
  -- `process`: it is called if the pre process hook returned.
  unfoldable pub handle_traced : Q → Action (S × Consumer Q) (Unit {0})
  handle_traced q (s, c) =
      let r = handle (record b { process_message = λ _. (process q s).0 }) q c in
      (r.0, (processed q (b.pre_process_hook q) s, r.1))

  -- The body of the `for` loop under instrumentation.
  unfoldable pub visit_traced : Q → Action (S × Consumer Q) (Unit {0})
  unfolding on_receive handle_traced
  visit_traced q = do
    modify (λ (s, c). (s, record c { last_message_received_at = b.received_at q }))
    attributes ← lift (b.message_attributes q)
    maybe_instrument true (on_receive (beside tracer) attributes (handle_traced q))
