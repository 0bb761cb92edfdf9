-- ===== src/Instrumentation/Continuity.antt =====
-- A trace goes on from the publisher to the consumer.
use Prim.Native.String.{◌++◌ as ◌<>◌}
use hedwig_python.Prelude.{
  String, ◌≡◌, refl, ◌∙◌, ap, subst, true, Option, none, some, List, [], ◌∷◌, false, pair_eq,
}
use hedwig_python.Python.Action.{Action}
use hedwig_python.Python.Dict.{get, update, IsDict, get-update, IsDict-update}
use hedwig_python.Python.Exn.{Result, ok}
use hedwig_python.Python.Plain.{plain}
use hedwig_python.Python.Value.{Key, Value, Entries, key_eq}
use hedwig_python.Models.{Message, headers, major_version, with_headers, with_provider_metadata}
use hedwig_python.Callback.{
  Function, Registry, check_signature, version_pattern, find_by_message, call,
}
use hedwig_python.Consumer.Handler.{build_message, exec_callback, callback}
use hedwig_python.Consumer.{Consumer}
use hedwig_python.Consumer.Loop.{Backend, second_yield}
use hedwig_python.Consumer.Outcome.{Settlement, settlements, verdict}
use hedwig_python.Consumer.Outcome.Settled.{settlements-handle}
use hedwig_python.Consumer.Survival.{result-handle}
use hedwig_python.Validator.{Payload}
use hedwig_python.Validator.MessageType.{IsTypeName}
use hedwig_python.Validator.Attributes.Written.{get-written}
use hedwig_python.Validator.Codec.{serialize, deserialize, meta_of}
use hedwig_python.Validator.Codec.Checked.{serialize_with-IsServed}
use hedwig_python.JsonSchema.{Library, json_format}
use hedwig_python.JsonSchema.RoundTrip.{IsJson, IsTyped, deserialize-serialize}
use hedwig_python.JsonSchema.Textual.{encode_payload-written}
use hedwig_python.Instrumentation.{
  Tracer, producer, consumer, is_raised, as_current_span, on_receive, on_message, on_publish,
  publish_traced, handler_traced, handle_traced, visit_traced,
}

-- What a propagator promises: a context is found where each injected header is.
pub record IsPropagator {S C : Type 0} (tracer : Tracer S C) : Type 0 where
  pub once : (s : S) → IsDict (tracer.inject s [])
  pub extract-inject :
      (s : S) (carrier : Entries)
      → ((k : Key) (v : Value) → get k (tracer.inject s []) ≡ some v → get k carrier ≡ some v)
      → tracer.extract carrier ≡ tracer.current s

-- A round of the consumer's loop that returned, with the state of the tracer after it, and the
-- settlements after it.
pub record IsVisited {S Q : Type 0} (spans : S) (after : List (Settlement Q))
    (r : Result (Unit {0}) × (S × Consumer Q)) : Type 0 where
  pub returns : r.0 ≡ ok tt
  pub traces : r.1.0 ≡ spans
  pub settles : settlements r.1.1.history ≡ after

module _ {S C : Type 0} (tracer : Tracer S C) where
  -- The publisher's span, and the message that is sent in it.
  abbrev pub publishing : {D P : Type 0} → Message D P → S → S
  publishing m s = tracer.start ("publish/" <> m.type) none producer s

  abbrev pub traced : {D P : Type 0} → Message D P → S → Message D P
  traced m s = with_headers m (update (headers m) (tracer.inject (publishing m s) []))

  traced-IsTyped : {D P : Type 0} (m : Message D P) (s : S) → IsTyped m → IsTyped (traced m s)
  unfolding with_headers
  traced-IsTyped m s typed = record {
    millis = typed.millis;
    service = typed.service;
    uuid = typed.uuid;
    timestamp = typed.timestamp;
    publisher = typed.publisher;
    id = typed.id;
  }

  -- An injected header is an attribute of the message that is sent.
  get-traced :
      {P : Type 0} (propagates : IsPropagator tracer) (lib : Library) (root : String)
      (m : Message Value P) (s : S) (payload : Payload) (attrs : Entries)
      → IsDict (headers m)
      → serialize true (json_format lib true root) (traced m s) ≡ ok (payload, attrs)
      → (k : Key) (v : Value) → get k (tracer.inject (publishing m s) []) ≡ some v
      → get k attrs ≡ some v
  unfolding serialize meta_of with_headers
  get-traced propagates lib root m s payload attrs once serialized k v injected =
      let fmt = json_format lib true root in
      let served = serialize_with-IsServed fmt (traced m s) true payload attrs serialized in
      let meta = meta_of fmt (traced m s) in
      let headers_once = IsDict-update (headers m) (tracer.inject (publishing m s) []) once in
      let written =
        encode_payload-written lib root meta m.content payload attrs served.sane headers_once
          served.encoded in
      subst (λ a. get k a ≡ some v) written
        (get-written lib.show meta served.sane headers_once k v (
          get-update k (headers m) (tracer.inject (publishing m s) [])
            (propagates.once (publishing m s))
          ∙ rw injected refl))

  handler_traced-runs :
      {D P : Type 0} (callbacks : Registry (Message D P))
      (decode : Payload → Entries → Option P → Result (Message D P)) (fn : Function (Message D P))
      (payload : Payload) (attrs : Entries) (pm : Option P) (m : Message D P) (t : S)
      → decode payload attrs pm ≡ ok m
      → get (m.type, version_pattern (major_version m)) callbacks ≡ some fn
      → check_signature fn.parameters ≡ ok tt
      → handler_traced tracer callbacks decode payload attrs pm t
        ≡ (fn.run m, tracer.update_name m.type t)
  unfolding handler_traced on_message build_message exec_callback callback find_by_message call
  handler_traced-runs callbacks decode fn payload attrs pm m t decoded registered signed =
      rw decoded (rw registered (rw signed (rw registered (rw signed refl))))

  visit_traced-runs :
      {Q : Type 0} (b : Backend Q) (process : Q → Action S (Unit {0})) (q : Q) (attrs : Entries)
      (context : C) (outcome : Result (Unit {0})) (t t' : S) (c : Consumer Q)
      → b.message_attributes q ≡ ok attrs
      → b.pre_process_hook q ≡ ok tt
      → b.nack_message q ≡ ok tt
      → tracer.extract attrs ≡ context
      → process q (tracer.start "message_received" (some context) consumer t) ≡ (outcome, t')
      → IsVisited
          (tracer.end_span false t')
          (verdict (record b { process_message = λ _. outcome }) q ∷ settlements c.history)
          (visit_traced tracer b process q (t, c))
  unfolding visit_traced handle_traced on_receive as_current_span
  visit_traced-runs b process q attrs context outcome t t' c has pre nacks found runs =
      let b' = record b { process_message = λ _. outcome } in
      let c' = record c { last_message_received_at = b.received_at q } in
      let returned = result-handle b' q nacks c' in
      record {
        returns = rw has (rw found (rw runs (rw returned refl)));
        traces = rw has (
            rw found (
              rw runs (
                rw pre (
                  rw returned
                    (ap (λ (r : Result (Unit {0}) × S). tracer.end_span false r.1) runs)))));
        settles = rw has (rw found (rw runs (settlements-handle b' q c')));
      }

  -- A message that is published under instrumentation is sent within the publisher's span, with the
  -- propagator's headers; the span is ended, with whether the sending raised, and an ImportError of
  -- it becomes a RuntimeError. A round of the consumer's loop over a queue message with what was
  -- sent, if its pre process hook returns and it can be sent back, runs the callback on the message
  -- as it was sent, within a span below the publisher's, which then has the name of the message's
  -- type. The message is settled by what the callback returned or raised; the round returns, and the
  -- span is ended without an exception, also where the callback raised.
  pub trace_continues :
      {P Q : Type 0} (propagates : IsPropagator tracer) (lib : Library) (json : IsJson lib)
      (root : String) (callbacks : Registry (Message Value P)) (fn : Function (Message Value P))
      (send : Message Value P → Payload → Entries → Action S String) (m : Message Value P)
      (payload : Payload) (attrs : Entries) (pm : Option P) (b : Backend Q) (q : Q) (c : Consumer Q)
      (s t : S)
      → IsTyped m
      → IsTypeName m.type
      → plain m.content ≡ true
      → IsDict (headers m)
      → serialize true (json_format lib true root) (traced m s) ≡ ok (payload, attrs)
      → get (m.type, version_pattern (major_version m)) callbacks ≡ some fn
      → check_signature fn.parameters ≡ ok tt
      → b.message_attributes q ≡ ok attrs
      → b.pre_process_hook q ≡ ok tt
      → b.nack_message q ≡ ok tt
      → (publish_traced tracer (serialize true (json_format lib true root)) send m s ≡ (
        second_yield true (send (traced m s) payload attrs (publishing m s)).0,
        tracer.end_span
            (is_raised (send (traced m s) payload attrs (publishing m s)).0)
            (send (traced m s) payload attrs (publishing m s)).1,
      ))
        × IsVisited
            (tracer.end_span false (
              tracer.update_name m.type (
                tracer.start "message_received"
                  (some (tracer.current (publishing m s)))
                  consumer
                  t)))
            (verdict
                (record b {
                  process_message = λ _. fn.run (with_provider_metadata (traced m s) pm);
                })
                q
              ∷ settlements c.history)
            (visit_traced tracer b
              (λ _.
                handler_traced tracer callbacks
                  (deserialize true (json_format lib true root))
                  payload
                  attrs
                  pm)
              q
              (t, c))
  unfolding publish_traced on_publish as_current_span with_provider_metadata with_headers
  trace_continues propagates lib json root callbacks fn send m payload attrs pm b q c s t typed
        named p once serialized registered signed has pre nacks =
      let sent = traced m s in
      let headers_once = IsDict-update (headers m) (tracer.inject (publishing m s) []) once in
      let found =
        propagates.extract-inject (publishing m s) attrs
          (get-traced propagates lib root m s payload attrs once serialized) in
      (
        rw serialized refl,
        visit_traced-runs b _ q attrs (tracer.current (publishing m s))
            (fn.run (with_provider_metadata sent pm)) t _ c has pre nacks found
            (handler_traced-runs callbacks (deserialize true (json_format lib true root)) fn payload
              attrs pm (with_provider_metadata sent pm) _
              (deserialize-serialize lib json root sent payload attrs pm (traced-IsTyped m s typed)
                named p headers_once serialized)
              registered signed),
      )
