-- ===== src/Publisher/Sending.antt =====
-- When a message is sent.
use hedwig_python.Prelude.{String, ◌≡◌, refl, Bool, true, false, All, inl, inr, ap, ◌∙◌}
use hedwig_python.Python.Exn.{
  Exn, ok, raise, import_error, runtime_error, validation_error, Result-cases,
}
use hedwig_python.Python.Value.{Entries}
use hedwig_python.Models.{Message, headers}
use hedwig_python.Validator.{Format}
use hedwig_python.Validator.Headers.{IsSane, verify_headers_error}
use hedwig_python.Validator.Codec.{serialize, serialize_with}
use hedwig_python.Consumer.Loop.{second_yield}
use hedwig_python.Publisher.{
  Publishing, with_defaults, with_tracing, serialize_and_send, publish_async, publish,
}

-- In a synchronous process nothing is sent.
publish_sync :
    {D P S : Type 0} (p : Publishing D P S) (m : Message D P) (s : S)
    → p.sync ≡ true
    → (publish p m s).1 ≡ s
unfolding publish
publish_sync p m s h = elim (Result-cases (p.dispatch m)) [
  | inl (u, e) ↦ rw h (rw e refl)
  | inr (x, e) ↦ rw h (rw e refl)
]

-- A message with a header that is not sane does not serialize.
insane :
    {D Raw P : Type 0} (fmt : Format D Raw) (use_transport : Bool) (m : Message D P)
    → ¬ All IsSane (headers m)
    → (e : Exn) × (serialize use_transport fmt m ≡ raise e)
unfolding serialize serialize_with
insane fmt use_transport m h =
    elim (Result-cases (fmt.verify_known_minor_version m.type m.version)) [
      | inl (u, e) ↦ (validation_error, rw e (rw (verify_headers_error (headers m) h) refl))
      | inr (x, e) ↦ (x, rw e)
    ]

module _ {D P S : Type 0} (p : Publishing D P S) (async : p.sync ≡ false) where
  publish_refused :
      (m : Message D P) (defaults : Entries) (e : Exn) (s : S)
      → p.default_headers m ≡ ok defaults
      → p.serialize (with_tracing p (with_defaults p m defaults)) ≡ raise e
      → publish p m s ≡ (second_yield p.instrumented (raise e), s)
  unfolding publish serialize_and_send publish_async
  publish_refused m defaults e s hd hs = rw async (rw hd (rw hs refl))

second_yield_raises :
    (i : Bool) (e : Exn) → (e' : Exn) × (second_yield {A = String} i (raise e) ≡ raise e')
second_yield_raises true import_error = (runtime_error, refl)
second_yield_raises true e = (e, refl)
second_yield_raises false e = (e, refl)

-- A message that would go out with a header that is not a text, or with a key that is none or lies
-- in the reserved namespace, is refused: `publish` raises, and the state outside is as it was.
pub publish_insane :
    {D Raw P S : Type 0} (fmt : Format D Raw) (use_transport : Bool) (p : Publishing D P S)
    (m : Message D P) (defaults : Entries) (s : S)
    → p.sync ≡ false
    → p.serialize ≡ serialize use_transport fmt
    → p.default_headers m ≡ ok defaults
    → ¬ All IsSane (headers (with_tracing p (with_defaults p m defaults)))
    → (e : Exn) × (publish p m s ≡ (raise e, s))
publish_insane fmt use_transport p m defaults s async served defaulted h =
    let sent = with_tracing p (with_defaults p m defaults) in
    let (e, refused) = insane fmt use_transport sent h in
    let here : p.serialize sent ≡ raise e = ap (λ f. f sent) served ∙ refused in
    let (e', raised) = second_yield_raises p.instrumented e in
    (e', publish_refused p async m defaults e s defaulted here ∙ ap (λ r. (r, s)) raised)
