-- ===== src/Consumer/Outcome/Settled.antt =====
-- Each handled message is settled once.
use hedwig_python.Prelude.{
  Bool-cases, ap, ◌∙◌, inl, inr, ◌≢◌, ◌≡◌, refl, Bool, true, false, ◌&&◌, List, ◌∷◌, arith,
  if◌then◌else◌,
}
use hedwig_python.Python.Action.{Action, and_then}
use hedwig_python.Python.Exn.{Result, ok, raise, Result-cases}
use hedwig_python.Consumer.{Event, pre_hook, post_hook, nack, Consumer, record_event}
use hedwig_python.Consumer.Loop.{
  Backend, Handling, ignored, logged, retried, counted, clause_of, handle, process_guarded,
  hook_guarded, ack_guarded, processing, on_exception, if_going, after_processing, after_hook,
}
use hedwig_python.Consumer.Outcome.{
  Settlement, acknowledged, sent_back, settlements, returned, is_ignored, went_on, verdict,
  is_ignored-clause_of,
}
use hedwig_python.Consumer.Outcome.Noted.{
  settlements-heartbeat, settlements-nack, settlements-pre, settlements-post,
  settlements-processing,
}

module _ {Q : Type 0} (b : Backend Q) where
  -- The state after an exception of `process_message`, before the heartbeat.
  abbrev after_exception : Q → Handling → Consumer Q → Result Bool × Consumer Q
  after_exception q h c = on_exception b q h (processing b q c)

  settlements-processing-nack :
      (q : Q) (c : Consumer Q)
      → settlements (record_event (nack q) (processing b q c)).history
        ≡ sent_back q ∷ settlements c.history
  settlements-processing-nack q c =
      settlements-nack q (processing b q c)
      ∙ ap (λ (l : List (Settlement Q)). sent_back q ∷ l) (settlements-processing b q c)

  settlements-after_exception :
      (q : Q) (h : Handling) (c : Consumer Q)
      → settlements (after_exception q h c).1.history
        ≡ (if is_ignored h then settlements c.history else sent_back q ∷ settlements c.history)
  unfolding on_exception
  settlements-after_exception q ignored c = settlements-processing b q c
  settlements-after_exception q logged c = elim (Result-cases (b.nack_message q)) [
    | inl (u, e) ↦ rw e (settlements-processing-nack q c)
    | inr (x, e) ↦ rw e (settlements-processing-nack q c)
  ]
  settlements-after_exception q retried c = elim (Result-cases (b.nack_message q)) [
    | inl (u, e) ↦ rw e (settlements-processing-nack q c)
    | inr (x, e) ↦ rw e (settlements-processing-nack q c)
  ]
  settlements-after_exception q counted c = elim (Result-cases (b.nack_message q)) [
    | inl (u, e) ↦ rw e (settlements-processing-nack q c)
    | inr (x, e) ↦ rw e (settlements-processing-nack q c)
  ]

  settlements-process_guarded :
      (q : Q) (c : Consumer Q)
      → settlements (process_guarded b q c).1.history ≡ (
          if went_on (b.process_message q)
          then settlements c.history
          else sent_back q ∷ settlements c.history)
  unfolding process_guarded went_on
  settlements-process_guarded q c = elim (Result-cases (b.process_message q)) [
    | inl (u, e) ↦
        rw e (settlements-heartbeat false (b.processed_at q) _ ∙ settlements-processing b q c)
    | inr (x, e) ↦ rw e (
        settlements-heartbeat false (b.processed_at q) (after_exception q (clause_of x) c).1
        ∙ settlements-after_exception q (clause_of x) c
        ∙ ap (λ go. if go then settlements c.history else sent_back q ∷ settlements c.history)
            (is_ignored-clause_of x))
  ]

  going-exception :
      (q : Q) (h : Handling) (c : Consumer Q)
      → is_ignored h ≡ true
      → (after_exception q h c).0 ≡ ok true
  unfolding on_exception
  going-exception q ignored c h = refl
  going-exception q logged c h = cc
  going-exception q retried c h = cc
  going-exception q counted c h = cc

  ending-exception :
      (q : Q) (h : Handling) (c : Consumer Q)
      → is_ignored h ≡ false
      → (after_exception q h c).0 ≢ ok true
  unfolding on_exception
  ending-exception q ignored c h = cc
  ending-exception q logged c h = elim (Result-cases (b.nack_message q)) [
    | inl (u, e) ↦ rw e (λ x. cc)
    | inr (x, e) ↦ rw e (λ y. cc)
  ]
  ending-exception q retried c h = elim (Result-cases (b.nack_message q)) [
    | inl (u, e) ↦ rw e (λ x. cc)
    | inr (x, e) ↦ rw e (λ y. cc)
  ]
  ending-exception q counted c h = elim (Result-cases (b.nack_message q)) [
    | inl (u, e) ↦ rw e (λ x. cc)
    | inr (x, e) ↦ rw e (λ y. cc)
  ]

  going-process_guarded :
      (q : Q) (c : Consumer Q)
      → went_on (b.process_message q) ≡ true
      → (process_guarded b q c).0 ≡ ok true
  unfolding process_guarded went_on
  going-process_guarded q c h = elim (Result-cases (b.process_message q)) [
    | inl (u, e) ↦ rw e
    | inr (x, e) ↦ rw e (going-exception q (clause_of x) c (is_ignored-clause_of x ∙ rw e at h))
  ]

  ending-process_guarded :
      (q : Q) (c : Consumer Q)
      → went_on (b.process_message q) ≡ false
      → (process_guarded b q c).0 ≢ ok true
  unfolding process_guarded went_on
  ending-process_guarded q c h = elim (Result-cases (b.process_message q)) [
    | inl (u, e) ↦ cc
    | inr (x, e) ↦ rw e (ending-exception q (clause_of x) c (is_ignored-clause_of x ∙ rw e at h))
  ]

-- A step that did not return `true` leaves its state to the round's end.
stop-state :
    {Q : Type 0} (r : Result Bool) (rest : Action (Consumer Q) (Unit {0})) (c : Consumer Q)
    → r ≢ ok true
    → (and_then r (λ p. if_going p rest) c).1 ≡ c
stop-state (ok true) rest c h = absurd (h refl)
stop-state (ok false) rest c h = refl
stop-state (raise e) rest c h = refl

module _ {Q : Type 0} (b : Backend Q) where
  settlements-ack_guarded :
      (q : Q) (c : Consumer Q)
      → settlements (ack_guarded b q c).1.history ≡ acknowledged q ∷ settlements c.history
  unfolding ack_guarded record_event settlements
  settlements-ack_guarded q c = elim (Result-cases (b.ack_message q)) [
    | inl (u, e) ↦ rw e
    | inr (x, e) ↦ rw e
  ]

  -- The rest of a round behind a hook.
  settlements-hook :
      (e : Event Q) (r : Result (Unit {0})) (q : Q) (rest : Action (Consumer Q) (Unit {0}))
      (c : Consumer Q)
      → settlements (record_event e c).history ≡ settlements c.history
      → settlements
          (and_then
            (hook_guarded b e r q c).0
            (λ p. if_going p rest)
            (hook_guarded b e r q c).1).1.history
        ≡ (if returned r
            then settlements (rest (record_event e c)).1.history
            else sent_back q ∷ settlements c.history)
  unfolding hook_guarded
  settlements-hook e (ok u) q rest c h = refl
  settlements-hook e (raise x) q rest c h = elim (Result-cases (b.nack_message q)) [
    | inl (u, n) ↦ rw n (
        settlements-nack q (record_event e c) ∙ ap (λ (l : List (Settlement Q)). sent_back q ∷ l) h)
    | inr (y, n) ↦ rw n (
        settlements-nack q (record_event e c) ∙ ap (λ (l : List (Settlement Q)). sent_back q ∷ l) h)
  ]

  settlements-after_processing :
      (q : Q) (c : Consumer Q)
      → settlements (after_processing b q c).1.history
        ≡ (if returned (b.post_process_hook q) then acknowledged q else sent_back q)
          ∷ settlements c.history
  unfolding after_processing
  settlements-after_processing q c =
      settlements-hook (post_hook q) (b.post_process_hook q) q (ack_guarded b q) c
        (settlements-post q c)
      ∙ ground
          (arith, settlements-ack_guarded q (record_event (post_hook q) c), settlements-post q c)

  settlements-after_hook :
      (q : Q) (c : Consumer Q)
      → settlements (after_hook b q c).1.history
        ≡ (if went_on (b.process_message q) && returned (b.post_process_hook q)
            then acknowledged q
            else sent_back q)
          ∷ settlements c.history
  unfolding after_hook
  settlements-after_hook q c = elim (Bool-cases (went_on (b.process_message q))) [
    | inl going ↦ rw (going-process_guarded b q c going) (
        ground (
          arith,
          going,
          settlements-after_processing q (process_guarded b q c).1,
          settlements-process_guarded b q c,
        ))
    | inr ending ↦
        rw
          (stop-state (process_guarded b q c).0 (after_processing b q) (process_guarded b q c).1
            (ending-process_guarded b q c ending))
          (ground (arith, ending, settlements-process_guarded b q c))
  ]

  -- A message that is handled is settled exactly once, whatever is raised: `ack_message` is called
  -- if both hooks returned and processing returned or asked to be ignored, and `nack_message`
  -- otherwise.
  pub settlements-handle :
      (q : Q) (c : Consumer Q)
      → settlements (handle b q c).1.history ≡ verdict b q ∷ settlements c.history
  unfolding handle
  settlements-handle q c =
      settlements-hook (pre_hook q) (b.pre_process_hook q) q (after_hook b q) c
        (settlements-pre q c)
      ∙ ground (arith, settlements-after_hook q (record_event (pre_hook q) c), settlements-pre q c)
