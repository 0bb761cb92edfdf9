-- ===== src/Consumer/Outcome/Counted.antt =====
-- How a message changes the error count.
use hedwig_python.Prelude.{
  ap, ◌∙◌, inl, inr, ℕ, ◌≡◌, refl, List, [], ◌∷◌, Bool, true, false, arith, if◌then◌else◌,
}
use hedwig_python.Python.Action.{Action, and_then}
use hedwig_python.Python.Exn.{Result, ok, raise, Result-cases}
use hedwig_python.Consumer.{
  Event, pre_hook, process, post_hook, Consumer, record_event, call_heartbeat_hook,
}
use hedwig_python.Consumer.Loop.{
  Backend, Handling, ignored, logged, retried, counted, clause_of, handle, process_guarded,
  hook_guarded, ack_guarded, force_heartbeats, processing, on_exception, if_going, after_processing,
  after_hook,
}
use hedwig_python.Consumer.Outcome.{returned, count_for, counted_after, count_for-clause_of}

module _ {Q : Type 0} where
  error_count-heartbeat :
      (force : Bool) (now : ℕ) (c : Consumer Q)
      → (call_heartbeat_hook force now c).error_count ≡ c.error_count
  unfolding call_heartbeat_hook
  error_count-heartbeat force now c = ground arith

  -- Noting a call counts nothing.
  error_count-event :
      (e : Event Q) (c : Consumer Q) → (record_event e c).error_count ≡ c.error_count
  unfolding record_event
  error_count-event e c = refl

  error_count-forced :
      (times : List ℕ) (c : Consumer Q) → (force_heartbeats times c).error_count ≡ c.error_count
  unfolding force_heartbeats
  error_count-forced [] c = refl
  error_count-forced (now ∷ later) c =
      error_count-forced later (call_heartbeat_hook true now c) ∙ error_count-heartbeat true now c

module _ {Q : Type 0} (b : Backend Q) where
  error_count-processing : (q : Q) (c : Consumer Q) → (processing b q c).error_count ≡ c.error_count
  error_count-processing q c =
      error_count-forced (b.extended_at q) (record_event (process q) c)
      ∙ error_count-event (process q) c

  error_count-on_exception :
      (q : Q) (h : Handling) (c : Consumer Q)
      → (on_exception b q h c).1.error_count
        ≡ count_for h (returned (b.nack_message q)) c.error_count
  unfolding on_exception record_event
  error_count-on_exception q ignored c = refl
  error_count-on_exception q logged c = elim (Result-cases (b.nack_message q)) [
    | inl (u, e) ↦ rw e
    | inr (x, e) ↦ rw e
  ]
  error_count-on_exception q retried c = elim (Result-cases (b.nack_message q)) [
    | inl (u, e) ↦ rw e
    | inr (x, e) ↦ rw e
  ]
  error_count-on_exception q counted c = elim (Result-cases (b.nack_message q)) [
    | inl (u, e) ↦ rw e
    | inr (x, e) ↦ rw e
  ]

  error_count-process_guarded :
      (q : Q) (c : Consumer Q)
      → (process_guarded b q c).1.error_count
        ≡ counted_after (b.process_message q) (returned (b.nack_message q)) c.error_count
  unfolding process_guarded counted_after
  error_count-process_guarded q c = elim (Result-cases (b.process_message q)) [
    | inl (u, e) ↦ rw e (error_count-heartbeat false (b.processed_at q) _)
    | inr (x, e) ↦ rw e (
        error_count-heartbeat false (b.processed_at q) _
        ∙ error_count-on_exception q (clause_of x) (processing b q c)
        ∙ count_for-clause_of x (returned (b.nack_message q)) (processing b q c).error_count
        ∙ ap (counted_after (raise x) (returned (b.nack_message q))) (error_count-processing q c))
  ]

  error_count-hook :
      (e : Event Q) (r : Result (Unit {0})) (q : Q) (rest : Action (Consumer Q) (Unit {0}))
      (c : Consumer Q)
      → (and_then
          (hook_guarded b e r q c).0
          (λ p. if_going p rest)
          (hook_guarded b e r q c).1).1.error_count
        ≡ (if returned r then (rest (record_event e c)).1.error_count else c.error_count)
  unfolding hook_guarded record_event
  error_count-hook e (ok u) q rest c = refl
  error_count-hook e (raise x) q rest c = elim (Result-cases (b.nack_message q)) [
    | inl (u, n) ↦ rw n
    | inr (y, n) ↦ rw n
  ]

  error_count-ack_guarded :
      (q : Q) (c : Consumer Q) → (ack_guarded b q c).1.error_count ≡ c.error_count
  unfolding ack_guarded record_event
  error_count-ack_guarded q c = elim (Result-cases (b.ack_message q)) [
    | inl (u, e) ↦ rw e
    | inr (x, e) ↦ rw e
  ]

  error_count-after_processing :
      (q : Q) (c : Consumer Q) → (after_processing b q c).1.error_count ≡ c.error_count
  unfolding after_processing
  error_count-after_processing q c =
      error_count-hook (post_hook q) (b.post_process_hook q) q (ack_guarded b q) c
      ∙ ground (
        arith,
        error_count-ack_guarded q (record_event (post_hook q) c),
        error_count-event (post_hook q) c,
      )

  -- What follows the processing leaves the count alone.
  error_count-rest :
      (r : Result Bool) (q : Q) (c : Consumer Q)
      → (and_then r (λ p. if_going p (after_processing b q)) c).1.error_count ≡ c.error_count
  error_count-rest (ok true) q c = error_count-after_processing q c
  error_count-rest (ok false) q c = refl
  error_count-rest (raise e) q c = refl

  error_count-after_hook :
      (q : Q) (c : Consumer Q)
      → (after_hook b q c).1.error_count
        ≡ counted_after (b.process_message q) (returned (b.nack_message q)) c.error_count
  unfolding after_hook
  error_count-after_hook q c =
      error_count-rest (process_guarded b q c).0 q (process_guarded b q c).1
      ∙ error_count-process_guarded q c

  -- One message and the error count: a processing that returns resets it; one that raises adds one
  -- if the exception is none of hedwig's three and the message was sent back; a pre process hook
  -- that raises, and those three exceptions, leave it alone.
  pub error_count-handle :
      (q : Q) (c : Consumer Q)
      → (handle b q c).1.error_count ≡ (
          if returned (b.pre_process_hook q)
          then counted_after (b.process_message q) (returned (b.nack_message q)) c.error_count
          else c.error_count)
  unfolding handle
  error_count-handle q c =
      error_count-hook (pre_hook q) (b.pre_process_hook q) q (after_hook b q) c
      ∙ ground (
        arith,
        error_count-after_hook q (record_event (pre_hook q) c),
        ap (counted_after (b.process_message q) (returned (b.nack_message q)))
            (error_count-event (pre_hook q) c),
      )
