-- ===== src/Consumer/Survival.antt =====
-- When the loop over messages goes on, and what it has settled by then.
use hedwig_python.Prelude.{
  ◌≡◌, refl, ap, ◌∙◌, inl, inr, Bool, true, false, List, [], ◌∷◌, if◌then◌else◌, Bool-cases, All,
}
use hedwig_python.Python.Action.{Action, and_then}
use hedwig_python.Python.Exn.{Result, ok, raise, Result-cases}
use hedwig_python.Python.Value.{Entries}
use hedwig_python.Consumer.{Event, pre_hook, post_hook, Consumer, record_event}
use hedwig_python.Consumer.Loop.{
  Backend, Handling, ignored, logged, retried, counted, clause_of, second_yield, on_exception,
  process_guarded, hook_guarded, ack_guarded, if_going, after_processing, after_hook, handle, visit,
  visit_all,
}
use hedwig_python.Consumer.Outcome.Settled.{settlements-handle}
use hedwig_python.Consumer.Outcome.{
  settlements, returned, is_ignored, went_on, verdict, verdicts, is_ignored-clause_of,
}

module _ {Q : Type 0} (b : Backend Q) where
  module _ (q : Q) (nacks : b.nack_message q ≡ ok tt) where
    result-hook :
        (e : Event Q) (r : Result (Unit {0})) (rest : Action (Consumer Q) (Unit {0}))
        (c : Consumer Q)
        → (and_then (hook_guarded b e r q c).0 (λ p. if_going p rest) (hook_guarded b e r q c).1).0
          ≡ (if returned r then (rest (record_event e c)).0 else ok tt)
    unfolding hook_guarded
    result-hook e (ok u) rest c = refl
    result-hook e (raise x) rest c = rw nacks

    result-after_exception :
        (h : Handling) (c : Consumer Q) → (on_exception b q h c).0 ≡ ok (is_ignored h)
    unfolding on_exception
    result-after_exception ignored c = refl
    result-after_exception logged c = rw nacks
    result-after_exception retried c = rw nacks
    result-after_exception counted c = rw nacks

    result-process_guarded :
        (c : Consumer Q) → (process_guarded b q c).0 ≡ ok (went_on (b.process_message q))
    unfolding process_guarded went_on
    result-process_guarded c = elim (Result-cases (b.process_message q)) [
      | inl (u, e) ↦ rw e
      | inr (x, e) ↦
          rw e (result-after_exception (clause_of x) _ ∙ ap (λ p. ok p) (is_ignored-clause_of x))
    ]

    result-ack_guarded : (c : Consumer Q) → (ack_guarded b q c).0 ≡ ok tt
    unfolding ack_guarded
    result-ack_guarded c = elim (Result-cases (b.ack_message q)) [
      | inl (u, e) ↦ rw e
      | inr (x, e) ↦ rw e
    ]

    if_same : (p : Bool) (r : Result (Unit {0})) → r ≡ ok tt → (if p then r else ok tt) ≡ ok tt
    if_same true r h = h
    if_same false r h = refl

    result-after_processing : (c : Consumer Q) → (after_processing b q c).0 ≡ ok tt
    unfolding after_processing
    result-after_processing c =
        result-hook (post_hook q) (b.post_process_hook q) (ack_guarded b q) c
        ∙ if_same (returned (b.post_process_hook q)) _
            (result-ack_guarded (record_event (post_hook q) c))

    result-after_hook : (c : Consumer Q) → (after_hook b q c).0 ≡ ok tt
    unfolding after_hook
    result-after_hook c =
        rw (result-process_guarded c) (elim (Bool-cases (went_on (b.process_message q))) [
          | inl going ↦ rw going (result-after_processing _)
          | inr ending ↦ rw ending
        ])

    pub result-handle : (c : Consumer Q) → (handle b q c).0 ≡ ok tt
    unfolding handle
    result-handle c =
        result-hook (pre_hook q) (b.pre_process_hook q) (after_hook b q) c
        ∙ if_same (returned (b.pre_process_hook q)) _
            (result-after_hook (record_event (pre_hook q) c))

  pub visit-settles :
      (instrumented : Bool) (q : Q) (c : Consumer Q) (attributes : Entries)
      → b.nack_message q ≡ ok tt
      → b.message_attributes q ≡ ok attributes
      → ((visit b instrumented q c).0 ≡ ok tt)
        × (settlements (visit b instrumented q c).1.history ≡ verdict b q ∷ settlements c.history)
  unfolding visit
  visit-settles instrumented q c attributes nacks has =
      let c' = record c { last_message_received_at = b.received_at q } in
      (
        rw has (rw (result-handle q nacks c') (calm instrumented)),
        rw has (settlements-handle b q c'),
      )
    where
      calm : (i : Bool) → second_yield {A = Unit {0}} i (ok tt) ≡ ok tt
      calm true = refl
      calm false = refl

  -- The backend can send the message back, and reads its attributes.
  pub record IsServed (q : Q) : Type 0 where
    pub nacks : b.nack_message q ≡ ok tt
    pub attributes : Entries
    pub has_attributes : b.message_attributes q ≡ ok attributes

  -- Where every message can be sent back and has readable attributes, the loop goes through all of
  -- them, whatever the hooks, the callbacks and `ack_message` raise, and settles each once, in
  -- order.
  pub visit_all-settles :
      (instrumented : Bool) (qs : List Q) (c : Consumer Q)
      → All IsServed qs
      → ((visit_all b instrumented qs c).0 ≡ ok tt)
        × (settlements (visit_all b instrumented qs c).1.history
            ≡ verdicts b qs (settlements c.history))
  unfolding visit_all verdicts
  visit_all-settles instrumented [] c served = (refl, refl)
  visit_all-settles instrumented (q ∷ rest) c (here, there) =
      let (went, settled) =
        visit-settles instrumented q c here.attributes here.nacks here.has_attributes in
      let (through, all) = visit_all-settles instrumented rest (visit b instrumented q c).1 there in
      (rw went through, rw went (all ∙ ap (verdicts b rest) settled))
