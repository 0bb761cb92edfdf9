-- ===== src/Consumer/Keeps.antt =====
-- Predicates on a consumer that the loop over messages keeps.
use hedwig_python.Prelude.{ℕ, inl, inr, Bool, true, false, List, [], ◌∷◌, All}
use hedwig_python.Python.Action.{Action, and_then}
use hedwig_python.Python.Exn.{Result, ok, raise, Result-cases}
use hedwig_python.Consumer.{
  Event, pre_hook, process, post_hook, ack, nack, Consumer, record_event, call_heartbeat_hook,
}
use hedwig_python.Consumer.Loop
use hedwig_python.Consumer.Loop.{
  Backend, Handling, ignored, logged, retried, counted, clause_of, on_exception, process_guarded,
  hook_guarded, ack_guarded, force_heartbeats, if_going, after_processing, after_hook, handle,
  visit, visit_all, fetch_and_process_messages,
}

-- What keeps `P`: the other steps, and a call of the heartbeat hook.
pub record Closed {Q : Type 0} (P : Consumer Q → Type 0) : Type 0 where
  pub counting : (c : Consumer Q) (n : ℕ) → P c → P (record c { error_count = n })
  pub receiving : (c : Consumer Q) (t : ℕ) → P c → P (record c { last_message_received_at = t })
  pub preparing : (c : Consumer Q) (q : Q) → P c → P (record_event (pre_hook q) c)
  pub processing : (c : Consumer Q) (q : Q) → P c → P (record_event (process q) c)
  pub finishing : (c : Consumer Q) (q : Q) → P c → P (record_event (post_hook q) c)
  pub acking : (c : Consumer Q) (q : Q) → P c → P (record_event (ack q) c)
  pub nacking : (c : Consumer Q) (q : Q) → P c → P (record_event (nack q) c)
  pub beating :
      (c : Consumer Q) (force : Bool) (now : ℕ) → P c → P (call_heartbeat_hook force now c)

module _ {Q : Type 0} (b : Backend Q) {P : Consumer Q → Type 0} (closed : Closed P) where
  open closed use {counting, receiving, preparing, processing, finishing, acking, nacking, beating}

  Keeps-on_exception : (q : Q) (h : Handling) (c : Consumer Q) → P c → P (on_exception b q h c).1
  unfolding on_exception
  Keeps-on_exception q ignored c p = p
  Keeps-on_exception q logged c p = elim (Result-cases (b.nack_message q)) [
    | inl (u, e) ↦ rw e (nacking c q p)
    | inr (x, e) ↦ rw e (nacking c q p)
  ]
  Keeps-on_exception q retried c p = elim (Result-cases (b.nack_message q)) [
    | inl (u, e) ↦ rw e (nacking c q p)
    | inr (x, e) ↦ rw e (nacking c q p)
  ]
  Keeps-on_exception q counted c p = elim (Result-cases (b.nack_message q)) [
    | inl (u, e) ↦ rw e (counting _ _ (nacking c q p))
    | inr (x, e) ↦ rw e (nacking c q p)
  ]

  Keeps-forced : (times : List ℕ) (c : Consumer Q) → P c → P (force_heartbeats times c)
  unfolding force_heartbeats
  Keeps-forced [] c p = p
  Keeps-forced (now ∷ later) c p = Keeps-forced later _ (beating c true now p)

  Keeps-processing : (q : Q) (c : Consumer Q) → P c → P (Loop.processing b q c)
  Keeps-processing q c p = Keeps-forced (b.extended_at q) _ (processing c q p)

  Keeps-process_guarded : (q : Q) (c : Consumer Q) → P c → P (process_guarded b q c).1
  unfolding process_guarded
  Keeps-process_guarded q c p = elim (Result-cases (b.process_message q)) [
    | inl (u, e) ↦ rw e (beating _ false _ (counting _ 0 (Keeps-processing q c p)))
    | inr (x, e) ↦
        rw e (beating _ false _ (Keeps-on_exception q (clause_of x) _ (Keeps-processing q c p)))
  ]

  Keeps-hook :
      (e : Event Q) (r : Result (Unit {0})) (q : Q) (rest : Action (Consumer Q) (Unit {0}))
      (c : Consumer Q)
      → P (record_event e c)
      → (P (record_event e c) → P (rest (record_event e c)).1)
      → P (and_then (hook_guarded b e r q c).0 (λ p. if_going p rest) (hook_guarded b e r q c).1).1
  unfolding hook_guarded
  Keeps-hook e (ok u) q rest c p go = go p
  Keeps-hook e (raise x) q rest c p go = elim (Result-cases (b.nack_message q)) [
    | inl (u, n) ↦ rw n (nacking _ q p)
    | inr (y, n) ↦ rw n (nacking _ q p)
  ]

  Keeps-ack_guarded : (q : Q) (c : Consumer Q) → P c → P (ack_guarded b q c).1
  unfolding ack_guarded
  Keeps-ack_guarded q c p = elim (Result-cases (b.ack_message q)) [
    | inl (u, e) ↦ rw e (acking c q p)
    | inr (x, e) ↦ rw e (acking c q p)
  ]

  Keeps-after_processing : (q : Q) (c : Consumer Q) → P c → P (after_processing b q c).1
  unfolding after_processing
  Keeps-after_processing q c p =
      Keeps-hook (post_hook q) (b.post_process_hook q) q (ack_guarded b q) c (finishing c q p)
        (Keeps-ack_guarded q _)

  Keeps-rest :
      (r : Result Bool) (q : Q) (c : Consumer Q)
      → P c
      → P (and_then r (λ p. if_going p (after_processing b q)) c).1
  Keeps-rest (ok true) q c p = Keeps-after_processing q c p
  Keeps-rest (ok false) q c p = p
  Keeps-rest (raise e) q c p = p

  pub Keeps-handle : (q : Q) (c : Consumer Q) → P c → P (handle b q c).1
  unfolding handle after_hook
  Keeps-handle q c p =
      Keeps-hook (pre_hook q) (b.pre_process_hook q) q (after_hook b q) c (preparing c q p)
        (λ p'. Keeps-rest (process_guarded b q _).0 q _ (Keeps-process_guarded q _ p'))

  pub Keeps-visit :
      (instrumented : Bool) (q : Q) (c : Consumer Q) → P c → P (visit b instrumented q c).1
  unfolding visit
  Keeps-visit instrumented q c p = elim (Result-cases (b.message_attributes q)) [
    | inl (attributes, e) ↦ rw e (Keeps-handle q _ (receiving c _ p))
    | inr (x, e) ↦ rw e (receiving c _ p)
  ]

  Keeps-and_then :
      {A : Type 0} (r : Result A) (rest : A → Action (Consumer Q) (Unit {0})) (c : Consumer Q)
      → P c
      → ((a : A) (c' : Consumer Q) → P c' → P (rest a c').1)
      → P (and_then r rest c).1
  Keeps-and_then (ok a) rest c p go = go a c p
  Keeps-and_then (raise e) rest c p go = p

  pub Keeps-visit_all :
      (instrumented : Bool) (qs : List Q) (c : Consumer Q)
      → P c
      → P (visit_all b instrumented qs c).1
  unfolding visit_all
  Keeps-visit_all instrumented [] c p = p
  Keeps-visit_all instrumented (q ∷ rest) c p =
      Keeps-and_then (visit b instrumented q c).0 (λ _. visit_all b instrumented rest) _
        (Keeps-visit instrumented q c p) (λ _. Keeps-visit_all instrumented rest)

  -- So does the whole loop, if the calls of `pull_messages` keep it.
  pub Keeps-fetch :
      (instrumented : Bool) (pulls : List (Action (Consumer Q) (List Q))) (c : Consumer Q)
      → All (λ pull. (c' : Consumer Q) → P c' → P (pull c').1) pulls
      → P c
      → P (fetch_and_process_messages b instrumented pulls c).1
  unfolding fetch_and_process_messages
  Keeps-fetch instrumented [] c keep p = p
  Keeps-fetch instrumented (pull ∷ rest) c (here, there) p =
      Keeps-and_then (pull c).0 _ (pull c).1 (here c p) (λ qs c' p'.
        Keeps-and_then (visit_all b instrumented qs c').0
          (λ _. fetch_and_process_messages b instrumented rest) _
          (Keeps-visit_all instrumented qs c' p')
          (λ _ c'' p''. Keeps-fetch instrumented rest c'' there p''))
