-- ===== src/Aws/Requeue/Ends.antt =====
-- Requeueing comes to an end.
use hedwig_python.Prelude.{
  ℕ, zero, suc, ◌<◌, ◌≡◌, ◌≢◌, refl, ap, ◌∙◌, Bool, false, Option, List, [], ◌∷◌, inl, inr, arith,
}
use hedwig_python.Python.Action.{Action, and_then}
use hedwig_python.Python.Exn.{Exn, Result, ok, raise, Result-cases}
use hedwig_python.Consumer.World.{World, on_server, close}
use hedwig_python.Aws.{SqsMessage}
use hedwig_python.Aws.Requeue.{Sqs, pull_messages, move_messages, move_or_end, requeue_dead_letter}

-- What is taken of the service: messages that were received, sent and deleted wait no longer.
pub record Shrinking {S : Type 0} (sqs : Sqs S) (waiting : S → ℕ) : Type 0 where
  pub shrinks :
      (n : ℕ) (timeout : Option ℕ) (s : S) (q : SqsMessage) (qs : List SqsMessage)
      → (sqs.receive_messages n timeout s).0 ≡ ok (q ∷ qs)
      → (move_messages sqs (q ∷ qs) (sqs.receive_messages n timeout s).1).0 ≡ ok tt
      → waiting (move_messages sqs (q ∷ qs) (sqs.receive_messages n timeout s).1).1 < waiting s

module _ {S : Type 0} (sqs : Sqs S) where
  -- A round does not run out of fuel, if the rounds after its deletion do not.
  move_or_end-ends :
      (rest : Action (World SqsMessage S) Bool) (found : List SqsMessage) (w : World SqsMessage S)
      → ((q : SqsMessage) (qs : List SqsMessage)
          → found ≡ q ∷ qs
          → (move_messages sqs (q ∷ qs) w.server).0 ≡ ok tt
          → (rest (on_server (move_messages sqs (q ∷ qs)) w).1).0 ≢ ok false)
      → (move_or_end sqs rest found w).0 ≢ ok false
  unfolding move_or_end
  move_or_end-ends rest [] w go h = cc
  move_or_end-ends rest (q ∷ qs) w go h =
      elim (Result-cases (move_messages sqs (q ∷ qs) w.server).0) [
        | inl (u, e) ↦ go q qs refl e (rw e at h)
        | inr (x, e) ↦ absurd (raised x (rw e at h))
      ]
    where
      raised : (x : Exn) → raise x ≢ ok false
      raised x h = cc

  pulled :
      (rest : Action (World SqsMessage S) Bool) (r : Result (List SqsMessage))
      (w : World SqsMessage S)
      → ((found : List SqsMessage) → r ≡ ok found → (move_or_end sqs rest found w).0 ≢ ok false)
      → (and_then r (move_or_end sqs rest) w).0 ≢ ok false
  pulled rest (ok found) w go h = go found refl h
  pulled rest (raise x) w go h = cc

-- With more fuel than messages wait, `requeue_dead_letter` ends: it finds no more messages, or
-- raises what the service raised or a PartialFailure.
pub requeue_dead_letter-ends :
    {S : Type 0} (sqs : Sqs S) (waiting : S → ℕ) (num_messages : ℕ) (visibility_timeout : Option ℕ)
    (clock : ℕ → ℕ × ℕ) (fuel : ℕ) (w : World SqsMessage S)
    → Shrinking sqs waiting
    → waiting w.server < fuel
    → (requeue_dead_letter sqs num_messages visibility_timeout clock fuel w).0 ≢ ok false
unfolding requeue_dead_letter pull_messages close
requeue_dead_letter-ends sqs waiting n timeout clock zero w shrinking enough =
    absurd (omega (arith, enough))
requeue_dead_letter-ends sqs waiting n timeout clock (suc fuel) w shrinking enough =
    pulled sqs (requeue_dead_letter sqs n timeout clock fuel)
      (sqs.receive_messages n timeout w.server).0 _
      (λ found received.
        move_or_end-ends sqs (requeue_dead_letter sqs n timeout clock fuel) found _ (λ q qs e moved.
          requeue_dead_letter-ends sqs waiting n timeout clock fuel _ shrinking (
            omega (
              arith,
              enough,
              shrinking.shrinks n timeout w.server q qs (received ∙ ap ok e) moved,
            ))))
