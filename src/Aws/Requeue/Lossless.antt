-- ===== src/Aws/Requeue/Lossless.antt =====
-- Requeueing loses no message.
use hedwig_python.Prelude.{ℕ, zero, suc, ◌≡◌, String, Bool, Option, List, [], ◌∷◌, inl, inr}
use hedwig_python.Python.Action.{Action, and_then}
use hedwig_python.Python.Exn.{Result, ok, raise, Result-cases}
use hedwig_python.Consumer.World.{World, on_server, close}
use hedwig_python.Aws.{SqsMessage}
use hedwig_python.Aws.Requeue.{
  Sqs, send_entries, delete_entries, pull_messages, move_messages, move_or_end, requeue_dead_letter,
}

-- What holds of the service while no message is lost: receiving and sending keep it, and so does the
-- deletion of messages right after all of them were sent.
pub record Keeping {S : Type 0} (sqs : Sqs S) (P : S → Type 0) : Type 0 where
  pub receiving :
      (n : ℕ) (timeout : Option ℕ) (s : S) → P s → P (sqs.receive_messages n timeout s).1
  pub sending : (qs : List SqsMessage) (s : S) → P s → P (sqs.send_messages (send_entries qs) s).1
  pub deleting :
      (qs : List SqsMessage) (s : S)
      → P s
      → (sqs.send_messages (send_entries qs) s).0 ≡ ok []
      → P (sqs.delete_messages (delete_entries qs) (sqs.send_messages (send_entries qs) s).1).1

module _ {S : Type 0} (sqs : Sqs S) (P : S → Type 0) (keeping : Keeping sqs P) where
  after_send :
      (qs : List SqsMessage) (s : S) (failed : List String)
      → P s
      → (sqs.send_messages (send_entries qs) s).0 ≡ ok failed
      → P (move_messages sqs qs s).1
  unfolding move_messages
  after_send qs s [] p e = rw e (keeping.deleting qs s p e)
  after_send qs s (id ∷ failed) p e = rw e (keeping.sending qs s p)

  Keeping-move_messages : (qs : List SqsMessage) (s : S) → P s → P (move_messages sqs qs s).1
  Keeping-move_messages qs s p = elim (Result-cases (sqs.send_messages (send_entries qs) s).0) [
    | inl (failed, e) ↦ after_send qs s failed p e
    | inr (x, e) ↦ unfold move_messages in rw e (keeping.sending qs s p)
  ]

  and_then-keeps :
      {A B : Type 0} (r : Result A) (rest : A → Action (World SqsMessage S) B)
      (w : World SqsMessage S)
      → P w.server
      → ((a : A) (w' : World SqsMessage S) → P w'.server → P (rest a w').1.server)
      → P (and_then r rest w).1.server
  and_then-keeps (ok a) rest w p go = go a w p
  and_then-keeps (raise e) rest w p go = p

  move_or_end-keeps :
      (rest : Action (World SqsMessage S) Bool) (found : List SqsMessage) (w : World SqsMessage S)
      → ((w' : World SqsMessage S) → P w'.server → P (rest w').1.server)
      → P w.server
      → P (move_or_end sqs rest found w).1.server
  unfolding move_or_end
  move_or_end-keeps rest [] w go p = p
  move_or_end-keeps rest (q ∷ qs) w go p =
      and_then-keeps (on_server (move_messages sqs (q ∷ qs)) w).0 _ _
        (Keeping-move_messages (q ∷ qs) w.server p) (λ _ w₁ p₁. go w₁ p₁)

-- However many rounds are run, and whatever the service raises, fails or answers: what holds while
-- no message is lost is kept by `requeue_dead_letter`.
pub requeue_dead_letter-lossless :
    {S : Type 0} (sqs : Sqs S) (P : S → Type 0) (num_messages : ℕ) (visibility_timeout : Option ℕ)
    (clock : ℕ → ℕ × ℕ) (fuel : ℕ) (w : World SqsMessage S)
    → Keeping sqs P
    → P w.server
    → P (requeue_dead_letter sqs num_messages visibility_timeout clock fuel w).1.server
unfolding requeue_dead_letter pull_messages close
requeue_dead_letter-lossless sqs P n timeout clock zero w keeping p = p
requeue_dead_letter-lossless sqs P n timeout clock (suc fuel) w keeping p =
    and_then-keeps sqs P keeping (pull_messages sqs n timeout (clock fuel) w).0 _ _
      (keeping.receiving n timeout w.server p)
      (λ found w₁ p₁.
        move_or_end-keeps sqs P keeping (requeue_dead_letter sqs n timeout clock fuel) found w₁
          (λ w₂ p₂. requeue_dead_letter-lossless sqs P n timeout clock fuel w₂ keeping p₂) p₁)
