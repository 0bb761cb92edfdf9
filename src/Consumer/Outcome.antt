-- ===== src/Consumer/Outcome.antt =====
-- What becomes of one message, stated apart from the loop: it is acknowledged or sent back, and the
-- errors are counted.
pub mod Noted
pub mod Settled
pub mod Counted
use hedwig_python.Prelude.{
  Bool-cases, ap, ◌∙◌, inl, inr, ◌≢◌, ℕ, ◌+◌, ◌≡◌, refl, Bool, true, false, ◌&&◌, ◌||◌, List, [],
  ◌∷◌, arith, if◌then◌else◌,
}
use hedwig_python.Python.Action.{Action, and_then}
use hedwig_python.Python.Exn.{
  Exn, Result, ok, raise, Result-cases, ignore_exception, logging_exception, retry_exception,
}
use hedwig_python.Consumer.{
  Event, pre_hook, process, post_hook, ack, nack, heartbeat, Consumer, record_event,
  call_heartbeat_hook,
}
use hedwig_python.Consumer.Loop.{
  Backend, Handling, ignored, logged, retried, counted, clause_of, handle, process_guarded,
  hook_guarded, ack_guarded, attempt, on_exception, if_going, after_processing, after_hook,
}

pub data Settlement (Q : Type 0) : Type 0 where
  acknowledged : Q → Settlement Q
  sent_back : Q → Settlement Q

-- The calls of `ack_message` and `nack_message` in a history.
unfoldable pub settlements : {Q : Type 0} → List (Event Q) → List (Settlement Q)
settlements [] = []
settlements (ack q ∷ rest) = acknowledged q ∷ settlements rest
settlements (nack q ∷ rest) = sent_back q ∷ settlements rest
settlements (_ ∷ rest) = settlements rest

abbrev pub returned : Result (Unit {0}) → Bool
returned (ok u) = true
returned (raise e) = false

-- Processing went well, or asked to be ignored.
abbrev pub is_ignored : Handling → Bool
is_ignored ignored = true
is_ignored _ = false

unfoldable pub went_on : Result (Unit {0}) → Bool
went_on (ok u) = true
went_on (raise ignore_exception) = true
went_on (raise _) = false

-- The code's choice of a clause, seen from here.
pub is_ignored-clause_of : (e : Exn) → is_ignored (clause_of e) ≡ went_on (raise e)
unfolding clause_of went_on
is_ignored-clause_of ignore_exception = refl
is_ignored-clause_of logging_exception = refl
is_ignored-clause_of retry_exception = refl
is_ignored-clause_of _ = refl

abbrev pub count_for : Handling → Bool → ℕ → ℕ
count_for counted nacked n = if nacked then n + 1 else n
count_for _ nacked n = n

-- How the error count goes on after `process_message`, given whether a call of `nack_message`
-- returns.
unfoldable pub counted_after : Result (Unit {0}) → Bool → ℕ → ℕ
counted_after (ok u) nacked n = 0
counted_after (raise ignore_exception) nacked n = n
counted_after (raise logging_exception) nacked n = n
counted_after (raise retry_exception) nacked n = n
counted_after (raise _) nacked n = if nacked then n + 1 else n

pub count_for-clause_of :
    (e : Exn) (nacked : Bool) (n : ℕ)
    → count_for (clause_of e) nacked n ≡ counted_after (raise e) nacked n
unfolding clause_of counted_after
count_for-clause_of ignore_exception nacked n = refl
count_for-clause_of logging_exception nacked n = refl
count_for-clause_of retry_exception nacked n = refl
count_for-clause_of _ nacked n = refl

module _ {Q : Type 0} (b : Backend Q) where
  -- All three steps let the message go on.
  abbrev pub accepts : Q → Bool
  accepts q =
      returned (b.pre_process_hook q)
      && went_on (b.process_message q)
      && returned (b.post_process_hook q)

  -- How a message is settled.
  abbrev pub verdict : Q → Settlement Q
  verdict q = if accepts q then acknowledged q else sent_back q

  -- The settlements of several messages in turn, the latest first.
  unfoldable pub verdicts : List Q → List (Settlement Q) → List (Settlement Q)
  verdicts [] before = before
  verdicts (q ∷ rest) before = verdicts rest (verdict q ∷ before)
