-- ===== src/Consumer.antt =====
-- `HedwigConsumerBaseBackend` of hedwig/backends/base.py: the object's counters and the heartbeat.
-- The loop over messages and the handling of one message are in the children.
pub mod Loop
pub mod Handler
pub mod Outcome
pub mod Survival
pub mod Keeps
pub mod Heartbeat
pub mod World
use hedwig_python.Prelude.{
  ℕ, zero, suc, ◌+◌, ◌≡◌, refl, Bool, true, false, ◌||◌, ◌&&◌, Option, none, some, List, [], ◌∷◌,
  ltb, ◌==◌, nat_eq, if◌then◌else◌,
}
use hedwig_python.Python.Exn.{Result}

-- What is done for a queue message of type `Q`, in the order of the calls. A `heartbeat` has
-- whether it was forced, the error count that the hook is given and the time of the call.
pub data Event (Q : Type 0) : Type 0 where
  pre_hook : Q → Event Q
  process : Q → Event Q
  post_hook : Q → Event Q
  ack : Q → Event Q
  nack : Q → Event Q
  heartbeat : Bool → ℕ → ℕ → Event Q

-- Times are counted from 1970, in a unit that all of them share. `history` is no field of the
-- source: it records the calls, the latest first.
pub record Consumer (Q : Type 0) : Type 0 where
  pub error_count : ℕ
  pub heartbeat_called_at : ℕ
  pub last_message_received_at : ℕ
  pub heartbeat_interval : ℕ
  pub heartbeat_inactivity_reset : Option ℕ
  pub history : List (Event Q)

-- A setting of 0 seconds counts as none.
inactivity : Option ℕ → Option ℕ
inactivity none = none
inactivity (some zero) = none
inactivity (some (suc n)) = some (suc n)

module _ {Q : Type 0} where
  -- `interval` and `inactivity_reset` are HEDWIG_HEARTBEAT_INTERVAL_S and
  -- HEDWIG_HEARTBEAT_INACTIVITY_RESET_S.
  unfoldable pub init : (interval : ℕ) (inactivity_reset : Option ℕ) → Consumer Q
  unfolding inactivity
  init interval inactivity_reset = record {
    error_count = 0;
    heartbeat_called_at = 0;
    last_message_received_at = 0;
    heartbeat_interval = interval;
    heartbeat_inactivity_reset = inactivity inactivity_reset;
    history = [];
  }

  unfoldable pub record_event : Event Q → Consumer Q → Consumer Q
  record_event e c = record c { history = e ∷ c.history }

  -- `_call_heartbeat_hook` at the time `now`. What the hook raises is logged and dropped, so
  -- its result has no part here.
  unfoldable pub call_heartbeat_hook : (force : Bool) (now : ℕ) → Consumer Q → Consumer Q
  unfolding record_event
  call_heartbeat_hook force now c =
      if force || ltb (c.heartbeat_called_at + c.heartbeat_interval) now
      then (let called = record_event (heartbeat force c.error_count now) c in
          record called { heartbeat_called_at = now })
      else c

  -- The test of `_perform_error_counter_inactivity_reset`.
  unfoldable pub is_inactive : (now : ℕ) → Consumer Q → Option ℕ → Bool
  is_inactive now c none = false
  is_inactive now c (some reset) =
      ltb 0 c.error_count && ltb (c.last_message_received_at + reset) now

  unfoldable pub perform_error_counter_inactivity_reset : (now : ℕ) → Consumer Q → Consumer Q
  unfolding is_inactive
  perform_error_counter_inactivity_reset now c =
      if is_inactive now c c.heartbeat_inactivity_reset then record c { error_count = 0 } else c
