-- ===== src/Consumer/Heartbeat.antt =====
-- The heartbeat hook is called no more often than its interval allows, but by force.
use hedwig_python.Prelude.{
  ℕ, ◌+◌, ◌<◌, ◌≡◌, refl, Bool, true, false, Option, List, [], ◌∷◌, arith, All,
}
use hedwig_python.Python.Action.{Action}
use hedwig_python.Consumer.{
  Event, heartbeat, Consumer, record_event, call_heartbeat_hook, init,
  perform_error_counter_inactivity_reset,
}
use hedwig_python.Consumer.Loop.{Backend, fetch_and_process_messages}
use hedwig_python.Consumer.Keeps.{Closed, Keeps-fetch}

-- The calls of the heartbeat hook, the latest first: whether they were forced, and their times.
unfoldable pub beats : {Q : Type 0} → List (Event Q) → List (Bool × ℕ)
beats [] = []
beats (heartbeat forced n t ∷ rest) = (forced, t) ∷ beats rest
beats (_ ∷ rest) = beats rest

abbrev pub latest : List (Bool × ℕ) → ℕ
latest [] = 0
latest ((forced, t) ∷ calls) = t

-- Each call that was not forced comes more than an interval after the one before it, forced or not,
-- and a first one after 1970.
abbrev pub Spaced : ℕ → List (Bool × ℕ) → Type 0
Spaced interval [] = Unit
Spaced interval ((true, t) ∷ calls) = Spaced interval calls
Spaced interval ((false, t) ∷ calls) = (latest calls + interval < t) × Spaced interval calls

pub record IsPaced {Q : Type 0} (interval : ℕ) (c : Consumer Q) : Type 0 where
  pub every : c.heartbeat_interval ≡ interval
  pub noted : c.heartbeat_called_at ≡ latest (beats c.history)
  pub spaced : Spaced interval (beats c.history)

module _ {Q : Type 0} (interval : ℕ) where
  IsPaced-heartbeat :
      (c : Consumer Q) (force : Bool) (now : ℕ)
      → IsPaced interval c
      → IsPaced interval (call_heartbeat_hook force now c)
  unfolding call_heartbeat_hook beats
  IsPaced-heartbeat c true now p = record { every = p.every; noted = refl; spaced = p.spaced }
  IsPaced-heartbeat c false now p = ground arith

  IsPaced-Closed : Closed {Q = Q} (IsPaced interval)
  unfolding record_event beats
  IsPaced-Closed = record {
    counting = λ c n p. record { every = p.every; noted = p.noted; spaced = p.spaced };
    receiving = λ c t p. record { every = p.every; noted = p.noted; spaced = p.spaced };
    preparing = λ c q p. record { every = p.every; noted = p.noted; spaced = p.spaced };
    processing = λ c q p. record { every = p.every; noted = p.noted; spaced = p.spaced };
    finishing = λ c q p. record { every = p.every; noted = p.noted; spaced = p.spaced };
    acking = λ c q p. record { every = p.every; noted = p.noted; spaced = p.spaced };
    nacking = λ c q p. record { every = p.every; noted = p.noted; spaced = p.spaced };
    beating = λ c force now p. IsPaced-heartbeat c force now p;
  }

  pub IsPaced-init : (reset : Option ℕ) → IsPaced interval (init {Q = Q} interval reset)
  unfolding init beats
  IsPaced-init reset = record { every = refl; noted = refl; spaced = tt }

  pub IsPaced-reset :
      (c : Consumer Q) (now : ℕ)
      → IsPaced interval c
      → IsPaced interval (perform_error_counter_inactivity_reset now c)
  unfolding perform_error_counter_inactivity_reset
  IsPaced-reset c now p = ground arith

  -- From a new consumer, whatever is pulled and raised, and whenever callbacks force the heartbeat
  -- hook by extending a visibility timeout: a call that is not forced comes more than the interval
  -- after the call before it, forced or not, if the pulls keep to that themselves.
  pub fetch-IsPaced :
      (b : Backend Q) (instrumented : Bool) (reset : Option ℕ)
      (pulls : List (Action (Consumer Q) (List Q)))
      → All (λ pull. (c : Consumer Q) → IsPaced interval c → IsPaced interval (pull c).1) pulls
      → Spaced interval
          (beats (fetch_and_process_messages b instrumented pulls (init interval reset)).1.history)
  fetch-IsPaced b instrumented reset pulls keep =
      (Keeps-fetch b IsPaced-Closed instrumented pulls (init interval reset) keep
        (IsPaced-init reset)).spaced
