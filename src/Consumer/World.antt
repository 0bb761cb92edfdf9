-- ===== src/Consumer/World.antt =====
-- A consumer object beside the state of the service that it calls, and the `finally` clause that
-- `pull_messages` has in every backend.
use hedwig_python.Prelude.{ℕ, false}
use hedwig_python.Python.Action.{Action}
use hedwig_python.Consumer.{Consumer, call_heartbeat_hook, perform_error_counter_inactivity_reset}

pub record World (Q S : Type 0) : Type 0 where
  pub consumer : Consumer Q
  pub server : S

abbrev pub on_server : {Q S A : Type 0} → Action S A → Action (World Q S) A
on_server m w = let r = m w.server in (r.0, record w { server = r.1 })

-- The times are those of the two looks at the clock.
unfoldable pub close : {Q S : Type 0} → ℕ → ℕ → World Q S → World Q S
close reset_at beat_at w = record w {
  consumer =
      call_heartbeat_hook false beat_at
        (perform_error_counter_inactivity_reset reset_at w.consumer);
}
