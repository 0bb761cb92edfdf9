-- ===== src/Gcp/Pull/Consumed.antt =====
-- `fetch_and_process_messages` of hedwig/backends/base.py over streaming pull: one round of its
-- `while` loop, whose `for` loop goes through the generator.
use hedwig_python.Prelude.{
  ℕ, String, ◌+◌, ◌<◌, ◌≡◌, refl, ◌∙◌, Bool, true, false, Option, List, length, All, Bool-cases,
  inl, inr, ltb,
}
use hedwig_python.Python.Action.{Action}
use hedwig_python.Consumer.{
  Consumer, call_heartbeat_hook, perform_error_counter_inactivity_reset, record_event, is_inactive,
}
use hedwig_python.Consumer.Loop.{Backend, visit}
use hedwig_python.Consumer.Outcome.{Settlement, settlements, verdict}
use hedwig_python.Consumer.Survival.{IsServed, visit-settles}
use hedwig_python.Consumer.World.{World, close}
use hedwig_python.Gcp.{MessageWrapper}
use hedwig_python.Gcp.Pull.{Turn, Stream, is_some_path, Subscriber, pull_messages}
use hedwig_python.Gcp.Pull.Settled.{arrivals, gets, IsRecording}
use hedwig_python.Gcp.Pull.Delivered.{IsOpen, IsDelivered, pull_messages-IsDelivered}

abbrev on_consumer : {Q S A : Type 0} → Action (Consumer Q) A → Action (World Q S) A
on_consumer m w = let r = m w.consumer in (r.0, record w { consumer = r.1 })

abbrev pub settled : {S : Type 0} → World MessageWrapper S → List (Settlement MessageWrapper)
settled w = settlements w.consumer.history

-- The generator with the body of the `for` loop.
unfoldable pub fetch_round :
    {S F : Type 0}
    → Subscriber S F
    → Backend MessageWrapper
    → Bool
    → List String
    → ℕ
    → Option ℕ
    → List Turn
    → List Turn
    → Action (Stream S) Bool
unfolding pull_messages
fetch_round subscriber b instrumented paths num_messages visibility_timeout turns last_turns =
    pull_messages subscriber paths num_messages visibility_timeout turns last_turns
      (λ q. on_consumer (visit b instrumented q))

module _ {Q : Type 0} where
  settlements-reset :
      (now : ℕ) (c : Consumer Q)
      → settlements (perform_error_counter_inactivity_reset now c).history ≡ settlements c.history
  unfolding perform_error_counter_inactivity_reset
  settlements-reset now c = elim (Bool-cases (is_inactive now c c.heartbeat_inactivity_reset)) [
    | inl e ↦ rw e refl
    | inr e ↦ rw e refl
  ]

  settlements-beat :
      (now : ℕ) (c : Consumer Q)
      → settlements (call_heartbeat_hook false now c).history ≡ settlements c.history
  unfolding call_heartbeat_hook record_event settlements
  settlements-beat now c =
      elim (Bool-cases (ltb (c.heartbeat_called_at + c.heartbeat_interval) now)) [
        | inl e ↦ rw e refl
        | inr e ↦ rw e refl
      ]

visit-IsRecording :
    {S : Type 0} (b : Backend MessageWrapper) (instrumented : Bool)
    → IsRecording {S = S}
        (λ q. on_consumer (visit b instrumented q))
        (IsServed b)
        (verdict b)
        settled
unfolding close
visit-IsRecording b instrumented = record {
  records = λ q w served.
      visit-settles b instrumented q w.consumer served.attributes served.nacks
        served.has_attributes;
  closes = λ reset_at beat_at w.
      settlements-beat beat_at (perform_error_counter_inactivity_reset reset_at w.consumer)
      ∙ settlements-reset reset_at w.consumer;
  serves = λ s w. refl;
}

-- However streaming pull and the main thread have the work queue in turn before the shutdown event,
-- and after it, as long as the main thread has it more often at the end than messages arrive: the
-- round ends, the queue is empty then, and each message that arrived until then, in that order,
-- is settled once, whatever the hooks, the callbacks and `ack_message` raise. The service lets the
-- consumer subscribe and cancel, and every message can be sent back and has readable attributes.
pub fetch_round-IsDelivered :
    {S F : Type 0} (subscriber : Subscriber S F) (b : Backend MessageWrapper) (instrumented : Bool)
    (paths : List String) (num_messages : ℕ) (visibility_timeout : Option ℕ)
    (turns last_turns : List Turn) (st : Stream S)
    → IsOpen subscriber
    → is_some_path paths ≡ true
    → All (IsServed b) (arrivals turns)
    → All (IsServed b) (arrivals last_turns)
    → length (arrivals turns) + length (arrivals last_turns) < gets last_turns
    → IsDelivered (verdict b) settled turns last_turns st (
        fetch_round subscriber b instrumented paths num_messages visibility_timeout turns last_turns
          st)
unfolding fetch_round
fetch_round-IsDelivered subscriber b instrumented paths n timeout turns last_turns st is_open found
      new last enough =
    pull_messages-IsDelivered subscriber (λ q. on_consumer (visit b instrumented q)) (IsServed b)
      (verdict b) settled (visit-IsRecording b instrumented) is_open paths n timeout turns
      last_turns st found new last enough
