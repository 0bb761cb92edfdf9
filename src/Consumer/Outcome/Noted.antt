-- ===== src/Consumer/Outcome/Noted.antt =====
-- Steps of a message that settle nothing, and a message that is sent back.
use hedwig_python.Prelude.{◌∙◌, ℕ, ◌≡◌, refl, Bool, true, List, [], ◌∷◌, arith}
use hedwig_python.Consumer.{
  pre_hook, process, post_hook, nack, Consumer, record_event, call_heartbeat_hook,
}
use hedwig_python.Consumer.Loop.{Backend, force_heartbeats, processing}
use hedwig_python.Consumer.Outcome.{sent_back, settlements}

module _ {Q : Type 0} where
  pub settlements-heartbeat :
      (force : Bool) (now : ℕ) (c : Consumer Q)
      → settlements (call_heartbeat_hook force now c).history ≡ settlements c.history
  unfolding call_heartbeat_hook settlements
  settlements-heartbeat force now c = ground arith

  pub settlements-nack :
      (q : Q) (c : Consumer Q)
      → settlements (record_event (nack q) c).history ≡ sent_back q ∷ settlements c.history
  unfolding record_event settlements
  settlements-nack q c = refl

  pub settlements-pre :
      (q : Q) (c : Consumer Q)
      → settlements (record_event (pre_hook q) c).history ≡ settlements c.history
  unfolding record_event settlements
  settlements-pre q c = refl

  pub settlements-post :
      (q : Q) (c : Consumer Q)
      → settlements (record_event (post_hook q) c).history ≡ settlements c.history
  unfolding record_event settlements
  settlements-post q c = refl

  pub settlements-forced :
      (times : List ℕ) (c : Consumer Q)
      → settlements (force_heartbeats times c).history ≡ settlements c.history
  unfolding force_heartbeats
  settlements-forced [] c = refl
  settlements-forced (now ∷ later) c =
      settlements-forced later (call_heartbeat_hook true now c) ∙ settlements-heartbeat true now c

  pub settlements-process :
      (q : Q) (c : Consumer Q)
      → settlements (record_event (process q) c).history ≡ settlements c.history
  unfolding record_event settlements
  settlements-process q c = refl

module _ {Q : Type 0} (b : Backend Q) where
  pub settlements-processing :
      (q : Q) (c : Consumer Q) → settlements (processing b q c).history ≡ settlements c.history
  settlements-processing q c =
      settlements-forced (b.extended_at q) (record_event (process q) c) ∙ settlements-process q c
