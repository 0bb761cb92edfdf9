-- ===== src/Gcp/Pull/Bounds.antt =====
-- The deadlines that a service is asked for.
use hedwig_python.Prelude.{ℕ, String, ◌≤◌, ◌≡◌, refl, ltb, Bool-cases, inl, inr, arith}
use hedwig_python.Prelude.Int.{ℤ, pos, negsuc}
use hedwig_python.Consumer.World.{World}
use hedwig_python.Gcp.{MessageWrapper, GoogleMetadata}
use hedwig_python.Gcp.Pull.{Subscriber, extend_visibility_timeout}

-- Two services that do the same for deadlines of 0 to 600 seconds cannot be told apart by
-- `extend_visibility_timeout`, whatever number of seconds it is given: no other deadline reaches
-- them.
pub extend_visibility_timeout-bounded :
    {S F : Type 0} (first second : Subscriber S F) (now : ℕ) (visibility_timeout_s : ℤ)
    (metadata : GoogleMetadata) (w : World MessageWrapper S)
    → ((path ack_id : String) (seconds : ℕ) (s : S)
        → seconds ≤ 600
        → first.modify_ack_deadline path ack_id seconds s
          ≡ second.modify_ack_deadline path ack_id seconds s)
    → extend_visibility_timeout first now visibility_timeout_s metadata w
      ≡ extend_visibility_timeout second now visibility_timeout_s metadata w
unfolding extend_visibility_timeout
extend_visibility_timeout-bounded first second now (negsuc n) metadata w same = refl
extend_visibility_timeout-bounded first second now (pos n) metadata w same =
    elim (Bool-cases (ltb 600 n)) [
      | inl out ↦ rw out refl
      | inr within ↦
          rw within
            (rw (same metadata.subscription_path metadata.ack_id n w.server (ground arith)) refl)
    ]
