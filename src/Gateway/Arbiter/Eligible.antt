-- ===== src/Gateway/Arbiter/Eligible.antt =====
-- What every winner satisfies.
use orange_pi_stm32_for_rov.Prelude.{ℕ, true, false, ◌≡◌, ◌⊎◌, some, List}
use orange_pi_stm32_for_rov.Gateway.Arbiter.Types.{
  WireOps, IntentSample, ArbiterPolicy, ArbiterDecision,
}
use orange_pi_stm32_for_rov.Gateway.Arbiter.Decide.{Candidate, candidate, expired, stale}

module _ {R : Type 0} (ops : WireOps R) (policy : ArbiterPolicy) (now_mono_ns t0_mono_ns : ℕ) where
  -- The decision names an enabled source with an intent that has not expired, and publishes with the
  -- time of the decision; it is degraded just if the sample is stale, and then that is allowed or a stop.
  pub record IsEligible (samples : List (IntentSample R)) (d : ArbiterDecision R) : Type 0 where
    pub won : Candidate R
    pub is_candidate : candidate policy samples won.sp ≡ some won
    pub unexpired : expired ops policy now_mono_ns t0_mono_ns won ≡ false
    pub source : d.winner ≡ won.sp.src
    pub sample : d.winner_sample ≡ some won.smp
    pub degraded_if_stale : d.degraded ≡ stale ops policy now_mono_ns t0_mono_ns won
    pub allowed : (d.degraded ≡ false) ⊎ (won.sp.allow_stale ≡ true) ⊎ (d.estop_assert ≡ true)
    pub stamp : d.publish_intent.stamp_ns ≡ now_mono_ns
