-- ===== src/Gateway/Arbiter/Degrade.antt =====
-- What is decided without a winner.
use orange_pi_stm32_for_rov.Prelude.{
  ℕ, true, false, ◌≡◌, ◌⊎◌, refl, Option, none, some, List, [], ◌∷◌, arith, if◌then◌else◌,
}
use orange_pi_stm32_for_rov.Gateway.Arbiter.Types.{
  WireIntent, WireOps, IntentSample, SourcePolicy, ArbiterPolicy, ArbiterDecision,
}
use orange_pi_stm32_for_rov.Gateway.Arbiter.Decide.{
  Candidate, candidate, pick, is_estop, is_fresh, is_allowed_stale, won_by, estop_winner,
  fresh_winner, no_sources, no_winner, or_stale, or_fresh, or_estop, cleared, held, decide,
}

module _ {R : Type 0} (ops : WireOps R) (policy : ArbiterPolicy) (now_mono_ns t0_mono_ns : ℕ) where
  -- Nothing is asserted, and what may be published is the held or the default intent, cleared as the policy says,
  -- or the default one where nothing is published.
  pub record IsDegraded (last_good : Option (WireIntent R)) (d : ArbiterDecision R) : Type 0 where
    pub degraded : d.degraded ≡ true
    pub no_stop : d.estop_assert ≡ false
    pub no_clear : d.estop_clear ≡ false
    pub runs_on : d.request_shutdown ≡ false
    pub publishes : d.should_publish ≡ policy.publish_when_no_fresh
    pub payload :
        (policy.publish_when_no_fresh ≡ false)
        ⊎ (d.publish_intent.rest
            ≡ (cleared ops policy now_mono_ns t0_mono_ns
                (held ops policy now_mono_ns t0_mono_ns last_good)).rest)
          × (d.publish_intent.estop
              ≡ (cleared ops policy now_mono_ns t0_mono_ns
                  (held ops policy now_mono_ns t0_mono_ns last_good)).estop)
          × (d.publish_intent.stamp_ns ≡ now_mono_ns)

  no_sources-IsDegraded :
      (last_good : Option (WireIntent R))
      → IsDegraded last_good (no_sources ops policy now_mono_ns t0_mono_ns last_good)
  unfolding no_sources
  no_sources-IsDegraded last_good = record {
    degraded = refl;
    no_stop = refl;
    no_clear = refl;
    runs_on = refl;
    publishes = refl;
    payload = ground arith;
  }

  no_winner-IsDegraded :
      (last_good : Option (WireIntent R))
      → IsDegraded last_good (no_winner ops policy now_mono_ns t0_mono_ns last_good)
  unfolding no_winner
  no_winner-IsDegraded last_good = record {
    degraded = ground arith;
    no_stop = ground arith;
    no_clear = ground arith;
    runs_on = ground arith;
    publishes = ground arith;
    payload = ground arith;
  }

  or_stale-IsDegraded :
      (last_good : Option (WireIntent R)) (o : Option (Candidate R))
      → (or_stale ops policy now_mono_ns t0_mono_ns last_good o).has_winner ≡ false
      → IsDegraded last_good (or_stale ops policy now_mono_ns t0_mono_ns last_good o)
  unfolding won_by
  or_stale-IsDegraded last_good none e = no_winner-IsDegraded last_good
  or_stale-IsDegraded last_good (some c) e = absurd (ground arith)

  or_fresh-IsDegraded :
      (last_good : Option (WireIntent R)) (d : ArbiterDecision R) (o : Option (Candidate R))
      → (d.has_winner ≡ false → IsDegraded last_good d)
      → (or_fresh ops policy now_mono_ns t0_mono_ns d o).has_winner ≡ false
      → IsDegraded last_good (or_fresh ops policy now_mono_ns t0_mono_ns d o)
  unfolding fresh_winner won_by
  or_fresh-IsDegraded last_good d none h e = h e
  or_fresh-IsDegraded last_good d (some c) h e = absurd (ground arith)

  or_estop-IsDegraded :
      (last_good : Option (WireIntent R)) (d : ArbiterDecision R) (o : Option (Candidate R))
      → (d.has_winner ≡ false → IsDegraded last_good d)
      → (or_estop ops policy now_mono_ns t0_mono_ns d o).has_winner ≡ false
      → IsDegraded last_good (or_estop ops policy now_mono_ns t0_mono_ns d o)
  unfolding estop_winner won_by
  or_estop-IsDegraded last_good d none h e = h e
  or_estop-IsDegraded last_good d (some c) h e = absurd (ground arith)

  -- A decision without a winner is degraded: it asserts and clears no stop and asks for no shutdown,
  -- it publishes just if the policy publishes without a fresh winner, and then the rest and the stop
  -- of the last good intent, if that is to be held, or of the default one, cleared if the policy
  -- clears, with the time of the decision.
  pub decide-IsDegraded :
      (samples : List (IntentSample R)) (sps : List SourcePolicy)
      (last_good : Option (WireIntent R))
      → (decide ops policy now_mono_ns t0_mono_ns sps samples last_good).has_winner ≡ false
      → IsDegraded last_good (decide ops policy now_mono_ns t0_mono_ns sps samples last_good)
  unfolding decide
  decide-IsDegraded samples [] last_good e = no_sources-IsDegraded last_good
  decide-IsDegraded samples (sp ∷ sps) last_good e =
      let f = candidate policy samples in
      let at_stale = pick f (is_allowed_stale ops policy now_mono_ns t0_mono_ns) (sp ∷ sps) in
      let at_fresh = pick f (is_fresh ops policy now_mono_ns t0_mono_ns) (sp ∷ sps) in
      let at_estop = pick f (is_estop ops policy now_mono_ns t0_mono_ns) (sp ∷ sps) in
      let d = or_stale ops policy now_mono_ns t0_mono_ns last_good at_stale in
      or_estop-IsDegraded last_good (or_fresh ops policy now_mono_ns t0_mono_ns d at_fresh)
        (if policy.estop_priority then at_estop else none)
        (or_fresh-IsDegraded last_good d at_fresh (or_stale-IsDegraded last_good at_stale)) e
