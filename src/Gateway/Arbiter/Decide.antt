-- ===== src/Gateway/Arbiter/Decide.antt =====
-- IntentArbiter::decide, pass by pass.
use orange_pi_stm32_for_rov.Prelude.{
  ℕ, ◌+◌, ◌-◌, ◌*◌, ◌/◌, ◌^◌, Bool, true, false, not, ◌&&◌, String, Option, none, some, List, [],
  ◌∷◌, ltb, leb, ◌==◌, if◌then◌else◌, u64, ns_per_ms,
}
use orange_pi_stm32_for_rov.Gateway.Arbiter.Types.{
  WireIntent, WireOps, SourceId, unknown, source_value, IntentSample, SourcePolicy, ArbiterPolicy,
  ArbiterDecision,
}

-- A difference of uint64, which wraps where the first number is the smaller one.
abbrev pub sub_u64 : ℕ → ℕ → ℕ
sub_u64 a b = u64 (a + 2 ^ 64 - b)

-- A source, its sample and the intent in it.
pub record Candidate (R : Type 0) : Type 0 where
  pub sp : SourcePolicy
  pub smp : IntentSample R
  pub it : WireIntent R

module _ {R : Type 0} where
  unfoldable pub age_ms : (now_mono_ns : ℕ) → IntentSample R → ℕ
  age_ms now_mono_ns smp =
      if smp.pub_mono_ns == 0 then 2 ^ 64 - 1 else sub_u64 now_mono_ns smp.pub_mono_ns / ns_per_ms

  unfoldable pub is_stale : SourcePolicy → (now_mono_ns t0_mono_ns : ℕ) → IntentSample R → Bool
  is_stale sp now_mono_ns t0_mono_ns smp =
      if smp.pub_mono_ns == 0
      then true
      else if ltb (sub_u64 now_mono_ns t0_mono_ns / ns_per_ms) sp.warmup_ms
      then false
      else ltb sp.max_age_ms (age_ms now_mono_ns smp)

  -- The sample has the intent; without one the code answers true here, and never asks.
  unfoldable pub is_expired_payload : ArbiterPolicy → SourcePolicy → ℕ → WireIntent R → Bool
  is_expired_payload policy sp now_mono_ns it =
      let ttl_ms = if not (it.ttl_ms == 0) then it.ttl_ms else sp.default_ttl_ms in
      if not policy.enable_payload_ttl
      then false
      else if it.stamp_ns == 0
      then policy.stamp0_is_expired
      else if ttl_ms == 0
      then false
      else leb (u64 (it.stamp_ns + ttl_ms * ns_per_ms)) now_mono_ns

  unfoldable pub find_sample : SourceId → List (IntentSample R) → Option (IntentSample R)
  find_sample src [] = none
  find_sample src (s ∷ ss) =
      let rest = find_sample src ss in
      if source_value s.src == source_value src then some s else rest

  abbrev pub with_intent :
      SourcePolicy → IntentSample R → Option (WireIntent R) → Option (Candidate R)
  with_intent sp smp none = none
  with_intent sp smp (some it) = some (record { sp = sp; smp = smp; it = it })

  abbrev pub with_sample :
      ArbiterPolicy → SourcePolicy → Option (IntentSample R) → Option (Candidate R)
  with_sample policy sp none = none
  with_sample policy sp (some smp) =
      if policy.require_initialized && not smp.subscriber_initialized
      then none
      else with_intent sp smp smp.intent

  -- What every pass asks of a source first: it is enabled and has an intent.
  unfoldable pub candidate :
      ArbiterPolicy → List (IntentSample R) → SourcePolicy → Option (Candidate R)
  candidate policy samples sp =
      if not sp.enable then none else with_sample policy sp (find_sample sp.src samples)

  abbrev pub pick_one :
      (Candidate R → Bool) → Option (Candidate R) → Option (Candidate R) → Option (Candidate R)
  pick_one test none rest = rest
  pick_one test (some c) rest = if test c then some c else rest

  -- The loop of a pass: the first source whose candidate passes the test.
  unfoldable pub pick :
      (SourcePolicy → Option (Candidate R))
      → (Candidate R → Bool)
      → List SourcePolicy
      → Option (Candidate R)
  pick f test [] = none
  pick f test (sp ∷ sps) = pick_one test (f sp) (pick f test sps)

module _ {R : Type 0} (ops : WireOps R) (policy : ArbiterPolicy) (now_mono_ns t0_mono_ns : ℕ) where
  abbrev pub stamped : WireIntent R → WireIntent R
  stamped it = record it { stamp_ns = now_mono_ns }

  abbrev pub expired : Candidate R → Bool
  expired c = is_expired_payload policy c.sp now_mono_ns c.it

  abbrev pub stale : Candidate R → Bool
  stale c = is_stale c.sp now_mono_ns t0_mono_ns c.smp

  abbrev pub is_estop : Candidate R → Bool
  is_estop c = not (c.it.estop == 0) && not (expired c)

  abbrev pub is_fresh : Candidate R → Bool
  is_fresh c = not (expired c) && not (stale c)

  abbrev pub is_allowed_stale : Candidate R → Bool
  is_allowed_stale c = c.sp.allow_stale && not (expired c) && stale c

  -- The fields that every winner sets.
  unfoldable pub won_by : Candidate R → Bool → String → ArbiterDecision R
  won_by c degraded reason = record {
    has_winner = true;
    winner = c.sp.src;
    winner_sample = some c.smp;
    degraded = degraded;
    winner_age_ms = age_ms now_mono_ns c.smp;
    reason = reason;
    estop_assert = false;
    estop_clear = c.it.has_estop_cmd && not (c.it.clear_estop == 0);
    should_publish = true;
    publish_intent = stamped c.it;
    request_shutdown = false;
  }

  unfoldable pub estop_winner : Candidate R → ArbiterDecision R
  unfolding won_by
  estop_winner c =
      record (won_by c (stale c)
        (if stale c then "estop winner (stale)" else "estop winner (fresh)")) {
          estop_assert = true;
          estop_clear = false;
        }

  -- A request to exit from the local source also stops the vehicle and the gateway.
  unfoldable pub fresh_winner : Candidate R → ArbiterDecision R
  unfolding won_by
  fresh_winner c =
      let d = won_by c false "fresh winner" in
      if source_value c.sp.src == 1 && (c.it.has_exit_request && not (c.it.request_exit == 0))
      then record d {
        request_shutdown = true;
        publish_intent = record d.publish_intent { estop = 1; has_estop_cmd = true };
      }
      else d

  abbrev pub cleared : WireIntent R → WireIntent R
  cleared it = if policy.clear_payload_on_degrade then ops.clear_payload it else it

  abbrev pub held : Option (WireIntent R) → WireIntent R
  held none = ops.default_intent
  held (some it) = if policy.hold_last_good_on_degrade then it else ops.default_intent

  abbrev pub held_reason : Option (WireIntent R) → String
  held_reason none = "degraded publish: cleared"
  held_reason (some it) =
      if policy.hold_last_good_on_degrade
      then "degraded publish: hold_last_good"
      else "degraded publish: cleared"

  abbrev pub without_winner : String → WireIntent R → ArbiterDecision R
  without_winner reason it = record {
    has_winner = false;
    winner = unknown;
    winner_sample = none;
    degraded = true;
    winner_age_ms = 0;
    reason = reason;
    estop_assert = false;
    estop_clear = false;
    should_publish = policy.publish_when_no_fresh;
    publish_intent = it;
    request_shutdown = false;
  }

  -- No source is configured.
  unfoldable pub no_sources : Option (WireIntent R) → ArbiterDecision R
  no_sources last_good = without_winner "no source policy configured" (
      stamped
        (cleared (if policy.publish_when_no_fresh then held last_good else ops.default_intent)))

  -- Pass 3. The code between passes 2 and 3 runs only with a winner, which there is none of.
  unfoldable pub no_winner : Option (WireIntent R) → ArbiterDecision R
  no_winner last_good =
      if not policy.publish_when_no_fresh
      then without_winner "no eligible winner" ops.default_intent
      else without_winner (held_reason last_good) (record (stamped (cleared (held last_good))) {
        source_id = ops.source_unknown;
        source_prio = 0;
      })

  abbrev pub or_stale : Option (WireIntent R) → Option (Candidate R) → ArbiterDecision R
  or_stale last_good none = no_winner last_good
  or_stale last_good (some c) = won_by c true "stale winner (allow_stale)"

  abbrev pub or_fresh : ArbiterDecision R → Option (Candidate R) → ArbiterDecision R
  or_fresh d none = d
  or_fresh d (some c) = fresh_winner c

  abbrev pub or_estop : ArbiterDecision R → Option (Candidate R) → ArbiterDecision R
  or_estop d none = d
  or_estop d (some c) = estop_winner c

  unfoldable pub decide :
      List SourcePolicy → List (IntentSample R) → Option (WireIntent R) → ArbiterDecision R
  decide [] samples last_good = no_sources last_good
  decide (sp ∷ sps) samples last_good =
      let sources = sp ∷ sps in
      let f = candidate policy samples in
      or_estop
        (or_fresh (or_stale last_good (pick f is_allowed_stale sources)) (pick f is_fresh sources))
        (if policy.estop_priority then pick f is_estop sources else none)
