-- ===== src/Control/Guard/Estop.antt =====
-- The emergency stop of the guard: what latches it, what releases it, and for how long it holds.
use orange_pi_stm32_for_rov.Prelude.{
  ℕ, ◌+◌, ◌*◌, ◌≤◌, ◌<◌, true, false, ◌≡◌, ◌∙◌, sym, ap, arith, ◌⊎◌, inl, inr, List, [], ◌∷◌,
  ns_per_ms, Bool-cases,
}
use orange_pi_stm32_for_rov.Control.Float.{FloatOps}
use orange_pi_stm32_for_rov.Control.Nav.{NavCodes}
use orange_pi_stm32_for_rov.Control.Guard.Checks.{
  ControlGuardConfig, ControlGuard, fs_emergency_stop,
}
use orange_pi_stm32_for_rov.Control.Guard.Stages.{Tick, hold_threshold_ms}
use orange_pi_stm32_for_rov.Control.Guard.Step.{stale_input, decide_failsafe, step, run}
use orange_pi_stm32_for_rov.Control.Guard.Settle.{
  safety-step, safety-result, HoldInv, settle-HoldInv, settle-hold_start, IsRelease,
  settle-IsRelease, settle_pressed, settle_arming,
}
use orange_pi_stm32_for_rov.Control.Guard.Payload.{IsInert}
use orange_pi_stm32_for_rov.Control.Guard.Output.{unarmed-IsInert}

module _ {D : Type 0} (F : FloatOps D) (k : NavCodes) (cfg : ControlGuardConfig D) where
  failsafe_latched :
      (t : Tick D) (g : ControlGuard D)
      → (step F k cfg t g).result.estop_latched ≡ true
      → (step F k cfg t g).result.failsafe ≡ fs_emergency_stop
  unfolding step decide_failsafe
  failsafe_latched t g h = rw h

  -- A fresh intent with the emergency stop pressed latches it, disarms, and demands an emergency
  -- stop of the output, with nothing in the intent that moves the vehicle.
  pub estop_dominates :
      (t : Tick D) (g : ControlGuard D)
      → stale_input F k cfg t g ≡ false
      → t.intent.estop ≡ true
      → ((step F k cfg t g).result.estop_latched ≡ true)
        × ((step F k cfg t g).result.armed ≡ false)
        × ((step F k cfg t g).result.failsafe ≡ fs_emergency_stop)
        × IsInert (step F k cfg t g).result.effective_intent
  estop_dominates t g f e =
      let (l, a) = settle_pressed F k cfg t g f e in
      let (ra, rl) = safety-result F k cfg t g in
      (rl ∙ l, ra ∙ a, failsafe_latched t g (rl ∙ l), unarmed-IsInert F k cfg t g (ra ∙ a))

  -- A latched emergency stop is released by one kind of tick only: a fresh intent that asks for the
  -- release, does not press the stop, has all six axes neutral, and comes at least the configured
  -- time (2000 ms by default) after the hold began. The guard's hold is unfinished before the tick.
  pub step-IsRelease :
      (t : Tick D) (g : ControlGuard D)
      → HoldInv F k cfg g
      → g.estop_latched ≡ true
      → (step F k cfg t g).guard.estop_latched ≡ false
      → IsRelease F k cfg t g
  step-IsRelease t g h l r =
      settle-IsRelease F k cfg t g h l
        (sym (ap (λ s. s.estop_latched) (safety-step F k cfg t g)) ∙ r)

  step-HoldInv :
      (t : Tick D) (g : ControlGuard D)
      → HoldInv F k cfg g
      → HoldInv F k cfg (step F k cfg t g).guard
  step-HoldInv t g h =
      rw (ap (λ s. s.clear_hold_ms) (safety-step F k cfg t g)) (settle-HoldInv F k cfg t g h)

  -- Latched, with no hold begun before `t0`.
  pub record LatchedSince (t0 : ℕ) (g : ControlGuard D) : Type 0 where
    pub latched : g.estop_latched ≡ true
    pub hold_after : (g.clear_hold_start_ns ≡ 0) ⊎ (t0 ≤ g.clear_hold_start_ns)
    pub unfinished : HoldInv F k cfg g

  -- Every tick is stamped from `t0` on, and before `stop`.
  abbrev pub Within : ℕ → ℕ → List (Tick D) → Type 0
  Within t0 stop [] = Unit {0}
  Within t0 stop (t ∷ ts) = (t0 ≤ t.now_ns) × (t.now_ns < stop) × Within t0 stop ts

  step-latched :
      (t0 : ℕ) (t : Tick D) (g : ControlGuard D)
      → t.now_ns < t0 + hold_threshold_ms cfg * ns_per_ms
      → LatchedSince t0 g
      → (step F k cfg t g).guard.estop_latched ≡ true
  step-latched t0 t g before s = elim (Bool-cases (step F k cfg t g).guard.estop_latched) [
    | inl e ↦ e
    | inr e ↦ absurd (ground (arith, step-IsRelease t g s.unfinished s.latched e, s.hold_after))
  ]

  step-hold_after :
      (t0 : ℕ) (t : Tick D) (g : ControlGuard D)
      → t0 ≤ t.now_ns
      → LatchedSince t0 g
      → ((step F k cfg t g).guard.clear_hold_start_ns ≡ 0)
        ⊎ (t0 ≤ (step F k cfg t g).guard.clear_hold_start_ns)
  step-hold_after t0 t g after s =
      rw (ap (λ s. s.clear_hold_start_ns) (safety-step F k cfg t g))
        (ground (arith, settle-hold_start F k cfg t g, s.hold_after))

  step-LatchedSince :
      (t0 : ℕ) (t : Tick D) (g : ControlGuard D)
      → t0 ≤ t.now_ns
      → t.now_ns < t0 + hold_threshold_ms cfg * ns_per_ms
      → LatchedSince t0 g
      → LatchedSince t0 (step F k cfg t g).guard
  step-LatchedSince t0 t g after before s = record {
    latched = step-latched t0 t g before s;
    hold_after = step-hold_after t0 t g after s;
    unfinished = step-HoldInv t g s.unfinished;
  }

  -- No input whatever releases the emergency stop early: from a guard that is latched and whose
  -- hold has not begun before `t0`, every history of ticks stamped in the `hold_threshold_ms`
  -- milliseconds from `t0` on leaves it latched.
  pub estop_holds :
      (t0 : ℕ) (ts : List (Tick D)) (g : ControlGuard D)
      → LatchedSince t0 g
      → Within t0 (t0 + hold_threshold_ms cfg * ns_per_ms) ts
      → (run F k cfg ts g).estop_latched ≡ true
  unfolding run
  estop_holds t0 [] g s b = s.latched
  estop_holds t0 (t ∷ ts) g s (after, before, rest) =
      estop_holds t0 ts (step F k cfg t g).guard (step-LatchedSince t0 t g after before s) rest

  -- The guard becomes armed only by a fresh intent that says arm and not disarm, while no emergency
  -- stop is latched.
  pub arming_needs :
      (t : Tick D) (g : ControlGuard D)
      → g.armed ≡ false
      → (step F k cfg t g).result.armed ≡ true
      → (stale_input F k cfg t g ≡ false)
        × ((step F k cfg t g).result.estop_latched ≡ false)
        × (t.intent.has_arm_cmd ≡ true)
        × (t.intent.arm ≡ true)
        × (t.intent.disarm ≡ false)
  arming_needs t g a b =
      let (ra, rl) = safety-result F k cfg t g in
      let (f, l, c, p, q) = settle_arming F k cfg t g a (sym ra ∙ b) in (f, rl ∙ l, c, p, q)
