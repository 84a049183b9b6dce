-- ===== src/Control/Guard/Settle.antt =====
-- Sections 1 to 4 of the guard's step: how the safety members are settled.
use orange_pi_stm32_for_rov.Prelude.{
  ◌-◌, ◌*◌, ◌≤◌, ◌<◌, true, false, not, ◌&&◌, ◌≡◌, ◌∙◌, ap, arith, ◌⊎◌, ns_per_ms,
}
use orange_pi_stm32_for_rov.Control.Float.{FloatOps}
use orange_pi_stm32_for_rov.Control.Nav.{NavCodes}
use orange_pi_stm32_for_rov.Control.Intent.{clear_payload}
use orange_pi_stm32_for_rov.Control.Guard.Checks.{
  ControlGuardConfig, ControlGuard, should_emit_reject, is_neutral_for_clear,
}
use orange_pi_stm32_for_rov.Control.Guard.Stages.{
  Tick, safety, estop_stage, arm_stage, note_age, note_input, drop_if_stale, hold_clear,
  release_if_held, hold_threshold_ms,
}
use orange_pi_stm32_for_rov.Control.Guard.Step.{begin, stale_input, step}
use orange_pi_stm32_for_rov.Control.Guard.Keeps.{safety-arbitrate, safety-note_failsafe}

module _ {D : Type 0} (F : FloatOps D) (k : NavCodes) (cfg : ControlGuardConfig D) where
  -- Sections 1 to 4, alone.
  abbrev pub settle : Tick D → ControlGuard D → ControlGuard D
  settle t g = (arm_stage F k cfg (estop_stage F k cfg t (begin F k cfg t g))).guard

  pub safety-step :
      (t : Tick D) (g : ControlGuard D) → safety (step F k cfg t g).guard ≡ safety (settle t g)
  unfolding step
  safety-step t g = safety-note_failsafe F k cfg _ t _ _ ∙ safety-arbitrate F k cfg t g

  -- The result repeats the members.
  pub safety-result :
      (t : Tick D) (g : ControlGuard D)
      → ((step F k cfg t g).result.armed ≡ (settle t g).armed)
        × ((step F k cfg t g).result.estop_latched ≡ (settle t g).estop_latched)
  unfolding step
  safety-result t g =
      let e = safety-arbitrate F k cfg t g in (ap (λ s. s.armed) e, ap (λ s. s.estop_latched) e)

  -- Between steps an unfinished hold is shorter than the threshold.
  abbrev pub HoldInv : ControlGuard D → Type 0
  HoldInv g = g.clear_hold_ms < hold_threshold_ms cfg

  pub settle-HoldInv : (t : Tick D) (g : ControlGuard D) → HoldInv g → HoldInv (settle t g)
  unfolding estop_stage arm_stage begin note_age note_input hold_clear release_if_held
      should_emit_reject
  settle-HoldInv t g h = ground arith

  -- The conditions under which a tick releases the emergency stop.
  pub record IsRelease (t : Tick D) (g : ControlGuard D) : Type 0 where
    pub fresh : stale_input F k cfg t g ≡ false
    pub not_pressed : t.intent.estop ≡ false
    pub asked : t.intent.clear_estop ≡ true
    pub neutral : is_neutral_for_clear F t.intent.teleop_dof_cmd ≡ true
    pub started : 0 < g.clear_hold_start_ns
    pub held : hold_threshold_ms cfg * ns_per_ms ≤ t.now_ns - g.clear_hold_start_ns

  pub settle-IsRelease :
      (t : Tick D) (g : ControlGuard D)
      → HoldInv g
      → g.estop_latched ≡ true
      → (settle t g).estop_latched ≡ false
      → IsRelease t g
  unfolding estop_stage arm_stage begin note_age note_input drop_if_stale clear_payload hold_clear
      release_if_held should_emit_reject
  settle-IsRelease t g h l r = ground arith

  pub settle_pressed :
      (t : Tick D) (g : ControlGuard D)
      → stale_input F k cfg t g ≡ false
      → t.intent.estop ≡ true
      → ((settle t g).estop_latched ≡ true) × ((settle t g).armed ≡ false)
  unfolding estop_stage arm_stage begin note_age note_input drop_if_stale
  settle_pressed t g f e = ground arith

  pub settle_arming :
      (t : Tick D) (g : ControlGuard D)
      → g.armed ≡ false
      → (settle t g).armed ≡ true
      → (stale_input F k cfg t g ≡ false)
        × ((settle t g).estop_latched ≡ false)
        × (t.intent.has_arm_cmd ≡ true)
        × (t.intent.arm ≡ true)
        × (t.intent.disarm ≡ false)
  unfolding estop_stage arm_stage begin note_age note_input drop_if_stale clear_payload hold_clear
      release_if_held should_emit_reject
  settle_arming t g a b = ground arith

  pub settle_latched_disarms :
      (t : Tick D) (g : ControlGuard D)
      → (settle t g).estop_latched ≡ true
      → (settle t g).armed ≡ false
  unfolding arm_stage
  settle_latched_disarms t g l = ground arith

  -- A hold is dropped, kept, or begins now.
  pub settle-hold_start :
      (t : Tick D) (g : ControlGuard D)
      → ((settle t g).clear_hold_start_ns ≡ 0)
        ⊎ (((settle t g).clear_hold_start_ns ≡ g.clear_hold_start_ns)
            ⊎ ((settle t g).clear_hold_start_ns ≡ t.now_ns))
  unfolding estop_stage arm_stage begin note_age note_input hold_clear release_if_held
      should_emit_reject
  settle-hold_start t g = ground arith

  pub settle_stale :
      (t : Tick D) (g : ControlGuard D)
      → stale_input F k cfg t g ≡ true
      → ((settle t g).estop_latched ≡ g.estop_latched)
        × ((settle t g).armed ≡ (g.armed && not g.estop_latched))
  unfolding estop_stage arm_stage begin note_age note_input drop_if_stale clear_payload
  settle_stale t g h = ground arith
