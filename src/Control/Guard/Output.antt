-- ===== src/Control/Guard/Output.antt =====
-- What the guard lets through to the controllers.
use orange_pi_stm32_for_rov.Prelude.{true, false, ◌≡◌, ◌∙◌, sym, ap, arith}
use orange_pi_stm32_for_rov.Control.Float.{FloatOps}
use orange_pi_stm32_for_rov.Control.Nav.{NavCodes}
use orange_pi_stm32_for_rov.Control.Guard.Checks.{ControlGuardConfig, ControlGuard}
use orange_pi_stm32_for_rov.Control.Guard.Stages.{Tick, estop_stage, arm_stage}
use orange_pi_stm32_for_rov.Control.Guard.Gating.{motor_test_stage}
use orange_pi_stm32_for_rov.Control.Guard.Step.{begin, stale_input, arbitrate, step}
use orange_pi_stm32_for_rov.Control.Guard.Settle.{settle, safety-result}
use orange_pi_stm32_for_rov.Control.Guard.Payload.{
  IsInert, IsExclusive, before_test, eff-arbitrate, strip_unarmed-inert, motor_test_stage-IsInert,
  motor_test_stage-IsExclusive, clamp_teleop-flags, armed-before_test,
}
use orange_pi_stm32_for_rov.Control.Guard.Keeps.{safety-strip_unarmed}

module _ {D : Type 0} (F : FloatOps D) (k : NavCodes) (cfg : ControlGuardConfig D) where
  pub eff-step-flags :
      (t : Tick D) (g : ControlGuard D)
      → let i = (step F k cfg t g).result.effective_intent in
        let j =
          (motor_test_stage F k cfg (stale_input F k cfg t g) t (before_test F k cfg t g)).eff in
        (i.has_teleop_dof ≡ j.has_teleop_dof)
        × (i.has_ref ≡ j.has_ref)
        × (i.has_ref_delta ≡ j.has_ref_delta)
        × (i.has_motor_test ≡ j.has_motor_test)
        × (i.has_mode_request ≡ j.has_mode_request)
        × (i.motor_test ≡ j.motor_test)
  unfolding step
  eff-step-flags t g =
      rw (← eff-arbitrate F k cfg t g) (clamp_teleop-flags F k cfg (arbitrate F k cfg t g).eff)

  -- While the vehicle is not armed, the effective intent carries no DOF command, no reference, no
  -- reference increment and no motor test, whatever the input says.
  pub unarmed-IsInert :
      (t : Tick D) (g : ControlGuard D)
      → (step F k cfg t g).result.armed ≡ false
      → IsInert (step F k cfg t g).result.effective_intent
  unarmed-IsInert t g h =
      let a : (settle F k cfg t g).armed ≡ false = sym (safety-result F k cfg t g).0 ∙ h in
      let b : (before_test F k cfg t g).guard.armed ≡ false = armed-before_test F k cfg t g ∙ a in
      let (d, r, e) = strip_unarmed-inert F k cfg _ a in
      let inert =
        motor_test_stage-IsInert F k cfg (stale_input F k cfg t g) t (before_test F k cfg t g) b d r
          e in
      ground (arith, inert, eff-step-flags t g)

  -- A motor test reaches the output only while armed and not stopped, and then alone: without DOF
  -- command, reference, reference increment or mode request.
  pub motor_test-IsExclusive :
      (t : Tick D) (g : ControlGuard D)
      → (step F k cfg t g).result.effective_intent.has_motor_test ≡ true
      → ((step F k cfg t g).result.armed ≡ true)
        × ((step F k cfg t g).result.estop_latched ≡ false)
        × IsExclusive (step F k cfg t g).result.effective_intent
  motor_test-IsExclusive t g h =
      let stale = stale_input F k cfg t g in
      let w = before_test F k cfg t g in
      let on : (motor_test_stage F k cfg stale t w).eff.has_motor_test ≡ true =
        sym (eff-step-flags t g).3 ∙ h in
      let (a, l, x) = motor_test_stage-IsExclusive F k cfg stale t w on in
      let s =
        safety-strip_unarmed F k cfg
          (arm_stage F k cfg (estop_stage F k cfg t (begin F k cfg t g))) in
      let r = safety-result F k cfg t g in
      (
        r.0 ∙ sym (ap (λ v. v.armed) s) ∙ a,
        r.1 ∙ sym (ap (λ v. v.estop_latched) s) ∙ l,
        ground (arith, x, eff-step-flags t g),
      )
