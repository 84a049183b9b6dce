-- ===== src/Control/Guard/Payload.antt =====
-- The payload of the intent through sections 4 to 7 of the guard's step.
use orange_pi_stm32_for_rov.Prelude.{Bool, true, false, ◌≡◌, ◌∙◌, ap, arith}
use orange_pi_stm32_for_rov.Control.Float.{FloatOps, FloatLaws, IsWithin, clampd-IsWithin}
use orange_pi_stm32_for_rov.Control.Nav.{NavCodes}
use orange_pi_stm32_for_rov.Control.Intent.{ControlIntent, DofCommand, clear_payload}
use orange_pi_stm32_for_rov.Control.Guard.Checks.{ControlGuardConfig, ControlGuard, clamp_teleop}
use orange_pi_stm32_for_rov.Control.Guard.Stages.{
  Tick, Work, estop_stage, arm_stage, strip_unarmed, drop_if_stale,
}
use orange_pi_stm32_for_rov.Control.Guard.Gating.{
  clear_motor_test, start_motor_test, choose_motor_test, exclude_others, motor_test_stage,
  request_mode, leave_auto, note_gating,
}
use orange_pi_stm32_for_rov.Control.Guard.Step.{begin, stale_input, arbitrate}
use orange_pi_stm32_for_rov.Control.Guard.Settle.{settle}
use orange_pi_stm32_for_rov.Control.Guard.Keeps.{safety-strip_unarmed}

module _ {D : Type 0} where
  -- No part of the intent moves the vehicle.
  pub record IsInert (i : ControlIntent D) : Type 0 where
    pub no_dof : i.has_teleop_dof ≡ false
    pub no_ref : i.has_ref ≡ false
    pub no_ref_delta : i.has_ref_delta ≡ false
    pub no_test : i.has_motor_test ≡ false

  -- Nothing but a motor test.
  pub record IsExclusive (i : ControlIntent D) : Type 0 where
    pub no_dof : i.has_teleop_dof ≡ false
    pub no_ref : i.has_ref ≡ false
    pub no_ref_delta : i.has_ref_delta ≡ false
    pub no_mode : i.has_mode_request ≡ false

-- Each axis within the configured limits.
pub record IsWithinAll {D : Type 0} (F : FloatOps D) (cfg : ControlGuardConfig D) (c : DofCommand D)
    : Type 0 where
  pub surge : IsWithin F cfg.teleop_dof_min cfg.teleop_dof_max c.surge
  pub sway : IsWithin F cfg.teleop_dof_min cfg.teleop_dof_max c.sway
  pub heave : IsWithin F cfg.teleop_dof_min cfg.teleop_dof_max c.heave
  pub roll : IsWithin F cfg.teleop_dof_min cfg.teleop_dof_max c.roll
  pub pitch : IsWithin F cfg.teleop_dof_min cfg.teleop_dof_max c.pitch
  pub yaw : IsWithin F cfg.teleop_dof_min cfg.teleop_dof_max c.yaw

module _ {D : Type 0} (F : FloatOps D) (k : NavCodes) (cfg : ControlGuardConfig D) where
  eff-request_mode : (t : Tick D) (w : Work D) → (request_mode F k cfg t w).eff ≡ w.eff
  unfolding request_mode
  eff-request_mode t w = ground arith

  eff-leave_auto : (t : Tick D) (w : Work D) → (leave_auto F k cfg t w).eff ≡ w.eff
  unfolding leave_auto
  eff-leave_auto t w = ground arith

  eff-note_gating : (t : Tick D) (w : Work D) → (note_gating F k cfg t w).eff ≡ w.eff
  unfolding note_gating
  eff-note_gating t w = ground arith

  -- The working state before the motor test.
  abbrev pub before_test : Tick D → ControlGuard D → Work D
  before_test t g =
      strip_unarmed F k cfg (arm_stage F k cfg (estop_stage F k cfg t (begin F k cfg t g)))

  pub eff-arbitrate :
      (t : Tick D) (g : ControlGuard D)
      → (arbitrate F k cfg t g).eff
        ≡ (motor_test_stage F k cfg (stale_input F k cfg t g) t (before_test t g)).eff
  unfolding arbitrate
  eff-arbitrate t g = eff-note_gating t _ ∙ eff-leave_auto t _ ∙ eff-request_mode t _

  pub strip_unarmed-inert :
      (w : Work D)
      → w.guard.armed ≡ false
      → let i = (strip_unarmed F k cfg w).eff in
        (i.has_teleop_dof ≡ false) × (i.has_ref ≡ false) × (i.has_ref_delta ≡ false)
  unfolding strip_unarmed
  strip_unarmed-inert w h = ground arith

  pub motor_test_stage-IsInert :
      (stale : Bool) (t : Tick D) (w : Work D)
      → w.guard.armed ≡ false
      → w.eff.has_teleop_dof ≡ false
      → w.eff.has_ref ≡ false
      → w.eff.has_ref_delta ≡ false
      → IsInert (motor_test_stage F k cfg stale t w).eff
  unfolding motor_test_stage choose_motor_test exclude_others clear_motor_test
  motor_test_stage-IsInert stale t w a d r e = ground arith

  pub motor_test_stage-IsExclusive :
      (stale : Bool) (t : Tick D) (w : Work D)
      → (motor_test_stage F k cfg stale t w).eff.has_motor_test ≡ true
      → (w.guard.armed ≡ true)
        × (w.guard.estop_latched ≡ false)
        × IsExclusive (motor_test_stage F k cfg stale t w).eff
  unfolding motor_test_stage choose_motor_test exclude_others clear_motor_test start_motor_test
  motor_test_stage-IsExclusive stale t w h = ground arith

  pub clamp_teleop-flags :
      (i : ControlIntent D)
      → let j = clamp_teleop F cfg i in
        (j.has_teleop_dof ≡ i.has_teleop_dof)
        × (j.has_ref ≡ i.has_ref)
        × (j.has_ref_delta ≡ i.has_ref_delta)
        × (j.has_motor_test ≡ i.has_motor_test)
        × (j.has_mode_request ≡ i.has_mode_request)
        × (j.motor_test ≡ i.motor_test)
  unfolding clamp_teleop
  clamp_teleop-flags i = ground arith

  pub armed-before_test :
      (t : Tick D) (g : ControlGuard D) → (before_test t g).guard.armed ≡ (settle F k cfg t g).armed
  armed-before_test t g = ap (λ s. s.armed) (safety-strip_unarmed F k cfg _)

  begin-stale :
      (t : Tick D) (g : ControlGuard D)
      → stale_input F k cfg t g ≡ true
      → IsExclusive (begin F k cfg t g).eff
  unfolding begin drop_if_stale clear_payload
  begin-stale t g h = ground arith

  estop_stage-IsExclusive :
      (t : Tick D) (w : Work D) → IsExclusive w.eff → IsExclusive (estop_stage F k cfg t w).eff
  unfolding estop_stage
  estop_stage-IsExclusive t w h = ground arith

  arm_strip-IsExclusive :
      (w : Work D)
      → IsExclusive w.eff
      → IsExclusive (strip_unarmed F k cfg (arm_stage F k cfg w)).eff
  unfolding arm_stage strip_unarmed
  arm_strip-IsExclusive w h = ground arith

  motor_test_stage-IsExclusive' :
      (stale : Bool) (t : Tick D) (w : Work D)
      → IsExclusive w.eff
      → IsExclusive (motor_test_stage F k cfg stale t w).eff
  unfolding motor_test_stage choose_motor_test exclude_others clear_motor_test start_motor_test
  motor_test_stage-IsExclusive' stale t w h = ground arith

  -- A stale intent leaves nothing for sections 3 to 7 but a motor test that runs.
  pub stage_stale-IsExclusive :
      (t : Tick D) (g : ControlGuard D)
      → stale_input F k cfg t g ≡ true
      → IsExclusive (motor_test_stage F k cfg (stale_input F k cfg t g) t (before_test t g)).eff
  stage_stale-IsExclusive t g h =
      motor_test_stage-IsExclusive' _ t _
        (arm_strip-IsExclusive _ (estop_stage-IsExclusive t _ (begin-stale t g h)))

  pub clamp_teleop-IsWithinAll :
      FloatLaws F
      → F.lt cfg.teleop_dof_min cfg.teleop_dof_max ≡ true
      → (i : ControlIntent D) → i.has_teleop_dof ≡ true
      → IsWithinAll F cfg (clamp_teleop F cfg i).teleop_dof_cmd
  unfolding clamp_teleop
  clamp_teleop-IsWithinAll laws h i e =
      let within = λ (v : D). clampd-IsWithin F laws v cfg.teleop_dof_min cfg.teleop_dof_max h in
      let c = i.teleop_dof_cmd in
      rw e (record {
        surge = within c.surge;
        sway = within c.sway;
        heave = within c.heave;
        roll = within c.roll;
        pitch = within c.pitch;
        yaw = within c.yaw;
      })
