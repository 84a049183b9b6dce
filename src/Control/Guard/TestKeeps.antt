-- ===== src/Control/Guard/TestKeeps.antt =====
-- The members of the motor test, through the sections that do not concern it.
use orange_pi_stm32_for_rov.Prelude.{ℕ, Bool, true, false, ◌&&◌, ◌≡◌, ◌∙◌, arith, ◌⊎◌}
use orange_pi_stm32_for_rov.Control.Float.{FloatOps}
use orange_pi_stm32_for_rov.Control.Nav.{NavCodes}
use orange_pi_stm32_for_rov.Control.Intent.{ControlIntent, MotorTestCmd, clear_payload}
use orange_pi_stm32_for_rov.Control.Guard.Checks.{
  ControlGuardConfig, ControlGuard, should_emit_reject, FailsafeAction,
}
use orange_pi_stm32_for_rov.Control.Guard.Stages.{
  Tick, Work, estop_stage, arm_stage, strip_unarmed, note_age, note_input, drop_if_stale,
  hold_clear, release_if_held,
}
use orange_pi_stm32_for_rov.Control.Guard.Gating.{
  choose_motor_test, exclude_others, motor_test_stage, request_mode, leave_auto, note_gating,
}
use orange_pi_stm32_for_rov.Control.Guard.Step.{begin, stale_input, arbitrate, note_failsafe, step}
use orange_pi_stm32_for_rov.Control.Guard.Payload.{before_test}

pub record Testing (D : Type 0) : Type 0 where
  pub active : Bool
  pub deadline : ℕ
  pub latched : MotorTestCmd D

abbrev pub testing : {D : Type 0} → ControlGuard D → Testing D
testing g = record {
  active = g.motor_test_active;
  deadline = g.motor_test_deadline_ns;
  latched = g.latched_motor_test;
}

-- The tick commands a motor test.
abbrev pub commands_test : {D : Type 0} → ControlIntent D → Bool
commands_test i = i.has_motor_test && i.motor_test.enable

module _ {D : Type 0} (F : FloatOps D) (k : NavCodes) (cfg : ControlGuardConfig D) where
  testing-begin : (t : Tick D) (g : ControlGuard D) → testing (begin F k cfg t g).guard ≡ testing g
  unfolding begin note_age note_input
  testing-begin t g = ground arith

  testing-estop_stage :
      (t : Tick D) (w : Work D) → testing (estop_stage F k cfg t w).guard ≡ testing w.guard
  unfolding estop_stage hold_clear release_if_held should_emit_reject
  testing-estop_stage t w = ground arith

  testing-arm_strip :
      (w : Work D) → testing (strip_unarmed F k cfg (arm_stage F k cfg w)).guard ≡ testing w.guard
  unfolding arm_stage strip_unarmed
  testing-arm_strip w = ground arith

  pub testing-before_test :
      (t : Tick D) (g : ControlGuard D) → testing (before_test F k cfg t g).guard ≡ testing g
  testing-before_test t g = testing-arm_strip _ ∙ testing-estop_stage t _ ∙ testing-begin t g

  testing-request_mode :
      (t : Tick D) (w : Work D) → testing (request_mode F k cfg t w).guard ≡ testing w.guard
  unfolding request_mode should_emit_reject
  testing-request_mode t w = ground arith

  testing-leave_gating :
      (t : Tick D) (w : Work D)
      → testing (note_gating F k cfg t (leave_auto F k cfg t w)).guard ≡ testing w.guard
  unfolding leave_auto note_gating
  testing-leave_gating t w = ground arith

  testing-note_failsafe :
      (stale : Bool) (t : Tick D) (fs : FailsafeAction) (w : Work D)
      → testing (note_failsafe F k cfg stale t fs w).guard ≡ testing w.guard
  unfolding note_failsafe
  testing-note_failsafe stale t fs w = ground arith

  testing-exclude_others : (w : Work D) → testing (exclude_others F k cfg w).guard ≡ testing w.guard
  unfolding exclude_others
  testing-exclude_others w = ground arith

  pub testing-step :
      (t : Tick D) (g : ControlGuard D)
      → testing (step F k cfg t g).guard
        ≡ testing
            (choose_motor_test F k cfg (stale_input F k cfg t g) t (before_test F k cfg t g)).guard
  unfolding step arbitrate motor_test_stage
  testing-step t g =
      testing-note_failsafe _ t _ _
      ∙ testing-leave_gating t _
      ∙ testing-request_mode t _
      ∙ testing-exclude_others _

  -- Before section 5.5 the command is the intent's, or none.
  pub commands-before_test :
      (t : Tick D) (g : ControlGuard D)
      → (commands_test (before_test F k cfg t g).eff ≡ false) ⊎ (commands_test t.intent ≡ true)
  unfolding strip_unarmed arm_stage estop_stage begin drop_if_stale clear_payload
  commands-before_test t g = ground arith
