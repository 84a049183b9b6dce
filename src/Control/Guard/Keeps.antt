-- ===== src/Control/Guard/Keeps.antt =====
-- What the later sections of the guard's step leave alone.
use orange_pi_stm32_for_rov.Prelude.{ℕ, Bool, false, ◌≡◌, ◌∙◌, Option, some, arith}
use orange_pi_stm32_for_rov.Control.Float.{FloatOps}
use orange_pi_stm32_for_rov.Control.Mode.{ControlMode}
use orange_pi_stm32_for_rov.Control.Nav.{NavCodes}
use orange_pi_stm32_for_rov.Control.Guard.Checks.{
  ControlGuardConfig, ControlGuard, RejectTag, should_emit_reject, FailsafeAction,
}
use orange_pi_stm32_for_rov.Control.Guard.Stages.{
  Tick, Work, safety, note_age, note_input, hold_clear, release_if_held, estop_stage, arm_stage,
  strip_unarmed,
}
use orange_pi_stm32_for_rov.Control.Guard.Gating.{
  clear_motor_test, start_motor_test, choose_motor_test, exclude_others, motor_test_stage,
  request_mode, leave_auto, note_gating,
}
use orange_pi_stm32_for_rov.Control.Guard.Step.{begin, stale_input, arbitrate, note_failsafe}

module _ {D : Type 0} where
  pub safety-should_emit_reject :
      (g : ControlGuard D) (seq : ℕ) (tag : Option RejectTag)
      → safety (should_emit_reject g seq tag).1 ≡ safety g
  unfolding should_emit_reject
  safety-should_emit_reject g seq tag = ground arith

module _ {D : Type 0} (F : FloatOps D) (k : NavCodes) (cfg : ControlGuardConfig D) where
  pub safety-strip_unarmed : (w : Work D) → safety (strip_unarmed F k cfg w).guard ≡ safety w.guard
  unfolding strip_unarmed
  safety-strip_unarmed w = ground arith

  pub safety-choose_motor_test :
      (stale : Bool) (t : Tick D) (w : Work D)
      → safety (choose_motor_test F k cfg stale t w).guard ≡ safety w.guard
  unfolding choose_motor_test clear_motor_test start_motor_test
  safety-choose_motor_test stale t w = ground (
    arith,
    safety-should_emit_reject (clear_motor_test F k cfg w).guard t.intent.cmd_seq
        (some RejectTag.motor_test_reject),
  )

  safety-exclude_others : (w : Work D) → safety (exclude_others F k cfg w).guard ≡ safety w.guard
  unfolding exclude_others
  safety-exclude_others w = ground arith

  safety-request_mode :
      (t : Tick D) (w : Work D) → safety (request_mode F k cfg t w).guard ≡ safety w.guard
  unfolding request_mode
  safety-request_mode t w =
      ground
        (arith, safety-should_emit_reject w.guard t.intent.cmd_seq (some RejectTag.mode_reject))

  safety-leave_auto :
      (t : Tick D) (w : Work D) → safety (leave_auto F k cfg t w).guard ≡ safety w.guard
  unfolding leave_auto
  safety-leave_auto t w = ground arith

  safety-note_gating :
      (t : Tick D) (w : Work D) → safety (note_gating F k cfg t w).guard ≡ safety w.guard
  unfolding note_gating
  safety-note_gating t w = ground arith

  -- The safety members are settled by sections 3 and 4.
  pub safety-arbitrate :
      (t : Tick D) (g : ControlGuard D)
      → safety (arbitrate F k cfg t g).guard
        ≡ safety (arm_stage F k cfg (estop_stage F k cfg t (begin F k cfg t g))).guard
  unfolding arbitrate motor_test_stage
  safety-arbitrate t g =
      safety-note_gating t _
      ∙ safety-leave_auto t _
      ∙ safety-request_mode t _
      ∙ safety-exclude_others _
      ∙ safety-choose_motor_test (stale_input F k cfg t g) t _
      ∙ safety-strip_unarmed _

  pub safety-note_failsafe :
      (stale : Bool) (t : Tick D) (fs : FailsafeAction) (w : Work D)
      → safety (note_failsafe F k cfg stale t fs w).guard ≡ safety w.guard
  unfolding note_failsafe
  safety-note_failsafe stale t fs w = ground arith

-- The mode and the flag of its change.
pub record Moding : Type 0 where
  pub mode : ControlMode
  pub changed : Bool

abbrev pub moding : {D : Type 0} → Work D → Moding
moding w = record { mode = w.guard.mode; changed = w.mode_changed }

module _ {D : Type 0} (F : FloatOps D) (k : NavCodes) (cfg : ControlGuardConfig D) where
  moding-begin :
      (t : Tick D) (g : ControlGuard D)
      → moding (begin F k cfg t g) ≡ record { mode = g.mode; changed = false }
  unfolding begin note_age note_input
  moding-begin t g = ground arith

  moding-estop_stage : (t : Tick D) (w : Work D) → moding (estop_stage F k cfg t w) ≡ moding w
  unfolding estop_stage hold_clear release_if_held should_emit_reject
  moding-estop_stage t w = ground arith

  moding-arm_stage : (w : Work D) → moding (arm_stage F k cfg w) ≡ moding w
  unfolding arm_stage
  moding-arm_stage w = ground arith

  moding-strip_unarmed : (w : Work D) → moding (strip_unarmed F k cfg w) ≡ moding w
  unfolding strip_unarmed
  moding-strip_unarmed w = ground arith

  moding-choose_motor_test :
      (stale : Bool) (t : Tick D) (w : Work D)
      → moding (choose_motor_test F k cfg stale t w) ≡ moding w
  unfolding choose_motor_test clear_motor_test start_motor_test should_emit_reject
  moding-choose_motor_test stale t w = ground arith

  moding-exclude_others : (w : Work D) → moding (exclude_others F k cfg w) ≡ moding w
  unfolding exclude_others
  moding-exclude_others w = ground arith

  -- Up to section 6 the mode is the old one.
  pub moding-motor_test_stage :
      (stale : Bool) (t : Tick D) (g : ControlGuard D)
      → moding (
          motor_test_stage F k cfg stale t
            (strip_unarmed F k cfg (arm_stage F k cfg (estop_stage F k cfg t (begin F k cfg t g)))))
        ≡ record { mode = g.mode; changed = false }
  unfolding motor_test_stage
  moding-motor_test_stage stale t g =
      moding-exclude_others _
      ∙ moding-choose_motor_test stale t _
      ∙ moding-strip_unarmed _
      ∙ moding-arm_stage _
      ∙ moding-estop_stage t _
      ∙ moding-begin t g

  pub moding-note_gating : (t : Tick D) (w : Work D) → moding (note_gating F k cfg t w) ≡ moding w
  unfolding note_gating
  moding-note_gating t w = ground arith
