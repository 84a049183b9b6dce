-- ===== src/Control/Guard/Mode.antt =====
-- The mode of the guard: its change flag, and the modes that a history reaches.
use orange_pi_stm32_for_rov.Prelude.{Bool, false, not, ◌≡◌, ◌∙◌, sym, ap, arith, ◌⊎◌, List, [], ◌∷◌}
use orange_pi_stm32_for_rov.Control.Float.{FloatOps}
use orange_pi_stm32_for_rov.Control.Mode.{
  ControlMode, k_none, k_manual, k_auto, k_failsafe, mode_eq,
}
use orange_pi_stm32_for_rov.Control.Nav.{NavCodes}
use orange_pi_stm32_for_rov.Control.Intent.{ControlIntent, clear_payload}
use orange_pi_stm32_for_rov.Control.Guard.Checks.{
  ControlGuardConfig, ControlGuard, should_emit_reject, downgrade_mode,
}
use orange_pi_stm32_for_rov.Control.Guard.Stages.{
  Tick, Work, estop_stage, arm_stage, strip_unarmed, drop_if_stale,
}
use orange_pi_stm32_for_rov.Control.Guard.Gating.{
  clear_motor_test, start_motor_test, choose_motor_test, exclude_others, motor_test_stage,
  request_mode, leave_auto,
}
use orange_pi_stm32_for_rov.Control.Guard.Step.{
  begin, stale_input, arbitrate, note_failsafe, step, run,
}
use orange_pi_stm32_for_rov.Control.Guard.Payload.{before_test}
use orange_pi_stm32_for_rov.Control.Guard.Keeps.{
  moding, moding-motor_test_stage, moding-note_gating,
}

-- A mode of the running vehicle.
abbrev pub IsSettled : ControlMode → Type 0
IsSettled m = (m ≡ k_manual) ⊎ ((m ≡ k_auto) ⊎ (m ≡ k_failsafe))

-- The intent requests no mode, or a mode of the running vehicle.
abbrev pub RequestIsKnown : {D : Type 0} → ControlIntent D → Type 0
RequestIsKnown i = (i.mode_request ≡ k_none) ⊎ IsSettled i.mode_request

module _ {D : Type 0} (F : FloatOps D) (k : NavCodes) (cfg : ControlGuardConfig D) where
  request_then_leave :
      (t : Tick D) (w : Work D) (m : ControlMode)
      → moding w ≡ record { mode = m; changed = false }
      → let v = leave_auto F k cfg t (request_mode F k cfg t w) in
        v.mode_changed ≡ not (mode_eq v.guard.mode m)
  unfolding leave_auto request_mode should_emit_reject downgrade_mode
  request_then_leave t w m h = ground arith

  -- The flag `mode_changed` is set exactly when the effective mode differs from the mode before the
  -- tick, also when a request is lowered or Auto is left.
  pub mode_changed_exact :
      (t : Tick D) (g : ControlGuard D)
      → let r = (step F k cfg t g).result in r.mode_changed ≡ not (mode_eq r.effective_mode g.mode)
  unfolding step arbitrate
  mode_changed_exact t g =
      let stale = stale_input F k cfg t g in
      let w = motor_test_stage F k cfg stale t (before_test F k cfg t g) in
      let v = leave_auto F k cfg t (request_mode F k cfg t w) in
      let e = moding-note_gating F k cfg t v in
      let h = request_then_leave t w g.mode (moding-motor_test_stage F k cfg stale t g) in
      ap (λ m. m.changed) e ∙ h ∙ ap (λ m. not (mode_eq m.mode g.mode)) (sym e)

  -- A mode request that is left before section 6 is the intent's.
  abbrev AsksAs : ControlMode → Work D → Type 0
  AsksAs m w = (w.eff.has_mode_request ≡ false) ⊎ (w.eff.mode_request ≡ m)

  begin-AsksAs :
      (t : Tick D) (g : ControlGuard D) → AsksAs t.intent.mode_request (begin F k cfg t g)
  unfolding begin drop_if_stale clear_payload
  begin-AsksAs t g = ground arith

  estop_stage-AsksAs :
      (m : ControlMode) (t : Tick D) (w : Work D) → AsksAs m w → AsksAs m (estop_stage F k cfg t w)
  unfolding estop_stage
  estop_stage-AsksAs m t w h = ground arith

  arm_strip-AsksAs :
      (m : ControlMode) (w : Work D)
      → AsksAs m w
      → AsksAs m (strip_unarmed F k cfg (arm_stage F k cfg w))
  unfolding arm_stage strip_unarmed
  arm_strip-AsksAs m w h = ground arith

  motor_test_stage-AsksAs :
      (m : ControlMode) (stale : Bool) (t : Tick D) (w : Work D)
      → AsksAs m w
      → AsksAs m (motor_test_stage F k cfg stale t w)
  unfolding motor_test_stage choose_motor_test exclude_others clear_motor_test start_motor_test
  motor_test_stage-AsksAs m stale t w h = ground arith

  request_leave-IsSettled :
      (t : Tick D) (w : Work D) (old m : ControlMode)
      → moding w ≡ record { mode = old; changed = false }
      → IsSettled old
      → (m ≡ k_none) ⊎ IsSettled m
      → AsksAs m w
      → IsSettled (leave_auto F k cfg t (request_mode F k cfg t w)).guard.mode
  unfolding leave_auto request_mode should_emit_reject downgrade_mode
  request_leave-IsSettled t w old m e s r a = ground arith

  step-IsSettled :
      (t : Tick D) (g : ControlGuard D)
      → RequestIsKnown t.intent
      → IsSettled g.mode
      → IsSettled (step F k cfg t g).guard.mode
  unfolding step arbitrate note_failsafe
  step-IsSettled t g r s =
      let stale = stale_input F k cfg t g in
      let m = t.intent.mode_request in
      let w = motor_test_stage F k cfg stale t (before_test F k cfg t g) in
      let v = leave_auto F k cfg t (request_mode F k cfg t w) in
      let asks : AsksAs m w =
        motor_test_stage-AsksAs m stale t _
          (arm_strip-AsksAs m _ (estop_stage-AsksAs m t _ (begin-AsksAs t g))) in
      ground (
        arith,
        request_leave-IsSettled t w g.mode m (moding-motor_test_stage F k cfg stale t g) s r asks,
        moding-note_gating F k cfg t v,
      )

  -- Every intent of the history requests no mode or a known one.
  abbrev pub AllKnown : List (Tick D) → Type 0
  AllKnown [] = Unit {0}
  AllKnown (t ∷ ts) = RequestIsKnown t.intent × AllKnown ts

  -- From a guard in Manual, Auto or Failsafe, as `reset` leaves it, every history whose intents
  -- request no mode or one of these three ends in one of these three.
  pub run-IsSettled :
      (ts : List (Tick D)) (g : ControlGuard D)
      → AllKnown ts
      → IsSettled g.mode
      → IsSettled (run F k cfg ts g).mode
  unfolding run
  run-IsSettled [] g h s = s
  run-IsSettled (t ∷ ts) g (h, hs) s =
      run-IsSettled ts (step F k cfg t g).guard hs (step-IsSettled t g h s)
