-- ===== src/Control/Guard/Step.antt =====
-- ControlGuard::step: section 8, and the sections composed in their order.
use orange_pi_stm32_for_rov.Prelude.{
  ℕ, Bool, false, not, ◌&&◌, ◌||◌, List, [], ◌∷◌, ◌++◌, ◌==◌, if◌then◌else◌,
}
use orange_pi_stm32_for_rov.Control.Float.{FloatOps}
use orange_pi_stm32_for_rov.Control.Mode.{ControlMode, k_auto, k_failsafe, mode_eq}
use orange_pi_stm32_for_rov.Control.Intent.{ControlIntent}
use orange_pi_stm32_for_rov.Control.Nav.{NavCodes}
use orange_pi_stm32_for_rov.Control.Guard.Checks.{
  ControlGuardConfig, ControlGuard, GuardEvent, FailsafeAction, fs_none, fs_zero_output,
  fs_emergency_stop, failsafe_value, nav_ok_for_mode, guard_fault_code_for_state, is_intent_stale,
  clamp_teleop,
}
use orange_pi_stm32_for_rov.Control.Guard.Stages.{
  Tick, Work, guard_event, note_input, note_age, drop_if_stale, estop_stage, arm_stage,
  strip_unarmed,
}
use orange_pi_stm32_for_rov.Control.Guard.Gating.{
  motor_test_stage, request_mode, leave_auto, note_gating,
}

pub record GuardResult (D : Type 0) : Type 0 where
  pub armed : Bool
  pub estop_latched : Bool
  pub effective_mode : ControlMode
  pub mode_changed : Bool
  pub effective_intent : ControlIntent D
  pub failsafe : FailsafeAction
  pub input_stale : Bool
  pub last_intent_ns : ℕ

pub record Stepped (D : Type 0) : Type 0 where
  pub result : GuardResult D
  pub guard : ControlGuard D
  pub events : List GuardEvent

module _ {D : Type 0} (F : FloatOps D) (k : NavCodes) (cfg : ControlGuardConfig D) where
  -- Section 8: what the output stage must do.
  unfoldable pub decide_failsafe : Bool → Tick D → ControlGuard D → FailsafeAction
  decide_failsafe stale t g =
      if g.estop_latched
      then fs_emergency_stop
      else if mode_eq g.mode k_auto
      then if stale || not (nav_ok_for_mode k cfg t.nav k_auto) || not g.armed
        then fs_zero_output
        else fs_none
      else if mode_eq g.mode k_failsafe
      then fs_zero_output
      else if stale && g.armed
      then fs_zero_output
      else fs_none

  -- A change of the failsafe action is reported and remembered.
  unfoldable pub note_failsafe : Bool → Tick D → FailsafeAction → Work D → Work D
  unfolding guard_event
  note_failsafe stale t fs w =
      let g = w.guard in
      let entered =
        guard_event t g "guard_failsafe_entered" "warn"
          (guard_fault_code_for_state k t.nav stale g.estop_latched g.mode) g.mode fs
          (if g.estop_latched
            then "failsafe entered because estop is latched"
            else if stale
            then "failsafe entered because control intent timed out"
            else "failsafe entered because guard conditions are not satisfied") in
      let cleared =
        guard_event t g "guard_failsafe_cleared" "info" k.fault_none g.mode g.last_failsafe_action
          "failsafe cleared after guard conditions recovered" in
      if failsafe_value fs == failsafe_value g.last_failsafe_action then w else record w {
        guard = record g { last_failsafe_action = fs };
        events =
            if not (failsafe_value fs == 0)
            then w.events ++ entered ∷ []
            else if not (failsafe_value g.last_failsafe_action == 0)
            then w.events ++ cleared ∷ []
            else w.events;
      }

  -- Sections 1 and 2.
  unfoldable pub stale_input : Tick D → ControlGuard D → Bool
  stale_input t g = is_intent_stale cfg (note_input t g).last_intent_ns t.now_ns t.intent

  unfoldable pub begin : Tick D → ControlGuard D → Work D
  begin t g = record {
    guard = note_age t (note_input t g);
    eff = drop_if_stale F (stale_input t g) t.intent;
    mode_changed = false;
    events = [];
  }

  -- Sections 3 to 6, which settle every member but the last failsafe action.
  unfoldable pub arbitrate : Tick D → ControlGuard D → Work D
  arbitrate t g = note_gating F k cfg t (
      leave_auto F k cfg t (
        request_mode F k cfg t (
          motor_test_stage F k cfg (stale_input t g) t
            (strip_unarmed F k cfg (arm_stage F k cfg (estop_stage F k cfg t (begin t g)))))))

  -- The whole of `step`.
  unfoldable pub step : Tick D → ControlGuard D → Stepped D
  step t g =
      let stale = stale_input t g in
      let w = arbitrate t g in
      let fs = decide_failsafe stale t w.guard in
      let final = note_failsafe stale t fs w in
      record {
        result = record {
          armed = w.guard.armed;
          estop_latched = w.guard.estop_latched;
          effective_mode = w.guard.mode;
          mode_changed = w.mode_changed;
          effective_intent = clamp_teleop F cfg w.eff;
          failsafe = fs;
          input_stale = stale;
          last_intent_ns = g.last_intent_ns;
        };
        guard = final.guard;
        events = final.events;
      }

  -- The guard after a history of ticks, oldest first.
  unfoldable pub run : List (Tick D) → ControlGuard D → ControlGuard D
  run [] g = g
  run (t ∷ ts) g = run ts (step t g).guard
