-- ===== src/Control/Guard/Examples.antt =====
-- The guard on concrete inputs.
use orange_pi_stm32_for_rov.Prelude.{
  ℕ, ◌*◌, Bool, ltb, true, false, ◌≡◌, refl, some, arith, inl, inr, [], ◌∷◌,
}
use orange_pi_stm32_for_rov.Control.Float.{clampd, absd}
use orange_pi_stm32_for_rov.Control.Mode.{k_auto}
use orange_pi_stm32_for_rov.Control.Intent.{ControlIntent, zero_dof, no_motor_test, clear_payload}
use orange_pi_stm32_for_rov.Control.Guard.Checks.{
  ControlGuard, fs_emergency_stop, guard_fault_code_for_state, is_intent_stale,
  is_neutral_for_clear, nav_ok_for_mode, nav_ready_for_auto, downgrade_mode, should_emit_reject,
  clamp_teleop, clamp_motor_test,
}
use orange_pi_stm32_for_rov.Control.Guard.Stages.{
  Tick, guard_event, report_reject, note_input, note_age, drop_if_stale, hold_clear,
  release_if_held, estop_stage, arm_stage, strip_unarmed,
}
use orange_pi_stm32_for_rov.Control.Guard.Gating.{
  clear_motor_test, start_motor_test, choose_motor_test, exclude_others, motor_test_stage,
  request_mode, leave_auto, note_gating,
}
use orange_pi_stm32_for_rov.Control.Guard.Step.{
  Stepped, step, stale_input, begin, arbitrate, decide_failsafe, note_failsafe, run,
}
use orange_pi_stm32_for_rov.Control.Guard.Settle.{IsRelease}
use orange_pi_stm32_for_rov.Control.Guard.Payload.{IsInert, IsExclusive}
use orange_pi_stm32_for_rov.Control.Guard.Output.{unarmed-IsInert, motor_test-IsExclusive}
use orange_pi_stm32_for_rov.Control.Guard.Estop.{
  estop_dominates, step-IsRelease, estop_holds, arming_needs,
}
use orange_pi_stm32_for_rov.Control.Guard.Failsafe.{failsafe_of, failsafe_exact}
use orange_pi_stm32_for_rov.Control.Guard.Mode.{IsSettled, run-IsSettled}
use orange_pi_stm32_for_rov.Control.Guard.MotorTest.{motor_test_ends}
use orange_pi_stm32_for_rov.Control.Guard.Sample.{
  milli, codes, config, good_nav, second, quiet, at, press, ask_clear, fresh, armed, holding,
}
use orange_pi_stm32_for_rov.Gateway.NavView.{
  Kinematics, NavState, NavViewConsts, NavViewDaemonPolicyConfig, finite_ok, build, last_view,
  fill_nav_view_publish_fields, evaluate_nav_view_publish,
}
use orange_pi_stm32_for_rov.Gateway.NavView.Trust.{IsLive, IsRecent, auto-IsLive}
use orange_pi_stm32_for_rov.Control.Input.{MultiInputConfig, merged}

-- `step` with all its parts open.
concrete_step : Tick ℕ → ControlGuard ℕ → Stepped ℕ
unfolding step arbitrate note_failsafe decide_failsafe note_gating leave_auto request_mode
    motor_test_stage exclude_others choose_motor_test strip_unarmed arm_stage estop_stage begin
    drop_if_stale stale_input is_intent_stale note_age note_input absd clampd clamp_motor_test
    clamp_teleop downgrade_mode guard_fault_code_for_state is_neutral_for_clear nav_ok_for_mode
    nav_ready_for_auto should_emit_reject clear_motor_test start_motor_test guard_event hold_clear
    release_if_held report_reject clear_payload run
concrete_step = step milli codes config

estop_dominates_example : (step milli codes config press armed).result.failsafe ≡ fs_emergency_stop
unfolding concrete_step
estop_dominates_example = (estop_dominates milli codes config press armed refl refl).2

step-IsRelease_example : IsRelease milli codes config (ask_clear (4 * second)) holding
unfolding concrete_step
step-IsRelease_example =
    step-IsRelease milli codes config (ask_clear (4 * second)) holding (omega arith) refl refl

estop_holds_example :
    (run milli codes config (press ∷ ask_clear (2 * second) ∷ []) holding).estop_latched ≡ true
estop_holds_example =
    estop_holds milli codes config second (press ∷ ask_clear (2 * second) ∷ []) holding
      (record { latched = refl; hold_after = inr (omega arith); unfinished = omega arith })
      (omega arith)

abbrev say_arm : Tick ℕ
say_arm = at second (record quiet { arm = true; has_arm_cmd = true })

arming_needs_example : stale_input milli codes config say_arm fresh ≡ false
unfolding concrete_step
arming_needs_example = (arming_needs milli codes config say_arm fresh refl refl).0

abbrev steer : ControlIntent ℕ
steer = record quiet {
  has_teleop_dof = true;
  teleop_dof_cmd = record (zero_dof 1000) { surge = 5000 };
}

unarmed-IsInert_example :
    IsInert (step milli codes config (at second steer) fresh).result.effective_intent
unfolding concrete_step
unarmed-IsInert_example = unarmed-IsInert milli codes config (at second steer) fresh refl

abbrev spin_motor : Tick ℕ
spin_motor = at second (record steer {
  motor_test = record (no_motor_test 1000) { enable = true; motor_id = 9; duration_ms = 400 };
  has_motor_test = true;
})

motor_test-IsExclusive_example :
    IsExclusive (step milli codes config spin_motor armed).result.effective_intent
unfolding concrete_step
motor_test-IsExclusive_example = (motor_test-IsExclusive milli codes config spin_motor armed refl).2

motor_test_ends_example :
    (step milli codes config
      (at (2 * second) quiet)
      (run milli codes config (spin_motor ∷ []) armed)).result.effective_intent.has_motor_test
    ≡ false
motor_test_ends_example =
    motor_test_ends milli codes config (spin_motor ∷ []) (at (2 * second) quiet) armed (2 * second)
      refl (inr (omega arith), tt) refl (omega arith)

abbrev ask_auto : Tick ℕ
ask_auto = at second (record quiet { mode_request = k_auto; has_mode_request = true })

abbrev still : Kinematics ℕ
still =
    let v : ℕ × ℕ × ℕ = (1000, 1000, 1000) in
    record { pos = v; vel = v; rpy = v; omega_b = v; acc_b = v; depth = 1500 }

abbrev nav_state : NavState ℕ
nav_state = record {
  t_ns = 900_000_000;
  age_ms = 10;
  status = good_nav;
  sensor_mask = 7;
  kinematics = still;
}

abbrev view_consts : NavViewConsts ℕ
view_consts = record {
  wire_version = 2;
  run_invalid = 0;
  nav_view_stale = 9;
  estimator_numeric_invalid = 8;
  has_all = 63;
  blank = record {
    version = 0;
    mono_ns = 0;
    stamp_ns = 0;
    age_ms = 0;
    status = record good_nav { valid = 0; nav_state = 0; status_flags = 0 };
    sensor_mask = 0;
    flags = 0;
    kinematics = still;
  };
}

abbrev policy : NavViewDaemonPolicyConfig
policy = record { max_age_ms = 250; warmup_ms = 500; publish_when_stale = true }

-- Every number below 3000 is finite.
abbrev below : ℕ → Bool
below x = ltb x 3000

auto-IsLive_example :
    let d =
      evaluate_nav_view_publish below codes view_consts
        (last_view below codes view_consts (some nav_state))
        950_000_000
        1
        second
        policy
        true in
    (s : NavState ℕ) × (some nav_state ≡ some s)
    × IsLive below codes view_consts s d.out second
    × IsRecent policy 950_000_000 1 second
unfolding concrete_step evaluate_nav_view_publish build fill_nav_view_publish_fields finite_ok
auto-IsLive_example =
    auto-IsLive below codes view_consts milli config ask_auto armed policy (some nav_state)
      950_000_000 1 second true (omega arith) refl refl refl refl

abbrev gcs_first : MultiInputConfig
gcs_first = record { gcs_priority = true; default_ttl_ms = 200 }

-- The ground station's mode request, with the local stop merged into it.
abbrev merged_tick : Tick ℕ
merged_tick = at second (merged 1000 gcs_first ask_auto.intent press.intent)

failsafe_exact_example :
    (step milli codes config ask_auto fresh).result.failsafe ≡ failsafe_of false false k_auto false
unfolding concrete_step
failsafe_exact_example = failsafe_exact milli codes config ask_auto fresh

run-IsSettled_example : IsSettled (run milli codes config (ask_auto ∷ press ∷ []) fresh).mode
run-IsSettled_example =
    run-IsSettled milli codes config (ask_auto ∷ press ∷ []) fresh
      (inr (inr (inl refl)), (inl refl, tt)) (inl refl)
