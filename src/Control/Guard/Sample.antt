-- ===== src/Control/Guard/Sample.antt =====
-- A guard, its configuration and its inputs, for concrete runs. A `double` is a number of thousandths,
-- written with an offset of 1000: 0 is -1.0 and 2000 is 1.0.
use orange_pi_stm32_for_rov.Prelude.{
  ℕ, ◌-◌, ◌/◌, ◌%◌, true, false, ◌≡◌, refl, none, some, arith, ltb, ◌==◌,
}
use orange_pi_stm32_for_rov.Control.Float.{FloatOps, FloatLaws}
use orange_pi_stm32_for_rov.Control.Mode.{k_none, k_manual}
use orange_pi_stm32_for_rov.Control.Nav.{NavStateView, NavCodes}
use orange_pi_stm32_for_rov.Control.Intent.{ControlIntent, zero_dof, zero_reference, no_motor_test}
use orange_pi_stm32_for_rov.Control.Guard.Checks.{ControlGuardConfig, ControlGuard, fs_none, reset}
use orange_pi_stm32_for_rov.Control.Guard.Stages.{Tick}

abbrev pub milli : FloatOps ℕ
milli = record {
  lt = ltb;
  neg = λ x. 2000 - x;
  nought = 1000;
  one = 2000;
  neutral_eps = 1050;
  narrow = λ x. x;
}

pub milli_laws : FloatLaws milli
milli_laws = record { lt_irrefl = λ x. ground arith; lt_asymm = λ x y h. ground arith }

abbrev pub codes : NavCodes
codes = record {
  run_ok = 1;
  run_degraded = 2;
  health_invalid = 3;
  health_uninitialized = 0;
  nav_fault_none = 0;
  flag_imu_ok = 1;
  flag_align_done = 2;
  flag_eskf_ok = 4;
  nav_flag_has = λ flags bit. flags / bit % 2 == 1;
  fault_none = 0;
  session_fault = 1;
  intent_stale = 2;
  nav_untrusted = 3;
  illegal_state_transition = 4;
  motor_test_violation = 5;
}

abbrev pub config : ControlGuardConfig ℕ
config = record {
  default_ttl_ms = 200;
  max_depth_step_m = 1050;
  max_yaw_step_rad = 1100;
  teleop_dof_min = 0;
  teleop_dof_max = 2000;
  estop_latch = true;
  enable_mode_gating = true;
  estop_clear_hold_ms = 0;
}

abbrev pub good_nav : NavStateView
good_nav = record {
  nav_state = 1;
  valid = 1;
  stale = 0;
  degraded = 0;
  health = 1;
  fault_code = 0;
  status_flags = 7;
}

-- One second after the start.
abbrev pub second : ℕ
second = 1_000_000_000

abbrev pub quiet : ControlIntent ℕ
quiet = record {
  intent_id = 1;
  session_id = 0;
  cmd_seq = 1;
  stamp_ns = second;
  ttl_ms = 200;
  source_id = 0;
  valid = true;
  request_exit = false;
  estop = false;
  clear_estop = false;
  has_estop_cmd = false;
  arm = false;
  disarm = false;
  has_arm_cmd = false;
  mode_request = k_none;
  has_mode_request = false;
  teleop_dof_cmd = zero_dof 1000;
  has_teleop_dof = false;
  ref = zero_reference 1000;
  has_ref = false;
  ref_delta = zero_reference 1000;
  has_ref_delta = false;
  motor_test = no_motor_test 1000;
  has_motor_test = false;
}

abbrev pub at : ℕ → ControlIntent ℕ → Tick ℕ
at now i = record { now_ns = now; nav = some good_nav; intent = i }

abbrev pub press : Tick ℕ
press = at second (record quiet { estop = true; has_estop_cmd = true })

abbrev pub ask_clear : ℕ → Tick ℕ
ask_clear now = at now (record quiet { clear_estop = true; has_estop_cmd = true; stamp_ns = now })

abbrev pub fresh : ControlGuard ℕ
fresh = record {
  armed = false;
  estop_latched = false;
  mode = k_manual;
  last_intent_ns = 0;
  last_intent_cmd_seq = 0;
  input_age_ms = 0;
  clear_hold_start_ns = 0;
  clear_hold_ms = 0;
  motor_test_active = false;
  motor_test_deadline_ns = 0;
  motor_test_cmd_seq = 0;
  latched_motor_test = no_motor_test 1000;
  have_last_nav_gating_state = false;
  last_nav_gating_ok = false;
  last_failsafe_action = fs_none;
  last_reject_cmd_seq = 0;
  last_reject_tag = none;
}

abbrev pub armed : ControlGuard ℕ
armed = record fresh { armed = true }

abbrev pub holding : ControlGuard ℕ
holding = record fresh { estop_latched = true; clear_hold_start_ns = second }

pub fresh-reset : fresh ≡ reset 1000
unfolding reset
fresh-reset = refl
