-- ===== src/Control/Guard/Checks.antt =====
-- The guard's state, and its tests: staleness, neutrality, navigation readiness, rejected commands.
use orange_pi_stm32_for_rov.Prelude.{
  ℕ, ◌-◌, ◌/◌, Bool, true, false, not, ◌&&◌, ◌||◌, Option, none, some, String, ltb, ◌==◌,
  if◌then◌else◌, ns_per_ms,
}
use orange_pi_stm32_for_rov.Control.Float.{FloatOps, clampd, absd}
use orange_pi_stm32_for_rov.Control.Mode.{ControlMode, k_manual, k_auto, k_failsafe, mode_eq}
use orange_pi_stm32_for_rov.Control.Intent.{ControlIntent, DofCommand, MotorTestCmd, no_motor_test}
use orange_pi_stm32_for_rov.Control.Nav.{NavStateView, NavCodes}

pub record ControlGuardConfig (D : Type 0) : Type 0 where
  pub default_ttl_ms : ℕ
  pub max_depth_step_m : D
  pub max_yaw_step_rad : D
  pub teleop_dof_min : D
  pub teleop_dof_max : D
  pub estop_latch : Bool
  pub enable_mode_gating : Bool
  pub estop_clear_hold_ms : ℕ

pub data FailsafeAction : Type 0 where
  fs_none fs_hold_output fs_zero_output fs_emergency_stop : FailsafeAction

abbrev pub failsafe_value : FailsafeAction → ℕ
failsafe_value fs_none = 0
failsafe_value fs_hold_output = 1
failsafe_value fs_zero_output = 2
failsafe_value fs_emergency_stop = 3

-- The string literals that name a rejected command; they are compared as pointers.
pub data RejectTag : Type 0 where
  clear_estop_not_neutral motor_test_reject mode_reject : RejectTag

abbrev tag_value : Option RejectTag → ℕ
tag_value none = 0
tag_value (some clear_estop_not_neutral) = 1
tag_value (some motor_test_reject) = 2
tag_value (some mode_reject) = 3

pub record ControlGuard (D : Type 0) : Type 0 where
  pub armed : Bool
  pub estop_latched : Bool
  pub mode : ControlMode
  pub last_intent_ns : ℕ
  pub last_intent_cmd_seq : ℕ
  pub input_age_ms : ℕ  -- uint32
  pub clear_hold_start_ns : ℕ
  pub clear_hold_ms : ℕ  -- uint32
  pub motor_test_active : Bool
  pub motor_test_deadline_ns : ℕ
  pub motor_test_cmd_seq : ℕ
  pub latched_motor_test : MotorTestCmd D
  pub have_last_nav_gating_state : Bool
  pub last_nav_gating_ok : Bool
  pub last_failsafe_action : FailsafeAction
  pub last_reject_cmd_seq : ℕ
  pub last_reject_tag : Option RejectTag

pub record GuardEvent : Type 0 where
  pub mono_ns : ℕ
  pub event : String
  pub level : String
  pub fault_code : ℕ
  pub mode : ControlMode
  pub requested_mode : ControlMode
  pub failsafe : FailsafeAction
  pub armed : Bool
  pub estop_latched : Bool
  pub nav_present : Bool
  pub nav_valid : Bool
  pub nav_stale : Bool
  pub nav_degraded : Bool
  pub message : String

unfoldable pub reset : {D : Type 0} → D → ControlGuard D
reset nought = record {
  armed = false;
  estop_latched = false;
  mode = k_manual;
  last_intent_ns = 0;
  last_intent_cmd_seq = 0;
  input_age_ms = 0;
  clear_hold_start_ns = 0;
  clear_hold_ms = 0;
  motor_test_active = false;
  motor_test_deadline_ns = 0;
  motor_test_cmd_seq = 0;
  latched_motor_test = no_motor_test nought;
  have_last_nav_gating_state = false;
  last_nav_gating_ok = false;
  last_failsafe_action = fs_none;
  last_reject_cmd_seq = 0;
  last_reject_tag = none;
}

unfoldable pub nav_ready_for_auto : NavCodes → NavStateView → Bool
nav_ready_for_auto k nav =
    let lifecycle_ok = nav.nav_state == k.run_ok || nav.nav_state == k.run_degraded in
    if not lifecycle_ok
    then false
    else if nav.valid == 0 || not (nav.stale == 0)
    then false
    else if nav.health == k.health_invalid || nav.health == k.health_uninitialized
    then false
    else if not (nav.fault_code == k.nav_fault_none)
    then false
    else k.nav_flag_has nav.status_flags k.flag_imu_ok
      && k.nav_flag_has nav.status_flags k.flag_align_done
      && k.nav_flag_has nav.status_flags k.flag_eskf_ok

-- `nav != nullptr && nav_ready_for_auto(*nav)`
abbrev pub nav_present_and_ready : NavCodes → Option NavStateView → Bool
nav_present_and_ready k none = false
nav_present_and_ready k (some nav) = nav_ready_for_auto k nav

unfoldable pub nav_ok_for_mode :
    {D : Type 0} → NavCodes → ControlGuardConfig D → Option NavStateView → ControlMode → Bool
nav_ok_for_mode k cfg nav requested = if not cfg.enable_mode_gating then true else by_mode requested
  where
    by_mode : ControlMode → Bool
    by_mode k_manual = true
    by_mode k_failsafe = true
    by_mode _ = nav_present_and_ready k nav

unfoldable pub downgrade_mode : ControlMode → ControlMode
downgrade_mode k_auto = k_failsafe
downgrade_mode k_failsafe = k_failsafe
downgrade_mode _ = k_manual

-- `nav == nullptr || !valid || stale || fault` of guard_fault_code_for_state
abbrev nav_faulted : NavCodes → Option NavStateView → Bool
nav_faulted k none = true
nav_faulted k (some nav) =
    nav.valid == 0 || not (nav.stale == 0) || not (nav.fault_code == k.nav_fault_none)

unfoldable pub guard_fault_code_for_state :
    NavCodes → Option NavStateView → (input_stale estop_latched : Bool) → ControlMode → ℕ
guard_fault_code_for_state k nav input_stale estop_latched mode_eff =
    if estop_latched
    then k.session_fault
    else if input_stale
    then k.intent_stale
    else if mode_eq mode_eff k_auto && nav_faulted k nav
    then k.nav_untrusted
    else if mode_eq mode_eff k_failsafe
    then k.illegal_state_transition
    else k.fault_none

module _ {D : Type 0} where
  -- `last_intent_ns` is the member's value after the input of this step was noted.
  unfoldable pub is_intent_stale :
      ControlGuardConfig D → (last_intent_ns now_ns : ℕ) → ControlIntent D → Bool
  is_intent_stale cfg last_intent_ns now_ns intent =
      let ttl_ms = if intent.ttl_ms == 0 then cfg.default_ttl_ms else intent.ttl_ms in
      let t0 = if intent.stamp_ns == 0 then last_intent_ns else intent.stamp_ns in
      let t1 = if now_ns == 0 then t0 else now_ns in
      if ttl_ms == 0 then false else if ltb t1 t0 then false else ltb ttl_ms ((t1 - t0) / ns_per_ms)

  unfoldable pub is_neutral_for_clear : FloatOps D → DofCommand D → Bool
  is_neutral_for_clear F d =
      small d.surge && small d.sway && small d.heave && small d.roll && small d.pitch && small d.yaw
    where
      small : D → Bool
      small v = F.lt (absd F v) F.neutral_eps

  unfoldable pub clamp_teleop :
      FloatOps D → ControlGuardConfig D → ControlIntent D → ControlIntent D
  clamp_teleop F cfg i = if not i.has_teleop_dof then i else record i {
    teleop_dof_cmd = record {
      surge = bound i.teleop_dof_cmd.surge;
      sway = bound i.teleop_dof_cmd.sway;
      heave = bound i.teleop_dof_cmd.heave;
      roll = bound i.teleop_dof_cmd.roll;
      pitch = bound i.teleop_dof_cmd.pitch;
      yaw = bound i.teleop_dof_cmd.yaw;
    };
  }
    where
      bound : D → D
      bound v = clampd F v cfg.teleop_dof_min cfg.teleop_dof_max

  unfoldable pub clamp_motor_test : FloatOps D → MotorTestCmd D → MotorTestCmd D
  clamp_motor_test F mt =
      let id = if ltb mt.motor_id 1 then 1 else mt.motor_id in
      let mode = if ltb 1 mt.mode then 0 else mt.mode in
      let duration = if mt.duration_ms == 0 then 500 else mt.duration_ms in
      record mt {
        motor_id = if ltb 8 id then 8 else id;
        mode = mode;
        value = if mode == 0 then F.narrow (clampd F mt.value (F.neg F.one) F.one) else mt.value;
        duration_ms = if ltb 1000 duration then 1000 else duration;
      }

  -- Whether a rejection is reported, and the guard that remembers it.
  unfoldable pub should_emit_reject : ControlGuard D → ℕ → Option RejectTag → Bool × ControlGuard D
  should_emit_reject g cmd_seq none = (false, g)
  should_emit_reject g cmd_seq (some tag) =
      let same_tag = tag_value (some tag) == tag_value g.last_reject_tag in
      if not (cmd_seq == 0) && cmd_seq == g.last_reject_cmd_seq && same_tag
      then (false, g)
      else if cmd_seq == 0 && same_tag
      then (false, g)
      else (true, record g { last_reject_cmd_seq = cmd_seq; last_reject_tag = some tag })
