-- ===== src/Control/Input.antt =====
-- pwm_control_program/src/io/input/multi_input_provider.cpp: one intent out of the local input's and
-- the ground station's. What the two providers return is an argument.
pub mod Stop
use orange_pi_stm32_for_rov.Prelude.{
  ℕ, Bool, true, false, ◌&&◌, ◌||◌, Option, none, some, ◌==◌, if◌then◌else◌,
}
use orange_pi_stm32_for_rov.Control.Mode.{k_none}
use orange_pi_stm32_for_rov.Control.Intent.{
  ControlIntent, zero_dof, zero_reference, no_motor_test, clear_all,
}

-- A provider: a null pointer, one whose poll fails and what it has then written, or one that fills an
-- intent.
pub data Provided (D : Type 0) : Type 0 where
  no_provider : Provided D
  poll_failed : ControlIntent D → Provided D
  polled : ControlIntent D → Provided D

pub record MultiInputConfig : Type 0 where
  pub gcs_priority : Bool
  pub default_ttl_ms : ℕ

module _ {D : Type 0} (nought : D) where
  -- ControlIntent{}
  abbrev pub empty_intent : ControlIntent D
  empty_intent = record {
    intent_id = 0;
    session_id = 0;
    cmd_seq = 0;
    stamp_ns = 0;
    ttl_ms = 0;
    source_id = 0;
    valid = false;
    request_exit = false;
    estop = false;
    clear_estop = false;
    has_estop_cmd = false;
    arm = false;
    disarm = false;
    has_arm_cmd = false;
    mode_request = k_none;
    has_mode_request = false;
    teleop_dof_cmd = zero_dof nought;
    has_teleop_dof = false;
    ref = zero_reference nought;
    has_ref = false;
    ref_delta = zero_reference nought;
    has_ref_delta = false;
    motor_test = no_motor_test nought;
    has_motor_test = false;
  }

  unfoldable pub has_payload : ControlIntent D → Bool
  has_payload i =
      i.request_exit || i.has_estop_cmd || i.has_arm_cmd || i.has_mode_request || i.has_teleop_dof
      || i.has_ref || i.has_ref_delta || i.has_motor_test

  -- The teleop input must not fail; none stands for a poll that returns false.
  abbrev pub teleop_intent : Provided D → Option (ControlIntent D)
  teleop_intent no_provider = some empty_intent
  teleop_intent (poll_failed t) = none
  teleop_intent (polled t) = some t

  -- The ground station may fail.
  abbrev pub gcs_intent : Provided D → ControlIntent D
  gcs_intent no_provider = empty_intent
  gcs_intent (poll_failed g) = clear_all nought g
  gcs_intent (polled g) = g

  -- The intent that leads and the other one, when either has a payload.
  abbrev pub ranked :
      (first_has second_has : Bool)
      → ControlIntent D
      → ControlIntent D
      → Option (ControlIntent D × ControlIntent D)
  ranked true second_has first second = some (first, second)
  ranked false true first second = some (second, first)
  ranked false false first second = none

  abbrev pub chosen_inputs :
      MultiInputConfig → (t g : ControlIntent D) → Option (ControlIntent D × ControlIntent D)
  chosen_inputs cfg t g =
      if cfg.gcs_priority
      then ranked (has_payload g) (has_payload t) g t
      else ranked (has_payload t) (has_payload g) t g

  -- The leading intent, with what stops, arms or ends taken from both. Its other fields are its own.
  unfoldable pub merged : MultiInputConfig → (primary secondary : ControlIntent D) → ControlIntent D
  merged cfg primary secondary =
      let any_estop = primary.has_estop_cmd || secondary.has_estop_cmd in
      let any_arm = primary.has_arm_cmd || secondary.has_arm_cmd in
      record primary {
        valid = primary.valid || has_payload primary;
        intent_id = if primary.intent_id == 0 then primary.cmd_seq else primary.intent_id;
        ttl_ms = if primary.ttl_ms == 0 then cfg.default_ttl_ms else primary.ttl_ms;
        request_exit = primary.request_exit || secondary.request_exit;
        has_estop_cmd = any_estop;
        estop = if any_estop then primary.estop || secondary.estop else primary.estop;
        clear_estop =
            if any_estop then primary.clear_estop || secondary.clear_estop else primary.clear_estop;
        has_arm_cmd = any_arm;
        arm = if any_arm then primary.arm || secondary.arm else primary.arm;
        disarm = if any_arm then primary.disarm || secondary.disarm else primary.disarm;
      }

  abbrev pub merge_chosen :
      MultiInputConfig
      → ControlIntent D
      → Option (ControlIntent D × ControlIntent D)
      → ControlIntent D
  merge_chosen cfg out none = clear_all nought out
  merge_chosen cfg out (some (primary, secondary)) = merged cfg primary secondary

  abbrev pub with_teleop :
      MultiInputConfig
      → Option (ControlIntent D)
      → Provided D
      → ControlIntent D
      → Option (ControlIntent D)
  with_teleop cfg none gcs out = none
  with_teleop cfg (some t) gcs out =
      some (merge_chosen cfg out (chosen_inputs cfg t (gcs_intent gcs)))

  unfoldable pub poll :
      MultiInputConfig
      → (teleop gcs : Provided D) → (out : ControlIntent D) → Option (ControlIntent D)
  poll cfg teleop gcs out = with_teleop cfg (teleop_intent teleop) gcs out
