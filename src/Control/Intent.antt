-- ===== src/Control/Intent.antt =====
-- pwm_control_program/include/control_core/control_intent.hpp and the references of
-- control_types.hpp. A `double` or `float` is a value of D; unsigned fields are numbers.
use orange_pi_stm32_for_rov.Prelude.{ℕ, Bool, false}
use orange_pi_stm32_for_rov.Control.Mode.{ControlMode, k_none}

pub record DofCommand (D : Type 0) : Type 0 where
  pub surge : D
  pub sway : D
  pub heave : D
  pub roll : D
  pub pitch : D
  pub yaw : D

pub record Pose (D : Type 0) : Type 0 where
  pub x : D
  pub y : D
  pub z : D
  pub roll : D
  pub pitch : D
  pub yaw : D

pub record Twist (D : Type 0) : Type 0 where
  pub surge : D
  pub sway : D
  pub heave : D
  pub roll_rate : D
  pub pitch_rate : D
  pub yaw_rate : D

pub record Accel (D : Type 0) : Type 0 where
  pub surge : D
  pub sway : D
  pub heave : D
  pub roll_acc : D
  pub pitch_acc : D
  pub yaw_acc : D

pub record ControlReference (D : Type 0) : Type 0 where
  pub pose_ref : Pose D
  pub vel_ref : Twist D
  pub accel_ref : Accel D
  pub use_pose_ref : Bool
  pub use_vel_ref : Bool
  pub use_accel_ref : Bool
  pub dof_cmd : DofCommand D
  pub use_dof_cmd : Bool

pub record MotorTestCmd (D : Type 0) : Type 0 where
  pub enable : Bool
  pub motor_id : ℕ  -- uint8
  pub mode : ℕ  -- uint8
  pub reserved0 : ℕ
  pub value : D
  pub duration_ms : ℕ  -- uint16
  pub reserved1 : ℕ
  pub cmd_id : ℕ  -- uint32

pub record ControlIntent (D : Type 0) : Type 0 where
  pub intent_id : ℕ
  pub session_id : ℕ
  pub cmd_seq : ℕ
  pub stamp_ns : ℕ
  pub ttl_ms : ℕ
  pub source_id : ℕ
  pub valid : Bool
  pub request_exit : Bool
  pub estop : Bool
  pub clear_estop : Bool
  pub has_estop_cmd : Bool
  pub arm : Bool
  pub disarm : Bool
  pub has_arm_cmd : Bool
  pub mode_request : ControlMode
  pub has_mode_request : Bool
  pub teleop_dof_cmd : DofCommand D
  pub has_teleop_dof : Bool
  pub ref : ControlReference D
  pub has_ref : Bool
  pub ref_delta : ControlReference D
  pub has_ref_delta : Bool
  pub motor_test : MotorTestCmd D
  pub has_motor_test : Bool

-- Value-initialised structs, from the value of 0.0.
module _ {D : Type 0} (nought : D) where
  abbrev pub zero_dof : DofCommand D
  zero_dof = record {
    surge = nought;
    sway = nought;
    heave = nought;
    roll = nought;
    pitch = nought;
    yaw = nought;
  }

  abbrev pub zero_reference : ControlReference D
  zero_reference = record {
    pose_ref = record {
      x = nought;
      y = nought;
      z = nought;
      roll = nought;
      pitch = nought;
      yaw = nought;
    };
    vel_ref = record {
      surge = nought;
      sway = nought;
      heave = nought;
      roll_rate = nought;
      pitch_rate = nought;
      yaw_rate = nought;
    };
    accel_ref = record {
      surge = nought;
      sway = nought;
      heave = nought;
      roll_acc = nought;
      pitch_acc = nought;
      yaw_acc = nought;
    };
    use_pose_ref = false;
    use_vel_ref = false;
    use_accel_ref = false;
    dof_cmd = zero_dof;
    use_dof_cmd = false;
  }

  abbrev pub no_motor_test : MotorTestCmd D
  no_motor_test = record {
    enable = false;
    motor_id = 0;
    mode = 0;
    reserved0 = 0;
    value = nought;
    duration_ms = 0;
    reserved1 = 0;
    cmd_id = 0;
  }

  unfoldable pub clear_payload : ControlIntent D → ControlIntent D
  clear_payload i = record i {
    request_exit = false;
    estop = false;
    clear_estop = false;
    has_estop_cmd = false;
    arm = false;
    disarm = false;
    has_arm_cmd = false;
    mode_request = k_none;
    has_mode_request = false;
    teleop_dof_cmd = zero_dof;
    has_teleop_dof = false;
    ref = zero_reference;
    has_ref = false;
    ref_delta = zero_reference;
    has_ref_delta = false;
    motor_test = no_motor_test;
    has_motor_test = false;
  }

  unfoldable pub clear_all : ControlIntent D → ControlIntent D
  unfolding clear_payload
  clear_all i = clear_payload (record i {
    intent_id = 0;
    session_id = 0;
    cmd_seq = 0;
    stamp_ns = 0;
    ttl_ms = 0;
    source_id = 0;
    valid = false;
  })
