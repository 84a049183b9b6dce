-- ===== src/Control/Nav.antt =====
-- What the guard reads of the navigation view. The message type and its enumerations are declared
-- in shared/msg/, outside this repository: an enumeration is the number that its field holds, and
-- the enumerators and the flag test are parameters.
use orange_pi_stm32_for_rov.Prelude.{ℕ, Bool}

-- The fields of shared::msg::NavStateView that the guard reads.
pub record NavStateView : Type 0 where
  pub nav_state : ℕ
  pub valid : ℕ
  pub stale : ℕ
  pub degraded : ℕ
  pub health : ℕ
  pub fault_code : ℕ
  pub status_flags : ℕ

-- The enumerators of shared::msg that the guard names, and nav_flag_has.
pub record NavCodes : Type 0 where
  pub run_ok : ℕ
  pub run_degraded : ℕ
  pub health_invalid : ℕ
  pub health_uninitialized : ℕ
  pub nav_fault_none : ℕ
  pub flag_imu_ok : ℕ
  pub flag_align_done : ℕ
  pub flag_eskf_ok : ℕ
  pub nav_flag_has : ℕ → ℕ → Bool
  pub fault_none : ℕ
  pub session_fault : ℕ
  pub intent_stale : ℕ
  pub nav_untrusted : ℕ
  pub illegal_state_transition : ℕ
  pub motor_test_violation : ℕ
