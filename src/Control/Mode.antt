-- ===== src/Control/Mode.antt =====
-- pwm_control_program/include/control_core/control_mode.hpp
use orange_pi_stm32_for_rov.Prelude.{ℕ, Bool, ◌||◌, not, ◌==◌}

pub data ControlMode : Type 0 where
  k_none k_manual k_auto k_failsafe k_unknown : ControlMode

abbrev pub mode_value : ControlMode → ℕ
mode_value k_none = 0
mode_value k_manual = 1
mode_value k_auto = 2
mode_value k_failsafe = 3
mode_value k_unknown = 255

-- `==` on the enumeration
abbrev pub mode_eq : ControlMode → ControlMode → Bool
mode_eq a b = mode_value a == mode_value b

unfoldable pub is_actionable_request : ControlMode → Bool
is_actionable_request m = mode_eq m k_manual || mode_eq m k_auto || mode_eq m k_failsafe

unfoldable pub is_request : ControlMode → Bool
is_request m = not (mode_eq m k_unknown)

unfoldable pub is_operational : ControlMode → Bool
is_operational m = mode_eq m k_manual || mode_eq m k_auto
