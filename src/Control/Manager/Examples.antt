-- ===== src/Control/Manager/Examples.antt =====
-- A manager with a manual and a PID controller.
use orange_pi_stm32_for_rov.Prelude.{
  ℕ, zero, suc, ◌+◌, true, false, some, String, List, [], ◌∷◌, ℤ, ltb,
}
use orange_pi_stm32_for_rov.Control.Mode.{k_auto}
use orange_pi_stm32_for_rov.Pwm.Sample.{milli}
use orange_pi_stm32_for_rov.Control.Manager.{
  IController, ControllerManagerOptions, set_auto, select_auto, emergency_stop,
}
use orange_pi_stm32_for_rov.Control.Manager.Run.{
  ManagerCall, call_init_manual, call_register, call_command, call_mode, call_compute,
}

abbrev name_of : ℕ → String
name_of zero = "manual"
name_of (suc n) = "pid"

-- The output is the state plus the reference; above 100 there is none.
abbrev adders : IController ℕ ℕ ℕ ℕ ℤ
adders = record {
  name = name_of;
  reset = λ c. c;
  compute = λ c s ref out dt. (ltb (s + ref) 100, s + ref, c);
}

abbrev manager_options : ControllerManagerOptions ℤ
manager_options = record {
  default_auto_controller = "pid";
  failsafe_zero_output = true;
  min_switch_interval_sec = milli 200;
  auto_fail_limit = 1;
}

abbrev calls : List (ManagerCall ℕ ℕ ℕ ℕ ℤ)
calls =
    call_init_manual (some 0)
    ∷ call_register (some 1)
    ∷ call_command (select_auto "mpc") true 5
    ∷ call_mode k_auto
    ∷ call_compute 60 60 0 (milli 20)
    ∷ call_command set_auto false 9
    ∷ call_command emergency_stop false 9
    ∷ []
