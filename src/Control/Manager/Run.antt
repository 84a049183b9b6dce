-- ===== src/Control/Manager/Run.antt =====
-- Histories of the controller manager, from its constructor on.
use orange_pi_stm32_for_rov.Prelude.{ℕ, Bool, Option, none, String, List, [], ◌∷◌}
use orange_pi_stm32_for_rov.Control.Mode.{ControlMode, k_unknown}
use orange_pi_stm32_for_rov.Pwm.Float.{SingleOps}
use orange_pi_stm32_for_rov.Control.Manager.{
  IController, ControllerManager, ControllerManagerOptions, ControlCommand, set_mode,
  select_auto_controller, blank_status,
}
use orange_pi_stm32_for_rov.Control.Manager.Ops.{
  init_manual_only, init_from_params, register_controller, apply_command, compute,
}

-- A call of one of the operations that change the manager.
pub data ManagerCall (I S R O D : Type 0) : Type 0 where
  call_init_manual : Option I → ManagerCall I S R O D
  call_init_params : Option I → ManagerCall I S R O D
  call_register : Option I → ManagerCall I S R O D
  call_command : ControlCommand → (force : Bool) (now : ℕ) → ManagerCall I S R O D
  call_mode : ControlMode → ManagerCall I S R O D
  call_select : String → ManagerCall I S R O D
  call_compute : S → R → O → D → ManagerCall I S R O D

-- The constructor.
abbrev pub new_manager : {I D : Type 0} → ControllerManagerOptions D → ControllerManager I D
new_manager options = record {
  options = options;
  status = blank_status;
  mode = k_unknown;
  controllers = [];
  active = none;
  active_name = "";
  default_auto_name = "pid";
}

module _ {I S R O D : Type 0} (F : SingleOps D) (C : IController I S R O D) (zero_output : O) where
  unfoldable pub answer_call : ManagerCall I S R O D → ControllerManager I D → ControllerManager I D
  answer_call (call_init_manual c) m = (init_manual_only F C zero_output c m).1
  answer_call (call_init_params c) m = (init_from_params F C zero_output c m).1
  answer_call (call_register c) m = (register_controller F C zero_output c m).1
  answer_call (call_command cmd force now) m = (apply_command F C zero_output cmd force now m).1
  answer_call (call_mode mode) m = (set_mode mode m).1
  answer_call (call_select n) m = (select_auto_controller n m).1
  answer_call (call_compute s ref out dt) m = (compute F C zero_output s ref out dt m).2

  unfoldable pub run_manager :
      List (ManagerCall I S R O D) → ControllerManager I D → ControllerManager I D
  run_manager [] m = m
  run_manager (c ∷ cs) m = run_manager cs (answer_call c m)
