-- ===== src/Control/Manager.antt =====
-- pwm_control_program/src/controllers/controller_manager.cpp: the modes and the controllers. The
-- object that active_ points to is held by the map, so active_ is the name that it has there; a
-- pointer to a controller is none when it is null. The text of the last error is left out.
pub mod Ops
pub mod Consistent
mod Keeps
pub mod Run
mod Examples
use text.Mathlib.Text.{◌==◌}
use orange_pi_stm32_for_rov.Prelude.{
  ℕ, ◌+◌, ◌-◌, ◌^◌, Bool, true, false, not, ◌&&◌, ◌||◌, Option, none, some, String, List, [], ◌∷◌,
  leb, if◌then◌else◌, u32, u64,
}
use orange_pi_stm32_for_rov.Control.Mode.{
  ControlMode, k_none, k_manual, k_auto, k_failsafe, k_unknown,
}
use orange_pi_stm32_for_rov.Pwm.Float.{SingleOps}

-- The virtual functions of IController: I is the type of its objects, S of states, R of references, O
-- of outputs, D is double. `compute` changes the output and the object.
pub record IController (I S R O D : Type 0) : Type 0 where
  pub name : I → String
  pub reset : I → I
  pub compute : I → S → R → O → D → Bool × O × I

pub record ControllerManagerOptions (D : Type 0) : Type 0 where
  pub default_auto_controller : String
  pub failsafe_zero_output : Bool
  pub min_switch_interval_sec : D
  pub auto_fail_limit : ℕ

pub record ControllerManagerStatus : Type 0 where
  pub ok : Bool
  pub mode : ControlMode
  pub active_controller : String
  pub desired_controller : String
  pub last_switch_t_ns : ℕ
  pub consecutive_failures : ℕ
  pub last_compute_ok : Bool

pub record ControllerManager (I D : Type 0) : Type 0 where
  pub options : ControllerManagerOptions D
  pub status : ControllerManagerStatus
  pub mode : ControlMode
  pub controllers : List (String × I)
  pub active : Option String
  pub active_name : String
  pub default_auto_name : String

pub data ControlCommand : Type 0 where
  no_command set_manual set_auto set_failsafe query_status emergency_stop : ControlCommand
  select_auto : (controller_name : String) → ControlCommand

abbrev pub blank_status : ControllerManagerStatus
blank_status = record {
  ok = false;
  mode = k_unknown;
  active_controller = "";
  desired_controller = "";
  last_switch_t_ns = 0;
  consecutive_failures = 0;
  last_compute_ok = false;
}

abbrev pub default_name : {D : Type 0} → ControllerManagerOptions D → String
default_name o = if o.default_auto_controller == "" then "pid" else o.default_auto_controller

module _ {I : Type 0} where
  unfoldable pub has_controller : String → List (String × I) → Bool
  has_controller n [] = false
  has_controller n ((k, c) ∷ cs) = k == n || has_controller n cs

  unfoldable pub find_controller : String → List (String × I) → Option I
  find_controller n [] = none
  find_controller n ((k, c) ∷ cs) = if k == n then some c else find_controller n cs

  unfoldable pub put_controller : String → I → List (String × I) → List (String × I)
  put_controller n c [] = []
  put_controller n c ((k, d) ∷ cs) = if k == n then (k, c) ∷ cs else (k, d) ∷ put_controller n c cs

module _ {I D : Type 0} where
  abbrev pub fail : ControllerManager I D → Bool × ControllerManager I D
  fail m = (false, record m { status = record m.status { ok = false } })

  abbrev pub clear_error : ControllerManager I D → ControllerManager I D
  clear_error m = record m { status = record m.status { ok = true } }

  unfoldable pub switch_active_controller :
      String → ControllerManager I D → Bool × ControllerManager I D
  switch_active_controller n m =
      if has_controller n m.controllers
      then (
        true,
        clear_error (record m {
          active = some n;
          active_name = n;
          status = record m.status { active_controller = n; consecutive_failures = 0 };
        }),
      )
      else fail m

  -- What follows a switch: the error, or what is done next.
  abbrev pub after_switch :
      (ControllerManager I D → Bool × ControllerManager I D)
      → Bool × ControllerManager I D
      → Bool × ControllerManager I D
  after_switch next (false, m) = fail m
  after_switch next (true, m) = next m

  abbrev pub in_mode : ControlMode → ControllerManager I D → ControllerManager I D
  in_mode mode m = clear_error (record m { mode = mode; status = record m.status { mode = mode } })

  abbrev pub cleared : ControllerManager I D → ControllerManager I D
  cleared m = record m {
    controllers = [];
    active = none;
    active_name = "";
    status = blank_status;
    mode = k_unknown;
  }

  -- The mode Auto needs a controller: the desired one, or else the default one.
  abbrev pub enter_auto : ControllerManager I D → Bool × ControllerManager I D
  enter_auto m =
      let enter = after_switch (λ n. (true, in_mode k_auto n)) in
      if not (m.status.desired_controller == "")
      then (if not (has_controller m.status.desired_controller m.controllers)
          then fail m
          else enter (switch_active_controller m.status.desired_controller m))
      else if not (m.default_auto_name == "") && has_controller m.default_auto_name m.controllers
      then enter (
          switch_active_controller m.default_auto_name
            (record m { status = record m.status { desired_controller = m.default_auto_name } }))
      else fail m

  abbrev pub enter_manual : ControllerManager I D → Bool × ControllerManager I D
  enter_manual m =
      if has_controller "manual" m.controllers
      then after_switch (λ n. (true, in_mode k_manual n)) (switch_active_controller "manual" m)
      else (true, in_mode k_manual m)

  unfoldable pub set_mode : ControlMode → ControllerManager I D → Bool × ControllerManager I D
  set_mode k_none m = (true, m)
  set_mode k_unknown m = fail m
  set_mode k_auto m = enter_auto m
  set_mode k_manual m = enter_manual m
  set_mode k_failsafe m = (true, in_mode k_failsafe m)

  -- The controller is switched at once in mode Auto.
  abbrev pub switch_if_auto :
      ControlMode → String → ControllerManager I D → Bool × ControllerManager I D
  switch_if_auto k_auto n m =
      after_switch (λ r. (true, clear_error r)) (switch_active_controller n m)
  switch_if_auto _ n m = (true, clear_error m)

  unfoldable pub select_auto_controller :
      String → ControllerManager I D → Bool × ControllerManager I D
  select_auto_controller n m =
      if n == ""
      then fail m
      else if not (has_controller n m.controllers)
      then fail m
      else switch_if_auto m.mode n
          (record m { status = record m.status { desired_controller = n } })
