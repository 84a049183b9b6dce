-- ===== src/Control/Manager/Ops.antt =====
-- controller_manager.cpp: initialisation, registration, commands and compute.
use text.Mathlib.Text.{◌==◌}
use orange_pi_stm32_for_rov.Prelude.{
  ℕ, ◌+◌, ◌-◌, ◌^◌, Bool, true, false, not, ◌&&◌, Option, none, some, String, [], ◌∷◌, leb,
  if◌then◌else◌, u32, u64,
}
use orange_pi_stm32_for_rov.Control.Mode.{ControlMode, k_manual, k_auto, k_failsafe, k_unknown}
use orange_pi_stm32_for_rov.Pwm.Float.{SingleOps}
use orange_pi_stm32_for_rov.Control.Manager.{
  IController, ControllerManager, ControllerManagerOptions, ControlCommand, no_command, set_manual,
  set_auto, set_failsafe, query_status, emergency_stop, select_auto, has_controller,
  find_controller, put_controller, fail, clear_error, switch_active_controller, after_switch,
  in_mode, default_name, cleared, set_mode, select_auto_controller,
}

module _ {I S R O D : Type 0} (F : SingleOps D) (C : IController I S R O D) (zero_output : O) where
  unfoldable pub init_manual_only : Option I → ControllerManager I D → Bool × ControllerManager I D
  init_manual_only none m = fail (record (cleared m) { default_auto_name = default_name m.options })
  init_manual_only (some c) m =
      after_switch (λ r. (true, in_mode k_manual r))
        (switch_active_controller (C.name c) (record (cleared m) {
          default_auto_name = default_name m.options;
          controllers = (C.name c, c) ∷ [];
        }))

  -- register_builtin_controllers adds none and clears the error.
  unfoldable pub init_from_params : Option I → ControllerManager I D → Bool × ControllerManager I D
  init_from_params none m = fail (cleared m)
  init_from_params (some c) m =
      let r = record (clear_error (record (cleared m) { controllers = (C.name c, c) ∷ [] })) {
        default_auto_name = default_name m.options;
      } in
      let first = if has_controller "manual" r.controllers then "manual" else C.name c in
      after_switch (λ r. (true, in_mode k_manual r)) (switch_active_controller first r)

  unfoldable pub register_controller :
      Option I → ControllerManager I D → Bool × ControllerManager I D
  register_controller none m = fail m
  register_controller (some c) m =
      if C.name c == ""
      then fail m
      else if has_controller (C.name c) m.controllers
      then fail m
      else (true, clear_error (record m { controllers = (C.name c, C.reset c) ∷ m.controllers }))

  unfoldable pub allow_switch_now : (now : ℕ) → ControllerManager I D → Bool
  allow_switch_now now m =
      let interval = m.options.min_switch_interval_sec in
      let last = m.status.last_switch_t_ns in
      if F.le interval (F.lit 0 1)
      then true
      else if leb last 0
      then true
      else F.le (F.mul interval (F.lit 1_000_000_000 1)) (F.of_nat (u64 (now + 2 ^ 64 - last)))

  abbrev pub switched_at : (now : ℕ) → ControllerManager I D → ControllerManager I D
  switched_at now m = record m { status = record m.status { last_switch_t_ns = now } }

  -- Commands that are refused when they come too soon.
  abbrev pub throttled :
      (force : Bool) (now : ℕ) (m : ControllerManager I D)
      → (ControllerManager I D → Bool × ControllerManager I D)
      → Bool × ControllerManager I D
  throttled force now m next =
      if not force && not (allow_switch_now now m) then fail m else next (switched_at now m)

  unfoldable pub apply_command :
      ControlCommand
      → (force : Bool) (now : ℕ) → ControllerManager I D
      → Bool × ControllerManager I D
  apply_command no_command force now m = (true, m)
  apply_command set_manual force now m = throttled force now m (set_mode k_manual)
  apply_command set_auto force now m = throttled force now m (set_mode k_auto)
  apply_command set_failsafe force now m = set_mode k_failsafe (switched_at now m)
  apply_command (select_auto n) force now m = throttled force now m (select_auto_controller n)
  apply_command query_status force now m = (true, m)
  apply_command emergency_stop force now m = set_mode k_failsafe (switched_at now m)

  abbrev pub apply_failsafe_output : ControllerManagerOptions D → O → O
  apply_failsafe_output o out = if o.failsafe_zero_output then zero_output else out

  abbrev pub compute_failed : O → ControllerManager I D → Bool × O × ControllerManager I D
  compute_failed out m =
      let n = u32 (m.status.consecutive_failures + 1) in
      let r = record m { status = record m.status { consecutive_failures = n; ok = false } } in
      if leb m.options.auto_fail_limit n
      then (
        false,
        apply_failsafe_output m.options out,
        record r { mode = k_failsafe; status = record r.status { mode = k_failsafe } },
      )
      else (false, out, r)

  -- What the active controller's compute returned.
  abbrev pub computed :
      String → Bool × O × I → ControllerManager I D → Bool × O × ControllerManager I D
  computed n (ok, out, c) m =
      let r = record m {
        controllers = put_controller n c m.controllers;
        status = record m.status { last_compute_ok = ok };
      } in
      if ok
      then (
        true,
        out,
        clear_error (record r { status = record r.status { consecutive_failures = 0 } }),
      )
      else compute_failed out r

  abbrev pub no_active : O → ControllerManager I D → Bool × O × ControllerManager I D
  no_active out m = (false, apply_failsafe_output m.options out, (fail m).1)

  -- The active controller is registered, so that the second clause is not reached.
  abbrev pub delegate :
      S
      → R
      → O
      → D
      → (n : String) → Option I
      → ControllerManager I D
      → Bool × O × ControllerManager I D
  delegate s ref out dt n (some c) m = computed n (C.compute c s ref out dt) m
  delegate s ref out dt n none m = no_active out m

  abbrev pub with_active :
      S → R → O → D → Option String → ControllerManager I D → Bool × O × ControllerManager I D
  with_active s ref out dt none m = no_active out m
  with_active s ref out dt (some n) m = delegate s ref out dt n (find_controller n m.controllers) m

  abbrev pub compute_in :
      ControlMode → S → R → O → D → ControllerManager I D → Bool × O × ControllerManager I D
  compute_in k_failsafe s ref out dt m = (
    true,
    apply_failsafe_output m.options out,
    clear_error (record m { status = record m.status { last_compute_ok = true } }),
  )
  compute_in k_unknown s ref out dt m = no_active out m
  compute_in _ s ref out dt m = with_active s ref out dt m.active m

  unfoldable pub compute : S → R → O → D → ControllerManager I D → Bool × O × ControllerManager I D
  compute s ref out dt m =
      compute_in m.mode s ref out dt
        (record m { status = record m.status { last_compute_ok = false } })
