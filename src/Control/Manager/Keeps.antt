-- ===== src/Control/Manager/Keeps.antt =====
-- Every operation keeps the controller manager consistent.
use mathlib.Core.Path.{subst}
use text.Mathlib.Text.{◌==◌}
use orange_pi_stm32_for_rov.Prelude.{
  ℕ, ◌≡◌, refl, sym, ap, ◌∙◌, inl, inr, Bool-cases, if_true, if_false, Bool, true, false, not, ◌&&◌,
  Option, none, some, String, List, [], ◌∷◌, if◌then◌else◌, leb, arith, u32, ◌+◌,
}
use orange_pi_stm32_for_rov.Control.Mode.{
  ControlMode, k_none, k_manual, k_auto, k_failsafe, k_unknown,
}
use orange_pi_stm32_for_rov.Pwm.Float.{SingleOps}
use orange_pi_stm32_for_rov.Control.Manager.{
  IController, ControllerManager, ControlCommand, no_command, set_manual, set_auto, set_failsafe,
  query_status, emergency_stop, select_auto, has_controller, put_controller, select_auto_controller,
  clear_error, switch_if_auto, switch_active_controller, after_switch,
}
use orange_pi_stm32_for_rov.Control.Manager.Ops.{
  allow_switch_now, apply_command, compute, with_active, delegate, computed, compute_in,
  compute_failed,
}
use orange_pi_stm32_for_rov.Control.Manager.Consistent.{
  IsKnown, IsKnown-put_controller, has_self, IsConsistent, fail-IsConsistent, if-IsConsistent,
  set_mode-IsConsistent,
}

module _ {I S R O D : Type 0} (F : SingleOps D) (C : IController I S R O D) (zero_output : O) where
  switch_if_auto-IsConsistent :
      (mode : ControlMode) (n : String) (m : ControllerManager I D)
      → has_controller n m.controllers ≡ true
      → m.status.desired_controller ≡ n
      → IsKnown m.active m.controllers
      → m.mode ≡ mode
      → IsConsistent (switch_if_auto mode n m).1
  unfolding switch_active_controller
  switch_if_auto-IsConsistent k_auto n m h d k e =
      subst
        (λ (r : Bool × ControllerManager I D).
          IsConsistent (after_switch (λ r. (true, clear_error r)) r).1)
        (sym (if_true (has_controller n m.controllers) _ _ h))
        (record { known = h; desired = λ a. ap some (sym d) })
  switch_if_auto-IsConsistent k_none n m h d k e = record {
    known = k;
    desired = λ a. absurd (ground arith);
  }
  switch_if_auto-IsConsistent k_manual n m h d k e = record {
    known = k;
    desired = λ a. absurd (ground arith);
  }
  switch_if_auto-IsConsistent k_failsafe n m h d k e = record {
    known = k;
    desired = λ a. absurd (ground arith);
  }
  switch_if_auto-IsConsistent k_unknown n m h d k e = record {
    known = k;
    desired = λ a. absurd (ground arith);
  }

  pub select-IsConsistent :
      (n : String) (m : ControllerManager I D)
      → IsConsistent m
      → IsConsistent (select_auto_controller n m).1
  unfolding select_auto_controller
  select-IsConsistent n m h =
      if-IsConsistent (n == "") _ _ (λ e. fail-IsConsistent m h)
        (λ e.
          if-IsConsistent (not (has_controller n m.controllers)) _ _ (λ a. fail-IsConsistent m h)
            (λ a. switch_if_auto-IsConsistent m.mode n _ (ground arith) refl h.known refl))

  pub command-IsConsistent :
      (cmd : ControlCommand) (force : Bool) (now : ℕ) (m : ControllerManager I D)
      → IsConsistent m
      → IsConsistent (apply_command F C zero_output cmd force now m).1
  unfolding apply_command
  command-IsConsistent no_command force now m h = h
  command-IsConsistent query_status force now m h = h
  command-IsConsistent set_failsafe force now m h =
      set_mode-IsConsistent k_failsafe _ (record { known = h.known; desired = h.desired })
  command-IsConsistent emergency_stop force now m h =
      set_mode-IsConsistent k_failsafe _ (record { known = h.known; desired = h.desired })
  command-IsConsistent set_manual force now m h =
      if-IsConsistent (not force && not (allow_switch_now F C zero_output now m)) _ _
        (λ e. fail-IsConsistent m h)
        (λ e. set_mode-IsConsistent k_manual _ (record { known = h.known; desired = h.desired }))
  command-IsConsistent set_auto force now m h =
      if-IsConsistent (not force && not (allow_switch_now F C zero_output now m)) _ _
        (λ e. fail-IsConsistent m h)
        (λ e. set_mode-IsConsistent k_auto _ (record { known = h.known; desired = h.desired }))
  command-IsConsistent (select_auto n) force now m h =
      if-IsConsistent (not force && not (allow_switch_now F C zero_output now m)) _ _
        (λ e. fail-IsConsistent m h)
        (λ e. select-IsConsistent n _ (record { known = h.known; desired = h.desired }))

  failed-IsConsistent :
      (out : O) (m : ControllerManager I D)
      → IsConsistent m
      → IsConsistent (compute_failed F C zero_output out m).2
  failed-IsConsistent out m h =
      elim (Bool-cases (leb m.options.auto_fail_limit (u32 (m.status.consecutive_failures + 1)))) [
        | inl e ↦
            subst (λ (r : Bool × O × ControllerManager I D). IsConsistent r.2)
              (sym (if_true _ _ _ e))
              (record { known = h.known; desired = λ a. absurd (ground arith) })
        | inr e ↦
            subst (λ (r : Bool × O × ControllerManager I D). IsConsistent r.2)
              (sym (if_false _ _ _ e)) (record { known = h.known; desired = h.desired })
      ]

  computed-IsConsistent :
      (n : String) (r : Bool × O × I) (m : ControllerManager I D)
      → IsConsistent m
      → IsConsistent (computed F C zero_output n r m).2
  computed-IsConsistent n (true, out, c) m h = record {
    known = IsKnown-put_controller m.active n c m.controllers h.known;
    desired = h.desired;
  }
  computed-IsConsistent n (false, out, c) m h =
      failed-IsConsistent out
        (record m {
          controllers = put_controller n c m.controllers;
          status = record m.status { last_compute_ok = false };
        })
        (record {
          known = IsKnown-put_controller m.active n c m.controllers h.known;
          desired = h.desired;
        })

  delegate-IsConsistent :
      (s : S) (ref : R) (out : O) (dt : D) (n : String) (c : Option I) (m : ControllerManager I D)
      → IsConsistent m
      → IsConsistent (delegate F C zero_output s ref out dt n c m).2
  delegate-IsConsistent s ref out dt n none m h = fail-IsConsistent m h
  delegate-IsConsistent s ref out dt n (some c) m h = computed-IsConsistent n _ m h

  active-IsConsistent :
      (s : S) (ref : R) (out : O) (dt : D) (o : Option String) (m : ControllerManager I D)
      → IsConsistent m
      → IsConsistent (with_active F C zero_output s ref out dt o m).2
  active-IsConsistent s ref out dt none m h = fail-IsConsistent m h
  active-IsConsistent s ref out dt (some n) m h = delegate-IsConsistent s ref out dt n _ m h

  mode-IsConsistent :
      (mode : ControlMode) (s : S) (ref : R) (out : O) (dt : D) (m : ControllerManager I D)
      → IsConsistent m
      → IsConsistent (compute_in F C zero_output mode s ref out dt m).2
  mode-IsConsistent k_failsafe s ref out dt m h = record { known = h.known; desired = h.desired }
  mode-IsConsistent k_unknown s ref out dt m h = fail-IsConsistent m h
  mode-IsConsistent k_none s ref out dt m h = active-IsConsistent s ref out dt m.active m h
  mode-IsConsistent k_manual s ref out dt m h = active-IsConsistent s ref out dt m.active m h
  mode-IsConsistent k_auto s ref out dt m h = active-IsConsistent s ref out dt m.active m h

  pub compute-IsConsistent :
      (s : S) (ref : R) (out : O) (dt : D) (m : ControllerManager I D)
      → IsConsistent m
      → IsConsistent (compute F C zero_output s ref out dt m).2
  unfolding compute
  compute-IsConsistent s ref out dt m h =
      mode-IsConsistent m.mode s ref out dt _ (record { known = h.known; desired = h.desired })

  pub first_known :
      (n : String) (c : I)
      → let cs : List (String × I) = (n, c) ∷ [] in
        has_controller (if has_controller "manual" cs then "manual" else n) cs ≡ true
  first_known n c =
      let cs : List (String × I) = (n, c) ∷ [] in
      elim (Bool-cases (has_controller "manual" cs)) [
        | inl e ↦ ap (λ x. has_controller x cs) (if_true _ _ _ e) ∙ e
        | inr e ↦ ap (λ x. has_controller x cs) (if_false _ _ _ e) ∙ has_self n c
      ]
