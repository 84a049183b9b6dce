-- ===== src/Pwm/Safety/Blocking.antt =====
-- pwm_control.c: the operations that step for some time.
use orange_pi_stm32_for_rov.Prelude.{
  ℕ, zero, suc, Option, none, some, List, [], ◌∷◌, ltb, if◌then◌else◌, ℤ,
}
use orange_pi_stm32_for_rov.Pwm.Float.{SingleOps}
use orange_pi_stm32_for_rov.Pwm.Host.Life.{positive_or}
use orange_pi_stm32_for_rov.Pwm.Host.Send.{channel_index}
use orange_pi_stm32_for_rov.Pwm.Safety.{
  CtrlResult, ctrl_ok, err_not_init, err_invalid_arg, PwmCtrlConfig, PwmCtrl, Transport, nought,
  positive_else, max_step_pct_effective,
}
use orange_pi_stm32_for_rov.Pwm.Safety.Targets.{
  pwm_ctrl_set_target_pct, pwm_ctrl_set_all_target_mid,
}
use orange_pi_stm32_for_rov.Pwm.Safety.Step.{pwm_ctrl_step}

module _ {F : Type 0} (O : SingleOps F) where
  open O use {lt, le, lit, add, sub, mul, div, fabs, trunc}

  -- The steps of `seconds`, at least one.
  abbrev pub steps_of : PwmCtrlConfig F → F → ℕ
  steps_of cfg seconds =
      positive_or 1 (trunc (add (mul seconds (positive_else O (lit 50 1) cfg.ctrl_hz)) (lit 5 10)))

  abbrev pub max_dev : PwmCtrlConfig F → F → List F → F
  max_dev cfg best [] = best
  max_dev cfg best (p ∷ ps) =
      let dev = fabs (sub p cfg.mid_pct) in max_dev cfg (if lt best dev then dev else best) ps

  -- The steps that the largest deviation takes.
  unfoldable pub steps_by_dev : PwmCtrl F → ℕ
  steps_by_dev c =
      let step = max_step_pct_effective O c.cfg in
      if lt (nought O) step
      then positive_or 1 (trunc (add (div (max_dev c.cfg (nought O) c.current_pct) step) (lit 1 1)))
      else 1

  unfoldable pub stop_steps : PwmCtrl F → F → ℕ
  stop_steps c seconds =
      if lt (nought O) seconds
      then (let by_time = steps_of c.cfg seconds in
          if ltb (steps_by_dev c) by_time then by_time else steps_by_dev c)
      else steps_by_dev c

  module _ {H : Type 0} (T : Transport F H) where
    -- After a step: polling and the next one, or the error.
    abbrev pub continue :
        CtrlResult × PwmCtrl F × H
        → (PwmCtrl F → H → CtrlResult × PwmCtrl F × H)
        → CtrlResult × PwmCtrl F × H
    continue (ctrl_ok, c, h) next = next c (T.poll h)
    continue (rc, c, h) next = (rc, c, h)

    -- `steps` steps, each with a poll behind it; `clock i` is the reading in the step with `i` left.
    unfoldable pub step_loop :
        (clock : ℕ → ℕ) (steps : ℕ) → PwmCtrl F → H → CtrlResult × PwmCtrl F × H
    step_loop clock zero c h = (ctrl_ok, c, h)
    step_loop clock (suc steps) c h =
        continue (pwm_ctrl_step O T (clock steps) c h) (step_loop clock steps)

    abbrev pub hold :
        (now : ℕ) (clock : ℕ → ℕ)
        → ℤ
        → (pct seconds : F) → PwmCtrl F
        → H
        → Option ℕ
        → CtrlResult × PwmCtrl F × H
    hold now clock ch pct seconds c h none = (err_invalid_arg, c, h)
    hold now clock ch pct seconds c h (some i) =
        if le seconds (nought O)
        then (err_invalid_arg, c, h)
        else let (rc, c) = pwm_ctrl_set_target_pct O now ch pct c in
          step_loop clock (steps_of c.cfg seconds) c h

    unfoldable pub pwm_ctrl_hold_pct_blocking :
        (now : ℕ) (clock : ℕ → ℕ)
        → ℤ
        → (pct seconds : F) → PwmCtrl F
        → H
        → CtrlResult × PwmCtrl F × H
    pwm_ctrl_hold_pct_blocking now clock ch pct seconds c h =
        if c.inited
        then hold now clock ch pct seconds c h (channel_index ch)
        else (err_not_init, c, h)

    unfoldable pub pwm_ctrl_emergency_stop :
        (clock : ℕ → ℕ) → (seconds : F) → PwmCtrl F → H → CtrlResult × PwmCtrl F × H
    pwm_ctrl_emergency_stop clock seconds c h =
        if c.inited
        then (let (rc, c) = pwm_ctrl_set_all_target_mid O c in
            step_loop clock (stop_steps c seconds) c h)
        else (err_not_init, c, h)
