-- ===== src/Pwm/Safety/Invariant.antt =====
-- Runs of the safety layer over any host library keep its range.
use mathlib.Core.Path.{subst}
use orange_pi_stm32_for_rov.Prelude.{
  ℕ, zero, suc, ◌≡◌, sym, ◌∙◌, Bool, true, false, Option, none, some, List, [], ◌∷◌, length,
  if◌then◌else◌, if_true, if_false, Bool-cases, inl, inr, All, repeat, All-repeat, length-repeat, ℤ,
}
use orange_pi_stm32_for_rov.Pwm.Float.{SingleOps, SingleLaws}
use orange_pi_stm32_for_rov.Pwm.Host.{PwmhResult, ok}
use orange_pi_stm32_for_rov.Pwm.Host.Send.{channel_index}
use orange_pi_stm32_for_rov.Pwm.Safety.{
  CtrlResult, ctrl_ok, err_not_init, err_invalid_arg, err_internal, PwmCtrl, Transport, nought,
  active_mask_for_this_step, mid_of,
}
use orange_pi_stm32_for_rov.Pwm.Safety.Targets.{
  pwm_ctrl_set_target_pct, pwm_ctrl_set_all_target_mid,
}
use orange_pi_stm32_for_rov.Pwm.Safety.Run.{
  SafetyCommand, do_target, do_targets, do_all_mid, do_dof4, do_reverse, do_step, do_hold, do_stop,
  logged, perform, run_safety,
}
use orange_pi_stm32_for_rov.Pwm.Safety.Step.{
  next_pct, check_hi_load_risk_and_warn, after_step, moving_step, pwm_ctrl_step,
  build_hw_frame_from_motor_pct, hw_loop,
}
use orange_pi_stm32_for_rov.Pwm.Safety.Blocking.{
  continue, step_loop, steps_of, stop_steps, hold, pwm_ctrl_hold_pct_blocking,
  pwm_ctrl_emergency_stop,
}
use orange_pi_stm32_for_rov.Pwm.Safety.Range.{InRange, mid-InRange, mid_of_lem}
use orange_pi_stm32_for_rov.Pwm.Safety.Drive.{hw_loop-InRange, hw_loop-length}
use orange_pi_stm32_for_rov.Pwm.Safety.Keeps.{
  AllInRange, IsSafe, next_pct-InRange, set_target_pct-IsSafe, set_targets_mask-IsSafe,
  all_target_mid-IsSafe, dof4-IsSafe, motor_reverse-IsSafe,
}

module _ {F : Type 0} (O : SingleOps F) (laws : SingleLaws O) where
  abbrev pub FrameInRange : F → F → List F → Type 0
  FrameInRange lo hi frame = All (InRange O laws lo hi) frame × (length frame ≡ 8)

  pub frame-InRange :
      (lo hi : F) (c : PwmCtrl F) (ps : List F)
      → IsSafe O laws lo hi c
      → AllInRange O laws c.cfg ps
      → FrameInRange lo hi (build_hw_frame_from_motor_pct O c ps)
  unfolding build_hw_frame_from_motor_pct
  frame-InRange lo hi c ps s (a, l) =
      let mids = repeat 8 (mid_of O c.cfg) in
      let mid_ok =
        subst (InRange O laws c.cfg.min_pct c.cfg.max_pct) (sym (mid_of_lem O laws c.cfg s.range))
          (mid-InRange O laws c.cfg s.range) in
      let inside =
        hw_loop-InRange O laws c.cfg s.range c.motor_to_pwm c.motor_reverse ps mids a
          (All-repeat (InRange O laws c.cfg.min_pct c.cfg.max_pct) 8 (mid_of O c.cfg) mid_ok) in
      let frame = hw_loop O c.cfg c.motor_to_pwm c.motor_reverse ps mids in
      (
        subst (λ x. All (InRange O laws x hi) frame) s.lowest
            (subst (λ x. All (InRange O laws c.cfg.min_pct x) frame) s.highest inside),
        hw_loop-length O c.cfg c.motor_to_pwm c.motor_reverse ps mids
            ∙ length-repeat 8 (mid_of O c.cfg),
      )

  module _ {H : Type 0} (T : Transport F H) where
    -- A result whose state is safe and whose frames are all in the range.
    abbrev pub IsGood : F → F → PwmCtrl F → H × List (List F) → Type 0
    IsGood lo hi c h = IsSafe O laws lo hi c × All (FrameInRange lo hi) h.1

    after_step-IsGood :
        (lo hi : F) (next : List F) (c : PwmCtrl F) (r : PwmhResult) (h : H × List (List F))
        → IsGood lo hi c h
        → AllInRange O laws c.cfg next
        → let (rc, c', h') = after_step O (logged T) next c (r, h) in IsGood lo hi c' h'
    after_step-IsGood lo hi next c ok h (s, l) n = (
      record {
        lowest = s.lowest;
        highest = s.highest;
        range = s.range;
        current = n;
        target = s.target;
        mapping = s.mapping;
        reverse = s.reverse;
      },
      l,
    )
    after_step-IsGood lo hi next c _ h g n = g

    moving_step-IsGood :
        (now : ℕ) (lo hi : F) (c : PwmCtrl F) (h : H × List (List F))
        → IsGood lo hi c h
        → let (rc, c', h') = moving_step O (logged T) now c h in IsGood lo hi c' h'
    unfolding moving_step check_hi_load_risk_and_warn build_hw_frame_from_motor_pct
    moving_step-IsGood now lo hi c (h, frames) (s, l) =
        let (mask, toggle) = active_mask_for_this_step c.cfg c.group_toggle in
        let next = next_pct O c.cfg mask 0 c.current_pct c.target_pct in
        let c1 = check_hi_load_risk_and_warn O now next (record c { group_toggle = toggle }) in
        let (a, n) =
          next_pct-InRange O laws c.cfg s.range mask 0 c.current_pct c.target_pct s.current.0
            s.target.0 (s.target.1 ∙ sym s.current.1) in
        let in_range : AllInRange O laws c.cfg next = (a, n ∙ s.current.1) in
        let safe : IsSafe O laws lo hi c1 = record {
          lowest = s.lowest;
          highest = s.highest;
          range = s.range;
          current = s.current;
          target = s.target;
          mapping = s.mapping;
          reverse = s.reverse;
        } in
        let frame = build_hw_frame_from_motor_pct O c1 next in
        let (rc, h') = T.set_all_pct frame h in
        after_step-IsGood lo hi next c1 rc (h', frame ∷ frames)
          (safe, (frame-InRange lo hi c1 next safe in_range, l)) in_range

    step-IsGood :
        (now : ℕ) (lo hi : F) (c : PwmCtrl F) (h : H × List (List F))
        → IsGood lo hi c h
        → let (rc, c', h') = pwm_ctrl_step O (logged T) now c h in IsGood lo hi c' h'
    unfolding pwm_ctrl_step
    step-IsGood now lo hi c h g = elim (Bool-cases c.inited) [
      | inl e ↦
          subst (λ (r : CtrlResult × PwmCtrl F × (H × List (List F))). IsGood lo hi r.1 r.2)
            (sym (if_true c.inited (moving_step O (logged T) now c h) (err_not_init, c, h) e))
            (moving_step-IsGood now lo hi c h g)
      | inr e ↦
          subst (λ (r : CtrlResult × PwmCtrl F × (H × List (List F))). IsGood lo hi r.1 r.2)
            (sym (if_false c.inited (moving_step O (logged T) now c h) (err_not_init, c, h) e)) g
    ]

    abbrev pub GoodResult : F → F → CtrlResult × PwmCtrl F × (H × List (List F)) → Type 0
    GoodResult lo hi r = IsGood lo hi r.1 r.2

    continue-IsGood :
        (lo hi : F) (r : CtrlResult × PwmCtrl F × (H × List (List F)))
        (next : PwmCtrl F → H × List (List F) → CtrlResult × PwmCtrl F × (H × List (List F)))
        → GoodResult lo hi r
        → ((c : PwmCtrl F) (h : H × List (List F)) → IsGood lo hi c h → GoodResult lo hi (next c h))
        → GoodResult lo hi (continue O (logged T) r next)
    continue-IsGood lo hi (ctrl_ok, c, (h, frames)) next g f = f c (T.poll h, frames) g
    continue-IsGood lo hi (err_not_init, c, h) next g f = g
    continue-IsGood lo hi (err_invalid_arg, c, h) next g f = g
    continue-IsGood lo hi (err_internal, c, h) next g f = g

    step_loop-IsGood :
        (clock : ℕ → ℕ) (steps : ℕ) (lo hi : F) (c : PwmCtrl F) (h : H × List (List F))
        → IsGood lo hi c h
        → GoodResult lo hi (step_loop O (logged T) clock steps c h)
    unfolding step_loop
    step_loop-IsGood clock zero lo hi c h g = g
    step_loop-IsGood clock (suc steps) lo hi c h g =
        continue-IsGood lo hi (pwm_ctrl_step O (logged T) (clock steps) c h)
          (step_loop O (logged T) clock steps) (step-IsGood (clock steps) lo hi c h g)
          (step_loop-IsGood clock steps lo hi)

    -- A guard that returns everything unchanged.
    unless :
        (b : Bool) (lo hi : F) (x y : CtrlResult × PwmCtrl F × (H × List (List F)))
        → GoodResult lo hi x
        → GoodResult lo hi y
        → GoodResult lo hi (if b then x else y)
    unless true lo hi x y g g' = g
    unless false lo hi x y g g' = g'

    hold-IsGood :
        (now : ℕ) (clock : ℕ → ℕ) (ch : ℤ) (p seconds : F) (lo hi : F) (c : PwmCtrl F)
        (h : H × List (List F)) (i : Option ℕ)
        → IsGood lo hi c h
        → GoodResult lo hi (hold O (logged T) now clock ch p seconds c h i)
    hold-IsGood now clock ch p seconds lo hi c h none g = g
    hold-IsGood now clock ch p seconds lo hi c h (some i) g =
        let c1 = (pwm_ctrl_set_target_pct O now ch p c).1 in
        unless (O.le seconds (nought O)) lo hi (err_invalid_arg, c, h) _ g
          (step_loop-IsGood clock (steps_of O c1.cfg seconds) lo hi c1 h
            (set_target_pct-IsSafe O laws lo hi c g.0 now ch p, g.1))

    perform-IsGood :
        (m : SafetyCommand F) (lo hi : F) (c : PwmCtrl F) (h : H × List (List F))
        → IsGood lo hi c h
        → GoodResult lo hi (perform O (logged T) m c h)
    unfolding pwm_ctrl_hold_pct_blocking pwm_ctrl_emergency_stop
    perform-IsGood (do_target now ch p) lo hi c h (s, l) =
        (set_target_pct-IsSafe O laws lo hi c s now ch p, l)
    perform-IsGood (do_targets clock mask ps) lo hi c h (s, l) =
        (set_targets_mask-IsSafe O laws lo hi c s clock mask ps, l)
    perform-IsGood do_all_mid lo hi c h (s, l) = (all_target_mid-IsSafe O laws lo hi c s, l)
    perform-IsGood (do_dof4 clock cmd) lo hi c h (s, l) =
        (dof4-IsSafe O laws lo hi c s clock cmd, l)
    perform-IsGood (do_reverse id enable) lo hi c h (s, l) =
        (motor_reverse-IsSafe O laws lo hi c s id enable, l)
    perform-IsGood (do_step now) lo hi c h g = step-IsGood now lo hi c h g
    perform-IsGood (do_hold now clock ch p seconds) lo hi c h g =
        unless c.inited lo hi _ (err_not_init, c, h)
          (hold-IsGood now clock ch p seconds lo hi c h (channel_index ch) g) g
    perform-IsGood (do_stop clock seconds) lo hi c h g =
        let c1 = (pwm_ctrl_set_all_target_mid O c).1 in
        unless c.inited lo hi _ (err_not_init, c, h)
          (step_loop-IsGood clock (stop_steps O c1 seconds) lo hi c1 h
            (all_target_mid-IsSafe O laws lo hi c g.0, g.1))
          g

    pub run-IsGood :
        (ms : List (SafetyCommand F)) (lo hi : F) (c : PwmCtrl F) (h : H × List (List F))
        → IsGood lo hi c h
        → let (c', h') = run_safety O (logged T) ms c h in IsGood lo hi c' h'
    unfolding run_safety
    run-IsGood [] lo hi c h g = g
    run-IsGood (m ∷ ms) lo hi c h g =
        let (rc, c', h') = perform O (logged T) m c h in
        run-IsGood ms lo hi c' h' (perform-IsGood m lo hi c h g)
