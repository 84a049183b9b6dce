-- ===== src/Pwm/Safety/Step.antt =====
-- pwm_control.c: the frame of the hardware channels, initialisation, the step and the motor reverse.
use orange_pi_stm32_for_rov.Prelude.{
  set_at, repeat, ℕ, zero, suc, ◌+◌, Bool, true, false, ◌&&◌, ◌||◌, Option, none, some, List, [],
  ◌∷◌, leb, if◌then◌else◌, u64, ℤ, pos, negsuc,
}
use orange_pi_stm32_for_rov.Pwm.Float.{SingleOps}
use orange_pi_stm32_for_rov.Pwm.Host.{PwmhResult, ok}
use orange_pi_stm32_for_rov.Pwm.Host.Send.{channel_index}
use orange_pi_stm32_for_rov.Pwm.Safety.{
  CtrlResult, ctrl_ok, err_not_init, err_invalid_arg, err_internal, PwmCtrlConfig, PwmCtrl,
  Transport, warn_rate_limited, ch_in_mask, active_mask_for_this_step, min_of, mid_of, max_of,
  between, clamp_pct, max_step_pct_effective, nought, positive_else,
}
use orange_pi_stm32_for_rov.Pwm.Safety.Config.{
  zero_config, sanitize_config, init_state_to_mid, init_motor_mapping_from_cfg,
}

module _ {F : Type 0} (O : SingleOps F) where
  open O use {lt, le, lit, add, sub, neg, fabs}

  -- The percentage of a motor on its channel.
  abbrev pub hw_value : PwmCtrlConfig F → (reverse : Bool) → F → F
  hw_value cfg reverse p =
      let p = if reverse then sub (add (min_of O cfg) (max_of O cfg)) p else p in
      between O (min_of O cfg) (max_of O cfg) p

  -- The loop over the motors; a channel out of range is passed over.
  unfoldable pub hw_loop :
      PwmCtrlConfig F → (mapping : List ℕ) (reverse : List Bool) (motor_pct hw : List F) → List F
  hw_loop cfg (suc idx ∷ ms) (r ∷ rs) (p ∷ ps) hw =
      hw_loop cfg ms rs ps (set_at idx (hw_value cfg r p) hw)
  hw_loop cfg (zero ∷ ms) (r ∷ rs) (p ∷ ps) hw = hw_loop cfg ms rs ps hw
  hw_loop cfg [] rs ps hw = hw
  hw_loop cfg (m ∷ ms) [] ps hw = hw
  hw_loop cfg (m ∷ ms) (r ∷ rs) [] hw = hw

  unfoldable pub build_hw_frame_from_motor_pct : PwmCtrl F → List F → List F
  build_hw_frame_from_motor_pct c motor_pct =
      hw_loop c.cfg c.motor_to_pwm c.motor_reverse motor_pct (repeat 8 (mid_of O c.cfg))

  abbrev pub given_or_zero : Option (PwmCtrlConfig F) → PwmCtrlConfig F
  given_or_zero none = zero_config O
  given_or_zero (some cfg) = cfg

  -- The target of a motor in this step: the middle, when the motor would have to change direction.
  unfoldable pub eff_target : PwmCtrlConfig F → (cur tgt : F) → F
  eff_target cfg cur tgt =
      let mid = cfg.mid_pct in
      let above = λ (x : F). lt (add mid (lit 1 1000000)) x in
      let below = λ (x : F). lt x (sub mid (lit 1 1000000)) in
      if cfg.enable_reverse_protection && (above cur && below tgt || below cur && above tgt)
      then mid
      else tgt

  -- The change of a motor, limited to what a step may change.
  unfoldable pub limited_delta : PwmCtrlConfig F → (cur tgt : F) → F
  limited_delta cfg cur tgt =
      let max_step = max_step_pct_effective O cfg in
      let delta = sub (eff_target cfg cur tgt) cur in
      if lt max_step (fabs delta)
      then (if lt (nought O) delta then max_step else neg max_step)
      else delta

  -- The percentage of the motor with index `i` after the step.
  unfoldable pub next_of : PwmCtrlConfig F → (mask i : ℕ) (cur tgt : F) → F
  next_of cfg mask i cur tgt =
      if ch_in_mask i mask then clamp_pct O cfg (add cur (limited_delta cfg cur tgt)) else cur

  -- The loop over the motors from index `i` on.
  unfoldable pub next_pct : PwmCtrlConfig F → (mask i : ℕ) (current target : List F) → List F
  next_pct cfg mask i [] ts = []
  next_pct cfg mask i (c ∷ cs) [] = []
  next_pct cfg mask i (c ∷ cs) (t ∷ ts) = next_of cfg mask i c t ∷ next_pct cfg mask (i + 1) cs ts

  -- How many motors are at least 0.8 away from the middle.
  abbrev pub active_count : F → List F → ℕ
  active_count mid [] = 0
  active_count mid (p ∷ ps) =
      let rest = active_count mid ps in if le (lit 8 10) (fabs (sub p mid)) then rest + 1 else rest

  -- The number of steps of three seconds, if positive.
  abbrev pub reached : ℤ → ℕ → Bool
  reached (pos zero) steps = false
  reached (pos (suc n)) steps = leb (suc n) steps
  reached (negsuc n) steps = false

  unfoldable pub check_hi_load_risk_and_warn : (now : ℕ) → List F → PwmCtrl F → PwmCtrl F
  check_hi_load_risk_and_warn now next c =
      let steps = if leb 4 (active_count c.cfg.mid_pct next) then c.hi_load_run_steps + 1 else 0 in
      let hz = positive_else O (lit 50 1) c.cfg.ctrl_hz in
      let steps_thresh = O.trunc (add (O.mul (lit 3 1) hz) (lit 5 10)) in
      record c {
        hi_load_run_steps = steps;
        last_warn_ns =
            if reached steps_thresh steps
            then warn_rate_limited now c.last_warn_ns
            else c.last_warn_ns;
      }

  abbrev pub pwm_ctrl_deinit : PwmCtrl F → PwmCtrl F
  pwm_ctrl_deinit c = record c { inited = false }

  abbrev pub set_reverse : (enable : Bool) → PwmCtrl F → Option ℕ → CtrlResult × PwmCtrl F
  set_reverse enable c none = (err_invalid_arg, c)
  set_reverse enable c (some idx) = (
    ctrl_ok,
    record c {
      motor_reverse = set_at idx enable c.motor_reverse;
      cfg = record c.cfg { motor_reverse = set_at idx enable c.cfg.motor_reverse };
    },
  )

  unfoldable pub pwm_ctrl_set_motor_reverse :
      (motor_id : ℤ) (enable : Bool) → PwmCtrl F → CtrlResult × PwmCtrl F
  pwm_ctrl_set_motor_reverse motor_id enable c =
      if c.inited then set_reverse enable c (channel_index motor_id) else (err_not_init, c)

  module _ {H : Type 0} (T : Transport F H) where
    -- What follows sending in pwm_ctrl_init.
    abbrev pub after_init : PwmCtrl F → PwmhResult × H → CtrlResult × PwmCtrl F × H
    after_init c (ok, h) = (ctrl_ok, record c { inited = true }, h)
    after_init c (_, h) = (err_internal, c, h)

    -- `inited` keeps its value when the first frame is not sent.
    unfoldable pub pwm_ctrl_init :
        Option (PwmCtrlConfig F) → PwmCtrl F → H → CtrlResult × PwmCtrl F × H
    pwm_ctrl_init config c h =
        let c = record c { cfg = sanitize_config O (given_or_zero config) } in
        let c = init_motor_mapping_from_cfg O (init_state_to_mid O c) in
        after_init c (T.set_all_pct (build_hw_frame_from_motor_pct c c.current_pct) h)

    -- What follows sending in pwm_ctrl_step.
    abbrev pub after_step :
        (next : List F) → PwmCtrl F → PwmhResult × H → CtrlResult × PwmCtrl F × H
    after_step next c (ok, h) =
        (ctrl_ok, record c { current_pct = next; step_count = u64 (c.step_count + 1) }, h)
    after_step next c (_, h) = (err_internal, c, h)

    -- The step of an initialised layer.
    unfoldable pub moving_step : (now : ℕ) → PwmCtrl F → H → CtrlResult × PwmCtrl F × H
    moving_step now c h =
        let (mask, toggle) = active_mask_for_this_step c.cfg c.group_toggle in
        let next = next_pct c.cfg mask 0 c.current_pct c.target_pct in
        let c = check_hi_load_risk_and_warn now next (record c { group_toggle = toggle }) in
        after_step next c (T.set_all_pct (build_hw_frame_from_motor_pct c next) h)

    unfoldable pub pwm_ctrl_step : (now : ℕ) → PwmCtrl F → H → CtrlResult × PwmCtrl F × H
    pwm_ctrl_step now c h = if c.inited then moving_step now c h else (err_not_init, c, h)
