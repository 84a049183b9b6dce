-- ===== src/Pwm/Safety/Targets.antt =====
-- pwm_control.c: what the caller asks for.
use orange_pi_stm32_for_rov.Prelude.{
  set_at, repeat, ℕ, ◌+◌, Bool, true, false, not, ◌||◌, Option, none, some, List, [], ◌∷◌,
  if◌then◌else◌, ℤ,
}
use orange_pi_stm32_for_rov.Pwm.Float.{SingleOps}
use orange_pi_stm32_for_rov.Pwm.Host.Send.{channel_index}
use orange_pi_stm32_for_rov.Pwm.Safety.{
  CtrlResult, ctrl_ok, err_not_init, err_invalid_arg, PwmCtrlConfig, PwmCtrl, mask_all,
  warn_rate_limited, ch_in_mask, nought, min_of, mid_of, max_of, clamp_pct, clamp_unit,
}

-- cmd of pwm_ctrl_set_targets_from_dof4.
pub record PwmCtrlDof4Cmd (F : Type 0) : Type 0 where
  pub surge : F
  pub sway : F
  pub heave : F
  pub yaw : F

module _ {F : Type 0} (O : SingleOps F) where
  open O use {lt, le, lit, add, sub, mul}

  -- Outside the range of the configuration.
  abbrev pub out_of_range : PwmCtrlConfig F → F → Bool
  out_of_range cfg p = lt p (min_of O cfg) || lt (max_of O cfg) p

  -- The target for the requested `p`, and whether it is warned of.
  unfoldable pub sanitize_pct_input : PwmCtrlConfig F → F → F × Bool
  sanitize_pct_input cfg p =
      if lt p (nought O)
      then (mid_of O cfg, false)
      else if not (O.is_finite p)
      then (mid_of O cfg, true)
      else if out_of_range cfg p
      then (mid_of O cfg, true)
      else (clamp_pct O cfg p, false)

  -- The time of the last warning after a possible one.
  abbrev pub warned_at : (warns : Bool) (now last_warn_ns : ℕ) → ℕ
  warned_at warns now last_warn_ns =
      if warns then warn_rate_limited now last_warn_ns else last_warn_ns

  abbrev pub set_target : (now : ℕ) → F → PwmCtrl F → Option ℕ → CtrlResult × PwmCtrl F
  set_target now pct c none = (err_invalid_arg, c)
  set_target now pct c (some i) =
      let (p, warns) = sanitize_pct_input c.cfg pct in
      (
        ctrl_ok,
        record c {
          target_pct = set_at i p c.target_pct;
          last_warn_ns = warned_at warns now c.last_warn_ns;
        },
      )

  unfoldable pub pwm_ctrl_set_target_pct : (now : ℕ) → ℤ → F → PwmCtrl F → CtrlResult × PwmCtrl F
  pwm_ctrl_set_target_pct now ch pct c =
      if c.inited then set_target now pct c (channel_index ch) else (err_not_init, c)

  -- The loop of pwm_ctrl_set_targets_mask from channel index `i` on: the targets, and the time of the
  -- last warning. `clock i` is the reading at channel `i`.
  unfoldable pub targets_loop :
      PwmCtrlConfig F
      → (clock : ℕ → ℕ) (mask i : ℕ) (pct targets : List F) (last_warn_ns : ℕ) → List F × ℕ
  targets_loop cfg clock mask i [] targets last_warn_ns = (targets, last_warn_ns)
  targets_loop cfg clock mask i (p ∷ ps) [] last_warn_ns = ([], last_warn_ns)
  targets_loop cfg clock mask i (p ∷ ps) (t ∷ ts) last_warn_ns =
      let (q, warns) = sanitize_pct_input cfg p in
      let moved = ch_in_mask i mask in
      let last = if moved then warned_at warns (clock i) last_warn_ns else last_warn_ns in
      let (rest, last') = targets_loop cfg clock mask (i + 1) ps ts last in
      ((if moved then q else t) ∷ rest, last')

  -- none stands for a null pointer.
  abbrev pub set_targets :
      (clock : ℕ → ℕ) (mask : ℕ) → PwmCtrl F → Option (List F) → CtrlResult × PwmCtrl F
  set_targets clock mask c none = (err_invalid_arg, c)
  set_targets clock mask c (some ps) =
      let (targets, last) = targets_loop c.cfg clock mask 0 ps c.target_pct c.last_warn_ns in
      (ctrl_ok, record c { target_pct = targets; last_warn_ns = last })

  unfoldable pub pwm_ctrl_set_targets_mask :
      (clock : ℕ → ℕ) (mask : ℕ) → Option (List F) → PwmCtrl F → CtrlResult × PwmCtrl F
  pwm_ctrl_set_targets_mask clock mask pct c =
      if c.inited then set_targets clock mask c pct else (err_not_init, c)

  unfoldable pub pwm_ctrl_set_all_target_mid : PwmCtrl F → CtrlResult × PwmCtrl F
  pwm_ctrl_set_all_target_mid c =
      if c.inited
      then (ctrl_ok, record c { target_pct = repeat 8 c.cfg.mid_pct })
      else (err_not_init, c)

  -- The travel that both directions have.
  unfoldable pub dof_span : PwmCtrlConfig F → F
  dof_span cfg =
      let span_up = sub (max_of O cfg) (mid_of O cfg) in
      let span_down = sub (mid_of O cfg) (min_of O cfg) in
      let span = if lt span_up span_down then span_up else span_down in
      if le span (nought O) then mul (sub (max_of O cfg) (min_of O cfg)) (lit 5 10) else span

  -- The mixing: each channel's percentage for the four degrees of freedom.
  unfoldable pub mix_dof4 : PwmCtrlConfig F → PwmCtrlDof4Cmd F → List F
  mix_dof4 cfg cmd =
      let mid = mid_of O cfg in
      let delta_h = mul (lit 8 10) (dof_span cfg) in
      let delta_v = mul (lit 8 10) (dof_span cfg) in
      let su = clamp_unit O cmd.surge in
      let sw = clamp_unit O cmd.sway in
      let hv = clamp_unit O cmd.heave in
      let yw = clamp_unit O cmd.yaw in
      let d1 = add (add (nought O) sw) yw in
      let d2 = nought O in
      let d3 = add (add (nought O) su) sw in
      let d4 = add (add (nought O) su) yw in
      let horizontal = λ (d : F). clamp_pct O cfg (add mid (mul d delta_h)) in
      let down = clamp_pct O cfg (add mid (mul hv (O.neg delta_v))) in
      let up = clamp_pct O cfg (add mid (mul hv delta_v)) in
      horizontal d1 ∷ horizontal d2 ∷ horizontal d3 ∷ horizontal d4 ∷ down ∷ up ∷ up ∷ down ∷ []

  abbrev pub mixed : PwmCtrlConfig F → Option (PwmCtrlDof4Cmd F) → Option (List F)
  mixed cfg none = none
  mixed cfg (some cmd) = some (mix_dof4 cfg cmd)

  -- A null pointer is refused as pwm_ctrl_set_targets_mask refuses it.
  unfoldable pub pwm_ctrl_set_targets_from_dof4 :
      (clock : ℕ → ℕ) → Option (PwmCtrlDof4Cmd F) → PwmCtrl F → CtrlResult × PwmCtrl F
  pwm_ctrl_set_targets_from_dof4 clock command c =
      if c.inited
      then pwm_ctrl_set_targets_mask clock mask_all (mixed c.cfg command) c
      else (err_not_init, c)
