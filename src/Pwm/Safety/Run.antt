-- ===== src/Pwm/Safety/Run.antt =====
-- Commands to the safety layer in sequence, over a host library.
use orange_pi_stm32_for_rov.Prelude.{ℕ, Bool, Option, List, [], ◌∷◌, ℤ}
use orange_pi_stm32_for_rov.Pwm.Float.{SingleOps}
use orange_pi_stm32_for_rov.Pwm.Safety.{CtrlResult, PwmCtrl, Transport}
use orange_pi_stm32_for_rov.Pwm.Safety.Targets.{
  pwm_ctrl_set_target_pct, pwm_ctrl_set_targets_mask, pwm_ctrl_set_all_target_mid,
  pwm_ctrl_set_targets_from_dof4, PwmCtrlDof4Cmd,
}
use orange_pi_stm32_for_rov.Pwm.Safety.Step.{pwm_ctrl_set_motor_reverse, pwm_ctrl_step}
use orange_pi_stm32_for_rov.Pwm.Safety.Blocking.{
  pwm_ctrl_hold_pct_blocking, pwm_ctrl_emergency_stop,
}

pub data SafetyCommand (F : Type 0) : Type 0 where
  do_target : (now : ℕ) → ℤ → F → SafetyCommand F
  do_targets : (clock : ℕ → ℕ) (mask : ℕ) → Option (List F) → SafetyCommand F
  do_all_mid : SafetyCommand F
  do_dof4 : (clock : ℕ → ℕ) → Option (PwmCtrlDof4Cmd F) → SafetyCommand F
  do_reverse : ℤ → Bool → SafetyCommand F
  do_step : (now : ℕ) → SafetyCommand F
  do_hold : (now : ℕ) (clock : ℕ → ℕ) → ℤ → (pct seconds : F) → SafetyCommand F
  do_stop : (clock : ℕ → ℕ) → (seconds : F) → SafetyCommand F

-- The same host library, with every frame that it is given on a list.
abbrev pub logged : {F H : Type 0} → Transport F H → Transport F (H × List (List F))
logged T = record {
  set_all_pct = λ ps (h, frames). let (r, h') = T.set_all_pct ps h in (r, (h', ps ∷ frames));
  poll = λ (h, frames). (T.poll h, frames);
}

module _ {F : Type 0} (O : SingleOps F) where
  module _ {H : Type 0} (T : Transport F H) where
    abbrev pub perform : SafetyCommand F → PwmCtrl F → H → CtrlResult × PwmCtrl F × H
    perform (do_target now ch p) c h =
        let (r, c') = pwm_ctrl_set_target_pct O now ch p c in (r, c', h)
    perform (do_targets clock mask ps) c h =
        let (r, c') = pwm_ctrl_set_targets_mask O clock mask ps c in (r, c', h)
    perform do_all_mid c h = let (r, c') = pwm_ctrl_set_all_target_mid O c in (r, c', h)
    perform (do_dof4 clock cmd) c h =
        let (r, c') = pwm_ctrl_set_targets_from_dof4 O clock cmd c in (r, c', h)
    perform (do_reverse id enable) c h =
        let (r, c') = pwm_ctrl_set_motor_reverse O id enable c in (r, c', h)
    perform (do_step now) c h = pwm_ctrl_step O T now c h
    perform (do_hold now clock ch p seconds) c h =
        pwm_ctrl_hold_pct_blocking O T now clock ch p seconds c h
    perform (do_stop clock seconds) c h = pwm_ctrl_emergency_stop O T clock seconds c h

    unfoldable pub run_safety : List (SafetyCommand F) → PwmCtrl F → H → PwmCtrl F × H
    run_safety [] c h = (c, h)
    run_safety (m ∷ ms) c h = let (r, c', h') = perform m c h in run_safety ms c' h'
