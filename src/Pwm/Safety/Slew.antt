-- ===== src/Pwm/Safety/Slew.antt =====
-- What one step changes.
use orange_pi_stm32_for_rov.Prelude.{ℕ, ◌≡◌, ◌⊎◌, Bool, true, false, get_or}
use orange_pi_stm32_for_rov.Pwm.Float.{SingleOps, SingleLaws}
use orange_pi_stm32_for_rov.Pwm.Safety.{
  CtrlResult, ctrl_ok, err_internal, PwmCtrlConfig, PwmCtrl, Transport, ch_in_mask, clamp_pct,
  max_step_pct_effective, active_mask_for_this_step,
}

module _ {F : Type 0} (O : SingleOps F) where
  open O use {lt, le, add, fabs, is_nan}

  -- The new percentage of a motor that may move: at most one step away, then kept in the range; of
  -- one that may not, the old one.
  abbrev pub Moves : PwmCtrlConfig F → (may : Bool) → (old new : F) → Type 0
  Moves cfg true old new =
      (delta : F) × (new ≡ clamp_pct O cfg (add old delta))
      × (lt (max_step_pct_effective O cfg) (fabs delta) ≡ false)
  Moves cfg false old new = new ≡ old

  module _ (laws : SingleLaws O) where
    module _ {H : Type 0} (T : Transport F H) where
      -- What a step does to motor `j`, by its result; the targets stay.
      abbrev pub StepEffect : PwmCtrl F → ℕ → F → CtrlResult × PwmCtrl F × H → Type 0
      StepEffect c j d r =
          let (mask, toggle) = active_mask_for_this_step c.cfg c.group_toggle in
          (r.1.target_pct ≡ c.target_pct)
          × (r.1.group_toggle ≡ toggle)
          × ((r.0 ≡ ctrl_ok)
                × Moves c.cfg (ch_in_mask j mask) (get_or c.current_pct j d)
                    (get_or r.1.current_pct j d)
              ⊎ (r.0 ≡ err_internal) × (r.1.current_pct ≡ c.current_pct))
