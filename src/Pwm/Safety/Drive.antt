-- ===== src/Pwm/Safety/Drive.antt =====
-- The frame of the hardware channels: which motor drives which channel, and its range.
use mathlib.Core.Path.{subst}
use orange_pi_stm32_for_rov.Prelude.{
  set_at, repeat, length-set_at, get_or-set_at, get_or-set_at-other, All-set_at, ℕ, zero, suc, ◌<◌,
  ◌≡◌, refl, sym, ap, ◌∙◌, Bool, true, false, List, [], ◌∷◌, length, get_or, All, arith,
}
use orange_pi_stm32_for_rov.Pwm.Float.{SingleOps, SingleLaws}
use orange_pi_stm32_for_rov.Pwm.Safety.{PwmCtrlConfig, PwmCtrl, mid_of}
use orange_pi_stm32_for_rov.Pwm.Safety.Step.{hw_value, hw_loop, build_hw_frame_from_motor_pct}
use orange_pi_stm32_for_rov.Pwm.Safety.Mapping.{Apart, Distinct, IsMapping}
use orange_pi_stm32_for_rov.Pwm.Safety.Range.{
  InRange, IsRange, between-InRange, min_of_lem, max_of_lem, min_finite, low_high,
}

module _ {F : Type 0} (O : SingleOps F) where
  -- A channel that no later motor has keeps its value.
  hw_loop_other :
      (cfg : PwmCtrlConfig F) (ms : List ℕ) (rs : List Bool) (ps hw : List F) (idx : ℕ) (d : F)
      → Apart (suc idx) ms
      → get_or (hw_loop O cfg ms rs ps hw) idx d ≡ get_or hw idx d
  unfolding hw_loop
  hw_loop_other cfg [] rs ps hw idx d a = refl
  hw_loop_other cfg (zero ∷ ms) [] ps hw idx d a = refl
  hw_loop_other cfg (suc m ∷ ms) [] ps hw idx d a = refl
  hw_loop_other cfg (zero ∷ ms) (r ∷ rs) [] hw idx d a = refl
  hw_loop_other cfg (suc m ∷ ms) (r ∷ rs) [] hw idx d a = refl
  hw_loop_other cfg (zero ∷ ms) (r ∷ rs) (p ∷ ps) hw idx d (n, a) =
      hw_loop_other cfg ms rs ps hw idx d a
  hw_loop_other cfg (suc m ∷ ms) (r ∷ rs) (p ∷ ps) hw idx d (n, a) =
      hw_loop_other cfg ms rs ps (set_at m (hw_value O cfg r p) hw) idx d a
      ∙ get_or-set_at-other m idx (hw_value O cfg r p) d hw (λ e. n (ap suc (sym e)))

  -- The channel of motor `j` has the motor's value.
  hw_loop_own :
      (cfg : PwmCtrlConfig F) (ms : List ℕ) (rs : List Bool) (ps hw : List F) (j idx : ℕ) (d : F)
      → Distinct ms
      → length rs ≡ length ms
      → length ps ≡ length ms
      → j < length ms
      → get_or ms j 0 ≡ suc idx
      → idx < length hw
      → get_or (hw_loop O cfg ms rs ps hw) idx d
        ≡ hw_value O cfg (get_or rs j false) (get_or ps j d)
  unfolding hw_loop
  hw_loop_own cfg [] rs ps hw j idx d ds lr lp lj e li = absurd (omega arith)
  hw_loop_own cfg (m ∷ ms) [] ps hw j idx d ds lr lp lj e li = absurd (omega arith)
  hw_loop_own cfg (m ∷ ms) (r ∷ rs) [] hw j idx d ds lr lp lj e li = absurd (omega arith)
  hw_loop_own cfg (zero ∷ ms) (r ∷ rs) (p ∷ ps) hw zero idx d ds lr lp lj e li =
      absurd (omega arith)
  hw_loop_own cfg (suc m ∷ ms) (r ∷ rs) (p ∷ ps) hw zero idx d (a, ds) lr lp lj e li =
      let same : m ≡ idx = omega arith in
      hw_loop_other cfg ms rs ps (set_at m (hw_value O cfg r p) hw) idx d
        (subst (λ (k : ℕ). Apart (suc k) ms) same a)
      ∙ ap (λ (k : ℕ). get_or (set_at k (hw_value O cfg r p) hw) idx d) same
      ∙ get_or-set_at idx (hw_value O cfg r p) d hw li
  hw_loop_own cfg (zero ∷ ms) (r ∷ rs) (p ∷ ps) hw (suc j) idx d (a, ds) lr lp lj e li =
      hw_loop_own cfg ms rs ps hw j idx d ds (omega arith) (omega arith) (omega arith) e li
  hw_loop_own cfg (suc m ∷ ms) (r ∷ rs) (p ∷ ps) hw (suc j) idx d (a, ds) lr lp lj e li =
      hw_loop_own cfg ms rs ps (set_at m (hw_value O cfg r p) hw) j idx d ds (omega arith)
        (omega arith) (omega arith) e (omega (arith, length-set_at m (hw_value O cfg r p) hw))

  -- With a mapping of eight different channels each motor's percentage stands, reversed where the
  -- motor is reversed and kept in the range, on its own channel of the frame, and no other motor
  -- touches it.
  pub motor_drives_channel :
      (c : PwmCtrl F) (pct : List F) (j idx : ℕ) (d : F)
      → IsMapping c.motor_to_pwm
      → length c.motor_reverse ≡ 8
      → length pct ≡ 8
      → j < 8
      → get_or c.motor_to_pwm j 0 ≡ suc idx
      → idx < 8
      → get_or (build_hw_frame_from_motor_pct O c pct) idx d
        ≡ hw_value O c.cfg (get_or c.motor_reverse j false) (get_or pct j d)
  unfolding build_hw_frame_from_motor_pct
  motor_drives_channel c pct j idx d (l, channels, distinct) lr lp lj e li =
      hw_loop_own c.cfg c.motor_to_pwm c.motor_reverse pct (repeat 8 (mid_of O c.cfg)) j idx d
        distinct (lr ∙ sym l) (lp ∙ sym l) (omega arith) e li

  module _ (laws : SingleLaws O) (cfg : PwmCtrlConfig F) (range : IsRange O laws cfg) where
    abbrev IsPct : F → Type 0
    IsPct = InRange O laws cfg.min_pct cfg.max_pct

    hw_value-InRange : (r : Bool) (p : F) → IsPct p → IsPct (hw_value O cfg r p)
    hw_value-InRange true p (fin, lo, hi) =
        rw (min_of_lem O laws cfg range, max_of_lem O laws cfg range)
          (between-InRange O laws cfg.min_pct cfg.max_pct (O.sub (O.add cfg.min_pct cfg.max_pct) p)
            (min_finite O laws cfg range) range.max_finite (low_high O laws cfg range)
            (laws.sub_number (O.add cfg.min_pct cfg.max_pct) p
              (laws.add_number cfg.min_pct cfg.max_pct (min_finite O laws cfg range)
                (laws.finite_number cfg.max_pct range.max_finite))
              fin))
    hw_value-InRange false p (fin, lo, hi) =
        rw (min_of_lem O laws cfg range, max_of_lem O laws cfg range)
          (between-InRange O laws cfg.min_pct cfg.max_pct p (min_finite O laws cfg range)
            range.max_finite (low_high O laws cfg range) (laws.finite_number p fin))

    pub hw_loop-InRange :
        (ms : List ℕ) (rs : List Bool) (ps hw : List F)
        → All IsPct ps
        → All IsPct hw
        → All IsPct (hw_loop O cfg ms rs ps hw)
    unfolding hw_loop
    hw_loop-InRange [] rs ps hw a h = h
    hw_loop-InRange (zero ∷ ms) [] ps hw a h = h
    hw_loop-InRange (suc m ∷ ms) [] ps hw a h = h
    hw_loop-InRange (zero ∷ ms) (r ∷ rs) [] hw a h = h
    hw_loop-InRange (suc m ∷ ms) (r ∷ rs) [] hw a h = h
    hw_loop-InRange (zero ∷ ms) (r ∷ rs) (p ∷ ps) hw (a, as') h = hw_loop-InRange ms rs ps hw as' h
    hw_loop-InRange (suc m ∷ ms) (r ∷ rs) (p ∷ ps) hw (a, as') h =
        hw_loop-InRange ms rs ps (set_at m (hw_value O cfg r p) hw) as'
          (All-set_at IsPct m (hw_value O cfg r p) hw (hw_value-InRange r p a) h)

  pub hw_loop-length :
      (cfg : PwmCtrlConfig F) (ms : List ℕ) (rs : List Bool) (ps hw : List F)
      → length (hw_loop O cfg ms rs ps hw) ≡ length hw
  unfolding hw_loop
  hw_loop-length cfg [] rs ps hw = refl
  hw_loop-length cfg (zero ∷ ms) [] ps hw = refl
  hw_loop-length cfg (suc m ∷ ms) [] ps hw = refl
  hw_loop-length cfg (zero ∷ ms) (r ∷ rs) [] hw = refl
  hw_loop-length cfg (suc m ∷ ms) (r ∷ rs) [] hw = refl
  hw_loop-length cfg (zero ∷ ms) (r ∷ rs) (p ∷ ps) hw = hw_loop-length cfg ms rs ps hw
  hw_loop-length cfg (suc m ∷ ms) (r ∷ rs) (p ∷ ps) hw =
      hw_loop-length cfg ms rs ps (set_at m (hw_value O cfg r p) hw)
      ∙ length-set_at m (hw_value O cfg r p) hw
