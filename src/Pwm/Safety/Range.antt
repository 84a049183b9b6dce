-- ===== src/Pwm/Safety/Range.antt =====
-- The range of the safety layer: what sanitize_config leaves, and that targets stay in it.
use mathlib.Core.Path.{subst}
use orange_pi_stm32_for_rov.Prelude.{
  ◌≡◌, sym, true, false, not, ◌&&◌, ◌||◌, Bool-cases, inl, inr, if◌then◌else◌, if_true, if_false,
  arith,
}
use orange_pi_stm32_for_rov.Pwm.Float.{SingleOps, SingleLaws}
use orange_pi_stm32_for_rov.Pwm.Host.Send.{pct_min, pct_mid, pct_max}
use orange_pi_stm32_for_rov.Pwm.Safety.{
  PwmCtrlConfig, nought, min_of, mid_of, max_of, between, clamp_pct,
}
use orange_pi_stm32_for_rov.Pwm.Safety.Config.{sanitize_config, default_if_le}
use orange_pi_stm32_for_rov.Pwm.Safety.Targets.{sanitize_pct_input}

module _ {F : Type 0} (O : SingleOps F) (laws : SingleLaws O) where
  open O use {lt, le, is_finite, is_nan}

  -- A finite number not outside the bounds.
  abbrev pub InRange : F → F → F → Type 0
  InRange lo hi p = (is_finite p ≡ true) × (lt p lo ≡ false) × (lt hi p ≡ false)

  -- Finite, ascending and positive, so that the defaults of the accessors are not used.
  pub record IsRange (cfg : PwmCtrlConfig F) : Type 0 where
    pub positive : lt (nought O) cfg.min_pct ≡ true
    pub low : lt cfg.min_pct cfg.mid_pct ≡ true
    pub high : lt cfg.mid_pct cfg.max_pct ≡ true
    pub max_finite : is_finite cfg.max_pct ≡ true

  pub between-InRange :
      (lo hi v : F)
      → is_finite lo ≡ true
      → is_finite hi ≡ true
      → lt lo hi ≡ true
      → is_nan v ≡ false
      → InRange lo hi (between O lo hi v)
  between-InRange lo hi v fl fh h n =
      let w = between O lo hi v in
      let number : is_nan w ≡ false =
        ground (arith, laws.finite_number lo fl, laws.finite_number hi fh) in
      let above : lt w lo ≡ false = ground (arith, laws.lt_irrefl lo, laws.lt_asymm lo hi h) in
      let below : lt hi w ≡ false = ground (arith, laws.lt_irrefl hi) in
      (laws.between_finite lo hi w fl fh number above below, above, below)

  between-same : (lo hi v : F) → lt v lo ≡ false → lt hi v ≡ false → between O lo hi v ≡ v
  between-same lo hi v a b = ground (arith, a, b)

  module _ (cfg : PwmCtrlConfig F) (range : IsRange cfg) where
    pub min_of_lem : min_of O cfg ≡ cfg.min_pct
    min_of_lem = if_true (lt (nought O) cfg.min_pct) cfg.min_pct (pct_min O) range.positive

    pub mid_of_lem : mid_of O cfg ≡ cfg.mid_pct
    mid_of_lem =
        if_true (lt (nought O) cfg.mid_pct) cfg.mid_pct (pct_mid O)
          (laws.lt_trans (nought O) cfg.min_pct cfg.mid_pct range.positive range.low)

    pub low_high : lt cfg.min_pct cfg.max_pct ≡ true
    low_high = laws.lt_trans cfg.min_pct cfg.mid_pct cfg.max_pct range.low range.high

    pub max_of_lem : max_of O cfg ≡ cfg.max_pct
    max_of_lem =
        if_true (lt (nought O) cfg.max_pct) cfg.max_pct (pct_max O)
          (laws.lt_trans (nought O) cfg.min_pct cfg.max_pct range.positive low_high)

    -- Numbers between zero and a finite bound are finite.
    finite_below : (x : F) → lt (nought O) x ≡ true → lt x cfg.max_pct ≡ true → is_finite x ≡ true
    finite_below x a b =
        laws.between_finite (nought O) cfg.max_pct x (laws.lit_finite.0) range.max_finite
          (laws.lt_number x cfg.max_pct b).0 (laws.lt_asymm (nought O) x a)
          (laws.lt_asymm x cfg.max_pct b)

    pub min_finite : is_finite cfg.min_pct ≡ true
    min_finite = finite_below cfg.min_pct range.positive low_high

    pub mid_finite : is_finite cfg.mid_pct ≡ true
    mid_finite =
        finite_below cfg.mid_pct
          (laws.lt_trans (nought O) cfg.min_pct cfg.mid_pct range.positive range.low) range.high

    pub mid-InRange : InRange cfg.min_pct cfg.max_pct cfg.mid_pct
    mid-InRange = (
      mid_finite,
      laws.lt_asymm cfg.min_pct cfg.mid_pct range.low,
      laws.lt_asymm cfg.mid_pct cfg.max_pct range.high,
    )

    pub clamp_pct-InRange :
        (p : F) → is_nan p ≡ false → InRange cfg.min_pct cfg.max_pct (clamp_pct O cfg p)
    unfolding clamp_pct
    clamp_pct-InRange p n =
        rw (min_of_lem, max_of_lem)
          (between-InRange cfg.min_pct cfg.max_pct p min_finite range.max_finite low_high n)

    -- A request is taken when it is a finite number of the range, and is the middle else: negative
    -- numbers, NaNs, infinities and numbers outside are never brought to an end of the range.
    pub sanitize_exact :
        (p : F)
        → (sanitize_pct_input O cfg p).0
          ≡ (if is_finite p && not (lt p cfg.min_pct || lt cfg.max_pct p) then p else cfg.mid_pct)
    unfolding sanitize_pct_input clamp_pct
    sanitize_exact p =
        let negative = laws.lt_trans p (nought O) cfg.min_pct in
        rw (min_of_lem, max_of_lem, mid_of_lem) (ground (arith, range.positive, negative))

    chosen-InRange :
        (p : F)
        → InRange cfg.min_pct cfg.max_pct
            (if is_finite p && not (lt p cfg.min_pct || lt cfg.max_pct p) then p else cfg.mid_pct)
    chosen-InRange p =
        let (f, a, b) = mid-InRange in (ground (arith, f), ground (arith, a), ground (arith, b))

    pub sanitize-InRange : (p : F) → InRange cfg.min_pct cfg.max_pct (sanitize_pct_input O cfg p).0
    sanitize-InRange p =
        subst (InRange cfg.min_pct cfg.max_pct) (sym (sanitize_exact p)) (chosen-InRange p)

  -- A default that is positive, or the configured number.
  default_positive :
      (d a : F)
      → lt (nought O) d ≡ true
      → is_nan (default_if_le O d a) ≡ false
      → lt (nought O) (default_if_le O d a) ≡ true
  default_positive d a h n = elim (Bool-cases (le a (nought O))) [
    | inl e ↦ rw e h
    | inr e ↦
        let same : default_if_le O d a ≡ a = if_false (le a (nought O)) d a e in
        let zero_number = laws.finite_number (nought O) (laws.lit_finite.0) in
        subst (λ x. lt (nought O) x ≡ true) (sym same)
          (laws.le_number a (nought O) (subst (λ x. is_nan x ≡ false) same n) zero_number e)
  ]

  default_finite :
      (d a : F) → is_finite d ≡ true → is_finite a ≡ true → is_finite (default_if_le O d a) ≡ true
  default_finite d a h k = ground (arith, h, k)

  -- Whatever is configured, with a finite upper end, the range in use is positive and ascending.
  pub sanitize_config-IsRange :
      (cfg : PwmCtrlConfig F) → is_finite cfg.max_pct ≡ true → IsRange (sanitize_config O cfg)
  unfolding sanitize_config
  sanitize_config-IsRange cfg fin =
      let (zero5, five7, seven10) = laws.lit_ascend in
      let lo = default_if_le O (pct_min O) cfg.min_pct in
      let mid = default_if_le O (pct_mid O) cfg.mid_pct in
      let hi = default_if_le O (pct_max O) cfg.max_pct in
      elim (Bool-cases (lt lo mid && lt mid hi)) [
        | inl e ↦
            let low : lt lo mid ≡ true = ground (arith, e) in
            let high : lt mid hi ≡ true = ground (arith, e) in
            rw e (record {
              positive =
                  default_positive (pct_min O) cfg.min_pct zero5 (laws.lt_number lo mid low).0;
              low = low;
              high = high;
              max_finite = default_finite (pct_max O) cfg.max_pct (laws.lit_finite.1) fin;
            })
        | inr e ↦ rw e (record {
          positive = zero5;
          low = five7;
          high = seven10;
          max_finite = laws.lit_finite.1;
        })
      ]
