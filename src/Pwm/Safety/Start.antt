-- ===== src/Pwm/Safety/Start.antt =====
-- The safety layer from its initialisation on.
use mathlib.Core.Path.{subst}
use orange_pi_stm32_for_rov.Prelude.{
  ◌≡◌, refl, sym, ap, ◌∙◌, true, ◌&&◌, Option, none, some, List, [], ◌∷◌, length, Bool-cases, inl,
  inr, All, repeat, All-repeat, length-repeat,
}
use orange_pi_stm32_for_rov.Pwm.Float.{SingleOps, SingleLaws}
use orange_pi_stm32_for_rov.Pwm.Host.{PwmhResult, ok}
use orange_pi_stm32_for_rov.Pwm.Safety.{PwmCtrlConfig, PwmCtrl, Transport, mid_of}
use orange_pi_stm32_for_rov.Pwm.Safety.Config.{
  default_range, default_rates, sanitize_config, init_state_to_mid, init_motor_mapping_from_cfg,
}
use orange_pi_stm32_for_rov.Pwm.Safety.Run.{SafetyCommand, logged, run_safety}
use orange_pi_stm32_for_rov.Pwm.Safety.Step.{
  after_init, pwm_ctrl_init, given_or_zero, build_hw_frame_from_motor_pct,
}
use orange_pi_stm32_for_rov.Pwm.Safety.Mapping.{mapping_of-IsMapping}
use orange_pi_stm32_for_rov.Pwm.Safety.Range.{
  InRange, mid-InRange, mid_of_lem, sanitize_config-IsRange,
}
use orange_pi_stm32_for_rov.Pwm.Safety.Keeps.{AllInRange, IsSafe}
use orange_pi_stm32_for_rov.Pwm.Safety.Invariant.{
  FrameInRange, IsGood, GoodResult, frame-InRange, run-IsGood,
}

module _ {F : Type 0} (O : SingleOps F) (laws : SingleLaws O) {H : Type 0} (T : Transport F H) where
  after_init-IsGood :
      (lo hi : F) (c : PwmCtrl F) (r : PwmhResult) (h : H × List (List F))
      → IsGood O laws T lo hi c h
      → GoodResult O laws T lo hi (after_init O (logged T) c (r, h))
  after_init-IsGood lo hi c ok h (s, l) = (
    record {
      lowest = s.lowest;
      highest = s.highest;
      range = s.range;
      current = s.current;
      target = s.target;
      mapping = s.mapping;
      reverse = s.reverse;
    },
    l,
  )
  after_init-IsGood lo hi c _ h g = g

  -- Arrays of eight, and a finite upper end of the range.
  abbrev pub IsConfig : Option (PwmCtrlConfig F) → Type 0
  IsConfig none = Unit {0}
  IsConfig (some cfg) =
      (O.is_finite cfg.max_pct ≡ true)
      × (length cfg.motorch_to_pwmch ≡ 8)
      × (length cfg.motor_reverse ≡ 8)

  given-IsConfig :
      (config : Option (PwmCtrlConfig F))
      → IsConfig config
      → IsConfig (some (given_or_zero O config))
  given-IsConfig none h = (laws.lit_finite.0, refl, refl)
  given-IsConfig (some cfg) h = h

  arrays_kept :
      (cfg : PwmCtrlConfig F)
      → ((sanitize_config O cfg).motorch_to_pwmch ≡ cfg.motorch_to_pwmch)
        × ((sanitize_config O cfg).motor_reverse ≡ cfg.motor_reverse)
  unfolding sanitize_config
  arrays_kept cfg =
      let r = default_range O (default_rates O cfg) in
      elim (Bool-cases (O.lt r.min_pct r.mid_pct && O.lt r.mid_pct r.max_pct)) [
        | inl e ↦ rw e (refl, refl)
        | inr e ↦ rw e (refl, refl)
      ]

  started : PwmCtrlConfig F → PwmCtrl F → PwmCtrl F
  started cfg c = init_motor_mapping_from_cfg O (init_state_to_mid O (record c { cfg = cfg }))

  started-IsSafe :
      (cfg : PwmCtrlConfig F) (c : PwmCtrl F)
      → IsConfig (some cfg)
      → let safe = sanitize_config O cfg in IsSafe O laws safe.min_pct safe.max_pct (started safe c)
  unfolding started init_motor_mapping_from_cfg init_state_to_mid
  started-IsSafe cfg c (fin, lm, lr) =
      let safe = sanitize_config O cfg in
      let range = sanitize_config-IsRange O laws cfg fin in
      let (same_mapping, same_reverse) = arrays_kept cfg in
      let mid = mid_of O safe in
      let mid_ok : InRange O laws safe.min_pct safe.max_pct mid =
        subst (InRange O laws safe.min_pct safe.max_pct) (sym (mid_of_lem O laws safe range))
          (mid-InRange O laws safe range) in
      let mids : AllInRange O laws safe (repeat 8 mid) =
        (All-repeat (InRange O laws safe.min_pct safe.max_pct) 8 mid mid_ok, length-repeat 8 mid) in
      record {
        lowest = refl;
        highest = refl;
        range = range;
        current = mids;
        target = mids;
        mapping = mapping_of-IsMapping safe.motorch_to_pwmch (ap length same_mapping ∙ lm);
        reverse = ap length same_reverse ∙ lr;
      }

  init-IsGood :
      (config : Option (PwmCtrlConfig F)) (c : PwmCtrl F) (h : H)
      → IsConfig config
      → let cfg = sanitize_config O (given_or_zero O config) in
        GoodResult O laws T cfg.min_pct cfg.max_pct (pwm_ctrl_init O (logged T) config c (h, []))
  unfolding pwm_ctrl_init started
  init-IsGood config c h k =
      let cfg = sanitize_config O (given_or_zero O config) in
      let c1 = started cfg c in
      let safe = started-IsSafe (given_or_zero O config) c (given-IsConfig config k) in
      let frame = build_hw_frame_from_motor_pct O c1 c1.current_pct in
      let (rc, h') = T.set_all_pct frame h in
      after_init-IsGood cfg.min_pct cfg.max_pct c1 rc (h', frame ∷ [])
        (
          safe,
          (frame-InRange O laws cfg.min_pct cfg.max_pct c1 c1.current_pct safe safe.current, tt),
        )

  -- Initialised with any configuration whose upper end is finite (or none), the safety layer stays
  -- in the range of that configuration as made safe, over any host library and through any commands,
  -- failed sends included: every frame of eight that it gives to the host library, from the first on,
  -- and every target and output it holds are finite and inside; the range is positive and ascending
  -- and its motors have eight different channels.
  pub run_in_range :
      (config : Option (PwmCtrlConfig F)) (c : PwmCtrl F) (h : H) (ms : List (SafetyCommand F))
      → IsConfig config
      → let cfg = sanitize_config O (given_or_zero O config) in
        let (rc, c1, h1) = pwm_ctrl_init O (logged T) config c (h, []) in
        let (c2, h2) = run_safety O (logged T) ms c1 h1 in
        IsSafe O laws cfg.min_pct cfg.max_pct c2
        × All (FrameInRange O laws cfg.min_pct cfg.max_pct) h2.1
  run_in_range config c h ms k =
      let cfg = sanitize_config O (given_or_zero O config) in
      let (rc, c1, h1) = pwm_ctrl_init O (logged T) config c (h, []) in
      run-IsGood O laws T ms cfg.min_pct cfg.max_pct c1 h1 (init-IsGood config c h k)
