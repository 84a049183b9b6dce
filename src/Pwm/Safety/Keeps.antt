-- ===== src/Pwm/Safety/Keeps.antt =====
-- Each operation of the safety layer keeps targets and outputs in the range.
use orange_pi_stm32_for_rov.Prelude.{
  ℕ, suc, ◌+◌, ◌≡◌, refl, ap, ◌∙◌, Bool, true, false, Bool-cases, inl, inr, Option, none, some,
  List, [], ◌∷◌, length, if◌then◌else◌, All, arith, set_at, repeat, length-set_at, All-set_at,
  All-repeat, length-repeat, ℤ,
}
use orange_pi_stm32_for_rov.Pwm.Float.{SingleOps, SingleLaws}
use orange_pi_stm32_for_rov.Pwm.Host.Send.{channel_index}
use orange_pi_stm32_for_rov.Pwm.Safety.{
  CtrlResult, ctrl_ok, err_not_init, PwmCtrlConfig, PwmCtrl, mask_all, ch_in_mask,
  max_step_pct_effective,
}
use orange_pi_stm32_for_rov.Pwm.Safety.Targets.{
  set_target, set_targets, mixed, sanitize_pct_input, targets_loop, pwm_ctrl_set_target_pct,
  pwm_ctrl_set_targets_mask, pwm_ctrl_set_all_target_mid, pwm_ctrl_set_targets_from_dof4,
  PwmCtrlDof4Cmd,
}
use orange_pi_stm32_for_rov.Pwm.Safety.Step.{
  set_reverse, eff_target, limited_delta, next_of, next_pct, pwm_ctrl_set_motor_reverse,
}
use orange_pi_stm32_for_rov.Pwm.Safety.Mapping.{IsMapping}
use orange_pi_stm32_for_rov.Pwm.Safety.Range.{
  InRange, IsRange, clamp_pct-InRange, mid-InRange, mid_finite, sanitize-InRange,
}

module _ {F : Type 0} (O : SingleOps F) (laws : SingleLaws O) where
  -- Every percentage is finite and in the range of the configuration.
  abbrev pub AllInRange : PwmCtrlConfig F → List F → Type 0
  AllInRange cfg ps = All (InRange O laws cfg.min_pct cfg.max_pct) ps × (length ps ≡ 8)

  module _ (cfg : PwmCtrlConfig F) (range : IsRange O laws cfg) where
    abbrev IsPct : F → Type 0
    IsPct = InRange O laws cfg.min_pct cfg.max_pct

    targets_loop-InRange :
        (clock : ℕ → ℕ) (mask i : ℕ) (ps ts : List F) (last : ℕ)
        → All IsPct ts
        → let (r, l) = targets_loop O cfg clock mask i ps ts last in
          All IsPct r × (length r ≡ length ts)
    unfolding targets_loop
    targets_loop-InRange clock mask i [] ts last h = (h, refl)
    targets_loop-InRange clock mask i (p ∷ ps) [] last h = (tt, refl)
    targets_loop-InRange clock mask i (p ∷ ps) (t ∷ ts) last (h, hs) =
        elim (Bool-cases (ch_in_mask i mask)) [
          | inl e ↦
              let (q, warns) = sanitize_pct_input O cfg p in
              let (a, l) = targets_loop-InRange clock mask (i + 1) ps ts _ hs in
              rw e ((sanitize-InRange O laws cfg range p, a), ap suc l)
          | inr e ↦
              let (a, l) = targets_loop-InRange clock mask (i + 1) ps ts last hs in
              rw e ((h, a), ap suc l)
        ]

    eff_target-finite : (cur tgt : F) → IsPct tgt → O.is_finite (eff_target O cfg cur tgt) ≡ true
    unfolding eff_target
    eff_target-finite cur tgt (f, a, b) = ground (arith, f, mid_finite O laws cfg range)

    limited_delta-number :
        (cur tgt : F) → IsPct cur → IsPct tgt → O.is_nan (limited_delta O cfg cur tgt) ≡ false
    unfolding limited_delta
    limited_delta-number cur tgt (fc, a, b) t =
        let max_step = max_step_pct_effective O cfg in
        let delta = O.sub (eff_target O cfg cur tgt) cur in
        let number : O.is_nan delta ≡ false =
          laws.sub_number (eff_target O cfg cur tgt) cur
            (laws.finite_number (eff_target O cfg cur tgt) (eff_target-finite cur tgt t)) fc in
        elim (Bool-cases (O.lt max_step (O.fabs delta))) [
          | inl e ↦
              let limit = (laws.lt_number max_step (O.fabs delta) e).0 in
              rw e (ground (arith, limit, laws.neg_number max_step limit))
          | inr e ↦ rw e number
        ]

    next_of-InRange :
        (mask i : ℕ) (cur tgt : F) → IsPct cur → IsPct tgt → IsPct (next_of O cfg mask i cur tgt)
    unfolding next_of
    next_of-InRange mask i cur tgt c t = elim (Bool-cases (ch_in_mask i mask)) [
      | inl e ↦ rw e (
          clamp_pct-InRange O laws cfg range (O.add cur (limited_delta O cfg cur tgt)) (
            laws.add_number cur (limited_delta O cfg cur tgt) c.0
              (limited_delta-number cur tgt c t)))
      | inr e ↦ rw e c
    ]

    pub next_pct-InRange :
        (mask i : ℕ) (cs ts : List F)
        → All IsPct cs
        → All IsPct ts
        → length ts ≡ length cs
        → All IsPct (next_pct O cfg mask i cs ts)
          × (length (next_pct O cfg mask i cs ts) ≡ length cs)
    unfolding next_pct
    next_pct-InRange mask i [] ts h k l = (tt, refl)
    next_pct-InRange mask i (c ∷ cs) [] h k l = absurd (omega arith)
    next_pct-InRange mask i (c ∷ cs) (t ∷ ts) (h, hs) (k, ks) l =
        let (a, n) = next_pct-InRange mask (i + 1) cs ts hs ks (omega arith) in
        ((next_of-InRange mask i c t h k, a), ap suc n)

  -- The range `lo` to `hi` and the arrays of a state; the mapping gives the motors different channels.
  pub record IsSafe (lo hi : F) (c : PwmCtrl F) : Type 0 where
    pub lowest : c.cfg.min_pct ≡ lo
    pub highest : c.cfg.max_pct ≡ hi
    pub range : IsRange O laws c.cfg
    pub current : AllInRange c.cfg c.current_pct
    pub target : AllInRange c.cfg c.target_pct
    pub mapping : IsMapping c.motor_to_pwm
    pub reverse : length c.motor_reverse ≡ 8

  -- A guard that returns the state unchanged.
  guarded :
      (b : Bool) (r : CtrlResult × PwmCtrl F) (lo hi : F) (c : PwmCtrl F)
      → IsSafe lo hi c
      → (b ≡ true → IsSafe lo hi r.1)
      → IsSafe lo hi (if b then r else (err_not_init, c)).1
  guarded true r lo hi c s f = f refl
  guarded false r lo hi c s f = s

  module _ (lo hi : F) (c : PwmCtrl F) (s : IsSafe lo hi c) where
    with_targets :
        (ts : List F) (last : ℕ)
        → AllInRange c.cfg ts
        → IsSafe lo hi (record c { target_pct = ts; last_warn_ns = last })
    with_targets ts last t = record {
      lowest = s.lowest;
      highest = s.highest;
      range = s.range;
      current = s.current;
      target = t;
      mapping = s.mapping;
      reverse = s.reverse;
    }

    set_target-IsSafe : (now : ℕ) (p : F) (i : Option ℕ) → IsSafe lo hi (set_target O now p c i).1
    set_target-IsSafe now p none = s
    set_target-IsSafe now p (some i) =
        let q = (sanitize_pct_input O c.cfg p).0 in
        with_targets (set_at i q c.target_pct) _ (
          All-set_at (IsPct c.cfg s.range) i q c.target_pct
              (sanitize-InRange O laws c.cfg s.range p) s.target.0,
          length-set_at i q c.target_pct ∙ s.target.1,
        )

    pub set_target_pct-IsSafe :
        (now : ℕ) (ch : ℤ) (p : F) → IsSafe lo hi (pwm_ctrl_set_target_pct O now ch p c).1
    unfolding pwm_ctrl_set_target_pct
    set_target_pct-IsSafe now ch p =
        guarded c.inited (set_target O now p c (channel_index ch)) lo hi c s
          (λ e. set_target-IsSafe now p (channel_index ch))

    set_targets-IsSafe :
        (clock : ℕ → ℕ) (mask : ℕ) (ps : Option (List F))
        → IsSafe lo hi (set_targets O clock mask c ps).1
    set_targets-IsSafe clock mask none = s
    set_targets-IsSafe clock mask (some ps) =
        let (a, l) =
          targets_loop-InRange c.cfg s.range clock mask 0 ps c.target_pct c.last_warn_ns
            s.target.0 in
        with_targets (targets_loop O c.cfg clock mask 0 ps c.target_pct c.last_warn_ns).0 _
          (a, l ∙ s.target.1)

    pub set_targets_mask-IsSafe :
        (clock : ℕ → ℕ) (mask : ℕ) (ps : Option (List F))
        → IsSafe lo hi (pwm_ctrl_set_targets_mask O clock mask ps c).1
    unfolding pwm_ctrl_set_targets_mask
    set_targets_mask-IsSafe clock mask ps =
        guarded c.inited (set_targets O clock mask c ps) lo hi c s
          (λ e. set_targets-IsSafe clock mask ps)

    pub all_target_mid-IsSafe : IsSafe lo hi (pwm_ctrl_set_all_target_mid O c).1
    unfolding pwm_ctrl_set_all_target_mid
    all_target_mid-IsSafe =
        guarded c.inited (ctrl_ok, record c { target_pct = repeat 8 c.cfg.mid_pct }) lo hi c s
          (λ e. with_targets (repeat 8 c.cfg.mid_pct) c.last_warn_ns (
            All-repeat (IsPct c.cfg s.range) 8 c.cfg.mid_pct (mid-InRange O laws c.cfg s.range),
            length-repeat 8 c.cfg.mid_pct,
          ))

    pub dof4-IsSafe :
        (clock : ℕ → ℕ) (cmd : Option (PwmCtrlDof4Cmd F))
        → IsSafe lo hi (pwm_ctrl_set_targets_from_dof4 O clock cmd c).1
    unfolding pwm_ctrl_set_targets_from_dof4
    dof4-IsSafe clock cmd =
        guarded c.inited (pwm_ctrl_set_targets_mask O clock mask_all (mixed O c.cfg cmd) c) lo hi c
          s (λ e. set_targets_mask-IsSafe clock mask_all (mixed O c.cfg cmd))

    set_reverse-IsSafe : (enable : Bool) (i : Option ℕ) → IsSafe lo hi (set_reverse O enable c i).1
    set_reverse-IsSafe enable none = s
    set_reverse-IsSafe enable (some i) = record {
      lowest = s.lowest;
      highest = s.highest;
      range = record {
        positive = s.range.positive;
        low = s.range.low;
        high = s.range.high;
        max_finite = s.range.max_finite;
      };
      current = s.current;
      target = s.target;
      mapping = s.mapping;
      reverse = length-set_at i enable c.motor_reverse ∙ s.reverse;
    }

    pub motor_reverse-IsSafe :
        (id : ℤ) (enable : Bool) → IsSafe lo hi (pwm_ctrl_set_motor_reverse O id enable c).1
    unfolding pwm_ctrl_set_motor_reverse
    motor_reverse-IsSafe id enable =
        guarded c.inited (set_reverse O enable c (channel_index id)) lo hi c s
          (λ e. set_reverse-IsSafe enable (channel_index id))
