-- ===== src/Pwm/Safety/Config.antt =====
-- pwm_control.c: making a configuration safe, the motor mapping and the initial state.
use orange_pi_stm32_for_rov.Prelude.{
  set_at, repeat, ℕ, zero, suc, Bool, true, false, not, ◌&&◌, ◌||◌, Option, none, some, List, [],
  ◌∷◌, ◌==◌, get_or, if◌then◌else◌, ℤ, pos,
}
use orange_pi_stm32_for_rov.Pwm.Float.{SingleOps}
use orange_pi_stm32_for_rov.Pwm.Host.Send.{channel_index, pct_min, pct_mid, pct_max}
use orange_pi_stm32_for_rov.Pwm.Safety.{
  GroupMode, group_all, ab_alternate, group_other, PwmCtrlConfig, PwmCtrl, nought, mid_of,
}

abbrev pub known_mode : GroupMode → GroupMode
known_mode group_all = group_all
known_mode ab_alternate = ab_alternate
known_mode group_other = ab_alternate

-- 1, 2, ... 8.
abbrev pub identity_mapping : List ℕ
identity_mapping = 1 ∷ 2 ∷ 3 ∷ 4 ∷ 5 ∷ 6 ∷ 7 ∷ 8 ∷ []

abbrev pub is_zero : ℤ → Bool
is_zero (pos zero) = true
is_zero _ = false

abbrev pub any_nonzero : List ℤ → Bool
any_nonzero [] = false
any_nonzero (m ∷ ms) = not (is_zero m) || any_nonzero ms

abbrev pub prefix_channel : ℕ → Option (List ℕ) → Option (List ℕ)
prefix_channel c none = none
prefix_channel c (some cs) = some (c ∷ cs)

-- One motor: its channel must exist and be unused.
abbrev pub claim_channel :
    (used : List Bool) → Option ℕ → (List Bool → Option (List ℕ)) → Option (List ℕ)
claim_channel used none next = none
claim_channel used (some i) next =
    if get_or used i false then none else prefix_channel (suc i) (next (set_at i true used))

-- The loop that looks for a channel out of range or used twice; the channels when there is none.
unfoldable pub mapping_loop : (used : List Bool) → List ℤ → Option (List ℕ)
mapping_loop used [] = some []
mapping_loop used (m ∷ ms) = claim_channel used (channel_index m) (λ u. mapping_loop u ms)

abbrev pub mapping_or_identity : Option (List ℕ) → List ℕ
mapping_or_identity none = identity_mapping
mapping_or_identity (some cs) = cs

-- The mapping in use: the configured one when it is a permutation, else 1 to 8.
unfoldable pub mapping_of : List ℤ → List ℕ
mapping_of configured =
    if any_nonzero configured
    then mapping_or_identity (mapping_loop (repeat 8 false) configured)
    else identity_mapping

module _ {F : Type 0} (O : SingleOps F) where
  open O use {lt, le, lit}

  -- memset of the configuration, where the caller gives none.
  abbrev pub zero_config : PwmCtrlConfig F
  zero_config = record {
    ctrl_hz = nought O;
    max_step_pct = nought O;
    min_pct = nought O;
    mid_pct = nought O;
    max_pct = nought O;
    enable_reverse_protection = false;
    group_a_mask = 0;
    group_b_mask = 0;
    group_mode = group_all;
    motorch_to_pwmch = repeat 8 (pos 0);
    motor_reverse = repeat 8 false;
  }

  abbrev pub default_if_le : F → F → F
  default_if_le d a = if le a (nought O) then d else a

  -- The range, or 5, 7.5 and 10 when it is not ascending.
  abbrev pub ordered_range : PwmCtrlConfig F → PwmCtrlConfig F
  ordered_range cfg =
      if lt cfg.min_pct cfg.mid_pct && lt cfg.mid_pct cfg.max_pct
      then cfg
      else record cfg { min_pct = pct_min O; mid_pct = pct_mid O; max_pct = pct_max O }

  abbrev pub default_range : PwmCtrlConfig F → PwmCtrlConfig F
  default_range cfg = record cfg {
    min_pct = default_if_le (pct_min O) cfg.min_pct;
    mid_pct = default_if_le (pct_mid O) cfg.mid_pct;
    max_pct = default_if_le (pct_max O) cfg.max_pct;
  }

  abbrev pub default_rates : PwmCtrlConfig F → PwmCtrlConfig F
  default_rates cfg = record cfg {
    ctrl_hz = default_if_le (lit 50 1) cfg.ctrl_hz;
    max_step_pct =
        if le cfg.max_step_pct (nought O)
        then lit 2 10
        else if lt (lit 20 1) cfg.max_step_pct
        then lit 20 1
        else cfg.max_step_pct;
  }

  abbrev pub default_groups : PwmCtrlConfig F → PwmCtrlConfig F
  default_groups cfg =
      let unset = cfg.group_a_mask == 0 && cfg.group_b_mask == 0 in
      record cfg {
        group_a_mask = if unset then 0x0F else cfg.group_a_mask;
        group_b_mask = if unset then 0xF0 else cfg.group_b_mask;
        group_mode = known_mode cfg.group_mode;
      }

  unfoldable pub sanitize_config : PwmCtrlConfig F → PwmCtrlConfig F
  sanitize_config cfg = default_groups (ordered_range (default_range (default_rates cfg)))

  unfoldable pub init_state_to_mid : PwmCtrl F → PwmCtrl F
  init_state_to_mid c = record c {
    current_pct = repeat 8 (mid_of O c.cfg);
    target_pct = repeat 8 (mid_of O c.cfg);
    step_count = 0;
    group_toggle = false;
    hi_load_run_steps = 0;
    last_warn_ns = 0;
  }

  unfoldable pub init_motor_mapping_from_cfg : PwmCtrl F → PwmCtrl F
  init_motor_mapping_from_cfg c = record c {
    motor_to_pwm = mapping_of c.cfg.motorch_to_pwmch;
    motor_reverse = c.cfg.motor_reverse;
  }
