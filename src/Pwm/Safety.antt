-- ===== src/Pwm/Safety.antt =====
-- orangepi_send/src/pwm_control.c and orangepi_send/include/pwm_control.h: the safety layer's state
-- and what its operations share. Arrays of eight are lists; a flag of 0 or 1 is a Bool.
pub mod Config
pub mod Targets
pub mod Step
pub mod Blocking
pub mod Range
pub mod Mapping
pub mod Drive
pub mod Keeps
pub mod Run
pub mod Invariant
pub mod Start
pub mod Slew
pub mod Wire
use orange_pi_stm32_for_rov.Prelude.{
  ℕ, ◌+◌, ◌-◌, ◌/◌, ◌%◌, ◌^◌, Bool, true, false, not, ◌&&◌, List, [], ◌∷◌, ltb, ◌==◌, if◌then◌else◌,
  u64, ℤ,
}
use orange_pi_stm32_for_rov.Pwm.Float.{SingleOps}
use orange_pi_stm32_for_rov.Pwm.Host.{PwmhResult}
use orange_pi_stm32_for_rov.Pwm.Host.Send.{pct_min, pct_mid, pct_max}

-- group_other: any other number in the configuration.
pub data GroupMode : Type 0 where
  group_all ab_alternate group_other : GroupMode

pub data CtrlResult : Type 0 where
  ctrl_ok err_not_init err_invalid_arg err_internal : CtrlResult

pub record PwmCtrlConfig (F : Type 0) : Type 0 where
  pub ctrl_hz : F
  pub max_step_pct : F
  pub min_pct : F
  pub mid_pct : F
  pub max_pct : F
  pub enable_reverse_protection : Bool
  pub group_a_mask : ℕ
  pub group_b_mask : ℕ
  pub group_mode : GroupMode
  pub motorch_to_pwmch : List ℤ
  pub motor_reverse : List Bool

-- The static variables. `motor_to_pwm` holds channels from 1 on.
pub record PwmCtrl (F : Type 0) : Type 0 where
  pub inited : Bool
  pub cfg : PwmCtrlConfig F
  pub current_pct : List F
  pub target_pct : List F
  pub step_count : ℕ
  pub group_toggle : Bool
  pub motor_to_pwm : List ℕ
  pub motor_reverse : List Bool
  pub hi_load_run_steps : ℕ
  pub last_warn_ns : ℕ

-- What the safety layer uses of the host library, with that library's state in H.
pub record Transport (F H : Type 0) : Type 0 where
  pub set_all_pct : List F → H → PwmhResult × H
  pub poll : H → H

abbrev pub mask_all : ℕ
mask_all = 0xFF

abbrev pub warn_period_ns : ℕ
warn_period_ns = 1_000_000_000

-- When the last warning was printed, after one more at `now`.
abbrev pub warn_rate_limited : (now last_warn_ns : ℕ) → ℕ
warn_rate_limited now last_warn_ns =
    if not (last_warn_ns == 0) && ltb (u64 (now + 2 ^ 64 - last_warn_ns)) warn_period_ns
    then last_warn_ns
    else now

-- The channel with index `i`, from 0; the test of its number is in the callers' loops.
abbrev pub ch_in_mask : (i mask : ℕ) → Bool
ch_in_mask i mask = mask / 2 ^ i % 2 == 1

-- The channels that this step may move, and the toggle after it.
unfoldable pub active_mask_for_this_step :
    {F : Type 0} → PwmCtrlConfig F → (group_toggle : Bool) → ℕ × Bool
active_mask_for_this_step cfg group_toggle = elim cfg.group_mode [
  | group_all ↦ (mask_all, group_toggle)
  | _ ↦ if group_toggle then (cfg.group_b_mask, false) else (cfg.group_a_mask, true)
]

module _ {F : Type 0} (O : SingleOps F) where
  open O use {lt, le, lit}

  abbrev pub nought : F
  nought = lit 0 1

  -- `a > 0 ? a : d`
  abbrev pub positive_else : F → F → F
  positive_else d a = if lt nought a then a else d

  abbrev pub min_of : PwmCtrlConfig F → F
  min_of cfg = positive_else (pct_min O) cfg.min_pct

  abbrev pub mid_of : PwmCtrlConfig F → F
  mid_of cfg = positive_else (pct_mid O) cfg.mid_pct

  abbrev pub max_of : PwmCtrlConfig F → F
  max_of cfg = positive_else (pct_max O) cfg.max_pct

  -- `if (v < lo) v = lo; if (v > hi) v = hi;`
  abbrev pub between : F → F → F → F
  between lo hi v = let v = if lt v lo then lo else v in if lt hi v then hi else v

  unfoldable pub clamp_pct : PwmCtrlConfig F → F → F
  clamp_pct cfg pct = between (min_of cfg) (max_of cfg) pct

  abbrev pub clamp_unit : F → F
  clamp_unit v = between (O.neg (lit 1 1)) (lit 1 1) v

  abbrev pub ctrl_period_ms : PwmCtrlConfig F → F
  ctrl_period_ms cfg = O.div (lit 1000 1) (positive_else (lit 100 1) cfg.ctrl_hz)

  unfoldable pub max_step_pct_effective : PwmCtrlConfig F → F
  max_step_pct_effective cfg =
      let step = if le cfg.max_step_pct nought then lit 2 10 else cfg.max_step_pct in
      if lt (lit 20 1) step then lit 20 1 else step
