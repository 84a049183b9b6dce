-- ===== src/Pwm/Sample.antt =====
-- Sample data of the PWM stack: fixed-point numbers in millionths for `float`, an open host library
-- and an initialised safety layer.
use orange_pi_stm32_for_rov.Prelude.{
  ℕ, zero, suc, ◌*◌, ◌/◌, ◌≡◌, refl, Bool, true, false, not, none, some, List, [], ◌∷◌, ℤ, pos,
  negsuc, add_ℤ, sub_ℤ, neg_ℤ, ltb_ℤ, repeat, arith,
}
use orange_pi_stm32_for_rov.Pwm.Float.{SingleOps, SingleLaws}
use orange_pi_stm32_for_rov.Pwm.Host.{PwmHost, PwmhResult, zero_stats, SendEnv}
use orange_pi_stm32_for_rov.Pwm.Host.Life.{mid_values}
use orange_pi_stm32_for_rov.Pwm.Safety.{PwmCtrlConfig, PwmCtrl, ab_alternate, Transport}

abbrev pub micro : ℕ
micro = 1_000_000

abbrev pub abs_ℤ : ℤ → ℤ
abs_ℤ (pos n) = pos n
abs_ℤ (negsuc n) = pos (suc n)

abbrev pub size_ℤ : ℤ → ℕ
size_ℤ (pos n) = n
size_ℤ (negsuc n) = suc n

abbrev pub is_negative : ℤ → Bool
is_negative (pos n) = false
is_negative (negsuc n) = true

abbrev pub signed : Bool → ℕ → ℤ
signed false n = pos n
signed true n = neg_ℤ (pos n)

abbrev pub differ : Bool → Bool → Bool
differ false b = b
differ true b = not b

abbrev pub fixed_ops : SingleOps ℤ
fixed_ops = record {
  lt = ltb_ℤ;
  le = λ x y. not (ltb_ℤ y x);
  add = add_ℤ;
  sub = sub_ℤ;
  mul = λ x y. signed (differ (is_negative x) (is_negative y)) (size_ℤ x * size_ℤ y / micro);
  div = λ x y. signed (differ (is_negative x) (is_negative y)) (size_ℤ x * micro / size_ℤ y);
  neg = neg_ℤ;
  fabs = abs_ℤ;
  is_finite = λ x. true;
  is_nan = λ x. false;
  lit = λ n d. pos (n * micro / d);
  of_nat = λ n. pos (n * micro);
  trunc = λ x. signed (is_negative x) (size_ℤ x / micro);
}

lt_irrefl_ℤ : (x : ℤ) → ltb_ℤ x x ≡ false
lt_irrefl_ℤ (pos n) = ground arith
lt_irrefl_ℤ (negsuc n) = ground arith

lt_asymm_ℤ : (x y : ℤ) → ltb_ℤ x y ≡ true → ltb_ℤ y x ≡ false
lt_asymm_ℤ (pos a) (pos b) h = ground arith
lt_asymm_ℤ (pos a) (negsuc b) h = ground arith
lt_asymm_ℤ (negsuc a) (pos b) h = refl
lt_asymm_ℤ (negsuc a) (negsuc b) h = ground arith

lt_trans_ℤ : (x y z : ℤ) → ltb_ℤ x y ≡ true → ltb_ℤ y z ≡ true → ltb_ℤ x z ≡ true
lt_trans_ℤ (pos a) (pos b) (pos c) h k = ground arith
lt_trans_ℤ (pos a) (pos b) (negsuc c) h k = k
lt_trans_ℤ (pos a) (negsuc b) z h k = absurd (ground arith)
lt_trans_ℤ (negsuc a) y (pos c) h k = refl
lt_trans_ℤ (negsuc a) (pos b) (negsuc c) h k = absurd (ground arith)
lt_trans_ℤ (negsuc a) (negsuc b) (negsuc c) h k = ground arith

le_number_ℤ : (x y : ℤ) → not (ltb_ℤ y x) ≡ false → ltb_ℤ y x ≡ true
le_number_ℤ x y h = ground arith

abs_positive_ℤ : (x : ℤ) → ltb_ℤ (pos 0) x ≡ true → abs_ℤ x ≡ x
abs_positive_ℤ (pos n) h = refl
abs_positive_ℤ (negsuc n) h = absurd (ground arith)

abs_neg_ℤ : (x : ℤ) → abs_ℤ (neg_ℤ x) ≡ abs_ℤ x
abs_neg_ℤ (pos zero) = refl
abs_neg_ℤ (pos (suc n)) = refl
abs_neg_ℤ (negsuc n) = ground arith

pub fixed_laws : SingleLaws fixed_ops
fixed_laws = record {
  lt_irrefl = lt_irrefl_ℤ;
  lt_asymm = lt_asymm_ℤ;
  lt_trans = lt_trans_ℤ;
  lt_number = λ x y h. (refl, refl);
  le_number = λ x y h k l. le_number_ℤ x y l;
  finite_number = λ x h. refl;
  neg_number = λ x h. refl;
  add_number = λ x y h k. refl;
  sub_number = λ x y h k. refl;
  between_finite = λ lo hi x h k n a b. refl;
  lit_finite = (refl, refl);
  lit_ascend = (refl, refl, refl);
  lit_step = (refl, refl);
  fabs_positive = abs_positive_ℤ;
  fabs_neg = abs_neg_ℤ;
}

-- n thousandths of a percent.
abbrev pub milli : ℕ → ℤ
milli n = pos (n * 1000)

abbrev pub open_host : PwmHost
open_host = record {
  sock_open = true;
  addr = ("192.168.2.16", 8000);
  seq = 65535;
  shadow = mid_values;
  send_hz = 50;
  nonblock_send = false;
  stats = zero_stats;
  last_rtt_ms = none;
  last_hb_seq = 7;
  last_hb_send_ticks = 1000;
}

abbrev pub taken : SendEnv
taken = record { ticks = 1234; sent = some 30 }

abbrev pub refused : SendEnv
refused = record { ticks = 1234; sent = none }

abbrev pub eight_values : List ℕ
eight_values = 0 ∷ 5000 ∷ 10000 ∷ 20000 ∷ 1 ∷ 2 ∷ 3 ∷ 4 ∷ []

-- Motors 1 and 2 change places; motor 2 is reversed.
abbrev pub safe_config : PwmCtrlConfig ℤ
safe_config = record {
  ctrl_hz = milli 50_000;
  max_step_pct = milli 200;
  min_pct = milli 5_000;
  mid_pct = milli 7_500;
  max_pct = milli 10_000;
  enable_reverse_protection = true;
  group_a_mask = 0x0F;
  group_b_mask = 0xF0;
  group_mode = ab_alternate;
  motorch_to_pwmch = pos 2 ∷ pos 1 ∷ pos 3 ∷ pos 4 ∷ pos 5 ∷ pos 6 ∷ pos 7 ∷ pos 8 ∷ [];
  motor_reverse = false ∷ true ∷ repeat 6 false;
}

abbrev pub eight_pcts : List ℤ
eight_pcts =
    milli 7_500
    ∷ milli 9_000
    ∷ milli 6_000
    ∷ milli 7_500
    ∷ milli 7_500
    ∷ milli 8_000
    ∷ milli 5_000
    ∷ milli 10_000
    ∷ []

abbrev pub running : PwmCtrl ℤ
running = record {
  inited = true;
  cfg = safe_config;
  current_pct = eight_pcts;
  target_pct = repeat 8 (milli 7_500);
  step_count = 3;
  group_toggle = false;
  motor_to_pwm = 2 ∷ 1 ∷ 3 ∷ 4 ∷ 5 ∷ 6 ∷ 7 ∷ 8 ∷ [];
  motor_reverse = false ∷ true ∷ repeat 6 false;
  hi_load_run_steps = 0;
  last_warn_ns = 0;
}

-- A host library that refuses every second frame.
abbrev pub flaky : Transport ℤ Bool
flaky = record {
  set_all_pct = λ ps b. (elim b [ true ↦ PwmhResult.ok | false ↦ PwmhResult.esys ], not b);
  poll = λ b. b;
}
