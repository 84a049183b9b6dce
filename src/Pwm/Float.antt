-- ===== src/Pwm/Float.antt =====
-- The `float` (or `double`) operations that orangepi_send uses, as an interface: F is the type, `lt`
-- the comparison `<`, which is false on a NaN.
use orange_pi_stm32_for_rov.Prelude.{ℕ, Bool, true, false, ◌≡◌, ℤ}

pub record SingleOps (F : Type 0) : Type 0 where
  pub lt : F → F → Bool
  pub le : F → F → Bool
  pub add : F → F → F
  pub sub : F → F → F
  pub mul : F → F → F
  pub div : F → F → F
  pub neg : F → F
  pub fabs : F → F
  pub is_finite : F → Bool
  pub is_nan : F → Bool
  pub lit : ℕ → ℕ → F  -- the literal n / d
  pub of_nat : ℕ → F  -- (float)n
  pub trunc : F → ℤ  -- (int)x

-- What IEEE arithmetic guarantees, NaN included. A finite number added to one that is not a NaN,
-- or taken from it, does not give a NaN, though the result may be infinite; what is not outside two finite bounds is finite or a NaN.
pub record SingleLaws {F : Type 0} (O : SingleOps F) : Type 0 where
  pub lt_irrefl : (x : F) → O.lt x x ≡ false
  pub lt_asymm : (x y : F) → O.lt x y ≡ true → O.lt y x ≡ false
  pub lt_trans : (x y z : F) → O.lt x y ≡ true → O.lt y z ≡ true → O.lt x z ≡ true
  pub lt_number : (x y : F) → O.lt x y ≡ true → (O.is_nan x ≡ false) × (O.is_nan y ≡ false)
  pub le_number :
      (x y : F) → O.is_nan x ≡ false → O.is_nan y ≡ false → O.le x y ≡ false → O.lt y x ≡ true
  pub finite_number : (x : F) → O.is_finite x ≡ true → O.is_nan x ≡ false
  pub neg_number : (x : F) → O.is_nan x ≡ false → O.is_nan (O.neg x) ≡ false
  pub add_number :
      (x y : F) → O.is_finite x ≡ true → O.is_nan y ≡ false → O.is_nan (O.add x y) ≡ false
  pub sub_number :
      (x y : F) → O.is_nan x ≡ false → O.is_finite y ≡ true → O.is_nan (O.sub x y) ≡ false
  pub between_finite :
      (lo hi x : F)
      → O.is_finite lo ≡ true
      → O.is_finite hi ≡ true
      → O.is_nan x ≡ false
      → O.lt x lo ≡ false
      → O.lt hi x ≡ false
      → O.is_finite x ≡ true
  pub lit_finite : (O.is_finite (O.lit 0 1) ≡ true) × (O.is_finite (O.lit 10 1) ≡ true)
  pub lit_ascend :
      (O.lt (O.lit 0 1) (O.lit 5 1) ≡ true)
      × (O.lt (O.lit 5 1) (O.lit 75 10) ≡ true)
      × (O.lt (O.lit 75 10) (O.lit 10 1) ≡ true)
  pub lit_step : (O.lt (O.lit 0 1) (O.lit 2 10) ≡ true) × (O.lt (O.lit 0 1) (O.lit 20 1) ≡ true)
  pub fabs_positive : (x : F) → O.lt (O.lit 0 1) x ≡ true → O.fabs x ≡ x
  pub fabs_neg : (x : F) → O.fabs (O.neg x) ≡ O.fabs x
