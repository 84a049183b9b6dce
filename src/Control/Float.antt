-- ===== src/Control/Float.antt =====
-- The floating-point operations that the control core uses, as an interface: `double` is a type D
-- with the comparison `<`, which is false on a NaN, and a few constants.
use orange_pi_stm32_for_rov.Prelude.{Bool, true, false, ◌≡◌, if◌then◌else◌, arith}

pub record FloatOps (D : Type 0) : Type 0 where
  pub lt : D → D → Bool
  pub neg : D → D
  pub nought : D
  pub one : D
  pub neutral_eps : D  -- 0.05
  pub narrow : D → D  -- static_cast<float>, read as a double again

-- What IEEE comparison guarantees, NaN included.
pub record FloatLaws {D : Type 0} (F : FloatOps D) : Type 0 where
  pub lt_irrefl : (x : D) → F.lt x x ≡ false
  pub lt_asymm : (x y : D) → F.lt x y ≡ true → F.lt y x ≡ false

module _ {D : Type 0} (F : FloatOps D) where
  open F use {lt, neg, nought}

  -- std::min, std::max
  abbrev pub min_d : D → D → D
  min_d a b = if lt b a then b else a

  abbrev pub max_d : D → D → D
  max_d a b = if lt a b then b else a

  unfoldable pub clampd : D → D → D → D
  clampd v lo hi = max_d lo (min_d v hi)

  unfoldable pub absd : D → D
  absd x = if lt x nought then neg x else x

  -- `v` is not outside the bounds, as C++ would test it.
  abbrev pub IsWithin : D → D → D → Type 0
  IsWithin lo hi v = (lt v lo ≡ false) × (lt hi v ≡ false)

  pub clampd-IsWithin :
      FloatLaws F → (v lo hi : D) → lt lo hi ≡ true → IsWithin lo hi (clampd v lo hi)
  unfolding clampd
  clampd-IsWithin laws v lo hi h =
      ground (arith, laws.lt_irrefl lo, laws.lt_irrefl hi, laws.lt_asymm lo hi, laws.lt_asymm lo v)
