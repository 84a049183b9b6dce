-- ===== src/Prelude/Int.antt =====
-- Signed integers over the native numbers, with the operations that casts and fixed-point samples use.
use Prim.Native.Nat.{ℕ, zero, suc, ◌+◌, ◌-◌, ◌*◌, ◌/◌}
use mathlib.Core.Bool.{Bool, true, false}
use orange_pi_stm32_for_rov.Prelude.Tests.{ltb, leb, if◌then◌else◌}

-- `negsuc n` is -(n + 1).
pub data ℤ : Type 0 where
  pos : ℕ → ℤ
  negsuc : ℕ → ℤ

-- a - b
abbrev pub difference : ℕ → ℕ → ℤ
difference a b = if leb b a then pos (a - b) else negsuc (b - a - 1)

abbrev pub add_ℤ : ℤ → ℤ → ℤ
add_ℤ (pos a) (pos b) = pos (a + b)
add_ℤ (pos a) (negsuc b) = difference a (b + 1)
add_ℤ (negsuc a) (pos b) = difference b (a + 1)
add_ℤ (negsuc a) (negsuc b) = negsuc (a + b + 1)

abbrev pub neg_ℤ : ℤ → ℤ
neg_ℤ (pos zero) = pos 0
neg_ℤ (pos (suc a)) = negsuc a
neg_ℤ (negsuc a) = pos (a + 1)

abbrev pub sub_ℤ : ℤ → ℤ → ℤ
sub_ℤ a b = add_ℤ a (neg_ℤ b)

-- a / b * c, or a * c, with the sign of a; c and b positive.
abbrev pub scale_ℤ : ℕ → ℕ → ℤ → ℤ
scale_ℤ c b (pos a) = pos (a * c / b)
scale_ℤ c b (negsuc a) = neg_ℤ (pos ((a + 1) * c / b))

abbrev pub ltb_ℤ : ℤ → ℤ → Bool
ltb_ℤ (pos a) (pos b) = ltb a b
ltb_ℤ (pos a) (negsuc b) = false
ltb_ℤ (negsuc a) (pos b) = true
ltb_ℤ (negsuc a) (negsuc b) = ltb b a

-- Kept between two natural bounds.
abbrev pub clamp_ℤ : ℕ → ℕ → ℤ → ℕ
clamp_ℤ lo hi (pos n) = if ltb n lo then lo else if ltb hi n then hi else n
clamp_ℤ lo hi (negsuc n) = lo
