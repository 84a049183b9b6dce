-- ===== src/Bits.antt =====
-- Laws of bit_xor at variables, from its definition by digits.
use Prim.Native.Nat.{bit_xor, digits, differ, bit_xor-bitwise}
use native.Mathlib.Nat.{
  pow-suc, pow-succ', div-div-eq-div-mul, mod-eq-sub-div-mul, div-mul-le_self, div-one, mod-one,
}
use orange_pi_stm32_for_rov.Prelude.{
  ℕ, zero, suc, ◌+◌, ◌*◌, ◌/◌, ◌%◌, ◌^◌, ◌≤◌, ◌<◌, ◌≡◌, refl, sym, ap, ◌∙◌, arith,
}

differ_digits : (x y : ℕ) → x < 2 → y < 2 → differ x y ≡ (x + y) % 2
differ_digits zero y h k = omega arith
differ_digits (suc zero) zero h k = refl
differ_digits (suc zero) (suc zero) h k = refl
differ_digits (suc zero) (suc (suc y)) h k = absurd (omega arith)
differ_digits (suc (suc x)) y h k = absurd (omega arith)

abbrev xor_digits : ℕ → ℕ → ℕ → ℕ
xor_digits n a b = digits (λ b. b) differ n a b

xor_digits_fuel : (n m a b : ℕ) → a ≤ n → a ≤ m → xor_digits n a b ≡ xor_digits m a b
xor_digits_fuel zero zero a b p q = refl
xor_digits_fuel zero (suc m) zero b p q = refl
xor_digits_fuel zero (suc m) (suc a) b p q = absurd (omega arith)
xor_digits_fuel (suc n) zero zero b p q = refl
xor_digits_fuel (suc n) zero (suc a) b p q = absurd (omega arith)
xor_digits_fuel (suc n) (suc m) zero b p q = refl
xor_digits_fuel (suc n) (suc m) (suc a) b p q =
    omega (arith, xor_digits_fuel n m (suc a / 2) (b / 2) (omega arith) (omega arith))

pub zero-bit_xor : (b : ℕ) → bit_xor 0 b ≡ b
zero-bit_xor b = bit_xor-bitwise 0 b

pub bit_xor_step : (a b : ℕ) → bit_xor a b ≡ bit_xor (a / 2) (b / 2) * 2 + (a % 2 + b % 2) % 2
bit_xor_step zero b = omega (arith, zero-bit_xor b, zero-bit_xor (b / 2))
bit_xor_step (suc a) b = omega (
  arith,
  bit_xor-bitwise (suc a) b,
  bit_xor-bitwise (suc a / 2) (b / 2),
  differ_digits (suc a % 2) (b % 2) (omega arith) (omega arith),
  xor_digits_fuel a (suc a / 2) (suc a / 2) (b / 2) (omega arith) (omega arith),
)

xor_zero_below : (n a : ℕ) → a ≤ n → bit_xor a 0 ≡ a
xor_zero_below n zero h = refl
xor_zero_below zero (suc a) h = absurd (omega arith)
xor_zero_below (suc n) (suc a) h =
    omega (arith, bit_xor_step (suc a) 0, xor_zero_below n (suc a / 2) (omega arith))

pub bit_xor-zero : (a : ℕ) → bit_xor a 0 ≡ a
bit_xor-zero a = xor_zero_below a a (omega arith)

xor_comm_below : (n a b : ℕ) → a ≤ n → bit_xor a b ≡ bit_xor b a
xor_comm_below n zero b h = zero-bit_xor b ∙ sym (bit_xor-zero b)
xor_comm_below zero (suc a) b h = absurd (omega arith)
xor_comm_below (suc n) (suc a) b h = omega (
  arith,
  bit_xor_step (suc a) b,
  bit_xor_step b (suc a),
  xor_comm_below n (suc a / 2) (b / 2) (omega arith),
)

pub bit_xor_comm : (a b : ℕ) → bit_xor a b ≡ bit_xor b a
bit_xor_comm a b = xor_comm_below a a b (omega arith)

-- One step of both sides, where the halves agree.
xor_assoc_step :
    (a b c : ℕ)
    → bit_xor (bit_xor (a / 2) (b / 2)) (c / 2) ≡ bit_xor (a / 2) (bit_xor (b / 2) (c / 2))
    → bit_xor (bit_xor a b) c ≡ bit_xor a (bit_xor b c)
xor_assoc_step a b c h =
    let ab : bit_xor a b / 2 ≡ bit_xor (a / 2) (b / 2) = omega (arith, bit_xor_step a b) in
    let bc : bit_xor b c / 2 ≡ bit_xor (b / 2) (c / 2) = omega (arith, bit_xor_step b c) in
    let halves : bit_xor (bit_xor a b / 2) (c / 2) ≡ bit_xor (a / 2) (bit_xor b c / 2) =
      rw (ab, bc) h in
    omega (
      arith,
      halves,
      bit_xor_step a b,
      bit_xor_step b c,
      bit_xor_step (bit_xor a b) c,
      bit_xor_step a (bit_xor b c),
    )

xor_assoc_below : (n a b c : ℕ) → a ≤ n → bit_xor (bit_xor a b) c ≡ bit_xor a (bit_xor b c)
xor_assoc_below n zero b c h = rw (zero-bit_xor b) (sym (zero-bit_xor (bit_xor b c)))
xor_assoc_below zero (suc a) b c h = absurd (omega arith)
xor_assoc_below (suc n) (suc a) b c h =
    xor_assoc_step (suc a) b c (xor_assoc_below n (suc a / 2) (b / 2) (c / 2) (omega arith))

pub bit_xor_assoc : (a b c : ℕ) → bit_xor (bit_xor a b) c ≡ bit_xor a (bit_xor b c)
bit_xor_assoc a b c = xor_assoc_below a a b c (omega arith)

pub bit_xor-lt : (k a b : ℕ) → a < 2 ^ k → b < 2 ^ k → bit_xor a b < 2 ^ k
bit_xor-lt zero a b h l = ground (arith, bit_xor_step a b)
bit_xor-lt (suc k) a b h l =
    let half : bit_xor (a / 2) (b / 2) < 2 ^ k =
      bit_xor-lt k (a / 2) (b / 2) (omega (arith, pow-suc 2 k)) (omega (arith, pow-suc 2 k)) in
    omega (arith, bit_xor_step a b, pow-suc 2 k, half)

pub xor_swap :
    (a b c d : ℕ) → bit_xor (bit_xor a b) (bit_xor c d) ≡ bit_xor (bit_xor a c) (bit_xor b d)
xor_swap a b c d =
    bit_xor_assoc a b (bit_xor c d)
    ∙ ap (bit_xor a)
        (sym (bit_xor_assoc b c d) ∙ ap (λ x. bit_xor x d) (bit_xor_comm b c) ∙ bit_xor_assoc c b d)
    ∙ sym (bit_xor_assoc a c (bit_xor b d))

pub xor_half : (a b : ℕ) → bit_xor a b / 2 ≡ bit_xor (a / 2) (b / 2)
xor_half a b = omega (arith, bit_xor_step a b)

pub xor_parity : (a b : ℕ) → bit_xor a b % 2 ≡ (a % 2 + b % 2) % 2
xor_parity a b = omega (arith, bit_xor_step a b)

pub div_pow_suc : (k x : ℕ) → x / 2 ^ suc k ≡ x / 2 / 2 ^ k
div_pow_suc k x = rw (pow-succ' 2 k) (sym (div-div-eq-div-mul x 2 (2 ^ k)))

pub mod_pow_suc : (k x : ℕ) → x % 2 ^ suc k ≡ x / 2 % 2 ^ k * 2 + x % 2
mod_pow_suc k x = omega (
  arith,
  pow-suc 2 k,
  div_pow_suc k x,
  mod-eq-sub-div-mul x (2 ^ suc k),
  mod-eq-sub-div-mul (x / 2) (2 ^ k),
  div-mul-le_self (x / 2) (2 ^ k),
  ap (λ (t : ℕ). x / 2 / 2 ^ k * t) (pow-suc 2 k),
  ap (λ (t : ℕ). t * 2 ^ suc k) (div_pow_suc k x),
)

-- The lowest `k + 1` bits: their half and their parity.
pub low_half : (k x : ℕ) → x % 2 ^ suc k / 2 ≡ x / 2 % 2 ^ k
low_half k x = omega (arith, mod_pow_suc k x)

pub low_parity : (k x : ℕ) → x % 2 ^ suc k % 2 ≡ x % 2
low_parity k x = omega (arith, mod_pow_suc k x)

pub bit_xor-div : (k a b : ℕ) → bit_xor a b / 2 ^ k ≡ bit_xor (a / 2 ^ k) (b / 2 ^ k)
bit_xor-div zero a b = rw (div-one (bit_xor a b), div-one a, div-one b)
bit_xor-div (suc k) a b =
    rw (div_pow_suc k (bit_xor a b), xor_half a b, div_pow_suc k a, div_pow_suc k b)
      (bit_xor-div k (a / 2) (b / 2))

pub bit_xor-mod : (k a b : ℕ) → bit_xor a b % 2 ^ k ≡ bit_xor (a % 2 ^ k) (b % 2 ^ k)
bit_xor-mod zero a b = rw (mod-one (bit_xor a b), mod-one a, mod-one b) refl
bit_xor-mod (suc k) a b =
    let halves : bit_xor a b / 2 % 2 ^ k ≡ bit_xor (a / 2 % 2 ^ k) (b / 2 % 2 ^ k) =
      rw (xor_half a b) (bit_xor-mod k (a / 2) (b / 2)) in
    let right : bit_xor (a % 2 ^ suc k) (b % 2 ^ suc k)
        ≡ bit_xor (a / 2 % 2 ^ k) (b / 2 % 2 ^ k) * 2 + (a % 2 + b % 2) % 2 =
      rw (← low_half k a, ← low_half k b, ← low_parity k a, ← low_parity k b)
        (bit_xor_step (a % 2 ^ suc k) (b % 2 ^ suc k)) in
    omega (arith, mod_pow_suc k (bit_xor a b), halves, right, xor_parity a b)

pub bit_xor-double : (a b : ℕ) → bit_xor (a * 2) (b * 2) ≡ bit_xor a b * 2
bit_xor-double a b =
    let da : a * 2 / 2 ≡ a = omega arith in
    let db : b * 2 / 2 ≡ b = omega arith in
    let e : bit_xor (a * 2 / 2) (b * 2 / 2) ≡ bit_xor a b = rw (da, db) refl in
    omega (arith, bit_xor_step (a * 2) (b * 2), e)

-- A number is its high bits and its low bits together.
pub bit_xor_split : (k x : ℕ) → bit_xor (x / 2 ^ k * 2 ^ k) (x % 2 ^ k) ≡ x
bit_xor_split zero x =
    rw (mod-one x, div-one x) (omega (arith, bit_xor-zero x, bit_xor-zero (x * 1)))
bit_xor_split (suc k) x =
    let high = x / 2 ^ suc k * 2 ^ suc k in
    let high_half : high / 2 ≡ x / 2 / 2 ^ k * 2 ^ k =
      rw (← div_pow_suc k x) (omega (arith, ap (λ (t : ℕ). x / 2 ^ suc k * t) (pow-suc 2 k))) in
    let high_even : high % 2 ≡ 0 = omega (arith, ap (λ (t : ℕ). x / 2 ^ suc k * t) (pow-suc 2 k)) in
    let halves : bit_xor (high / 2) (x % 2 ^ suc k / 2) ≡ x / 2 =
      rw (high_half, low_half k x) (bit_xor_split k (x / 2)) in
    omega (arith, bit_xor_step high (x % 2 ^ suc k), halves, high_even, low_parity k x)
