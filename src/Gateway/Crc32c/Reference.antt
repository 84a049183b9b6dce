-- ===== src/Gateway/Crc32c/Reference.antt =====
-- The table-driven checksum is the bitwise one, and fits 32 bits.
use Prim.Native.Nat.{bit_xor}
use native.Mathlib.Nat.{div-one, mod-one}
use orange_pi_stm32_for_rov.Prelude.{
  ℕ, zero, suc, ◌+◌, ◌/◌, ◌%◌, ◌^◌, ◌<◌, ◌≡◌, refl, sym, ap, ◌∙◌, inl, inr, List, [], ◌∷◌, ◌==◌,
  if◌then◌else◌, get_or, All, Bool-cases, arith,
}
use orange_pi_stm32_for_rov.Bits.{
  bit_xor-zero, bit_xor_comm, bit_xor_assoc, bit_xor-lt, zero-bit_xor, xor_swap, xor_half,
  xor_parity, div_pow_suc, low_half, low_parity, bit_xor-div,
}
use orange_pi_stm32_for_rov.Gateway.Bytes.{IsByte}
use orange_pi_stm32_for_rov.Gateway.Crc32c.{
  polynomial, ones, crc_bit, crc_bits, fill_table, table, crc_loop, crc32c,
}

-- The checksum register, bit by bit, with no table.
unfoldable pub crc_serial : ℕ → List ℕ → ℕ
crc_serial crc [] = crc
crc_serial crc (b ∷ bs) = crc_serial (crc_bits 8 (bit_xor crc b)) bs

-- What the lowest bit feeds back.
feedback : ℕ → ℕ
feedback r = if r == 1 then polynomial else 0

crc_bit_lem : (c : ℕ) → crc_bit c ≡ bit_xor (feedback (c % 2)) (c / 2)
unfolding crc_bit feedback
crc_bit_lem c = elim (Bool-cases (c % 2 == 1)) [
  | inl e ↦ rw e
  | inr e ↦ rw e (sym (bit_xor_comm 0 (c / 2) ∙ bit_xor-zero (c / 2)))
]

feedback_add :
    (a b : ℕ) → a < 2 → b < 2 → feedback ((a + b) % 2) ≡ bit_xor (feedback a) (feedback b)
unfolding feedback
feedback_add zero zero h k = refl
feedback_add zero (suc zero) h k = refl
feedback_add zero (suc (suc b)) h k = absurd (omega arith)
feedback_add (suc zero) zero h k = refl
feedback_add (suc zero) (suc zero) h k = refl
feedback_add (suc zero) (suc (suc b)) h k = absurd (omega arith)
feedback_add (suc (suc a)) b h k = absurd (omega arith)

crc_bit-bit_xor : (a b : ℕ) → crc_bit (bit_xor a b) ≡ bit_xor (crc_bit a) (crc_bit b)
crc_bit-bit_xor a b =
    rw
      (
        crc_bit_lem (bit_xor a b),
        crc_bit_lem a,
        crc_bit_lem b,
        xor_half a b,
        xor_parity a b,
        feedback_add (a % 2) (b % 2) (omega arith) (omega arith),
      )
      (xor_swap (feedback (a % 2)) (feedback (b % 2)) (a / 2) (b / 2))

crc_bits-bit_xor : (k a b : ℕ) → crc_bits k (bit_xor a b) ≡ bit_xor (crc_bits k a) (crc_bits k b)
unfolding crc_bits
crc_bits-bit_xor zero a b = refl
crc_bits-bit_xor (suc k) a b =
    ap (crc_bits k) (crc_bit-bit_xor a b) ∙ crc_bits-bit_xor k (crc_bit a) (crc_bit b)

-- The bits above the lowest `k` are only shifted down.
crc_bits_split : (k x : ℕ) → crc_bits k x ≡ bit_xor (crc_bits k (x % 2 ^ k)) (x / 2 ^ k)
unfolding crc_bits
crc_bits_split zero x = rw (mod-one x, div-one x) (sym (zero-bit_xor x))
crc_bits_split (suc k) x =
    rw
      (
        crc_bit_lem x,
        crc_bit_lem (x % 2 ^ suc k),
        low_half k x,
        low_parity k x,
        div_pow_suc k x,
        crc_bits-bit_xor k (feedback (x % 2)) (x / 2),
        crc_bits-bit_xor k (feedback (x % 2)) (x / 2 % 2 ^ k),
        crc_bits_split k (x / 2),
      )
      (sym (bit_xor_assoc _ _ _))

byte_above : (crc b : ℕ) → b < 256 → bit_xor crc b / 256 ≡ crc / 256
byte_above crc b h =
    bit_xor-div 8 crc b
    ∙ ap (bit_xor (crc / 256)) (let e : b / 256 ≡ 0 = omega arith in e)
    ∙ bit_xor-zero (crc / 256)

get_or-fill_table :
    (n from i d : ℕ) → i < n → get_or (fill_table n from) i d ≡ crc_bits 8 (from + i)
unfolding fill_table
get_or-fill_table zero from i d h = absurd (omega arith)
get_or-fill_table (suc n) from zero d h = ap (crc_bits 8) (omega arith)
get_or-fill_table (suc n) from (suc i) d h =
    get_or-fill_table n (from + 1) i d (omega arith) ∙ ap (crc_bits 8) (omega arith)

get_or-table : (i : ℕ) → i < 256 → get_or table i 0 ≡ crc_bits 8 i
unfolding table
get_or-table i h = get_or-fill_table 256 0 i 0 h ∙ ap (crc_bits 8) (omega arith)

crc_loop-serial :
    (crc : ℕ) (bytes : List ℕ) → All IsByte bytes → crc_loop crc bytes ≡ crc_serial crc bytes
unfolding crc_loop crc_serial
crc_loop-serial crc [] h = refl
crc_loop-serial crc (b ∷ bs) (h, hs) =
    let x = bit_xor crc b in
    let e : bit_xor (get_or table (x % 256) 0) (crc / 256) ≡ crc_bits 8 x =
      rw (get_or-table (x % 256) (omega arith), ← byte_above crc b h) (sym (crc_bits_split 8 x)) in
    rw e (crc_loop-serial (crc_bits 8 x) bs hs)

crc_bit-lt : (c : ℕ) → c < 2 ^ 32 → crc_bit c < 2 ^ 32
unfolding crc_bit
crc_bit-lt c h = ground (arith, bit_xor-lt 32 polynomial (c / 2) (omega arith) (omega arith))

crc_bits-lt : (k c : ℕ) → c < 2 ^ 32 → crc_bits k c < 2 ^ 32
unfolding crc_bits
crc_bits-lt zero c h = h
crc_bits-lt (suc k) c h = crc_bits-lt k (crc_bit c) (crc_bit-lt c h)

crc_serial-lt :
    (crc : ℕ) (bytes : List ℕ) → crc < 2 ^ 32 → All IsByte bytes → crc_serial crc bytes < 2 ^ 32
unfolding crc_serial
crc_serial-lt crc [] h bs = h
crc_serial-lt crc (b ∷ bytes) h (hb, bs) =
    crc_serial-lt (crc_bits 8 (bit_xor crc b)) bytes
      (crc_bits-lt 8 (bit_xor crc b) (bit_xor-lt 32 crc b h (omega arith))) bs

-- The checksum by the bits alone: no table.
unfoldable pub crc32c_serial : List ℕ → ℕ
crc32c_serial [] = 0
crc32c_serial (b ∷ bs) = bit_xor (crc_serial ones (b ∷ bs)) ones

-- On every sequence of bytes the table-driven checksum is the bit-serial CRC-32C: register preset to
-- ones, reflected polynomial 0x82F63B78, eight bit steps for each byte, final complement (and 0 for
-- no bytes). So the table holds the right entries and the byte-wise update loses nothing.
pub crc32c-serial : (bytes : List ℕ) → All IsByte bytes → crc32c bytes ≡ crc32c_serial bytes
unfolding crc32c crc32c_serial
crc32c-serial [] h = refl
crc32c-serial (b ∷ bs) h = ap (λ x. bit_xor x ones) (crc_loop-serial ones (b ∷ bs) h)

-- The checksum fits 32 bits.
pub crc32c-lt : (bytes : List ℕ) → All IsByte bytes → crc32c bytes < 2 ^ 32
unfolding crc32c
crc32c-lt [] h = omega arith
crc32c-lt (b ∷ bs) h =
    rw (crc_loop-serial ones (b ∷ bs) h)
      (bit_xor-lt 32 _ ones (crc_serial-lt ones (b ∷ bs) (omega arith) h) (omega arith))
