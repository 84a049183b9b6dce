-- ===== src/Pwm/Crc16/Reference.antt =====
-- The table-driven CRC-16 of crc16_ccitt.cpp is the bitwise one of the C files.
use Prim.Native.Nat.{bit_xor}
use orange_pi_stm32_for_rov.Prelude.{
  ℕ, zero, suc, ◌+◌, ◌*◌, ◌/◌, ◌%◌, ◌<◌, ◌≡◌, refl, sym, ap, ◌∙◌, inl, inr, List, [], ◌∷◌, ◌==◌,
  if◌then◌else◌, get_or, u16, All, Bool-cases, arith,
}
use orange_pi_stm32_for_rov.Bits.{
  bit_xor-zero, bit_xor_comm, bit_xor-lt, xor_swap, xor_parity, bit_xor-div, bit_xor-mod,
  bit_xor-double, bit_xor_split,
}
use orange_pi_stm32_for_rov.Gateway.Bytes.{IsByte}
use orange_pi_stm32_for_rov.Pwm.Crc16.{
  k_table, update, compute, shift_bit, shift_bits, shift_bytes, crc16_ccitt, crc16_ccitt_false,
}

-- The table by the bitwise loop: entry `i` is the remainder of the byte `i` in the high half.
abbrev remainders : ℕ → ℕ → List ℕ
remainders zero i = []
remainders (suc n) i = shift_bits 8 (i * 256) ∷ remainders n (suc i)

k_table_lem : k_table ≡ remainders 256 0
unfolding k_table shift_bits shift_bit
k_table_lem = refl

get_or-remainders :
    (n from i : ℕ) → i < n → get_or (remainders n from) i 0 ≡ shift_bits 8 ((from + i) * 256)
get_or-remainders zero from i h = absurd (omega arith)
get_or-remainders (suc n) from zero h = ap (λ (j : ℕ). shift_bits 8 (j * 256)) (omega arith)
get_or-remainders (suc n) from (suc i) h =
    get_or-remainders n (suc from) i (omega arith)
    ∙ ap (λ (j : ℕ). shift_bits 8 (j * 256)) (omega arith)

get_or-k_table : (i : ℕ) → i < 256 → get_or k_table i 0 ≡ shift_bits 8 (i * 256)
get_or-k_table i h =
    rw k_table_lem
      (get_or-remainders 256 0 i h ∙ ap (λ (j : ℕ). shift_bits 8 (j * 256)) (omega arith))

-- What bit 15 feeds back.
feedback : ℕ → ℕ
feedback r = if r == 1 then 0x1021 else 0

feedback_add :
    (a b : ℕ) → a < 2 → b < 2 → feedback ((a + b) % 2) ≡ bit_xor (feedback a) (feedback b)
unfolding feedback
feedback_add zero zero h k = refl
feedback_add zero (suc zero) h k = refl
feedback_add zero (suc (suc b)) h k = absurd (omega arith)
feedback_add (suc zero) zero h k = refl
feedback_add (suc zero) (suc zero) h k = refl
feedback_add (suc zero) (suc (suc b)) h k = absurd (omega arith)
feedback_add (suc (suc a)) b h k = absurd (omega arith)

feedback_small : (r : ℕ) → u16 (feedback r) ≡ feedback r
unfolding feedback
feedback_small r = ground arith

top_bit : ℕ → ℕ
top_bit crc = crc / 0x8000 % 2

shift_bit_lem : (c : ℕ) → shift_bit c ≡ bit_xor (u16 (c * 2)) (feedback (top_bit c))
unfolding shift_bit top_bit feedback
shift_bit_lem c = elim (Bool-cases (c / 0x8000 % 2 == 1)) [
  | inl e ↦ rw e (bit_xor-mod 16 (c * 2) 0x1021)
  | inr e ↦ rw e (sym (bit_xor-zero (u16 (c * 2))))
]

top_bit-bit_xor : (a b : ℕ) → top_bit (bit_xor a b) ≡ (top_bit a + top_bit b) % 2
unfolding top_bit
top_bit-bit_xor a b =
    ap (λ (t : ℕ). t % 2) (bit_xor-div 15 a b) ∙ xor_parity (a / 0x8000) (b / 0x8000)

double_bit_xor : (a b : ℕ) → u16 (bit_xor a b * 2) ≡ bit_xor (u16 (a * 2)) (u16 (b * 2))
double_bit_xor a b = rw (← bit_xor-double a b) (bit_xor-mod 16 (a * 2) (b * 2))

shift_bit-bit_xor : (a b : ℕ) → shift_bit (bit_xor a b) ≡ bit_xor (shift_bit a) (shift_bit b)
unfolding top_bit
shift_bit-bit_xor a b =
    rw
      (
        shift_bit_lem (bit_xor a b),
        shift_bit_lem a,
        shift_bit_lem b,
        double_bit_xor a b,
        top_bit-bit_xor a b,
        feedback_add (top_bit a) (top_bit b) (omega arith) (omega arith),
      )
      (xor_swap (u16 (a * 2)) (u16 (b * 2)) (feedback (top_bit a)) (feedback (top_bit b)))

shift_bits-bit_xor :
    (k a b : ℕ) → shift_bits k (bit_xor a b) ≡ bit_xor (shift_bits k a) (shift_bits k b)
unfolding shift_bits
shift_bits-bit_xor zero a b = refl
shift_bits-bit_xor (suc k) a b =
    ap (shift_bits k) (shift_bit-bit_xor a b) ∙ shift_bits-bit_xor k (shift_bit a) (shift_bit b)

-- While bit 15 is clear a bit only moves up.
shift_bit_low : (c : ℕ) → c < 0x8000 → shift_bit c ≡ c * 2
unfolding shift_bit
shift_bit_low c h = ground arith

shift_byte_low : (c : ℕ) → c < 256 → shift_bits 8 c ≡ c * 256
unfolding shift_bits
shift_byte_low c h =
    rw
      (
        shift_bit_low c (omega arith),
        shift_bit_low (c * 2) (omega arith),
        shift_bit_low (c * 2 * 2) (omega arith),
        shift_bit_low (c * 2 * 2 * 2) (omega arith),
        shift_bit_low (c * 2 * 2 * 2 * 2) (omega arith),
        shift_bit_low (c * 2 * 2 * 2 * 2 * 2) (omega arith),
        shift_bit_low (c * 2 * 2 * 2 * 2 * 2 * 2) (omega arith),
        shift_bit_low (c * 2 * 2 * 2 * 2 * 2 * 2 * 2) (omega arith),
      )
      (omega arith)

shift_bit-lt : (c : ℕ) → shift_bit c < 0x10000
unfolding shift_bit
shift_bit-lt c = ground arith

pub shift_bits-lt : (k c : ℕ) → c < 0x10000 → shift_bits k c < 0x10000
unfolding shift_bits
shift_bits-lt zero c h = h
shift_bits-lt (suc k) c h = shift_bits-lt k (shift_bit c) (shift_bit-lt c)

-- One byte: the table's entry for the high byte, and the low byte moved up.
update_byte :
    (crc b : ℕ)
    → crc < 0x10000
    → b < 256
    → u16 (bit_xor (crc * 256) (get_or k_table (bit_xor (crc / 256) b % 256) 0))
      ≡ shift_bits 8 (bit_xor crc (u16 (b * 256)))
update_byte crc b h hb =
    let x = bit_xor crc (b * 256) in
    let idx = bit_xor (crc / 256) b in
    let idx_lt : idx < 256 = bit_xor-lt 8 (crc / 256) b (omega arith) hb in
    let high : x / 256 ≡ idx =
      bit_xor-div 8 crc (b * 256) ∙ ap (bit_xor (crc / 256)) (omega arith) in
    let low : x % 256 ≡ crc % 256 =
      bit_xor-mod 8 crc (b * 256)
      ∙ ap (bit_xor (crc % 256)) (let e : b * 256 % 256 ≡ 0 = omega arith in e)
      ∙ bit_xor-zero (crc % 256) in
    let entry : get_or k_table (idx % 256) 0 ≡ shift_bits 8 (idx * 256) =
      get_or-k_table (idx % 256) (omega arith)
      ∙ ap (λ (j : ℕ). shift_bits 8 (j * 256)) (omega arith) in
    let by_parts : shift_bits 8 x ≡ bit_xor (shift_bits 8 (idx * 256)) (shift_bits 8 (crc % 256)) =
      ap (shift_bits 8) (sym (bit_xor_split 8 x))
      ∙ shift_bits-bit_xor 8 (x / 256 * 256) (x % 256)
      ∙ rw (high, low) refl in
    let entry_fits : u16 (shift_bits 8 (idx * 256)) ≡ shift_bits 8 (idx * 256) =
      omega (arith, shift_bits-lt 8 (idx * 256) (omega arith)) in
    let low_moved : u16 (crc * 256) ≡ shift_bits 8 (crc % 256) =
      omega (arith, shift_byte_low (crc % 256) (omega arith)) in
    let fits : u16 (b * 256) ≡ b * 256 = omega arith in
    rw (fits, by_parts, entry)
      (bit_xor-mod 16 (crc * 256) (shift_bits 8 (idx * 256))
        ∙ rw (entry_fits, low_moved)
            (bit_xor_comm (shift_bits 8 (crc % 256)) (shift_bits 8 (idx * 256))))

update-shift_bytes :
    (crc : ℕ) (bytes : List ℕ)
    → crc < 0x10000
    → All IsByte bytes
    → update crc bytes ≡ shift_bytes crc bytes
unfolding update shift_bytes
update-shift_bytes crc [] h hs = refl
update-shift_bytes crc (b ∷ bs) h (hb, hs) =
    let x = bit_xor crc (u16 (b * 256)) in
    let x_lt : x < 0x10000 = bit_xor-lt 16 crc (u16 (b * 256)) h (omega arith) in
    rw (update_byte crc b h hb) (update-shift_bytes (shift_bits 8 x) bs (shift_bits-lt 8 x x_lt) hs)

pub shift_bytes-lt :
    (crc : ℕ) (bytes : List ℕ) → crc < 0x10000 → All IsByte bytes → shift_bytes crc bytes < 0x10000
unfolding shift_bytes
shift_bytes-lt crc [] h hs = h
shift_bytes-lt crc (b ∷ bs) h (hb, hs) =
    let x = bit_xor crc (u16 (b * 256)) in
    let x_lt : x < 0x10000 = bit_xor-lt 16 crc (u16 (b * 256)) h (omega arith) in
    shift_bytes-lt (shift_bits 8 x) bs (shift_bits-lt 8 x x_lt) hs

-- On every sequence of bytes the table-driven CRC-16 of crc16_ccitt.cpp gives what both bitwise
-- loops of the C files give: the 256 literal entries are right, and the C++ and the C side of the
-- link agree on the checksum of every frame.
pub compute-crc16_ccitt :
    (bytes : List ℕ)
    → All IsByte bytes
    → (compute bytes ≡ crc16_ccitt bytes) × (compute bytes ≡ crc16_ccitt_false bytes)
unfolding compute crc16_ccitt crc16_ccitt_false
compute-crc16_ccitt bytes h =
    let e = bit_xor-zero (update 0xFFFF bytes) ∙ update-shift_bytes 0xFFFF bytes (omega arith) h in
    (e, e)

pub crc16_ccitt-lt : (bytes : List ℕ) → All IsByte bytes → crc16_ccitt bytes < 0x10000
unfolding crc16_ccitt
crc16_ccitt-lt bytes h = shift_bytes-lt 0xFFFF bytes (omega arith) h
