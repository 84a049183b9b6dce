-- ===== src/Gateway/Crc32c.antt =====
-- proto_gcs/src/crc32c.cpp: CRC-32C by a table of 256 entries. Bytes are numbers below 256.
pub mod Reference
use Prim.Native.Nat.{bit_xor}
use orange_pi_stm32_for_rov.Prelude.{
  ℕ, zero, suc, ◌+◌, ◌*◌, ◌/◌, ◌%◌, ◌<◌, ◌≡◌, refl, List, [], ◌∷◌, ◌==◌, if◌then◌else◌, get_or,
}

abbrev pub polynomial : ℕ
polynomial = 0x82F63B78

abbrev pub ones : ℕ
ones = 0xFFFFFFFF

-- One bit: `(c & 1) ? (0x82F63B78u ^ (c >> 1)) : (c >> 1)`.
unfoldable pub crc_bit : ℕ → ℕ
crc_bit c = if c % 2 == 1 then bit_xor polynomial (c / 2) else c / 2

-- The loop of `k` bits.
unfoldable pub crc_bits : ℕ → ℕ → ℕ
crc_bits zero c = c
crc_bits (suc k) c = crc_bits k (crc_bit c)

-- The loop that fills the table, from entry `i`, for `n` entries.
unfoldable pub fill_table : ℕ → ℕ → List ℕ
fill_table zero i = []
fill_table (suc n) i = crc_bits 8 i ∷ fill_table n (i + 1)

unfoldable pub table : List ℕ
table = fill_table 256 0

-- The loop over the bytes; `& 0xFF` is the remainder by 256, and `>> 8` the quotient.
unfoldable pub crc_loop : ℕ → List ℕ → ℕ
crc_loop crc [] = crc
crc_loop crc (b ∷ bs) = crc_loop (bit_xor (get_or table (bit_xor crc b % 256) 0) (crc / 256)) bs

unfoldable pub crc32c_sw : List ℕ → ℕ
crc32c_sw bytes = bit_xor (crc_loop ones bytes) ones

-- An empty input has the checksum 0.
unfoldable pub crc32c : List ℕ → ℕ
unfolding crc32c_sw
crc32c [] = 0
crc32c (b ∷ bs) = crc32c_sw (b ∷ bs)
