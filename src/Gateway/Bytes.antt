-- ===== src/Gateway/Bytes.antt =====
-- Packed little-endian integers: what memcpy of a packed struct reads and writes on the hosts that
-- the protocol header assumes (both ends of one byte order; here the least significant byte first).
use native.Mathlib.Nat.{pow-succ'}
use mathlib.Core.List.{append_assoc}
use orange_pi_stm32_for_rov.Prelude.{
  ℕ, zero, suc, ◌+◌, ◌*◌, ◌/◌, ◌%◌, ◌^◌, ◌<◌, ◌≡◌, refl, ap, List, [], ◌∷◌, ◌++◌, length,
  length-append, All, arith,
}

abbrev pub IsByte : ℕ → Type 0
IsByte b = b < 256

unfoldable pub le_bytes : ℕ → ℕ → List ℕ
le_bytes zero n = []
le_bytes (suc k) n = (n % 256) ∷ le_bytes k (n / 256)

-- The first `k` bytes as a number, and the rest. A byte that is missing is 0: no caller reads one.
unfoldable pub take_le : ℕ → List ℕ → ℕ × List ℕ
take_le zero bs = (0, bs)
take_le (suc k) [] = (0, [])
take_le (suc k) (b ∷ bs) = let (n, rest) = take_le k bs in (b + 256 * n, rest)

pub length-le_bytes : (k n : ℕ) → length (le_bytes k n) ≡ k
unfolding le_bytes
length-le_bytes zero n = refl
length-le_bytes (suc k) n = ap suc (length-le_bytes k (n / 256))

pub le_bytes-IsByte : (k n : ℕ) → All IsByte (le_bytes k n)
unfolding le_bytes
le_bytes-IsByte zero n = tt
le_bytes-IsByte (suc k) n = (omega arith, le_bytes-IsByte k (n / 256))

pub take_le-le_bytes :
    (k n : ℕ) (rest : List ℕ) → n < 256 ^ k → take_le k (le_bytes k n ++ rest) ≡ (n, rest)
unfolding take_le le_bytes
take_le-le_bytes zero n rest h = ground arith
take_le-le_bytes (suc k) n rest h =
    ground (arith, take_le-le_bytes k (n / 256) rest (omega (arith, pow-succ' 256 k)))

pub All-append : (xs ys : List ℕ) → All IsByte xs → All IsByte ys → All IsByte (xs ++ ys)
All-append [] ys h k = k
All-append (x ∷ xs) ys (h, hs) k = (h, All-append xs ys hs k)

-- A packed struct: a width and a value for each field.
unfoldable pub encode_fields : List (ℕ × ℕ) → List ℕ
encode_fields [] = []
encode_fields ((w, v) ∷ fs) = le_bytes w v ++ encode_fields fs

-- The values of the fields of the given widths.
unfoldable pub decode_fields : List ℕ → List ℕ → List ℕ
decode_fields [] bs = []
decode_fields (w ∷ ws) bs = let (v, rest) = take_le w bs in v ∷ decode_fields ws rest

abbrev pub widths : List (ℕ × ℕ) → List ℕ
widths [] = []
widths ((w, v) ∷ fs) = w ∷ widths fs

abbrev pub values : List (ℕ × ℕ) → List ℕ
values [] = []
values ((w, v) ∷ fs) = v ∷ values fs

abbrev pub total : List (ℕ × ℕ) → ℕ
total [] = 0
total ((w, v) ∷ fs) = w + total fs

-- Each value fits its width.
abbrev pub Fit : List (ℕ × ℕ) → Type 0
Fit [] = Unit {0}
Fit ((w, v) ∷ fs) = (v < 256 ^ w) × Fit fs

pub decode_fields-encode_fields :
    (fs : List (ℕ × ℕ)) (rest : List ℕ)
    → Fit fs
    → decode_fields (widths fs) (encode_fields fs ++ rest) ≡ values fs
unfolding decode_fields encode_fields
decode_fields-encode_fields [] rest h = refl
decode_fields-encode_fields ((w, v) ∷ fs) rest (h, hs) = rw (
  append_assoc (le_bytes w v) (encode_fields fs) rest,
  take_le-le_bytes w v (encode_fields fs ++ rest) h,
  decode_fields-encode_fields fs rest hs,
)

pub length-encode_fields : (fs : List (ℕ × ℕ)) → length (encode_fields fs) ≡ total fs
unfolding encode_fields
length-encode_fields [] = refl
length-encode_fields ((w, v) ∷ fs) = omega (
  arith,
  length-append (le_bytes w v) (encode_fields fs),
  length-le_bytes w v,
  length-encode_fields fs,
)

pub encode_fields-IsByte : (fs : List (ℕ × ℕ)) → All IsByte (encode_fields fs)
unfolding encode_fields
encode_fields-IsByte [] = tt
encode_fields-IsByte ((w, v) ∷ fs) =
    All-append (le_bytes w v) (encode_fields fs) (le_bytes-IsByte w v) (encode_fields-IsByte fs)
