-- ===== src/Pwm/Bytes.antt =====
-- Big-endian numbers in a list of bytes: be16_write and be32_write of
-- orangepi_send/src/protocol_pack.c, readU16BE and readU32BE of
-- orangepi_send/src/PwmFrameBuilder.cpp.
use orange_pi_stm32_for_rov.Prelude.{
  ℕ, zero, suc, ◌+◌, ◌-◌, ◌*◌, ◌/◌, ◌<◌, ◌≤◌, ◌≡◌, refl, ap, ◌∙◌, List, [], ◌∷◌, ◌++◌, length,
  get_or, take, drop, u8, All, arith,
}
use orange_pi_stm32_for_rov.Gateway.Bytes.{IsByte}

abbrev pub be16 : ℕ → List ℕ
be16 v = u8 (v / 0x100) ∷ u8 v ∷ []

abbrev pub be32 : ℕ → List ℕ
be32 v = u8 (v / 0x1000000) ∷ u8 (v / 0x10000) ∷ u8 (v / 0x100) ∷ u8 v ∷ []

-- `p` and an offset stand for a pointer; no caller reads past the end.
abbrev pub read_u16_be : List ℕ → ℕ → ℕ
read_u16_be p i = get_or p i 0 * 0x100 + get_or p (1 + i) 0

abbrev pub read_u32_be : List ℕ → ℕ → ℕ
read_u32_be p i =
    get_or p i 0 * 0x1000000
    + get_or p (1 + i) 0 * 0x10000
    + get_or p (2 + i) 0 * 0x100
    + get_or p (3 + i) 0

pub be16-pair : (a b : ℕ) → a < 256 → b < 256 → be16 (a * 0x100 + b) ≡ a ∷ b ∷ []
be16-pair a b ha hb = ground arith

pub be32-four :
    (a b c d : ℕ)
    → a < 256
    → b < 256
    → c < 256
    → d < 256
    → be32 (a * 0x1000000 + b * 0x10000 + c * 0x100 + d) ≡ a ∷ b ∷ c ∷ d ∷ []
be32-four a b c d ha hb hc hd = ground arith

pub be16-value : (v : ℕ) → v < 0x10000 → u8 (v / 0x100) * 0x100 + u8 v ≡ v
be16-value v h = omega arith

pub be32-value :
    (v : ℕ)
    → v < 0x100000000
    → u8 (v / 0x1000000) * 0x1000000 + u8 (v / 0x10000) * 0x10000 + u8 (v / 0x100) * 0x100 + u8 v
      ≡ v
be32-value v h = omega arith

pub be16-IsByte : (v : ℕ) → All IsByte (be16 v)
be16-IsByte v = (omega arith, (omega arith, tt))

pub be32-IsByte : (v : ℕ) → All IsByte (be32 v)
be32-IsByte v = (omega arith, (omega arith, (omega arith, (omega arith, tt))))

module _ {ℓ} {A : Type ℓ} where
  pub get_or-append :
      (xs ys : List A) (i : ℕ) (d : A) → get_or (xs ++ ys) (length xs + i) d ≡ get_or ys i d
  get_or-append [] ys i d = ap (λ (j : ℕ). get_or ys j d) (omega arith)
  get_or-append (x ∷ xs) ys i d =
      ap (λ (j : ℕ). get_or (x ∷ (xs ++ ys)) j d)
        (let e : suc (length xs) + i ≡ suc (length xs + i) = omega arith in e)
      ∙ get_or-append xs ys i d

  pub take-append : (xs ys : List A) → take (length xs) (xs ++ ys) ≡ xs
  take-append [] ys = refl
  take-append (x ∷ xs) ys = ap (λ t. x ∷ t) (take-append xs ys)

  pub take-drop : (n : ℕ) (xs : List A) → take n xs ++ drop n xs ≡ xs
  take-drop zero xs = refl
  take-drop (suc n) [] = refl
  take-drop (suc n) (x ∷ xs) = ap (λ t. x ∷ t) (take-drop n xs)

  pub take_add : (n k : ℕ) (xs : List A) → take (n + k) xs ≡ take n xs ++ take k (drop n xs)
  take_add zero k xs = ap (λ (j : ℕ). take j xs) (omega arith)
  take_add (suc n) zero [] =
      ap (λ (j : ℕ). take j []) (let e : suc n + 0 ≡ suc n = omega arith in e)
  take_add (suc n) (suc k) [] =
      ap (λ (j : ℕ). take j []) (let e : suc n + suc k ≡ suc (n + suc k) = omega arith in e)
  take_add (suc n) k (x ∷ xs) =
      ap (λ (j : ℕ). take j (x ∷ xs)) (let e : suc n + k ≡ suc (n + k) = omega arith in e)
      ∙ ap (λ t. x ∷ t) (take_add n k xs)

  pub drop_add : (n k : ℕ) (xs : List A) → drop (n + k) xs ≡ drop k (drop n xs)
  drop_add zero k xs = ap (λ (j : ℕ). drop j xs) (omega arith)
  drop_add (suc n) zero [] =
      ap (λ (j : ℕ). drop j []) (let e : suc n + 0 ≡ suc n = omega arith in e)
  drop_add (suc n) (suc k) [] =
      ap (λ (j : ℕ). drop j []) (let e : suc n + suc k ≡ suc (n + suc k) = omega arith in e)
  drop_add (suc n) k (x ∷ xs) =
      ap (λ (j : ℕ). drop j (x ∷ xs)) (let e : suc n + k ≡ suc (n + k) = omega arith in e)
      ∙ drop_add n k xs

  pub get_or-drop : (n i : ℕ) (xs : List A) (d : A) → get_or xs (n + i) d ≡ get_or (drop n xs) i d
  get_or-drop zero i xs d = ap (λ (j : ℕ). get_or xs j d) (omega arith)
  get_or-drop (suc n) i [] d = refl
  get_or-drop (suc n) i (x ∷ xs) d =
      ap (λ (j : ℕ). get_or (x ∷ xs) j d) (let e : suc n + i ≡ suc (n + i) = omega arith in e)
      ∙ get_or-drop n i xs d

  pub length-drop : (n : ℕ) (xs : List A) → length (drop n xs) ≡ length xs - n
  length-drop zero xs = omega arith
  length-drop (suc n) [] = omega arith
  length-drop (suc n) (x ∷ xs) = omega (arith, length-drop n xs)

  pub length-take : (n : ℕ) (xs : List A) → n ≤ length xs → length (take n xs) ≡ n
  length-take zero xs h = refl
  length-take (suc n) [] h = absurd (omega arith)
  length-take (suc n) (x ∷ xs) h = ap suc (length-take n xs (omega arith))

-- A list of at least four elements, taken apart.
pub first_four {ℓ} :
    {A : Type ℓ} (xs : List A)
    → 4 ≤ length xs
    → (a : A) × (b : A) × (c : A) × (d : A) × (rest : List A) × (xs ≡ a ∷ b ∷ c ∷ d ∷ rest)
first_four (a ∷ b ∷ c ∷ d ∷ rest) h = (a, b, c, d, rest, refl)
first_four [] h = absurd (omega arith)
first_four (a ∷ []) h = absurd (omega arith)
first_four (a ∷ b ∷ []) h = absurd (omega arith)
first_four (a ∷ b ∷ c ∷ []) h = absurd (omega arith)

pub first_two {ℓ} :
    {A : Type ℓ} (xs : List A)
    → 2 ≤ length xs
    → (a : A) × (b : A) × (rest : List A) × (xs ≡ a ∷ b ∷ rest)
first_two (a ∷ b ∷ rest) h = (a, b, rest, refl)
first_two [] h = absurd (omega arith)
first_two (a ∷ []) h = absurd (omega arith)

pub drop-IsByte : (n : ℕ) (xs : List ℕ) → All IsByte xs → All IsByte (drop n xs)
drop-IsByte zero xs h = h
drop-IsByte (suc n) [] h = tt
drop-IsByte (suc n) (x ∷ xs) (h, hs) = drop-IsByte n xs hs

pub take-IsByte : (n : ℕ) (xs : List ℕ) → All IsByte xs → All IsByte (take n xs)
take-IsByte zero xs h = tt
take-IsByte (suc n) [] h = tt
take-IsByte (suc n) (x ∷ xs) (h, hs) = (h, take-IsByte n xs hs)
