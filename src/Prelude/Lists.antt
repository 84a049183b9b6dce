-- ===== src/Prelude/Lists.antt =====
-- Lists measured by native numbers, under the library's names.
use Prim.Native.Nat.{ℕ, zero, suc, ◌+◌, ◌<◌}
use mathlib.Core.Path.{◌≡◌, refl, ap}
use mathlib.Core.Logic.{◌≢◌}
use mathlib.Core.List.{List, [], ◌∷◌, ◌++◌}
use native.Mathlib.Omega.{arith}

module _ {ℓ} {A : Type ℓ} where
  abbrev pub length : List A → ℕ
  length [] = 0
  length (x ∷ xs) = suc (length xs)

  pub length-append : (xs ys : List A) → length (xs ++ ys) ≡ length xs + length ys
  length-append [] ys = omega arith
  length-append (x ∷ xs) ys = omega (arith, length-append xs ys)

module _ {ℓ} {A : Type ℓ} where
  abbrev pub get_or : List A → ℕ → A → A
  get_or [] i d = d
  get_or (x ∷ xs) zero d = x
  get_or (x ∷ xs) (suc i) d = get_or xs i d

  abbrev pub take : ℕ → List A → List A
  take zero xs = []
  take (suc n) [] = []
  take (suc n) (x ∷ xs) = x ∷ take n xs

  abbrev pub drop : ℕ → List A → List A
  drop zero xs = xs
  drop (suc n) [] = []
  drop (suc n) (x ∷ xs) = drop n xs

  -- A predicate of every element.
  abbrev pub All {κ} : (A → Type κ) → List A → Type κ
  All P [] = Unit {κ}
  All P (x ∷ xs) = P x × All P xs

module _ {ℓ} {A : Type ℓ} where
  -- An assignment to an element of an array.
  abbrev pub set_at : ℕ → A → List A → List A
  set_at i a [] = []
  set_at zero a (x ∷ xs) = a ∷ xs
  set_at (suc i) a (x ∷ xs) = x ∷ set_at i a xs

  abbrev pub repeat : ℕ → A → List A
  repeat zero a = []
  repeat (suc n) a = a ∷ repeat n a

module _ {ℓ} {A : Type ℓ} where
  pub length-set_at : (i : ℕ) (a : A) (xs : List A) → length (set_at i a xs) ≡ length xs
  length-set_at i a [] = refl
  length-set_at zero a (x ∷ xs) = refl
  length-set_at (suc i) a (x ∷ xs) = ap suc (length-set_at i a xs)

  pub get_or-set_at :
      (i : ℕ) (a d : A) (xs : List A) → i < length xs → get_or (set_at i a xs) i d ≡ a
  get_or-set_at i a d [] h = absurd (omega arith)
  get_or-set_at zero a d (x ∷ xs) h = refl
  get_or-set_at (suc i) a d (x ∷ xs) h = get_or-set_at i a d xs (omega arith)

  pub get_or-set_at-other :
      (i j : ℕ) (a d : A) (xs : List A) → i ≢ j → get_or (set_at i a xs) j d ≡ get_or xs j d
  get_or-set_at-other i j a d [] h = refl
  get_or-set_at-other zero zero a d (x ∷ xs) h = absurd (h refl)
  get_or-set_at-other zero (suc j) a d (x ∷ xs) h = refl
  get_or-set_at-other (suc i) zero a d (x ∷ xs) h = refl
  get_or-set_at-other (suc i) (suc j) a d (x ∷ xs) h =
      get_or-set_at-other i j a d xs (λ e. h (ap suc e))

  pub All-set_at {κ} :
      (P : A → Type κ) (i : ℕ) (a : A) (xs : List A) → P a → All P xs → All P (set_at i a xs)
  All-set_at P i a [] p h = tt
  All-set_at P zero a (x ∷ xs) p (h, hs) = (p, hs)
  All-set_at P (suc i) a (x ∷ xs) p (h, hs) = (h, All-set_at P i a xs p hs)

  pub All-repeat {κ} : (P : A → Type κ) (n : ℕ) (a : A) → P a → All P (repeat n a)
  All-repeat P zero a p = tt
  All-repeat P (suc n) a p = (p, All-repeat P n a p)

  pub length-repeat : (n : ℕ) (a : A) → length (repeat n a) ≡ n
  length-repeat zero a = refl
  length-repeat (suc n) a = ap suc (length-repeat n a)
