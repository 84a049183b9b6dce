-- ===== src/Pwm/Safety/Mapping.antt =====
-- The motor mapping: whatever is configured, no two motors drive one channel.
use mathlib.Core.Path.{subst}
use mathlib.Core.Option.{none-ne-some, some-injective}
use orange_pi_stm32_for_rov.Prelude.{
  set_at, repeat, length-set_at, ℕ, zero, suc, ◌<◌, ◌≤◌, ◌≡◌, ◌≢◌, refl, sym, ◌∙◌, Bool, true,
  false, Bool-cases, Option-cases, inl, inr, Option, none, some, List, [], ◌∷◌, length, get_or,
  if_true, if_false, ℤ, pos, negsuc, All, arith,
}
use orange_pi_stm32_for_rov.Pwm.Host.Send.{channel_index}
use orange_pi_stm32_for_rov.Pwm.Safety.Config.{
  prefix_channel, claim_channel, mapping_loop, mapping_of, any_nonzero, identity_mapping,
}

-- Channels from 1 to 8.
abbrev pub IsChannel : ℕ → Type 0
IsChannel c = (1 ≤ c) × (c ≤ 8)

abbrev pub Apart : ℕ → List ℕ → Type 0
Apart c cs = All (λ d. c ≢ d) cs

abbrev pub Distinct : List ℕ → Type 0
Distinct [] = Unit {0}
Distinct (c ∷ cs) = Apart c cs × Distinct cs

-- Eight different channels.
abbrev pub IsMapping : List ℕ → Type 0
IsMapping cs = (length cs ≡ 8) × All IsChannel cs × Distinct cs

channel_index-lt : (m : ℤ) (i : ℕ) → channel_index m ≡ some i → i < 8
channel_index-lt (pos zero) i h = absurd (none-ne-some i h)
channel_index-lt (pos (suc k)) i h = ground arith
channel_index-lt (negsuc k) i h = absurd (none-ne-some i h)

prefix_some :
    (c : ℕ) (o : Option (List ℕ)) (cs : List ℕ)
    → prefix_channel c o ≡ some cs
    → (rest : List ℕ) × (cs ≡ c ∷ rest) × (o ≡ some rest)
prefix_some c none cs h = absurd (none-ne-some cs h)
prefix_some c (some rest) cs h = (rest, sym (some-injective (c ∷ rest) cs h), refl)

-- What the loop has claimed when it succeeds.
claimed :
    (used : List Bool) (o : Option ℕ) (next : List Bool → Option (List ℕ)) (cs : List ℕ)
    → claim_channel used o next ≡ some cs
    → (i : ℕ) × (rest : List ℕ) × (o ≡ some i)
      × (cs ≡ suc i ∷ rest)
      × (get_or used i false ≡ false)
      × (next (set_at i true used) ≡ some rest)
claimed used none next cs h = absurd (none-ne-some cs h)
claimed used (some i) next cs h =
    let rest = prefix_channel (suc i) (next (set_at i true used)) in
    elim (Bool-cases (get_or used i false)) [
      | inl e ↦ absurd (none-ne-some cs (sym (if_true (get_or used i false) none rest e) ∙ h))
      | inr e ↦
          let (cs', same, found) =
            prefix_some (suc i) (next (set_at i true used)) cs
              (sym (if_false (get_or used i false) none rest e) ∙ h) in
          (i, cs', refl, same, e, found)
    ]

-- A channel that is used is not among the rest.
abbrev IsFree : List Bool → ℕ → Type 0
IsFree used c = (i : ℕ) → c ≡ suc i → get_or used i false ≡ false

get_or-set_at-same :
    (xs : List Bool) (i : ℕ) → i < length xs → get_or (set_at i true xs) i false ≡ true
get_or-set_at-same [] i h = absurd (omega arith)
get_or-set_at-same (x ∷ xs) zero h = refl
get_or-set_at-same (x ∷ xs) (suc i) h = get_or-set_at-same xs i (omega arith)

get_or-set_at-other :
    (xs : List Bool) (i j : ℕ)
    → get_or (set_at i true xs) j false ≡ false
    → get_or xs j false ≡ false
get_or-set_at-other [] i j h = h
get_or-set_at-other (x ∷ xs) zero zero h = absurd (ground arith)
get_or-set_at-other (x ∷ xs) zero (suc j) h = h
get_or-set_at-other (x ∷ xs) (suc i) zero h = h
get_or-set_at-other (x ∷ xs) (suc i) (suc j) h = get_or-set_at-other xs i j h

-- The channels that the loop returns were free, and are different from each other.
abbrev Fresh : List Bool → List ℕ → Type 0
Fresh used cs = All (IsFree used) cs × All IsChannel cs × Distinct cs

weaken :
    (used : List Bool) (i : ℕ) (cs : List ℕ)
    → All (IsFree (set_at i true used)) cs
    → All (IsFree used) cs
weaken used i [] h = tt
weaken used i (c ∷ cs) (f, fs) = (λ j e. get_or-set_at-other used i j (f j e), weaken used i cs fs)

apart :
    (used : List Bool) (i : ℕ) (cs : List ℕ)
    → i < length used
    → All (IsFree (set_at i true used)) cs
    → Apart (suc i) cs
apart used i [] l h = tt
apart used i (c ∷ cs) l (f, fs) = (
  λ e.
      let clash : true ≡ false = sym (get_or-set_at-same used i l) ∙ f i (sym e) in
      ground (arith, clash),
  apart used i cs l fs,
)

loop-Fresh :
    (used : List Bool) (ms : List ℤ) (cs : List ℕ)
    → length used ≡ 8
    → mapping_loop used ms ≡ some cs
    → Fresh used cs × (length cs ≡ length ms)
unfolding mapping_loop
loop-Fresh used [] cs l h =
    subst (λ ds. Fresh used ds × (length ds ≡ 0)) (some-injective [] cs h) ((tt, tt, tt), refl)
loop-Fresh used (m ∷ ms) cs l h =
    let (i, rest, index, same, free, found) =
      claimed used (channel_index m) (λ u. mapping_loop u ms) cs h in
    let lt8 = channel_index-lt m i index in
    let ((frees, channels, distinct), size) =
      loop-Fresh (set_at i true used) ms rest (length-set_at i true used ∙ l) found in
    let own : IsFree used (suc i) =
      λ j e. subst (λ (k : ℕ). get_or used k false ≡ false) (omega (arith, e)) free in
    subst (λ ds. Fresh used ds × (length ds ≡ suc (length ms))) (sym same)
      (
        (
          (own, weaken used i rest frees),
          ((omega arith, omega arith), channels),
          (apart used i rest (omega arith) frees, distinct),
        ),
        omega (arith, size),
      )

identity-IsMapping : IsMapping identity_mapping
unfolding mapping_loop
identity-IsMapping =
    let in_order = pos 1 ∷ pos 2 ∷ pos 3 ∷ pos 4 ∷ pos 5 ∷ pos 6 ∷ pos 7 ∷ pos 8 ∷ [] in
    let ((frees, channels, distinct), size) =
      loop-Fresh (repeat 8 false) in_order identity_mapping refl refl in
    (refl, channels, distinct)

-- Whatever numbers are configured for the eight motors, out of range, doubled, negative or zero, the
-- mapping in use gives them eight different channels from 1 to 8.
pub mapping_of-IsMapping :
    (configured : List ℤ) → length configured ≡ 8 → IsMapping (mapping_of configured)
unfolding mapping_of
mapping_of-IsMapping configured l = elim (Bool-cases (any_nonzero configured)) [
  | inl e ↦ rw e (elim (Option-cases (mapping_loop (repeat 8 false) configured)) [
    | inl n ↦ rw n identity-IsMapping
    | inr (cs, f) ↦
        let ((frees, channels, distinct), size) =
          loop-Fresh (repeat 8 false) configured cs refl f in
        rw f (size ∙ l, channels, distinct)
  ])
  | inr e ↦ rw e identity-IsMapping
]
