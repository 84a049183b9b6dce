-- ===== src/Gateway/Arbiter/Sorted.antt =====
-- The sources that set_sources leaves: the same ones, in the order of their priorities.
use orange_pi_stm32_for_rov.Prelude.{
  ℕ, ◌≤◌, true, false, ◌≡◌, ◌⊎◌, refl, inl, inr, List, [], ◌∷◌, All, arith,
}
use orange_pi_stm32_for_rov.Gateway.Arbiter.Types.{
  SourcePolicy, comes_before, insert_source, set_sources,
}

abbrev pub Contains : SourcePolicy → List SourcePolicy → Type 0
Contains x [] = ⊥
Contains x (y ∷ ys) = (x ≡ y) ⊎ Contains x ys

-- No later source has the smaller priority number.
abbrev pub IsSorted : List SourcePolicy → Type 0
IsSorted [] = Unit
IsSorted (x ∷ xs) = All (λ y. x.priority ≤ y.priority) xs × IsSorted xs

pub All-Contains :
    (P : SourcePolicy → Type 0) (x : SourcePolicy) (xs : List SourcePolicy)
    → All P xs
    → Contains x xs
    → P x
All-Contains P x [] a m = elim m [ ]
All-Contains P x (y ∷ ys) (p, a) (inl e) = rw e p
All-Contains P x (y ∷ ys) (p, a) (inr m) = All-Contains P x ys a m

comes_before-≤ :
    (a b : SourcePolicy)
    → ((comes_before a b ≡ true) × (a.priority ≤ b.priority))
      ⊎ ((comes_before a b ≡ false) × (b.priority ≤ a.priority))
unfolding comes_before
comes_before-≤ a b = ground arith

All-≤ :
    {m n : ℕ} (xs : List SourcePolicy)
    → m ≤ n
    → All (λ y. n ≤ y.priority) xs
    → All (λ y. m ≤ y.priority) xs
All-≤ [] le a = tt
All-≤ (x ∷ xs) le (p, a) = (omega arith, All-≤ xs le a)

All-insert_source :
    (P : SourcePolicy → Type 0) (x : SourcePolicy) (xs : List SourcePolicy)
    → P x
    → All P xs
    → All P (insert_source x xs)
unfolding insert_source
All-insert_source P x [] p a = (p, tt)
All-insert_source P x (y ∷ ys) p (q, a) = elim (comes_before-≤ x y) [
  | inl (e, _) ↦ rw e (p, (q, a))
  | inr (e, _) ↦ rw e (q, All-insert_source P x ys p a)
]

insert_source-IsSorted :
    (x : SourcePolicy) (xs : List SourcePolicy) → IsSorted xs → IsSorted (insert_source x xs)
unfolding insert_source
insert_source-IsSorted x [] s = (tt, tt)
insert_source-IsSorted x (y ∷ ys) (a, s) = elim (comes_before-≤ x y) [
  | inl (e, le) ↦ rw e ((le, All-≤ ys le a), (a, s))
  | inr (e, le) ↦
      rw e
        (All-insert_source (λ z. y.priority ≤ z.priority) x ys le a, insert_source-IsSorted x ys s)
]

pub set_sources-IsSorted : (xs : List SourcePolicy) → IsSorted (set_sources xs)
unfolding set_sources
set_sources-IsSorted [] = tt
set_sources-IsSorted (x ∷ xs) = insert_source-IsSorted x (set_sources xs) (set_sources-IsSorted xs)

insert_source-here : (x : SourcePolicy) (xs : List SourcePolicy) → Contains x (insert_source x xs)
unfolding insert_source
insert_source-here x [] = inl refl
insert_source-here x (y ∷ ys) = elim (comes_before-≤ x y) [
  | inl (e, _) ↦ rw e (inl refl)
  | inr (e, _) ↦ rw e (inr (insert_source-here x ys))
]

insert_source-there :
    (z x : SourcePolicy) (xs : List SourcePolicy) → Contains z xs → Contains z (insert_source x xs)
unfolding insert_source
insert_source-there z x (y ∷ ys) m = elim (comes_before-≤ x y) [
  | inl (e, _) ↦ rw e (inr m)
  | inr (e, _) ↦ rw e (elim m [ inl h ↦ inl h | inr t ↦ inr (insert_source-there z x ys t) ])
]
insert_source-there z x [] m = elim m [ ]

pub set_sources-Contains :
    (z : SourcePolicy) (xs : List SourcePolicy) → Contains z xs → Contains z (set_sources xs)
unfolding set_sources
set_sources-Contains z [] m = m
set_sources-Contains z (x ∷ xs) (inl e) = rw e (insert_source-here x (set_sources xs))
set_sources-Contains z (x ∷ xs) (inr m) =
    insert_source-there z x (set_sources xs) (set_sources-Contains z xs m)
