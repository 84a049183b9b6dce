-- ===== src/Gateway/Arbiter/Pick.antt =====
-- What the loop of a pass returns.
use orange_pi_stm32_for_rov.Prelude.{
  ◌≤◌, Bool, true, false, not, ◌&&◌, ◌≡◌, ◌⊎◌, refl, sym, ap, ◌∙◌, inl, inr, Option, none, some,
  List, [], ◌∷◌, Bool-cases, arith,
}
use orange_pi_stm32_for_rov.Gateway.Arbiter.Types.{
  WireIntent, IntentSample, SourcePolicy, ArbiterPolicy,
}
use orange_pi_stm32_for_rov.Gateway.Arbiter.Decide.{
  Candidate, candidate, with_sample, with_intent, find_sample, pick, pick_one,
}
use orange_pi_stm32_for_rov.Gateway.Arbiter.Sorted.{Contains, IsSorted, All-Contains}

module _ {R : Type 0} where
  with_intent-sp :
      (sp : SourcePolicy) (smp : IntentSample R) (o : Option (WireIntent R)) (c : Candidate R)
      → with_intent sp smp o ≡ some c
      → c.sp ≡ sp
  with_intent-sp sp smp none c e = ground arith
  with_intent-sp sp smp (some it) c e = ground arith

  with_sample-sp :
      (policy : ArbiterPolicy) (sp : SourcePolicy) (o : Option (IntentSample R)) (c : Candidate R)
      → with_sample policy sp o ≡ some c
      → c.sp ≡ sp
  with_sample-sp policy sp none c e = ground arith
  with_sample-sp policy sp (some smp) c e =
      elim (Bool-cases (policy.require_initialized && not smp.subscriber_initialized)) [
        | inl refuse ↦ absurd (ground arith)
        | inr go ↦ with_intent-sp sp smp smp.intent c (ground arith)
      ]

  pub candidate-sp :
      (policy : ArbiterPolicy) (samples : List (IntentSample R)) (sp : SourcePolicy)
      (c : Candidate R)
      → candidate policy samples sp ≡ some c
      → c.sp ≡ sp
  unfolding candidate
  candidate-sp policy samples sp c e = elim (Bool-cases sp.enable) [
    | inl on ↦ with_sample-sp policy sp (find_sample sp.src samples) c (ground arith)
    | inr off ↦ absurd (ground arith)
  ]

  -- One turn of a loop takes the candidate, or passes on what the rest finds.
  pick_one-cases :
      (test : Candidate R → Bool) (o rest : Option (Candidate R))
      → ((d : Candidate R) × ((o ≡ some d) × (test d ≡ true) × (pick_one test o rest ≡ some d)))
        ⊎ ((pick_one test o rest ≡ rest) × ((d : Candidate R) → o ≡ some d → test d ≡ false))
  pick_one-cases test none rest = inr (refl, λ d e. ground arith)
  pick_one-cases test (some d) rest = elim (Bool-cases (test d)) [
    | inl p ↦ inl (d, (refl, p, rw p))
    | inr p ↦ inr (rw p, λ d' e. ground arith)
  ]

  -- What a loop returns is the candidate of some source and passes the test.
  pub pick_sound :
      (f : SourcePolicy → Option (Candidate R)) (test : Candidate R → Bool)
      (sps : List SourcePolicy) (c : Candidate R)
      → pick f test sps ≡ some c
      → (test c ≡ true) × (sp : SourcePolicy) × (f sp ≡ some c)
  unfolding pick
  pick_sound f test [] c e = ground arith
  pick_sound f test (sp ∷ sps) c e = elim (pick_one-cases test (f sp) (pick f test sps)) [
    | inl (d, (g, p, q)) ↦ let same = sym q ∙ e in (ground arith, sp, ground arith)
    | inr (q, _) ↦ pick_sound f test sps c (sym q ∙ e)
  ]

  -- A loop over sorted sources, one of which passes, returns a source of no larger priority number.
  pub pick_best :
      (f : SourcePolicy → Option (Candidate R)) (test : Candidate R → Bool)
      (sps : List SourcePolicy) (sp : SourcePolicy) (c : Candidate R)
      → IsSorted sps
      → Contains sp sps
      → f sp ≡ some c
      → test c ≡ true
      → (d : Candidate R) × (sp' : SourcePolicy) × ((pick f test sps ≡ some d)
          × (test d ≡ true)
          × (f sp' ≡ some d)
          × (sp'.priority ≤ sp.priority))
  unfolding pick
  pick_best f test [] sp c s m e p = elim m [ ]
  pick_best f test (x ∷ xs) sp c (a, s) (inl same) e p =
      elim (pick_one-cases test (f x) (pick f test xs)) [
        | inl (d, (g, t, q)) ↦ (d, x, (q, t, g, ground arith))
        | inr (_, fails) ↦ let no = fails c (ap f (sym same) ∙ e) in absurd (ground arith)
      ]
  pick_best f test (x ∷ xs) sp c (a, s) (inr later) e p =
      elim (pick_one-cases test (f x) (pick f test xs)) [
        | inl (d, (g, t, q)) ↦
            (d, x, (q, t, g, All-Contains (λ y. x.priority ≤ y.priority) sp xs a later))
        | inr (q, _) ↦
            let (d, sp', (found, t, g, le)) = pick_best f test xs sp c s later e p in
            (d, sp', (q ∙ found, t, g, le))
      ]
