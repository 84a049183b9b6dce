-- ===== src/Control/Manager/Consistent.antt =====
-- The controller manager keeps its parts in step.
use mathlib.Core.Path.{subst}
use text.Mathlib.TextPositions.{eq_refl}
use text.Mathlib.Text.{◌==◌}
use orange_pi_stm32_for_rov.Prelude.{
  ◌≡◌, refl, sym, ap, ◌∙◌, Bool, true, false, not, ◌&&◌, ◌||◌, Option, none, some, String, List, [],
  ◌∷◌, if◌then◌else◌, if_true, if_false, arith, inl, inr, Bool-cases,
}
use orange_pi_stm32_for_rov.Control.Mode.{
  ControlMode, k_none, k_manual, k_auto, k_failsafe, k_unknown,
}
use orange_pi_stm32_for_rov.Control.Manager.{
  ControllerManager, has_controller, put_controller, fail, switch_active_controller, after_switch,
  in_mode, set_mode,
}

module _ {I : Type 0} where
  abbrev pub IsKnown : Option String → List (String × I) → Type 0
  IsKnown none cs = Unit
  IsKnown (some n) cs = has_controller n cs ≡ true

  pub IsKnown-cons :
      (o : Option String) (k : String) (c : I) (cs : List (String × I))
      → IsKnown o cs
      → IsKnown o ((k, c) ∷ cs)
  unfolding has_controller
  IsKnown-cons none k c cs h = tt
  IsKnown-cons (some n) k c cs h = ground arith

  has_controller-put_controller :
      (n k : String) (c : I) (cs : List (String × I))
      → has_controller n (put_controller k c cs) ≡ has_controller n cs
  unfolding has_controller put_controller
  has_controller-put_controller n k c [] = refl
  has_controller-put_controller n k c ((j, d) ∷ cs) = elim (Bool-cases (j == k)) [
    | inl e ↦ ap (has_controller n) (if_true (j == k) _ _ e)
    | inr e ↦
        ap (has_controller n) (if_false (j == k) _ _ e)
        ∙ ap (λ b. (j == n) || b) (has_controller-put_controller n k c cs)
  ]

  pub IsKnown-put_controller :
      (o : Option String) (k : String) (c : I) (cs : List (String × I))
      → IsKnown o cs
      → IsKnown o (put_controller k c cs)
  IsKnown-put_controller none k c cs h = tt
  IsKnown-put_controller (some n) k c cs h = has_controller-put_controller n k c cs ∙ h

  pub has_self : (n : String) (c : I) → has_controller n ((n, c) ∷ []) ≡ true
  unfolding has_controller
  has_self n c = ground (arith, eq_refl n)

module _ {I D : Type 0} where
  -- The active controller is registered, and in mode Auto it is the desired one.
  pub record IsConsistent (m : ControllerManager I D) : Type 0 where
    pub known : IsKnown m.active m.controllers
    pub desired : m.mode ≡ k_auto → m.active ≡ some m.status.desired_controller

  pub fail-IsConsistent : (m : ControllerManager I D) → IsConsistent m → IsConsistent (fail m).1
  fail-IsConsistent m h = record { known = h.known; desired = h.desired }

  pub if-IsConsistent :
      (b : Bool) (x y : Bool × ControllerManager I D)
      → (b ≡ true → IsConsistent x.1)
      → (b ≡ false → IsConsistent y.1)
      → IsConsistent (if b then x else y).1
  if-IsConsistent true x y h k = h refl
  if-IsConsistent false x y h k = k refl

  pub enter-IsConsistent :
      (mode : ControlMode) (n : String) (m : ControllerManager I D)
      → has_controller n m.controllers ≡ true
      → (mode ≡ k_auto → n ≡ m.status.desired_controller)
      → IsConsistent (after_switch (λ r. (true, in_mode mode r)) (switch_active_controller n m)).1
  unfolding switch_active_controller
  enter-IsConsistent mode n m h d =
      subst
        (λ (r : Bool × ControllerManager I D).
          IsConsistent (after_switch (λ r. (true, in_mode mode r)) r).1)
        (sym (if_true (has_controller n m.controllers) _ _ h))
        (record { known = h; desired = λ e. ap some (d e) })

  pub set_mode-IsConsistent :
      (mode : ControlMode) (m : ControllerManager I D)
      → IsConsistent m
      → IsConsistent (set_mode mode m).1
  unfolding set_mode
  set_mode-IsConsistent k_none m h = h
  set_mode-IsConsistent k_unknown m h = fail-IsConsistent m h
  set_mode-IsConsistent k_failsafe m h = record {
    known = h.known;
    desired = λ e. absurd (ground arith);
  }
  set_mode-IsConsistent k_manual m h =
      if-IsConsistent (has_controller "manual" m.controllers) _ _
        (λ e. enter-IsConsistent k_manual "manual" m e (λ a. absurd (ground arith)))
        (λ e. record { known = h.known; desired = λ a. absurd (ground arith) })
  set_mode-IsConsistent k_auto m h =
      let wanted = m.status.desired_controller in
      if-IsConsistent (not (wanted == "")) _ _
        (λ e.
          if-IsConsistent (not (has_controller wanted m.controllers)) _ _
            (λ a. fail-IsConsistent m h)
            (λ a. enter-IsConsistent k_auto wanted m (ground arith) (λ b. refl)))
        (λ e.
          if-IsConsistent
            (not (m.default_auto_name == "") && has_controller m.default_auto_name m.controllers) _
            _ (λ a. enter-IsConsistent k_auto m.default_auto_name _ (ground arith) (λ b. refl))
            (λ a. fail-IsConsistent m h))
