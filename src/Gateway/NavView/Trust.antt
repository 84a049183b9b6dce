-- ===== src/Gateway/NavView/Trust.antt =====
-- The navigation daemon in front of the guard.
use mathlib.Core.Path.{subst}
use mathlib.Core.Option.{none-ne-some, some-injective}
use orange_pi_stm32_for_rov.Prelude.{
  ℕ, ◌-◌, ◌/◌, ◌^◌, ◌≤◌, ◌<◌, ◌≡◌, ◌≢◌, refl, sym, ap, ◌∙◌, Bool, true, false, not, ◌&&◌, ◌||◌,
  ◌==◌, if_true, Option, none, some, arith,
}
use orange_pi_stm32_for_rov.Control.Float.{FloatOps}
use orange_pi_stm32_for_rov.Control.Mode.{k_auto}
use orange_pi_stm32_for_rov.Control.Nav.{NavCodes}
use orange_pi_stm32_for_rov.Control.Guard.Checks.{ControlGuardConfig, ControlGuard}
use orange_pi_stm32_for_rov.Control.Guard.Stages.{Tick}
use orange_pi_stm32_for_rov.Control.Guard.Step.{step}
use orange_pi_stm32_for_rov.Control.Guard.Failsafe.{IsTrusted, auto-IsTrusted}
use orange_pi_stm32_for_rov.Gateway.NavView.{
  NavState, NavView, NavViewConsts, NavViewDaemonPolicyConfig, finite_ok, build, last_view, chosen,
  decided, fill_nav_view_publish_fields, too_old, age_from_pub, is_absent,
  evaluate_nav_view_publish,
}

-- After the warm-up, a state whose publication time is known is not older than the limit.
abbrev pub IsRecent : NavViewDaemonPolicyConfig → (at start now : ℕ) → Type 0
IsRecent cfg at start now =
    cfg.warmup_ms ≤ (now - start) / 1_000_000
    → at ≢ 0
    → at ≤ now
    → (now - at) / 1_000_000 ≤ cfg.max_age_ms

module _ {D : Type 0} (is_finite : D → Bool) (k : NavCodes) (consts : NavViewConsts D) where
  not_old-IsRecent :
      (cfg : NavViewDaemonPolicyConfig) (at start now : ℕ)
      → now < 2 ^ 64
      → too_old is_finite k consts cfg start now (age_from_pub is_finite k consts at now) ≡ false
      → IsRecent cfg at start now
  not_old-IsRecent cfg at start now l h w n m = ground arith

  -- A view that counts as valid shows a state that is valid, not stale and finite.
  build_valid :
      (s : NavState D)
      → 0 < (build is_finite k consts s).status.valid
      → (not (s.status.valid == 0) && s.status.stale == 0 && finite_ok is_finite k consts s) ≡ true
  unfolding build
  build_valid s h = ground arith

  -- Only the view of the last state is valid when it is published, and only when not too old.
  chosen_valid :
      (age : ℕ) (stale absent allowed : Bool) (now : ℕ) (last : Option (NavView D))
      → let d =
          decided is_finite k consts age stale
            (stale || absent)
            absent
            now
            (chosen is_finite k consts (stale || absent) allowed last) in
        d.publish ≡ true
        → 0 < d.out.status.valid
        → (stale ≡ false)
          × (v : NavView D) × (last ≡ some v)
          × (d.out ≡ fill_nav_view_publish_fields is_finite k consts v now)
  unfolding fill_nav_view_publish_fields
  chosen_valid age true absent false now last p h = absurd (ground arith)
  chosen_valid age true absent true now last p h = absurd (ground arith)
  chosen_valid age false true false now last p h = absurd (ground arith)
  chosen_valid age false true true now last p h = absurd (ground arith)
  chosen_valid age false false allowed now none p h = absurd (ground arith)
  chosen_valid age false false allowed now (some v) p h = (refl, v, refl, refl)

  -- A navigation state that control may use, and the view that shows it.
  pub record IsLive (s : NavState D) (out : NavView D) (now : ℕ) : Type 0 where
    pub trusted : IsTrusted k s.status
    pub finite : finite_ok is_finite k consts s ≡ true
    pub shown : out.kinematics ≡ s.kinematics
    pub stamp : out.stamp_ns ≡ s.t_ns
    pub published_at : out.mono_ns ≡ now

  build-IsLive :
      (s : NavState D) (now : ℕ)
      → IsTrusted k (build is_finite k consts s).status
      → IsLive s
          (fill_nav_view_publish_fields is_finite k consts (build is_finite k consts s) now)
          now
  unfolding fill_nav_view_publish_fields build
  build-IsLive s now h =
      let e = build_valid s h.is_valid in
      let same =
        if_true (not (s.status.valid == 0) && s.status.stale == 0 && finite_ok is_finite k consts s)
          _ _ e in
      record {
        trusted = subst (λ (v : NavView D). IsTrusted k v.status) same h;
        finite = ground arith;
        shown = ap (λ (v : NavView D). v.kinematics) same;
        stamp = ap (λ (v : NavView D). v.stamp_ns) same;
        published_at = refl;
      }

  published_IsLive :
      (last : Option (NavState D)) (v out : NavView D) (now : ℕ)
      → last_view is_finite k consts last ≡ some v
      → out ≡ fill_nav_view_publish_fields is_finite k consts v now
      → IsTrusted k out.status
      → (s : NavState D) × (last ≡ some s) × IsLive s out now
  unfolding fill_nav_view_publish_fields
  published_IsLive none v out now e p t = absurd (none-ne-some v e)
  published_IsLive (some s) v out now e p t =
      let fill = fill_nav_view_publish_fields is_finite k consts in
      let same = p ∙ ap (λ w. fill w now) (sym (some-injective _ _ e)) in
      (
        s,
        refl,
        subst (λ (w : NavView D). IsLive s w now) (sym same)
            (build-IsLive s now (subst (λ (w : NavView D). IsTrusted k w.status) same t)),
      )

  -- With mode gating on, a tick of the guard on a view that the daemon has published at `now` ends in
  -- mode Auto only if the daemon holds a navigation state that the guard's test trusts, whose numbers
  -- are all finite, whose position, motion and time stamp are those of the view, and that after the
  -- warm-up is not older than the limit, where its publication time is known. A diagnostic view never
  -- lets Auto go on.
  pub auto-IsLive :
      (F : FloatOps D) (guard_cfg : ControlGuardConfig D) (t : Tick D) (g : ControlGuard D)
      (cfg : NavViewDaemonPolicyConfig) (last : Option (NavState D)) (at start now : ℕ)
      (slot_ready : Bool)
      → let d =
          evaluate_nav_view_publish is_finite k consts
            (last_view is_finite k consts last)
            at
            start
            now
            cfg
            slot_ready in
        now < 2 ^ 64
        → guard_cfg.enable_mode_gating ≡ true
        → d.publish ≡ true
        → t.nav ≡ some d.out.status
        → (step F k guard_cfg t g).result.effective_mode ≡ k_auto
        → (s : NavState D) × (last ≡ some s) × IsLive s d.out now × IsRecent cfg at start now
  unfolding evaluate_nav_view_publish
  auto-IsLive F guard_cfg t g cfg last at start now slot_ready l gate p e auto =
      let (n, given, trusted) = auto-IsTrusted F k guard_cfg t g gate auto in
      let age = age_from_pub is_finite k consts at now in
      let view = last_view is_finite k consts last in
      let trust = subst (IsTrusted k) (some-injective n _ (sym given ∙ e)) trusted in
      let (fresh, v, some_v, out) =
        chosen_valid age (too_old is_finite k consts cfg start now age)
          (is_absent is_finite k consts view) (cfg.publish_when_stale && slot_ready) now view p
          trust.is_valid in
      let (s, is_last, live) = published_IsLive last v _ now some_v out trust in
      (s, is_last, live, not_old-IsRecent cfg at start now l fresh)
