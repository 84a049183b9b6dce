-- ===== src/Control/Guard/Failsafe.antt =====
-- Auto and navigation, and the failsafe action of the guard.
use orange_pi_stm32_for_rov.Prelude.{
  ◌<◌, Bool, true, false, not, ◌&&◌, ◌||◌, ◌≡◌, ◌≢◌, refl, ◌∙◌, sym, Option, none, some, arith, ◌⊎◌,
  inl, inr, if◌then◌else◌, Bool-cases,
}
use orange_pi_stm32_for_rov.Control.Float.{FloatOps}
use orange_pi_stm32_for_rov.Control.Mode.{ControlMode, k_auto, k_failsafe, mode_eq}
use orange_pi_stm32_for_rov.Control.Nav.{NavStateView, NavCodes}
use orange_pi_stm32_for_rov.Control.Guard.Checks.{
  ControlGuardConfig, ControlGuard, FailsafeAction, fs_none, fs_zero_output, fs_emergency_stop,
  nav_ok_for_mode, nav_ready_for_auto, downgrade_mode,
}
use orange_pi_stm32_for_rov.Control.Guard.Stages.{Tick, Work}
use orange_pi_stm32_for_rov.Control.Guard.Gating.{leave_auto, note_gating}
use orange_pi_stm32_for_rov.Control.Guard.Step.{stale_input, arbitrate, decide_failsafe, step}

-- What nav_ready_for_auto stands for.
pub record IsTrusted (k : NavCodes) (nav : NavStateView) : Type 0 where
  pub running : (nav.nav_state ≡ k.run_ok) ⊎ (nav.nav_state ≡ k.run_degraded)
  pub is_valid : 0 < nav.valid
  pub not_stale : nav.stale ≡ 0
  pub healthy : nav.health ≢ k.health_invalid
  pub initialized : nav.health ≢ k.health_uninitialized
  pub no_fault : nav.fault_code ≡ k.nav_fault_none
  pub imu_ok : k.nav_flag_has nav.status_flags k.flag_imu_ok ≡ true
  pub align_done : k.nav_flag_has nav.status_flags k.flag_align_done ≡ true
  pub eskf_ok : k.nav_flag_has nav.status_flags k.flag_eskf_ok ≡ true

nav_ready-IsTrusted :
    (k : NavCodes) (nav : NavStateView) → nav_ready_for_auto k nav ≡ true → IsTrusted k nav
unfolding nav_ready_for_auto
nav_ready-IsTrusted k nav h = ground arith

-- The failsafe action as a function of the result's other fields.
unfoldable pub failsafe_of : (armed latched : Bool) → ControlMode → (stale : Bool) → FailsafeAction
failsafe_of armed latched mode stale =
    if latched
    then fs_emergency_stop
    else if mode_eq mode k_failsafe
        || (stale && armed)
        || (mode_eq mode k_auto && (stale || not armed))
    then fs_zero_output
    else fs_none

mode_eq-auto : (m : ControlMode) → mode_eq m k_auto ≡ true → m ≡ k_auto
mode_eq-auto m h = ground arith

module _ {D : Type 0} (F : FloatOps D) (k : NavCodes) (cfg : ControlGuardConfig D) where
  nav_ok-IsTrusted :
      (nav : Option NavStateView)
      → cfg.enable_mode_gating ≡ true
      → nav_ok_for_mode k cfg nav k_auto ≡ true
      → (n : NavStateView) × (nav ≡ some n) × IsTrusted k n
  unfolding nav_ok_for_mode
  nav_ok-IsTrusted none h e = absurd (ground arith)
  nav_ok-IsTrusted (some n) h e = (n, refl, nav_ready-IsTrusted k n (ground arith))

  mode-note_gating : (t : Tick D) (w : Work D) → (note_gating F k cfg t w).guard.mode ≡ w.guard.mode
  unfolding note_gating
  mode-note_gating t w = ground arith

  leave_auto_ok :
      (t : Tick D) (w : Work D)
      → (leave_auto F k cfg t w).guard.mode ≡ k_auto
      → nav_ok_for_mode k cfg t.nav k_auto ≡ true
  unfolding leave_auto downgrade_mode
  leave_auto_ok t w h = ground arith

  arbitrate_auto :
      (t : Tick D) (g : ControlGuard D)
      → (arbitrate F k cfg t g).guard.mode ≡ k_auto
      → nav_ok_for_mode k cfg t.nav k_auto ≡ true
  unfolding arbitrate
  arbitrate_auto t g h = leave_auto_ok t _ (sym (mode-note_gating t _) ∙ h)

  -- With mode gating on, the effective mode is Auto only on a tick that carries a navigation view
  -- which runs, is valid and not stale, is healthy and without fault, and has IMU, alignment and
  -- ESKF up.
  pub auto-IsTrusted :
      (t : Tick D) (g : ControlGuard D)
      → cfg.enable_mode_gating ≡ true
      → (step F k cfg t g).result.effective_mode ≡ k_auto
      → (n : NavStateView) × (t.nav ≡ some n) × IsTrusted k n
  unfolding step
  auto-IsTrusted t g h e = nav_ok-IsTrusted t.nav h (arbitrate_auto t g e)

  decide_failsafe_lem :
      (stale : Bool) (t : Tick D) (g : ControlGuard D)
      → (mode_eq g.mode k_auto ≡ false) ⊎ (nav_ok_for_mode k cfg t.nav k_auto ≡ true)
      → decide_failsafe F k cfg stale t g ≡ failsafe_of g.armed g.estop_latched g.mode stale
  unfolding decide_failsafe failsafe_of
  decide_failsafe_lem stale t g h = ground arith

  not_auto_or_ok :
      (t : Tick D) (g : ControlGuard D)
      → let m = (arbitrate F k cfg t g).guard.mode in
        (mode_eq m k_auto ≡ false) ⊎ (nav_ok_for_mode k cfg t.nav k_auto ≡ true)
  not_auto_or_ok t g = elim (Bool-cases (mode_eq (arbitrate F k cfg t g).guard.mode k_auto)) [
    | inl e ↦ inr (arbitrate_auto t g (mode_eq-auto _ e))
    | inr e ↦ inl e
  ]

  -- The failsafe action is fixed by four fields of the result, on every input: an emergency stop
  -- exactly while the stop is latched; otherwise zero output in mode Failsafe, with a stale intent
  -- while armed, and in mode Auto with a stale intent or not armed; otherwise none. The navigation
  -- test of the code adds nothing, since no tick ends in Auto with navigation not ready.
  pub failsafe_exact :
      (t : Tick D) (g : ControlGuard D)
      → let r = (step F k cfg t g).result in
        r.failsafe ≡ failsafe_of r.armed r.estop_latched r.effective_mode r.input_stale
  unfolding step
  failsafe_exact t g = decide_failsafe_lem (stale_input F k cfg t g) t _ (not_auto_or_ok t g)
