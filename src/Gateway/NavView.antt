-- ===== src/Gateway/NavView.antt =====
-- gateway/src/IPC/nav/nav_view_builder.cpp and nav_view_policy.cpp: the view of the navigation that
-- the daemon publishes to the control program. The two message types, their enumerators and the
-- default value of a view are declared in shared/msg/, outside this repository, and are parameters.
pub mod Trust
use orange_pi_stm32_for_rov.Prelude.{
  ℕ, ◌-◌, ◌/◌, ◌^◌, Bool, true, false, not, ◌&&◌, ◌||◌, Option, none, some, ltb, leb, ◌==◌,
  if◌then◌else◌,
}
use orange_pi_stm32_for_rov.Control.Nav.{NavStateView, NavCodes}

-- An array of three double.
abbrev pub Vec3 : Type 0 → Type 0
Vec3 D = D × D × D

pub record Kinematics (D : Type 0) : Type 0 where
  pub pos : Vec3 D
  pub vel : Vec3 D
  pub rpy : Vec3 D
  pub omega_b : Vec3 D
  pub acc_b : Vec3 D
  pub depth : D

-- shared::msg::NavState; `status` has the fields that it shares with the view and that the guard
-- reads there.
pub record NavState (D : Type 0) : Type 0 where
  pub t_ns : ℕ
  pub age_ms : ℕ
  pub status : NavStateView
  pub sensor_mask : ℕ
  pub kinematics : Kinematics D

-- shared::msg::NavStateView, whole.
pub record NavView (D : Type 0) : Type 0 where
  pub version : ℕ
  pub mono_ns : ℕ
  pub stamp_ns : ℕ
  pub age_ms : ℕ
  pub status : NavStateView
  pub sensor_mask : ℕ
  pub flags : ℕ
  pub kinematics : Kinematics D

-- What shared/msg/ declares and the gateway names: the version, the enumerators, the six presence
-- flags together, and a default view.
pub record NavViewConsts (D : Type 0) : Type 0 where
  pub wire_version : ℕ
  pub run_invalid : ℕ
  pub nav_view_stale : ℕ
  pub estimator_numeric_invalid : ℕ
  pub has_all : ℕ
  pub blank : NavView D

pub record NavViewDaemonPolicyConfig : Type 0 where
  pub max_age_ms : ℕ
  pub warmup_ms : ℕ
  pub publish_when_stale : Bool

pub record NavViewDaemonDecision (D : Type 0) : Type 0 where
  pub publish : Bool
  pub diagnostic_only : Bool
  pub stale_triggered : Bool
  pub no_nav_yet : Bool
  pub degraded_publish : Bool
  pub age_ms_from_nav_pub : ℕ
  pub out : NavView D

abbrev pub uint64_max : ℕ
uint64_max = 2 ^ 64 - 1

abbrev pub uint32_max : ℕ
uint32_max = 2 ^ 32 - 1

module _ {D : Type 0} (is_finite : D → Bool) (k : NavCodes) (consts : NavViewConsts D) where
  abbrev pub is_finite3 : Vec3 D → Bool
  is_finite3 (x, y, z) = is_finite x && is_finite y && is_finite z

  unfoldable pub finite_ok : NavState D → Bool
  finite_ok s =
      let p = s.kinematics in
      not (s.t_ns == 0)
      && is_finite3 p.pos
      && is_finite3 p.vel
      && is_finite3 p.rpy
      && is_finite3 p.omega_b
      && is_finite3 p.acc_b
      && is_finite p.depth

  abbrev pub copied : NavState D → NavView D
  copied s = record consts.blank {
    version = consts.wire_version;
    stamp_ns = s.t_ns;
    age_ms = s.age_ms;
    status = s.status;
    sensor_mask = s.sensor_mask;
  }

  -- The status of a view without kinematics.
  abbrev pub withheld : Bool → NavStateView → NavStateView
  withheld finite v =
      let v = record v { valid = 0 } in
      if not finite && v.fault_code == k.nav_fault_none
      then record v {
        nav_state = consts.run_invalid;
        health = k.health_invalid;
        fault_code = consts.estimator_numeric_invalid;
      }
      else v

  unfoldable pub build : NavState D → NavView D
  build s =
      if not (s.status.valid == 0) && s.status.stale == 0 && finite_ok s
      then record (copied s) { kinematics = s.kinematics; flags = consts.has_all }
      else record (copied s) { flags = 0; status = withheld (finite_ok s) s.status }

  -- The daemon builds the view of every state that it polls, and keeps the last one.
  abbrev pub last_view : Option (NavState D) → Option (NavView D)
  last_view none = none
  last_view (some s) = some (build s)

  -- The age in milliseconds, at most the largest 32-bit number.
  abbrev pub capped_age : ℕ → ℕ
  capped_age age_ms64 = if ltb uint32_max age_ms64 then uint32_max else age_ms64

  unfoldable pub fill_nav_view_publish_fields : NavView D → (pub_mono_ns : ℕ) → NavView D
  fill_nav_view_publish_fields out pub_mono_ns = record out {
    mono_ns = pub_mono_ns;
    age_ms =
        if not (out.stamp_ns == 0) && leb out.stamp_ns pub_mono_ns
        then capped_age ((pub_mono_ns - out.stamp_ns) / 1_000_000)
        else uint32_max;
  }

  abbrev pub stale_status : NavStateView → NavStateView
  stale_status v = record v {
    valid = 0;
    stale = 1;
    degraded = 1;
    nav_state = consts.run_invalid;
    health = k.health_invalid;
    fault_code = consts.nav_view_stale;
  }

  abbrev pub kept_of : Option (NavView D) → NavView D → NavView D
  kept_of none out = out
  kept_of (some last) out = record out {
    stamp_ns = last.stamp_ns;
    sensor_mask = last.sensor_mask;
    status = record out.status { status_flags = last.status.status_flags };
  }

  unfoldable pub make_stale_nav_view : Option (NavView D) → NavView D
  make_stale_nav_view last = kept_of last (record consts.blank {
    version = consts.wire_version;
    status = stale_status consts.blank.status;
    flags = 0;
  })

  -- What evaluate_nav_view_publish sets again in the diagnostic view.
  abbrev pub marked_stale : NavView D → NavView D
  marked_stale out =
      let s = out.status in
      record out {
        status = record s {
          valid = 0;
          stale = 1;
          degraded = 1;
          nav_state = consts.run_invalid;
          health = k.health_invalid;
          fault_code =
              if s.fault_code == k.nav_fault_none then consts.nav_view_stale else s.fault_code;
        };
      }

  abbrev pub age_from_pub : (last_nav_pub_mono_ns now : ℕ) → ℕ
  age_from_pub at now = if at == 0 || ltb now at then uint64_max else (now - at) / 1_000_000

  -- Past the start of the daemon, with a known age that is too large.
  abbrev pub too_old : NavViewDaemonPolicyConfig → (daemon_start now age : ℕ) → Bool
  too_old cfg start now age =
      let elapsed = if ltb now start then 0 else (now - start) / 1_000_000 in
      not (ltb elapsed cfg.warmup_ms) && not (age == uint64_max) && ltb cfg.max_age_ms age

  abbrev pub is_absent : Option (NavView D) → Bool
  is_absent none = true
  is_absent (some v) = false

  -- The published view: none where nothing is published.
  abbrev pub chosen : (diagnostic allowed : Bool) → Option (NavView D) → Option (NavView D)
  chosen false allowed last = last
  chosen true false last = none
  chosen true true last = some (marked_stale (make_stale_nav_view last))

  abbrev pub is_degraded : Bool → NavView D → Bool
  is_degraded diagnostic out = diagnostic || out.status.valid == 0 || not (out.status.degraded == 0)

  abbrev pub decided :
      (age : ℕ) (stale diagnostic absent : Bool) (now : ℕ)
      → Option (NavView D)
      → NavViewDaemonDecision D
  decided age stale diagnostic absent now none = record {
    publish = false;
    diagnostic_only = diagnostic;
    stale_triggered = stale;
    no_nav_yet = absent;
    degraded_publish = false;
    age_ms_from_nav_pub = age;
    out = consts.blank;
  }
  decided age stale diagnostic absent now (some out) = record {
    publish = true;
    diagnostic_only = diagnostic;
    stale_triggered = stale;
    no_nav_yet = absent;
    degraded_publish = is_degraded diagnostic out;
    age_ms_from_nav_pub = age;
    out = fill_nav_view_publish_fields out now;
  }

  unfoldable pub evaluate_nav_view_publish :
      Option (NavView D)
      → (last_nav_pub_mono_ns daemon_start_mono_ns now_mono_ns : ℕ) → NavViewDaemonPolicyConfig
      → (diagnostic_slot_ready : Bool) → NavViewDaemonDecision D
  evaluate_nav_view_publish last at start now cfg slot_ready =
      let age = age_from_pub at now in
      let stale = too_old cfg start now age in
      let absent = is_absent last in
      let diagnostic = stale || absent in
      decided age stale diagnostic absent now
        (chosen diagnostic (cfg.publish_when_stale && slot_ready) last)
