-- ===== src/Control/Guard/Stages.antt =====
-- ControlGuard::step, one function for each of its numbered sections: 1 to 5.
use orange_pi_stm32_for_rov.Prelude.{
  ℕ, ◌-◌, ◌/◌, Bool, true, false, not, ◌&&◌, Option, none, some, String, List, [], ◌∷◌, ◌++◌,
  is_some, ltb, leb, ◌==◌, if◌then◌else◌, u32, ns_per_ms,
}
use orange_pi_stm32_for_rov.Control.Float.{FloatOps}
use orange_pi_stm32_for_rov.Control.Mode.{ControlMode, k_none}
use orange_pi_stm32_for_rov.Control.Intent.{ControlIntent, zero_dof, clear_payload}
use orange_pi_stm32_for_rov.Control.Nav.{NavStateView, NavCodes}
use orange_pi_stm32_for_rov.Control.Guard.Checks.{
  ControlGuardConfig, ControlGuard, GuardEvent, FailsafeAction, fs_none, clear_estop_not_neutral,
  is_neutral_for_clear, should_emit_reject,
}

-- The arguments of `step`.
pub record Tick (D : Type 0) : Type 0 where
  pub now_ns : ℕ
  pub nav : Option NavStateView
  pub intent : ControlIntent D

-- The members, and the local variables that later sections change.
pub record Work (D : Type 0) : Type 0 where
  pub guard : ControlGuard D
  pub eff : ControlIntent D
  pub mode_changed : Bool
  pub events : List GuardEvent

-- The members that the emergency stop and arming are decided by.
pub record GuardSafety : Type 0 where
  pub armed : Bool
  pub estop_latched : Bool
  pub clear_hold_start_ns : ℕ
  pub clear_hold_ms : ℕ

abbrev pub safety : {D : Type 0} → ControlGuard D → GuardSafety
safety g = record {
  armed = g.armed;
  estop_latched = g.estop_latched;
  clear_hold_start_ns = g.clear_hold_start_ns;
  clear_hold_ms = g.clear_hold_ms;
}

abbrev pub nav_field : (NavStateView → ℕ) → Option NavStateView → Bool
nav_field field none = false
nav_field field (some nav) = not (field nav == 0)

module _ {D : Type 0} where
  -- emit_guard_event
  unfoldable pub guard_event :
      Tick D
      → ControlGuard D
      → (event level : String) → ℕ
      → ControlMode
      → FailsafeAction
      → String
      → GuardEvent
  guard_event t g event level fault_code requested failsafe message = record {
    mono_ns = t.now_ns;
    event = event;
    level = level;
    fault_code = fault_code;
    mode = g.mode;
    requested_mode = requested;
    failsafe = failsafe;
    armed = g.armed;
    estop_latched = g.estop_latched;
    nav_present = is_some t.nav;
    nav_valid = nav_field (λ n. n.valid) t.nav;
    nav_stale = nav_field (λ n. n.stale) t.nav;
    nav_degraded = nav_field (λ n. n.degraded) t.nav;
    message = message;
  }

  -- Sections 3, 5.5 and 6: report a rejected command unless it was reported already.
  unfoldable pub report_reject :
      Bool × ControlGuard D → (ControlGuard D → GuardEvent) → Work D → Work D
  report_reject (emit, g) event w = record w {
    guard = g;
    events = if emit then w.events ++ event g ∷ [] else w.events;
  }

  -- Section 1: freshness of the input.
  unfoldable pub note_input : Tick D → ControlGuard D → ControlGuard D
  note_input t g =
      let i = t.intent in
      if not (i.cmd_seq == 0) && not (i.cmd_seq == g.last_intent_cmd_seq)
      then record g {
        last_intent_cmd_seq = i.cmd_seq;
        last_intent_ns = if i.stamp_ns == 0 then t.now_ns else i.stamp_ns;
        input_age_ms = 0;
      }
      else if i.cmd_seq == 0 && i.has_teleop_dof
      then record g { last_intent_ns = t.now_ns; input_age_ms = 0 }
      else g

  -- Section 2: the age of the input.
  unfoldable pub note_age : Tick D → ControlGuard D → ControlGuard D
  note_age t g = record g {
    input_age_ms =
        if not (g.last_intent_ns == 0) && leb g.last_intent_ns t.now_ns
        then u32 ((t.now_ns - g.last_intent_ns) / ns_per_ms)
        else 0;
  }

  -- Section 2: a stale intent loses its payload, except a request to exit.
  unfoldable pub drop_if_stale : FloatOps D → Bool → ControlIntent D → ControlIntent D
  drop_if_stale F stale i =
      if stale
      then record (clear_payload F.nought i) { request_exit = i.request_exit; valid = false }
      else i

  abbrev pub hold_threshold_ms : ControlGuardConfig D → ℕ
  hold_threshold_ms cfg = if ltb 0 cfg.estop_clear_hold_ms then cfg.estop_clear_hold_ms else 2000

  abbrev pub stop_hold : ControlGuard D → ControlGuard D
  stop_hold g = record g { clear_hold_start_ns = 0; clear_hold_ms = 0 }

  -- Section 3, a neutral request to clear: the time of holding.
  unfoldable pub hold_clear : ℕ → ControlGuard D → ControlGuard D
  hold_clear now_ns g =
      if g.clear_hold_start_ns == 0
      then record g { clear_hold_start_ns = now_ns; clear_hold_ms = 0 }
      else if leb g.clear_hold_start_ns now_ns
      then record g { clear_hold_ms = u32 ((now_ns - g.clear_hold_start_ns) / ns_per_ms) }
      else g

  unfoldable pub release_if_held : ControlGuardConfig D → ControlGuard D → ControlGuard D
  release_if_held cfg g =
      if leb (hold_threshold_ms cfg) g.clear_hold_ms
      then record g { estop_latched = false; clear_hold_start_ns = 0; clear_hold_ms = 0 }
      else g

module _ {D : Type 0} (F : FloatOps D) (k : NavCodes) (cfg : ControlGuardConfig D) where
  -- Section 3: the emergency stop is latched, or released after a clear that is held.
  unfoldable pub estop_stage : Tick D → Work D → Work D
  unfolding report_reject guard_event
  estop_stage t w =
      let g = w.guard in
      if w.eff.estop
      then record w {
        guard = record g { estop_latched = true; clear_hold_start_ns = 0; clear_hold_ms = 0 };
      }
      else if g.estop_latched && w.eff.clear_estop
      then if is_neutral_for_clear F w.eff.teleop_dof_cmd
        then record w { guard = release_if_held cfg (hold_clear t.now_ns g) }
        else report_reject
            (should_emit_reject (stop_hold g) t.intent.cmd_seq (some clear_estop_not_neutral))
            (λ g.
              guard_event t g "guard_reject" "warn" k.illegal_state_transition k_none fs_none
                "clear estop rejected because teleop input is not neutral")
            w
      else record w { guard = stop_hold g }

  -- Section 4: arm and disarm.
  unfoldable pub arm_stage : Work D → Work D
  arm_stage w = record w {
    guard = record w.guard {
      armed =
          if w.guard.estop_latched
          then false
          else if not w.eff.has_arm_cmd
          then w.guard.armed
          else if w.eff.disarm
          then false
          else if w.eff.arm
          then true
          else w.guard.armed;
    };
  }

  -- Section 5: without ARM nothing that moves the vehicle passes.
  unfoldable pub strip_unarmed : Work D → Work D
  strip_unarmed w = if w.guard.armed then w else record w {
    eff = record w.eff {
      teleop_dof_cmd = if w.eff.has_teleop_dof then zero_dof F.nought else w.eff.teleop_dof_cmd;
      has_teleop_dof = false;
      has_ref = false;
      has_ref_delta = false;
    };
  }
