-- ===== src/Control/Guard/Gating.antt =====
-- ControlGuard::step, sections 5.5 (motor test) and 6 (mode gating).
use orange_pi_stm32_for_rov.Prelude.{
  ◌+◌, ◌*◌, Bool, true, false, not, ◌&&◌, ◌||◌, some, [], ◌∷◌, ◌++◌, is_some, ltb, if◌then◌else◌,
  u64, ns_per_ms,
}
use orange_pi_stm32_for_rov.Control.Float.{FloatOps}
use orange_pi_stm32_for_rov.Control.Mode.{ControlMode, k_none, k_auto, mode_eq}
use orange_pi_stm32_for_rov.Control.Intent.{no_motor_test, zero_dof}
use orange_pi_stm32_for_rov.Control.Nav.{NavCodes}
use orange_pi_stm32_for_rov.Control.Guard.Checks.{
  ControlGuardConfig, fs_none, motor_test_reject, mode_reject, nav_ok_for_mode, downgrade_mode,
  clamp_motor_test, should_emit_reject,
}
use orange_pi_stm32_for_rov.Control.Guard.Stages.{Tick, Work, guard_event, report_reject}

module _ {D : Type 0} (F : FloatOps D) (k : NavCodes) (cfg : ControlGuardConfig D) where
  unfoldable pub clear_motor_test : Work D → Work D
  clear_motor_test w = record w {
    guard = record w.guard {
      motor_test_active = false;
      motor_test_deadline_ns = 0;
      motor_test_cmd_seq = 0;
      latched_motor_test = no_motor_test F.nought;
    };
    eff = record w.eff { has_motor_test = false; motor_test = no_motor_test F.nought };
  }

  -- Section 5.5: start a motor test, keep one running until its deadline, or drop it.
  unfoldable pub start_motor_test : Tick D → Work D → Work D
  start_motor_test t w =
      let mt = clamp_motor_test F w.eff.motor_test in
      record w {
        guard = record w.guard {
          latched_motor_test = mt;
          motor_test_active = true;
          motor_test_cmd_seq = t.intent.cmd_seq;
          motor_test_deadline_ns = u64 (t.now_ns + mt.duration_ms * ns_per_ms);
        };
        eff = record w.eff { motor_test = mt };
      }

  unfoldable pub choose_motor_test : Bool → Tick D → Work D → Work D
  unfolding report_reject guard_event
  choose_motor_test stale t w =
      let g = w.guard in
      let can_run_test = g.armed && not g.estop_latched in
      if w.eff.has_motor_test && w.eff.motor_test.enable
      then if can_run_test && not stale
        then start_motor_test t w
        else report_reject
            (should_emit_reject (clear_motor_test w).guard t.intent.cmd_seq
              (some motor_test_reject))
            (λ g.
              guard_event t g "guard_reject" "warn" k.motor_test_violation g.mode fs_none
                "motor test rejected because guard preconditions are not satisfied")
            (clear_motor_test w)
      else if g.motor_test_active && can_run_test && ltb t.now_ns g.motor_test_deadline_ns
      then record w {
        eff = record w.eff { has_motor_test = true; motor_test = g.latched_motor_test };
      }
      else clear_motor_test w

  -- A running motor test excludes every other command.
  unfoldable pub exclude_others : Work D → Work D
  exclude_others w = if not w.eff.has_motor_test then w else record w {
    eff = record w.eff {
      has_teleop_dof = false;
      teleop_dof_cmd = zero_dof F.nought;
      has_ref = false;
      has_ref_delta = false;
      has_mode_request = false;
    };
  }

  unfoldable pub motor_test_stage : Bool → Tick D → Work D → Work D
  motor_test_stage stale t w = exclude_others (choose_motor_test stale t w)

  abbrev pub set_mode : ControlMode → Bool → Work D → Work D
  set_mode m changed w = record w { guard = record w.guard { mode = m }; mode_changed = changed }

  -- Section 6, first half: a mode request, lowered if navigation does not carry it.
  unfoldable pub request_mode : Tick D → Work D → Work D
  unfolding report_reject guard_event
  request_mode t w =
      let requested = w.eff.mode_request in
      if not (w.eff.has_mode_request && not (mode_eq requested k_none))
      then w
      else if nav_ok_for_mode k cfg t.nav requested
      then set_mode requested (not (mode_eq requested w.guard.mode)) w
      else let w' =
          report_reject (should_emit_reject w.guard t.intent.cmd_seq (some mode_reject))
            (λ g.
              guard_event t g "guard_reject" "warn" k.illegal_state_transition requested fs_none
                "requested mode rejected because nav gating is not satisfied")
            w in
        let lowered = downgrade_mode requested in
        set_mode lowered (not (mode_eq lowered w'.guard.mode)) w'

  -- Section 6, second half: Auto is left as soon as navigation is not ready.
  unfoldable pub leave_auto : Tick D → Work D → Work D
  leave_auto t w =
      let mode = w.guard.mode in
      let lowered = downgrade_mode mode in
      if mode_eq mode k_auto && not (nav_ok_for_mode k cfg t.nav k_auto)
      then set_mode lowered (w.mode_changed || not (mode_eq lowered mode)) w
      else w

  -- The change of navigation gating is reported.
  unfoldable pub note_gating : Tick D → Work D → Work D
  unfolding guard_event
  note_gating t w =
      let g = w.guard in
      let ok = nav_ok_for_mode k cfg t.nav k_auto in
      let context =
        cfg.enable_mode_gating
        && (is_some t.nav
            || mode_eq g.mode k_auto
            || (w.eff.has_mode_request && mode_eq w.eff.mode_request k_auto)) in
      let changed =
        not g.have_last_nav_gating_state
        || (if ok then not g.last_nav_gating_ok else g.last_nav_gating_ok) in
      let event =
        guard_event t g "guard_nav_gating_changed" (if ok then "info" else "warn")
          (if ok then k.fault_none else k.nav_untrusted) k_auto fs_none
          (if ok
            then "AUTO nav gating recovered"
            else "AUTO nav gating blocked because nav is missing or untrusted") in
      if not context then w else record w {
        guard = record g { have_last_nav_gating_state = true; last_nav_gating_ok = ok };
        events = if changed then w.events ++ event ∷ [] else w.events;
      }
