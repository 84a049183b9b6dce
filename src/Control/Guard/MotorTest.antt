-- ===== src/Control/Guard/MotorTest.antt =====
-- The single-motor test of the guard: its bounds and its end.
use orange_pi_stm32_for_rov.Prelude.{
  ℕ, ◌+◌, ◌*◌, ◌≤◌, ◌<◌, Bool, true, false, ◌≡◌, ◌∙◌, sym, arith, ◌⊎◌, inl, inr, List, [], ◌∷◌,
  ns_per_ms, Bool-cases,
}
use orange_pi_stm32_for_rov.Control.Float.{FloatOps}
use orange_pi_stm32_for_rov.Control.Nav.{NavCodes}
use orange_pi_stm32_for_rov.Control.Intent.{MotorTestCmd}
use orange_pi_stm32_for_rov.Control.Guard.Checks.{
  ControlGuardConfig, ControlGuard, should_emit_reject, clamp_motor_test,
}
use orange_pi_stm32_for_rov.Control.Guard.Stages.{Tick, Work}
use orange_pi_stm32_for_rov.Control.Guard.Gating.{
  clear_motor_test, start_motor_test, choose_motor_test, exclude_others, motor_test_stage,
}
use orange_pi_stm32_for_rov.Control.Guard.Step.{stale_input, step, run}
use orange_pi_stm32_for_rov.Control.Guard.Payload.{before_test}
use orange_pi_stm32_for_rov.Control.Guard.Output.{eff-step-flags}
use orange_pi_stm32_for_rov.Control.Guard.TestKeeps.{
  Testing, testing, commands_test, testing-before_test, testing-step, commands-before_test,
}

-- A command that the guard may run.
pub record IsRunnable {D : Type 0} (m : MotorTestCmd D) : Type 0 where
  pub motor_ge : 1 ≤ m.motor_id
  pub motor_le : m.motor_id ≤ 8
  pub mode_le : m.mode ≤ 1
  pub duration_ge : 1 ≤ m.duration_ms
  pub duration_le : m.duration_ms ≤ 1000

-- A running test is runnable and ends by `stop`.
pub record TestInv {D : Type 0} (stop : ℕ) (g : Testing D) : Type 0 where
  pub runnable : (g.active ≡ false) ⊎ IsRunnable g.latched
  pub ends : (g.active ≡ false) ⊎ (g.deadline ≤ stop)

-- The longest test, in nanoseconds.
abbrev pub longest_test_ns : ℕ
longest_test_ns = 1000 * ns_per_ms

module _ {D : Type 0} (F : FloatOps D) (k : NavCodes) (cfg : ControlGuardConfig D) where
  clamp_motor_test-IsRunnable : (m : MotorTestCmd D) → IsRunnable (clamp_motor_test F m)
  unfolding clamp_motor_test
  clamp_motor_test-IsRunnable m = ground arith

  choose-TestInv :
      (stale : Bool) (t : Tick D) (w : Work D) (stop : ℕ)
      → TestInv stop (testing w.guard)
      → (commands_test w.eff ≡ false) ⊎ (t.now_ns + longest_test_ns ≤ stop)
      → TestInv stop (testing (choose_motor_test F k cfg stale t w).guard)
  unfolding choose_motor_test clear_motor_test start_motor_test should_emit_reject
  choose-TestInv stale t w stop v h = ground (arith, clamp_motor_test-IsRunnable w.eff.motor_test)

  -- A test that is left on by section 5.5 is runnable, and is new or not over.
  stage-running :
      (stale : Bool) (t : Tick D) (w : Work D) (stop : ℕ)
      → TestInv stop (testing w.guard)
      → (motor_test_stage F k cfg stale t w).eff.has_motor_test ≡ true
      → IsRunnable (motor_test_stage F k cfg stale t w).eff.motor_test
        × ((commands_test w.eff ≡ true) ⊎ (t.now_ns < stop))
  unfolding motor_test_stage choose_motor_test exclude_others clear_motor_test start_motor_test
  stage-running stale t w stop v h = ground (arith, clamp_motor_test-IsRunnable w.eff.motor_test)

  -- The bound on running tests moves only with a command, by at most 1000 ms.
  pub step-TestInv :
      (t : Tick D) (g : ControlGuard D) (stop : ℕ)
      → TestInv stop (testing g)
      → (commands_test t.intent ≡ false) ⊎ (t.now_ns + longest_test_ns ≤ stop)
      → TestInv stop (testing (step F k cfg t g).guard)
  step-TestInv t g stop v h = rw (testing-step F k cfg t g) (
      choose-TestInv _ t _ stop (rw (testing-before_test F k cfg t g) v)
        (ground (arith, commands-before_test F k cfg t g)))

  -- Any motor test in the effective intent names one of the motors 1 to 8, a mode of 0 or 1 and a
  -- duration of 1 to 1000 ms, and if this tick does not command it then it is not past the bound on
  -- running tests that the guard had before the tick.
  pub motor_test_bounded :
      (t : Tick D) (g : ControlGuard D) (stop : ℕ)
      → TestInv stop (testing g)
      → (step F k cfg t g).result.effective_intent.has_motor_test ≡ true
      → IsRunnable (step F k cfg t g).result.effective_intent.motor_test
        × ((commands_test t.intent ≡ true) ⊎ (t.now_ns < stop))
  motor_test_bounded t g stop v h =
      let w = before_test F k cfg t g in
      let flags = eff-step-flags F k cfg t g in
      let (r, c) =
        stage-running (stale_input F k cfg t g) t w stop (rw (testing-before_test F k cfg t g) v)
          (sym flags.3 ∙ h) in
      (rw flags.5 r, ground (arith, c, commands-before_test F k cfg t g))

  -- Every tick commands no test, or is stamped `stop` minus 1000 ms at the latest.
  abbrev pub CommandsBy : ℕ → List (Tick D) → Type 0
  CommandsBy stop [] = Unit {0}
  CommandsBy stop (t ∷ ts) =
      ((commands_test t.intent ≡ false) ⊎ (t.now_ns + longest_test_ns ≤ stop)) × CommandsBy stop ts

  run-TestInv :
      (ts : List (Tick D)) (g : ControlGuard D) (stop : ℕ)
      → TestInv stop (testing g)
      → CommandsBy stop ts
      → TestInv stop (testing (run F k cfg ts g))
  unfolding run
  run-TestInv [] g stop v h = v
  run-TestInv (t ∷ ts) g stop v (h, hs) =
      run-TestInv ts (step F k cfg t g).guard stop (step-TestInv t g stop v h) hs

  -- A motor test ends by itself: after any history from a guard without a running test, in which no
  -- test is commanded later than 1000 ms before `stop`, a tick at or after `stop` that commands none
  -- has no motor test in its effective intent.
  pub motor_test_ends :
      (ts : List (Tick D)) (t : Tick D) (g : ControlGuard D) (stop : ℕ)
      → g.motor_test_active ≡ false
      → CommandsBy stop ts
      → commands_test t.intent ≡ false
      → stop ≤ t.now_ns
      → (step F k cfg t (run F k cfg ts g)).result.effective_intent.has_motor_test ≡ false
  motor_test_ends ts t g stop a h c late =
      let now = run F k cfg ts g in
      let v : TestInv stop (testing now) =
        run-TestInv ts g stop (record { runnable = inl a; ends = inl a }) h in
      elim (Bool-cases (step F k cfg t now).result.effective_intent.has_motor_test) [
        | inl e ↦ absurd (ground (arith, (motor_test_bounded t now stop v e).1))
        | inr e ↦ e
      ]
