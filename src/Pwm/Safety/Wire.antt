-- ===== src/Pwm/Safety/Wire.antt =====
-- The safety layer over libpwm_host.c: what a step puts on the wire.
use mathlib.Core.Path.{subst}
use orange_pi_stm32_for_rov.Prelude.{
  ℕ, ◌+◌, ◌≡◌, sym, ap, true, some, List, [], ◌∷◌, ◌++◌, length, if_true, u16,
}
use orange_pi_stm32_for_rov.Pwm.Float.{SingleOps}
use orange_pi_stm32_for_rov.Pwm.Frame.{build_pwm_cmd_frame_v1}
use orange_pi_stm32_for_rov.Pwm.Host.{PwmhResult, ok, PwmHost, SendEnv}
use orange_pi_stm32_for_rov.Pwm.Host.Send.{clamp_values, percent_values, pwm_host_set_all_pct}
use orange_pi_stm32_for_rov.Pwm.Host.Poll.{Selected, pwm_host_poll}
use orange_pi_stm32_for_rov.Pwm.Host.Spec.{cmd_all_pct, numbered, last_number, spec_step, execute}
use orange_pi_stm32_for_rov.Pwm.Host.Refine.{execute-Follows}
use orange_pi_stm32_for_rov.Pwm.Safety.{
  CtrlResult, err_not_init, PwmCtrl, Transport, active_mask_for_this_step,
}
use orange_pi_stm32_for_rov.Pwm.Safety.Step.{
  next_pct, check_hi_load_risk_and_warn, after_step, moving_step, pwm_ctrl_step,
  build_hw_frame_from_motor_pct,
}
use orange_pi_stm32_for_rov.Pwm.Safety.Drive.{hw_loop-length}

-- The state of the host library, and the datagrams that it has given to the socket.
abbrev pub HostLog : Type 0
HostLog = PwmHost × List (List ℕ)

module _ {F : Type 0} (O : SingleOps F) where
  -- libpwm_host.c as the safety layer uses it. What the system returns is given by the number of
  -- datagrams before: `env k` for the frame, `selected k` for polling.
  abbrev pub host_transport : (ℕ → SendEnv) → (ℕ → Selected) → Transport F HostLog
  host_transport env selected = record {
    set_all_pct = λ ps (h, ds).
        let s = pwm_host_set_all_pct O (env (length ds)) (some ps) h in
        (s.result, (s.host, ds ++ s.datagrams));
    poll = λ (h, ds). ((pwm_host_poll (selected (length ds)) h).1, ds);
  }

  -- The percentages of the channels that a step of `c` asks for.
  abbrev pub step_output : PwmCtrl F → List F
  step_output c =
      let (mask, toggle) = active_mask_for_this_step c.cfg c.group_toggle in
      build_hw_frame_from_motor_pct O c (next_pct O c.cfg mask 0 c.current_pct c.target_pct)

  -- One frame behind those before, with the channels' values under the next number.
  abbrev pub SendsOne : SendEnv → List F → HostLog → HostLog → Type 0
  SendsOne env ps (h, ds) (h', ds') =
      let values = clamp_values (percent_values O ps) in
      (ds' ≡ ds ++ build_pwm_cmd_frame_v1 values (u16 (h.seq + 1)) env.ticks ∷ [])
      × (h'.shadow ≡ values)
      × (h'.seq ≡ u16 (h.seq + 1))
      × (h'.sock_open ≡ true)

  set_all_pct-SendsOne :
      (env : ℕ → SendEnv) (selected : ℕ → Selected) (ps : List F) (h : PwmHost) (ds : List (List ℕ))
      → h.sock_open ≡ true
      → length h.shadow ≡ 8
      → length ps ≡ 8
      → let T = host_transport env selected in
        SendsOne (env (length ds)) ps (h, ds) (T.set_all_pct ps (h, ds)).1
  unfolding execute spec_step numbered last_number
  set_all_pct-SendsOne env selected ps h ds o l n =
      let f = execute-Follows O (cmd_all_pct (env (length ds)) (some ps)) h o l n in
      (ap (λ t. ds ++ t) f.frames, f.latest, f.number, f.stays_open)

  after_step-SendsOne :
      (T : Transport F HostLog) (env : SendEnv) (ps next : List F) (c : PwmCtrl F) (h h' : HostLog)
      (rc : PwmhResult)
      → SendsOne env ps h h'
      → SendsOne env ps h (after_step O T next c (rc, h')).2
  after_step-SendsOne T env ps next c h h' ok s = s
  after_step-SendsOne T env ps next c h h' _ s = s

  -- A step of an initialised safety layer over an open host library gives the socket exactly one
  -- datagram, whatever the socket returns: the PWM frame, as the C++ builder makes it, of the next
  -- sequence number whose eight values are those of the channels' percentages, motors mapped,
  -- reversed and kept in the range.
  pub step_sends_frame :
      (env : ℕ → SendEnv) (selected : ℕ → Selected) (now : ℕ) (c : PwmCtrl F) (h : PwmHost)
      (ds : List (List ℕ))
      → c.inited ≡ true
      → h.sock_open ≡ true
      → length h.shadow ≡ 8
      → let (rc, c', h') = pwm_ctrl_step O (host_transport env selected) now c (h, ds) in
        SendsOne (env (length ds)) (step_output c) (h, ds) h'
  unfolding pwm_ctrl_step moving_step check_hi_load_risk_and_warn build_hw_frame_from_motor_pct
  step_sends_frame env selected now c h ds i o l =
      let T = host_transport env selected in
      let (mask, toggle) = active_mask_for_this_step c.cfg c.group_toggle in
      let next = next_pct O c.cfg mask 0 c.current_pct c.target_pct in
      let c1 = check_hi_load_risk_and_warn O now next (record c { group_toggle = toggle }) in
      let ps = build_hw_frame_from_motor_pct O c1 next in
      let (rc, h') = T.set_all_pct ps (h, ds) in
      let size = hw_loop-length O c.cfg c.motor_to_pwm c.motor_reverse next _ in
      subst (λ (r : CtrlResult × PwmCtrl F × HostLog). SendsOne (env (length ds)) ps (h, ds) r.2)
        (sym (if_true c.inited (moving_step O T now c (h, ds)) (err_not_init, c, (h, ds)) i))
        (after_step-SendsOne T (env (length ds)) ps next c1 (h, ds) h' rc
          (set_all_pct-SendsOne env selected ps h ds o l size))
