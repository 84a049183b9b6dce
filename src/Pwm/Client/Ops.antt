-- ===== src/Pwm/Client/Ops.antt =====
-- pwm_client.cpp: targets, the step, the emergency stop and what is reported.
use orange_pi_stm32_for_rov.Prelude.{
  ℕ, ◌+◌, ◌-◌, ◌/◌, ◌^◌, Bool, true, not, ◌||◌, Option, none, some, List, [], ◌∷◌, ◌++◌, ltb, leb,
  ◌==◌, if◌then◌else◌, ℤ, repeat, set_at, u64,
}
use orange_pi_stm32_for_rov.Pwm.Float.{SingleOps}
use orange_pi_stm32_for_rov.Pwm.Host.{PwmhResult}
use orange_pi_stm32_for_rov.Pwm.Host.Send.{channel_index, pwm_host_send_heartbeat}
use orange_pi_stm32_for_rov.Pwm.Host.Poll.{Polled, handled, failed, pwm_host_poll}
use orange_pi_stm32_for_rov.Pwm.Safety.{CtrlResult, PwmCtrl, mask_all, nought}
use orange_pi_stm32_for_rov.Pwm.Safety.Targets.{
  pwm_ctrl_set_target_pct, pwm_ctrl_set_targets_mask, pwm_ctrl_set_all_target_mid,
}
use orange_pi_stm32_for_rov.Pwm.Safety.Step.{pwm_ctrl_step, pwm_ctrl_set_motor_reverse}
use orange_pi_stm32_for_rov.Pwm.Safety.Blocking.{pwm_ctrl_emergency_stop}
use orange_pi_stm32_for_rov.Pwm.Safety.Wire.{HostLog, host_transport}
use orange_pi_stm32_for_rov.Pwm.Client.{
  PwmClientConfig, PwmClient, CallEnv, ctrl_error, host_error, set_error, clear_error, report,
  if_inited, heartbeat_period_ns,
}

pub record PwmTransportStats : Type 0 where
  pub tx_pwm : ℕ
  pub tx_hb : ℕ
  pub rx_hb_ack : ℕ
  pub last_rtt_ms : Option ℕ
  pub heartbeat_seen : Bool
  pub heartbeat_age_ms : ℕ

module _ {F : Type 0} (O : SingleOps F) where
  open O use {lt, lit, add, sub, mul, neg}

  abbrev pub all_mid_dummy : PwmClient F → CtrlResult × PwmClient F
  all_mid_dummy c =
      (CtrlResult.ctrl_ok, clear_error (record c { target_pct = repeat 8 c.cfg.mid_pct }))

  -- The result and state of an operation of the safety layer, taken over and reported.
  abbrev pub adopt : PwmClient F → CtrlResult × PwmCtrl F → CtrlResult × PwmClient F
  adopt c (rc, ctrl) = report rc (record c { ctrl = ctrl })

  abbrev pub adopt_sent : PwmClient F → CtrlResult × PwmCtrl F × HostLog → CtrlResult × PwmClient F
  adopt_sent c (rc, ctrl, host) = report rc (record c { ctrl = ctrl; host = host })

  unfoldable pub set_all_mid : PwmClient F → CtrlResult × PwmClient F
  set_all_mid c =
      if_inited c
        (if c.dummy then all_mid_dummy c else adopt c (pwm_ctrl_set_all_target_mid O c.ctrl))

  -- std::max(lo, std::min(v, hi))
  abbrev pub clampf : F → F → F → F
  clampf v lo hi = let v = if lt hi v then hi else v in if lt lo v then v else lo

  -- The test of the channel, then the backend's operation.
  abbrev pub on_channel :
      PwmClient F → Option ℕ → (ℕ → CtrlResult × PwmClient F) → CtrlResult × PwmClient F
  on_channel c none f =
      (CtrlResult.err_invalid_arg, set_error (ctrl_error CtrlResult.err_invalid_arg) c)
  on_channel c (some i) f = f i

  unfoldable pub set_target : CallEnv → ℤ → F → PwmClient F → CtrlResult × PwmClient F
  set_target env ch pct c = if_inited c (
      on_channel c (channel_index ch) (λ i.
        if c.dummy
        then (
          CtrlResult.ctrl_ok,
          clear_error (record c {
            target_pct = set_at i (clampf pct c.cfg.min_pct c.cfg.max_pct) c.target_pct;
          }),
        )
        else adopt c (pwm_ctrl_set_target_pct O env.now_ns ch pct c.ctrl)))

  -- (v < lo) ? lo : (v > hi ? hi : v)
  abbrev pub clampf_local : F → F → F → F
  clampf_local v lo hi = if lt v lo then lo else if lt hi v then hi else v

  unfoldable pub norm_to_duty : F → F
  norm_to_duty u =
      let u = clampf_local u (neg (lit 1 1)) (lit 1 1) in
      clampf_local (add (lit 75 10) (mul (lit 25 10) u)) (lit 5 1) (lit 10 1)

  abbrev pub duties : List F → List F
  duties [] = []
  duties (u ∷ us) = norm_to_duty u ∷ duties us

  unfoldable pub set_targets : CallEnv → List F → PwmClient F → CtrlResult × PwmClient F
  set_targets env cmd_norm c =
      let c' = record c { target_pct = duties cmd_norm } in
      if_inited c (
        if c.dummy
        then (CtrlResult.ctrl_ok, clear_error c')
        else adopt c'
            (pwm_ctrl_set_targets_mask O env.clock mask_all (some (duties cmd_norm)) c.ctrl))

  -- One channel of the dummy backend.
  abbrev pub dummy_next : PwmClientConfig F → F → F → F
  dummy_next cfg t c =
      let max_d = if lt (nought O) cfg.max_step_pct then cfg.max_step_pct else lit 2 10 in
      let d = sub t c in
      let d = if lt max_d d then max_d else d in
      let d = if lt d (neg max_d) then neg max_d else d in clampf (add c d) cfg.min_pct cfg.max_pct

  abbrev pub dummy_all : PwmClientConfig F → List F → List F → List F
  dummy_all cfg [] cs = cs
  dummy_all cfg (t ∷ ts) [] = []
  dummy_all cfg (t ∷ ts) (c ∷ cs) = dummy_next cfg t c ∷ dummy_all cfg ts cs

  abbrev pub note_heartbeat : CallEnv → PwmhResult → PwmClient F → PwmClient F
  note_heartbeat env PwmhResult.ok c = record c { last_heartbeat_tx_ns = env.now_ns }
  note_heartbeat env rc c = set_error (host_error rc) c

  -- A heartbeat, when none was sent for half a second.
  unfoldable pub heartbeat_if_due : CallEnv → PwmClient F → PwmClient F
  heartbeat_if_due env c =
      let (h, ds) = c.host in
      let age = u64 (env.now_ns + 2 ^ 64 - c.last_heartbeat_tx_ns) in
      if c.last_heartbeat_tx_ns == 0 || leb heartbeat_period_ns age
      then (let s = pwm_host_send_heartbeat env.heartbeat_env env.heartbeat_ms h in
          note_heartbeat env s.result (record c { host = (s.host, ds ++ s.datagrams) }))
      else c

  abbrev pub note_poll : Polled → PwmClient F → PwmClient F
  note_poll (handled n) c = c
  note_poll (failed rc) c = set_error (host_error rc) c

  -- Polling, and whether an acknowledgement came.
  unfoldable pub poll_host : CallEnv → PwmClient F → PwmClient F
  poll_host env c =
      let (h, ds) = c.host in
      let (polled, h') = pwm_host_poll env.selected h in
      let c = note_poll polled (record c { host = (h', ds) }) in
      if ltb c.last_rx_hb_ack h'.stats.rx_hb_ack
      then record c { last_rx_hb_ack = h'.stats.rx_hb_ack; last_heartbeat_ack_ns = env.now_ns }
      else c

  abbrev pub step_stm32 : CallEnv → PwmClient F → CtrlResult × PwmClient F
  step_stm32 env c =
      let c = poll_host env (heartbeat_if_due env c) in
      adopt_sent c (
        pwm_ctrl_step O (host_transport O env.frame_env env.stop_selected) env.now_ns c.ctrl c.host)

  unfoldable pub step : CallEnv → PwmClient F → CtrlResult × PwmClient F
  step env c = if_inited c (
      if c.dummy
      then (
        CtrlResult.ctrl_ok,
        clear_error (record c { current_pct = dummy_all c.cfg c.target_pct c.current_pct }),
      )
      else step_stm32 env c)

  unfoldable pub emergency_stop : CallEnv → (seconds : F) → PwmClient F → CtrlResult × PwmClient F
  emergency_stop env seconds c = if_inited c (
      if c.dummy
      then all_mid_dummy c
      else adopt_sent c (
          pwm_ctrl_emergency_stop O (host_transport O env.frame_env env.stop_selected) env.clock
            seconds c.ctrl c.host))

  unfoldable pub set_motor_reverse : ℤ → Bool → PwmClient F → CtrlResult × PwmClient F
  set_motor_reverse motor_id enable c = if_inited c (
      on_channel c (channel_index motor_id) (λ i.
        if c.dummy
        then (
          CtrlResult.ctrl_ok,
          clear_error (record c {
            cfg = record c.cfg { motor_reverse = set_at i enable c.cfg.motor_reverse };
          }),
        )
        else adopt c (pwm_ctrl_set_motor_reverse O motor_id enable c.ctrl)))

  -- none stands for false.
  unfoldable pub get_last_applied : PwmClient F → Option (List F)
  get_last_applied c =
      if c.inited then some (if c.dummy then c.current_pct else c.ctrl.current_pct) else none

  unfoldable pub get_transport_stats : (now_ns : ℕ) → PwmClient F → Option PwmTransportStats
  get_transport_stats now_ns c =
      if c.inited
      then (if c.dummy
          then some (record {
            tx_pwm = 0;
            tx_hb = 0;
            rx_hb_ack = 0;
            last_rtt_ms = some 0;
            heartbeat_seen = true;
            heartbeat_age_ms = 0;
          })
          else some (record {
            tx_pwm = c.host.0.stats.tx_pwm;
            tx_hb = c.host.0.stats.tx_hb;
            rx_hb_ack = c.host.0.stats.rx_hb_ack;
            last_rtt_ms = c.host.0.last_rtt_ms;
            heartbeat_seen = not (c.last_heartbeat_ack_ns == 0);
            heartbeat_age_ms =
                if c.last_heartbeat_ack_ns == 0 || ltb now_ns c.last_heartbeat_ack_ns
                then 0
                else (now_ns - c.last_heartbeat_ack_ns) / 1_000_000;
          }))
      else none
