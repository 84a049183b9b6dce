-- ===== src/Pwm/Client/Setup.antt =====
-- pwm_client.cpp: init and shutdown.
use orange_pi_stm32_for_rov.Prelude.{
  ℕ, zero, suc, Bool, true, false, Option, none, some, String, List, [], ◌∷◌, leb, ◌==◌,
  if◌then◌else◌, ℤ, pos, negsuc, repeat,
}
use orange_pi_stm32_for_rov.Pwm.Float.{SingleOps}
use orange_pi_stm32_for_rov.Pwm.Host.{PwmhResult, PwmHost}
use orange_pi_stm32_for_rov.Pwm.Host.Life.{
  PwmHostConfig, pwm_host_default_config, pwm_host_init, pwm_host_close,
}
use orange_pi_stm32_for_rov.Pwm.Safety.{CtrlResult, PwmCtrl, PwmCtrlConfig}
use orange_pi_stm32_for_rov.Pwm.Safety.Step.{pwm_ctrl_init, pwm_ctrl_deinit}
use orange_pi_stm32_for_rov.Pwm.Safety.Blocking.{pwm_ctrl_emergency_stop}
use orange_pi_stm32_for_rov.Pwm.Safety.Wire.{HostLog, host_transport}
use orange_pi_stm32_for_rov.Pwm.Client.{
  PwmClientConfig, PwmClient, CallEnv, ctrl_error, host_error, set_error, clear_error,
}

-- A configured channel outside 0 to 8 becomes 0.
abbrev pub sanitized_channel : ℤ → ℤ
sanitized_channel (pos n) = if leb n 8 then pos n else pos 0
sanitized_channel (negsuc n) = pos 0

abbrev pub sanitized_mapping : List ℤ → List ℤ
sanitized_mapping [] = []
sanitized_mapping (m ∷ ms) = sanitized_channel m ∷ sanitized_mapping ms

abbrev pub given_or {ℓ} : {A : Type ℓ} → Option A → Option A → Option A
given_or none d = d
given_or (some a) d = some a

abbrev pub is_positive : ℤ → Bool
is_positive (pos zero) = false
is_positive (pos (suc n)) = true
is_positive (negsuc n) = false

abbrev pub is_nonzero : ℤ → Bool
is_nonzero (pos zero) = false
is_nonzero _ = true

abbrev pub close_host : HostLog → HostLog
close_host (h, ds) = (pwm_host_close h, ds)

module _ {F : Type 0} where
  unfoldable pub host_config : PwmClientConfig F → PwmHostConfig
  host_config cfg =
      let d = pwm_host_default_config in
      record {
        stm32_ip = given_or cfg.stm32_ip d.stm32_ip;
        stm32_port = if cfg.stm32_port == 0 then d.stm32_port else cfg.stm32_port;
        send_hz = if is_positive cfg.send_hz then cfg.send_hz else d.send_hz;
        socket_sndbuf = if is_nonzero cfg.socket_sndbuf then cfg.socket_sndbuf else d.socket_sndbuf;
        nonblock_send = cfg.nonblock_send;
      }

  unfoldable pub ctrl_config : PwmClientConfig F → PwmCtrlConfig F
  ctrl_config cfg = record {
    ctrl_hz = cfg.ctrl_hz;
    max_step_pct = cfg.max_step_pct;
    min_pct = cfg.min_pct;
    mid_pct = cfg.mid_pct;
    max_pct = cfg.max_pct;
    enable_reverse_protection = cfg.enable_reverse_protection;
    group_a_mask = cfg.group_a_mask;
    group_b_mask = cfg.group_b_mask;
    group_mode = cfg.group_mode;
    motorch_to_pwmch = sanitized_mapping cfg.motorch_to_pwmch;
    motor_reverse = cfg.motor_reverse;
  }

  abbrev pub forget_heartbeats : PwmClient F → PwmClient F
  forget_heartbeats c = record c {
    last_heartbeat_tx_ns = 0;
    last_heartbeat_ack_ns = 0;
    last_rx_hb_ack = 0;
  }

  module _ (O : SingleOps F) (env : CallEnv) where
    -- The stop of a second, and everything closed.
    abbrev pub shutdown_stm32 : PwmClient F → PwmClient F
    shutdown_stm32 c =
        let T = host_transport O env.frame_env env.stop_selected in
        let (rc, ctrl, host) = pwm_ctrl_emergency_stop O T env.clock (O.lit 1 1) c.ctrl c.host in
        forget_heartbeats (
          clear_error
            (record c { ctrl = pwm_ctrl_deinit O ctrl; host = close_host host; inited = false }))

    unfoldable pub shutdown : PwmClient F → PwmClient F
    shutdown c =
        if c.inited
        then (if c.dummy
            then clear_error (record c { inited = false; dummy = false })
            else shutdown_stm32 c)
        else c

    abbrev pub init_dummy : PwmClient F → Bool × PwmClient F
    init_dummy c = (
      true,
      record c {
        dummy = true;
        inited = true;
        target_pct = repeat 8 c.cfg.mid_pct;
        current_pct = repeat 8 c.cfg.mid_pct;
      },
    )

    -- After pwm_ctrl_init.
    abbrev pub after_ctrl_init : PwmClient F → CtrlResult × PwmCtrl F × HostLog → Bool × PwmClient F
    after_ctrl_init c (CtrlResult.ctrl_ok, ctrl, host) =
        (true, clear_error (record c { ctrl = ctrl; host = host; inited = true }))
    after_ctrl_init c (rc, ctrl, host) = (
      false,
      set_error (ctrl_error rc) (record c { ctrl = ctrl; host = close_host host; inited = false }),
    )

    -- After pwm_host_init.
    abbrev pub after_host_init :
        PwmClient F → List (List ℕ) → PwmhResult × PwmHost → Bool × PwmClient F
    after_host_init c ds (PwmhResult.ok, h) =
        let T = host_transport O env.frame_env env.stop_selected in
        after_ctrl_init c (pwm_ctrl_init O T (some (ctrl_config c.cfg)) c.ctrl (h, ds))
    after_host_init c ds (rc, h) =
        (false, set_error (host_error rc) (record c { host = close_host (h, ds); inited = false }))

    unfoldable pub init :
        (inet_pton : String → Bool) (socket_ok : Bool)
        → PwmClientConfig F
        → PwmClient F
        → Bool × PwmClient F
    init inet_pton socket_ok cfg c =
        let c = if c.inited then shutdown c else c in
        let c = forget_heartbeats (clear_error (record c { cfg = cfg })) in
        if cfg.dummy_backend
        then init_dummy c
        else let (h, ds) = c.host in
          after_host_init (record c { dummy = false }) ds
            (pwm_host_init inet_pton socket_ok (some (host_config cfg)) h)
