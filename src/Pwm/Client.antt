-- ===== src/Pwm/Client.antt =====
-- pwm_control_program/src/platform/pwm_client.cpp: the client of the PWM stack, with its dummy
-- backend. Texts of errors and printing are left out.
pub mod Setup
pub mod Ops
pub mod Status
mod Examples
use orange_pi_stm32_for_rov.Prelude.{
  ℕ, ◌+◌, ◌*◌, Bool, true, false, Option, none, some, String, List, [], ◌∷◌, ltb, if◌then◌else◌, ℤ,
}
use orange_pi_stm32_for_rov.Pwm.Float.{SingleOps}
use orange_pi_stm32_for_rov.Pwm.Host.{PwmhResult, PwmHost, SendEnv}
use orange_pi_stm32_for_rov.Pwm.Host.Poll.{Selected}
use orange_pi_stm32_for_rov.Pwm.Safety.{GroupMode, CtrlResult, PwmCtrl}
use orange_pi_stm32_for_rov.Pwm.Safety.Wire.{HostLog}

pub record PwmClientConfig (F : Type 0) : Type 0 where
  pub dummy_backend : Bool
  pub stm32_ip : Option String  -- none for an empty text
  pub stm32_port : ℕ
  pub send_hz : ℤ
  pub socket_sndbuf : ℤ
  pub nonblock_send : Bool
  pub ctrl_hz : F
  pub max_step_pct : F
  pub min_pct : F
  pub mid_pct : F
  pub max_pct : F
  pub enable_reverse_protection : Bool
  pub group_a_mask : ℕ
  pub group_b_mask : ℕ
  pub group_mode : GroupMode
  pub motorch_to_pwmch : List ℤ
  pub motor_reverse : List Bool

-- last_error of the status: 0, or a code of one of the two libraries.
pub data ClientError : Type 0 where
  no_error : ClientError
  ctrl_error : CtrlResult → ClientError
  host_error : PwmhResult → ClientError

-- The members, and the static state of the two C libraries below: the safety layer's and the host
-- library's, with the datagrams sent.
pub record PwmClient (F : Type 0) : Type 0 where
  pub inited : Bool
  pub dummy : Bool
  pub cfg : PwmClientConfig F
  pub ok_status : Bool  -- status_.ok
  pub last_error : ClientError
  pub target_pct : List F
  pub current_pct : List F
  pub last_heartbeat_tx_ns : ℕ
  pub last_heartbeat_ack_ns : ℕ
  pub last_rx_hb_ack : ℕ
  pub ctrl : PwmCtrl F
  pub host : HostLog

-- What the system returns during one call: for the heartbeat, for polling, for PWM frames and for
-- polling between them (by the number of datagrams before); the steady clock in ns; the clock of the
-- warnings.
pub record CallEnv : Type 0 where
  pub heartbeat_env : SendEnv
  pub heartbeat_ms : ℕ
  pub selected : Selected
  pub frame_env : ℕ → SendEnv
  pub stop_selected : ℕ → Selected
  pub now_ns : ℕ
  pub clock : ℕ → ℕ

abbrev pub heartbeat_period_ns : ℕ
heartbeat_period_ns = 500_000_000

module _ {F : Type 0} where
  abbrev pub set_error : ClientError → PwmClient F → PwmClient F
  set_error err c = record c { ok_status = false; last_error = err }

  abbrev pub clear_error : PwmClient F → PwmClient F
  clear_error c = record c { ok_status = true; last_error = no_error }

  -- The result of the safety layer, with the status that it leaves.
  abbrev pub report : CtrlResult → PwmClient F → CtrlResult × PwmClient F
  report CtrlResult.ctrl_ok c = (CtrlResult.ctrl_ok, clear_error c)
  report rc c = (rc, set_error (ctrl_error rc) c)

  -- Every operation begins with this test.
  abbrev pub if_inited : PwmClient F → CtrlResult × PwmClient F → CtrlResult × PwmClient F
  if_inited c r =
      if c.inited
      then r
      else (CtrlResult.err_not_init, set_error (ctrl_error CtrlResult.err_not_init) c)
