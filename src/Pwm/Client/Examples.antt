-- ===== src/Pwm/Client/Examples.antt =====
-- The theorem on the client at a client of the STM32 whose heartbeat the socket refuses.
use orange_pi_stm32_for_rov.Prelude.{true, false, none, List, [], ◌∷◌, ℤ, pos, repeat}
use orange_pi_stm32_for_rov.Pwm.Sample.{
  fixed_ops, milli, open_host, taken, refused, safe_config, running,
}
use orange_pi_stm32_for_rov.Pwm.Host.Poll.{select_ready, recv_again, select_timeout}
use orange_pi_stm32_for_rov.Pwm.Safety.{ab_alternate}
use orange_pi_stm32_for_rov.Pwm.Client.{PwmClientConfig, PwmClient, CallEnv, no_error}
use orange_pi_stm32_for_rov.Pwm.Client.Ops.{
  set_all_mid, set_target, set_targets, step, emergency_stop, set_motor_reverse,
}
use orange_pi_stm32_for_rov.Pwm.Client.Status.{IsTold, status_tells_result}

abbrev client_config : PwmClientConfig ℤ
client_config = record {
  dummy_backend = false;
  stm32_ip = none;
  stm32_port = 8000;
  send_hz = pos 50;
  socket_sndbuf = pos 0;
  nonblock_send = true;
  ctrl_hz = milli 50_000;
  max_step_pct = milli 200;
  min_pct = milli 5_000;
  mid_pct = milli 7_500;
  max_pct = milli 10_000;
  enable_reverse_protection = true;
  group_a_mask = 0x0F;
  group_b_mask = 0xF0;
  group_mode = ab_alternate;
  motorch_to_pwmch = safe_config.motorch_to_pwmch;
  motor_reverse = safe_config.motor_reverse;
}

abbrev client : PwmClient ℤ
client = record {
  inited = true;
  dummy = false;
  cfg = client_config;
  ok_status = true;
  last_error = no_error;
  target_pct = repeat 8 (milli 7_500);
  current_pct = repeat 8 (milli 7_500);
  last_heartbeat_tx_ns = 0;
  last_heartbeat_ack_ns = 0;
  last_rx_hb_ack = 0;
  ctrl = running;
  host = (open_host, []);
}

abbrev call_env : CallEnv
call_env = record {
  heartbeat_env = refused;
  heartbeat_ms = 1000;
  selected = select_ready (recv_again ∷ []);
  frame_env = λ k. taken;
  stop_selected = λ k. select_timeout;
  now_ns = 1_000_000_000;
  clock = λ k. k;
}

-- Half forward on every thruster.
abbrev half_forward : List ℤ
half_forward = repeat 8 (pos 500_000)

status_tells_result_example :
    IsTold (set_all_mid fixed_ops client)
    × IsTold (set_target fixed_ops call_env (pos 9) (milli 9_000) client)
    × IsTold (set_targets fixed_ops call_env half_forward client)
    × IsTold (step fixed_ops call_env client)
    × IsTold (emergency_stop fixed_ops call_env (milli 1_000) client)
    × IsTold (set_motor_reverse fixed_ops (pos 9) true client)
status_tells_result_example =
    status_tells_result fixed_ops call_env (pos 9) true (milli 9_000) (milli 1_000) half_forward
      client
