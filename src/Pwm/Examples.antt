-- ===== src/Pwm/Examples.antt =====
-- The theorems on the PWM stack at concrete inputs.
use orange_pi_stm32_for_rov.Prelude.{
  ℕ, ◌+◌, ◌≡◌, ◌↔◌, refl, true, ◌||◌, ◌&&◌, not, none, some, List, [], ◌∷◌, get_or, ltb,
  if◌then◌else◌, u16, u64, ℤ, pos, negsuc, All, arith,
}
use orange_pi_stm32_for_rov.Gateway.Bytes.{IsByte}
use orange_pi_stm32_for_rov.Pwm.Sample.{
  fixed_ops, fixed_laws, milli, open_host, taken, refused, eight_values, safe_config, eight_pcts,
  running, flaky,
}
use orange_pi_stm32_for_rov.Pwm.Crc16.{compute, crc16_ccitt, crc16_ccitt_false}
use orange_pi_stm32_for_rov.Pwm.Crc16.Reference.{compute-crc16_ccitt}
use orange_pi_stm32_for_rov.Pwm.Frame.{
  parse_heartbeat_ack_v1, parse_status_v1, build_pwm_cmd_frame_v1, build_heartbeat_frame_v1,
}
use orange_pi_stm32_for_rov.Pwm.Frame.Exact.{IsFrame, parsers_exact}
use orange_pi_stm32_for_rov.Pwm.Pack.{protocol_pack_pwm, protocol_pack_heartbeat}
use orange_pi_stm32_for_rov.Pwm.Host.{PwmhResult, v1_pack}
use orange_pi_stm32_for_rov.Pwm.Host.Send.{clamp_values, payload_of_values, pwm_host_set_all_u16}
use orange_pi_stm32_for_rov.Pwm.Host.Poll.{Selected, select_ready, recv_bytes}
use orange_pi_stm32_for_rov.Pwm.Host.Spec.{
  HostCommand, cmd_all_u16, cmd_channel, cmd_heartbeat, numbered, last_number, spec_run, run_host,
}
use orange_pi_stm32_for_rov.Pwm.Host.Frames.{packers_agree}
use orange_pi_stm32_for_rov.Pwm.Host.Refine.{run_refines}
use orange_pi_stm32_for_rov.Pwm.Host.Failure.{failed_set_all_u16}
use orange_pi_stm32_for_rov.Pwm.Safety.Config.{mapping_of, mapping_loop, sanitize_config}
use orange_pi_stm32_for_rov.Pwm.Safety.Targets.{sanitize_pct_input}
use orange_pi_stm32_for_rov.Pwm.Safety.Step.{
  hw_value, build_hw_frame_from_motor_pct, pwm_ctrl_step, pwm_ctrl_init,
}
use orange_pi_stm32_for_rov.Pwm.Safety.Mapping.{IsMapping, mapping_of-IsMapping}
use orange_pi_stm32_for_rov.Pwm.Safety.Range.{IsRange, sanitize_exact}
use orange_pi_stm32_for_rov.Pwm.Safety.Drive.{motor_drives_channel}
use orange_pi_stm32_for_rov.Pwm.Safety.Keeps.{IsSafe}
use orange_pi_stm32_for_rov.Pwm.Safety.Run.{
  SafetyCommand, do_target, do_step, do_stop, logged, run_safety,
}
use orange_pi_stm32_for_rov.Pwm.Safety.Invariant.{FrameInRange}
use orange_pi_stm32_for_rov.Pwm.Safety.Start.{run_in_range}
use orange_pi_stm32_for_rov.Pwm.Safety.Wire.{
  SendsOne, step_output, host_transport, step_sends_frame,
}

-- An acknowledgement of heartbeat 7.
abbrev ack : List ℕ
ack = 170 ∷ 85 ∷ 1 ∷ 17 ∷ 0 ∷ 7 ∷ 0 ∷ 0 ∷ 0 ∷ 77 ∷ 0 ∷ 0 ∷ 112 ∷ 25 ∷ []

ack-IsByte : All IsByte ack
ack-IsByte = ground arith

compute-crc16_ccitt_example :
    (compute ack ≡ crc16_ccitt ack) × (compute ack ≡ crc16_ccitt_false ack)
compute-crc16_ccitt_example = compute-crc16_ccitt ack ack-IsByte

parsers_exact_example :
    ((seq ticks : ℕ)
      → (parse_heartbeat_ack_v1 ack ≡ some (seq, ticks))
        ↔ ((payload : List ℕ) × IsFrame 0x11 seq ticks payload ack))
    × ((payload : List ℕ)
        → (parse_status_v1 ack ≡ some payload)
          ↔ ((seq : ℕ) × (ticks : ℕ) × IsFrame 0x20 seq ticks payload ack))
parsers_exact_example = parsers_exact ack ack-IsByte

packers_agree_example :
    let n = u16 (65535 + 1) in
    let h' = record open_host { seq = n } in
    (v1_pack open_host 0x01 (payload_of_values (clamp_values eight_values)) 30 1234
      ≡ some (h', build_pwm_cmd_frame_v1 eight_values n 1234))
    × (v1_pack open_host 0x10 [] 30 1234 ≡ some (h', build_heartbeat_frame_v1 n 1234))
    × (protocol_pack_pwm 65535 (some eight_values) 30 1234 ≡ (
        if ltb 30 30
        then (none, 65535)
        else (some (build_pwm_cmd_frame_v1 eight_values 65535 1234), n)))
    × (protocol_pack_heartbeat 65535 30 1234
        ≡ (if ltb 30 14 then (none, 65535) else (some (build_heartbeat_frame_v1 65535 1234), n)))
packers_agree_example = packers_agree open_host eight_values 30 1234 refl

-- A frame that is refused, a channel, a channel that does not exist, a heartbeat.
abbrev commands : List (HostCommand ℤ)
commands =
    cmd_all_u16 refused (some eight_values)
    ∷ cmd_channel taken (pos 3) (milli 6_000)
    ∷ cmd_channel taken (pos 9) (milli 6_000)
    ∷ cmd_heartbeat taken 1300
    ∷ []

run_refines_example :
    ((run_host fixed_ops commands open_host).1
      ≡ numbered 65535 (spec_run fixed_ops commands open_host.shadow).1)
    × ((run_host fixed_ops commands open_host).0.shadow
        ≡ (spec_run fixed_ops commands open_host.shadow).0)
    × ((run_host fixed_ops commands open_host).0.seq
        ≡ last_number 65535 (spec_run fixed_ops commands open_host.shadow).1)
    × ((run_host fixed_ops commands open_host).0.sock_open ≡ true)
run_refines_example =
    run_refines fixed_ops commands open_host refl refl (refl, (tt, (tt, (tt, tt))))

abbrev arrived : Selected
arrived = select_ready (recv_bytes ack 1042 ∷ [])

failed_set_all_u16_example :
    let s = pwm_host_set_all_u16 refused (some eight_values) open_host in
    (s.result ≡ PwmhResult.esys)
    × (s.host.shadow ≡ clamp_values eight_values)
    × (s.host.seq ≡ u16 (65535 + 1))
    × (s.host.stats.tx_pwm ≡ 0)
    × (s.host.stats.tx_err ≡ u64 (u64 (0 + 1) + 1))
failed_set_all_u16_example = failed_set_all_u16 refused open_host eight_values refl refl refl

safe_config-IsRange : IsRange fixed_ops fixed_laws safe_config
safe_config-IsRange = record { positive = refl; low = refl; high = refl; max_finite = refl }

sanitize_exact_example : (sanitize_pct_input fixed_ops safe_config (milli 100_000)).0 ≡ (
    if true
      && not (
          fixed_ops.lt (milli 100_000) (milli 5_000) || fixed_ops.lt (milli 10_000) (milli 100_000))
    then milli 100_000
    else milli 7_500)
sanitize_exact_example =
    sanitize_exact fixed_ops fixed_laws safe_config safe_config-IsRange (milli 100_000)

-- Channel 2 is given twice.
abbrev doubled : List ℤ
doubled = pos 2 ∷ pos 2 ∷ pos 3 ∷ pos 4 ∷ pos 5 ∷ pos 6 ∷ pos 7 ∷ negsuc 0 ∷ []

mapping_of-IsMapping_example : IsMapping (mapping_of doubled)
mapping_of-IsMapping_example = mapping_of-IsMapping doubled refl

running-IsMapping : IsMapping running.motor_to_pwm
unfolding mapping_of mapping_loop
running-IsMapping = mapping_of-IsMapping safe_config.motorch_to_pwmch refl

motor_drives_channel_example :
    get_or (build_hw_frame_from_motor_pct fixed_ops running eight_pcts) 0 (milli 0)
    ≡ hw_value fixed_ops safe_config true (milli 9_000)
motor_drives_channel_example =
    motor_drives_channel fixed_ops running eight_pcts 1 0 (milli 0) running-IsMapping refl refl
      (omega arith) refl (omega arith)

abbrev orders : List (SafetyCommand ℤ)
orders =
    do_target 0 (pos 3) (milli 9_000)
    ∷ do_target 0 (pos 4) (milli 100_000)
    ∷ do_step 1
    ∷ do_step 2
    ∷ do_stop (λ k. k) (milli 0)
    ∷ []

run_in_range_example :
    let cfg = sanitize_config fixed_ops safe_config in
    let (rc, c1, h1) =
      pwm_ctrl_init fixed_ops (logged flaky) (some safe_config) running (true, []) in
    let (c2, h2) = run_safety fixed_ops (logged flaky) orders c1 h1 in
    IsSafe fixed_ops fixed_laws cfg.min_pct cfg.max_pct c2
    × All (FrameInRange fixed_ops fixed_laws cfg.min_pct cfg.max_pct) h2.1
run_in_range_example =
    run_in_range fixed_ops fixed_laws flaky (some safe_config) running true orders
      (refl, refl, refl)

step_sends_frame_example :
    let (rc, c', h') =
      pwm_ctrl_step fixed_ops
        (host_transport fixed_ops (λ k. taken) (λ k. arrived))
        5
        running
        (open_host, []) in
    SendsOne fixed_ops taken (step_output fixed_ops running) (open_host, []) h'
step_sends_frame_example =
    step_sends_frame fixed_ops (λ k. taken) (λ k. arrived) 5 running open_host [] refl refl refl
