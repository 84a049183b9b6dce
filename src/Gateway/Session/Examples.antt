-- ===== src/Gateway/Session/Examples.antt =====
-- A session on concrete packets: a handshake, commands and status.
use orange_pi_stm32_for_rov.Prelude.{
  ℕ, ◌+◌, ◌/◌, ◌%◌, ◌<◌, ◌≤◌, true, false, ◌≡◌, ◌≢◌, ◌⊎◌, refl, none, some, List, [], ◌∷◌, arith,
}
use orange_pi_stm32_for_rov.Gateway.Bytes.{take_le}
use orange_pi_stm32_for_rov.Gateway.Protocol.{
  PacketHeader, connect_confirm, status, msg_type_of, msg_type_value, header_basic_valid,
  msg_type_known,
}
use orange_pi_stm32_for_rov.Gateway.Codec.{
  payload_size_is, parsed, parse_and_validate, make_header, build_packet, stamp_crc,
}
use orange_pi_stm32_for_rov.Gateway.Codec.RoundTrip.{parse_and_validate-build_packet}
use orange_pi_stm32_for_rov.Gateway.Session.Types.{
  on_session_lost, blank, timed_out, maybe_timeout_reset, session_id_valid, send_ack,
  make_ack_if_req, reply,
}
use orange_pi_stm32_for_rov.Gateway.Session.Handle.{
  on_connect_confirm, guard_command, dispatch, refuses_session, is_command, handle_type,
}
use orange_pi_stm32_for_rov.Gateway.Session.Receive.{
  note_peer, build_status_now, on_packet, emit_if_due, tick_status,
}
use orange_pi_stm32_for_rov.Gateway.Session.Commands.{delivers, command_delivery}
use orange_pi_stm32_for_rov.Gateway.Session.Order.{Input}
use orange_pi_stm32_for_rov.Gateway.Session.Handshake.{
  on_packet-handle_type, established_by_confirm,
}
use orange_pi_stm32_for_rov.Gateway.Session.Timeout.{
  IsExpired, expiry_exact, any_datagram_keeps_alive,
}
use orange_pi_stm32_for_rov.Gateway.Session.Telemetry.{status_spaced}
use orange_pi_stm32_for_rov.Gateway.Session.Answers.{is_connect}
use orange_pi_stm32_for_rov.Gateway.Session.Sample.{
  config, ground_station, drawn, bytes, confirm, dof_header, dof, up, confirm_parses, dof_parses,
}

dof-delivers : delivers (on_packet config none drawn 1_000_000_001 ground_station (dof 5) up) ≡ true
unfolding note_peer maybe_timeout_reset timed_out handle_type refuses_session session_id_valid
    dispatch guard_command reply make_ack_if_req send_ack payload_size_is make_header stamp_crc
    msg_type_of
dof-delivers =
    rw
      (on_packet-handle_type config none drawn 1_000_000_001 ground_station (dof 5) up dof_parses
        refl)
      refl

command_delivery_example :
    (h : PacketHeader) × (payload : List ℕ) × ((parse_and_validate (dof 5) ≡ parsed h payload)
      × (is_command (msg_type_of h.msg_type) ≡ true)
      × ((true ≡ false) ⊎ ((true ≡ true) × (timed_out config 1_000_000_001 up ≡ false)))
      × ((true ≡ false)
          ⊎ (session_id_valid (maybe_timeout_reset config 1_000_000_001 up).0 h.session_id ≡ true))
      × ((maybe_timeout_reset config 1_000_000_001 up).0.last_cmd_seq < h.seq)
      × ((on_packet config none drawn 1_000_000_001 ground_station (dof 5) up).session.last_cmd_seq
          ≡ h.seq))
command_delivery_example =
    command_delivery config none drawn 1_000_000_001 ground_station (dof 5) up dof-delivers

confirm_establishes :
    (on_packet config none drawn 1_000_000_001 ground_station confirm
      (record up { established = false })).session.established
    ≡ true
unfolding note_peer maybe_timeout_reset timed_out handle_type refuses_session session_id_valid
    dispatch on_connect_confirm reply make_ack_if_req send_ack payload_size_is take_le make_header
    stamp_crc msg_type_of
confirm_establishes =
    rw
      (on_packet-handle_type config none drawn 1_000_000_001 ground_station confirm
        (record up { established = false }) confirm_parses refl)
      refl

established_by_confirm_example :
    let s = record up { established = false } in
    let before = (maybe_timeout_reset config 1_000_000_001 s).0 in
    ((s.established ≡ true) × (timed_out config 1_000_000_001 s ≡ false))
    ⊎ ((h : PacketHeader) × (payload : List ℕ) × ((parse_and_validate confirm ≡ parsed h payload)
          × (msg_type_of h.msg_type ≡ some connect_confirm)
          × (before.session_id ≢ 0)
          × (h.session_id ≡ before.session_id)
          × (payload_size_is payload 8 ≡ true)
          × ((take_le 8 payload).0 ≡ before.rov_nonce)))
established_by_confirm_example =
    established_by_confirm config none drawn 1_000_000_001 ground_station confirm
      (record up { established = false }) confirm_establishes

abbrev inputs : List Input
inputs =
    record { now_ns = 1; from = ground_station; raw = dof 5; nonces = drawn }
    ∷ record { now_ns = 2; from = ground_station; raw = dof 5; nonces = drawn }
    ∷ []

abbrev status_bytes : List ℕ
status_bytes = bytes 82 1

expiry_exact_example :
    let (s', packet, events) = tick_status config 3_000_000_000 status_bytes up in
    (IsExpired config 3_000_000_000 up
      × (s' ≡ blank)
      × (packet ≡ none)
      × (events ≡ on_session_lost ∷ []))
    ⊎ (¬ IsExpired config 3_000_000_000 up × (events ≡ []) × (s'.established ≡ true))
expiry_exact_example = expiry_exact config 3_000_000_000 status_bytes up (ground arith) refl

any_datagram_keeps_alive_example :
    (tick_status config 2_900_000_000 status_bytes
      (on_packet config none drawn 2_000_000_000 ground_station (1 ∷ 2 ∷ []) up).session).2
    ≡ []
any_datagram_keeps_alive_example =
    any_datagram_keeps_alive config none drawn 2_000_000_000 2_900_000_000 ground_station
      (1 ∷ 2 ∷ []) status_bytes up (ground arith)

abbrev status_packet : List ℕ
status_packet = build_packet (make_header (msg_type_value status) 1 77 0 82) status_bytes

first_status : (tick_status config 1_500_000_000 status_bytes up).1 ≡ some status_packet
unfolding tick_status maybe_timeout_reset timed_out emit_if_due build_status_now
first_status = refl

abbrev next_packet : List ℕ
next_packet = build_packet (make_header (msg_type_value status) 2 77 0 82) status_bytes

second_status :
    (tick_status config 1_600_000_000 status_bytes
      (tick_status config 1_500_000_000 status_bytes up).0).1
    ≡ some next_packet
unfolding tick_status maybe_timeout_reset timed_out emit_if_due build_status_now
second_status = refl

status_spaced_example : 1_500_000_000 + 1_000_000_000 / 10 ≤ 1_600_000_000
status_spaced_example =
    status_spaced config 1_500_000_000 1_600_000_000 status_bytes status_packet status_bytes
      next_packet up (ground arith) first_status second_status

abbrev quiet_header : PacketHeader
quiet_header = record (dof_header 5) { flags = 0 }

quiet_parses :
    parse_and_validate (build_packet quiet_header (bytes 24 0))
    ≡ parsed (stamp_crc quiet_header (bytes 24 0)) (bytes 24 0)
unfolding make_header header_basic_valid msg_type_known msg_type_of
quiet_parses =
    parse_and_validate-build_packet quiet_header (bytes 24 0) (ground arith) (ground arith) refl
      refl

quiet_shape :
    (is_connect (msg_type_of (stamp_crc quiet_header (bytes 24 0)).msg_type) ≡ false)
    × ((stamp_crc quiet_header (bytes 24 0)).flags % 2 ≡ 0)
unfolding make_header stamp_crc msg_type_of
quiet_shape = (refl, refl)

dof_shape :
    let h = stamp_crc (dof_header 5) (bytes 24 0) in
    (is_command (msg_type_of h.msg_type) ≡ true)
    × (refuses_session config (msg_type_of h.msg_type) (record up { established = false }) h
        ≡ false)
    × (3 < h.seq)
unfolding make_header stamp_crc msg_type_of refuses_session session_id_valid
dof_shape = (refl, refl, ground arith)
