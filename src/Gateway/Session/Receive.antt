-- ===== src/Gateway/Session/Receive.antt =====
-- GcsSession::on_packet and tick_status.
use orange_pi_stm32_for_rov.Prelude.{
  ℕ, ◌+◌, ◌/◌, true, not, ◌&&◌, Option, none, some, List, [], ◌++◌, length, ltb, leb, ◌==◌,
  if◌then◌else◌, u64,
}
use orange_pi_stm32_for_rov.Gateway.Protocol.{
  AckCode, ok, bad_format, status, msg_type_value, decode_header,
}
use orange_pi_stm32_for_rov.Gateway.Codec.{
  Parsed, parsed, refused, parse_and_validate, make_header, build_packet,
}
use orange_pi_stm32_for_rov.Gateway.Session.Types.{
  UdpAddress, GcsSessionConfig, Session, Event, Outcome, Nonces, maybe_timeout_reset, next_seq,
  reply,
}
use orange_pi_stm32_for_rov.Gateway.Session.Handle.{DvlPolicy, handle_parsed}

-- The peer is noted before anything is known of the packet.
unfoldable pub note_peer : UdpAddress → ℕ → Session → Session
note_peer from now_ns s = record s {
  peer = from;
  have_peer = true;
  link_alive = true;
  last_rx_ns = now_ns;
}

abbrev pub prepend : List Event → Outcome → Outcome
prepend events o = record o { events = events ++ o.events }

abbrev pub error_code : AckCode → AckCode
error_code ok = bad_format
error_code code = code

-- The answer to a packet that does not parse.
unfoldable pub on_bad_packet : GcsSessionConfig → Session → List ℕ → AckCode → Outcome
on_bad_packet cfg s raw code =
    let s' = record s { rx_bad = u64 (s.rx_bad + 1) } in
    if cfg.ack_on_parse_error && leb 48 (length raw)
    then reply s' (decode_header raw) (error_code code) []
    else record { session = s'; packets = []; events = [] }

-- An encoded status under the next sequence number; `status_bytes` are the 82 bytes of the struct.
unfoldable pub build_status_now : Session → List ℕ → Session × List ℕ
build_status_now s status_bytes = (
  next_seq s,
  build_packet (make_header (msg_type_value status) s.tx_seq s.session_id 0 (length status_bytes))
      status_bytes,
)

module _ (cfg : GcsSessionConfig) where
  module _ (policy : DvlPolicy) (nonces : Nonces) where
    unfoldable pub receive : Session → List ℕ → Parsed → Outcome
    receive s raw (refused code) = on_bad_packet cfg s raw code
    receive s raw (parsed h payload) =
        handle_parsed cfg policy nonces (record s { rx_ok = u64 (s.rx_ok + 1) }) h payload

    unfoldable pub on_packet : (now_ns : ℕ) → UdpAddress → List ℕ → Session → Outcome
    on_packet now_ns from raw s =
        let (s', lost) = maybe_timeout_reset cfg now_ns s in
        prepend lost (receive (note_peer from now_ns s') raw (parse_and_validate raw))

  -- The rate limiter of tick_status, past the tests for a peer.
  unfoldable pub emit_if_due : ℕ → List ℕ → Session → Session × Option (List ℕ)
  emit_if_due now_ns status_bytes s =
      let next = if s.next_telem_ns == 0 then now_ns else s.next_telem_ns in
      if ltb now_ns next
      then (record s { next_telem_ns = next }, none)
      else let due = record s { next_telem_ns = u64 (now_ns + 1_000_000_000 / cfg.telem_hz) } in
        let (s', packet) = build_status_now due status_bytes in (s', some packet)

  -- The session, the packet if one is due, and the events.
  unfoldable pub tick_status : ℕ → List ℕ → Session → Session × Option (List ℕ) × List Event
  tick_status now_ns status_bytes s =
      let (s', lost) = maybe_timeout_reset cfg now_ns s in
      let (s'', packet) = emit_if_due now_ns status_bytes s' in
      if cfg.telem_hz == 0
      then (s, none, [])
      else if not s.have_peer
      then (s, none, [])
      else if not s'.have_peer
      then (s', none, lost)
      else (s'', packet, lost)
