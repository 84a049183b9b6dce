-- ===== src/Gateway/Session/Telemetry.antt =====
-- The status telemetry: its rate and its packets.
use orange_pi_stm32_for_rov.Prelude.{
  ℕ, ◌+◌, ◌/◌, ◌^◌, ◌<◌, ◌≤◌, true, ◌≡◌, refl, sym, ap, ◌∙◌, some, List, length, All, u32, u64,
  arith,
}
use orange_pi_stm32_for_rov.Gateway.Bytes.{IsByte}
use orange_pi_stm32_for_rov.Gateway.Protocol.{
  PacketHeader, status, msg_type_of, msg_type_value, header_basic_valid, k_max_payload_bytes,
  msg_type_known, IsInRange,
}
use orange_pi_stm32_for_rov.Gateway.Codec.{
  parsed, parse_and_validate, make_header, build_packet, stamp_crc,
}
use orange_pi_stm32_for_rov.Gateway.Codec.RoundTrip.{parse_and_validate-build_packet}
use orange_pi_stm32_for_rov.Gateway.Session.Types.{
  GcsSessionConfig, Session, reset, maybe_timeout_reset,
}
use orange_pi_stm32_for_rov.Gateway.Session.Receive.{build_status_now, emit_if_due, tick_status}

emit_if_due-next :
    (cfg : GcsSessionConfig) (now_ns : ℕ) (status_bytes : List ℕ) {packet : List ℕ} (s : Session)
    → (emit_if_due cfg now_ns status_bytes s).1 ≡ some packet
    → let s' = (emit_if_due cfg now_ns status_bytes s).0 in
      (s'.next_telem_ns ≡ u64 (now_ns + 1_000_000_000 / cfg.telem_hz))
      × (s'.tx_seq ≡ u32 (s.tx_seq + 1))
      × (s.next_telem_ns ≤ now_ns)
      × (build_packet
            (make_header (msg_type_value status) s.tx_seq s.session_id 0 (length status_bytes))
            status_bytes
          ≡ packet)
unfolding emit_if_due build_status_now
emit_if_due-next cfg now_ns status_bytes s e = ground arith

-- Only a live session sends.
tick_status-emit_if_due :
    (cfg : GcsSessionConfig) (now_ns : ℕ) (status_bytes : List ℕ) {packet : List ℕ} (s : Session)
    → (tick_status cfg now_ns status_bytes s).1 ≡ some packet
    → ((emit_if_due cfg now_ns status_bytes s).1 ≡ some packet)
      × ((tick_status cfg now_ns status_bytes s).0 ≡ (emit_if_due cfg now_ns status_bytes s).0)
unfolding tick_status maybe_timeout_reset reset
tick_status-emit_if_due cfg now_ns status_bytes s e = ground arith

-- A tick that sends a status at some time leaves the session such that no tick sends another before one period of the configured
-- rate has passed.
pub status_spaced :
    (cfg : GcsSessionConfig) (now_ns later : ℕ) (status_bytes packet later_bytes next : List ℕ)
    (s : Session)
    → now_ns + 1_000_000_000 / cfg.telem_hz < 2 ^ 64
    → (tick_status cfg now_ns status_bytes s).1 ≡ some packet
    → (tick_status cfg later later_bytes (tick_status cfg now_ns status_bytes s).0).1 ≡ some next
    → now_ns + 1_000_000_000 / cfg.telem_hz ≤ later
status_spaced cfg now_ns later status_bytes packet later_bytes next s fits sent again =
    let s' = (tick_status cfg now_ns status_bytes s).0 in
    let (due, same) = tick_status-emit_if_due cfg now_ns status_bytes s sent in
    let (due', _) = tick_status-emit_if_due cfg later later_bytes s' again in
    let (noted, _, _, _) = emit_if_due-next cfg now_ns status_bytes s due in
    let (_, _, waits, _) = emit_if_due-next cfg later later_bytes s' due' in
    let at = ap (λ x. x.next_telem_ns) same in ground arith

status_header :
    (tx_seq session_id : ℕ) (bytes : List ℕ)
    → tx_seq < 2 ^ 32
    → session_id < 2 ^ 64
    → length bytes ≤ k_max_payload_bytes
    → let h = make_header (msg_type_value status) tx_seq session_id 0 (length bytes) in
      let h' = stamp_crc h bytes in
      IsInRange h
      × (header_basic_valid h ≡ true)
      × (h.payload_len ≡ length bytes)
      × (h'.msg_type ≡ msg_type_value status)
      × (h'.seq ≡ tx_seq)
      × (h'.session_id ≡ session_id)
unfolding make_header header_basic_valid msg_type_known msg_type_of stamp_crc
status_header tx_seq session_id bytes t s m = (ground arith, ground arith, refl, refl, refl, refl)

-- A status that a tick sends parses to a header of type STATUS that carries the id of the session and the current sequence number, and to the
-- bytes of the status; the session moves on to the next number. The session's numbers fit their types, and the status is of bytes and no longer than the greatest payload.
pub status_parses :
    (cfg : GcsSessionConfig) (now_ns : ℕ) (status_bytes packet : List ℕ) (s : Session)
    → s.tx_seq < 2 ^ 32
    → s.session_id < 2 ^ 64
    → All IsByte status_bytes
    → length status_bytes ≤ k_max_payload_bytes
    → (tick_status cfg now_ns status_bytes s).1 ≡ some packet
    → (h : PacketHeader) × ((parse_and_validate packet ≡ parsed h status_bytes)
        × (h.msg_type ≡ msg_type_value status)
        × (h.seq ≡ s.tx_seq)
        × (h.session_id ≡ s.session_id)
        × ((tick_status cfg now_ns status_bytes s).0.tx_seq ≡ u32 (s.tx_seq + 1)))
status_parses cfg now_ns status_bytes packet s t i b m sent =
    let (due, same) = tick_status-emit_if_due cfg now_ns status_bytes s sent in
    let (_, advanced, _, built) = emit_if_due-next cfg now_ns status_bytes s due in
    let (range, valid, len, type, seq, sid) =
      status_header s.tx_seq s.session_id status_bytes t i m in
    let h = make_header (msg_type_value status) s.tx_seq s.session_id 0 (length status_bytes) in
    (
      stamp_crc h status_bytes,
      (
        ap parse_and_validate (sym built)
            ∙ parse_and_validate-build_packet h status_bytes range b valid len,
        type,
        seq,
        sid,
        ap (λ x. x.tx_seq) same ∙ advanced,
      ),
    )
