-- ===== src/Gateway/Session/Handshake.antt =====
-- The three packets that establish a session.
use orange_pi_stm32_for_rov.Prelude.{
  ℕ, ◌+◌, true, false, ◌≡◌, ◌≢◌, ◌⊎◌, refl, ap, ◌∙◌, Option, none, some, List, [], u64, inl, inr,
  arith,
}
use orange_pi_stm32_for_rov.Gateway.Bytes.{take_le}
use orange_pi_stm32_for_rov.Gateway.Protocol.{
  PacketHeader, MsgType, connect_req, connect_confirm, dvl_policy, msg_type_of,
}
use orange_pi_stm32_for_rov.Gateway.Codec.{
  payload_size_is, Parsed, parsed, refused, parse_and_validate,
}
use orange_pi_stm32_for_rov.Gateway.Session.Types.{
  UdpAddress, GcsSessionConfig, Session, Nonces, timed_out, maybe_timeout_reset, session_id_valid,
  send_ack, make_ack_if_req, reply,
}
use orange_pi_stm32_for_rov.Gateway.Session.Handle.{
  on_connect_req, on_connect_confirm, guard_command, DvlPolicy, run_dvl_policy, dispatch,
  handle_type, handle_parsed,
}
use orange_pi_stm32_for_rov.Gateway.Session.Receive.{
  note_peer, prepend, on_bad_packet, receive, on_packet,
}
use orange_pi_stm32_for_rov.Gateway.Session.Commands.{maybe_timeout_reset-live}

run_dvl_policy-established :
    (policy : DvlPolicy) (s : Session) (h : PacketHeader) (p : List ℕ)
    → (run_dvl_policy policy s h p).session.established ≡ s.established
unfolding run_dvl_policy reply make_ack_if_req send_ack
run_dvl_policy-established none s h p = ground arith
run_dvl_policy-established (some f) s h p = ground arith

pub maybe_timeout_reset-down :
    (cfg : GcsSessionConfig) (now_ns : ℕ) (s : Session)
    → s.established ≡ false
    → maybe_timeout_reset cfg now_ns s ≡ (s, [])
unfolding maybe_timeout_reset timed_out
maybe_timeout_reset-down cfg now_ns s down = ground arith

module _ (cfg : GcsSessionConfig) (policy : DvlPolicy) (nonces : Nonces) where
  -- A packet that parses, by the type of its message.
  pub on_packet-handle_type :
      (now_ns : ℕ) (from : UdpAddress) (raw : List ℕ) (s : Session) {h : PacketHeader}
      {payload : List ℕ} {m : Option MsgType}
      → parse_and_validate raw ≡ parsed h payload
      → msg_type_of h.msg_type ≡ m
      → let (s', lost) = maybe_timeout_reset cfg now_ns s in
        let noted = note_peer from now_ns s' in
        on_packet cfg policy nonces now_ns from raw s
        ≡ prepend lost (
            handle_type cfg policy nonces m
              (record noted { rx_ok = u64 (noted.rx_ok + 1) })
              h
              payload)
  unfolding on_packet receive handle_parsed
  on_packet-handle_type now_ns from raw s {h} {payload} p t =
      let (s', lost) = maybe_timeout_reset cfg now_ns s in
      let noted = note_peer from now_ns s' in
      ap (λ r. prepend lost (receive cfg policy nonces noted raw r)) p
      ∙ ap
          (λ m. prepend lost (
            handle_type cfg policy nonces m (record noted { rx_ok = u64 (noted.rx_ok + 1) }) h
              payload))
          t

  dispatch_establishes :
      (m : Option MsgType) (s : Session) (h : PacketHeader) (p : List ℕ)
      → (dispatch cfg policy nonces m s h p).session.established ≡ true
      → (s.established ≡ true)
        ⊎ ((m ≡ some connect_confirm)
            × (s.session_id ≢ 0)
            × (h.session_id ≡ s.session_id)
            × (payload_size_is p 8 ≡ true)
            × ((take_le 8 p).0 ≡ s.rov_nonce))
  unfolding dispatch guard_command reply make_ack_if_req send_ack on_connect_req on_connect_confirm
      session_id_valid
  dispatch_establishes (some connect_req) s h p e = ground arith
  dispatch_establishes (some connect_confirm) s h p e = ground arith
  dispatch_establishes (some dvl_policy) s h p e =
      let same = run_dvl_policy-established policy s h p in ground arith
  dispatch_establishes (some _) s h p e = ground arith
  dispatch_establishes none s h p e = ground arith

  handle_type_establishes :
      (m : Option MsgType) (s : Session) (h : PacketHeader) (p : List ℕ)
      → (handle_type cfg policy nonces m s h p).session.established ≡ true
      → (s.established ≡ true)
        ⊎ ((m ≡ some connect_confirm)
            × (s.session_id ≢ 0)
            × (h.session_id ≡ s.session_id)
            × (payload_size_is p 8 ≡ true)
            × ((take_le 8 p).0 ≡ s.rov_nonce))
  unfolding handle_type reply make_ack_if_req send_ack
  handle_type_establishes m s h p e =
      let d0 = dispatch_establishes m s h p in
      let d1 = dispatch_establishes m (record s { last_cmd_seq = h.seq }) h p in ground arith

  receive_establishes :
      (s : Session) (raw : List ℕ) (r : Parsed)
      → (receive cfg policy nonces s raw r).session.established ≡ true
      → (s.established ≡ true)
        ⊎ ((h : PacketHeader) × (payload : List ℕ) × ((r ≡ parsed h payload)
              × (msg_type_of h.msg_type ≡ some connect_confirm)
              × (s.session_id ≢ 0)
              × (h.session_id ≡ s.session_id)
              × (payload_size_is payload 8 ≡ true)
              × ((take_le 8 payload).0 ≡ s.rov_nonce)))
  unfolding receive on_bad_packet reply make_ack_if_req send_ack handle_parsed
  receive_establishes s raw (refused code) e = ground arith
  receive_establishes s raw (parsed h payload) e =
      elim (handle_type_establishes (msg_type_of h.msg_type)
        (record s { rx_ok = u64 (s.rx_ok + 1) }) h payload e) [
          | inl old ↦ inl old
          | inr (m, id, same, size, nonce) ↦ inr (h, payload, (refl, m, id, same, size, nonce))
        ]

-- A session that is established after a packet was established before it and had not expired, or
-- the packet parses as a CONNECT_CONFIRM with an eight-byte payload that carries the nonce of the
-- vehicle, under the id of the session, which is not 0.
pub established_by_confirm :
    (cfg : GcsSessionConfig) (policy : DvlPolicy) (nonces : Nonces) (now_ns : ℕ) (from : UdpAddress)
    (raw : List ℕ) (s : Session)
    → (on_packet cfg policy nonces now_ns from raw s).session.established ≡ true
    → let before = (maybe_timeout_reset cfg now_ns s).0 in
      ((s.established ≡ true) × (timed_out cfg now_ns s ≡ false))
      ⊎ ((h : PacketHeader) × (payload : List ℕ) × ((parse_and_validate raw ≡ parsed h payload)
            × (msg_type_of h.msg_type ≡ some connect_confirm)
            × (before.session_id ≢ 0)
            × (h.session_id ≡ before.session_id)
            × (payload_size_is payload 8 ≡ true)
            × ((take_le 8 payload).0 ≡ before.rov_nonce)))
unfolding on_packet note_peer
established_by_confirm cfg policy nonces now_ns from raw s e =
    let before = (maybe_timeout_reset cfg now_ns s).0 in
    elim (receive_establishes cfg policy nonces (note_peer from now_ns before) raw
      (parse_and_validate raw) e) [
        | inl old ↦ let (live, up) = maybe_timeout_reset-live cfg now_ns s old in inl (up, live)
        | inr confirm ↦ inr confirm
      ]
