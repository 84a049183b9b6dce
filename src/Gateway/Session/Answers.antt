-- ===== src/Gateway/Session/Answers.antt =====
-- What is sent in answer to a packet.
use orange_pi_stm32_for_rov.Prelude.{
  ℕ, ◌+◌, ◌%◌, ◌<◌, Bool, true, false, ◌≡◌, ◌≢◌, ◌⊎◌, refl, ◌∙◌, Option, none, some, List, [], ◌∷◌,
  length, u32, u64, Bool-cases, inl, inr, arith,
}
use orange_pi_stm32_for_rov.Gateway.Protocol.{
  PacketHeader, MsgType, connect_req, connect_confirm, heartbeat, dvl_policy, msg_type_of,
}
use orange_pi_stm32_for_rov.Gateway.Codec.{Parsed, parsed, refused, parse_and_validate}
use orange_pi_stm32_for_rov.Gateway.Session.Types.{
  UdpAddress, GcsSessionConfig, Session, Outcome, Nonces, maybe_timeout_reset, session_id_valid,
  send_ack, make_ack_if_req, reply,
}
use orange_pi_stm32_for_rov.Gateway.Session.Handle.{
  on_connect_req, on_connect_confirm, guard_command, DvlPolicy, run_dvl_policy, dispatch,
  refuses_session, is_command, handle_type, handle_parsed,
}
use orange_pi_stm32_for_rov.Gateway.Session.Receive.{note_peer, on_bad_packet, receive, on_packet}
use orange_pi_stm32_for_rov.Gateway.Session.Commands.{delivers, command_delivery}
use orange_pi_stm32_for_rov.Gateway.Session.Handshake.{
  on_packet-handle_type, maybe_timeout_reset-down,
}
use orange_pi_stm32_for_rov.Gateway.Session.Order.{dispatch-last_cmd_seq, is_connect_req}

-- No answer, or one under the next sequence number.
abbrev pub IsAnswered : Session → Outcome → Type 0
IsAnswered s o =
    ((length o.packets ≡ 0) × (o.session.tx_seq ≡ s.tx_seq))
    ⊎ ((length o.packets ≡ 1) × (o.session.tx_seq ≡ u32 (s.tx_seq + 1)))

abbrev pub is_connect : Option MsgType → Bool
is_connect (some connect_req) = true
is_connect (some connect_confirm) = true
is_connect _ = false

run_dvl_policy-IsAnswered :
    (policy : DvlPolicy) (s : Session) (h : PacketHeader) (p : List ℕ)
    → IsAnswered s (run_dvl_policy policy s h p)
      × ((h.flags % 2 ≢ 0) ⊎ (length (run_dvl_policy policy s h p).packets ≡ 0))
unfolding run_dvl_policy reply make_ack_if_req send_ack
run_dvl_policy-IsAnswered none s h p = ground arith
run_dvl_policy-IsAnswered (some f) s h p = ground arith

module _ (cfg : GcsSessionConfig) (policy : DvlPolicy) (nonces : Nonces) where
  dispatch-IsAnswered :
      (m : Option MsgType) (s : Session) (h : PacketHeader) (p : List ℕ)
      → IsAnswered s (dispatch cfg policy nonces m s h p)
        × ((h.flags % 2 ≢ 0)
            ⊎ (is_connect m ≡ true)
            ⊎ (length (dispatch cfg policy nonces m s h p).packets ≡ 0))
  unfolding dispatch guard_command reply make_ack_if_req send_ack on_connect_req on_connect_confirm
  dispatch-IsAnswered (some dvl_policy) s h p =
      let same = run_dvl_policy-IsAnswered policy s h p in ground arith
  dispatch-IsAnswered (some _) s h p = ground arith
  dispatch-IsAnswered none s h p = ground arith

  handle_type-IsAnswered :
      (m : Option MsgType) (s : Session) (h : PacketHeader) (p : List ℕ)
      → IsAnswered s (handle_type cfg policy nonces m s h p)
        × ((h.flags % 2 ≢ 0)
            ⊎ (is_connect m ≡ true)
            ⊎ (length (handle_type cfg policy nonces m s h p).packets ≡ 0))
  unfolding handle_type reply make_ack_if_req send_ack
  handle_type-IsAnswered m s h p =
      let d0 = dispatch-IsAnswered m s h p in
      let d1 = dispatch-IsAnswered m (record s { last_cmd_seq = h.seq }) h p in ground arith

  receive-IsAnswered :
      (s : Session) (raw : List ℕ) (r : Parsed) → IsAnswered s (receive cfg policy nonces s raw r)
  unfolding receive on_bad_packet reply make_ack_if_req send_ack handle_parsed
  receive-IsAnswered s raw (refused code) = ground arith
  receive-IsAnswered s raw (parsed h payload) =
      (handle_type-IsAnswered (msg_type_of h.msg_type) (record s { rx_ok = u64 (s.rx_ok + 1) }) h
        payload).0

-- A packet is answered by at most one packet; the sequence number of the session (as it is after
-- the reset of an expired session) advances by one, modulo 2^32, if one is sent, and else stays.
pub one_answer :
    (cfg : GcsSessionConfig) (policy : DvlPolicy) (nonces : Nonces) (now_ns : ℕ) (from : UdpAddress)
    (raw : List ℕ) (s : Session)
    → IsAnswered
        (maybe_timeout_reset cfg now_ns s).0
        (on_packet cfg policy nonces now_ns from raw s)
unfolding on_packet note_peer
one_answer cfg policy nonces now_ns from raw s =
    receive-IsAnswered cfg policy nonces
      (note_peer from now_ns (maybe_timeout_reset cfg now_ns s).0) raw (parse_and_validate raw)

length-zero : {A : Type 0} (xs : List A) → length xs ≡ 0 → xs ≡ []
length-zero [] e = refl
length-zero (x ∷ xs) e = ground arith

-- A packet that parses, is no CONNECT_REQ and no CONNECT_CONFIRM and does not ask for an
-- acknowledgement is not answered.
pub quiet_without_request :
    (cfg : GcsSessionConfig) (policy : DvlPolicy) (nonces : Nonces) (now_ns : ℕ) (from : UdpAddress)
    (raw : List ℕ) (s : Session) (h : PacketHeader) (payload : List ℕ)
    → parse_and_validate raw ≡ parsed h payload
    → is_connect (msg_type_of h.msg_type) ≡ false
    → h.flags % 2 ≡ 0
    → (on_packet cfg policy nonces now_ns from raw s).packets ≡ []
quiet_without_request cfg policy nonces now_ns from raw s h payload e other off =
    let (s', lost) = maybe_timeout_reset cfg now_ns s in
    let noted = note_peer from now_ns s' in
    let (_, silent) =
      handle_type-IsAnswered cfg policy nonces (msg_type_of h.msg_type)
        (record noted { rx_ok = u64 (noted.rx_ok + 1) }) h payload in
    rw (on_packet-handle_type cfg policy nonces now_ns from raw s e refl)
      (length-zero _ (ground arith))

undelivered :
    (cfg : GcsSessionConfig) (policy : DvlPolicy) (nonces : Nonces) (now_ns : ℕ) (from : UdpAddress)
    (raw : List ℕ) (s : Session)
    → cfg.require_session_for_commands ≡ true
    → s.established ≡ false
    → delivers (on_packet cfg policy nonces now_ns from raw s) ≡ false
undelivered cfg policy nonces now_ns from raw s need down =
    elim (Bool-cases (delivers (on_packet cfg policy nonces now_ns from raw s))) [
      | inl d ↦
          let (_, _, (_, _, allowed, _, _, _)) =
            command_delivery cfg policy nonces now_ns from raw s d in
          ground arith
      | inr d ↦ d
    ]

is_command-is_connect_req : (m : Option MsgType) → is_command m ≡ true → is_connect_req m ≡ false
is_command-is_connect_req none e = refl
is_command-is_connect_req (some connect_req) e = ground arith
is_command-is_connect_req (some _) e = refl

handle_type-last_cmd_seq :
    (cfg : GcsSessionConfig) (policy : DvlPolicy) (nonces : Nonces) (m : Option MsgType)
    (s : Session) (h : PacketHeader) (payload : List ℕ)
    → is_command m ≡ true
    → refuses_session cfg m s h ≡ false
    → s.last_cmd_seq < h.seq
    → (handle_type cfg policy nonces m s h payload).session.last_cmd_seq ≡ h.seq
unfolding handle_type
handle_type-last_cmd_seq cfg policy nonces m s h payload command id newer =
    let same =
      dispatch-last_cmd_seq cfg policy nonces m (record s { last_cmd_seq = h.seq }) h payload
        (is_command-is_connect_req m command) in
    ground arith

refuses_session-same :
    (cfg : GcsSessionConfig) (m : Option MsgType) (s s' : Session) (h : PacketHeader)
    → s.session_id ≡ s'.session_id
    → refuses_session cfg m s h ≡ refuses_session cfg m s' h
unfolding refuses_session session_id_valid
refuses_session-same cfg none s s' h e = ground arith
refuses_session-same cfg (some heartbeat) s s' h e = ground arith
refuses_session-same cfg (some _) s s' h e = ground arith

-- A command that arrives in order, under a session id that is accepted, while no session is
-- established and commands need one, is not delivered, and yet its number is the last one afterwards, so that a
-- repetition of it is refused as old.
pub refused_command_takes_number :
    (cfg : GcsSessionConfig) (policy : DvlPolicy) (nonces : Nonces) (now_ns : ℕ) (from : UdpAddress)
    (raw : List ℕ) (s : Session) (h : PacketHeader) (payload : List ℕ)
    → parse_and_validate raw ≡ parsed h payload
    → is_command (msg_type_of h.msg_type) ≡ true
    → cfg.require_session_for_commands ≡ true
    → s.established ≡ false
    → refuses_session cfg (msg_type_of h.msg_type) s h ≡ false
    → s.last_cmd_seq < h.seq
    → let o = on_packet cfg policy nonces now_ns from raw s in
      (delivers o ≡ false) × (o.session.last_cmd_seq ≡ h.seq)
unfolding note_peer
refused_command_takes_number cfg policy nonces now_ns from raw s h payload e command need down id
      newer =
    let m = msg_type_of h.msg_type in
    let noted = note_peer from now_ns s in
    let s' = record noted { rx_ok = u64 (noted.rx_ok + 1) } in
    let taken =
      handle_type-last_cmd_seq cfg policy nonces m s' h payload command
        (refuses_session-same cfg m s' s h refl ∙ id) newer in
    let outcome = on_packet-handle_type cfg policy nonces now_ns from raw s e refl in
    (
      undelivered cfg policy nonces now_ns from raw s need down,
      rw (outcome, maybe_timeout_reset-down cfg now_ns s down) taken,
    )
