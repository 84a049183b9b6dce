-- ===== src/Gateway/Session/Commands.antt =====
-- Commands: which are delivered, once each and in order.
use orange_pi_stm32_for_rov.Prelude.{
  ℕ, ◌+◌, ◌<◌, Bool, true, false, ◌||◌, ◌≡◌, ◌⊎◌, refl, sym, ◌∙◌, Option, none, some, List, [], ◌∷◌,
  ◌++◌, u64, inl, inr, arith,
}
use orange_pi_stm32_for_rov.Gateway.Protocol.{
  PacketHeader, MsgType, connect_req, heartbeat, estop, dvl_policy, msg_type_of,
}
use orange_pi_stm32_for_rov.Gateway.Codec.{Parsed, parsed, refused, parse_and_validate}
use orange_pi_stm32_for_rov.Gateway.Session.Types.{
  UdpAddress, GcsSessionConfig, Session, Event, on_session_established, on_session_lost, Outcome,
  Nonces, reset, timed_out, maybe_timeout_reset, session_id_valid, send_ack, make_ack_if_req, reply,
}
use orange_pi_stm32_for_rov.Gateway.Session.Handle.{
  on_connect_req, on_connect_confirm, guard_command, DvlPolicy, run_dvl_policy, dispatch,
  refuses_session, is_command, handle_type, handle_parsed,
}
use orange_pi_stm32_for_rov.Gateway.Session.Receive.{note_peer, on_bad_packet, receive, on_packet}

abbrev is_command_event : Event → Bool
is_command_event (on_session_established _ _) = false
is_command_event on_session_lost = false
is_command_event _ = true

abbrev any_command : List Event → Bool
any_command [] = false
any_command (e ∷ es) = is_command_event e || any_command es

-- A command callback is called.
abbrev pub delivers : Outcome → Bool
delivers o = any_command o.events

pub run_dvl_policy-last_cmd_seq :
    (policy : DvlPolicy) (s : Session) (h : PacketHeader) (p : List ℕ)
    → (run_dvl_policy policy s h p).session.last_cmd_seq ≡ s.last_cmd_seq
unfolding run_dvl_policy reply make_ack_if_req send_ack
run_dvl_policy-last_cmd_seq none s h p = ground arith
run_dvl_policy-last_cmd_seq (some f) s h p = ground arith

command_session :
    (cfg : GcsSessionConfig) (m : Option MsgType) (s : Session) (h : PacketHeader)
    → is_command m ≡ true
    → refuses_session cfg m s h ≡ false
    → (cfg.strict_session_check ≡ false) ⊎ (session_id_valid s h.session_id ≡ true)
unfolding refuses_session
command_session cfg none s h c r = ground arith
command_session cfg (some heartbeat) s h c r = ground arith
command_session cfg (some _) s h c r = ground arith

maybe_timeout_reset-any_command :
    (cfg : GcsSessionConfig) (now_ns : ℕ) (s : Session) (es : List Event)
    → any_command ((maybe_timeout_reset cfg now_ns s).1 ++ es) ≡ any_command es
unfolding maybe_timeout_reset reset
maybe_timeout_reset-any_command cfg now_ns s es = ground arith

module _ (cfg : GcsSessionConfig) (policy : DvlPolicy) (nonces : Nonces) where
  dispatch-delivers :
      (m : Option MsgType) (s : Session) (h : PacketHeader) (p : List ℕ)
      → delivers (dispatch cfg policy nonces m s h p) ≡ true
      → (is_command m ≡ true)
        × ((cfg.require_session_for_commands ≡ false) ⊎ (s.established ≡ true))
        × ((dispatch cfg policy nonces m s h p).session.last_cmd_seq ≡ s.last_cmd_seq)
  unfolding dispatch guard_command reply make_ack_if_req send_ack on_connect_req on_connect_confirm
  dispatch-delivers (some connect_req) s h p e = ground arith
  dispatch-delivers (some estop) s h p e = ground arith
  dispatch-delivers (some dvl_policy) s h p e =
      let same = run_dvl_policy-last_cmd_seq policy s h p in ground arith
  dispatch-delivers (some _) s h p e = ground arith
  dispatch-delivers none s h p e = ground arith

  -- A delivered command came in order, in a session as the configuration asks for.
  handle_type-delivers :
      (m : Option MsgType) (s : Session) (h : PacketHeader) (p : List ℕ)
      → delivers (handle_type cfg policy nonces m s h p) ≡ true
      → (refuses_session cfg m s h ≡ false)
        × (is_command m ≡ true)
        × ((cfg.require_session_for_commands ≡ false) ⊎ (s.established ≡ true))
        × (s.last_cmd_seq < h.seq)
        × ((handle_type cfg policy nonces m s h p).session.last_cmd_seq ≡ h.seq)
  unfolding handle_type reply make_ack_if_req send_ack
  handle_type-delivers m s h p e =
      let d0 = dispatch-delivers m s h p in
      let d1 = dispatch-delivers m (record s { last_cmd_seq = h.seq }) h p in ground arith

  receive-delivers :
      (s : Session) (raw : List ℕ) (r : Parsed)
      → delivers (receive cfg policy nonces s raw r) ≡ true
      → (h : PacketHeader) × (payload : List ℕ) × ((r ≡ parsed h payload)
          × (is_command (msg_type_of h.msg_type) ≡ true)
          × ((cfg.require_session_for_commands ≡ false) ⊎ (s.established ≡ true))
          × ((cfg.strict_session_check ≡ false) ⊎ (session_id_valid s h.session_id ≡ true))
          × (s.last_cmd_seq < h.seq)
          × ((receive cfg policy nonces s raw r).session.last_cmd_seq ≡ h.seq))
  unfolding receive on_bad_packet reply make_ack_if_req send_ack handle_parsed session_id_valid
  receive-delivers s raw (refused code) e = ground arith
  receive-delivers s raw (parsed h payload) e =
      let s' = record s { rx_ok = u64 (s.rx_ok + 1) } in
      let (accepted, command, allowed, newer, noted) =
        handle_type-delivers (msg_type_of h.msg_type) s' h payload e in
      (
        h,
        payload,
        (
          refl,
          command,
          allowed,
          command_session cfg (msg_type_of h.msg_type) s' h command accepted,
          newer,
          noted,
        ),
      )

  -- An unexpired session stays as it is.
  on_packet-delivers :
      (now_ns : ℕ) (from : UdpAddress) (raw : List ℕ) (s : Session)
      → delivers (on_packet cfg policy nonces now_ns from raw s) ≡ true
      → delivers (
          receive cfg policy nonces
            (note_peer from now_ns (maybe_timeout_reset cfg now_ns s).0)
            raw
            (parse_and_validate raw))
        ≡ true
  unfolding on_packet
  on_packet-delivers now_ns from raw s e =
      let s' = (maybe_timeout_reset cfg now_ns s).0 in
      sym (
        maybe_timeout_reset-any_command cfg now_ns s
          (receive cfg policy nonces (note_peer from now_ns s') raw
            (parse_and_validate raw)).events)
      ∙ e

pub maybe_timeout_reset-same :
    (cfg : GcsSessionConfig) (now_ns : ℕ) (s : Session)
    → timed_out cfg now_ns s ≡ false
    → (maybe_timeout_reset cfg now_ns s).0 ≡ s
unfolding maybe_timeout_reset
maybe_timeout_reset-same cfg now_ns s live = ground arith

pub maybe_timeout_reset-live :
    (cfg : GcsSessionConfig) (now_ns : ℕ) (s : Session)
    → (maybe_timeout_reset cfg now_ns s).0.established ≡ true
    → (timed_out cfg now_ns s ≡ false) × (s.established ≡ true)
unfolding maybe_timeout_reset reset
maybe_timeout_reset-live cfg now_ns s e = ground arith

-- A packet that makes a command callback run parses as a command; the session is established and
-- has not expired, unless commands need none; under the strict check the packet carries the id of
-- the session; its number is above the last one (after the reset of an expired session), and is the last one afterwards.
pub command_delivery :
    (cfg : GcsSessionConfig) (policy : DvlPolicy) (nonces : Nonces) (now_ns : ℕ) (from : UdpAddress)
    (raw : List ℕ) (s : Session)
    → let before = (maybe_timeout_reset cfg now_ns s).0 in
      let o = on_packet cfg policy nonces now_ns from raw s in
      delivers o ≡ true
      → (h : PacketHeader) × (payload : List ℕ) × ((parse_and_validate raw ≡ parsed h payload)
          × (is_command (msg_type_of h.msg_type) ≡ true)
          × ((cfg.require_session_for_commands ≡ false)
              ⊎ ((s.established ≡ true) × (timed_out cfg now_ns s ≡ false)))
          × ((cfg.strict_session_check ≡ false) ⊎ (session_id_valid before h.session_id ≡ true))
          × (before.last_cmd_seq < h.seq)
          × (o.session.last_cmd_seq ≡ h.seq))
unfolding on_packet session_id_valid note_peer
command_delivery cfg policy nonces now_ns from raw s e =
    let before = (maybe_timeout_reset cfg now_ns s).0 in
    let e' = on_packet-delivers cfg policy nonces now_ns from raw s e in
    let (h, payload, (p, command, allowed, strict, newer, noted)) =
      receive-delivers cfg policy nonces (note_peer from now_ns before) raw (parse_and_validate raw)
        e' in
    (
      h,
      payload,
      (
        p,
        command,
        elim allowed [
          | inl off ↦ inl off
          | inr up ↦ inr (let (a, b) = maybe_timeout_reset-live cfg now_ns s up in (b, a))
        ],
        strict,
        newer,
        noted,
      ),
    )
