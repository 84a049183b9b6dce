-- ===== src/Gateway/Session/Handle.antt =====
-- GcsSession::handle_parsed_: the session check, the check of command numbers, and the handler of
-- each message type.
use orange_pi_stm32_for_rov.Prelude.{
  ℕ, Bool, true, false, not, ◌&&◌, Option, none, some, List, [], ◌∷◌, leb, ◌==◌, if◌then◌else◌,
}
use orange_pi_stm32_for_rov.Gateway.Bytes.{take_le}
use orange_pi_stm32_for_rov.Gateway.Protocol.{
  PacketHeader, AckCode, ok, bad_format, invalid_session, seq_old_or_dup, not_supported, MsgType,
  connect_req, connect_ack, connect_confirm, heartbeat, set_mode, set_dof_cmd, estop, arm,
  motor_test, dvl_policy, status, ack, msg_type_of,
}
use orange_pi_stm32_for_rov.Gateway.Codec.{payload_size_is}
use orange_pi_stm32_for_rov.Gateway.Session.Types.{
  GcsSessionConfig, Session, Event, on_set_dof, on_set_mode, on_estop, on_motor_test, on_arm,
  on_dvl_policy, on_session_established, Outcome, Nonces, session_id_valid, is_command_type,
  is_handshake, next_seq, send_ack, reply, make_connect_ack,
}

unfoldable pub on_connect_req : Nonces → Session → PacketHeader → List ℕ → Outcome
on_connect_req nonces s h payload =
    if not (payload_size_is payload 8)
    then reply s h bad_format []
    else let s' = record s {
      gcs_nonce = (take_le 8 payload).0;
      rov_nonce = nonces.rov;
      session_id = nonces.session;
      established = false;
      last_cmd_seq = 0;
    } in
      record { session = next_seq s'; packets = make_connect_ack s' ∷ []; events = [] }

-- An answer that does not wait to be asked for.
abbrev pub answer : Session → PacketHeader → AckCode → List Event → Outcome
answer s h code events =
    let (s', packets) = send_ack s h.seq code in
    record { session = s'; packets = packets; events = events }

unfoldable pub on_connect_confirm : Session → PacketHeader → List ℕ → Outcome
on_connect_confirm s h payload =
    if not (session_id_valid s h.session_id)
    then answer s h invalid_session []
    else if not (payload_size_is payload 8)
    then answer s h bad_format []
    else if not ((take_le 8 payload).0 == s.rov_nonce)
    then answer s h bad_format []
    else answer (record s { established = true }) h ok
        (if s.established then [] else on_session_established s.session_id s.peer ∷ [])

-- What every command handler tests first.
unfoldable pub guard_command :
    GcsSessionConfig → Session → PacketHeader → List ℕ → (size : ℕ) → Outcome → Outcome
guard_command cfg s h payload size accepted =
    if cfg.require_session_for_commands && not s.established
    then reply s h invalid_session []
    else if not (payload_size_is payload size)
    then reply s h bad_format []
    else accepted

-- on_dvl_policy, if it is set, answers with a code.
abbrev pub DvlPolicy : Type 0
DvlPolicy = Option (List ℕ → AckCode)

unfoldable pub run_dvl_policy : DvlPolicy → Session → PacketHeader → List ℕ → Outcome
run_dvl_policy none s h payload = reply s h not_supported []
run_dvl_policy (some f) s h payload = reply s h (f payload) (on_dvl_policy payload ∷ [])

abbrev pub is_command : Option MsgType → Bool
is_command none = false
is_command (some m) = is_command_type m

-- The strict check refuses; a heartbeat may leave its session at 0.
unfoldable pub refuses_session : GcsSessionConfig → Option MsgType → Session → PacketHeader → Bool
refuses_session cfg none s h = cfg.strict_session_check && not (session_id_valid s h.session_id)
refuses_session cfg (some heartbeat) s h =
    cfg.strict_session_check && (not (h.session_id == 0) && not (session_id_valid s h.session_id))
refuses_session cfg (some m) s h =
    not (is_handshake m) && (cfg.strict_session_check && not (session_id_valid s h.session_id))

module _ (cfg : GcsSessionConfig) (policy : DvlPolicy) (nonces : Nonces) where
  -- The `switch`; none is its default.
  unfoldable pub dispatch : Option MsgType → Session → PacketHeader → List ℕ → Outcome
  dispatch (some connect_req) s h p = on_connect_req nonces s h p
  dispatch (some connect_confirm) s h p = on_connect_confirm s h p
  dispatch (some heartbeat) s h p = reply s h ok []
  dispatch (some estop) s h p =
      guard_command cfg s h p 4
        (reply (record s { estop = not ((take_le 1 p).0 == 0) }) h ok (on_estop p ∷ []))
  dispatch (some arm) s h p = guard_command cfg s h p 4 (reply s h ok (on_arm p ∷ []))
  dispatch (some dvl_policy) s h p = guard_command cfg s h p 4 (run_dvl_policy policy s h p)
  dispatch (some set_mode) s h p = guard_command cfg s h p 20 (reply s h ok (on_set_mode p ∷ []))
  dispatch (some set_dof_cmd) s h p = guard_command cfg s h p 24 (reply s h ok (on_set_dof p ∷ []))
  dispatch (some motor_test) s h p =
      guard_command cfg s h p 16 (reply s h ok (on_motor_test p ∷ []))
  dispatch (some status) s h p = reply s h not_supported []
  dispatch (some ack) s h p = record { session = s; packets = []; events = [] }
  dispatch (some connect_ack) s h p = reply s h not_supported []
  dispatch none s h p = reply s h not_supported []

  -- dedup_cmd_seq_ok_ refuses a number that is not above the last one, and else notes it.
  unfoldable pub handle_type : Option MsgType → Session → PacketHeader → List ℕ → Outcome
  handle_type m s h payload =
      if refuses_session cfg m s h
      then reply s h invalid_session []
      else if not (is_command m)
      then dispatch m s h payload
      else if leb h.seq s.last_cmd_seq
      then reply s h seq_old_or_dup []
      else dispatch m (record s { last_cmd_seq = h.seq }) h payload

  unfoldable pub handle_parsed : Session → PacketHeader → List ℕ → Outcome
  handle_parsed s h payload = handle_type (msg_type_of h.msg_type) s h payload
