-- ===== src/Gateway/Session/Types.antt =====
-- The configuration, the members and the events of a session, and its small helpers.
use orange_pi_stm32_for_rov.Prelude.{
  ℕ, ◌+◌, ◌%◌, ◌*◌, ◌-◌, Bool, true, false, not, ◌&&◌, String, List, [], ◌∷◌, ltb, ◌==◌,
  if◌then◌else◌, u32, ns_per_ms,
}
use orange_pi_stm32_for_rov.Gateway.Bytes.{encode_fields}
use orange_pi_stm32_for_rov.Gateway.Protocol.{
  PacketHeader, AckCode, MsgType, connect_req, connect_ack, connect_confirm, set_mode, set_dof_cmd,
  estop, arm, motor_test, dvl_policy, msg_type_value,
}
use orange_pi_stm32_for_rov.Gateway.Codec.{make_header, build_packet}
use orange_pi_stm32_for_rov.Gateway.Codec

pub record UdpAddress : Type 0 where
  pub ip : String
  pub port : ℕ

pub record GcsSessionConfig : Type 0 where
  pub telem_hz : ℕ  -- an int; 0 stands for every value that is not positive
  pub require_session_for_commands : Bool
  pub ack_on_parse_error : Bool
  pub strict_session_check : Bool
  pub session_timeout_ms : ℕ

-- GcsSessionState, tx_seq_ and next_telem_ns_.
pub record Session : Type 0 where
  pub established : Bool
  pub link_alive : Bool
  pub estop : Bool
  pub session_id : ℕ
  pub gcs_nonce : ℕ
  pub rov_nonce : ℕ
  pub last_cmd_seq : ℕ
  pub have_peer : Bool
  pub peer : UdpAddress
  pub rx_ok : ℕ
  pub rx_bad : ℕ
  pub last_rx_ns : ℕ
  pub tx_seq : ℕ  -- uint32
  pub next_telem_ns : ℕ

-- A call of the callback of that name; a command comes as the bytes of its struct.
pub data Event : Type 0 where
  on_set_dof on_set_mode on_estop on_motor_test on_arm on_dvl_policy : List ℕ → Event
  on_session_established : (session_id : ℕ) (peer : UdpAddress) → Event
  on_session_lost : Event

pub record Outcome : Type 0 where
  pub session : Session
  pub packets : List (List ℕ)
  pub events : List Event

-- Two calls of rand_u64_, in their order.
pub record Nonces : Type 0 where
  pub rov : ℕ
  pub session : ℕ

-- The fields that a default-initialised state has.
abbrev pub blank : Session
blank = record {
  established = false;
  link_alive = false;
  estop = false;
  session_id = 0;
  gcs_nonce = 0;
  rov_nonce = 0;
  last_cmd_seq = 0;
  have_peer = false;
  peer = record { ip = "127.0.0.1"; port = 0 };
  rx_ok = 0;
  rx_bad = 0;
  last_rx_ns = 0;
  tx_seq = 1;
  next_telem_ns = 0;
}

unfoldable pub reset : Session → Session × List Event
reset s = (blank, if s.established then on_session_lost ∷ [] else [])

unfoldable pub timed_out : GcsSessionConfig → ℕ → Session → Bool
timed_out cfg now_ns s =
    s.established
    && not (cfg.session_timeout_ms == 0)
    && not (s.last_rx_ns == 0)
    && ltb s.last_rx_ns now_ns
    && ltb (cfg.session_timeout_ms * ns_per_ms) (now_ns - s.last_rx_ns)

unfoldable pub maybe_timeout_reset : GcsSessionConfig → ℕ → Session → Session × List Event
maybe_timeout_reset cfg now_ns s = if timed_out cfg now_ns s then reset s else (s, [])

unfoldable pub session_id_valid : Session → ℕ → Bool
session_id_valid s sid = not (s.session_id == 0) && sid == s.session_id

abbrev pub is_command_type : MsgType → Bool
is_command_type set_mode = true
is_command_type set_dof_cmd = true
is_command_type estop = true
is_command_type arm = true
is_command_type dvl_policy = true
is_command_type motor_test = true
is_command_type _ = false

abbrev pub is_handshake : MsgType → Bool
is_handshake connect_req = true
is_handshake connect_ack = true
is_handshake connect_confirm = true
is_handshake _ = false

abbrev pub next_seq : Session → Session
next_seq s = record s { tx_seq = u32 (s.tx_seq + 1) }

-- The member build_ack: an acknowledgement under the next sequence number.
unfoldable pub send_ack : Session → ℕ → AckCode → Session × List (List ℕ)
send_ack s ack_seq code = (next_seq s, Codec.build_ack s.tx_seq s.session_id ack_seq code ∷ [])

-- make_ack_if_req_; `flags & FLAG_ACK_REQ` is the lowest bit.
unfoldable pub make_ack_if_req : Session → PacketHeader → AckCode → Session × List (List ℕ)
unfolding send_ack
make_ack_if_req s h code = if h.flags % 2 == 0 then (s, []) else send_ack s h.seq code

-- An answer and nothing else but the given events.
unfoldable pub reply : Session → PacketHeader → AckCode → List Event → Outcome
reply s h code events =
    let (s', packets) = make_ack_if_req s h code in
    record { session = s'; packets = packets; events = events }

unfoldable pub make_connect_ack : Session → List ℕ
make_connect_ack s =
    build_packet (make_header (msg_type_value connect_ack) s.tx_seq s.session_id 0 24)
      (encode_fields ((8, s.gcs_nonce) ∷ (8, s.rov_nonce) ∷ (4, 0) ∷ (4, 0) ∷ []))
