-- ===== src/Gateway/Session/Sample.antt =====
-- A session, its configuration and packets, for concrete runs.
use orange_pi_stm32_for_rov.Prelude.{ℕ, zero, suc, true, ◌≡◌, refl, List, [], ◌∷◌, arith}
use orange_pi_stm32_for_rov.Gateway.Protocol.{
  PacketHeader, connect_req, connect_confirm, set_dof_cmd, msg_type_of, msg_type_value,
  header_basic_valid, msg_type_known,
}
use orange_pi_stm32_for_rov.Gateway.Codec.{
  parsed, parse_and_validate, make_header, build_packet, stamp_crc,
}
use orange_pi_stm32_for_rov.Gateway.Codec.RoundTrip.{parse_and_validate-build_packet}
use orange_pi_stm32_for_rov.Gateway.Session.Types.{
  UdpAddress, GcsSessionConfig, Session, Nonces, blank,
}

abbrev pub config : GcsSessionConfig
config = record {
  telem_hz = 10;
  require_session_for_commands = true;
  ack_on_parse_error = true;
  strict_session_check = true;
  session_timeout_ms = 1500;
}

abbrev pub no_timeout : GcsSessionConfig
no_timeout = record config { session_timeout_ms = 0 }

abbrev pub ground_station : UdpAddress
ground_station = record { ip = "192.168.2.1"; port = 14550 }

abbrev pub drawn : Nonces
drawn = record { rov = 66; session = 77 }

abbrev pub bytes : ℕ → ℕ → List ℕ
bytes zero x = []
bytes (suc n) x = x ∷ bytes n x

abbrev pub req_header : PacketHeader
req_header = make_header (msg_type_value connect_req) 1 0 0 8

abbrev pub req : List ℕ
req = build_packet req_header (bytes 8 5)

abbrev pub confirm_payload : List ℕ
confirm_payload = 66 ∷ bytes 7 0

abbrev pub confirm_header : PacketHeader
confirm_header = make_header (msg_type_value connect_confirm) 2 77 0 8

abbrev pub confirm : List ℕ
confirm = build_packet confirm_header confirm_payload

abbrev pub dof_header : ℕ → PacketHeader
dof_header seq = make_header (msg_type_value set_dof_cmd) seq 77 1 24

abbrev pub dof : ℕ → List ℕ
dof seq = build_packet (dof_header seq) (bytes 24 0)

-- A session that a ground station has established.
abbrev pub up : Session
up = record blank {
  established = true;
  link_alive = true;
  session_id = 77;
  gcs_nonce = 5;
  rov_nonce = 66;
  last_cmd_seq = 3;
  have_peer = true;
  peer = ground_station;
  last_rx_ns = 1_000_000_000;
}

pub req_parses : parse_and_validate req ≡ parsed (stamp_crc req_header (bytes 8 5)) (bytes 8 5)
unfolding make_header header_basic_valid msg_type_known msg_type_of
req_parses =
    parse_and_validate-build_packet req_header (bytes 8 5) (ground arith) (ground arith) refl refl

pub confirm_parses :
    parse_and_validate confirm ≡ parsed (stamp_crc confirm_header confirm_payload) confirm_payload
unfolding make_header header_basic_valid msg_type_known msg_type_of
confirm_parses =
    parse_and_validate-build_packet confirm_header confirm_payload (ground arith) (ground arith)
      refl refl

pub dof_parses :
    parse_and_validate (dof 5) ≡ parsed (stamp_crc (dof_header 5) (bytes 24 0)) (bytes 24 0)
unfolding make_header header_basic_valid msg_type_known msg_type_of
dof_parses =
    parse_and_validate-build_packet (dof_header 5) (bytes 24 0) (ground arith) (ground arith) refl
      refl
