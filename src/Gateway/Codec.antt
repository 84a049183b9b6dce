-- ===== src/Gateway/Codec.antt =====
-- gateway/include/gateway/codec/gcs_codec.hpp and packet_view.hpp: packets as bytes, and back. The
-- error texts, which only go to a log, are left out.
pub mod RoundTrip
pub mod Reject
use orange_pi_stm32_for_rov.Prelude.{
  ℕ, ◌+◌, ◌<◌, Bool, true, false, not, ◌≡◌, List, [], ◌∷◌, ◌++◌, length, drop, ltb, ◌==◌,
  if◌then◌else◌,
}
use orange_pi_stm32_for_rov.Gateway.Bytes.{le_bytes}
use orange_pi_stm32_for_rov.Gateway.Crc32c.{crc32c}
use orange_pi_stm32_for_rov.Gateway.Protocol.{
  PacketHeader, AckCode, ok, bad_format, crc_fail, ack_code_value, MsgType, msg_type_value, k_magic,
  k_proto_version, k_header_bytes, k_max_payload_bytes, flag_is_ack, encode_header, decode_header,
  calc_header_crc, header_basic_valid,
}

-- The result of parse_and_validate: a packet, or the code of the refusal.
pub data Parsed : Type 0 where
  parsed : (hdr : PacketHeader) (payload : List ℕ) → Parsed
  refused : AckCode → Parsed

unfoldable pub make_header : (msg_type seq session_id flags payload_len : ℕ) → PacketHeader
make_header msg_type seq session_id flags payload_len = record {
  magic = k_magic;
  version = k_proto_version;
  msg_type = msg_type;
  reserved0 = 0;
  flags = flags;
  reserved1 = 0;
  seq = seq;
  session_id = session_id;
  payload_len = payload_len;
  ack_seq = 0;
  send_time_ms = 0;
  reserved2 = 0;
  header_crc32c = 0;
  payload_crc32c = 0;
}

-- The header with both checksums filled in.
unfoldable pub stamp_crc : PacketHeader → List ℕ → PacketHeader
stamp_crc h_in payload =
    let h = record h_in { payload_crc32c = if h_in.payload_len == 0 then 0 else crc32c payload } in
    record h { header_crc32c = calc_header_crc h }

unfoldable pub build_packet : PacketHeader → List ℕ → List ℕ
build_packet h payload = encode_header (stamp_crc h payload) ++ payload

unfoldable pub build_packet_no_payload : PacketHeader → List ℕ
build_packet_no_payload h = build_packet (record h { payload_len = 0 }) []

-- The checksum tests of parse_and_validate.
unfoldable pub check_crc : PacketHeader → List ℕ → Parsed
check_crc h payload =
    if not (calc_header_crc h == h.header_crc32c)
    then refused crc_fail
    else if h.payload_len == 0
    then if not (h.payload_crc32c == 0) then refused crc_fail else parsed h payload
    else if not (crc32c payload == h.payload_crc32c)
    then refused crc_fail
    else parsed h payload

unfoldable pub parse_and_validate : List ℕ → Parsed
parse_and_validate bytes =
    let h = decode_header bytes in
    if ltb (length bytes) k_header_bytes
    then refused bad_format
    else if not (header_basic_valid h)
    then refused bad_format
    else if not (length bytes == k_header_bytes + h.payload_len)
    then refused bad_format
    else check_crc h (drop k_header_bytes bytes)

-- The payload of an acknowledgement: its code and a reserved field.
unfoldable pub ack_payload : AckCode → List ℕ
ack_payload code = le_bytes 2 (ack_code_value code) ++ le_bytes 2 0

-- The header of an acknowledgement. Every caller of build_ack leaves flags_extra at 0.
unfoldable pub ack_header : (tx_seq session_id ack_seq : ℕ) → PacketHeader
ack_header tx_seq session_id ack_seq =
    let h = make_header (msg_type_value MsgType.ack) tx_seq session_id flag_is_ack 4 in
    record h { ack_seq = ack_seq }

unfoldable pub build_ack : (tx_seq session_id ack_seq : ℕ) → AckCode → List ℕ
build_ack tx_seq session_id ack_seq code =
    build_packet (ack_header tx_seq session_id ack_seq) (ack_payload code)

unfoldable pub payload_size_is : List ℕ → ℕ → Bool
payload_size_is p expect = length p == expect

pub data PacketViewError : Type 0 where
  too_small_for_header header_basic_invalid payload_len_too_large size_mismatch : PacketViewError

-- PacketViewResult: a view, or why there is none.
pub data PacketViewResult : Type 0 where
  view : (header : PacketHeader) (payload : List ℕ) → PacketViewResult
  failed : PacketViewError → PacketViewResult

-- make_packet_view: the same tests of shape, and no checksums.
unfoldable pub make_packet_view : List ℕ → PacketViewResult
make_packet_view bytes =
    let h = decode_header bytes in
    if ltb (length bytes) k_header_bytes
    then failed too_small_for_header
    else if not (header_basic_valid h)
    then failed header_basic_invalid
    else if ltb k_max_payload_bytes h.payload_len
    then failed payload_len_too_large
    else if not (length bytes == k_header_bytes + h.payload_len)
    then failed size_mismatch
    else view h (drop k_header_bytes bytes)
