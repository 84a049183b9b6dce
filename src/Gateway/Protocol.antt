-- ===== src/Gateway/Protocol.antt =====
-- proto_gcs/include/proto_gcs/gcs_protocol.hpp: the GCS wire format. Fields are numbers; a header is
-- in range when each fits its unsigned type. Payload structs travel as their bytes.
use orange_pi_stm32_for_rov.Prelude.{
  ℕ, ◌^◌, ◌<◌, Bool, true, false, not, ◌≡◌, Option, none, some, is_some, List, [], ◌∷◌, ◌++◌,
  length, All, get_or, ltb, ◌==◌, if◌then◌else◌, arith,
}
use orange_pi_stm32_for_rov.Gateway.Bytes.{
  IsByte, encode_fields, decode_fields, decode_fields-encode_fields, length-encode_fields,
  encode_fields-IsByte,
}
use orange_pi_stm32_for_rov.Gateway.Crc32c.{crc32c}

abbrev pub k_magic : ℕ
k_magic = 0x524F5647

abbrev pub k_proto_version : ℕ
k_proto_version = 1

abbrev pub k_max_payload_bytes : ℕ
k_max_payload_bytes = 1024

abbrev pub k_header_bytes : ℕ
k_header_bytes = 48

abbrev pub flag_ack_req : ℕ
flag_ack_req = 1

abbrev pub flag_is_ack : ℕ
flag_is_ack = 2

pub data MsgType : Type 0 where
  connect_req connect_ack connect_confirm heartbeat : MsgType
  set_mode set_dof_cmd estop arm motor_test dvl_policy : MsgType
  status ack : MsgType

abbrev pub msg_type_value : MsgType → ℕ
msg_type_value connect_req = 1
msg_type_value connect_ack = 2
msg_type_value connect_confirm = 3
msg_type_value heartbeat = 10
msg_type_value set_mode = 20
msg_type_value set_dof_cmd = 21
msg_type_value estop = 22
msg_type_value arm = 23
msg_type_value motor_test = 24
msg_type_value dvl_policy = 25
msg_type_value status = 40
msg_type_value ack = 250

-- static_cast<MsgType>, none for a value without enumerator.
unfoldable pub msg_type_of : ℕ → Option MsgType
msg_type_of n =
    if n == 1
    then some connect_req
    else if n == 2
    then some connect_ack
    else if n == 3
    then some connect_confirm
    else if n == 10
    then some heartbeat
    else if n == 20
    then some set_mode
    else if n == 21
    then some set_dof_cmd
    else if n == 22
    then some estop
    else if n == 23
    then some arm
    else if n == 24
    then some motor_test
    else if n == 25
    then some dvl_policy
    else if n == 40
    then some status
    else if n == 250
    then some ack
    else none

unfoldable pub msg_type_known : ℕ → Bool
msg_type_known n = is_some (msg_type_of n)

pub data AckCode : Type 0 where
  ok bad_format crc_fail invalid_session seq_old_or_dup not_supported runtime_error : AckCode

abbrev pub ack_code_value : AckCode → ℕ
ack_code_value ok = 0
ack_code_value bad_format = 1
ack_code_value crc_fail = 2
ack_code_value invalid_session = 3
ack_code_value seq_old_or_dup = 4
ack_code_value not_supported = 5
ack_code_value runtime_error = 6

pub record PacketHeader : Type 0 where
  pub magic : ℕ
  pub version : ℕ
  pub msg_type : ℕ
  pub reserved0 : ℕ
  pub flags : ℕ
  pub reserved1 : ℕ
  pub seq : ℕ
  pub session_id : ℕ
  pub payload_len : ℕ
  pub ack_seq : ℕ
  pub send_time_ms : ℕ
  pub reserved2 : ℕ
  pub header_crc32c : ℕ
  pub payload_crc32c : ℕ

-- Every field fits its type.
pub record IsInRange (h : PacketHeader) : Type 0 where
  pub magic : h.magic < 256 ^ 4
  pub version : h.version < 256 ^ 2
  pub msg_type : h.msg_type < 256 ^ 1
  pub reserved0 : h.reserved0 < 256 ^ 1
  pub flags : h.flags < 256 ^ 2
  pub reserved1 : h.reserved1 < 256 ^ 2
  pub seq : h.seq < 256 ^ 4
  pub session_id : h.session_id < 256 ^ 8
  pub payload_len : h.payload_len < 256 ^ 4
  pub ack_seq : h.ack_seq < 256 ^ 4
  pub send_time_ms : h.send_time_ms < 256 ^ 4
  pub reserved2 : h.reserved2 < 256 ^ 4
  pub header_crc32c : h.header_crc32c < 256 ^ 4
  pub payload_crc32c : h.payload_crc32c < 256 ^ 4

-- The packed layout: the width of each field, in order.
abbrev pub header_layout : List ℕ
header_layout = 4 ∷ 2 ∷ 1 ∷ 1 ∷ 2 ∷ 2 ∷ 4 ∷ 8 ∷ 4 ∷ 4 ∷ 4 ∷ 4 ∷ 4 ∷ 4 ∷ []

abbrev pub header_fields : PacketHeader → List (ℕ × ℕ)
header_fields h =
    (4, h.magic)
    ∷ (2, h.version)
    ∷ (1, h.msg_type)
    ∷ (1, h.reserved0)
    ∷ (2, h.flags)
    ∷ (2, h.reserved1)
    ∷ (4, h.seq)
    ∷ (8, h.session_id)
    ∷ (4, h.payload_len)
    ∷ (4, h.ack_seq)
    ∷ (4, h.send_time_ms)
    ∷ (4, h.reserved2)
    ∷ (4, h.header_crc32c)
    ∷ (4, h.payload_crc32c)
    ∷ []

abbrev header_of : List ℕ → PacketHeader
header_of vs = record {
  magic = get_or vs 0 0;
  version = get_or vs 1 0;
  msg_type = get_or vs 2 0;
  reserved0 = get_or vs 3 0;
  flags = get_or vs 4 0;
  reserved1 = get_or vs 5 0;
  seq = get_or vs 6 0;
  session_id = get_or vs 7 0;
  payload_len = get_or vs 8 0;
  ack_seq = get_or vs 9 0;
  send_time_ms = get_or vs 10 0;
  reserved2 = get_or vs 11 0;
  header_crc32c = get_or vs 12 0;
  payload_crc32c = get_or vs 13 0;
}

-- The 48 bytes of the packed struct.
unfoldable pub encode_header : PacketHeader → List ℕ
encode_header h = encode_fields (header_fields h)

-- memcpy of the first 48 bytes into a header.
unfoldable pub decode_header : List ℕ → PacketHeader
decode_header bs = header_of (decode_fields header_layout bs)

unfoldable pub header_zero_crc : PacketHeader → PacketHeader
header_zero_crc h = record h { header_crc32c = 0; payload_crc32c = 0 }

unfoldable pub calc_header_crc : PacketHeader → ℕ
calc_header_crc h = crc32c (encode_header (header_zero_crc h))

unfoldable pub header_basic_valid : PacketHeader → Bool
header_basic_valid h =
    if not (h.magic == k_magic)
    then false
    else if not (h.version == k_proto_version)
    then false
    else if not (msg_type_known h.msg_type)
    then false
    else if ltb k_max_payload_bytes h.payload_len
    then false
    else true

pub decode_header-encode_header :
    (h : PacketHeader) (rest : List ℕ) → IsInRange h → decode_header (encode_header h ++ rest) ≡ h
unfolding decode_header encode_header
decode_header-encode_header h rest r =
    rw (decode_fields-encode_fields (header_fields h) rest (omega arith))

pub length-encode_header : (h : PacketHeader) → length (encode_header h) ≡ 48
unfolding encode_header
length-encode_header h = length-encode_fields (header_fields h)

pub encode_header-IsByte : (h : PacketHeader) → All IsByte (encode_header h)
unfolding encode_header
encode_header-IsByte h = encode_fields-IsByte (header_fields h)

-- A value is a message type exactly if it is the value of an enumerator.
pub msg_type_of-msg_type_value : (m : MsgType) → msg_type_of (msg_type_value m) ≡ some m
unfolding msg_type_of
msg_type_of-msg_type_value m = ground arith
