-- ===== src/Pwm/Frame.antt =====
-- orangepi_send/src/PwmFrameBuilder.cpp and orangepi_send/include/PwmFrameBuilder.h: building and
-- parsing frames of protocol v1. An array of 8 values is a list of 8; a buffer is a list of bytes.
pub mod Wire
pub mod Parse
pub mod Fields
pub mod Accept
pub mod Exact
use orange_pi_stm32_for_rov.Prelude.{
  ℕ, ◌+◌, ◌*◌, Bool, true, false, not, ◌||◌, Option, none, some, List, [], ◌∷◌, ◌++◌, length,
  get_or, take, drop, ltb, leb, ◌==◌, if◌then◌else◌,
}
use orange_pi_stm32_for_rov.Pwm.Crc16.{compute}
use orange_pi_stm32_for_rov.Pwm.Bytes.{be16, be32, read_u16_be, read_u32_be}

abbrev pub k_proto_ver_v1 : ℕ
k_proto_ver_v1 = 0x01

abbrev pub k_sof : ℕ
k_sof = 0xAA55

abbrev pub k_pwm_channel_count : ℕ
k_pwm_channel_count = 8

abbrev pub k_pwm_max_value : ℕ
k_pwm_max_value = 10000

abbrev pub k_min_frame_len_v1 : ℕ
k_min_frame_len_v1 = 14

pub data MsgId : Type 0 where
  pwm_cmd : MsgId
  heartbeat : MsgId
  heartbeat_ack : MsgId
  status : MsgId

abbrev pub msg_id_value : MsgId → ℕ
msg_id_value pwm_cmd = 0x01
msg_id_value heartbeat = 0x10
msg_id_value heartbeat_ack = 0x11
msg_id_value status = 0x20

abbrev pub has_min_header_v1 : List ℕ → Bool
has_min_header_v1 frame = leb k_min_frame_len_v1 (length frame)

abbrev pub push_back : List ℕ → ℕ → List ℕ
push_back buf b = buf ++ b ∷ []

abbrev pub append_u16_be : List ℕ → ℕ → List ℕ
append_u16_be buf v = buf ++ be16 v

abbrev pub append_u32_be : List ℕ → ℕ → List ℕ
append_u32_be buf v = buf ++ be32 v

abbrev pub clamp_pwm : ℕ → ℕ
clamp_pwm v = if ltb k_pwm_max_value v then k_pwm_max_value else v

-- The loop over the channels.
unfoldable pub append_channels : List ℕ → List ℕ → List ℕ
append_channels buf [] = buf
append_channels buf (v ∷ vs) = append_channels (append_u16_be buf (clamp_pwm v)) vs

-- The start of frame and the header; VER stands at offset 2.
abbrev pub begin_frame : MsgId → ℕ → ℕ → ℕ → List ℕ
begin_frame msg seq ticks_ms len =
    let buf = append_u16_be [] k_sof in
    let buf = push_back buf k_proto_ver_v1 in
    let buf = push_back buf (msg_id_value msg) in
    let buf = append_u16_be buf seq in let buf = append_u32_be buf ticks_ms in append_u16_be buf len

-- The checksum of everything from VER on, appended.
abbrev pub end_frame : List ℕ → List ℕ
end_frame buf = append_u16_be buf (compute (drop 2 buf))

-- validatePwmArray accepts every array, so nothing is thrown.
unfoldable pub build_pwm_cmd_frame_v1 : List ℕ → ℕ → ℕ → List ℕ
build_pwm_cmd_frame_v1 pwm_values seq ticks_ms =
    end_frame
      (append_channels (begin_frame pwm_cmd seq ticks_ms (k_pwm_channel_count * 2)) pwm_values)

unfoldable pub build_heartbeat_frame_v1 : ℕ → ℕ → List ℕ
build_heartbeat_frame_v1 seq ticks_ms = end_frame (begin_frame heartbeat seq ticks_ms 0)

unfoldable pub looks_like_v1_frame : List ℕ → Bool
looks_like_v1_frame frame =
    if not (has_min_header_v1 frame)
    then false
    else if not (read_u16_be frame 0 == k_sof)
    then false
    else (get_or frame 2 0 == k_proto_ver_v1)

-- The tests that parseHeartbeatAckV1 and parseStatusV1 share, in their order: none when one fails,
-- else the LEN field.
unfoldable pub checked_len : MsgId → List ℕ → Option ℕ
checked_len msg frame =
    if not (has_min_header_v1 frame)
    then none
    else if not (read_u16_be frame 0 == k_sof)
    then none
    else if not (get_or frame 2 0 == k_proto_ver_v1)
    then none
    else if not (get_or frame 3 0 == msg_id_value msg)
    then none
    else let len = read_u16_be frame 10 in
      if not (length frame == 14 + len)
      then none
      else if not (compute (take (10 + len) (drop 2 frame)) == read_u16_be frame (12 + len))
      then none
      else some len

-- none stands for false, where both outputs are left 0.
unfoldable pub parse_heartbeat_ack_v1 : List ℕ → Option (ℕ × ℕ)
parse_heartbeat_ack_v1 frame = elim (checked_len heartbeat_ack frame) [
  | none ↦ none
  | some len ↦ some (read_u16_be frame 4, read_u32_be frame 6)
]

-- The payload of a status frame.
unfoldable pub parse_status_v1 : List ℕ → Option (List ℕ)
parse_status_v1 frame = elim (checked_len status frame) [
  | none ↦ none
  | some len ↦ some (take len (drop 12 frame))
]
