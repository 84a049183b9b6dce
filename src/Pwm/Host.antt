-- ===== src/Pwm/Host.antt =====
-- orangepi_send/src/libpwm_host.c and orangepi_send/include/libpwm_host.h: the state of the library
-- and frames. The socket's results and the clock's readings are arguments.
pub mod Life
pub mod Send
pub mod Poll
pub mod Ramp
pub mod Frames
pub mod Spec
pub mod Follows
pub mod Refine
pub mod Ack
pub mod Rtt
pub mod Failure
use orange_pi_stm32_for_rov.Prelude.{
  ℕ, zero, suc, ◌+◌, Bool, true, false, Option, none, some, String, List, [], ◌∷◌, ◌++◌, length,
  get_or, drop, take, ltb, not, ◌&&◌, ◌-◌, ◌==◌, if◌then◌else◌, u16, u64,
}
use orange_pi_stm32_for_rov.Pwm.Crc16.{crc16_ccitt_false}
use orange_pi_stm32_for_rov.Pwm.Bytes.{be16, be32, read_u16_be, read_u32_be}

abbrev pub ch_num : ℕ
ch_num = 8

abbrev pub val_mid : ℕ
val_mid = 5000

abbrev pub val_max : ℕ
val_max = 10000

abbrev pub rx_buf_size : ℕ
rx_buf_size = 256

pub data PwmhResult : Type 0 where
  ok einval enotinit esys ebusy einternal : PwmhResult

pub record HostStats : Type 0 where
  pub tx_pwm : ℕ
  pub tx_hb : ℕ
  pub rx_hb_ack : ℕ
  pub tx_err : ℕ
  pub rx_err : ℕ

-- The static variables. `last_rtt_ms` is none for -1.0; a round trip is a whole number of milliseconds.
pub record PwmHost : Type 0 where
  pub sock_open : Bool  -- s_sock >= 0
  pub addr : String × ℕ  -- s_addr, which only an open socket uses
  pub seq : ℕ
  pub shadow : List ℕ
  pub send_hz : ℕ
  pub nonblock_send : Bool
  pub stats : HostStats
  pub last_rtt_ms : Option ℕ
  pub last_hb_seq : ℕ
  pub last_hb_send_ticks : ℕ

abbrev pub zero_stats : HostStats
zero_stats = record { tx_pwm = 0; tx_hb = 0; rx_hb_ack = 0; tx_err = 0; rx_err = 0 }

-- What an operation returns: the code, the state, and the datagrams given to the socket.
pub record Sent : Type 0 where
  pub result : PwmhResult
  pub host : PwmHost
  pub datagrams : List (List ℕ)

-- The clock when the frame is packed, and what sendto returns once it is not interrupted (none for
-- an error).
pub record SendEnv : Type 0 where
  pub ticks : ℕ
  pub sent : Option ℕ

abbrev pub without : PwmhResult → PwmHost → Sent
without rc h = record { result = rc; host = h; datagrams = [] }

abbrev pub count_tx_err : PwmHost → PwmHost
count_tx_err h = record h { stats = record h.stats { tx_err = u64 (h.stats.tx_err + 1) } }

abbrev pub count_rx_err : PwmHost → PwmHost
count_rx_err h = record h { stats = record h.stats { rx_err = u64 (h.stats.rx_err + 1) } }

-- SOF, VER, MSG, SEQ, TICKS, LEN and the payload.
abbrev pub packed : (msg_id seq ticks : ℕ) → List ℕ → List ℕ
packed msg_id seq ticks payload =
    0xAA ∷ 0x55 ∷ 0x01 ∷ msg_id ∷ be16 seq ++ be32 ticks ++ be16 (length payload) ++ payload

-- none stands for PWMH_EINVAL, where the sequence number is not taken.
unfoldable pub v1_pack :
    PwmHost → (msg_id : ℕ) → List ℕ → (out_cap ticks : ℕ) → Option (PwmHost × List ℕ)
v1_pack h msg_id payload out_cap ticks =
    if ltb out_cap (u16 (12 + length payload + 2))
    then none
    else let seq = u16 (h.seq + 1) in
      let out = packed msg_id seq ticks payload in
      some (record h { seq = seq }, out ++ be16 (crc16_ccitt_false (drop 2 out)))

abbrev pub all_sent : Option ℕ → ℕ → Bool
all_sent none n = false
all_sent (some k) n = k == n

-- What follows packing: a frame goes to the socket, and counts as sent when all of it is taken.
abbrev pub hand_over : SendEnv → PwmHost → Option (PwmHost × List ℕ) → Sent
hand_over env h none = without einval h
hand_over env h (some (h', frame)) =
    if all_sent env.sent (length frame)
    then record { result = ok; host = h'; datagrams = frame ∷ [] }
    else record { result = esys; host = count_tx_err h'; datagrams = frame ∷ [] }

-- The buffer on the stack holds the largest frame, 30 bytes.
unfoldable pub v1_send_frame : SendEnv → PwmHost → (msg_id : ℕ) → List ℕ → Sent
v1_send_frame env h msg_id payload =
    if h.sock_open
    then hand_over env h (v1_pack h msg_id payload 30 env.ticks)
    else without enotinit h

-- The number of bytes that the acknowledgement takes is the third component; none stands for 0.
unfoldable pub v1_try_parse_hb_ack : List ℕ → Option (ℕ × ℕ × ℕ)
v1_try_parse_hb_ack buf =
    if ltb (length buf) 14
    then none
    else if not (get_or buf 0 0 == 0xAA && get_or buf 1 0 == 0x55)
    then none
    else if not (get_or buf 2 0 == 0x01 && get_or buf 3 0 == 0x11)
    then none
    else let payload_len = read_u16_be buf 10 in
      let frame_len = 12 + payload_len + 2 in
      if ltb (length buf) frame_len
      then none
      else if not (
          read_u16_be buf (frame_len - 2)
          == crc16_ccitt_false (take (u16 (10 + payload_len)) (drop 2 buf)))
      then none
      else some (read_u16_be buf 4, read_u32_be buf 6, frame_len)
