-- ===== src/Pwm/Pack.antt =====
-- orangepi_send/src/protocol_pack.c: the packer of the host side. The static s_seq is passed and
-- returned; the clock's reading is an argument. `none` stands for the result false.
use orange_pi_stm32_for_rov.Prelude.{
  ℕ, ◌+◌, Option, none, some, List, [], ◌∷◌, ◌++◌, drop, ltb, if◌then◌else◌, u16,
}
use orange_pi_stm32_for_rov.Pwm.Crc16.{crc16_ccitt}
use orange_pi_stm32_for_rov.Pwm.Bytes.{be16, be32}

abbrev pub protocol_pack_init : ℕ
protocol_pack_init = 0

abbrev pub protocol_pack_set_seq : (seq : ℕ) → ℕ
protocol_pack_set_seq seq = seq

abbrev pub limit : ℕ → ℕ
limit v = if ltb 10000 v then 10000 else v

-- The loop over the channels, which writes two bytes for each.
abbrev pub pack_channels : List ℕ → List ℕ
pack_channels [] = []
pack_channels (v ∷ vs) = be16 (limit v) ++ pack_channels vs

-- `pwm8` none stands for a null pointer; the other two pointers are not null.
unfoldable pub protocol_pack_pwm :
    (s_seq : ℕ) (pwm8 : Option (List ℕ)) (out_cap ticks : ℕ) → Option (List ℕ) × ℕ
protocol_pack_pwm s_seq none out_cap ticks = (none, s_seq)
protocol_pack_pwm s_seq (some pwm8) out_cap ticks =
    let len : ℕ = 16 in
    if ltb out_cap (u16 (12 + len + 2))
    then (none, s_seq)
    else let out =
        0xAA ∷ 0x55 ∷ 0x01 ∷ 0x01 ∷ be16 s_seq ++ be32 ticks ++ be16 len ++ pack_channels pwm8 in
      (some (out ++ be16 (crc16_ccitt (drop 2 out))), u16 (s_seq + 1))

unfoldable pub protocol_pack_heartbeat : (s_seq out_cap ticks : ℕ) → Option (List ℕ) × ℕ
protocol_pack_heartbeat s_seq out_cap ticks =
    if ltb out_cap (u16 (12 + 2))
    then (none, s_seq)
    else let out = 0xAA ∷ 0x55 ∷ 0x01 ∷ 0x10 ∷ be16 s_seq ++ be32 ticks ++ be16 0 in
      (some (out ++ be16 (crc16_ccitt (drop 2 out))), u16 (s_seq + 1))
