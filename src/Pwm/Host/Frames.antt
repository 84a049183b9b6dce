-- ===== src/Pwm/Host/Frames.antt =====
-- The three packers of orangepi_send make the same frames.
use orange_pi_stm32_for_rov.Prelude.{
  ℕ, ◌+◌, ◌≤◌, ◌≡◌, refl, ap, none, some, List, [], ◌∷◌, ◌++◌, length, ltb, if◌then◌else◌, u16,
  arith,
}
use orange_pi_stm32_for_rov.Pwm.Crc16.{crc16_ccitt, crc16_ccitt_false}
use orange_pi_stm32_for_rov.Pwm.Bytes.{be16}
use orange_pi_stm32_for_rov.Pwm.Frame.{build_pwm_cmd_frame_v1, build_heartbeat_frame_v1}
use orange_pi_stm32_for_rov.Pwm.Frame.Wire.{
  v1_frame, channels, length-channels, build_pwm_cmd_frame_v1-v1_frame,
  build_heartbeat_frame_v1-v1_frame,
}
use orange_pi_stm32_for_rov.Pwm.Pack.{
  limit, pack_channels, protocol_pack_pwm, protocol_pack_heartbeat,
}
use orange_pi_stm32_for_rov.Pwm.Host.{PwmHost, v1_pack}
use orange_pi_stm32_for_rov.Pwm.Host.Send.{clamp_value, clamp_values, payload_of_values}

pub payload_of_values-channels : (vs : List ℕ) → payload_of_values (clamp_values vs) ≡ channels vs
payload_of_values-channels [] = refl
payload_of_values-channels (v ∷ vs) =
    ap (λ t. be16 (clamp_value v) ++ t) (payload_of_values-channels vs)

pack_channels-channels : (vs : List ℕ) → pack_channels vs ≡ channels vs
pack_channels-channels [] = refl
pack_channels-channels (v ∷ vs) = ap (λ t. be16 (limit v) ++ t) (pack_channels-channels vs)

-- The C library's frame.
pub v1_pack-v1_frame :
    (h : PwmHost) (msg ticks : ℕ) (payload : List ℕ)
    → length payload ≤ 16
    → v1_pack h msg payload 30 ticks
      ≡ some (record h { seq = u16 (h.seq + 1) }, v1_frame msg (u16 (h.seq + 1)) ticks payload)
unfolding v1_pack v1_frame crc16_ccitt crc16_ccitt_false
v1_pack-v1_frame h msg ticks payload l = ground arith

-- The frame of protocol_pack.c, where the buffer is large enough.
pack_pwm-v1_frame :
    (seq cap ticks : ℕ) (vs : List ℕ)
    → length vs ≡ 8
    → protocol_pack_pwm seq (some vs) cap ticks ≡ (
        if ltb cap 30
        then (none, seq)
        else (some (v1_frame 0x01 seq ticks (channels vs)), u16 (seq + 1)))
unfolding protocol_pack_pwm v1_frame
pack_pwm-v1_frame seq cap ticks vs l =
    let len : length (channels vs) ≡ 16 = omega (arith, length-channels vs) in
    rw (len, pack_channels-channels vs) refl

pack_heartbeat-v1_frame :
    (seq cap ticks : ℕ)
    → protocol_pack_heartbeat seq cap ticks
      ≡ (if ltb cap 14 then (none, seq) else (some (v1_frame 0x10 seq ticks []), u16 (seq + 1)))
unfolding protocol_pack_heartbeat v1_frame
pack_heartbeat-v1_frame seq cap ticks = refl

-- From the same eight channels, sequence number and clock, the packer of protocol_pack.c, the one of
-- libpwm_host.c (which counts before it packs) and the C++ builder give the same PWM frame, and so
-- for heartbeats; both counters go on by one modulo 2^16. protocol_pack.c returns false,
-- and takes no number, exactly when its buffer is shorter than the frame: 30 and 14 bytes.
pub packers_agree :
    (h : PwmHost) (vs : List ℕ) (cap ticks : ℕ)
    → length vs ≡ 8
    → let n = u16 (h.seq + 1) in
      let h' = record h { seq = n } in
      (v1_pack h 0x01 (payload_of_values (clamp_values vs)) 30 ticks
        ≡ some (h', build_pwm_cmd_frame_v1 vs n ticks))
      × (v1_pack h 0x10 [] 30 ticks ≡ some (h', build_heartbeat_frame_v1 n ticks))
      × (protocol_pack_pwm h.seq (some vs) cap ticks ≡ (
          if ltb cap 30 then (none, h.seq) else (some (build_pwm_cmd_frame_v1 vs h.seq ticks), n)))
      × (protocol_pack_heartbeat h.seq cap ticks ≡ (
          if ltb cap 14 then (none, h.seq) else (some (build_heartbeat_frame_v1 h.seq ticks), n)))
packers_agree h vs cap ticks l =
    let n = u16 (h.seq + 1) in
    let payload : payload_of_values (clamp_values vs) ≡ channels vs =
      payload_of_values-channels vs in
    let size : length (channels vs) ≤ 16 = omega (arith, length-channels vs) in
    (
      rw (payload, build_pwm_cmd_frame_v1-v1_frame vs n ticks l)
          (v1_pack-v1_frame h 0x01 ticks (channels vs) size),
      rw (build_heartbeat_frame_v1-v1_frame n ticks)
          (v1_pack-v1_frame h 0x10 ticks [] (omega arith)),
      rw (build_pwm_cmd_frame_v1-v1_frame vs h.seq ticks l)
          (pack_pwm-v1_frame h.seq cap ticks vs l),
      rw (build_heartbeat_frame_v1-v1_frame h.seq ticks) (pack_heartbeat-v1_frame h.seq cap ticks),
    )
