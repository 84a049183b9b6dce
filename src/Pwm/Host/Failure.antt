-- ===== src/Pwm/Host/Failure.antt =====
-- What a failed send leaves behind.
use mathlib.Core.Path.{subst}
use orange_pi_stm32_for_rov.Prelude.{
  ℕ, ◌+◌, ◌≡◌, refl, sym, ap, ◌∙◌, true, false, if_true, if_false, some, List, [], ◌∷◌, length,
  length-append, u16, u64, arith,
}
use orange_pi_stm32_for_rov.Pwm.Frame.Wire.{v1_frame, channels, length-channels}
use orange_pi_stm32_for_rov.Pwm.Frame.Fields.{length-followed}
use orange_pi_stm32_for_rov.Pwm.Host.{
  esys, enotinit, PwmHost, Sent, SendEnv, without, hand_over, count_tx_err, all_sent, v1_pack,
  v1_send_frame,
}
use orange_pi_stm32_for_rov.Pwm.Host.Send.{
  clamp_values, payload_of_values, count_pwm, send_values, pwm_host_set_all_u16,
}
use orange_pi_stm32_for_rov.Pwm.Host.Frames.{payload_of_values-channels, v1_pack-v1_frame}

frame_length :
    (seq ticks : ℕ) (payload : List ℕ)
    → length payload ≡ 16
    → length (v1_frame 0x01 seq ticks payload) ≡ 30
frame_length seq ticks payload l = omega (
  arith,
  length-followed 0x01 seq ticks payload [],
  length-append (v1_frame 0x01 seq ticks payload) [],
)

-- The frame is packed, the socket does not take it.
failed_send_frame :
    (env : SendEnv) (h : PwmHost) (payload : List ℕ)
    → h.sock_open ≡ true
    → length payload ≡ 16
    → all_sent env.sent 30 ≡ false
    → v1_send_frame env h 0x01 payload ≡ record {
      result = esys;
      host = count_tx_err (record h { seq = u16 (h.seq + 1) });
      datagrams = v1_frame 0x01 (u16 (h.seq + 1)) env.ticks payload ∷ [];
    }
unfolding v1_send_frame
failed_send_frame env h payload o l f =
    let n = u16 (h.seq + 1) in
    let frame = v1_frame 0x01 n env.ticks payload in
    if_true h.sock_open (hand_over env h (v1_pack h 0x01 payload 30 env.ticks)) (without enotinit h)
      o
    ∙ ap (hand_over env h) (v1_pack-v1_frame h 0x01 env.ticks payload (omega arith))
    ∙ if_false (all_sent env.sent (length frame)) _ _
        (ap (all_sent env.sent) (frame_length n env.ticks payload l) ∙ f)

-- When the socket does not take the whole frame, pwm_host_set_all_u16 reports PWMH_ESYS, does not
-- count a PWM frame, and has nevertheless replaced the shadow and taken a sequence number; and the one
-- failure is counted as two errors.
pub failed_set_all_u16 :
    (env : SendEnv) (h : PwmHost) (v : List ℕ)
    → h.sock_open ≡ true
    → length v ≡ 8
    → all_sent env.sent 30 ≡ false
    → let s = pwm_host_set_all_u16 env (some v) h in
      (s.result ≡ esys)
      × (s.host.shadow ≡ clamp_values v)
      × (s.host.seq ≡ u16 (h.seq + 1))
      × (s.host.stats.tx_pwm ≡ h.stats.tx_pwm)
      × (s.host.stats.tx_err ≡ u64 (u64 (h.stats.tx_err + 1) + 1))
unfolding pwm_host_set_all_u16
failed_set_all_u16 env h v o l f =
    let vs = clamp_values v in
    let h1 = record h { shadow = vs } in
    let payload : payload_of_values vs ≡ channels v = payload_of_values-channels v in
    let size : length (payload_of_values vs) ≡ 16 = rw payload (omega (arith, length-channels v)) in
    let e = failed_send_frame env h1 (payload_of_values vs) o size f in
    let whole : pwm_host_set_all_u16 env (some v) h ≡ _ =
      if_true h.sock_open (send_values env v h) (without enotinit h) o
      ∙ ap (λ (s : Sent). record s { host = count_pwm s.result s.host }) e in
    subst
      (λ (s : Sent).
        (s.result ≡ esys)
        × (s.host.shadow ≡ vs)
        × (s.host.seq ≡ u16 (h.seq + 1))
        × (s.host.stats.tx_pwm ≡ h.stats.tx_pwm)
        × (s.host.stats.tx_err ≡ u64 (u64 (h.stats.tx_err + 1) + 1)))
      (sym whole) (refl, refl, refl, refl, refl)
