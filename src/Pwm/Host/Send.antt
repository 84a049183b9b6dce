-- ===== src/Pwm/Host/Send.antt =====
-- libpwm_host.c: conversions between percent and protocol values, and the operations that send.
use orange_pi_stm32_for_rov.Prelude.{
  set_at, ℕ, zero, suc, ◌+◌, Option, none, some, List, [], ◌∷◌, ◌++◌, ltb, if◌then◌else◌, u16, u64,
  ℤ, pos, negsuc, clamp_ℤ,
}
use orange_pi_stm32_for_rov.Pwm.Bytes.{be16}
use orange_pi_stm32_for_rov.Pwm.Float.{SingleOps}
use orange_pi_stm32_for_rov.Pwm.Host.{
  PwmhResult, ok, einval, enotinit, PwmHost, Sent, SendEnv, without, count_tx_err, v1_send_frame,
  ch_num, val_max,
}

abbrev pub clamp_value : ℕ → ℕ
clamp_value v = if ltb val_max v then val_max else v

abbrev pub clamp_values : List ℕ → List ℕ
clamp_values [] = []
clamp_values (v ∷ vs) = clamp_value v ∷ clamp_values vs

abbrev pub payload_of_values : List ℕ → List ℕ
payload_of_values [] = []
payload_of_values (v ∷ vs) = be16 v ++ payload_of_values vs

abbrev pub count_tx_pwm : PwmHost → PwmHost
count_tx_pwm h = record h { stats = record h.stats { tx_pwm = u64 (h.stats.tx_pwm + 1) } }

abbrev pub count_pwm : PwmhResult → PwmHost → PwmHost
count_pwm ok h = count_tx_pwm h
count_pwm _ h = count_tx_err h

-- The shadow is overwritten before the frame is sent.
abbrev pub send_values : SendEnv → List ℕ → PwmHost → Sent
send_values env v h =
    let vs = clamp_values v in
    let s = v1_send_frame env (record h { shadow = vs }) 0x01 (payload_of_values vs) in
    record s { host = count_pwm s.result s.host }

-- none stands for a null pointer.
abbrev pub send_if_given : SendEnv → Option (List ℕ) → PwmHost → Sent
send_if_given env none h = without einval h
send_if_given env (some v) h = send_values env v h

unfoldable pub pwm_host_set_all_u16 : SendEnv → Option (List ℕ) → PwmHost → Sent
pwm_host_set_all_u16 env values h =
    if h.sock_open then send_if_given env values h else without enotinit h

abbrev pub count_heartbeat : (next_seq now_ms : ℕ) → PwmhResult → PwmHost → PwmHost
count_heartbeat next_seq now_ms ok h = record h {
  stats = record h.stats { tx_hb = u64 (h.stats.tx_hb + 1) };
  last_hb_seq = next_seq;
  last_hb_send_ticks = now_ms;
}
count_heartbeat next_seq now_ms _ h = count_tx_err h

-- `now_ms` is the clock before the frame is packed.
unfoldable pub pwm_host_send_heartbeat : SendEnv → (now_ms : ℕ) → PwmHost → Sent
pwm_host_send_heartbeat env now_ms h =
    if h.sock_open
    then (let s = v1_send_frame env h 0x10 [] in
        record s { host = count_heartbeat (u16 (h.seq + 1)) now_ms s.result s.host })
    else without enotinit h

-- The index of a channel from 1 to 8.
abbrev pub channel_index : ℤ → Option ℕ
channel_index (pos zero) = none
channel_index (pos (suc i)) = if ltb i ch_num then some i else none
channel_index (negsuc n) = none

module _ {F : Type 0} (O : SingleOps F) where
  open O use {lt, add, sub, mul, div, lit, of_nat, trunc}

  abbrev pub pct_min : F
  pct_min = lit 5 1

  abbrev pub pct_mid : F
  pct_mid = lit 75 10

  abbrev pub pct_max : F
  pct_max = lit 10 1

  unfoldable pub pwm_host_percent_to_u16 : F → ℕ
  pwm_host_percent_to_u16 pct =
      let pct = if lt pct pct_min then pct_min else pct in
      let pct = if lt pct_max pct then pct_max else pct in
      let norm = div (sub pct pct_min) (sub pct_max pct_min) in
      clamp_ℤ 0 val_max (trunc (add (mul norm (of_nat val_max)) (lit 5 10)))

  unfoldable pub pwm_host_u16_to_percent : ℕ → F
  pwm_host_u16_to_percent v =
      add pct_min (mul (sub pct_max pct_min) (div (of_nat (clamp_value v)) (of_nat val_max)))

  -- A negative percentage means the middle.
  abbrev pub percent_value : F → ℕ
  percent_value p = pwm_host_percent_to_u16 (if lt p (lit 0 1) then pct_mid else p)

  abbrev pub percent_values : List F → List ℕ
  percent_values [] = []
  percent_values (p ∷ ps) = percent_value p ∷ percent_values ps

  abbrev pub some_values : Option (List F) → Option (List ℕ)
  some_values none = none
  some_values (some ps) = some (percent_values ps)

  unfoldable pub pwm_host_set_all_pct : SendEnv → Option (List F) → PwmHost → Sent
  pwm_host_set_all_pct env pct h =
      if h.sock_open then pwm_host_set_all_u16 env (some_values pct) h else without enotinit h

  -- The shadow with one channel replaced, where there is such a channel.
  abbrev pub with_channel : Option ℕ → F → List ℕ → Option (List ℕ)
  with_channel none pct values = none
  with_channel (some i) pct values = some (set_at i (percent_value pct) values)

  -- A channel that does not exist is refused like a null pointer.
  unfoldable pub pwm_host_set_ch_pct : SendEnv → ℤ → F → PwmHost → Sent
  pwm_host_set_ch_pct env ch pct h =
      if h.sock_open
      then pwm_host_set_all_u16 env (with_channel (channel_index ch) pct h.shadow) h
      else without enotinit h
