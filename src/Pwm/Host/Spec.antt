-- ===== src/Pwm/Host/Spec.antt =====
-- What a client of libpwm_host.c is promised: the latest value of each channel, and one message for
-- each command that is accepted. No sequence numbers, counters, buffers or socket.
use orange_pi_stm32_for_rov.Prelude.{
  ℕ, ◌+◌, Option, none, some, List, [], ◌∷◌, ◌++◌, u16, ℤ, length, ◌≡◌,
}
use orange_pi_stm32_for_rov.Pwm.Float.{SingleOps}
use orange_pi_stm32_for_rov.Pwm.Frame.{build_pwm_cmd_frame_v1, build_heartbeat_frame_v1}
use orange_pi_stm32_for_rov.Pwm.Host.{ok, PwmHost, Sent, SendEnv, without}
use orange_pi_stm32_for_rov.Pwm.Host.Send.{
  clamp_values, channel_index, some_values, with_channel, pwm_host_set_all_u16,
  pwm_host_set_all_pct, pwm_host_set_ch_pct, pwm_host_send_heartbeat,
}
use orange_pi_stm32_for_rov.Pwm.Host.Poll.{Selected, pwm_host_poll}

pub data HostCommand (F : Type 0) : Type 0 where
  cmd_all_u16 : SendEnv → Option (List ℕ) → HostCommand F
  cmd_all_pct : SendEnv → Option (List F) → HostCommand F
  cmd_channel : SendEnv → ℤ → F → HostCommand F
  cmd_heartbeat : SendEnv → (now_ms : ℕ) → HostCommand F
  cmd_poll : Selected → HostCommand F

-- A message and the clock when it is packed.
pub data Message : Type 0 where
  drive : (ticks : ℕ) → List ℕ → Message
  beat : (ticks : ℕ) → Message

-- The frame of a message under a sequence number, as the C++ builder makes it.
abbrev pub message_frame : ℕ → Message → List ℕ
message_frame seq (drive ticks vs) = build_pwm_cmd_frame_v1 vs seq ticks
message_frame seq (beat ticks) = build_heartbeat_frame_v1 seq ticks

-- The frames of the messages, numbered from the one behind `seq` on.
unfoldable pub numbered : ℕ → List Message → List (List ℕ)
numbered seq [] = []
numbered seq (m ∷ ms) = let n = u16 (seq + 1) in message_frame n m ∷ numbered n ms

-- The last number that was given.
unfoldable pub last_number : ℕ → List Message → ℕ
last_number seq [] = seq
last_number seq (m ∷ ms) = last_number (u16 (seq + 1)) ms

-- An array of C has its eight elements.
abbrev pub IsArray {ℓ} : {A : Type ℓ} → Option (List A) → Type 0
IsArray none = Unit {0}
IsArray (some xs) = length xs ≡ 8

abbrev pub drive_all : SendEnv → Option (List ℕ) → List ℕ → List ℕ × List Message
drive_all env none values = (values, [])
drive_all env (some v) values = (clamp_values v, drive env.ticks (clamp_values v) ∷ [])

module _ {F : Type 0} (O : SingleOps F) where
  abbrev pub IsCommand : HostCommand F → Type 0
  IsCommand (cmd_all_u16 env values) = IsArray values
  IsCommand (cmd_all_pct env pct) = IsArray pct
  IsCommand (cmd_channel env ch pct) = Unit {0}
  IsCommand (cmd_heartbeat env now_ms) = Unit {0}
  IsCommand (cmd_poll selected) = Unit {0}

  abbrev pub AreCommands : List (HostCommand F) → Type 0
  AreCommands [] = Unit {0}
  AreCommands (c ∷ cs) = IsCommand c × AreCommands cs

  -- The new values of the channels, and the message.
  unfoldable pub spec_step : HostCommand F → List ℕ → List ℕ × List Message
  spec_step (cmd_all_u16 env v) values = drive_all env v values
  spec_step (cmd_all_pct env pct) values = drive_all env (some_values O pct) values
  spec_step (cmd_channel env ch pct) values =
      drive_all env (with_channel O (channel_index ch) pct values) values
  spec_step (cmd_heartbeat env now_ms) values = (values, beat env.ticks ∷ [])
  spec_step (cmd_poll selected) values = (values, [])

  unfoldable pub spec_run : List (HostCommand F) → List ℕ → List ℕ × List Message
  spec_run [] values = (values, [])
  spec_run (c ∷ cs) values =
      let (values', ms) = spec_step c values in
      let (last, rest) = spec_run cs values' in (last, ms ++ rest)

  -- The code.
  unfoldable pub execute : HostCommand F → PwmHost → Sent
  execute (cmd_all_u16 env v) h = pwm_host_set_all_u16 env v h
  execute (cmd_all_pct env pct) h = pwm_host_set_all_pct O env pct h
  execute (cmd_channel env ch pct) h = pwm_host_set_ch_pct O env ch pct h
  execute (cmd_heartbeat env now_ms) h = pwm_host_send_heartbeat env now_ms h
  execute (cmd_poll selected) h = without ok (pwm_host_poll selected h).1

  unfoldable pub run_host : List (HostCommand F) → PwmHost → PwmHost × List (List ℕ)
  run_host [] h = (h, [])
  run_host (c ∷ cs) h =
      let s = execute c h in let (h', rest) = run_host cs s.host in (h', s.datagrams ++ rest)
