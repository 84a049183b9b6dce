-- ===== src/Pwm/Host/Rtt.antt =====
-- The round-trip time that pwm_host_poll measures.
use orange_pi_stm32_for_rov.Prelude.{
  ℕ, ◌≤◌, ◌≡◌, ◌≢◌, ◌⊎◌, Option, some, List, [], ◌∷◌, length, All,
}
use orange_pi_stm32_for_rov.Gateway.Bytes.{IsByte}
use orange_pi_stm32_for_rov.Pwm.Host.{PwmHost, rx_buf_size}
use orange_pi_stm32_for_rov.Pwm.Host.Poll.{Receipt, recv_bytes, Selected, select_ready, sub_u32}
use orange_pi_stm32_for_rov.Pwm.Host.Ack.{IsAck}

-- What the socket hands over fits the buffer.
abbrev pub IsReceipt : Receipt → Type 0
IsReceipt (recv_bytes bytes now) = All IsByte bytes × (length bytes ≤ rx_buf_size)
IsReceipt _ = Unit {0}

abbrev pub AreReceipts : List Receipt → Type 0
AreReceipts [] = Unit {0}
AreReceipts (r ∷ rs) = IsReceipt r × AreReceipts rs

abbrev pub AreSelected : Selected → Type 0
AreSelected (select_ready rs) = AreReceipts rs
AreSelected _ = Unit {0}

-- A heartbeat was sent, the datagram acknowledges the last one, and the time is the difference of
-- the clock after it and the clock at sending.
abbrev pub Answers : (last_seq sent : ℕ) → Option ℕ → Receipt → Type 0
Answers last_seq sent rtt (recv_bytes bytes now) =
    (ticks : ℕ) × (used : ℕ) × IsAck bytes last_seq ticks used
    × (sent ≢ 0)
    × (rtt ≡ some (sub_u32 now sent))
Answers last_seq sent rtt _ = ⊥

abbrev pub SomeAnswers : (last_seq sent : ℕ) → Option ℕ → List Receipt → Type 0
SomeAnswers last_seq sent rtt [] = ⊥
SomeAnswers last_seq sent rtt (r ∷ rs) =
    Answers last_seq sent rtt r ⊎ SomeAnswers last_seq sent rtt rs

abbrev pub AnyAnswers : (last_seq sent : ℕ) → Option ℕ → Selected → Type 0
AnyAnswers last_seq sent rtt (select_ready rs) = SomeAnswers last_seq sent rtt rs
AnyAnswers last_seq sent rtt _ = ⊥

-- What polling leaves of the heartbeat that it waits for.
abbrev Waits : PwmHost → PwmHost → Type 0
Waits h h' = (h'.last_hb_seq ≡ h.last_hb_seq) × (h'.last_hb_send_ticks ≡ h.last_hb_send_ticks)
