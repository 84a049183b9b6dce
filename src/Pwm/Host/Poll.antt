-- ===== src/Pwm/Host/Poll.antt =====
-- libpwm_host.c: pwm_host_poll, with what select and recvfrom return as arguments.
use orange_pi_stm32_for_rov.Prelude.{
  ℕ, ◌+◌, ◌-◌, ◌^◌, Bool, not, ◌&&◌, Option, none, some, List, [], ◌∷◌, ltb, ◌==◌, if◌then◌else◌,
  u32, u64,
}
use orange_pi_stm32_for_rov.Pwm.Host.{
  PwmhResult, enotinit, esys, PwmHost, count_rx_err, v1_try_parse_hb_ack,
}

-- One recvfrom that was not interrupted. A datagram comes with the clock's reading after it.
pub data Receipt : Type 0 where
  recv_again recv_error recv_empty : Receipt
  recv_bytes : List ℕ → (now : ℕ) → Receipt

pub data Selected : Type 0 where
  select_error select_timeout : Selected
  select_ready : List Receipt → Selected

-- A number of frames, or minus an error code.
pub data Polled : Type 0 where
  handled : ℕ → Polled
  failed : PwmhResult → Polled

-- The difference of two clock readings in 32 bits.
abbrev pub sub_u32 : ℕ → ℕ → ℕ
sub_u32 a b = u32 (a + 2 ^ 32 - b)

abbrev pub matches_heartbeat : PwmHost → ℕ → Bool
matches_heartbeat h seq_rx = seq_rx == h.last_hb_seq && not (h.last_hb_send_ticks == 0)

unfoldable pub note_ack : PwmHost → (seq_rx now : ℕ) → PwmHost
note_ack h seq_rx now =
    let h' = record h { stats = record h.stats { rx_hb_ack = u64 (h.stats.rx_hb_ack + 1) } } in
    if matches_heartbeat h seq_rx
    then record h' { last_rtt_ms = some (sub_u32 now h.last_hb_send_ticks) }
    else h'

-- Any other datagram is counted by the caller only.
abbrev pub note_parsed : PwmHost → (now : ℕ) → Option (ℕ × ℕ × ℕ) → PwmHost
note_parsed h now none = h
note_parsed h now (some (seq_rx, ticks_rx, used)) = note_ack h seq_rx now

unfoldable pub note_datagram : PwmHost → List ℕ → (now : ℕ) → PwmHost
note_datagram h bytes now = note_parsed h now (v1_try_parse_hb_ack bytes)

-- The loop over the socket's queue; a list that ends stands for a queue that is empty.
unfoldable pub drain : List Receipt → (count : ℕ) → PwmHost → Polled × PwmHost
drain [] count h = (handled count, h)
drain (recv_again ∷ rs) count h = (handled count, h)
drain (recv_empty ∷ rs) count h = (handled count, h)
drain (recv_error ∷ rs) count h =
    (if ltb 0 count then handled count else failed esys, count_rx_err h)
drain (recv_bytes bytes now ∷ rs) count h = drain rs (count + 1) (note_datagram h bytes now)

abbrev pub poll_selected : Selected → PwmHost → Polled × PwmHost
poll_selected select_error h = (failed esys, count_rx_err h)
poll_selected select_timeout h = (handled 0, h)
poll_selected (select_ready receipts) h = drain receipts 0 h

unfoldable pub pwm_host_poll : Selected → PwmHost → Polled × PwmHost
pwm_host_poll selected h = if h.sock_open then poll_selected selected h else (failed enotinit, h)
