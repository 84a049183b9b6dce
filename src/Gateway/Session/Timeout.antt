-- ===== src/Gateway/Session/Timeout.antt =====
-- When a session expires.
use orange_pi_stm32_for_rov.Prelude.{
  ℕ, ◌+◌, ◌*◌, ◌<◌, ◌≤◌, true, false, ◌≡◌, ◌≢◌, ◌⊎◌, ap, Option, none, some, List, [], ◌∷◌, u64,
  ns_per_ms, Bool-cases, inl, inr, arith,
}
use orange_pi_stm32_for_rov.Gateway.Protocol.{PacketHeader, MsgType, dvl_policy, msg_type_of}
use orange_pi_stm32_for_rov.Gateway.Codec.{Parsed, parsed, refused, parse_and_validate}
use orange_pi_stm32_for_rov.Gateway.Session.Types.{
  UdpAddress, GcsSessionConfig, Session, on_session_lost, Nonces, blank, reset, timed_out,
  maybe_timeout_reset, send_ack, make_ack_if_req, reply,
}
use orange_pi_stm32_for_rov.Gateway.Session.Handle.{
  on_connect_req, on_connect_confirm, guard_command, DvlPolicy, run_dvl_policy, dispatch,
  handle_type, handle_parsed,
}
use orange_pi_stm32_for_rov.Gateway.Session.Receive.{
  note_peer, on_bad_packet, build_status_now, receive, on_packet, emit_if_due, tick_status,
}

-- The time past which a silent session is given up.
abbrev pub IsExpired : GcsSessionConfig → ℕ → Session → Type 0
IsExpired cfg now_ns s =
    (s.established ≡ true)
    × (cfg.session_timeout_ms ≢ 0)
    × (s.last_rx_ns ≢ 0)
    × (s.last_rx_ns + cfg.session_timeout_ms * ns_per_ms < now_ns)

pub timed_out-IsExpired :
    (cfg : GcsSessionConfig) (now_ns : ℕ) (s : Session)
    → timed_out cfg now_ns s ≡ true
    → IsExpired cfg now_ns s
unfolding timed_out
timed_out-IsExpired cfg now_ns s e = ground arith

pub IsExpired-timed_out :
    (cfg : GcsSessionConfig) (now_ns : ℕ) (s : Session)
    → IsExpired cfg now_ns s
    → timed_out cfg now_ns s ≡ true
unfolding timed_out
IsExpired-timed_out cfg now_ns s e = ground arith

timed_out-soon :
    (cfg : GcsSessionConfig) (now_ns : ℕ) (s : Session)
    → now_ns ≤ s.last_rx_ns + cfg.session_timeout_ms * ns_per_ms
    → timed_out cfg now_ns s ≡ false
unfolding timed_out
timed_out-soon cfg now_ns s soon = ground arith

emit_if_due-established :
    (cfg : GcsSessionConfig) (now_ns : ℕ) (status_bytes : List ℕ) (s : Session)
    → (emit_if_due cfg now_ns status_bytes s).0.established ≡ s.established
unfolding emit_if_due build_status_now
emit_if_due-established cfg now_ns status_bytes s = ground arith

tick_status-live :
    (cfg : GcsSessionConfig) (now_ns : ℕ) (status_bytes : List ℕ) (s : Session)
    → timed_out cfg now_ns s ≡ false
    → ((tick_status cfg now_ns status_bytes s).2 ≡ [])
      × ((tick_status cfg now_ns status_bytes s).0.established ≡ s.established)
unfolding tick_status maybe_timeout_reset
tick_status-live cfg now_ns status_bytes s live =
    ground (arith, emit_if_due-established cfg now_ns status_bytes s)

tick_status-expired :
    (cfg : GcsSessionConfig) (now_ns : ℕ) (status_bytes : List ℕ) (s : Session)
    → cfg.telem_hz ≢ 0
    → s.have_peer ≡ true
    → s.established ≡ true
    → timed_out cfg now_ns s ≡ true
    → tick_status cfg now_ns status_bytes s ≡ (blank, none, on_session_lost ∷ [])
unfolding tick_status maybe_timeout_reset reset
tick_status-expired cfg now_ns status_bytes s hz peer up expired = ground arith

-- Where telemetry is on and a peer is known, a status tick of an expired session (established,
-- the timeout and the time of the last packet not 0, and that time plus the timeout in the past)
-- clears it, reports the loss once and sends nothing; a tick of any other session reports nothing
-- and leaves it established or not, as it was.
pub expiry_exact :
    (cfg : GcsSessionConfig) (now_ns : ℕ) (status_bytes : List ℕ) (s : Session)
    → cfg.telem_hz ≢ 0
    → s.have_peer ≡ true
    → let (s', packet, events) = tick_status cfg now_ns status_bytes s in
      (IsExpired cfg now_ns s × (s' ≡ blank) × (packet ≡ none) × (events ≡ on_session_lost ∷ []))
      ⊎ (¬ IsExpired cfg now_ns s × (events ≡ []) × (s'.established ≡ s.established))
expiry_exact cfg now_ns status_bytes s hz peer = elim (Bool-cases (timed_out cfg now_ns s)) [
  | inl over ↦
      let x = timed_out-IsExpired cfg now_ns s over in
      let e = tick_status-expired cfg now_ns status_bytes s hz peer x.0 over in
      inl (x, ap (λ r. r.0) e, ap (λ r. r.1) e, ap (λ r. r.2) e)
  | inr live ↦
      let same = tick_status-live cfg now_ns status_bytes s live in
      inr ((λ x. let e = IsExpired-timed_out cfg now_ns s x in ground arith), same.0, same.1)
]

-- Every datagram, also one that does not parse, restarts the timer of the session.
module _ (cfg : GcsSessionConfig) (policy : DvlPolicy) (nonces : Nonces) where
  run_dvl_policy-last_rx_ns :
      (s : Session) (h : PacketHeader) (p : List ℕ) (policy : DvlPolicy)
      → (run_dvl_policy policy s h p).session.last_rx_ns ≡ s.last_rx_ns
  unfolding run_dvl_policy reply make_ack_if_req send_ack
  run_dvl_policy-last_rx_ns s h p none = ground arith
  run_dvl_policy-last_rx_ns s h p (some f) = ground arith

  dispatch-last_rx_ns :
      (m : Option MsgType) (s : Session) (h : PacketHeader) (p : List ℕ)
      → (dispatch cfg policy nonces m s h p).session.last_rx_ns ≡ s.last_rx_ns
  unfolding dispatch guard_command reply make_ack_if_req send_ack on_connect_req on_connect_confirm
  dispatch-last_rx_ns (some dvl_policy) s h p =
      let same = run_dvl_policy-last_rx_ns s h p policy in ground arith
  dispatch-last_rx_ns (some _) s h p = ground arith
  dispatch-last_rx_ns none s h p = ground arith

  receive-last_rx_ns :
      (s : Session) (raw : List ℕ) (r : Parsed)
      → (receive cfg policy nonces s raw r).session.last_rx_ns ≡ s.last_rx_ns
  unfolding receive on_bad_packet reply make_ack_if_req send_ack handle_parsed handle_type
  receive-last_rx_ns s raw (refused code) = ground arith
  receive-last_rx_ns s raw (parsed h payload) =
      let s' = record s { rx_ok = u64 (s.rx_ok + 1) } in
      let d0 = dispatch-last_rx_ns (msg_type_of h.msg_type) s' h payload in
      let d1 =
        dispatch-last_rx_ns (msg_type_of h.msg_type) (record s' { last_cmd_seq = h.seq }) h
          payload in
      ground arith

-- After any datagram, whether it parses or not, a tick within the session timeout of it reports no loss.
pub any_datagram_keeps_alive :
    (cfg : GcsSessionConfig) (policy : DvlPolicy) (nonces : Nonces) (now_ns later : ℕ)
    (from : UdpAddress) (raw status_bytes : List ℕ) (s : Session)
    → later ≤ now_ns + cfg.session_timeout_ms * ns_per_ms
    → (tick_status cfg later status_bytes (on_packet cfg policy nonces now_ns from raw s).session).2
      ≡ []
unfolding on_packet note_peer
any_datagram_keeps_alive cfg policy nonces now_ns later from raw status_bytes s soon =
    let s' = (maybe_timeout_reset cfg now_ns s).0 in
    let o = on_packet cfg policy nonces now_ns from raw s in
    let noted =
      receive-last_rx_ns cfg policy nonces (note_peer from now_ns s') raw
        (parse_and_validate raw) in
    (tick_status-live cfg later status_bytes o.session
      (timed_out-soon cfg later o.session (rw noted soon))).0
