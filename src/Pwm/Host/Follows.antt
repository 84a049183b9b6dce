-- ===== src/Pwm/Host/Follows.antt =====
-- Each operation of libpwm_host.c against its step of the specification.
use mathlib.Core.Path.{subst}
use orange_pi_stm32_for_rov.Pwm.Bytes.{be16}
use orange_pi_stm32_for_rov.Prelude.{
  ℕ, suc, ◌+◌, ◌≤◌, ◌≡◌, refl, sym, ap, ◌∙◌, true, Bool-cases, inl, inr, Option, none, some, List,
  [], ◌∷◌, ◌++◌, length, if_true, if_false, u16, arith,
}
use orange_pi_stm32_for_rov.Pwm.Frame.{build_pwm_cmd_frame_v1, clamp_pwm}
use orange_pi_stm32_for_rov.Pwm.Frame.Wire.{
  v1_frame, channels, length-channels, build_pwm_cmd_frame_v1-v1_frame,
  build_heartbeat_frame_v1-v1_frame,
}
use orange_pi_stm32_for_rov.Pwm.Host.{
  PwmhResult, ok, einval, enotinit, PwmHost, Sent, SendEnv, without, hand_over, all_sent, v1_pack,
  v1_send_frame, v1_try_parse_hb_ack,
}
use orange_pi_stm32_for_rov.Pwm.Host.Send.{
  count_pwm, count_heartbeat, send_values, clamp_value, clamp_values, payload_of_values,
  pwm_host_set_all_u16, pwm_host_send_heartbeat,
}
use orange_pi_stm32_for_rov.Pwm.Host.Poll.{
  Selected, select_error, select_timeout, select_ready, Receipt, recv_again, recv_error, recv_empty,
  recv_bytes, drain, note_ack, note_datagram, poll_selected, note_parsed, matches_heartbeat, Polled,
  failed, pwm_host_poll,
}
use orange_pi_stm32_for_rov.Pwm.Host.Frames.{payload_of_values-channels, v1_pack-v1_frame}
use orange_pi_stm32_for_rov.Pwm.Host.Spec.{
  Message, drive, beat, numbered, last_number, IsArray, drive_all,
}

-- The state and the datagrams after messages from a state `h`.
pub record Follows (h : PwmHost) (values : List ℕ) (ms : List Message) (h' : PwmHost)
    (ds : List (List ℕ)) : Type 0 where
  pub frames : ds ≡ numbered h.seq ms
  pub number : h'.seq ≡ last_number h.seq ms
  pub latest : h'.shadow ≡ values
  pub stays_open : h'.sock_open ≡ true
  pub eight : length values ≡ 8

send_frame-Follows :
    (env : SendEnv) (h : PwmHost) (msg : ℕ) (payload : List ℕ)
    → h.sock_open ≡ true
    → length payload ≤ 16
    → let s = v1_send_frame env h msg payload in
      let n = u16 (h.seq + 1) in
      (s.datagrams ≡ v1_frame msg n env.ticks payload ∷ [])
      × (s.host.seq ≡ n)
      × (s.host.shadow ≡ h.shadow)
      × (s.host.sock_open ≡ true)
unfolding v1_send_frame
send_frame-Follows env h msg payload o l =
    let n = u16 (h.seq + 1) in
    let frame = v1_frame msg n env.ticks payload in
    let e : v1_send_frame env h msg payload ≡ hand_over env h (some (record h { seq = n }, frame)) =
      if_true h.sock_open (hand_over env h (v1_pack h msg payload 30 env.ticks))
        (without enotinit h) o
      ∙ ap (hand_over env h) (v1_pack-v1_frame h msg env.ticks payload l) in
    subst
      (λ (s : Sent).
        (s.datagrams ≡ frame ∷ [])
        × (s.host.seq ≡ n)
        × (s.host.shadow ≡ h.shadow)
        × (s.host.sock_open ≡ true))
      (sym e)
      (elim (Bool-cases (all_sent env.sent (length frame))) [
        | inl b ↦ rw b (refl, refl, refl, o)
        | inr b ↦ rw b (refl, refl, refl, o)
      ])

clamp_again : (vs : List ℕ) → channels (clamp_values vs) ≡ channels vs
clamp_again [] = refl
clamp_again (v ∷ vs) =
    ap (λ (x : ℕ). be16 x ++ channels (clamp_values vs))
      (let e : clamp_pwm (clamp_value v) ≡ clamp_pwm v = ground arith in e)
    ∙ ap (λ t. be16 (clamp_pwm v) ++ t) (clamp_again vs)

length-clamp_values : (vs : List ℕ) → length (clamp_values vs) ≡ length vs
length-clamp_values [] = refl
length-clamp_values (v ∷ vs) = ap suc (length-clamp_values vs)

count_pwm-keeps :
    (r : PwmhResult) (h : PwmHost)
    → ((count_pwm r h).seq ≡ h.seq)
      × ((count_pwm r h).shadow ≡ h.shadow)
      × ((count_pwm r h).sock_open ≡ h.sock_open)
count_pwm-keeps ok h = (refl, refl, refl)
count_pwm-keeps _ h = (refl, refl, refl)

count_heartbeat-keeps :
    (n now_ms : ℕ) (r : PwmhResult) (h : PwmHost)
    → ((count_heartbeat n now_ms r h).seq ≡ h.seq)
      × ((count_heartbeat n now_ms r h).shadow ≡ h.shadow)
      × ((count_heartbeat n now_ms r h).sock_open ≡ h.sock_open)
count_heartbeat-keeps n now_ms ok h = (refl, refl, refl)
count_heartbeat-keeps n now_ms _ h = (refl, refl, refl)

-- An operation that sends nothing and leaves the counter and the shadow alone.
pub silent :
    (h h' : PwmHost)
    → h'.seq ≡ h.seq
    → h'.shadow ≡ h.shadow
    → h'.sock_open ≡ true
    → length h.shadow ≡ 8
    → Follows h h.shadow [] h' []
unfolding numbered last_number
silent h h' s v o l = record { frames = refl; number = s; latest = v; stays_open = o; eight = l }

pub set_all_u16-Follows :
    (env : SendEnv) (v : Option (List ℕ)) (h : PwmHost)
    → h.sock_open ≡ true
    → length h.shadow ≡ 8
    → IsArray v
    → let (values, ms) = drive_all env v h.shadow in
      let s = pwm_host_set_all_u16 env v h in Follows h values ms s.host s.datagrams
unfolding pwm_host_set_all_u16 numbered last_number
set_all_u16-Follows env none h o l a =
    subst (λ (s : Sent). Follows h h.shadow [] s.host s.datagrams)
      (sym (if_true h.sock_open (without einval h) (without enotinit h) o))
      (silent h h refl refl o l)
set_all_u16-Follows env (some v) h o l a =
    let vs = clamp_values v in
    let h1 = record h { shadow = vs } in
    let s = v1_send_frame env h1 0x01 (payload_of_values vs) in
    let n = u16 (h.seq + 1) in
    let payload : payload_of_values vs ≡ channels v = payload_of_values-channels v in
    let size : length (payload_of_values vs) ≤ 16 = rw payload (omega (arith, length-channels v)) in
    let (ds, seq, shadow, open') = send_frame-Follows env h1 0x01 (payload_of_values vs) o size in
    let (seq_kept, shadow_kept, open_kept) = count_pwm-keeps s.result s.host in
    let e : pwm_host_set_all_u16 env (some v) h ≡ send_values env v h =
      if_true h.sock_open (send_values env v h) (without enotinit h) o in
    let frame : v1_frame 0x01 n env.ticks (payload_of_values vs)
        ≡ build_pwm_cmd_frame_v1 vs n env.ticks =
      ap (v1_frame 0x01 n env.ticks) (payload ∙ sym (clamp_again v))
      ∙ sym (build_pwm_cmd_frame_v1-v1_frame vs n env.ticks (length-clamp_values v ∙ a)) in
    subst (λ (s : Sent). Follows h vs (drive env.ticks vs ∷ []) s.host s.datagrams) (sym e)
      (record {
        frames = ds ∙ ap (λ f. f ∷ []) frame;
        number = seq_kept ∙ seq;
        latest = shadow_kept ∙ shadow;
        stays_open = open_kept ∙ open';
        eight = length-clamp_values v ∙ a;
      })

pub heartbeat-Follows :
    (env : SendEnv) (now_ms : ℕ) (h : PwmHost)
    → h.sock_open ≡ true
    → length h.shadow ≡ 8
    → let s = pwm_host_send_heartbeat env now_ms h in
      Follows h h.shadow (beat env.ticks ∷ []) s.host s.datagrams
unfolding pwm_host_send_heartbeat numbered last_number
heartbeat-Follows env now_ms h o l =
    let s = v1_send_frame env h 0x10 [] in
    let n = u16 (h.seq + 1) in
    let after : Sent = record s { host = count_heartbeat n now_ms s.result s.host } in
    let (ds, seq, shadow, open') = send_frame-Follows env h 0x10 [] o (omega arith) in
    let (seq_kept, shadow_kept, open_kept) = count_heartbeat-keeps n now_ms s.result s.host in
    let e : pwm_host_send_heartbeat env now_ms h ≡ after =
      if_true h.sock_open after (without enotinit h) o in
    subst (λ (s : Sent). Follows h h.shadow (beat env.ticks ∷ []) s.host s.datagrams) (sym e)
      (record {
        frames = ds ∙ ap (λ f. f ∷ []) (sym (build_heartbeat_frame_v1-v1_frame n env.ticks));
        number = seq_kept ∙ seq;
        latest = shadow_kept ∙ shadow;
        stays_open = open_kept ∙ open';
        eight = l;
      })

-- What polling leaves alone.
abbrev pub IsKept : PwmHost → PwmHost → Type 0
IsKept h h' = (h'.seq ≡ h.seq) × (h'.shadow ≡ h.shadow) × (h'.sock_open ≡ h.sock_open)

pub note_ack-IsKept : (h : PwmHost) (seq_rx now : ℕ) → IsKept h (note_ack h seq_rx now)
unfolding note_ack
note_ack-IsKept h seq_rx now = elim (Bool-cases (matches_heartbeat h seq_rx)) [
  | inl e ↦ rw e (refl, refl, refl)
  | inr e ↦ rw e (refl, refl, refl)
]

note_parsed-IsKept :
    (h : PwmHost) (now : ℕ) (o : Option (ℕ × ℕ × ℕ)) → IsKept h (note_parsed h now o)
note_parsed-IsKept h now none = (refl, refl, refl)
note_parsed-IsKept h now (some (seq_rx, ticks_rx, used)) = note_ack-IsKept h seq_rx now

note_datagram-IsKept :
    (h : PwmHost) (bytes : List ℕ) (now : ℕ) → IsKept h (note_datagram h bytes now)
unfolding note_datagram
note_datagram-IsKept h bytes now = note_parsed-IsKept h now (v1_try_parse_hb_ack bytes)

drain-IsKept : (rs : List Receipt) (count : ℕ) (h : PwmHost) → IsKept h (drain rs count h).1
unfolding drain
drain-IsKept [] count h = (refl, refl, refl)
drain-IsKept (recv_again ∷ rs) count h = (refl, refl, refl)
drain-IsKept (recv_empty ∷ rs) count h = (refl, refl, refl)
drain-IsKept (recv_error ∷ rs) count h = (refl, refl, refl)
drain-IsKept (recv_bytes bytes now ∷ rs) count h =
    let (s, v, o) = note_datagram-IsKept h bytes now in
    let (s', v', o') = drain-IsKept rs (count + 1) (note_datagram h bytes now) in
    (s' ∙ s, v' ∙ v, o' ∙ o)

poll_selected-IsKept : (selected : Selected) (h : PwmHost) → IsKept h (poll_selected selected h).1
poll_selected-IsKept select_error h = (refl, refl, refl)
poll_selected-IsKept select_timeout h = (refl, refl, refl)
poll_selected-IsKept (select_ready receipts) h = drain-IsKept receipts 0 h

pub poll-IsKept : (selected : Selected) (h : PwmHost) → IsKept h (pwm_host_poll selected h).1
unfolding pwm_host_poll
poll-IsKept selected h = elim (Bool-cases h.sock_open) [
  | inl e ↦
      subst (λ (r : Polled × PwmHost). IsKept h r.1)
        (sym (if_true h.sock_open (poll_selected selected h) (failed enotinit, h) e))
        (poll_selected-IsKept selected h)
  | inr e ↦
      subst (λ (r : Polled × PwmHost). IsKept h r.1)
        (sym (if_false h.sock_open (poll_selected selected h) (failed enotinit, h) e))
        (refl, refl, refl)
]
