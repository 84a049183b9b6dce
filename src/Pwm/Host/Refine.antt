-- ===== src/Pwm/Host/Refine.antt =====
-- libpwm_host.c implements its specification.
use mathlib.Core.Path.{subst}
use orange_pi_stm32_for_rov.Prelude.{
  length-set_at, ℕ, suc, ◌+◌, ◌≡◌, refl, sym, ap, ◌∙◌, true, Option, none, some, List, [], ◌∷◌,
  ◌++◌, length, if_true, u16,
}
use orange_pi_stm32_for_rov.Pwm.Float.{SingleOps}
use orange_pi_stm32_for_rov.Pwm.Host.{enotinit, PwmHost, Sent, without}
use orange_pi_stm32_for_rov.Pwm.Host.Send.{
  some_values, with_channel, channel_index, percent_value, percent_values, pwm_host_set_all_u16,
  pwm_host_set_all_pct, pwm_host_set_ch_pct,
}
use orange_pi_stm32_for_rov.Pwm.Host.Poll.{pwm_host_poll}
use orange_pi_stm32_for_rov.Pwm.Host.Spec.{
  HostCommand, cmd_all_u16, cmd_all_pct, cmd_channel, cmd_heartbeat, cmd_poll, Message,
  message_frame, numbered, last_number, IsArray, IsCommand, AreCommands, drive_all, spec_step,
  spec_run, execute, run_host,
}
use orange_pi_stm32_for_rov.Pwm.Host.Follows.{
  Follows, silent, set_all_u16-Follows, heartbeat-Follows, poll-IsKept,
}

-- Runs one after the other.
numbered-append :
    (seq : ℕ) (ms ns : List Message)
    → numbered seq (ms ++ ns) ≡ numbered seq ms ++ numbered (last_number seq ms) ns
unfolding numbered last_number
numbered-append seq [] ns = refl
numbered-append seq (m ∷ ms) ns =
    ap (λ ds. message_frame (u16 (seq + 1)) m ∷ ds) (numbered-append (u16 (seq + 1)) ms ns)

last_number-append :
    (seq : ℕ) (ms ns : List Message)
    → last_number seq (ms ++ ns) ≡ last_number (last_number seq ms) ns
unfolding last_number
last_number-append seq [] ns = refl
last_number-append seq (m ∷ ms) ns = last_number-append (u16 (seq + 1)) ms ns

module _ {F : Type 0} (O : SingleOps F) where
  length-percent_values : (ps : List F) → length (percent_values O ps) ≡ length ps
  length-percent_values [] = refl
  length-percent_values (p ∷ ps) = ap suc (length-percent_values ps)

  some_values-IsArray : (pct : Option (List F)) → IsArray pct → IsArray (some_values O pct)
  some_values-IsArray none a = tt
  some_values-IsArray (some ps) a = length-percent_values ps ∙ a

  with_channel-IsArray :
      (i : Option ℕ) (pct : F) (values : List ℕ)
      → length values ≡ 8
      → IsArray (with_channel O i pct values)
  with_channel-IsArray none pct values l = tt
  with_channel-IsArray (some i) pct values l = length-set_at i (percent_value O pct) values ∙ l

  pub execute-Follows :
      (c : HostCommand F) (h : PwmHost)
      → h.sock_open ≡ true
      → length h.shadow ≡ 8
      → IsCommand O c
      → let (values, ms) = spec_step O c h.shadow in
        let s = execute O c h in Follows h values ms s.host s.datagrams
  unfolding execute spec_step pwm_host_set_all_pct pwm_host_set_ch_pct
  execute-Follows (cmd_all_u16 env v) h o l a = set_all_u16-Follows env v h o l a
  execute-Follows (cmd_all_pct env pct) h o l a =
      let v = some_values O pct in
      let (values, ms) = drive_all env v h.shadow in
      subst (λ (s : Sent). Follows h values ms s.host s.datagrams)
        (sym (if_true h.sock_open (pwm_host_set_all_u16 env v h) (without enotinit h) o))
        (set_all_u16-Follows env v h o l (some_values-IsArray pct a))
  execute-Follows (cmd_channel env ch pct) h o l a =
      let v = with_channel O (channel_index ch) pct h.shadow in
      let (values, ms) = drive_all env v h.shadow in
      subst (λ (s : Sent). Follows h values ms s.host s.datagrams)
        (sym (if_true h.sock_open (pwm_host_set_all_u16 env v h) (without enotinit h) o))
        (set_all_u16-Follows env v h o l (with_channel-IsArray (channel_index ch) pct h.shadow l))
  execute-Follows (cmd_heartbeat env now_ms) h o l a = heartbeat-Follows env now_ms h o l
  execute-Follows (cmd_poll selected) h o l a =
      let (s, v, open') = poll-IsKept selected h in
      silent h (pwm_host_poll selected h).1 s v (open' ∙ o) l

  -- From an open socket any sequence of commands of libpwm_host.c keeps its promise: the datagrams
  -- that it gives to the socket are the frames of the specification's messages, each as the C++
  -- builder makes it, numbered one after the other modulo 2^16; and afterwards the shadow holds the
  -- specification's channels and the counter the last number. This holds whatever the socket
  -- returns, and for null pointers, channels that do not exist and polls, which send nothing.
  pub run_refines :
      (cs : List (HostCommand F)) (h : PwmHost)
      → h.sock_open ≡ true
      → length h.shadow ≡ 8
      → AreCommands O cs
      → ((run_host O cs h).1 ≡ numbered h.seq (spec_run O cs h.shadow).1)
        × ((run_host O cs h).0.shadow ≡ (spec_run O cs h.shadow).0)
        × ((run_host O cs h).0.seq ≡ last_number h.seq (spec_run O cs h.shadow).1)
        × ((run_host O cs h).0.sock_open ≡ true)
  unfolding run_host spec_run numbered last_number
  run_refines [] h o l a = (refl, refl, refl, o)
  run_refines (c ∷ cs) h o l (a, as') =
      let s = execute O c h in
      let (values, ms) = spec_step O c h.shadow in
      let (h', ds) = run_host O cs s.host in
      let f : Follows h values ms s.host s.datagrams = execute-Follows c h o l a in
      let from_code = run_refines cs s.host f.stays_open (ap length f.latest ∙ f.eight) as' in
      let from_values =
        subst
          (λ vs.
            (ds ≡ numbered s.host.seq (spec_run O cs vs).1)
            × (h'.shadow ≡ (spec_run O cs vs).0)
            × (h'.seq ≡ last_number s.host.seq (spec_run O cs vs).1)
            × (h'.sock_open ≡ true))
          f.latest from_code in
      let rest = (spec_run O cs values).1 in
      let (frames, latest, number, stays_open) = from_values in
      (
        ap (λ t. t ++ ds) f.frames
            ∙ ap (λ t. numbered h.seq ms ++ t) (frames ∙ ap (λ (n : ℕ). numbered n rest) f.number)
            ∙ sym (numbered-append h.seq ms rest),
        latest,
        number
            ∙ ap (λ (n : ℕ). last_number n rest) f.number
            ∙ sym (last_number-append h.seq ms rest),
        stays_open,
      )
