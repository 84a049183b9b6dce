-- ===== src/Pwm/Host/Ramp.antt =====
-- libpwm_host.c: pwm_host_ramp_pct. F is `float` and D is `double`.
use orange_pi_stm32_for_rov.Prelude.{
  set_at, ℕ, zero, suc, ◌+◌, none, some, List, ◌++◌, ltb, if◌then◌else◌, ℤ, clamp_ℤ,
}
use orange_pi_stm32_for_rov.Pwm.Float.{SingleOps}
use orange_pi_stm32_for_rov.Pwm.Host.{
  ok, einval, enotinit, PwmHost, Sent, SendEnv, without, val_max,
}
use orange_pi_stm32_for_rov.Pwm.Host.Life.{positive_or}
use orange_pi_stm32_for_rov.Pwm.Host.Send.{
  channel_index, pwm_host_set_all_u16, pwm_host_percent_to_u16,
}

module _ {F D : Type 0} (O : SingleOps F) (P : SingleOps D) where
  -- The number of steps, at least one.
  unfoldable pub ramp_steps : F → ℕ → ℕ
  ramp_steps seconds hz = positive_or 1 (O.trunc (O.add (O.mul seconds (O.of_nat hz)) (O.lit 5 10)))

  -- The value of step `k`.
  unfoldable pub ramp_value : (start_v end_v steps k : ℕ) → ℕ
  ramp_value start_v end_v steps k =
      let t = P.div (P.of_nat k) (P.of_nat steps) in
      let span = P.sub (P.of_nat end_v) (P.of_nat start_v) in
      clamp_ℤ 0 val_max (P.trunc (P.add (P.add (P.of_nat start_v) (P.mul span t)) (P.lit 5 10)))

  -- The frames from step `k` on, `left` of them; `env k` is the environment of step `k`.
  unfoldable pub ramp_loop :
      (ℕ → SendEnv) → (base : List ℕ) (i start_v end_v steps left k : ℕ) → PwmHost → Sent
  ramp_loop env base i start_v end_v steps zero k h = without ok h
  ramp_loop env base i start_v end_v steps (suc left) k h =
      let s =
        pwm_host_set_all_u16 (env k) (some (set_at i (ramp_value start_v end_v steps k) base)) h in
      let rest = ramp_loop env base i start_v end_v steps left (k + 1) s.host in
      elim s.result [ ok ↦ record rest { datagrams = s.datagrams ++ rest.datagrams } | _ ↦ s ]

  unfoldable pub pwm_host_ramp_pct :
      (ℕ → SendEnv) → ℤ → (start_pct end_pct seconds : F) → (hz : ℤ) → PwmHost → Sent
  pwm_host_ramp_pct env ch start_pct end_pct seconds hz h =
      if h.sock_open
      then (elim (channel_index ch) [
        | none ↦ without einval h
        | some i ↦
            if O.le seconds (O.lit 0 1)
            then without einval h
            else let hz = positive_or (if ltb 0 h.send_hz then h.send_hz else 50) hz in
              let steps = ramp_steps seconds hz in
              ramp_loop env h.shadow i (pwm_host_percent_to_u16 O start_pct)
                (pwm_host_percent_to_u16 O end_pct) steps (steps + 1) 0 h
      ])
      else without enotinit h
