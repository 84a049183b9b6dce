-- ===== src/Pwm/Client/Status.antt =====
-- The status that the client's operations leave.
use orange_pi_stm32_for_rov.Prelude.{
  ℕ, ◌≡◌, refl, Bool, true, false, Option, none, some, List, if◌then◌else◌, ℤ,
}
use orange_pi_stm32_for_rov.Pwm.Float.{SingleOps}
use orange_pi_stm32_for_rov.Pwm.Host.Send.{channel_index}
use orange_pi_stm32_for_rov.Pwm.Safety.{
  CtrlResult, ctrl_ok, err_not_init, err_invalid_arg, err_internal, PwmCtrl, mask_all,
}
use orange_pi_stm32_for_rov.Pwm.Safety.Targets.{
  pwm_ctrl_set_target_pct, pwm_ctrl_set_targets_mask, pwm_ctrl_set_all_target_mid,
}
use orange_pi_stm32_for_rov.Pwm.Safety.Step.{pwm_ctrl_step, pwm_ctrl_set_motor_reverse}
use orange_pi_stm32_for_rov.Pwm.Safety.Blocking.{pwm_ctrl_emergency_stop}
use orange_pi_stm32_for_rov.Pwm.Safety.Wire.{HostLog, host_transport}
use orange_pi_stm32_for_rov.Pwm.Client.{PwmClient, CallEnv, no_error, ctrl_error, report, if_inited}
use orange_pi_stm32_for_rov.Pwm.Client.Ops.{
  adopt, adopt_sent, on_channel, set_all_mid, set_target, set_targets, duties, step, poll_host,
  heartbeat_if_due, emergency_stop, set_motor_reverse,
}

module _ {F : Type 0} where
  -- The status tells the result: no error when it is fine, else its code.
  abbrev pub IsTold : CtrlResult × PwmClient F → Type 0
  IsTold (ctrl_ok, c) = (c.ok_status ≡ true) × (c.last_error ≡ no_error)
  IsTold (rc, c) = (c.ok_status ≡ false) × (c.last_error ≡ ctrl_error rc)

  report-IsTold : (rc : CtrlResult) (c : PwmClient F) → IsTold (report rc c)
  report-IsTold ctrl_ok c = (refl, refl)
  report-IsTold err_not_init c = (refl, refl)
  report-IsTold err_invalid_arg c = (refl, refl)
  report-IsTold err_internal c = (refl, refl)

  either-IsTold :
      (b : Bool) (x y : CtrlResult × PwmClient F)
      → IsTold x
      → IsTold y
      → IsTold (if b then x else y)
  either-IsTold true x y h k = h
  either-IsTold false x y h k = k

  if_inited-IsTold :
      (c : PwmClient F) (r : CtrlResult × PwmClient F) → IsTold r → IsTold (if_inited c r)
  if_inited-IsTold c r h = either-IsTold c.inited r _ h (refl, refl)

module _ {F : Type 0} (O : SingleOps F) where
  adopt-IsTold : (c : PwmClient F) (r : CtrlResult × PwmCtrl F) → IsTold (adopt O c r)
  adopt-IsTold c (rc, ctrl) = report-IsTold rc (record c { ctrl = ctrl })

  adopt_sent-IsTold :
      (c : PwmClient F) (r : CtrlResult × PwmCtrl F × HostLog) → IsTold (adopt_sent O c r)
  adopt_sent-IsTold c (rc, ctrl, host) = report-IsTold rc (record c { ctrl = ctrl; host = host })

  on_channel-IsTold :
      (c : PwmClient F) (i : Option ℕ) (f : ℕ → CtrlResult × PwmClient F)
      → ((k : ℕ) → IsTold (f k))
      → IsTold (on_channel O c i f)
  on_channel-IsTold c none f h = (refl, refl)
  on_channel-IsTold c (some i) f h = h i

  -- Whatever happened before and whatever the socket returns, each of the client's operations leaves
  -- a status that tells exactly its own result: no error when it returns 0, its code otherwise. So
  -- after a step a failed heartbeat or poll is not told once the safety layer has stepped.
  pub status_tells_result :
      (env : CallEnv) (ch : ℤ) (enable : Bool) (pct seconds : F) (cmd_norm : List F)
      (c : PwmClient F)
      → IsTold (set_all_mid O c)
        × IsTold (set_target O env ch pct c)
        × IsTold (set_targets O env cmd_norm c)
        × IsTold (step O env c)
        × IsTold (emergency_stop O env seconds c)
        × IsTold (set_motor_reverse O ch enable c)
  unfolding set_all_mid set_target set_targets step emergency_stop set_motor_reverse
  status_tells_result env ch enable pct seconds cmd_norm c =
      let T = host_transport O env.frame_env env.stop_selected in
      let polled = poll_host O env (heartbeat_if_due O env c) in
      (
        if_inited-IsTold c _ (
            either-IsTold c.dummy _ _ (refl, refl)
              (adopt-IsTold c (pwm_ctrl_set_all_target_mid O c.ctrl))),
        if_inited-IsTold c _ (
            on_channel-IsTold c (channel_index ch) _ (λ i.
              either-IsTold c.dummy _ _ (refl, refl)
                (adopt-IsTold c (pwm_ctrl_set_target_pct O env.now_ns ch pct c.ctrl)))),
        if_inited-IsTold c _ (
            either-IsTold c.dummy _ _ (refl, refl)
              (adopt-IsTold (record c { target_pct = duties O cmd_norm })
                (pwm_ctrl_set_targets_mask O env.clock mask_all (some (duties O cmd_norm))
                  c.ctrl))),
        if_inited-IsTold c _ (
            either-IsTold c.dummy _ _ (refl, refl)
              (adopt_sent-IsTold polled (pwm_ctrl_step O T env.now_ns polled.ctrl polled.host))),
        if_inited-IsTold c _ (
            either-IsTold c.dummy _ _ (refl, refl)
              (adopt_sent-IsTold c (pwm_ctrl_emergency_stop O T env.clock seconds c.ctrl c.host))),
        if_inited-IsTold c _ (
            on_channel-IsTold c (channel_index ch) _ (λ i.
              either-IsTold c.dummy _ _ (refl, refl)
                (adopt-IsTold c (pwm_ctrl_set_motor_reverse O ch enable c.ctrl)))),
      )
