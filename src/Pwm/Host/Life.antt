-- ===== src/Pwm/Host/Life.antt =====
-- libpwm_host.c: error texts, configuration, pwm_host_init and pwm_host_close.
use orange_pi_stm32_for_rov.Prelude.{
  ℕ, zero, suc, Bool, true, false, Option, none, some, String, List, [], ◌∷◌, ◌==◌, if◌then◌else◌,
  ℤ, pos, negsuc,
}
use orange_pi_stm32_for_rov.Pwm.Host.{
  PwmhResult, ok, einval, enotinit, esys, ebusy, einternal, PwmHost, zero_stats, val_mid,
}

unfoldable pub pwm_host_strerror : PwmhResult → String
pwm_host_strerror ok = "OK"
pwm_host_strerror einval = "EINVAL"
pwm_host_strerror enotinit = "ENOTINIT"
pwm_host_strerror esys = "ESYS"
pwm_host_strerror ebusy = "EBUSY"
pwm_host_strerror einternal = "EINTERNAL"

pub record PwmHostConfig : Type 0 where
  pub stm32_ip : Option String
  pub stm32_port : ℕ
  pub send_hz : ℤ
  pub socket_sndbuf : ℤ
  pub nonblock_send : Bool

abbrev pub default_ip : String
default_ip = "192.168.2.16"

unfoldable pub pwm_host_default_config : PwmHostConfig
pwm_host_default_config = record {
  stm32_ip = some default_ip;
  stm32_port = 8000;
  send_hz = pos 50;
  socket_sndbuf = pos 0;
  nonblock_send = false;
}

-- `v > 0 ? v : d`
abbrev pub positive_or : ℕ → ℤ → ℕ
positive_or d (pos zero) = d
positive_or d (pos (suc n)) = suc n
positive_or d (negsuc n) = d

abbrev pub ip_or_default : Option String → String
ip_or_default none = default_ip
ip_or_default (some ip) = ip

abbrev pub config_or_default : Option PwmHostConfig → PwmHostConfig
config_or_default none = pwm_host_default_config
config_or_default (some cfg) = cfg

-- Eight channels at 50 %.
abbrev pub mid_values : List ℕ
mid_values = val_mid ∷ val_mid ∷ val_mid ∷ val_mid ∷ val_mid ∷ val_mid ∷ val_mid ∷ val_mid ∷ []

unfoldable pub pwm_host_close : PwmHost → PwmHost
pwm_host_close h = record h { sock_open = false }

-- `socket_ok`: socket returned a descriptor; `inet_pton ip`: the address is valid. What setsockopt
-- returns is ignored.
unfoldable pub pwm_host_init :
    (inet_pton : String → Bool) (socket_ok : Bool)
    → Option PwmHostConfig
    → PwmHost
    → PwmhResult × PwmHost
pwm_host_init inet_pton socket_ok config h =
    let cfg = config_or_default config in
    let ip = ip_or_default cfg.stm32_ip in
    let port = if cfg.stm32_port == 0 then 8000 else cfg.stm32_port in
    let h = record h {
      sock_open = false;
      send_hz = positive_or 50 cfg.send_hz;
      nonblock_send = cfg.nonblock_send;
    } in
    if socket_ok
    then (if inet_pton ip
        then (
          ok,
          record h {
            sock_open = true;
            addr = (ip, port);
            shadow = mid_values;
            seq = 0;
            stats = zero_stats;
            last_rtt_ms = none;
            last_hb_seq = 0;
            last_hb_send_ticks = 0;
          },
        )
        else (einval, h))
    else (esys, h)
