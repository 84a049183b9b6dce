-- ===== src/Control/Input/Stop.antt =====
-- A stop by either input goes through to the guard.
use orange_pi_stm32_for_rov.Prelude.{Bool, ◌&&◌}
use orange_pi_stm32_for_rov.Control.Intent.{ControlIntent}

module _ {D : Type 0} (nought : D) where
  -- An intent that presses the stop.
  abbrev pub presses_stop : ControlIntent D → Bool
  presses_stop i = i.has_estop_cmd && i.estop
