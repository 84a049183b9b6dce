-- ===== src/Control.antt =====
-- The control core of pwm_control_program/: modes, intents and the safety guard.
pub mod Float
pub mod Mode
pub mod Intent
pub mod Nav
pub mod Guard
pub mod Manager
pub mod Input
