-- ===== src/Pwm.antt =====
-- orangepi_send: the PWM host library, from the frames on the wire to the safety layer.
pub mod Crc16
pub mod Bytes
pub mod Frame
pub mod Float
pub mod Pack
pub mod Host
pub mod Safety
pub mod Client
pub mod Sample
mod Examples
