-- ===== src/Control/Guard.antt =====
-- pwm_control_program/src/control_core/control_guard.cpp and control_guard.hpp: the last safety
-- decision before the controllers. The members of the class are the record ControlGuard, except
-- cfg_, which no method writes and every function takes; the event callback is the list of events
-- that a step emits, in order, as one that is set would receive them. Console output is left out.
pub mod Checks
pub mod Stages
pub mod Gating
pub mod Step
mod Keeps
mod Settle
mod Payload
mod TestKeeps
pub mod Estop
pub mod Output
pub mod Failsafe
pub mod Mode
pub mod MotorTest
mod Sample
mod Examples
