-- ===== src/Gateway/Session.antt =====
-- gateway/src/session/gcs_session.cpp and gcs_session.hpp: the session between a ground station and
-- the vehicle. Time and random numbers are arguments; a callback that is called is an event.
pub mod Types
pub mod Handle
pub mod Receive
pub mod Commands
pub mod Order
pub mod Answers
pub mod Handshake
pub mod Timeout
pub mod Telemetry
mod Sample
mod Examples
