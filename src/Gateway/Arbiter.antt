-- ===== src/Gateway/Arbiter.antt =====
-- gateway/src/IPC/intent/intent_arbiter.cpp and intent_arbiter.hpp: the choice of one intent among
-- those of several sources. The intent itself is shared::msg::ControlIntent, declared outside this
-- repository.
pub mod Types
pub mod Decide
pub mod Sorted
pub mod Pick
pub mod Winner
pub mod Eligible
pub mod Degrade
mod Examples
