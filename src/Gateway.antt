-- ===== src/Gateway.antt =====
-- The gateway's GCS side: proto_gcs/ and gateway/, wire format, codec and session.
pub mod Bytes
pub mod Crc32c
pub mod Protocol
pub mod Codec
pub mod Session
pub mod Arbiter
pub mod NavView
mod Examples
