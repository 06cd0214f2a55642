-- ===== src/Core.antt =====
-- crates/ferredge-core: the message model, the transport capture and the reconnect policy.
pub mod Protocol
pub mod Headers
pub mod Meta
pub mod Payload
pub mod Route
pub mod Command
pub mod Device
pub mod Backoff
pub mod Net
