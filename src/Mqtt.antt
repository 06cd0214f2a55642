-- ===== src/Mqtt.antt =====
-- crates/ferredge-proto-mqtt/src.
pub mod Package
pub mod Types
pub mod Capture
pub mod Meta
pub mod Plan
pub mod View
pub mod Build
pub mod Request
pub mod Inbound
pub mod Results
pub mod Decode
pub mod Connect
pub mod Auth
pub mod PacketId
pub mod Action
pub mod Session
pub mod Reading
pub mod Recovery
pub mod DriverState
pub mod Driver
pub mod Replay
pub mod Listening
