-- ===== src/Modbus.antt =====
-- crates/ferredge-proto-modbus/src.
pub mod Types
pub mod Reconnect
pub mod Frame
pub mod Driver
pub mod Rmodbus
pub mod Float
pub mod Value
pub mod Convert
pub mod Codec
pub mod Transport
pub mod StackTransport
pub mod Plan
