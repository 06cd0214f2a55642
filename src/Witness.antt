-- ===== src/Witness.antt =====
-- Concrete devices, commands and frames, the theorems at them, and runs of the definitions.
pub mod Data
pub mod Core
pub mod Bridge
pub mod Http
pub mod Modbus
pub mod Transport
pub mod MqttData
pub mod Mqtt
pub mod MqttDriver
pub mod Wire
