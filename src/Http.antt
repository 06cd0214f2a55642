-- ===== src/Http.antt =====
-- crates/ferredge-proto-http: the typed capture view, the planners, the encoder and the decoder.
pub mod Types
pub mod Meta
pub mod Plan
pub mod Encode
pub mod Request
pub mod Decode
pub mod WireText
pub mod Wire
