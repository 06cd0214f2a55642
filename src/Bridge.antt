-- ===== src/Bridge.antt =====
-- crates/ferredge-bridge: the intermediate representation and the semantic planners.
pub mod Message
pub mod Planner
