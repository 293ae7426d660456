-- ===== src/Schema.antt =====
-- crates/netfyr-state/src/schema.rs: the schema dialect and the validation of states.
pub mod Types
pub mod Format
pub mod Walk
pub mod Registry
pub mod Embedded
pub mod Modes
pub mod Removal
pub mod Routing
pub mod Extend
pub mod Unextended
mod Tests
pub mod Removed
