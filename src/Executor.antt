-- ===== src/Executor.antt =====
-- crates/netfyr-backend/src/executor.rs: the execution and the preview of a plan.
pub mod Lifetime
pub mod Decode
pub mod Locate
pub mod Groups
pub mod Satisfied
pub mod Cascade
pub mod Project
pub mod Action
pub mod Step
pub mod Run
