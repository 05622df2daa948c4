-- ===== src/Shared.antt =====
-- The shared crate (crates/coord-shared/src/lib.rs): execution identifiers, protocol rounds, errors.
pub mod Round
pub mod ExecutionId
pub mod Hex
pub mod Errors
