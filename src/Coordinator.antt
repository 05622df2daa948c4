-- ===== src/Coordinator.antt =====
-- The off-chain coordinator server (crates/off-chain/src/lib.rs).
pub mod Types
pub mod Topology
pub mod Inputs
pub mod Execution
pub mod Reserve
pub mod Submit
pub mod Retired
pub mod Server
pub mod Rpc
pub mod Outputs
pub mod Subscriptions
pub mod System
