-- ===== src/Tests.antt =====
-- Runs of the definitions on concrete data, and each theorem applied to such data.
pub mod Data
pub mod Topology
pub mod Inputs
pub mod Rounds
pub mod Runs
pub mod Node
pub mod Registering
pub mod Outputs
pub mod Hex
pub mod RunCoord
pub mod Browser
pub mod Sessions
pub mod Subscribers
pub mod Client
