-- ===== src/RunCoord.antt =====
-- The command-line program of the off-chain coordinator, crates/bins/src/bin/run-coord.rs: how it
-- reads the one-off execution and makes the input assignment.
pub mod Arguments
pub mod Assignment
