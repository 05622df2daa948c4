-- ===== src/Client.antt =====
-- The client of the coordinator, `OffChainCoordinatorClient` of crates/off-chain/src/lib.rs: the
-- methods that wait for events and that reconstruct outputs. What a subscription delivers is a list:
-- `none` stands for an error of the connection, and the end of the list for the end of the
-- subscription. The cryptography and the secret sharing are parameters.
pub mod Waiting
pub mod Outputs
pub mod Sending
pub mod Sorting
pub mod Inputs
use stoffel_mpc_coordinator.Prelude.{codes, ◌++◌}
use stoffel_mpc_coordinator.Shared.ExecutionId.{Bytes, ExecutionId, as_bytes}

-- The context that output shares are encrypted in.
unfoldable pub execution_enc_info : ExecutionId → Bytes
unfolding as_bytes
execution_enc_info id = codes "StoffelOutputShareEncryption" ++ as_bytes id
