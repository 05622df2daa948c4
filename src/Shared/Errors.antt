-- ===== src/Shared/Errors.antt =====
-- `CoordinatorError` and `NodeRPCError` of crates/coord-shared/src/lib.rs.
use stoffel_mpc_coordinator.Prelude.{ℕ}
use stoffel_mpc_coordinator.Shared.ExecutionId.{Bytes, ClientIdentity}

-- What the text of a `JSONError` says; the formatted text itself is not modelled.
pub data JsonReason : Type 0 where
  no_mpc_nodes node_count_mismatch threshold_not_below_n too_few_nodes : JsonReason
  node_identities_not_unique zero_execution_id zero_program_hash : JsonReason
  input_count_mismatch client_index_out_of_range output_quorum_out_of_range : JsonReason
  output_quorum_overflow registered_differently capacity_reached : JsonReason
  not_configured_party already_registered rpc_failure : JsonReason

pub data CoordinatorError : Type 0 where
  index_already_reserved masked_input_already_sent : ℕ → CoordinatorError
  mask_reconstruction_failed : ℕ → CoordinatorError
  ethereum_error : Bytes → CoordinatorError
  u256_to_fr_error u256_to_u64_error u64_to_usize_error : CoordinatorError
  parsing_der_as_pkcs8_failed parsing_private_key_failed : CoordinatorError
  deserialization_error serialization_error parsing_public_key_failed : CoordinatorError
  encryption_error decryption_error : CoordinatorError
  json_error : JsonReason → CoordinatorError
  subscription_error : Bytes → CoordinatorError
  parsing_encapsulated_key_failed cannot_transition_to_idle share_error : CoordinatorError
  bind_error connect_error tls_config_error : Bytes → CoordinatorError

pub data NodeRpcError : Type 0 where
  execution_not_found index_already_added index_not_added json_failed : NodeRpcError
  serialization_failed : NodeRpcError
  ethereum_failed : Bytes → NodeRpcError
  authentication_failed : ClientIdentity → NodeRpcError
