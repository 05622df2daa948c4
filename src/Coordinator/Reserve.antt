-- ===== src/Coordinator/Reserve.antt =====
-- The reservation of input masks: `reserve_mask_indices`, `reserve_mask_index` and
-- `available_input_masks` of crates/off-chain/src/lib.rs, on the state of the execution. The lock
-- on the execution's state is held from the first line to the last.
pub mod Slots
pub mod Admission
pub mod Counting
use stoffel_mpc_coordinator.Prelude.{
  ℕ, Bool, not, List, [], ◌∷◌, ◌++◌, Option, none, some, leb, ◌==◌, nat_eq, list_eq, option_eq,
  is_empty, is_some, length, any, filter, get_elem?, get_or, set, ok, err, ◌>>=◌, ◌>>◌, fail_if,
  if◌then◌else◌, u64_add, u64_sub,
}
use stoffel_mpc_coordinator.Shared.Round.{round_eq, round_index, input_mask_reservation}
use stoffel_mpc_coordinator.Shared.ExecutionId.{ClientIdentity}
use stoffel_mpc_coordinator.Coordinator.Types.{
  Network, RpcResult, server_error, wrong_round, empty_batch, client_already_reserved,
  index_out_of_bounds, index_already_reserved, unauthorized_client_io, reserved_input_event,
  AssignedMaskReservation, InputSlotAssignment,
}
use stoffel_mpc_coordinator.Coordinator.Execution.{ExecutionState, input_slot_client}

-- Whether an owner is recorded and is this client.
abbrev pub owned_by : ClientIdentity → Option ClientIdentity → Bool
owned_by id owner = owner == some id

-- The validation of one index.
unfoldable pub check_reservation : ClientIdentity → ExecutionState → ℕ → RpcResult (Unit {0})
unfolding input_slot_client
check_reservation id d i = do
  fail_if (leb (length d.reserved_indices) i) (server_error index_out_of_bounds)
  fail_if (is_some (get_or d.reserved_indices i none)) (server_error index_already_reserved)
  elim (get_elem? d.input_assignments i) [
    | none ↦ ok tt
    | some slot ↦
        fail_if (not (owned_by id (input_slot_client d slot))) (server_error unauthorized_client_io)
  ]

-- The validation loop: it ends at the first index that fails.
unfoldable pub check_reservations : ClientIdentity → ExecutionState → List ℕ → RpcResult (Unit {0})
check_reservations id d [] = ok tt
check_reservations id d (i ∷ indices) =
    let rest = check_reservations id d indices in check_reservation id d i >>= λ _. rest

unfoldable pub check_reserve : ClientIdentity → ExecutionState → List ℕ → RpcResult (Unit {0})
unfolding round_index
check_reserve id d indices = do
  fail_if (not (d.round == input_mask_reservation)) (server_error wrong_round)
  fail_if (is_empty indices) (server_error empty_batch)
  fail_if (any (owned_by id) d.reserved_indices) (server_error client_already_reserved)
  check_reservations id d indices

-- The event for one index, if it is an assigned slot.
unfoldable pub assigned_reservation :
    ClientIdentity → List InputSlotAssignment → ℕ → List AssignedMaskReservation
assigned_reservation id assignments i = elim (get_elem? assignments i) [
  | none ↦ []
  | some slot ↦ record { client = id; reserved_index = i; input_ordinal = slot.label } ∷ []
]

unfoldable pub assigned_reservations :
    ClientIdentity → List InputSlotAssignment → List ℕ → List AssignedMaskReservation
unfolding assigned_reservation
assigned_reservations id assignments [] = []
assigned_reservations id assignments (i ∷ indices) =
    assigned_reservation id assignments i ++ assigned_reservations id assignments indices

-- The writes of the loop that reserves.
unfoldable pub reserve_one : ClientIdentity → ℕ → ExecutionState → ExecutionState
reserve_one id i d = record d {
  reserved_indices = set d.reserved_indices i (some id);
  n_reserved = u64_add d.n_reserved 1;
}

unfoldable pub reserve_each : ClientIdentity → List ℕ → ExecutionState → ExecutionState
unfolding reserve_one
reserve_each id [] d = d
reserve_each id (i ∷ indices) d = reserve_each id indices (reserve_one id i d)

-- The events, and the subscribers that stay. Those that miss the message are dropped; the
-- assigned ones are sent to only if there is something to send.
unfoldable pub publish_reservation :
    Network
    → ClientIdentity
    → List ℕ
    → List AssignedMaskReservation
    → ExecutionState
    → ExecutionState
publish_reservation net id indices assigned d = record d {
  reserved_index_events = d.reserved_index_events ++ reserved_input_event id indices ∷ [];
  assigned_reserved_index_events = d.assigned_reserved_index_events ++ assigned;
  reserved_index_sinks = filter net.sent d.reserved_index_sinks;
  assigned_reserved_index_sinks =
      if is_empty assigned
      then d.assigned_reserved_index_sinks
      else filter net.sent d.assigned_reserved_index_sinks;
}

unfoldable pub reserve_mask_indices :
    Network → ClientIdentity → List ℕ → ExecutionState → ExecutionState × RpcResult (Unit {0})
reserve_mask_indices net id indices d = elim (check_reserve id d indices) [
  | err e ↦ (d, err e)
  | ok _ ↦
      let assigned = assigned_reservations id d.input_assignments indices in
      (publish_reservation net id indices assigned (reserve_each id indices d), ok tt)
]

unfoldable pub reserve_mask_index :
    Network → ClientIdentity → ℕ → ExecutionState → ExecutionState × RpcResult (Unit {0})
unfolding reserve_mask_indices
reserve_mask_index net id i d = reserve_mask_indices net id (i ∷ []) d

unfoldable pub available_input_masks : ExecutionState → ℕ
available_input_masks d = u64_sub (length d.masked_inputs) d.n_reserved
