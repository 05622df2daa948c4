-- ===== src/Coordinator/Execution.antt =====
-- `CoordinatorExecutionState` of crates/off-chain/src/lib.rs: the state of one program invocation,
-- and its construction. A subscription's sink stands for itself; sending is in `Network`.
pub mod Rounds
pub mod Cascade
pub mod Delivery
pub mod Precondition
use stoffel_mpc_coordinator.Prelude.HashMap.{HashMap}
use stoffel_mpc_coordinator.Prelude.HashSet.{HashSet}
use stoffel_mpc_coordinator.Prelude.{
  ℕ, suc, ◌+◌, ◌≤◌, ◌<◌, ◌≡◌, refl, Bool, true, false, not, ◌&&◌, ◌||◌, List, [], ◌∷◌, Option, none,
  some, arith, ltb, leb, ◌==◌, Eq, nat_eq, list_eq, is_empty, length, any, replicate, get_elem?,
  Result, ok, err, ◌>>=◌, ◌>>◌, fail_if, if◌then◌else◌,
}
use stoffel_mpc_coordinator.Shared.Round.{Round, idle}
use stoffel_mpc_coordinator.Shared.ExecutionId.{Bytes, ClientIdentity, is_zero, zero_32}
use stoffel_mpc_coordinator.Shared.Errors.{
  CoordinatorError, json_error, zero_execution_id, zero_program_hash, input_count_mismatch,
  client_index_out_of_range, output_quorum_out_of_range,
}
use stoffel_mpc_coordinator.Coordinator.Types.{
  Event, Sink, ExecutionRegistration, InputClientRange, InputSlotAssignment,
  AssignedMaskReservation, AssignedMaskedInputEvent,
}
use stoffel_mpc_coordinator.Coordinator.Inputs.{expand_input_ranges, ranges_total}

-- The lock `masked_input_delivery` holds no data: who has it is part of `System`.
pub record ExecutionState : Type 0 where
  pub registration : ExecutionRegistration
  pub retirement_acks : HashSet ClientIdentity
  pub transition_votes : HashMap Round (HashSet ClientIdentity)
  pub sinks : HashMap Round (List Sink)
  pub trans_events : HashMap Round Event
  pub reserved_index_events : List Event
  pub reserved_index_sinks : List Sink
  pub assigned_reserved_index_events : List AssignedMaskReservation
  pub assigned_reserved_index_sinks : List Sink
  pub masked_input_events : List Event
  pub masked_input_sinks : List Sink
  pub assigned_masked_input_events : List AssignedMaskedInputEvent
  pub assigned_masked_input_sinks : List Sink
  pub n_reserved : ℕ
  pub reserved_indices : List (Option ClientIdentity)
  pub masked_inputs : List (Option Bytes)
  pub round : Round
  pub output_shares : HashMap (ClientIdentity × ClientIdentity) (Bytes × Bytes)
  pub output_sinks : HashMap ClientIdentity Sink
  pub output_clients : List ClientIdentity
  pub input_assignments : List InputSlotAssignment

abbrev out_of_range : ℕ → InputClientRange → Bool
out_of_range n_clients range = leb n_clients range.client_index

unfoldable pub fresh_state : ExecutionRegistration → ExecutionState
fresh_state registration = record {
  registration = registration;
  retirement_acks = [];
  transition_votes = [];
  sinks = [];
  trans_events = [];
  reserved_index_events = [];
  reserved_index_sinks = [];
  assigned_reserved_index_events = [];
  assigned_reserved_index_sinks = [];
  masked_input_events = [];
  masked_input_sinks = [];
  assigned_masked_input_events = [];
  assigned_masked_input_sinks = [];
  n_reserved = 0;
  reserved_indices = replicate registration.n_inputs none;
  masked_inputs = replicate registration.n_inputs none;
  round = idle;
  output_shares = [];
  output_sinks = [];
  output_clients = registration.output_clients;
  input_assignments = expand_input_ranges registration.input_assignment.ranges;
}

-- `CoordinatorExecutionState::new`. On a 64-bit platform `usize::try_from` of a `u64` succeeds.
unfoldable pub new : ExecutionRegistration → ℕ → Result CoordinatorError ExecutionState
unfolding is_zero
new registration n = do
  fail_if (is_zero registration.execution_id) (json_error zero_execution_id)
  fail_if (registration.program_hash == zero_32) (json_error zero_program_hash)
  let ranges = registration.input_assignment.ranges
  fail_if (not (is_empty ranges) && not (registration.n_inputs == ranges_total ranges))
      (json_error input_count_mismatch)
  fail_if (any (out_of_range (length registration.input_assignment.clients)) ranges)
      (json_error client_index_out_of_range)
  fail_if ((registration.min_output_shares == 0) || ltb n registration.min_output_shares)
      (json_error output_quorum_out_of_range)
  ok (fresh_state registration)

unfoldable pub input_slot_client : ExecutionState → InputSlotAssignment → Option ClientIdentity
input_slot_client d slot = get_elem? d.registration.input_assignment.clients slot.client_index
