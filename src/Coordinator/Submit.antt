-- ===== src/Coordinator/Submit.antt =====
-- The submission of masked inputs: `submit_masked_inputs` and `submit_masked_input` of
-- crates/off-chain/src/lib.rs, on the state of the execution. The method gives up the lock on the
-- state while it sends to the subscribers, so it is two steps: `submit_record` up to that point,
-- and `submit_finish` after it. It holds the execution's `masked_input_delivery` lock throughout.
pub mod Writes
pub mod Admission
use stoffel_mpc_coordinator.Prelude.{
  ℕ, Bool, not, List, [], ◌∷◌, ◌++◌, Option, none, some, leb, ◌==◌, nat_eq, list_eq, is_empty,
  is_some, length, filter, get_elem?, get_or, set, ok, err, ◌>>=◌, ◌>>◌, fail_if, if◌then◌else◌,
}
use stoffel_mpc_coordinator.Shared.Round.{Round, round_eq, round_index, input_collection}
use stoffel_mpc_coordinator.Shared.ExecutionId.{Bytes, ClientIdentity}
use stoffel_mpc_coordinator.Coordinator.Types.{
  Network, Sink, Event, RpcResult, server_error, wrong_round, mismatched_batch_lengths, empty_batch,
  index_out_of_bounds, bad_id, masked_input_already_submitted, index_not_reserved,
  masked_input_event, AssignedMaskedInputEvent, InputSlotAssignment,
}
use stoffel_mpc_coordinator.Coordinator.Execution.{ExecutionState}
use stoffel_mpc_coordinator.Coordinator.Execution.Rounds.{TransitionDelivery, try_advance}

-- `Iterator::zip`.
abbrev pub zip {ℓ κ} : {A : Type ℓ} {B : Type κ} → List A → List B → List (A × B)
zip [] bs = []
zip (a ∷ as') [] = []
zip (a ∷ as') (b ∷ bs) = (a, b) ∷ zip as' bs

-- The validation of one index.
unfoldable pub check_submission : ClientIdentity → ExecutionState → ℕ → RpcResult (Unit {0})
check_submission id d i = do
  fail_if (leb (length d.masked_inputs) i) (server_error index_out_of_bounds)
  elim (get_or d.reserved_indices i none) [
    | none ↦ err (server_error index_not_reserved)
    | some public_key ↦
        fail_if (not (public_key == id)) (server_error bad_id)
        >> fail_if (is_some (get_or d.masked_inputs i none))
            (server_error masked_input_already_submitted)
  ]

unfoldable pub check_submissions : ClientIdentity → ExecutionState → List ℕ → RpcResult (Unit {0})
check_submissions id d [] = ok tt
check_submissions id d (i ∷ indices) =
    let rest = check_submissions id d indices in check_submission id d i >>= λ _. rest

unfoldable pub check_submit :
    ClientIdentity → List Bytes → List ℕ → ExecutionState → RpcResult (Unit {0})
unfolding round_index
check_submit id inputs indices d = do
  fail_if (not (d.round == input_collection)) (server_error wrong_round)
  fail_if (not (length inputs == length indices)) (server_error mismatched_batch_lengths)
  fail_if (is_empty indices) (server_error empty_batch)
  check_submissions id d indices

-- The writes of the loop that records.
unfoldable pub write_inputs : List (ℕ × Bytes) → List (Option Bytes) → List (Option Bytes)
write_inputs [] slots = slots
write_inputs ((i, input) ∷ pairs) slots = write_inputs pairs (set slots i (some input))

-- The events of the loop, one for each assigned slot.
unfoldable pub assigned_inputs :
    ClientIdentity → List InputSlotAssignment → List (ℕ × Bytes) → List AssignedMaskedInputEvent
assigned_inputs id assignments [] = []
assigned_inputs id assignments ((i, input) ∷ pairs) =
    let rest = assigned_inputs id assignments pairs in
    elim (get_elem? assignments i) [
      | none ↦ rest
      | some slot ↦
          record {
            client = id;
            reserved_index = i;
            input_ordinal = slot.label;
            masked_input = input;
          }
          ∷ rest
    ]

-- What the task keeps while the lock is given up.
pub record Submission : Type 0 where
  pub event : Event
  pub assigned_events : List AssignedMaskedInputEvent
  pub sinks : List Sink
  pub assigned_sinks : List Sink

unfoldable pub recorded : ClientIdentity → List (ℕ × Bytes) → ExecutionState → ExecutionState
recorded id pairs d =
    let assigned = assigned_inputs id d.input_assignments pairs in
    record d {
      masked_inputs = write_inputs pairs d.masked_inputs;
      masked_input_events = d.masked_input_events ++ masked_input_event id pairs ∷ [];
      assigned_masked_input_events = d.assigned_masked_input_events ++ assigned;
      masked_input_sinks = [];
      assigned_masked_input_sinks = if is_empty assigned then d.assigned_masked_input_sinks else [];
    }

unfoldable pub submission : ClientIdentity → List (ℕ × Bytes) → ExecutionState → Submission
submission id pairs d =
    let assigned = assigned_inputs id d.input_assignments pairs in
    record {
      event = masked_input_event id pairs;
      assigned_events = assigned;
      sinks = d.masked_input_sinks;
      assigned_sinks = if is_empty assigned then [] else d.assigned_masked_input_sinks;
    }

unfoldable pub submit_record :
    ClientIdentity → List Bytes → List ℕ → ExecutionState → ExecutionState × RpcResult Submission
submit_record id inputs indices d = elim (check_submit id inputs indices d) [
  | err e ↦ (d, err e)
  | ok _ ↦ let pairs = zip indices inputs in (recorded id pairs d, ok (submission id pairs d))
]

-- The subscribers that took the message come back, and rounds that waited for the input are tried.
unfoldable pub returned : Network → Submission → ExecutionState → ExecutionState
returned net s d = record d {
  masked_input_sinks = d.masked_input_sinks ++ filter net.sent s.sinks;
  assigned_masked_input_sinks = d.assigned_masked_input_sinks ++ filter net.sent s.assigned_sinks;
}

unfoldable pub submit_finish :
    Network
    → ℕ
    → ClientIdentity
    → Submission
    → ExecutionState
    → ExecutionState × List TransitionDelivery
submit_finish net quorum roster_head s d = try_advance quorum roster_head (returned net s d)
