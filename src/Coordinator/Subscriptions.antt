-- ===== src/Coordinator/Subscriptions.antt =====
-- Subscriptions to reservations and to masked inputs (crates/off-chain/src/lib.rs): a subscriber is
-- sent the history before it is registered. `taken` says which of the messages of the replay are
-- taken in time; the result has those that were.
pub mod Feed
pub mod Unaffected
pub mod History
use stoffel_mpc_coordinator.Prelude.HashMap
use stoffel_mpc_coordinator.Prelude.{
  ℕ, suc, Bool, true, false, not, List, [], ◌∷◌, ◌++◌, is_empty, list_eq, nat_eq, ok, err,
  if◌then◌else◌,
}
use stoffel_mpc_coordinator.Shared.ExecutionId.{ExecutionId}
use stoffel_mpc_coordinator.Coordinator.Types.{
  Sink, Event, AssignedMaskReservation, AssignedMaskedInputEvent, RpcResult, server_error,
  execution_not_found,
}
use stoffel_mpc_coordinator.Coordinator.Execution.{ExecutionState}
use stoffel_mpc_coordinator.Coordinator.Server.{SharedBase}
use stoffel_mpc_coordinator.Coordinator.Rpc.{on_execution}

-- The loop of a replay, and whether it came to the end.
unfoldable pub replay {ℓ} : {E : Type ℓ} → (ℕ → Bool) → ℕ → List E → List E × Bool
replay taken i [] = ([], true)
replay taken i (e ∷ events) =
    let (messages, done) = replay taken (suc i) events in
    if taken i then (e ∷ messages, done) else ([], false)

-- The replay in one message, and none if there is nothing to send.
unfoldable pub replay_batch {ℓ} : {E : Type ℓ} → (ℕ → Bool) → List E → List (List E) × Bool
replay_batch taken events =
    if is_empty events then ([], true) else if taken 0 then (events ∷ [], true) else ([], false)

unfoldable pub subscribe_reserved_indices :
    (ℕ → Bool) → Sink → ExecutionState → ExecutionState × List Event
subscribe_reserved_indices taken sink d =
    let (messages, done) = replay taken 0 d.reserved_index_events in
    (
      if done then record d { reserved_index_sinks = d.reserved_index_sinks ++ sink ∷ [] } else d,
      messages,
    )

unfoldable pub subscribe_masked_inputs :
    (ℕ → Bool) → Sink → ExecutionState → ExecutionState × List Event
subscribe_masked_inputs taken sink d =
    let (messages, done) = replay taken 0 d.masked_input_events in
    (
      if done then record d { masked_input_sinks = d.masked_input_sinks ++ sink ∷ [] } else d,
      messages,
    )

unfoldable pub subscribe_assigned_reserved_indices :
    (ℕ → Bool) → Sink → ExecutionState → ExecutionState × List (List AssignedMaskReservation)
subscribe_assigned_reserved_indices taken sink d =
    let (messages, done) = replay_batch taken d.assigned_reserved_index_events in
    (
      if done
          then record d {
            assigned_reserved_index_sinks = d.assigned_reserved_index_sinks ++ sink ∷ [];
          }
          else d,
      messages,
    )

unfoldable pub subscribe_assigned_masked_inputs :
    (ℕ → Bool) → Sink → ExecutionState → ExecutionState × List (List AssignedMaskedInputEvent)
subscribe_assigned_masked_inputs taken sink d =
    let (messages, done) = replay_batch taken d.assigned_masked_input_events in
    (
      if done
          then record d { assigned_masked_input_sinks = d.assigned_masked_input_sinks ++ sink ∷ [] }
          else d,
      messages,
    )

-- The RPC methods: the lock is given up while the subscription is accepted, and an execution that
-- is gone then ends the subscription without a message.
unfoldable pub sub_history {ℓ} :
    {M : Type ℓ}
    → (ExecutionState → ExecutionState × List M)
    → ExecutionId
    → (SharedBase → SharedBase)
    → SharedBase
    → SharedBase × RpcResult (List M)
unfolding on_execution
sub_history subscribe id others s =
    if not (HashMap.contains_key id s.executions)
    then (s, err (server_error execution_not_found))
    else let (s', result) =
        on_execution id (λ d. let (d', messages) = subscribe d in (d', ok messages)) (others s) in
      (s', elim result [ ok messages ↦ ok messages | err _ ↦ ok [] ])

unfoldable pub sub_reserved_indices :
    (ℕ → Bool)
    → ExecutionId
    → Sink
    → (SharedBase → SharedBase)
    → SharedBase
    → SharedBase × RpcResult (List Event)
unfolding sub_history
sub_reserved_indices taken id sink = sub_history (subscribe_reserved_indices taken sink) id

unfoldable pub sub_masked_inputs :
    (ℕ → Bool)
    → ExecutionId
    → Sink
    → (SharedBase → SharedBase)
    → SharedBase
    → SharedBase × RpcResult (List Event)
unfolding sub_history
sub_masked_inputs taken id sink = sub_history (subscribe_masked_inputs taken sink) id

unfoldable pub sub_assigned_reserved_indices :
    (ℕ → Bool)
    → ExecutionId
    → Sink
    → (SharedBase → SharedBase)
    → SharedBase
    → SharedBase × RpcResult (List (List AssignedMaskReservation))
unfolding sub_history
sub_assigned_reserved_indices taken id sink =
    sub_history (subscribe_assigned_reserved_indices taken sink) id

unfoldable pub sub_assigned_masked_inputs :
    (ℕ → Bool)
    → ExecutionId
    → Sink
    → (SharedBase → SharedBase)
    → SharedBase
    → SharedBase × RpcResult (List (List AssignedMaskedInputEvent))
unfolding sub_history
sub_assigned_masked_inputs taken id sink =
    sub_history (subscribe_assigned_masked_inputs taken sink) id
