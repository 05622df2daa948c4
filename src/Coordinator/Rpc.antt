-- ===== src/Coordinator/Rpc.antt =====
-- The RPC methods of `CoordinatorRPCServerConnectionBase` (crates/off-chain/src/lib.rs) that act on
-- one execution, on the state that all connections share. `self` is the identity of the client
-- certificate. What a method sends to subscribers is part of its result. Where a method gives up
-- the lock, the argument `others` is what other tasks do to the shared state meanwhile.
use stoffel_mpc_coordinator.Prelude.HashMap
use stoffel_mpc_coordinator.Prelude.HashMap.{HashMap}
use stoffel_mpc_coordinator.Prelude.HashSet
use stoffel_mpc_coordinator.Prelude.HashSet.{HashSet}
use stoffel_mpc_coordinator.Prelude.{
  ℕ, not, List, [], ◌∷◌, ◌++◌, Option, none, some, leb, list_eq, nat_eq, is_some, contains, ok, err,
  if◌then◌else◌,
}
use stoffel_mpc_coordinator.Shared.Round.{Round, round_eq, round_index, round_before}
use stoffel_mpc_coordinator.Shared.ExecutionId.{Bytes, ClientIdentity, ExecutionId}
use stoffel_mpc_coordinator.Coordinator.Types.{
  Network, Sink, Event, RpcResult, server_error, invalid_params, not_party, execution_not_found,
}
use stoffel_mpc_coordinator.Coordinator.Topology.{transition_quorum}
use stoffel_mpc_coordinator.Coordinator.Execution.{ExecutionState}
use stoffel_mpc_coordinator.Coordinator.Execution.Rounds.{
  TransitionDelivery, round_sinks, try_advance,
}
use stoffel_mpc_coordinator.Coordinator.Reserve.{reserve_mask_indices, available_input_masks}
use stoffel_mpc_coordinator.Coordinator.Submit.{Submission, submit_record, submit_finish}
use stoffel_mpc_coordinator.Coordinator.Server.{SharedBase, roster_head}

-- The state of an execution after a method has changed it in place.
unfoldable pub put : ExecutionId → ExecutionState → SharedBase → SharedBase
put id d s = record s { executions = HashMap.insert id d s.executions }

-- A step on an execution that is looked up first, as `execution_state` does.
unfoldable pub on_execution {ℓ} :
    {A : Type ℓ}
    → ExecutionId
    → (ExecutionState → ExecutionState × RpcResult A)
    → SharedBase
    → SharedBase × RpcResult A
unfolding put
on_execution id step s = elim (HashMap.get id s.executions) [
  | none ↦ (s, err (server_error execution_not_found))
  | some d ↦ let (d', result) = step d in (put id d' s, result)
]

unfoldable pub quorum : SharedBase → ℕ
quorum s = transition_quorum s.n s.t

unfoldable pub voters_of : ExecutionState → Round → HashSet ClientIdentity
voters_of d r = elim (HashMap.get r d.transition_votes) [ none ↦ [] | some voters ↦ voters ]

-- `transition_votes.entry(next_round).or_default().insert(self.id)`.
unfoldable pub vote : ClientIdentity → Round → ExecutionState → ExecutionState
vote self next_round d = record d {
  transition_votes =
      HashMap.insert next_round (HashSet.insert self (voters_of d next_round)) d.transition_votes;
}

-- The part of `transition` under the lock of the execution.
unfoldable pub propose :
    ℕ
    → ClientIdentity
    → ClientIdentity
    → Round
    → ExecutionState
    → ExecutionState × RpcResult (List TransitionDelivery)
propose quorum head self next_round d =
    if leb (round_index next_round) (round_index d.round)
    then (d, ok [])
    else let (d', deliveries) = try_advance quorum head (vote self next_round d) in
      (d', ok deliveries)

unfoldable pub transition :
    ClientIdentity
    → ExecutionId
    → Round
    → SharedBase
    → SharedBase × RpcResult (List TransitionDelivery)
transition self id next_round s =
    if not (contains s.mpc_nodes self)
    then (s, err (server_error not_party))
    else if not (is_some (round_before next_round))
    then (s, err invalid_params)
    else on_execution id (propose (quorum s) (roster_head s) self next_round) s

unfoldable pub rpc_available_input_masks : ExecutionId → SharedBase → SharedBase × RpcResult ℕ
rpc_available_input_masks id = on_execution id λ d. (d, ok (available_input_masks d))

unfoldable pub rpc_reserve_mask_indices :
    Network → ClientIdentity → ExecutionId → List ℕ → SharedBase → SharedBase × RpcResult (Unit {0})
rpc_reserve_mask_indices net self id indices =
    on_execution id (reserve_mask_indices net self indices)

-- The second part of `submit_masked_inputs`: nothing if the execution is gone.
unfoldable pub finish_submission :
    Network
    → ℕ
    → ClientIdentity
    → ExecutionId
    → Submission
    → SharedBase
    → SharedBase × List TransitionDelivery
finish_submission net quorum head id submission s = elim (HashMap.get id s.executions) [
  | none ↦ (s, [])
  | some d ↦
      let (d', deliveries) = submit_finish net quorum head submission d in (put id d' s, deliveries)
]

unfoldable pub submit_masked_inputs :
    Network
    → ClientIdentity
    → ExecutionId
    → List Bytes
    → List ℕ
    → (SharedBase → SharedBase)
    → SharedBase
    → SharedBase × RpcResult (List TransitionDelivery)
submit_masked_inputs net self id inputs indices others s =
    let (s', result) = on_execution id (submit_record self inputs indices) s in
    elim result [
      | err e ↦ (s', err e)
      | ok submission ↦
          let (s'', deliveries) =
            finish_submission net (quorum s) (roster_head s) id submission (others s') in
          (s'', ok deliveries)
    ]

unfoldable pub submit_masked_input :
    Network
    → ClientIdentity
    → ExecutionId
    → Bytes
    → ℕ
    → (SharedBase → SharedBase)
    → SharedBase
    → SharedBase × RpcResult (List TransitionDelivery)
submit_masked_input net self id input index =
    submit_masked_inputs net self id (input ∷ []) (index ∷ [])

-- `sub_round` once the subscription is accepted: an event of the past is replayed at once,
-- and otherwise the subscriber waits. The result is the message to send.
unfoldable pub await_round :
    Round → Sink → ExecutionState → ExecutionState × RpcResult (Option Event)
await_round round sink d = elim (HashMap.get round d.trans_events) [
  | some event ↦ (d, ok (some event))
  | none ↦ (
    record d { sinks = HashMap.insert round (round_sinks d round ++ sink ∷ []) d.sinks },
    ok none,
  )
]

-- The lock is given up while the subscription is accepted. If the execution is gone then, the
-- subscription is dropped.
unfoldable pub sub_round :
    ExecutionId
    → Round
    → Sink
    → (SharedBase → SharedBase)
    → SharedBase
    → SharedBase × RpcResult (Option Event)
sub_round id round sink others s =
    if not (is_some (round_before round))
    then (s, err invalid_params)
    else if not (HashMap.contains_key id s.executions)
    then (s, err (server_error execution_not_found))
    else let (s', result) = on_execution id (await_round round sink) (others s) in
      (s', elim result [ ok event ↦ ok event | err _ ↦ ok none ])
