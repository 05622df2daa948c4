-- ===== src/Coordinator/System.antt =====
-- The coordinator as a whole (crates/off-chain/src/lib.rs): its RPC methods cut into the sections
-- that run under the lock on the shared state, as actions that any task may take at any time.
-- `in_flight` holds the submission of each task that has taken a `masked_input_delivery` lock;
-- `transition` and `submit_masked_inputs` wait for it, so their actions do nothing while it is
-- taken. The lock is an object in the state of an execution, of which a task clones the reference
-- beforehand. The execution may be evicted and registered anew since, with a lock of its own, so an
-- action names the lock that its task has cloned, and may name any. The parties never change, so a
-- method's look at them joins the section that comes next.
pub mod Soundness
pub mod Safety
pub mod Registration
pub mod Interleaving
pub mod Honest
use stoffel_mpc_coordinator.Prelude.HashMap
use stoffel_mpc_coordinator.Prelude.HashMap.{HashMap}
use stoffel_mpc_coordinator.Prelude.{
  ℕ, Bool, true, false, not, List, [], ◌∷◌, Option, none, some, list_eq, nat_eq, contains, ok, err,
  if◌then◌else◌, is_some,
}
use stoffel_mpc_coordinator.Shared.Round.{Round}
use stoffel_mpc_coordinator.Shared.ExecutionId.{Bytes, ClientIdentity, ExecutionId}
use stoffel_mpc_coordinator.Coordinator.Types.{Network, Sink, ExecutionRegistration}
use stoffel_mpc_coordinator.Coordinator.Execution.{ExecutionState}
use stoffel_mpc_coordinator.Coordinator.Submit.{Submission, submit_record}
use stoffel_mpc_coordinator.Coordinator.Server.{
  SharedBase, roster_head, rpc_register_execution, rpc_retire_execution, request_shutdown,
}
use stoffel_mpc_coordinator.Coordinator.Rpc.{
  on_execution, put, quorum, transition, rpc_reserve_mask_indices, finish_submission, await_round,
}
use stoffel_mpc_coordinator.Coordinator.Outputs.{
  EncShares, check_output_shares, with_shares, ready_output_snapshot, forget_waiter, reject_output,
}

-- A `masked_input_delivery` object.
abbrev pub DeliveryLock : Type 0
DeliveryLock = ℕ

pub record System : Type 0 where
  pub shared : SharedBase
  pub in_flight : HashMap DeliveryLock (ExecutionId × Submission)

pub data Action : Type 0 where
  register : ClientIdentity → ExecutionRegistration → Action
  retire : ClientIdentity → ExecutionId → Action
  ask_shutdown : ClientIdentity → Action
  propose_round : DeliveryLock → ClientIdentity → ExecutionId → Round → Action
  subscribe_round : ExecutionId → Round → Sink → Action
  reserve : Network → ClientIdentity → ExecutionId → List ℕ → Action
  begin_submit : DeliveryLock → ClientIdentity → ExecutionId → List Bytes → List ℕ → Action
  end_submit : Network → DeliveryLock → Action
  store_shares : ClientIdentity → ExecutionId → ClientIdentity → EncShares → Action
  notify_client : Network → ExecutionId → ClientIdentity → Action
  drop_waiter : ExecutionId → ClientIdentity → Sink → Action
  subscribe_outputs : Network → ClientIdentity → ExecutionId → Sink → Action

-- A change of one execution in place; nothing if it is not there.
unfoldable pub modify : ExecutionId → (ExecutionState → ExecutionState) → SharedBase → SharedBase
unfolding put
modify id f s = elim (HashMap.get id s.executions) [ none ↦ s | some d ↦ put id (f d) s ]

unfoldable pub store :
    ClientIdentity → ClientIdentity → EncShares → Bool → ExecutionState → ExecutionState
store self client enc_shares is_party d =
    if is_some (check_output_shares is_party self client d)
    then d
    else with_shares self client enc_shares d

unfoldable pub open_outputs : Network → ClientIdentity → Sink → ExecutionState → ExecutionState
open_outputs net self sink d =
    if is_some (reject_output net self d)
    then d
    else record d { output_sinks = HashMap.insert self sink d.output_sinks }

unfoldable pub begin :
    DeliveryLock → ClientIdentity → ExecutionId → List Bytes → List ℕ → System → System
begin lock self id inputs indices sys =
    let (shared, result) = on_execution id (submit_record self inputs indices) sys.shared in
    elim result [
      | err _ ↦ record sys { shared = shared }
      | ok submission ↦ record {
        shared = shared;
        in_flight = HashMap.insert lock (id, submission) sys.in_flight;
      }
    ]

unfoldable pub finish : Network → DeliveryLock → ExecutionId → Submission → System → System
finish net lock id submission sys = record {
  shared = (finish_submission net (quorum s) (roster_head s) id submission s).0;
  in_flight = HashMap.remove lock sys.in_flight;
}
  where
    open sys use {shared as s}

unfoldable pub step : Action → System → System
unfolding modify store open_outputs begin finish
step (register self registration) sys = record sys {
  shared = (rpc_register_execution self registration sys.shared).0;
}
step (retire self id) sys = record sys { shared = (rpc_retire_execution self id sys.shared).0 }
step (ask_shutdown self) sys = record sys { shared = (request_shutdown self sys.shared).0 }
step (propose_round lock self id next_round) sys =
    if HashMap.contains_key lock sys.in_flight
    then sys
    else record sys { shared = (transition self id next_round sys.shared).0 }
step (subscribe_round id round sink) sys = record sys {
  shared = (on_execution id (await_round round sink) sys.shared).0;
}
step (reserve net self id indices) sys = record sys {
  shared = (rpc_reserve_mask_indices net self id indices sys.shared).0;
}
step (begin_submit lock self id inputs indices) sys =
    if HashMap.contains_key lock sys.in_flight then sys else begin lock self id inputs indices sys
step (end_submit net lock) sys = elim (HashMap.get lock sys.in_flight) [
  | none ↦ sys
  | some (id, submission) ↦ finish net lock id submission sys
]
step (store_shares self id client enc_shares) sys = record sys {
  shared = modify id (store self client enc_shares (contains sys.shared.mpc_nodes self)) sys.shared;
}
step (notify_client net id client) sys = record sys {
  shared =
      modify id (λ d. (ready_output_snapshot net client d.registration.min_output_shares d).0)
        sys.shared;
}
step (drop_waiter id client waiter) sys = record sys {
  shared = modify id (forget_waiter client waiter) sys.shared;
}
step (subscribe_outputs net self id sink) sys = record sys {
  shared = modify id (open_outputs net self sink) sys.shared;
}

-- Any interleaving of the tasks is such a list.
unfoldable pub run : List Action → System → System
unfolding step
run [] sys = sys
run (action ∷ actions) sys = run actions (step action sys)
