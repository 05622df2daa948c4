-- ===== src/Coordinator/Server.antt =====
-- `CoordinatorRPCServerSharedBase` of crates/off-chain/src/lib.rs: the executions of a coordinator,
-- their registration and retirement, and the shutdown request. The browser's key bindings stand
-- behind a lock of their own and are not part of this state.
pub mod Registering
use stoffel_mpc_coordinator.Prelude.HashMap
use stoffel_mpc_coordinator.Prelude.HashMap.{HashMap}
use stoffel_mpc_coordinator.Prelude.HashSet
use stoffel_mpc_coordinator.Prelude.HashSet.{HashSet}
use stoffel_mpc_coordinator.Prelude.{
  ℕ, ◌+◌, ◌*◌, Bool, true, false, not, ◌&&◌, ◌||◌, List, [], Option, none, some, leb, ◌==◌, nat_eq,
  list_eq, option_eq, length, find, get_or, contains, Result, ok, err, ◌>>=◌, ◌>>◌, fail_if,
  if◌then◌else◌, u64_mod,
}
use stoffel_mpc_coordinator.Shared.Round.{Round, round_eq, round_index, program_finished}
use stoffel_mpc_coordinator.Shared.ExecutionId.{Bytes, ClientIdentity, ExecutionId}
use stoffel_mpc_coordinator.Shared.Errors.{
  CoordinatorError, json_error, registered_differently, capacity_reached, not_configured_party,
  output_quorum_overflow,
}
use stoffel_mpc_coordinator.Coordinator.Types.{
  ExecutionRegistration, registration_beq, RpcResult, server_error, not_party,
  execution_already_registered, execution_not_found, not_designated_party, shutdown_not_accepted,
  wrong_round, InputAssignment,
}
use stoffel_mpc_coordinator.Coordinator.Topology.{validate_topology, retirement_quorum}
use stoffel_mpc_coordinator.Coordinator.Execution.{ExecutionState}
use stoffel_mpc_coordinator.Coordinator.Execution
use stoffel_mpc_coordinator.Coordinator.Retired.{
  RetiredExecutions, no_retired, seal, acknowledge, contains_sealed,
}

-- `DEFAULT_MAX_CONCURRENT_EXECUTIONS`.
abbrev pub max_executions : ℕ
max_executions = 1024

-- `shutdown_notify` is true while a receiver waits for the request.
pub record SharedBase : Type 0 where
  pub mpc_nodes : List ClientIdentity
  pub n : ℕ
  pub t : ℕ
  pub executions : HashMap ExecutionId ExecutionState
  pub shutdown_notify : Bool
  pub one_off_execution : Option ExecutionId
  pub retired : RetiredExecutions

-- A coordinator without executions.
abbrev pub initial : ℕ → ℕ → List ClientIdentity → SharedBase
initial n t initial_mpc_nodes = record {
  mpc_nodes = initial_mpc_nodes;
  n = n;
  t = t;
  executions = [];
  shutdown_notify = false;
  one_off_execution = none;
  retired = no_retired;
}

unfoldable pub new : ℕ → ℕ → List ClientIdentity → Result CoordinatorError SharedBase
new n t initial_mpc_nodes = do
  validate_topology n t initial_mpc_nodes
  ok (initial n t initial_mpc_nodes)

-- An execution that may give up its place: not the one-off one, and retired by a quorum.
unfoldable pub evictable : SharedBase → ExecutionId × ExecutionState → Bool
evictable s (id, execution) =
    not (s.one_off_execution == some id)
    && leb (retirement_quorum s.n s.t) (length execution.retirement_acks)

unfoldable pub evict : ExecutionId → ExecutionState → SharedBase → SharedBase
evict id execution s = record s {
  executions = HashMap.remove id s.executions;
  retired = seal id execution.retirement_acks s.retired;
}

-- The last three lines of `register_execution`.
unfoldable pub admit :
    ExecutionRegistration → SharedBase → SharedBase × Result CoordinatorError (Unit {0})
admit registration s = elim (Execution.new registration s.n) [
  | err e ↦ (s, err e)
  | ok execution ↦ (
    record s { executions = HashMap.insert registration.execution_id execution s.executions },
    ok tt,
  )
]

-- What `register_execution` does at capacity.
unfoldable pub make_room :
    ExecutionRegistration → SharedBase → SharedBase × Result CoordinatorError (Unit {0})
make_room registration s = elim (find (evictable s) s.executions) [
  | some (id, execution) ↦ admit registration (evict id execution s)
  | none ↦ (s, err (json_error capacity_reached))
]

unfoldable pub register_execution :
    ExecutionRegistration → SharedBase → SharedBase × Result CoordinatorError (Unit {0})
register_execution registration s = elim (HashMap.get registration.execution_id s.executions) [
  | some existing ↦ (
    s,
    if registration_beq existing.registration registration
        then ok tt
        else err (json_error registered_differently),
  )
  | none ↦
      if leb max_executions (length s.executions)
      then make_room registration s
      else admit registration s
]

-- `new_for_execution`, with the output quorum `2 t + 1` checked for overflow.
unfoldable pub new_for_execution :
    ExecutionId
    → Bytes
    → ℕ
    → ℕ
    → List ClientIdentity
    → ℕ
    → List ClientIdentity
    → InputAssignment
    → Result CoordinatorError SharedBase
new_for_execution execution_id prog_hash n t initial_mpc_nodes n_inputs output_clients assignment =
    do
      fail_if (leb u64_mod (2 * t + 1)) (json_error output_quorum_overflow)
      shared ← new n t initial_mpc_nodes
      let registration : ExecutionRegistration = record {
        execution_id = execution_id;
        program_hash = prog_hash;
        n_inputs = n_inputs;
        output_clients = output_clients;
        input_assignment = assignment;
        min_output_shares = 2 * t + 1;
      }
      let (registered, result) = register_execution registration shared
      result >>= λ _. ok registered

unfoldable pub round : ExecutionId → SharedBase → Option Round
round id s = elim (HashMap.get id s.executions) [
  | none ↦ none
  | some execution ↦ some execution.round
]

unfoldable pub watch_for_shutdown_request : ExecutionId → SharedBase → SharedBase
watch_for_shutdown_request id s = record s { shutdown_notify = true; one_off_execution = some id }

-- One acknowledgement more.
unfoldable pub acked : ClientIdentity → ExecutionState → ExecutionState
acked party execution = record execution {
  retirement_acks = HashSet.insert party execution.retirement_acks;
}

-- For an execution that is neither there nor sealed, nothing.
unfoldable pub record_ack : ExecutionId → ClientIdentity → SharedBase → SharedBase
record_ack id party s = elim (HashMap.get id s.executions) [
  | none ↦ s
  | some execution ↦ record s {
    executions = HashMap.insert id (acked party execution) s.executions;
  }
]

unfoldable pub retire_execution :
    ExecutionId → ClientIdentity → SharedBase → SharedBase × Result CoordinatorError (Unit {0})
retire_execution id party s =
    if not (contains s.mpc_nodes party)
    then (s, err (json_error not_configured_party))
    else let (retired, known) = acknowledge id party (length s.mpc_nodes) s.retired in
      elim known [
        | true ↦ (record s { retired = retired }, ok tt)
        | false ↦ (record_ack id party s, ok tt)
      ]

unfoldable pub is_retired : ExecutionId → SharedBase → Bool
is_retired id s = contains_sealed id s.retired || elim (HashMap.get id s.executions) [
  | none ↦ false
  | some execution ↦ leb (retirement_quorum s.n s.t) (length execution.retirement_acks)
]

-- How many parties have acknowledged, of how many, and whether that is complete.
unfoldable pub retirement_progress : ExecutionId → SharedBase → ℕ × ℕ × Bool
retirement_progress id s =
    let n = length s.mpc_nodes in
    elim (HashMap.get id s.executions) [
      | some execution ↦
          (length execution.retirement_acks, n, leb n (length execution.retirement_acks))
      | none ↦ elim (HashMap.get id s.retired.acks) [
        | some acks ↦ (length acks, n, false)
        | none ↦ (n, n, true)
      ]
    ]

-- The RPC methods of a connection whose client certificate names `self`.
unfoldable pub rpc_register_execution :
    ClientIdentity → ExecutionRegistration → SharedBase → SharedBase × RpcResult (Unit {0})
rpc_register_execution self registration s =
    if not (contains s.mpc_nodes self)
    then (s, err (server_error not_party))
    else let (s', result) = register_execution registration s in
      (s', elim result [ ok _ ↦ ok tt | err _ ↦ err (server_error execution_already_registered) ])

unfoldable pub rpc_retire_execution :
    ClientIdentity → ExecutionId → SharedBase → SharedBase × RpcResult (Unit {0})
rpc_retire_execution self id s =
    if not (contains s.mpc_nodes self)
    then (s, err (server_error not_party))
    else let (s', result) = retire_execution id self s in
      (s', elim result [ ok _ ↦ ok tt | err _ ↦ err (server_error execution_not_found) ])

-- `mpc_nodes[0]`; the topology check refuses an empty list.
unfoldable pub roster_head : SharedBase → ClientIdentity
roster_head s = get_or s.mpc_nodes 0 []

unfoldable pub request_shutdown : ClientIdentity → SharedBase → SharedBase × RpcResult (Unit {0})
unfolding roster_head round round_index
request_shutdown self s =
    if not (self == roster_head s)
    then (s, err (server_error not_designated_party))
    else elim s.one_off_execution [
      | none ↦ (s, err (server_error shutdown_not_accepted))
      | some id ↦
          if not (round id s == some program_finished)
          then (s, err (server_error wrong_round))
          else if s.shutdown_notify
          then (record s { shutdown_notify = false }, ok tt)
          else (s, err (server_error shutdown_not_accepted))
    ]
