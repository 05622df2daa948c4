-- ===== src/Node.antt =====
-- The node-side RPC server, the module `node_rpc` of crates/off-chain/src/lib.rs: a node hands the
-- mask shares of a client's reserved indices to that client, once it has them all. The lock on an
-- execution's state is held from the first line of a method to the last that changes the state.
pub mod Range
pub mod Waiting
pub mod MaskShares
pub mod Requests
pub mod Delivery
pub mod Served
use stoffel_mpc_coordinator.Prelude.HashMap
use stoffel_mpc_coordinator.Prelude.HashMap.{HashMap}
use stoffel_mpc_coordinator.Prelude.{
  ℕ, zero, suc, ◌+◌, Bool, true, false, not, List, [], ◌∷◌, ◌++◌, Option, none, some, leb, ◌==◌,
  nat_eq, list_eq, any, map, contains, length, is_some, Result, ok, err, ◌>>=◌, if◌then◌else◌,
  u64_mod,
}
use stoffel_mpc_coordinator.Shared.ExecutionId.{Bytes, ClientIdentity, ExecutionId, is_zero}
use stoffel_mpc_coordinator.Shared.Errors.{
  CoordinatorError, json_error, zero_execution_id, already_registered, capacity_reached,
  NodeRpcError, execution_not_found, index_already_added, index_not_added, serialization_failed,
  authentication_failed,
}
use stoffel_mpc_coordinator.Coordinator.Types.{AssignedMaskReservation, AssignedMaskShare, Sink}
use stoffel_mpc_coordinator.Coordinator.Server.{max_executions}

pub record AssignedMaskRequest : Type 0 where
  pub start : ℕ
  pub count : ℕ
  pub sink : Sink

-- `NodeRPCExecutionState`.
pub record NodeExecution : Type 0 where
  pub index_to_client : HashMap ℕ ClientIdentity
  pub assigned_reservations : HashMap ℕ AssignedMaskReservation
  pub assigned_sinks : HashMap ClientIdentity AssignedMaskRequest
  pub mask_shares : HashMap ℕ Bytes

abbrev pub no_shares : NodeExecution
no_shares = record {
  index_to_client = [];
  assigned_reservations = [];
  assigned_sinks = [];
  mask_shares = [];
}

unfoldable pub assigned_mask_share :
    NodeExecution → ℕ → Bytes → Result NodeRpcError AssignedMaskShare
assigned_mask_share d reserved_index share_bytes =
    elim (HashMap.get reserved_index d.assigned_reservations) [
      | none ↦ err index_not_added
      | some _ ↦ ok (record { reserved_index = reserved_index; share_bytes = share_bytes })
    ]

-- The loop of `assigned_mask_shares_for_client`, from an index on. It ends at the first index
-- that has no owner, another owner, or no share.
unfoldable pub collect :
    ClientIdentity → NodeExecution → ℕ → ℕ → Result NodeRpcError (Option (List AssignedMaskShare))
collect id d i zero = ok (some [])
collect id d i (suc count) =
    let rest = collect id d (suc i) count in
    elim (HashMap.get i d.index_to_client) [
      | none ↦ ok none
      | some client ↦
          if not (client == id)
          then err (authentication_failed id)
          else elim (HashMap.get i d.mask_shares) [
            | none ↦ ok none
            | some bytes ↦ assigned_mask_share d i bytes >>= λ share. elim rest [
              | err e ↦ err e
              | ok none ↦ ok none
              | ok (some shares) ↦ ok (some (share ∷ shares))
            ]
          ]
    ]

unfoldable pub assigned_mask_shares_for_client :
    ClientIdentity → ℕ → ℕ → NodeExecution → Result NodeRpcError (Option (List AssignedMaskShare))
unfolding collect
assigned_mask_shares_for_client id start count d =
    if leb u64_mod (start + count) then err index_not_added else collect id d start count

-- A message to the subscription of a client.
pub record MaskDelivery : Type 0 where
  pub sink : Sink
  pub shares : List AssignedMaskShare

-- The second phase of the two methods below: the pending requests of the clients touched. An error
-- ends it, and the messages collected so far are lost.
unfoldable pub settle :
    List ClientIdentity → NodeExecution → NodeExecution × Result NodeRpcError (List MaskDelivery)
settle [] d = (d, ok [])
settle (id ∷ ids) d =
    let rest = settle ids d in
    elim (HashMap.get id d.assigned_sinks) [
      | none ↦ rest
      | some request ↦ elim (assigned_mask_shares_for_client id request.start request.count d) [
        | err e ↦ (record d { assigned_sinks = HashMap.remove id d.assigned_sinks }, err e)
        | ok none ↦ rest
        | ok (some shares) ↦
            let (d', result) =
              settle ids (record d { assigned_sinks = HashMap.remove id d.assigned_sinks }) in
            (
              d',
              result >>= λ deliveries.
                  ok (record { sink = request.sink; shares = shares } ∷ deliveries),
            )
      ]
    ]

-- `if !touched_clients.contains(&id) { touched_clients.push(id) }`.
unfoldable pub touch : ClientIdentity → List ClientIdentity → List ClientIdentity
touch id touched = if contains touched id then touched else touched ++ id ∷ []

-- The first phase for reservations, with the clients touched.
unfoldable pub reserve_all :
    List AssignedMaskReservation
    → List ClientIdentity
    → NodeExecution
    → NodeExecution × List ClientIdentity
reserve_all [] touched d = (d, touched)
reserve_all (reservation ∷ reservations) touched d =
    reserve_all reservations (touch reservation.client touched) (record d {
      index_to_client =
          HashMap.insert reservation.reserved_index reservation.client d.index_to_client;
      assigned_reservations =
          HashMap.insert reservation.reserved_index reservation d.assigned_reservations;
    })

unfoldable pub has_owner : NodeExecution → AssignedMaskReservation → Bool
has_owner d reservation = HashMap.contains_key reservation.reserved_index d.index_to_client

unfoldable pub add_assigned_reserved_indices :
    List AssignedMaskReservation
    → NodeExecution
    → NodeExecution × Result NodeRpcError (List MaskDelivery)
add_assigned_reserved_indices reservations d =
    if any (has_owner d) reservations
    then (d, err index_already_added)
    else let (d', touched) = reserve_all reservations [] d in settle touched d'

-- `add_reserved_indices_for_execution`: every index is its own ordinal.
unfoldable pub add_reserved_indices :
    ClientIdentity
    → List ℕ
    → NodeExecution
    → NodeExecution × Result NodeRpcError (List MaskDelivery)
add_reserved_indices client indices d =
    add_assigned_reserved_indices
      (map (λ i. record { client = client; reserved_index = i; input_ordinal = i }) indices) d

-- The type of shares is a parameter, and so is `serialize_compressed`, which may fail.
module _ {S : Type 0} (serialize : S → Option Bytes) where
  -- The first phase for shares. A share that cannot be serialised ends it, and the shares before
  -- it stay recorded.
  unfoldable pub record_all :
      List (ℕ × S)
      → List ClientIdentity
      → NodeExecution
      → NodeExecution × Result NodeRpcError (List ClientIdentity)
  record_all [] touched d = (d, ok touched)
  record_all ((i, share) ∷ shares) touched d = elim (serialize share) [
    | none ↦ (d, err serialization_failed)
    | some bytes ↦
        record_all shares
          (elim (HashMap.get i d.index_to_client) [ none ↦ touched | some id ↦ touch id touched ])
          (record d { mask_shares = HashMap.insert i bytes d.mask_shares })
  ]

  unfoldable pub has_share : NodeExecution → ℕ × S → Bool
  has_share d pair = HashMap.contains_key pair.0 d.mask_shares

  unfoldable pub add_mask_shares :
      List (ℕ × S) → NodeExecution → NodeExecution × Result NodeRpcError (List MaskDelivery)
  add_mask_shares shares d =
      if any (has_share d) shares
      then (d, err index_already_added)
      else let (d', result) = record_all shares [] d in
        elim result [ err e ↦ (d', err e) | ok touched ↦ settle touched d' ]

-- `receive_assigned_mask_shares` on the state of the execution. A new request supersedes the
-- client's last one. The result is the message to send, if the range is complete. `accepted` says
-- whether the subscription's handshake succeeds.
unfoldable pub receive_assigned_mask_shares :
    Bool
    → ClientIdentity
    → ℕ
    → ℕ
    → Sink
    → NodeExecution
    → NodeExecution × Result NodeRpcError (Option MaskDelivery)
receive_assigned_mask_shares accepted id start count sink d =
    let d' : NodeExecution = record d { assigned_sinks = HashMap.remove id d.assigned_sinks } in
    elim (assigned_mask_shares_for_client id start count d') [
      | err e ↦ (d', err e)
      | ok (some shares) ↦
          (d', ok (if accepted then some (record { sink = sink; shares = shares }) else none))
      | ok none ↦
          if accepted
          then (
            record d' {
              assigned_sinks =
                  HashMap.insert id (record { start = start; count = count; sink = sink })
                    d'.assigned_sinks;
            },
            ok none,
          )
          else (d', ok none)
    ]

-- `NodeRPCServerInternal`.
abbrev pub NodeServer : Type 0
NodeServer = HashMap ExecutionId NodeExecution

unfoldable pub node_register_execution :
    ExecutionId → NodeServer → NodeServer × Result CoordinatorError (Unit {0})
node_register_execution id s =
    if is_zero id
    then (s, err (json_error zero_execution_id))
    else if HashMap.contains_key id s
    then (s, err (json_error already_registered))
    else if leb max_executions (length s)
    then (s, err (json_error capacity_reached))
    else (HashMap.insert id no_shares s, ok tt)

unfoldable pub node_retire_execution : ExecutionId → NodeServer → NodeServer × Bool
node_retire_execution id s = (HashMap.remove id s, HashMap.contains_key id s)

-- A method on one execution.
unfoldable pub on_node_execution {ℓ} :
    {A : Type ℓ}
    → ExecutionId
    → (NodeExecution → NodeExecution × Result NodeRpcError A)
    → NodeServer
    → NodeServer × Result NodeRpcError A
on_node_execution id method s = elim (HashMap.get id s) [
  | none ↦ (s, err execution_not_found)
  | some d ↦ let (d', result) = method d in (HashMap.insert id d' s, result)
]
