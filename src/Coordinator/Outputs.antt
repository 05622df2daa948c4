-- ===== src/Coordinator/Outputs.antt =====
-- The distribution of encrypted output shares: `send_output_shares`, `obtain_output_shares`,
-- `ready_output_snapshot` and `deliver_ready_output_waiters` of crates/off-chain/src/lib.rs.
-- The methods give up the lock before they look for a waiting client; `others` is what other tasks
-- do in between.
pub mod Delivery
use stoffel_mpc_coordinator.Prelude.HashMap
use stoffel_mpc_coordinator.Prelude.HashMap.{HashMap}
use stoffel_mpc_coordinator.Prelude.{
  ℕ, Bool, false, not, List, Option, none, some, ltb, ◌==◌, list_eq, nat_eq, pair_eq, contains,
  filter, map, length, ok, err, if◌then◌else◌, is_some,
}
use stoffel_mpc_coordinator.Shared.ExecutionId.{Bytes, ClientIdentity, ExecutionId}
use stoffel_mpc_coordinator.Coordinator.Types.{
  Network, Sink, RpcError, RpcResult, server_error, not_party, execution_not_found,
  not_output_client, output_shares_already_sent, output_shares_already_requested,
}
use stoffel_mpc_coordinator.Coordinator.Execution.{ExecutionState}
use stoffel_mpc_coordinator.Coordinator.Server.{SharedBase}
use stoffel_mpc_coordinator.Coordinator.Rpc.{put}

-- An encapsulated key and a ciphertext.
abbrev pub EncShares : Type 0
EncShares = Bytes × Bytes

-- The key of `output_shares`: the client and the node.
abbrev pub ShareKey : Type 0
ShareKey = ClientIdentity × ClientIdentity

abbrev pub is_for : ClientIdentity → ShareKey × EncShares → Bool
is_for client entry = entry.0.0 == client

unfoldable pub shares_for : ClientIdentity → HashMap ShareKey EncShares → List EncShares
shares_for client shares = map (λ entry. entry.1) (filter (is_for client) shares)

pub record OutputDelivery : Type 0 where
  pub waiter : Sink
  pub shares : List EncShares

unfoldable pub ready_output_snapshot :
    Network → ClientIdentity → ℕ → ExecutionState → ExecutionState × Option OutputDelivery
ready_output_snapshot net client min_shares d = elim (HashMap.get client d.output_sinks) [
  | none ↦ (d, none)
  | some waiter ↦
      if net.is_closed waiter
      then (record d { output_sinks = HashMap.remove client d.output_sinks }, none)
      else let found = shares_for client d.output_shares in
        if ltb (length found) min_shares
        then (d, none)
        else (d, some (record { waiter = waiter; shares = found }))
]

-- A waiter that does not take the message is forgotten, unless another has taken its place.
unfoldable pub forget_waiter : ClientIdentity → Sink → ExecutionState → ExecutionState
forget_waiter client waiter d = elim (HashMap.get client d.output_sinks) [
  | none ↦ d
  | some current ↦
      if current == waiter
      then record d { output_sinks = HashMap.remove client d.output_sinks }
      else d
]

-- How a method ends: with an answer to its caller and a message to a waiting client, or by the
-- panic of `expect("output execution remains registered")`.
pub data Outcome : Type 0 where
  answered : RpcResult (Unit {0}) → Option OutputDelivery → Outcome
  panicked : Outcome

-- `others` runs while the message is sent.
unfoldable pub deliver_ready_output_waiters :
    Network
    → ExecutionId
    → ClientIdentity
    → ℕ
    → (SharedBase → SharedBase)
    → SharedBase
    → SharedBase × Outcome
unfolding put
deliver_ready_output_waiters net id client min_shares others s =
    elim (HashMap.get id s.executions) [
      | none ↦ (s, panicked)
      | some d ↦
          let (d', found) = ready_output_snapshot net client min_shares d in
          elim found [
            | none ↦ (put id d' s, answered (ok tt) none)
            | some delivery ↦
                let later = others (put id d' s) in
                if net.sent delivery.waiter
                then (later, answered (ok tt) (some delivery))
                else elim (HashMap.get id later.executions) [
                  | none ↦ (later, answered (ok tt) (some delivery))
                  | some e ↦ (
                    put id (forget_waiter client delivery.waiter e) later,
                    answered (ok tt) (some delivery),
                  )
                ]
          ]
    ]

unfoldable pub check_output_shares :
    Bool → ClientIdentity → ClientIdentity → ExecutionState → Option RpcError
check_output_shares is_party self client d =
    if not is_party
    then some (server_error not_party)
    else if not (contains d.output_clients client)
    then some (server_error not_output_client)
    else if HashMap.contains_key (client, self) d.output_shares
    then some (server_error output_shares_already_sent)
    else none

unfoldable pub with_shares :
    ClientIdentity → ClientIdentity → EncShares → ExecutionState → ExecutionState
with_shares self client enc_shares d = record d {
  output_shares = HashMap.insert (client, self) enc_shares d.output_shares;
}

unfoldable pub send_output_shares :
    Network
    → ClientIdentity
    → ExecutionId
    → ClientIdentity
    → EncShares
    → (SharedBase → SharedBase)
    → (SharedBase → SharedBase)
    → SharedBase
    → SharedBase × Outcome
unfolding put
send_output_shares net self id client enc_shares others others' s =
    let is_party = contains s.mpc_nodes self in
    elim (HashMap.get id s.executions) [
      | none ↦ (s, answered (err (server_error execution_not_found)) none)
      | some d ↦ elim (check_output_shares is_party self client d) [
        | some e ↦ (s, answered (err e) none)
        | none ↦
            deliver_ready_output_waiters net id client d.registration.min_output_shares others'
              (others (put id (with_shares self client enc_shares d) s))
      ]
    ]

-- Whether the client has a subscription that is open.
unfoldable pub has_open_sink : Network → ClientIdentity → ExecutionState → Bool
has_open_sink net self d = elim (HashMap.get self d.output_sinks) [
  | none ↦ false
  | some sink ↦ not (net.is_closed sink)
]

unfoldable pub reject_output : Network → ClientIdentity → ExecutionState → Option RpcError
reject_output net self d =
    if not (contains d.output_clients self)
    then some (server_error not_output_client)
    else if has_open_sink net self d
    then some (server_error output_shares_already_requested)
    else none

-- `accepting` runs while the subscription is accepted, `others` before the look for a waiter, and
-- `others'` while a message is sent.
unfoldable pub obtain_output_shares :
    Network
    → ClientIdentity
    → ExecutionId
    → Sink
    → (SharedBase → SharedBase)
    → (SharedBase → SharedBase)
    → (SharedBase → SharedBase)
    → SharedBase
    → SharedBase × Outcome
unfolding put
obtain_output_shares net self id sink accepting others others' s =
    elim (HashMap.get id s.executions) [
      | none ↦ (s, answered (err (server_error execution_not_found)) none)
      | some d ↦ elim (reject_output net self d) [
        | some e ↦ (s, answered (err e) none)
        | none ↦
            let s' = accepting s in
            elim (HashMap.get id s'.executions) [
              | none ↦ (s', answered (ok tt) none)
              | some e ↦
                  if is_some (reject_output net self e)
                  then (s', answered (ok tt) none)
                  else deliver_ready_output_waiters net id self e.registration.min_output_shares
                      others'
                      (others (
                        put id (record e { output_sinks = HashMap.insert self sink e.output_sinks })
                          s'))
            ]
      ]
    ]
