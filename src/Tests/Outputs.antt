-- ===== src/Tests/Outputs.antt =====
-- The output shares of crates/off-chain/src/lib.rs on concrete data.
use stoffel_mpc_coordinator.Prelude.HashMap
use stoffel_mpc_coordinator.Prelude.HashMap.{HasDistinctKeys}
use stoffel_mpc_coordinator.Prelude.{
  ◌≤◌, ◌≡◌, refl, true, false, List, [], ◌∷◌, some, nat_eq, list_eq, pair_eq, Distinct, length,
}
use stoffel_mpc_coordinator.Shared.Round.{output_distribution}
use stoffel_mpc_coordinator.Shared.ExecutionId.{ClientIdentity}
use stoffel_mpc_coordinator.Coordinator.Execution.{ExecutionState}
use stoffel_mpc_coordinator.Coordinator.Outputs.{OutputDelivery, shares_for, ready_output_snapshot}
use stoffel_mpc_coordinator.Coordinator.Outputs.Delivery.{
  AreFrom, ready_output_snapshot_quorum, store_keeps,
}
use stoffel_mpc_coordinator.Coordinator.System.{store}
use stoffel_mpc_coordinator.Tests.Data.{
  node_a, node_c, client_x, client_y, calm, execution, nothing,
}

-- Two parties have sent shares for the client that waits, one for another.
abbrev sharing : ExecutionState
sharing = record (execution output_distribution nothing nothing) {
  output_shares =
      ((client_y, node_a), (1 ∷ [], 2 ∷ []))
      ∷ ((client_x, node_a), (3 ∷ [], 4 ∷ []))
      ∷ ((client_y, node_c), (5 ∷ [], 6 ∷ []))
      ∷ [];
  output_sinks = (client_y, 7) ∷ [];
}

sharing-HasDistinctKeys : HasDistinctKeys sharing.output_shares
unfolding HashMap.get
sharing-HasDistinctKeys = (refl, (refl, (refl, tt)))

abbrev sent : OutputDelivery
sent = record { waiter = 7; shares = (1 ∷ [], 2 ∷ []) ∷ (5 ∷ [], 6 ∷ []) ∷ [] }

snapshot_of_two : (ready_output_snapshot calm client_y 2 sharing).1 ≡ some sent
unfolding ready_output_snapshot shares_for HashMap.get
snapshot_of_two = refl

ready_output_snapshot_quorum_example :
    (HashMap.get client_y sharing.output_sinks ≡ some 7)
    × (calm.is_closed 7 ≡ false)
    × ((nodes : List ClientIdentity) × Distinct nodes
        × (2 ≤ length nodes)
        × AreFrom sharing.output_shares client_y nodes sent.shares)
ready_output_snapshot_quorum_example =
    ready_output_snapshot_quorum calm client_y 2 sharing sent sharing-HasDistinctKeys
      snapshot_of_two

recorded_share : HashMap.get (client_y, node_c) sharing.output_shares ≡ some (5 ∷ [], 6 ∷ [])
unfolding HashMap.get
recorded_share = refl

store_keeps_example :
    let d' = store node_c client_y (8 ∷ [], 9 ∷ []) true sharing in
    (HashMap.get (client_y, node_c) d'.output_shares ≡ some (5 ∷ [], 6 ∷ []))
    × HasDistinctKeys d'.output_shares
store_keeps_example =
    store_keeps true node_c client_y (8 ∷ [], 9 ∷ []) (5 ∷ [], 6 ∷ []) (client_y, node_c) sharing
      sharing-HasDistinctKeys recorded_share
