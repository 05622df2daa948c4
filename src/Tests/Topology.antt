-- ===== src/Tests/Topology.antt =====
-- Topologies and quorums of crates/off-chain/src/lib.rs on concrete data.
use stoffel_mpc_coordinator.Prelude.{
  ◌+◌, ◌≤◌, ◌<◌, ◌≡◌, ◌↔◌, refl, [], ◌∷◌, ok, err, list_eq, nat_eq, arith,
}
use stoffel_mpc_coordinator.Shared.Round.{}
use stoffel_mpc_coordinator.Shared.Errors.{json_error, too_few_nodes, node_identities_not_unique}
use stoffel_mpc_coordinator.Coordinator.Topology.{
  repeats_earlier, validate_topology, transition_quorum, retirement_quorum, IsValidTopology,
  validate_topology_iff, quorum_bounds,
}
use stoffel_mpc_coordinator.Tests.Data.{nodes, node_a, node_b}

three_parties : validate_topology 3 1 nodes ≡ ok tt
unfolding validate_topology repeats_earlier
three_parties = refl

two_faulty : validate_topology 3 2 nodes ≡ err (json_error too_few_nodes)
unfolding validate_topology
two_faulty = refl

repeated :
    validate_topology 3 1 (node_a ∷ node_b ∷ node_a ∷ [])
    ≡ err (json_error node_identities_not_unique)
unfolding validate_topology repeats_earlier
repeated = refl

quorum_of_three : transition_quorum 3 1 ≡ 2
unfolding transition_quorum
quorum_of_three = refl

pub nodes-IsValidTopology : IsValidTopology 3 1 nodes
nodes-IsValidTopology = ground arith

validate_topology_iff_example : (validate_topology 3 1 nodes ≡ ok tt) ↔ IsValidTopology 3 1 nodes
validate_topology_iff_example = validate_topology_iff 3 1 nodes (omega arith)

quorum_bounds_example :
    (1 < transition_quorum 3 1)
    × (transition_quorum 3 1 + 1 ≤ 3)
    × (1 < retirement_quorum 3 1)
    × (retirement_quorum 3 1 + 1 ≡ 3)
quorum_bounds_example = quorum_bounds 3 1 nodes (omega arith) nodes-IsValidTopology
