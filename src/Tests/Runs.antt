-- ===== src/Tests/Runs.antt =====
-- The coordinator of crates/off-chain/src/lib.rs as a whole on concrete data.
use stoffel_mpc_coordinator.Prelude.HashMap
use stoffel_mpc_coordinator.Prelude.HashSet
use stoffel_mpc_coordinator.Prelude.{
  ◌≡◌, ◌≢◌, refl, true, false, List, [], ◌∷◌, some, option_eq, ok, contains, list_eq, nat_eq, arith,
}
use stoffel_mpc_coordinator.Shared.Round.{round_eq, round_index, round_before, preprocessing, idle}
use stoffel_mpc_coordinator.Shared.ExecutionId.{ClientIdentity, is_zero}
use stoffel_mpc_coordinator.Coordinator.Types.{preprocessing_started}
use stoffel_mpc_coordinator.Coordinator.Inputs.{expand_input_ranges, ranges_total}
use stoffel_mpc_coordinator.Coordinator.Topology.{
  validate_topology, repeats_earlier, transition_quorum,
}
use stoffel_mpc_coordinator.Coordinator.Execution
use stoffel_mpc_coordinator.Coordinator.Execution.{ExecutionState, fresh_state}
use stoffel_mpc_coordinator.Coordinator.Execution.Rounds.{
  skips_empty_input_rounds, skips_empty_output_rounds, blocking_precondition, has_quorum, follows,
  next_quorum_round, round_event, round_sinks, entered, transition, advance_once, advance_loop,
  try_advance,
}
use stoffel_mpc_coordinator.Coordinator.Server
use stoffel_mpc_coordinator.Coordinator.Server.{
  SharedBase, rpc_register_execution, register_execution, admit, roster_head,
}
use stoffel_mpc_coordinator.Coordinator.Rpc
use stoffel_mpc_coordinator.Coordinator.Rpc.{on_execution, put, quorum, voters_of, vote, propose}
use stoffel_mpc_coordinator.Coordinator.System.{System, Action, register, propose_round, step, run}
use stoffel_mpc_coordinator.Coordinator.System.Safety.{IsSafe, new-IsSafe}
use stoffel_mpc_coordinator.Coordinator.System.Interleaving.{run-IsSafe}
use stoffel_mpc_coordinator.Coordinator.System.Honest.{run_honest}
use stoffel_mpc_coordinator.Tests.Data.{
  nodes, node_a, node_b, node_c, job, registration, empty_base, execution, nothing,
}
use stoffel_mpc_coordinator.Tests.Topology.{nodes-IsValidTopology}

accepts_nodes : Server.new 3 1 nodes ≡ ok empty_base
unfolding Server.new validate_topology repeats_earlier
accepts_nodes = refl

abbrev start : System
start = record { shared = empty_base; in_flight = [] }

-- The first party registers the execution, and two of the three start the preprocessing.
abbrev opening : List Action
opening =
    register node_a registration
    ∷ propose_round 0 node_c job preprocessing
    ∷ propose_round 0 node_b job preprocessing
    ∷ []

run-IsSafe_example : IsSafe (run opening start).shared
run-IsSafe_example = run-IsSafe opening start (new-IsSafe 3 1 nodes empty_base accepts_nodes)

-- What the execution is then: in the preprocessing round, by the votes of two.
abbrev opened : ExecutionState
opened = record (execution preprocessing nothing nothing) {
  transition_votes = (preprocessing, node_c ∷ node_b ∷ []) ∷ [];
  trans_events = (preprocessing, preprocessing_started node_a) ∷ [];
}

opening_opens : HashMap.get job (run opening start).shared.executions ≡ some opened
unfolding run step rpc_register_execution register_execution admit Execution.new fresh_state is_zero
    expand_input_ranges ranges_total Rpc.transition on_execution put propose vote voters_of quorum
    transition_quorum roster_head try_advance advance_loop advance_once next_quorum_round follows
    has_quorum transition entered round_sinks round_event blocking_precondition
    skips_empty_input_rounds skips_empty_output_rounds round_before round_index HashMap.get
    HashMap.insert HashMap.remove HashMap.contains_key HashSet.insert
opening_opens = refl

moved_on : preprocessing ≢ idle
moved_on = λ e. ground arith

run_honest_example :
    (p : ClientIdentity) × (contains nodes p ≡ true)
    × (contains (node_a ∷ []) p ≡ false)
    × (contains (voters_of opened preprocessing) p ≡ true)
run_honest_example =
    run_honest opening start job opened (node_a ∷ [])
      (new-IsSafe 3 1 nodes empty_base accepts_nodes) nodes-IsValidTopology (omega arith)
      opening_opens moved_on (omega arith)
