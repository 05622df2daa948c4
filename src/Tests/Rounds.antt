-- ===== src/Tests/Rounds.antt =====
-- The rounds of crates/off-chain/src/lib.rs on concrete data.
use stoffel_mpc_coordinator.Prelude.HashMap
use stoffel_mpc_coordinator.Prelude.{
  ◌≤◌, ◌≡◌, ◌≢◌, ◌⊎◌, inl, refl, true, false, [], ◌∷◌, none, some, map, arith,
}
use stoffel_mpc_coordinator.Shared.Round.{
  Round, round_eq, round_index, round_before, input_mask_reservation, input_collection,
  mpc_execution,
}
use stoffel_mpc_coordinator.Coordinator.Execution.{ExecutionState}
use stoffel_mpc_coordinator.Coordinator.Execution.Rounds.{
  skips_empty_input_rounds, skips_empty_output_rounds, blocking_precondition, has_quorum, follows,
  next_quorum_round, round_event, round_sinks, entered, transition, TransitionDelivery,
  advance_once, advance_loop, try_advance,
}
use stoffel_mpc_coordinator.Coordinator.Execution.Cascade.{try_advance_exhausts}
use stoffel_mpc_coordinator.Coordinator.Execution.Delivery.{
  AllAnnounced, final_round, try_advance_announces,
}
use stoffel_mpc_coordinator.Coordinator.Execution.Precondition.{
  HoldsInputs, try_advance-HoldsInputs, try_advance_skips_inputs,
}
use stoffel_mpc_coordinator.Tests.Data.{node_a, node_b, node_c, nothing, collecting, hurried}

-- Two parties have proposed the next two rounds; the computation waits for two inputs.
abbrev eager : ExecutionState
eager = record collecting {
  round = input_mask_reservation;
  transition_votes =
      (input_collection, node_a ∷ node_b ∷ []) ∷ (mpc_execution, node_c ∷ node_b ∷ []) ∷ [];
  sinks = (input_collection, 4 ∷ 5 ∷ []) ∷ (mpc_execution, 6 ∷ []) ∷ [];
}

eager_advances :
    let (d, deliveries) = try_advance 2 node_a eager in
    (d.round ≡ input_collection)
    × (map (λ (delivery : TransitionDelivery). delivery.sinks) deliveries ≡ (4 ∷ 5 ∷ []) ∷ [])
unfolding try_advance advance_loop advance_once next_quorum_round follows has_quorum transition
    entered round_sinks round_event blocking_precondition skips_empty_input_rounds
    skips_empty_output_rounds round_before round_index HashMap.get HashMap.insert HashMap.remove
eager_advances = (refl, refl)

try_advance_exhausts_example :
    let d' = (try_advance 2 node_a eager).0 in
    (next_quorum_round 2 d' ≡ none)
    ⊎ ((r : Round) × (next_quorum_round 2 d' ≡ some r) × (blocking_precondition d' r ≢ none))
try_advance_exhausts_example = try_advance_exhausts 2 node_a eager

try_advance_announces_example :
    let (d', deliveries) = try_advance 2 node_a eager in
    AllAnnounced 2 node_a eager d' (round_index input_mask_reservation) deliveries
    × (d'.round ≡ final_round input_mask_reservation deliveries)
try_advance_announces_example = try_advance_announces 2 node_a eager

eager-HoldsInputs : HoldsInputs eager
unfolding round_index
eager-HoldsInputs = (omega arith, inl (omega arith))

try_advance-HoldsInputs_example : HoldsInputs (try_advance 2 node_a eager).0
try_advance-HoldsInputs_example = try_advance-HoldsInputs 2 node_a eager eager-HoldsInputs

hurried_proposed : has_quorum 2 hurried mpc_execution ≡ true
unfolding has_quorum HashMap.get round_index
hurried_proposed = refl

hurried_unproposed : has_quorum 2 hurried input_mask_reservation ≡ false
unfolding has_quorum HashMap.get round_index
hurried_unproposed = refl

try_advance_skips_inputs_example :
    (4 ≤ round_index (try_advance 2 node_a hurried).0.round)
    × ((try_advance 2 node_a hurried).0.masked_inputs ≡ nothing)
try_advance_skips_inputs_example =
    try_advance_skips_inputs 2 node_a hurried refl hurried_proposed hurried_unproposed
