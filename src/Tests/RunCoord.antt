-- ===== src/Tests/RunCoord.antt =====
-- The arguments and the input assignment of crates/bins/src/bin/run-coord.rs on concrete data.
use stoffel_mpc_coordinator.Prelude.{
  ◌≡◌, refl, List, [], ◌∷◌, ◌++◌, Distinct, All, ◌<◌, map, range, false, arith, replicate, list_eq,
  nat_eq, ok, err,
}
use stoffel_mpc_coordinator.Shared.ExecutionId.{is_zero}
use stoffel_mpc_coordinator.Shared.Hex.{to_string}
use stoffel_mpc_coordinator.Coordinator.Types.{InputAssignment}
use stoffel_mpc_coordinator.RunCoord.Arguments.{parse_one_off, parse_one_off-print}
use stoffel_mpc_coordinator.RunCoord.Assignment.{
  ClientIoSchema, build_input_assignment, slots_of, bind_clients, assign_clients, assign_client,
  with_client, with_range, client_bound_twice,
}
use stoffel_mpc_coordinator.RunCoord.Assignment.Ranges.{build_input_assignment-ranges}
use stoffel_mpc_coordinator.Prelude.HashMap
use stoffel_mpc_coordinator.Prelude.HashSet
use stoffel_mpc_coordinator.Tests.Data.{job, client_x, client_y}
use stoffel_mpc_coordinator.Tests.Hex.{hexadecimal, hexadecimal-IsHex}

job_nonzero : is_zero job ≡ false
unfolding is_zero
job_nonzero = refl

parse_one_off-print_example :
    parse_one_off hexadecimal
      (hexadecimal.encode (replicate 32 5) ++ 44 ∷ to_string hexadecimal job)
    ≡ ok (record { hash = replicate 32 5; execution_id = job })
parse_one_off-print_example =
    parse_one_off-print hexadecimal (replicate 32 5) job hexadecimal-IsHex refl (omega arith) refl
      (omega arith) job_nonzero

-- The first client has two inputs and an output, the second an output only.
abbrev manifest : List ClientIoSchema
manifest =
    record { client_slot = 0; inputs = 2; outputs = 1 }
    ∷ record { client_slot = 5; inputs = 0; outputs = 1 }
    ∷ []

abbrev assignment : InputAssignment
assignment = record {
  clients = client_x ∷ [];
  ranges = record { client_index = 0; count = 2 } ∷ [];
}

built :
    build_input_assignment manifest ((0, client_x) ∷ (5, client_y) ∷ [])
    ≡ ok (assignment, client_x ∷ client_y ∷ [])
unfolding build_input_assignment slots_of bind_clients assign_clients assign_client with_client
    with_range HashMap.get HashMap.insert HashMap.remove HashMap.contains_key HashSet.insert
built = refl

twice :
    build_input_assignment manifest ((0, client_x) ∷ (5, client_x) ∷ []) ≡ err client_bound_twice
unfolding build_input_assignment slots_of bind_clients assign_clients assign_client with_client
    with_range HashMap.get HashMap.insert HashMap.remove HashMap.contains_key HashSet.insert
twice = refl

build_input_assignment-ranges_example :
    Distinct (client_x ∷ [])
    × Distinct (client_x ∷ client_y ∷ [])
    × (map (λ r. r.client_index) assignment.ranges ≡ range 0 1)
    × All (λ r. 0 < r.count) assignment.ranges
build_input_assignment-ranges_example =
    build_input_assignment-ranges manifest ((0, client_x) ∷ (5, client_y) ∷ []) assignment
      (client_x ∷ client_y ∷ []) built
