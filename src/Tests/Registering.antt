-- ===== src/Tests/Registering.antt =====
-- Registrations of crates/off-chain/src/lib.rs on concrete data.
use stoffel_mpc_coordinator.Prelude.HashMap
use stoffel_mpc_coordinator.Prelude.HashMap.{HasDistinctKeys}
use stoffel_mpc_coordinator.Prelude.{
  ◌≡◌, refl, inr, arith, [], ◌∷◌, some, ok, list_eq, nat_eq, replicate,
}
use stoffel_mpc_coordinator.Shared.Round.{mpc_execution}
use stoffel_mpc_coordinator.Shared.ExecutionId.{ExecutionId, is_zero}
use stoffel_mpc_coordinator.Coordinator.Inputs.{ranges_total}
use stoffel_mpc_coordinator.Coordinator.Topology.{retirement_quorum}
use stoffel_mpc_coordinator.Coordinator.Execution
use stoffel_mpc_coordinator.Coordinator.Execution.{ExecutionState, fresh_state}
use stoffel_mpc_coordinator.Coordinator.Server.{SharedBase, register_execution, admit}
use stoffel_mpc_coordinator.Coordinator.Server.Registering.{
  IsKept, register_execution_spares, register_execution_again,
}
use stoffel_mpc_coordinator.Tests.Data.{node_a, registration, empty_base, execution, nothing}

abbrev other_job : ExecutionId
other_job = replicate 32 6

-- One party of three has retired a running execution.
abbrev running : ExecutionState
running = record (execution mpc_execution nothing nothing) { retirement_acks = node_a ∷ [] }

abbrev base : SharedBase
base = record empty_base { executions = (other_job, running) ∷ [] }

base-HasDistinctKeys : HasDistinctKeys base.executions
unfolding HashMap.get
base-HasDistinctKeys = (refl, tt)

finds_running : HashMap.get other_job base.executions ≡ some running
unfolding HashMap.get
finds_running = refl

running-IsKept : IsKept base other_job running
unfolding retirement_quorum
running-IsKept = inr (omega arith)

register_execution_spares_example :
    HashMap.get other_job (register_execution registration base).0.executions ≡ some running
register_execution_spares_example =
    register_execution_spares registration base other_job running base-HasDistinctKeys finds_running
      running-IsKept

accepts_registration : (register_execution registration base).1 ≡ ok tt
unfolding register_execution admit Execution.new is_zero ranges_total HashMap.get
accepts_registration = refl

register_execution_again_example :
    let s' = (register_execution registration base).0 in
    register_execution registration s' ≡ (s', ok tt)
register_execution_again_example = register_execution_again registration base accepts_registration
