-- ===== src/Tests/Data.antt =====
-- A coordinator of three parties with one faulty, and one execution of two input clients.
use stoffel_mpc_coordinator.Prelude.{true, false, Option, List, [], ◌∷◌, none, some, replicate}
use stoffel_mpc_coordinator.Shared.Round.{
  Round, preprocessing, input_mask_reservation, input_collection, mpc_execution,
}
use stoffel_mpc_coordinator.Shared.ExecutionId.{ClientIdentity, ExecutionId, Bytes}
use stoffel_mpc_coordinator.Coordinator.Types.{Network, ExecutionRegistration}
use stoffel_mpc_coordinator.Coordinator.Execution.{ExecutionState}
use stoffel_mpc_coordinator.Coordinator.Server.{SharedBase, initial}

abbrev pub node_a : ClientIdentity
node_a = 1 ∷ []

abbrev pub node_b : ClientIdentity
node_b = 2 ∷ []

abbrev pub node_c : ClientIdentity
node_c = 3 ∷ []

abbrev pub nodes : List ClientIdentity
nodes = node_a ∷ node_b ∷ node_c ∷ []

abbrev pub client_x : ClientIdentity
client_x = 8 ∷ []

abbrev pub client_y : ClientIdentity
client_y = 9 ∷ []

abbrev pub job : ExecutionId
job = replicate 32 7

-- Two slots of the first client, one of the second.
abbrev pub registration : ExecutionRegistration
registration = record {
  execution_id = job;
  program_hash = replicate 32 5;
  n_inputs = 3;
  output_clients = client_y ∷ [];
  input_assignment = record {
    clients = client_x ∷ client_y ∷ [];
    ranges = record { client_index = 0; count = 2 } ∷ record { client_index = 1; count = 1 } ∷ [];
  };
  min_output_shares = 3;
}

-- Nobody reads too slowly, and nothing is closed.
abbrev pub calm : Network
calm = record { sent = λ sink. true; is_closed = λ sink. false }

-- The execution as it is registered, in a round, with owners and inputs.
abbrev pub execution : Round → List (Option ClientIdentity) → List (Option Bytes) → ExecutionState
execution round owners inputs = record {
  registration = registration;
  retirement_acks = [];
  transition_votes = [];
  sinks = [];
  trans_events = [];
  reserved_index_events = [];
  reserved_index_sinks = [];
  assigned_reserved_index_events = [];
  assigned_reserved_index_sinks = [];
  masked_input_events = [];
  masked_input_sinks = [];
  assigned_masked_input_events = [];
  assigned_masked_input_sinks = [];
  n_reserved = 0;
  reserved_indices = owners;
  masked_inputs = inputs;
  round = round;
  output_shares = [];
  output_sinks = [];
  output_clients = client_y ∷ [];
  input_assignments =
      record { client_index = 0; label = 0 }
      ∷ record { client_index = 0; label = 1 }
      ∷ record { client_index = 1; label = 0 }
      ∷ [];
}

abbrev pub nothing {ℓ} : {A : Type ℓ} → List (Option A)
nothing = none ∷ none ∷ none ∷ []

-- No slot is reserved yet.
abbrev pub reserving : ExecutionState
reserving = execution input_mask_reservation nothing nothing

-- The first client has two slots, the second one; the second has submitted its input.
abbrev pub collecting : ExecutionState
collecting =
    execution input_collection (some client_x ∷ some client_x ∷ some client_y ∷ [])
      (none ∷ none ∷ some (4 ∷ []) ∷ [])

-- Two parties propose the computation too early.
abbrev pub hurried : ExecutionState
hurried = record (execution preprocessing nothing nothing) {
  transition_votes = (mpc_execution, node_a ∷ node_b ∷ []) ∷ [];
}

abbrev pub empty_base : SharedBase
empty_base = initial 3 1 nodes
