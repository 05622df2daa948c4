-- ===== src/Coordinator/Types.antt =====
-- The data of crates/off-chain/src/lib.rs: registrations, events and RPC errors.
use stoffel_mpc_coordinator.Prelude.{
  ℕ, List, ◌≡◌, ◌↔◌, Bool, true, ◌&&◌, ◌==◌, Eq, nat_eq, list_eq, arith, Result,
}
use stoffel_mpc_coordinator.Shared.ExecutionId.{Bytes, ClientIdentity, ExecutionId}

pub record AssignedMaskReservation : Type 0 where
  pub client : ClientIdentity
  pub reserved_index : ℕ
  pub input_ordinal : ℕ

pub record AssignedMaskedInputEvent : Type 0 where
  pub client : ClientIdentity
  pub reserved_index : ℕ
  pub input_ordinal : ℕ
  pub masked_input : Bytes

pub record AssignedMaskShare : Type 0 where
  pub reserved_index : ℕ
  pub share_bytes : Bytes

-- One global input slot.
pub record InputSlotAssignment : Type 0 where
  pub client_index : ℕ
  pub label : ℕ

-- One client's contiguous block of input slots.
pub record InputClientRange : Type 0 where
  pub client_index : ℕ
  pub count : ℕ

pub record InputAssignment : Type 0 where
  pub clients : List ClientIdentity
  pub ranges : List InputClientRange

pub record ExecutionRegistration : Type 0 where
  pub execution_id : ExecutionId
  pub program_hash : Bytes
  pub n_inputs : ℕ
  pub output_clients : List ClientIdentity
  pub input_assignment : InputAssignment
  pub min_output_shares : ℕ

pub data Event : Type 0 where
  coordinator_initialized : ℕ → ClientIdentity → Event
  masked_input_event : ClientIdentity → List (ℕ × Bytes) → Event
  index_buffer_event : ℕ → ClientIdentity → Event
  reserved_input_event : ClientIdentity → List ℕ → Event
  preprocessing_started : ClientIdentity → Event
  input_collection_started input_mask_reservation_started mpc_started : Event
  execution_done output_sending_started outputs_published : Event
  client_input_mask_reservation_event client_output_collection : Event
  preprocessing_round_executed : Event

-- `CoordinatorRPCBaseError`.
pub data BaseError : Type 0 where
  not_designated_party wrong_round index_out_of_bounds bad_id : BaseError
  masked_input_already_submitted index_not_reserved index_already_reserved : BaseError
  output_shares_already_sent output_shares_already_requested not_party : BaseError
  sending_failed not_output_client mismatched_batch_lengths : BaseError
  client_already_reserved unauthorized_client_io execution_not_found : BaseError
  execution_already_registered shutdown_not_accepted empty_batch : BaseError

-- An `ErrorObjectOwned`: its code, without the text.
pub data RpcError : Type 0 where
  server_error : BaseError → RpcError
  invalid_params : RpcError

abbrev pub RpcResult {ℓ} : Type ℓ → Type ℓ
RpcResult A = Result RpcError A

-- A `SubscriptionSink`, known by its subscription's number.
abbrev pub Sink : Type 0
Sink = ℕ

-- What the network does: whether a message sent to a subscription is taken in time, and whether
-- the subscription is closed. jsonrpsee and tokio decide both.
pub record Network : Type 0 where
  pub sent : Sink → Bool
  pub is_closed : Sink → Bool

abbrev pub range_beq : InputClientRange → InputClientRange → Bool
range_beq a b = (a.client_index == b.client_index) && (a.count == b.count)

pub range_beq_iff : (a b : InputClientRange) → (range_beq a b ≡ true) ↔ (a ≡ b)
range_beq_iff a b = ground arith

instance abbrev pub range_eq : Eq InputClientRange
range_eq = record { beq = range_beq; beq_iff = range_beq_iff }

-- The derived `PartialEq` of `ExecutionRegistration`.
unfoldable pub registration_beq : ExecutionRegistration → ExecutionRegistration → Bool
registration_beq a b =
    (a.execution_id == b.execution_id)
    && (a.program_hash == b.program_hash)
    && (a.n_inputs == b.n_inputs)
    && (a.output_clients == b.output_clients)
    && (a.input_assignment.clients == b.input_assignment.clients)
    && (a.input_assignment.ranges == b.input_assignment.ranges)
    && (a.min_output_shares == b.min_output_shares)

pub registration_beq_iff : (a b : ExecutionRegistration) → (registration_beq a b ≡ true) ↔ (a ≡ b)
unfolding registration_beq
registration_beq_iff a b = ground (
  arith,
  bytes_iff a.execution_id b.execution_id,
  bytes_iff a.program_hash b.program_hash,
  clients_iff a.output_clients b.output_clients,
  clients_iff a.input_assignment.clients b.input_assignment.clients,
  ranges_iff a.input_assignment.ranges b.input_assignment.ranges,
)
  where
    bytes_iff : (x y : Bytes) → ((x == y) ≡ true) ↔ (x ≡ y)
    bytes_iff x y = list_eq.beq_iff x y

    clients_iff : (x y : List ClientIdentity) → ((x == y) ≡ true) ↔ (x ≡ y)
    clients_iff x y = list_eq.beq_iff x y

    ranges_iff : (x y : List InputClientRange) → ((x == y) ≡ true) ↔ (x ≡ y)
    ranges_iff x y = list_eq.beq_iff x y
