-- ===== src/Node/Delivery.antt =====
-- What the node-side RPC server (crates/off-chain/src/lib.rs) sends to the clients that wait.
use stoffel_mpc_coordinator.Prelude.HashMap
use stoffel_mpc_coordinator.Prelude.HashMap.{HashMap, get-remove}
use stoffel_mpc_coordinator.Prelude.{
  ℕ, ◌≡◌, refl, subst, List, [], ◌∷◌, none, some, arith, nat_eq, list_eq, ok, Result-cases,
  Option-cases, Bool-cases, inl, inr, any, All,
}
use stoffel_mpc_coordinator.Shared.ExecutionId.{Bytes, ClientIdentity}
use stoffel_mpc_coordinator.Coordinator.Types.{AssignedMaskReservation}
use stoffel_mpc_coordinator.Node.{
  NodeExecution, AssignedMaskRequest, MaskDelivery, assigned_mask_shares_for_client, settle,
  reserve_all, add_assigned_reserved_indices, has_owner,
}
use stoffel_mpc_coordinator.Node.Range.{IsRange, IsPaired, assigned_mask_shares_for_client_iff}
use stoffel_mpc_coordinator.Node.Waiting.{IsSettled, without_sink, reserve_all-IsSettledBut}

-- A message answers a pending request: it goes to its subscription and holds its whole range.
pub record IsAnswer (pending : HashMap ClientIdentity AssignedMaskRequest)
    (owners : HashMap ℕ ClientIdentity) (held : HashMap ℕ Bytes) (delivery : MaskDelivery)
    : Type 0 where
  pub client : ClientIdentity
  pub request : AssignedMaskRequest
  pub asked : HashMap.get client pending ≡ some request
  pub sent_to : delivery.sink ≡ request.sink
  pub range : IsRange owners held client request.start request.count delivery.shares

abbrev pub AreAnswers : NodeExecution → NodeExecution → List MaskDelivery → Type 0
AreAnswers d d' = All (IsAnswer d.assigned_sinks d'.index_to_client d'.mask_shares)

-- What does not change while the pending requests are settled.
pub record SameData (d d' : NodeExecution) : Type 0 where
  pub owners : d'.index_to_client ≡ d.index_to_client
  pub held : d'.mask_shares ≡ d.mask_shares

pub settle-SameData : (ids : List ClientIdentity) (d : NodeExecution) → SameData d (settle ids d).0
unfolding settle
settle-SameData [] d = ground arith
settle-SameData (id ∷ ids) d =
    ground (arith, settle-SameData ids d, settle-SameData ids (without_sink id d))

reanswer :
    (id : ClientIdentity) (pending : HashMap ClientIdentity AssignedMaskRequest)
    (owners : HashMap ℕ ClientIdentity) (held : HashMap ℕ Bytes) (deliveries : List MaskDelivery)
    → All (IsAnswer (HashMap.remove id pending) owners held) deliveries
    → All (IsAnswer pending owners held) deliveries
reanswer id pending owners held [] a = tt
reanswer id pending owners held (delivery ∷ deliveries) (h, a) = (
  record {
    client = h.client;
    request = h.request;
    asked = ground (arith, h.asked, get-remove id h.client pending);
    sent_to = h.sent_to;
    range = h.range;
  },
  reanswer id pending owners held deliveries a,
)

settle-AreAnswers :
    (ids : List ClientIdentity) (d : NodeExecution) (deliveries : List MaskDelivery)
    → IsPaired d
    → (settle ids d).1 ≡ ok deliveries
    → AreAnswers d d deliveries
unfolding settle
settle-AreAnswers [] d [] p h = tt
settle-AreAnswers [] d (delivery ∷ deliveries) p h = cc
settle-AreAnswers (id ∷ ids) d deliveries p h =
    elim (Option-cases (HashMap.get id d.assigned_sinks)) [
      | inl e ↦ settle-AreAnswers ids d deliveries p (ground arith)
      | inr (request, e) ↦
          elim (Result-cases (assigned_mask_shares_for_client id request.start request.count d)) [
            | inr (x, f) ↦ absurd (ground arith)
            | inl (none, f) ↦ settle-AreAnswers ids d deliveries p (ground arith)
            | inl (some shares, f) ↦ elim (Result-cases (settle ids (without_sink id d)).1) [
              | inr (x, g) ↦ absurd (ground arith)
              | inl (rest, g) ↦
                  let split : deliveries ≡ record { sink = request.sink; shares = shares } ∷ rest =
                    ground arith in
                  rw split (
                    record {
                      client = id;
                      request = request;
                      asked = e;
                      sent_to = refl;
                      range =
                          (assigned_mask_shares_for_client_iff id request.start request.count d
                              shares p).0
                            f;
                    },
                    reanswer id d.assigned_sinks d.index_to_client d.mask_shares rest
                        (settle-AreAnswers ids (without_sink id d) rest p g),
                  )
            ]
          ]
    ]

pub reserve_all-assigned_sinks :
    (reservations : List AssignedMaskReservation) (touched : List ClientIdentity)
    (d : NodeExecution)
    → (reserve_all reservations touched d).0.assigned_sinks ≡ d.assigned_sinks
unfolding reserve_all
reserve_all-assigned_sinks [] touched d = refl
reserve_all-assigned_sinks (reservation ∷ reservations) touched d =
    reserve_all-assigned_sinks reservations _ _

-- If no pending request could be answered before and each index with an owner has its reservation,
-- then what a batch of reservations sends when it is taken without an error are answers to requests that were pending: each goes to the subscription of the client
-- that asked, and holds this node's shares of exactly the range it asked for, every index of which
-- is that client's in the new state.
pub add_assigned_reserved_indices-AreAnswers :
    (reservations : List AssignedMaskReservation) (d : NodeExecution)
    (deliveries : List MaskDelivery)
    → IsSettled d
    → (add_assigned_reserved_indices reservations d).1 ≡ ok deliveries
    → AreAnswers d (add_assigned_reserved_indices reservations d).0 deliveries
unfolding add_assigned_reserved_indices
add_assigned_reserved_indices-AreAnswers reservations d deliveries v h =
    elim (Bool-cases (any (has_owner d) reservations)) [
      | inl dup ↦ absurd (ground arith)
      | inr new ↦
          let (d', touched) = reserve_all reservations [] d in
          let settled = reserve_all-IsSettledBut reservations [] d v in
          let same = settle-SameData touched d' in
          rw (new, add_assigned_reserved_indices)
            (rw (same.owners, same.held)
              (subst
                (λ pending. All (IsAnswer pending d'.index_to_client d'.mask_shares) deliveries)
                (reserve_all-assigned_sinks reservations [] d)
                (settle-AreAnswers touched d' deliveries settled.paired (ground arith))))
    ]
