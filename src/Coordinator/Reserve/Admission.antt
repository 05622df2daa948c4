-- ===== src/Coordinator/Reserve/Admission.antt =====
-- When `reserve_mask_indices` (crates/off-chain/src/lib.rs) admits a batch, and what it writes.
use stoffel_mpc_coordinator.Prelude.{
  ℕ, ◌+◌, ◌<◌, ◌≡◌, refl, ◌≢◌, ◌⊎◌, inl, inr, true, false, List, [], ◌∷◌, Option, none, some, arith,
  nat_eq, list_eq, option_eq, length, u64_mod, Option-cases, any, get_elem?, get_or, contains, All,
  Result-cases, ok, err, if◌then◌else◌,
}
use stoffel_mpc_coordinator.Shared.Round.{round_eq, input_mask_reservation, round_beq_iff}
use stoffel_mpc_coordinator.Shared.ExecutionId.{ClientIdentity}
use stoffel_mpc_coordinator.Coordinator.Types.{
  Network, RpcError, AssignedMaskReservation, InputSlotAssignment,
}
use stoffel_mpc_coordinator.Coordinator.Execution.{ExecutionState, input_slot_client}
use stoffel_mpc_coordinator.Coordinator.Reserve.{
  owned_by, check_reservation, check_reservations, check_reserve, reserve_one, reserve_each,
  publish_reservation, assigned_reservations, reserve_mask_indices,
}
use stoffel_mpc_coordinator.Coordinator.Reserve.Slots.{InBounds, fill, get_or-fill}

-- Index `i` may be given to `id`: it exists, nobody has it, and if it is an assigned slot, the
-- slot is `id`'s.
pub record Reservable (id : ClientIdentity) (d : ExecutionState) (i : ℕ) : Type 0 where
  pub in_bounds : i < length d.reserved_indices
  pub free : get_or d.reserved_indices i none ≡ none
  pub assigned :
      (slot : InputSlotAssignment)
      → get_elem? d.input_assignments i ≡ some slot
      → input_slot_client d slot ≡ some id

-- The batch `indices` of `id` is acceptable.
pub record IsAdmissible (id : ClientIdentity) (d : ExecutionState) (indices : List ℕ) : Type 0 where
  pub current : d.round ≡ input_mask_reservation
  pub nonempty : indices ≢ []
  pub first_call : any (owned_by id) d.reserved_indices ≡ false
  pub each : All (Reservable id d) indices

owned_by_iff :
    (id : ClientIdentity) (owner : Option ClientIdentity)
    → (owned_by id owner ≡ true → owner ≡ some id) × (owner ≡ some id → owned_by id owner ≡ true)
owned_by_iff id owner = option_eq.beq_iff owner (some id)

check_reservation-Reservable :
    (id : ClientIdentity) (d : ExecutionState) (i : ℕ)
    → check_reservation id d i ≡ ok tt
    → Reservable id d i
unfolding check_reservation
check_reservation-Reservable id d i h = record {
  in_bounds = ground arith;
  free = ground arith;
  assigned = λ slot e. ground (arith, owned_by_iff id (input_slot_client d slot));
}

Reservable-check_reservation :
    (id : ClientIdentity) (d : ExecutionState) (i : ℕ)
    → Reservable id d i
    → check_reservation id d i ≡ ok tt
unfolding check_reservation
Reservable-check_reservation id d i r = elim (Option-cases (get_elem? d.input_assignments i)) [
  | inl e ↦ ground (arith, r.in_bounds, r.free)
  | inr (slot, e) ↦
      ground
        (arith, r.in_bounds, r.free, r.assigned slot e, owned_by_iff id (input_slot_client d slot))
]

check_reservations-All :
    (id : ClientIdentity) (d : ExecutionState) (indices : List ℕ)
    → check_reservations id d indices ≡ ok tt
    → All (Reservable id d) indices
unfolding check_reservations
check_reservations-All id d [] h = tt
check_reservations-All id d (i ∷ indices) h = elim (Result-cases (check_reservation id d i)) [
  | inl (u, e) ↦
      (check_reservation-Reservable id d i e, check_reservations-All id d indices (ground arith))
  | inr (x, e) ↦ ground arith
]

All-check_reservations :
    (id : ClientIdentity) (d : ExecutionState) (indices : List ℕ)
    → All (Reservable id d) indices
    → check_reservations id d indices ≡ ok tt
unfolding check_reservations
All-check_reservations id d [] a = refl
All-check_reservations id d (i ∷ indices) (r, a) =
    rw (Reservable-check_reservation id d i r) (All-check_reservations id d indices a)

check_reserve-IsAdmissible :
    (id : ClientIdentity) (d : ExecutionState) (indices : List ℕ)
    → check_reserve id d indices ≡ ok tt
    → IsAdmissible id d indices
unfolding check_reserve
check_reserve-IsAdmissible id d indices h = record {
  current = ground (arith, round_beq_iff d.round input_mask_reservation);
  nonempty = ground arith;
  first_call = ground arith;
  each = check_reservations-All id d indices (ground arith);
}

IsAdmissible-check_reserve :
    (id : ClientIdentity) (d : ExecutionState) (indices : List ℕ)
    → IsAdmissible id d indices
    → check_reserve id d indices ≡ ok tt
unfolding check_reserve
IsAdmissible-check_reserve id d indices a = ground (
  arith,
  round_beq_iff d.round input_mask_reservation,
  a.current,
  a.nonempty,
  a.first_call,
  All-check_reservations id d indices a.each,
)

pub reserve_each-reserved_indices :
    (id : ClientIdentity) (indices : List ℕ) (d : ExecutionState)
    → (reserve_each id indices d).reserved_indices ≡ fill id indices d.reserved_indices
unfolding reserve_each fill
reserve_each-reserved_indices id [] d = refl
reserve_each-reserved_indices id (i ∷ indices) d =
    reserve_each-reserved_indices id indices (reserve_one id i d)

pub reserve_each-n_reserved :
    (id : ClientIdentity) (indices : List ℕ) (d : ExecutionState)
    → d.n_reserved + length indices < u64_mod
    → (reserve_each id indices d).n_reserved ≡ d.n_reserved + length indices
unfolding reserve_each
reserve_each-n_reserved id [] d h = omega arith
reserve_each-n_reserved id (i ∷ indices) d h =
    omega (arith, reserve_each-n_reserved id indices (reserve_one id i d) (omega arith))

-- What a batch leaves as it was.
pub record SameBut (d d' : ExecutionState) : Type 0 where
  pub same_registration : d'.registration ≡ d.registration
  pub same_round : d'.round ≡ d.round
  pub same_votes : d'.transition_votes ≡ d.transition_votes
  pub same_inputs : d'.masked_inputs ≡ d.masked_inputs
  pub same_acks : d'.retirement_acks ≡ d.retirement_acks
  pub same_shares : d'.output_shares ≡ d.output_shares
  pub same_assignments : d'.input_assignments ≡ d.input_assignments

pub reserve_each-SameBut :
    (id : ClientIdentity) (indices : List ℕ) (d : ExecutionState)
    → SameBut d (reserve_each id indices d)
unfolding reserve_each
reserve_each-SameBut id [] d = ground arith
reserve_each-SameBut id (i ∷ indices) d =
    ground (arith, reserve_each-SameBut id indices (reserve_one id i d))

pub Reservable-InBounds :
    (id : ClientIdentity) (d : ExecutionState) (indices : List ℕ)
    → All (Reservable id d) indices
    → InBounds d.reserved_indices indices
Reservable-InBounds id d [] a = tt
Reservable-InBounds id d (i ∷ indices) (r, a) = (r.in_bounds, Reservable-InBounds id d indices a)

published :
    (net : Network) (id : ClientIdentity) (indices : List ℕ) (d : ExecutionState)
    → IsAdmissible id d indices
    → (j : ℕ)
    → get_or
        (publish_reservation net id indices
          (assigned_reservations id d.input_assignments indices)
          (reserve_each id indices d)).reserved_indices
        j
        none
      ≡ (if contains indices j then some id else get_or d.reserved_indices j none)
unfolding publish_reservation
published net id indices d a j =
    rw (reserve_each-reserved_indices id indices d)
      (get_or-fill id indices d.reserved_indices j (Reservable-InBounds id d indices a.each))

publish-SameBut :
    (net : Network) (id : ClientIdentity) (indices : List ℕ)
    (assigned : List AssignedMaskReservation) (d : ExecutionState)
    → SameBut d (publish_reservation net id indices assigned (reserve_each id indices d))
unfolding publish_reservation
publish-SameBut net id indices assigned d = ground (arith, reserve_each-SameBut id indices d)

-- A batch is all or nothing. It is accepted exactly when it is admissible: the round is the mask
-- reservation, the batch is not empty, the client holds no index yet, and every index exists, is
-- free, and is the client's if it is an assigned slot. Then the client holds every index of the
-- batch, all other indices keep their owners, and round, votes and inputs stay; otherwise the
-- whole state stays.
pub reserve_mask_indices_atomic :
    (net : Network) (id : ClientIdentity) (indices : List ℕ) (d : ExecutionState)
    → let (d', result) = reserve_mask_indices net id indices d in
      (IsAdmissible id d indices
        × (result ≡ ok tt)
        × ((j : ℕ)
            → get_or d'.reserved_indices j none
              ≡ (if contains indices j then some id else get_or d.reserved_indices j none))
        × SameBut d d')
      ⊎ ((¬ IsAdmissible id d indices) × ((e : RpcError) × (result ≡ err e)) × (d' ≡ d))
unfolding reserve_mask_indices
reserve_mask_indices_atomic net id indices d = elim (Result-cases (check_reserve id d indices)) [
  | inl (u, e) ↦
      let a = check_reserve-IsAdmissible id d indices e in
      rw (e, reserve_mask_indices)
        (inl (
          a,
          refl,
          published net id indices d a,
          publish-SameBut net id indices (assigned_reservations id d.input_assignments indices) d,
        ))
  | inr (x, e) ↦
      rw (e, reserve_mask_indices)
        (inr (λ a. cc (e, IsAdmissible-check_reserve id d indices a), (x, refl), refl))
]

-- An accepted batch was admissible, and the state is what the writes and the broadcast leave.
pub accepted-publishes :
    (net : Network) (id : ClientIdentity) (indices : List ℕ) (d : ExecutionState)
    → (reserve_mask_indices net id indices d).1 ≡ ok tt
    → IsAdmissible id d indices
      × ((reserve_mask_indices net id indices d).0
          ≡ publish_reservation net id indices
              (assigned_reservations id d.input_assignments indices)
              (reserve_each id indices d))
unfolding reserve_mask_indices
accepted-publishes net id indices d h = elim (Result-cases (check_reserve id d indices)) [
  | inl (u, e) ↦ (check_reserve-IsAdmissible id d indices e, rw (e, reserve_mask_indices))
  | inr (x, e) ↦ ground arith
]
