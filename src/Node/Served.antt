-- ===== src/Node/Served.antt =====
-- That the node-side RPC server (crates/off-chain/src/lib.rs) drops no pending request unanswered.
use mathlib.Core.Option.{some-injective}
use stoffel_mpc_coordinator.Prelude.HashMap
use stoffel_mpc_coordinator.Prelude.HashMap.{HashMap, get-remove}
use stoffel_mpc_coordinator.Prelude.{
  ℕ, zero, suc, ◌≡◌, refl, sym, ◌∙◌, ◌⊎◌, inl, inr, List, [], ◌∷◌, Option, none, some, arith,
  nat_eq, list_eq, ok, Result-cases, Option-cases, Bool-cases, ◌==◌, any, get_elem?,
}
use stoffel_mpc_coordinator.Shared.ExecutionId.{Bytes, ClientIdentity, identity_iff}
use stoffel_mpc_coordinator.Coordinator.Types.{AssignedMaskReservation}
use stoffel_mpc_coordinator.Node.{
  NodeExecution, AssignedMaskRequest, MaskDelivery, assigned_mask_shares_for_client, settle,
  reserve_all, add_assigned_reserved_indices, has_owner, record_all, add_mask_shares, has_share,
}
use stoffel_mpc_coordinator.Node.Range.{IsRange, IsPaired, assigned_mask_shares_for_client_iff}
use stoffel_mpc_coordinator.Node.Waiting.{
  IsSettled, without_sink, reserve_all-IsSettledBut, add_assigned_reserved_indices-IsSettled,
}
use stoffel_mpc_coordinator.Node.MaskShares.{record_all-IsSettledBut, add_mask_shares-IsSettled}
use stoffel_mpc_coordinator.Node.Delivery.{settle-SameData, reserve_all-assigned_sinks}

-- One of the messages goes to the subscription of the request and holds its whole range.
pub record IsReplied (owners : HashMap ℕ ClientIdentity) (held : HashMap ℕ Bytes)
    (deliveries : List MaskDelivery) (id : ClientIdentity) (request : AssignedMaskRequest)
    : Type 0 where
  pub place : ℕ
  pub delivery : MaskDelivery
  pub sent : get_elem? deliveries place ≡ some delivery
  pub sent_to : delivery.sink ≡ request.sink
  pub range : IsRange owners held id request.start request.count delivery.shares

-- Every pending request of the one map is still in the other, or one of the messages answers it.
abbrev pub KeptOrReplied :
    HashMap ClientIdentity AssignedMaskRequest
    → HashMap ClientIdentity AssignedMaskRequest
    → HashMap ℕ ClientIdentity
    → HashMap ℕ Bytes
    → List MaskDelivery
    → Type 0
KeptOrReplied pending pending' owners held deliveries =
    (id : ClientIdentity) (request : AssignedMaskRequest)
    → HashMap.get id pending ≡ some request
    → (HashMap.get id pending' ≡ some request) ⊎ IsReplied owners held deliveries id request

abbrev pub AreServed : NodeExecution → NodeExecution → List MaskDelivery → Type 0
AreServed d d' = KeptOrReplied d.assigned_sinks d'.assigned_sinks d'.index_to_client d'.mask_shares

later-IsReplied :
    {owners : HashMap ℕ ClientIdentity} {held : HashMap ℕ Bytes} {deliveries : List MaskDelivery}
    (first : MaskDelivery) (id : ClientIdentity) (request : AssignedMaskRequest)
    → IsReplied owners held deliveries id request
    → IsReplied owners held (first ∷ deliveries) id request
later-IsReplied first id request r = record {
  place = suc r.place;
  delivery = r.delivery;
  sent = r.sent;
  sent_to = r.sent_to;
  range = r.range;
}

-- A message to the client whose request is taken out.
answer-KeptOrReplied :
    (id : ClientIdentity) (request : AssignedMaskRequest) (delivery : MaskDelivery)
    (rest : List MaskDelivery) (pending pending' : HashMap ClientIdentity AssignedMaskRequest)
    (owners : HashMap ℕ ClientIdentity) (held : HashMap ℕ Bytes)
    → HashMap.get id pending ≡ some request
    → delivery.sink ≡ request.sink
    → IsRange owners held id request.start request.count delivery.shares
    → KeptOrReplied (HashMap.remove id pending) pending' owners held rest
    → KeptOrReplied pending pending' owners held (delivery ∷ rest)
answer-KeptOrReplied id request delivery rest pending pending' owners held e to range k j asked
      found =
    elim (Bool-cases (id == j)) [
      | inr other ↦ elim (k j asked (ground (arith, get-remove id j pending))) [
        | inl kept ↦ inl kept
        | inr r ↦ inr (later-IsReplied delivery j asked r)
      ]
      | inl same ↦
          let here : id ≡ j = (identity_iff id j).0 same in
          let it : request ≡ asked = some-injective request asked (sym e ∙ rw here found) in
          inr (record {
            place = zero;
            delivery = delivery;
            sent = refl;
            sent_to = rw it at to;
            range = rw (it, here) at range;
          })
    ]

settle-KeptOrReplied :
    (ids : List ClientIdentity) (d : NodeExecution) (deliveries : List MaskDelivery)
    → IsPaired d
    → (settle ids d).1 ≡ ok deliveries
    → KeptOrReplied d.assigned_sinks
        (settle ids d).0.assigned_sinks
        d.index_to_client
        d.mask_shares
        deliveries
unfolding settle
settle-KeptOrReplied [] d deliveries p h = λ id request found. inl found
settle-KeptOrReplied (id ∷ ids) d deliveries p h =
    elim (Option-cases (HashMap.get id d.assigned_sinks)) [
      | inl e ↦ rw (e, settle) (settle-KeptOrReplied ids d deliveries p (ground arith))
      | inr (request, e) ↦
          elim (Result-cases (assigned_mask_shares_for_client id request.start request.count d)) [
            | inr (x, f) ↦ absurd (ground arith)
            | inl (none, f) ↦
                rw (e, settle) (rw f (settle-KeptOrReplied ids d deliveries p (ground arith)))
            | inl (some shares, f) ↦ elim (Result-cases (settle ids (without_sink id d)).1) [
              | inr (x, g) ↦ absurd (ground arith)
              | inl (rest, g) ↦
                  let message : MaskDelivery = record { sink = request.sink; shares = shares } in
                  let split : deliveries ≡ message ∷ rest = ground arith in
                  rw (split, e, settle)
                    (rw f (
                      answer-KeptOrReplied id request message rest d.assigned_sinks _
                        d.index_to_client d.mask_shares e refl
                        ((assigned_mask_shares_for_client_iff id request.start request.count d
                            shares p).0
                          f)
                        (settle-KeptOrReplied ids (without_sink id d) rest p g)))
            ]
          ]
    ]

-- After the first phase of a batch, which leaves the pending requests alone.
settled-AreServed :
    (ids : List ClientIdentity) (d d' : NodeExecution) (deliveries : List MaskDelivery)
    → d'.assigned_sinks ≡ d.assigned_sinks
    → IsPaired d'
    → (settle ids d').1 ≡ ok deliveries
    → AreServed d (settle ids d').0 deliveries
settled-AreServed ids d d' deliveries pending p h =
    let same = settle-SameData ids d' in
    rw (same.owners, same.held, sym pending) (settle-KeptOrReplied ids d' deliveries p h)

-- If before a batch no pending request could be answered and each index with an owner has its
-- reservation, and the batch of reservations is taken without an error, then both hold after it,
-- and every request that was pending is either still pending or answered: one of the messages that
-- the batch sends goes to its subscription and holds this node's shares of exactly its range. So
-- no client whose range the batch completes is left waiting.
pub add_assigned_reserved_indices-AreServed :
    (reservations : List AssignedMaskReservation) (d : NodeExecution)
    (deliveries : List MaskDelivery)
    → IsSettled d
    → (add_assigned_reserved_indices reservations d).1 ≡ ok deliveries
    → IsSettled (add_assigned_reserved_indices reservations d).0
      × AreServed d (add_assigned_reserved_indices reservations d).0 deliveries
unfolding add_assigned_reserved_indices
add_assigned_reserved_indices-AreServed reservations d deliveries v h = (
  add_assigned_reserved_indices-IsSettled reservations d deliveries v h,
  elim (Bool-cases (any (has_owner d) reservations)) [
    | inl dup ↦ absurd (ground arith)
    | inr new ↦
        let (d', touched) = reserve_all reservations [] d in
        let settled = reserve_all-IsSettledBut reservations [] d v in
        rw (new, add_assigned_reserved_indices)
          (settled-AreServed touched d d' deliveries (reserve_all-assigned_sinks reservations [] d)
            settled.paired (ground arith))
  ],
)

module _ {S : Type 0} (serialize : S → Option Bytes) where
  record_all-assigned_sinks :
      (shares : List (ℕ × S)) (touched : List ClientIdentity) (d : NodeExecution)
      → (record_all serialize shares touched d).0.assigned_sinks ≡ d.assigned_sinks
  unfolding record_all
  record_all-assigned_sinks [] touched d = refl
  record_all-assigned_sinks ((i, share) ∷ shares) touched d =
      elim (Option-cases (serialize share)) [
        | inl e ↦ rw (e, record_all) refl
        | inr (bytes, e) ↦ rw (e, record_all) (record_all-assigned_sinks shares _ _)
      ]

  -- If before a batch no pending request could be answered and each index with an owner has its
  -- reservation, and the batch of mask shares is taken without an error, then both hold after it,
  -- and every request that was pending is either still pending or answered: one of the messages
  -- that the batch sends goes to its subscription and holds this node's shares of exactly its
  -- range. So no client whose range the batch completes is left waiting.
  pub add_mask_shares-AreServed :
      (shares : List (ℕ × S)) (d : NodeExecution) (deliveries : List MaskDelivery)
      → IsSettled d
      → (add_mask_shares serialize shares d).1 ≡ ok deliveries
      → IsSettled (add_mask_shares serialize shares d).0
        × AreServed d (add_mask_shares serialize shares d).0 deliveries
  unfolding add_mask_shares
  add_mask_shares-AreServed shares d deliveries v h = (
    add_mask_shares-IsSettled serialize shares d deliveries v h,
    elim (Bool-cases (any (has_share serialize d) shares)) [
      | inl dup ↦ absurd (ground arith)
      | inr new ↦ elim (Result-cases (record_all serialize shares [] d).1) [
        | inr (x, e) ↦ absurd (ground arith)
        | inl (touched, e) ↦
            let d' = (record_all serialize shares [] d).0 in
            let settled = record_all-IsSettledBut serialize shares [] touched d v e in
            rw (new, add_mask_shares)
              (rw e (
                settled-AreServed touched d d' deliveries (record_all-assigned_sinks shares [] d)
                  settled.paired (ground arith)))
      ]
    ],
  )
