-- ===== src/Node/Waiting.antt =====
-- That the node-side RPC server (crates/off-chain/src/lib.rs) leaves no client waiting for shares
-- that are there.
use mathlib.Core.Option.{some-injective}
use stoffel_mpc_coordinator.Prelude.HashMap
use stoffel_mpc_coordinator.Prelude.HashMap.{HashMap, get-insert, get-remove}
use stoffel_mpc_coordinator.Prelude.{
  ℕ, suc, ◌≡◌, ◌≢◌, sym, ◌∙◌, ap, false, List, [], ◌∷◌, none, some, arith, nat_eq, list_eq, ok,
  Result-cases, Option-cases, Bool-cases, inl, inr, ◌==◌, contains, any,
}
use stoffel_mpc_coordinator.Prelude.HashSet.{contains-append}
use stoffel_mpc_coordinator.Shared.ExecutionId.{Bytes, ClientIdentity, identity_iff}
use stoffel_mpc_coordinator.Coordinator.Types.{AssignedMaskReservation, AssignedMaskShare}
use stoffel_mpc_coordinator.Node.{
  NodeExecution, AssignedMaskRequest, MaskDelivery, assigned_mask_shares_for_client, settle, touch,
  reserve_all, add_assigned_reserved_indices, has_owner,
}
use stoffel_mpc_coordinator.Node.Range.{
  AreShares, IsRange, IsPaired, assigned_mask_shares_for_client_iff,
}

-- No pending request of a client outside `ids` could be answered.
pub record IsSettledBut (ids : List ClientIdentity) (d : NodeExecution) : Type 0 where
  pub paired : IsPaired d
  pub waiting :
      (id : ClientIdentity) (request : AssignedMaskRequest) (shares : List AssignedMaskShare)
      → HashMap.get id d.assigned_sinks ≡ some request
      → contains ids id ≡ false
      → ¬ IsRange d.index_to_client d.mask_shares id request.start request.count shares

-- No pending request could be answered, and each index with an owner has its reservation.
abbrev pub IsSettled : NodeExecution → Type 0
IsSettled = IsSettledBut []

pub unready :
    (id : ClientIdentity) (request : AssignedMaskRequest) (d : NodeExecution)
    → IsPaired d
    → assigned_mask_shares_for_client id request.start request.count d ≡ ok none
    → (shares : List AssignedMaskShare)
    → ¬ IsRange d.index_to_client d.mask_shares id request.start request.count shares
unready id request d p e shares r =
    cc (e, (assigned_mask_shares_for_client_iff id request.start request.count d shares p).1 r)

-- A client that is dealt with: its request is gone, or it could not be answered.
dealt :
    (id : ClientIdentity) (ids : List ClientIdentity) (d : NodeExecution)
    → IsSettledBut (id ∷ ids) d
    → ((request : AssignedMaskRequest) (shares : List AssignedMaskShare)
        → HashMap.get id d.assigned_sinks ≡ some request
        → ¬ IsRange d.index_to_client d.mask_shares id request.start request.count shares)
    → IsSettledBut ids d
dealt id ids d v here = record {
  paired = v.paired;
  waiting = λ j request shares found other. elim (Bool-cases (id == j)) [
    | inr ne ↦ v.waiting j request shares found (ground arith)
    | inl e ↦ λ r.
        here request shares (rw ((identity_iff id j).0 e) found) (rw ((identity_iff id j).0 e) r)
  ];
}

pub removed :
    (id : ClientIdentity) (ids : List ClientIdentity) (d : NodeExecution)
    → IsSettledBut (id ∷ ids) d
    → IsSettledBut ids (record d { assigned_sinks = HashMap.remove id d.assigned_sinks })
removed id ids d v = record {
  paired = v.paired;
  waiting = λ j request shares found other.
      v.waiting j request shares (ground (arith, get-remove id j d.assigned_sinks))
        (ground (arith, get-remove id j d.assigned_sinks));
}

abbrev pub without_sink : ClientIdentity → NodeExecution → NodeExecution
without_sink id d = record d { assigned_sinks = HashMap.remove id d.assigned_sinks }

pub settle-IsSettled :
    (ids : List ClientIdentity) (d : NodeExecution) (deliveries : List MaskDelivery)
    → IsSettledBut ids d
    → (settle ids d).1 ≡ ok deliveries
    → IsSettled (settle ids d).0
unfolding settle
settle-IsSettled [] d deliveries v h = v
settle-IsSettled (id ∷ ids) d deliveries v h =
    elim (Option-cases (HashMap.get id d.assigned_sinks)) [
      | inl e ↦
          rw (e, settle)
            (settle-IsSettled ids d deliveries
              (dealt id ids d v (λ request shares found. cc (e, found))) (ground arith))
      | inr (request, e) ↦
          elim (Result-cases (assigned_mask_shares_for_client id request.start request.count d)) [
            | inr (x, f) ↦ absurd (ground arith)
            | inl (none, f) ↦
                rw (e, settle)
                  (rw f (
                    settle-IsSettled ids d deliveries
                      (dealt id ids d v (λ request' shares found r.
                        unready id request d v.paired f shares
                          (rw (some-injective request request' (sym e ∙ found)) r)))
                      (ground arith)))
            | inl (some shares, f) ↦ elim (Result-cases (settle ids (without_sink id d)).1) [
              | inr (x, g) ↦ absurd (ground arith)
              | inl (rest, g) ↦
                  rw (e, settle)
                    (rw f (settle-IsSettled ids (without_sink id d) rest (removed id ids d v) g))
            ]
          ]
    ]

-- The first phases touch the clients whose requests may have become answerable.
pub touch-contains :
    (id j : ClientIdentity) (touched : List ClientIdentity)
    → contains (touch id touched) j ≡ false
    → (contains touched j ≡ false) × ((id == j) ≡ false)
unfolding touch
touch-contains id j touched h =
    ground (arith, contains-append touched (id ∷ []) j, identity_iff id j)

module _ (i : ℕ) (held : HashMap ℕ Bytes) (j : ClientIdentity) where
  -- A range of `j` does not depend on an index that is given to another client.
  AreShares-insert_owner :
      (owner : ClientIdentity) (owners : HashMap ℕ ClientIdentity) (start : ℕ)
      (shares : List AssignedMaskShare)
      → (owner == j) ≡ false
      → AreShares (HashMap.insert i owner owners) held j start shares
      → AreShares owners held j start shares
  AreShares-insert_owner owner owners start [] ne a = tt
  AreShares-insert_owner owner owners start (share ∷ shares) ne (s, a) = (
    record {
      index = s.index;
      owner = ground (arith, s.owner, get-insert i start owner owners, identity_iff owner j);
      bytes = s.bytes;
    },
    AreShares-insert_owner owner owners (suc start) shares ne a,
  )

  -- Nor on the share of an index that is not its own.
  pub AreShares-insert_share :
      (bytes : Bytes) (owners : HashMap ℕ ClientIdentity) (start : ℕ)
      (shares : List AssignedMaskShare)
      → HashMap.get i owners ≢ some j
      → AreShares owners (HashMap.insert i bytes held) j start shares
      → AreShares owners held j start shares
  AreShares-insert_share bytes owners start [] ne a = tt
  AreShares-insert_share bytes owners start (share ∷ shares) ne (s, a) = (
    record {
      index = s.index;
      owner = s.owner;
      bytes = ground (
        arith,
        s.owner,
        s.bytes,
        get-insert i start bytes held,
        ap (λ k. HashMap.get k owners) {x = i} {y = start},
      );
    },
    AreShares-insert_share bytes owners (suc start) shares ne a,
  )

reserved-IsSettledBut :
    (reservation : AssignedMaskReservation) (touched : List ClientIdentity) (d : NodeExecution)
    → IsSettledBut touched d
    → IsSettledBut (touch reservation.client touched) (record d {
      index_to_client =
          HashMap.insert reservation.reserved_index reservation.client d.index_to_client;
      assigned_reservations =
          HashMap.insert reservation.reserved_index reservation d.assigned_reservations;
    })
reserved-IsSettledBut reservation touched d v = record {
  paired = λ k. ground (
    arith,
    v.paired k,
    get-insert reservation.reserved_index k reservation.client d.index_to_client,
    get-insert reservation.reserved_index k reservation d.assigned_reservations,
  );
  waiting = λ j request shares found other r.
      let (apart, ne) = touch-contains reservation.client j touched other in
      v.waiting j request shares found apart (record {
        complete = r.complete;
        each =
            AreShares-insert_owner reservation.reserved_index d.mask_shares j reservation.client
              d.index_to_client request.start shares ne r.each;
        fits = r.fits;
      });
}

pub reserve_all-IsSettledBut :
    (reservations : List AssignedMaskReservation) (touched : List ClientIdentity)
    (d : NodeExecution)
    → IsSettledBut touched d
    → IsSettledBut (reserve_all reservations touched d).1 (reserve_all reservations touched d).0
unfolding reserve_all
reserve_all-IsSettledBut [] touched d v = v
reserve_all-IsSettledBut (reservation ∷ reservations) touched d v =
    reserve_all-IsSettledBut reservations (touch reservation.client touched) _
      (reserved-IsSettledBut reservation touched d v)

-- A batch of reservations that is taken without an error keeps that no pending request could be
-- answered.
pub add_assigned_reserved_indices-IsSettled :
    (reservations : List AssignedMaskReservation) (d : NodeExecution)
    (deliveries : List MaskDelivery)
    → IsSettled d
    → (add_assigned_reserved_indices reservations d).1 ≡ ok deliveries
    → IsSettled (add_assigned_reserved_indices reservations d).0
unfolding add_assigned_reserved_indices
add_assigned_reserved_indices-IsSettled reservations d deliveries v h =
    elim (Bool-cases (any (has_owner d) reservations)) [
      | inl dup ↦ rw (dup, add_assigned_reserved_indices) v
      | inr new ↦
          rw (new, add_assigned_reserved_indices)
            (settle-IsSettled (reserve_all reservations [] d).1 (reserve_all reservations [] d).0
              deliveries (reserve_all-IsSettledBut reservations [] d v) (ground arith))
    ]
