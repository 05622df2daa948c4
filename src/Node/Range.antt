-- ===== src/Node/Range.antt =====
-- What a range request of the node-side RPC server (crates/off-chain/src/lib.rs) is answered with.
use stoffel_mpc_coordinator.Prelude.HashMap
use stoffel_mpc_coordinator.Prelude.HashMap.{HashMap}
use stoffel_mpc_coordinator.Prelude.{
  ℕ, zero, suc, ◌+◌, ◌<◌, ◌≡◌, ◌↔◌, refl, List, [], ◌∷◌, none, some, arith, leb, length, is_some,
  nat_eq, list_eq, ok, Result-cases, Option-cases, Bool-cases, u64_mod, inl, inr,
}
use stoffel_mpc_coordinator.Shared.ExecutionId.{Bytes, ClientIdentity, identity_iff}
use stoffel_mpc_coordinator.Coordinator.Types.{AssignedMaskShare}
use stoffel_mpc_coordinator.Node.{
  NodeExecution, assigned_mask_share, collect, assigned_mask_shares_for_client,
}

-- The share of index `i` may be sent to `id`: it is this node's share of the index, and the index
-- is `id`'s.
pub record IsShare (owners : HashMap ℕ ClientIdentity) (held : HashMap ℕ Bytes)
    (id : ClientIdentity) (i : ℕ) (share : AssignedMaskShare) : Type 0 where
  pub index : share.reserved_index ≡ i
  pub owner : HashMap.get i owners ≡ some id
  pub bytes : HashMap.get i held ≡ some share.share_bytes

-- The shares of consecutive indices from `i` on.
abbrev pub AreShares :
    HashMap ℕ ClientIdentity
    → HashMap ℕ Bytes
    → ClientIdentity
    → ℕ
    → List AssignedMaskShare
    → Type 0
AreShares owners held id i [] = Unit
AreShares owners held id i (share ∷ shares) =
    IsShare owners held id i share × AreShares owners held id (suc i) shares

-- The shares of the whole range `start .. start + count`, in order.
pub record IsRange (owners : HashMap ℕ ClientIdentity) (held : HashMap ℕ Bytes)
    (id : ClientIdentity) (start count : ℕ) (shares : List AssignedMaskShare) : Type 0 where
  pub complete : length shares ≡ count
  pub each : AreShares owners held id start shares
  pub fits : start + count < u64_mod

-- An index with an owner has its reservation.
abbrev pub IsPaired : NodeExecution → Type 0
IsPaired d =
    (i : ℕ)
    → is_some (HashMap.get i d.index_to_client) ≡ is_some (HashMap.get i d.assigned_reservations)

-- One turn of the loop that does not end it.
record Turn (id : ClientIdentity) (d : NodeExecution) (i count : ℕ)
    (shares : List AssignedMaskShare) : Type 0 where
  share : AssignedMaskShare
  rest : List AssignedMaskShare
  is_share : IsShare d.index_to_client d.mask_shares id i share
  later : collect id d (suc i) count ≡ ok (some rest)
  split : shares ≡ share ∷ rest

collect-Turn :
    (id : ClientIdentity) (d : NodeExecution) (count i : ℕ) (shares : List AssignedMaskShare)
    → collect id d i (suc count) ≡ ok (some shares)
    → Turn id d i count shares
unfolding collect assigned_mask_share
collect-Turn id d count i shares h = elim (Option-cases (HashMap.get i d.index_to_client)) [
  | inl e ↦ absurd (ground arith)
  | inr (client, e) ↦ elim (Option-cases (HashMap.get i d.mask_shares)) [
    | inl f ↦ absurd (ground arith)
    | inr (bytes, f) ↦ elim (Option-cases (HashMap.get i d.assigned_reservations)) [
      | inl g ↦ absurd (ground arith)
      | inr (reservation, g) ↦ elim (Result-cases (collect id d (suc i) count)) [
        | inr (x, k) ↦ absurd (ground arith)
        | inl (none, k) ↦ absurd (ground arith)
        | inl (some rest, k) ↦ record {
          share = record { reserved_index = i; share_bytes = bytes };
          rest = rest;
          is_share = record {
            index = refl;
            owner = ground (arith, identity_iff client id);
            bytes = f;
          };
          later = k;
          split = ground arith;
        }
      ]
    ]
  ]
]

collect-AreShares :
    (id : ClientIdentity) (d : NodeExecution) (count i : ℕ) (shares : List AssignedMaskShare)
    → collect id d i count ≡ ok (some shares)
    → AreShares d.index_to_client d.mask_shares id i shares × (length shares ≡ count)
unfolding collect
collect-AreShares id d zero i [] h = (tt, refl)
collect-AreShares id d zero i (s ∷ shares) h = cc
collect-AreShares id d (suc count) i shares h =
    let t = collect-Turn id d count i shares h in
    let (each, complete) = collect-AreShares id d count (suc i) t.rest t.later in
    rw t.split ((t.is_share, each), omega arith)

AreShares-collect :
    (id : ClientIdentity) (d : NodeExecution) (i : ℕ) (shares : List AssignedMaskShare)
    → IsPaired d
    → AreShares d.index_to_client d.mask_shares id i shares
    → collect id d i (length shares) ≡ ok (some shares)
unfolding collect assigned_mask_share
AreShares-collect id d i [] p a = refl
AreShares-collect id d i (share ∷ shares) p (s, a) = ground (
  arith,
  s.index,
  s.owner,
  s.bytes,
  p i,
  identity_iff id id,
  AreShares-collect id d (suc i) shares p a,
)

-- A range request of a client is answered with shares exactly when the range ends below 2 ^ 64,
-- this node has a share of every index in it, and every index is the client's; the answer then
-- holds precisely these shares in order. So no client ever gets the share of another's index.
-- This is for a state in which an index with an owner has its reservation.
pub assigned_mask_shares_for_client_iff :
    (id : ClientIdentity) (start count : ℕ) (d : NodeExecution) (shares : List AssignedMaskShare)
    → IsPaired d
    → (assigned_mask_shares_for_client id start count d ≡ ok (some shares))
      ↔ IsRange d.index_to_client d.mask_shares id start count shares
unfolding assigned_mask_shares_for_client
assigned_mask_shares_for_client_iff id start count d shares p =
    elim (Bool-cases (leb u64_mod (start + count))) [
      | inl out ↦ (λ h. cc (out), λ r. ground (arith, r.fits))
      | inr fits ↦ (
        λ h.
            let h' : collect id d start count ≡ ok (some shares) = ground arith in
            let (each, complete) = collect-AreShares id d count start shares h' in
            record { complete = complete; each = each; fits = ground arith },
        λ r. rw (fits, ← r.complete) (AreShares-collect id d start shares p r.each),
      )
    ]
