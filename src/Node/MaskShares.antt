-- ===== src/Node/MaskShares.antt =====
-- That no request that the mask shares of a batch (crates/off-chain/src/lib.rs) complete stays
-- pending.
use stoffel_mpc_coordinator.Prelude.HashMap
use stoffel_mpc_coordinator.Prelude.HashMap.{HashMap, get-insert, get-remove}
use stoffel_mpc_coordinator.Prelude.{
  ℕ, ◌≡◌, ◌≢◌, subst, false, List, [], ◌∷◌, Option, none, some, arith, nat_eq, list_eq, ok,
  Result-cases, Option-cases, Bool-cases, inl, inr, contains, any,
}
use stoffel_mpc_coordinator.Shared.ExecutionId.{Bytes, ClientIdentity, identity_iff}
use stoffel_mpc_coordinator.Node.{
  NodeExecution, MaskDelivery, touch, record_all, add_mask_shares, has_share,
}
use stoffel_mpc_coordinator.Node.Range.{}
use stoffel_mpc_coordinator.Node.Waiting.{
  IsSettled, IsSettledBut, settle-IsSettled, touch-contains, AreShares-insert_share,
}

module _ {S : Type 0} (serialize : S → Option Bytes) where
  abbrev owners_touched : ℕ → List ClientIdentity → NodeExecution → List ClientIdentity
  owners_touched i touched d = elim (HashMap.get i d.index_to_client) [
    | none ↦ touched
    | some id ↦ touch id touched
  ]

  owners_touched-contains :
      (i : ℕ) (j : ClientIdentity) (touched : List ClientIdentity) (d : NodeExecution)
      → contains (owners_touched i touched d) j ≡ false
      → (contains touched j ≡ false) × (HashMap.get i d.index_to_client ≢ some j)
  owners_touched-contains i j touched d h = elim (Option-cases (HashMap.get i d.index_to_client)) [
    | inl e ↦ ground arith
    | inr (id, e) ↦ ground (arith, touch-contains id j touched, identity_iff id j)
  ]

  shared-IsSettledBut :
      (i : ℕ) (bytes : Bytes) (touched : List ClientIdentity) (d : NodeExecution)
      → IsSettledBut touched d
      → IsSettledBut
          (owners_touched i touched d)
          (record d { mask_shares = HashMap.insert i bytes d.mask_shares })
  shared-IsSettledBut i bytes touched d v = record {
    paired = v.paired;
    waiting = λ j request shares found other r.
        let (apart, ne) = owners_touched-contains i j touched d other in
        v.waiting j request shares found apart (record {
          complete = r.complete;
          each =
              AreShares-insert_share i d.mask_shares j bytes d.index_to_client request.start shares
                ne r.each;
          fits = r.fits;
        });
  }

  pub record_all-IsSettledBut :
      (shares : List (ℕ × S)) (touched touched' : List ClientIdentity) (d : NodeExecution)
      → IsSettledBut touched d
      → (record_all serialize shares touched d).1 ≡ ok touched'
      → IsSettledBut touched' (record_all serialize shares touched d).0
  unfolding record_all
  record_all-IsSettledBut [] touched touched' d v h =
      let same : touched ≡ touched' = ground arith in subst (λ ids. IsSettledBut ids d) same v
  record_all-IsSettledBut ((i, share) ∷ shares) touched touched' d v h =
      elim (Option-cases (serialize share)) [
        | inl e ↦ absurd (ground arith)
        | inr (bytes, e) ↦
            rw (e, record_all)
              (record_all-IsSettledBut shares (owners_touched i touched d) touched' _
                (shared-IsSettledBut i bytes touched d v) (ground arith))
      ]

  -- A batch of mask shares that is taken without an error keeps that no pending request could be
  -- answered.
  pub add_mask_shares-IsSettled :
      (shares : List (ℕ × S)) (d : NodeExecution) (deliveries : List MaskDelivery)
      → IsSettled d
      → (add_mask_shares serialize shares d).1 ≡ ok deliveries
      → IsSettled (add_mask_shares serialize shares d).0
  unfolding add_mask_shares
  add_mask_shares-IsSettled shares d deliveries v h =
      elim (Bool-cases (any (has_share serialize d) shares)) [
        | inl dup ↦ rw (dup, add_mask_shares) v
        | inr new ↦ elim (Result-cases (record_all serialize shares [] d).1) [
          | inr (x, e) ↦ absurd (ground arith)
          | inl (touched, e) ↦
              rw (new, add_mask_shares)
                (rw e (
                  settle-IsSettled touched (record_all serialize shares [] d).0 deliveries
                    (record_all-IsSettledBut shares [] touched d v e) (ground arith)))
        ]
      ]
