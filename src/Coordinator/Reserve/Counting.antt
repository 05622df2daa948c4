-- ===== src/Coordinator/Reserve/Counting.antt =====
-- The counter `n_reserved` behind `available_input_masks` (crates/off-chain/src/lib.rs).
use stoffel_mpc_coordinator.Prelude.{
  ℕ, ◌+◌, ◌^◌, ◌<◌, ◌≡◌, ◌≢◌, List, [], ◌∷◌, arith, length, count_some, count_none,
  count_some-add-count_none, Distinct, nat_eq, All, ok, ◌∙◌, ap,
}
use stoffel_mpc_coordinator.Shared.ExecutionId.{ClientIdentity}
use stoffel_mpc_coordinator.Coordinator.Types.{Network}
use stoffel_mpc_coordinator.Coordinator.Execution.{ExecutionState}
use stoffel_mpc_coordinator.Coordinator.Reserve.{
  publish_reservation, reserve_mask_indices, available_input_masks,
}
use stoffel_mpc_coordinator.Coordinator.Reserve.Slots.{
  AllFree, fill, length-fill, count_some-fill, count_some-fill_repeated,
}
use stoffel_mpc_coordinator.Coordinator.Reserve.Admission.{
  Reservable, Reservable-InBounds, reserve_each-reserved_indices, reserve_each-n_reserved,
  accepted-publishes, reserve_each-SameBut,
}

-- The counter agrees with the list of owners. A `Vec` has fewer than 2 ^ 63 elements.
pub record IsCounted (d : ExecutionState) : Type 0 where
  pub exact : d.n_reserved ≡ count_some d.reserved_indices
  pub same_length : length d.masked_inputs ≡ length d.reserved_indices
  pub sized : length d.reserved_indices < 2 ^ 63

Reservable-AllFree :
    (id : ClientIdentity) (d : ExecutionState) (indices : List ℕ)
    → All (Reservable id d) indices
    → AllFree d.reserved_indices indices
Reservable-AllFree id d [] a = tt
Reservable-AllFree id d (i ∷ indices) (r, a) = (r.free, Reservable-AllFree id d indices a)

module _ (net : Network) (id : ClientIdentity) (indices : List ℕ) (d : ExecutionState)
    (counted : IsCounted d) (sized : length indices < 2 ^ 63)
    (accepted : (reserve_mask_indices net id indices d).1 ≡ ok tt) where
  abbrev after : ExecutionState
  after = (reserve_mask_indices net id indices d).0

  after-n_reserved : after.n_reserved ≡ d.n_reserved + length indices
  unfolding publish_reservation
  after-n_reserved = rw (accepted-publishes net id indices d accepted).1 (
      reserve_each-n_reserved id indices d
        (omega (arith, counted, count_some-add-count_none d.reserved_indices)))

  after-reserved_indices : after.reserved_indices ≡ fill id indices d.reserved_indices
  unfolding publish_reservation
  after-reserved_indices =
      rw (accepted-publishes net id indices d accepted).1
        (reserve_each-reserved_indices id indices d)

  after-masked_inputs : after.masked_inputs ≡ d.masked_inputs
  unfolding publish_reservation
  after-masked_inputs =
      rw (accepted-publishes net id indices d accepted).1
        ((reserve_each-SameBut id indices d).same_inputs)

  after-length : length after.reserved_indices ≡ length d.reserved_indices
  after-length = ap length after-reserved_indices ∙ length-fill id indices d.reserved_indices

  -- If the counter agrees with the owners before, then after an accepted batch of fewer than 2 ^ 63
  -- pairwise different indices it still does, and the number of available masks that is reported is
  -- the number of free slots.
  pub reserve_mask_indices_counts :
      Distinct indices
      → IsCounted after × (available_input_masks after ≡ count_none after.reserved_indices)
  unfolding available_input_masks
  reserve_mask_indices_counts distinct =
      let a = (accepted-publishes net id indices d accepted).0.each in
      let exact : after.n_reserved ≡ count_some after.reserved_indices = omega (
        arith,
        counted,
        after-n_reserved,
        ap count_some after-reserved_indices,
        count_some-fill id indices d.reserved_indices (Reservable-InBounds id d indices a)
            (Reservable-AllFree id d indices a) distinct,
      ) in
      let lengths : length after.masked_inputs ≡ length after.reserved_indices =
        omega (arith, counted, after-length, ap length after-masked_inputs) in
      (
        record {
          exact = exact;
          same_length = lengths;
          sized = omega (arith, counted, after-length);
        },
        omega (
          arith,
          counted,
          after-length,
          exact,
          lengths,
          count_some-add-count_none after.reserved_indices,
        ),
      )

  -- If the counter agrees with the owners before, then after an accepted batch of fewer than 2 ^ 63
  -- indices that names one twice it is ahead of the owners, and the number of available masks that
  -- is reported is not the number of free slots.
  pub reserve_mask_indices_miscounts :
      ¬ Distinct indices
      → (count_some after.reserved_indices < after.n_reserved)
        × (available_input_masks after ≢ count_none after.reserved_indices)
  unfolding available_input_masks
  reserve_mask_indices_miscounts repeated =
      let a = (accepted-publishes net id indices d accepted).0.each in
      let ahead : count_some after.reserved_indices < after.n_reserved = omega (
        arith,
        counted,
        after-n_reserved,
        ap count_some after-reserved_indices,
        count_some-fill_repeated id indices d.reserved_indices (Reservable-InBounds id d indices a)
            repeated,
      ) in
      (
        ahead,
        omega (
          arith,
          counted,
          ahead,
          after-n_reserved,
          after-length,
          ap length after-masked_inputs,
          count_some-add-count_none after.reserved_indices,
          count_some-add-count_none d.reserved_indices,
        ),
      )
