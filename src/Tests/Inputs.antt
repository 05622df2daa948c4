-- ===== src/Tests/Inputs.antt =====
-- Input slots, reservations and submissions of crates/off-chain/src/lib.rs on concrete data.
use stoffel_mpc_coordinator.Prelude.{
  ℕ, ◌<◌, ◌≡◌, ◌≢◌, ◌⊎◌, refl, List, [], ◌∷◌, none, some, ok, err, arith, contains, list_eq, nat_eq,
  get_elem?, get_or, count_some, count_none, if◌then◌else◌,
}
use stoffel_mpc_coordinator.Shared.Round.{round_index}
use stoffel_mpc_coordinator.Shared.ExecutionId.{Bytes}
use stoffel_mpc_coordinator.Coordinator.Types.{
  InputClientRange, RpcError, server_error, unauthorized_client_io, bad_id,
  masked_input_already_submitted,
}
use stoffel_mpc_coordinator.Coordinator.Inputs.{
  expand_input_ranges, slot_at, get_elem?-expand_input_ranges,
}
use stoffel_mpc_coordinator.Coordinator.Execution.{input_slot_client}
use stoffel_mpc_coordinator.Coordinator.Reserve.{
  check_reserve, check_reservations, check_reservation, reserve_mask_indices, available_input_masks,
}
use stoffel_mpc_coordinator.Coordinator.Reserve.Admission.{
  IsAdmissible, SameBut, reserve_mask_indices_atomic,
}
use stoffel_mpc_coordinator.Coordinator.Reserve.Counting.{
  IsCounted, reserve_mask_indices_counts, reserve_mask_indices_miscounts,
}
use stoffel_mpc_coordinator.Coordinator.Submit.{
  zip, submission, submit_record, check_submit, check_submissions, check_submission,
}
use stoffel_mpc_coordinator.Coordinator.Submit.Writes.{last_value}
use stoffel_mpc_coordinator.Coordinator.Submit.Admission.{
  IsSubmittable, SameRoles, submit_record_atomic, submit_record_keeps,
}
use stoffel_mpc_coordinator.Tests.Data.{client_x, client_y, calm, reserving, collecting}

abbrev ranges : List InputClientRange
ranges = record { client_index = 0; count = 2 } ∷ record { client_index = 1; count = 1 } ∷ []

get_elem?-expand_input_ranges_example : get_elem? (expand_input_ranges ranges) 2 ≡ slot_at ranges 2
get_elem?-expand_input_ranges_example = get_elem?-expand_input_ranges ranges 2

-- A client may not reserve the slot of another.
reserve_foreign :
    (reserve_mask_indices calm client_x (0 ∷ 2 ∷ []) reserving).1
    ≡ err (server_error unauthorized_client_io)
unfolding reserve_mask_indices check_reserve check_reservations check_reservation input_slot_client
    round_index
reserve_foreign = refl

reserve_own : (reserve_mask_indices calm client_x (0 ∷ 1 ∷ []) reserving).1 ≡ ok tt
unfolding reserve_mask_indices check_reserve check_reservations check_reservation input_slot_client
    round_index
reserve_own = refl

reserve_twice : (reserve_mask_indices calm client_x (0 ∷ 0 ∷ []) reserving).1 ≡ ok tt
unfolding reserve_mask_indices check_reserve check_reservations check_reservation input_slot_client
    round_index
reserve_twice = refl

reserving-IsCounted : IsCounted reserving
reserving-IsCounted = ground arith

reserve_mask_indices_atomic_example :
    let (d', result) = reserve_mask_indices calm client_x (0 ∷ 1 ∷ []) reserving in
    (IsAdmissible client_x reserving (0 ∷ 1 ∷ [])
      × (result ≡ ok tt)
      × ((j : ℕ)
          → get_or d'.reserved_indices j none ≡ (
              if contains (0 ∷ 1 ∷ []) j
              then some client_x
              else get_or reserving.reserved_indices j none))
      × SameBut reserving d')
    ⊎ ((¬ IsAdmissible client_x reserving (0 ∷ 1 ∷ []))
        × ((e : RpcError) × (result ≡ err e))
        × (d' ≡ reserving))
reserve_mask_indices_atomic_example =
    reserve_mask_indices_atomic calm client_x (0 ∷ 1 ∷ []) reserving

reserve_mask_indices_counts_example :
    let d' = (reserve_mask_indices calm client_x (0 ∷ 1 ∷ []) reserving).0 in
    IsCounted d' × (available_input_masks d' ≡ count_none d'.reserved_indices)
reserve_mask_indices_counts_example =
    reserve_mask_indices_counts calm client_x (0 ∷ 1 ∷ []) reserving reserving-IsCounted
      (omega arith) reserve_own (ground arith)

reserve_mask_indices_miscounts_example :
    let d' = (reserve_mask_indices calm client_x (0 ∷ 0 ∷ []) reserving).0 in
    (count_some d'.reserved_indices < d'.n_reserved)
    × (available_input_masks d' ≢ count_none d'.reserved_indices)
reserve_mask_indices_miscounts_example =
    reserve_mask_indices_miscounts calm client_x (0 ∷ 0 ∷ []) reserving reserving-IsCounted
      (omega arith) reserve_twice (λ d. ground arith)

-- A client may not submit for the slot of another, and for its own only once.
submit_foreign :
    (submit_record client_x ((6 ∷ []) ∷ []) (2 ∷ []) collecting).1 ≡ err (server_error bad_id)
unfolding submit_record check_submit check_submissions check_submission round_index
submit_foreign = refl

submit_again :
    (submit_record client_y ((6 ∷ []) ∷ []) (2 ∷ []) collecting).1
    ≡ err (server_error masked_input_already_submitted)
unfolding submit_record check_submit check_submissions check_submission round_index
submit_again = refl

abbrev two_inputs : List Bytes
two_inputs = (6 ∷ []) ∷ (7 ∷ []) ∷ []

submit_record_atomic_example :
    let (d', result) = submit_record client_x two_inputs (0 ∷ 1 ∷ []) collecting in
    (IsSubmittable client_x two_inputs (0 ∷ 1 ∷ []) collecting
      × (result ≡ ok (submission client_x (zip (0 ∷ 1 ∷ []) two_inputs) collecting))
      × ((j : ℕ)
          → get_or d'.masked_inputs j none ≡ elim (last_value j (zip (0 ∷ 1 ∷ []) two_inputs)) [
            | none ↦ get_or collecting.masked_inputs j none
            | some v ↦ some v
          ])
      × SameRoles collecting d')
    ⊎ ((¬ IsSubmittable client_x two_inputs (0 ∷ 1 ∷ []) collecting)
        × ((e : RpcError) × (result ≡ err e))
        × (d' ≡ collecting))
submit_record_atomic_example = submit_record_atomic client_x two_inputs (0 ∷ 1 ∷ []) collecting

submit_record_keeps_example :
    let d' = (submit_record client_x two_inputs (0 ∷ 1 ∷ []) collecting).0 in
    (get_or d'.masked_inputs 1 none ≡ get_or collecting.masked_inputs 1 none)
    ⊎ ((get_or collecting.masked_inputs 1 none ≡ none)
        × (get_or collecting.reserved_indices 1 none ≡ some client_x))
submit_record_keeps_example = submit_record_keeps client_x two_inputs (0 ∷ 1 ∷ []) collecting 1
