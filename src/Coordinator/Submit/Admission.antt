-- ===== src/Coordinator/Submit/Admission.antt =====
-- When `submit_masked_inputs` (crates/off-chain/src/lib.rs) accepts a batch, and what it writes.
use stoffel_mpc_coordinator.Prelude.{
  ℕ, ◌<◌, ◌≡◌, refl, ◌≢◌, ◌⊎◌, inl, inr, true, List, [], ◌∷◌, none, some, arith, nat_eq, list_eq,
  length, get_or, contains, All, Result-cases, ok, err, Option-cases,
}
use stoffel_mpc_coordinator.Shared.Round.{input_collection, round_beq_iff}
use stoffel_mpc_coordinator.Shared.ExecutionId.{Bytes, ClientIdentity, identity_iff}
use stoffel_mpc_coordinator.Coordinator.Types.{RpcError}
use stoffel_mpc_coordinator.Coordinator.Execution.{ExecutionState}
use stoffel_mpc_coordinator.Coordinator.Submit.{
  zip, check_submission, check_submissions, check_submit, recorded, submission, submit_record,
}
use stoffel_mpc_coordinator.Coordinator.Submit.Writes.{
  last_value, PairsInBounds, get_or-write_inputs,
}

-- `id` may submit an input for index `i`: the index exists, is reserved by `id`, and has no input.
pub record Submittable (id : ClientIdentity) (d : ExecutionState) (i : ℕ) : Type 0 where
  pub in_bounds : i < length d.masked_inputs
  pub owned : get_or d.reserved_indices i none ≡ some id
  pub fresh : get_or d.masked_inputs i none ≡ none

pub record IsSubmittable (id : ClientIdentity) (inputs : List Bytes) (indices : List ℕ)
    (d : ExecutionState) : Type 0 where
  pub current : d.round ≡ input_collection
  pub matched : length inputs ≡ length indices
  pub nonempty : indices ≢ []
  pub each : All (Submittable id d) indices

check_submission_iff :
    (id : ClientIdentity) (d : ExecutionState) (i : ℕ)
    → (check_submission id d i ≡ ok tt → Submittable id d i)
      × (Submittable id d i → check_submission id d i ≡ ok tt)
unfolding check_submission
check_submission_iff id d i = elim (Option-cases (get_or d.reserved_indices i none)) [
  | inl e ↦ (λ h. ground arith, λ s. ground (arith, s.owned))
  | inr (key, e) ↦ (
    λ h. ground (arith, identity_iff key id),
    λ s. ground (arith, s.owned, s.fresh, s.in_bounds, identity_iff key id),
  )
]

check_submissions_iff :
    (id : ClientIdentity) (d : ExecutionState) (indices : List ℕ)
    → (check_submissions id d indices ≡ ok tt → All (Submittable id d) indices)
      × (All (Submittable id d) indices → check_submissions id d indices ≡ ok tt)
unfolding check_submissions
check_submissions_iff id d [] = (λ h. tt, λ a. refl)
check_submissions_iff id d (i ∷ indices) = elim (Result-cases (check_submission id d i)) [
  | inl (u, e) ↦ (
    λ h. ((check_submission_iff id d i).0 e, (check_submissions_iff id d indices).0 (ground arith)),
    λ a. rw e ((check_submissions_iff id d indices).1 a.1),
  )
  | inr (x, e) ↦ (λ h. ground arith, λ a. cc (e, (check_submission_iff id d i).1 a.0))
]

check_submit_iff :
    (id : ClientIdentity) (inputs : List Bytes) (indices : List ℕ) (d : ExecutionState)
    → (check_submit id inputs indices d ≡ ok tt → IsSubmittable id inputs indices d)
      × (IsSubmittable id inputs indices d → check_submit id inputs indices d ≡ ok tt)
unfolding check_submit
check_submit_iff id inputs indices d = (
  λ h. record {
    current = ground (arith, round_beq_iff d.round input_collection);
    matched = ground arith;
    nonempty = ground arith;
    each = (check_submissions_iff id d indices).0 (ground arith);
  },
  λ s. ground (
    arith,
    round_beq_iff d.round input_collection,
    s.current,
    s.matched,
    s.nonempty,
    (check_submissions_iff id d indices).1 s.each,
  ),
)

pairs_in_bounds :
    (id : ClientIdentity) (d : ExecutionState) (indices : List ℕ) (inputs : List Bytes)
    → All (Submittable id d) indices
    → PairsInBounds d.masked_inputs (zip indices inputs)
pairs_in_bounds id d [] inputs a = tt
pairs_in_bounds id d (i ∷ indices) [] a = tt
pairs_in_bounds id d (i ∷ indices) (v ∷ inputs) (s, a) =
    (s.in_bounds, pairs_in_bounds id d indices inputs a)

-- The parts of the state that decide who may do what next.
pub record SameRoles (d d' : ExecutionState) : Type 0 where
  pub same_registration : d'.registration ≡ d.registration
  pub same_round : d'.round ≡ d.round
  pub same_votes : d'.transition_votes ≡ d.transition_votes
  pub same_owners : d'.reserved_indices ≡ d.reserved_indices
  pub same_count : d'.n_reserved ≡ d.n_reserved
  pub same_acks : d'.retirement_acks ≡ d.retirement_acks
  pub same_shares : d'.output_shares ≡ d.output_shares

-- A batch is all or nothing. It is recorded exactly when the round is the input collection, there
-- are as many inputs as indices and at least one, and every index exists, is reserved by the
-- client and has no input yet. Then each slot holds the last value that the batch gives it, or
-- what it held, and owners, round and votes stay; otherwise the whole state stays.
pub submit_record_atomic :
    (id : ClientIdentity) (inputs : List Bytes) (indices : List ℕ) (d : ExecutionState)
    → let (d', result) = submit_record id inputs indices d in
      (IsSubmittable id inputs indices d
        × (result ≡ ok (submission id (zip indices inputs) d))
        × ((j : ℕ)
            → get_or d'.masked_inputs j none ≡ elim (last_value j (zip indices inputs)) [
              | none ↦ get_or d.masked_inputs j none
              | some v ↦ some v
            ])
        × SameRoles d d')
      ⊎ ((¬ IsSubmittable id inputs indices d) × ((e : RpcError) × (result ≡ err e)) × (d' ≡ d))
unfolding submit_record recorded
submit_record_atomic id inputs indices d = elim (Result-cases (check_submit id inputs indices d)) [
  | inl (u, e) ↦
      let s = (check_submit_iff id inputs indices d).0 e in
      rw (e, submit_record)
        (inl (
          s,
          refl,
          λ j.
              get_or-write_inputs (zip indices inputs) d.masked_inputs j
                (pairs_in_bounds id d indices inputs s.each),
          ground arith,
        ))
  | inr (x, e) ↦
      rw (e, submit_record)
        (inr (λ s. cc (e, (check_submit_iff id inputs indices d).1 s), (x, refl), refl))
]

last_value-contains :
    (j : ℕ) (indices : List ℕ) (inputs : List Bytes) {w : Bytes}
    → last_value j (zip indices inputs) ≡ some w
    → contains indices j ≡ true
unfolding last_value
last_value-contains j [] inputs h = cc
last_value-contains j (i ∷ indices) [] h = cc
last_value-contains j (i ∷ indices) (v ∷ inputs) {w} h =
    elim (Option-cases (last_value j (zip indices inputs))) [
      | inl e ↦ ground arith
      | inr (u, e) ↦ ground (arith, last_value-contains j indices inputs {w = u} e)
    ]

fresh_at :
    (id : ClientIdentity) (d : ExecutionState) (indices : List ℕ) (j : ℕ)
    → All (Submittable id d) indices
    → contains indices j ≡ true
    → (get_or d.masked_inputs j none ≡ none) × (get_or d.reserved_indices j none ≡ some id)
fresh_at id d [] j a m = cc
fresh_at id d (i ∷ indices) j (s, a) m = ground (arith, s.fresh, s.owned, fresh_at id d indices j a)

-- What one client has submitted nobody changes: a slot keeps its input whatever is submitted
-- later, and a slot that gets one is reserved by the client that submits it.
pub submit_record_keeps :
    (id : ClientIdentity) (inputs : List Bytes) (indices : List ℕ) (d : ExecutionState) (j : ℕ)
    → let d' = (submit_record id inputs indices d).0 in
      (get_or d'.masked_inputs j none ≡ get_or d.masked_inputs j none)
      ⊎ ((get_or d.masked_inputs j none ≡ none) × (get_or d.reserved_indices j none ≡ some id))
submit_record_keeps id inputs indices d j = elim (submit_record_atomic id inputs indices d) [
  | inr (n, e, same) ↦ inl (rw same)
  | inl (s, r, written, roles) ↦ elim (Option-cases (last_value j (zip indices inputs))) [
    | inl e ↦ inl (ground (arith, written j))
    | inr (w, e) ↦
        inr (fresh_at id d indices j s.each (last_value-contains j indices inputs {w = w} e))
  ]
]
