-- ===== src/Client/Inputs.antt =====
-- `wait_for_inputs` of crates/off-chain/src/lib.rs: a node's shares of the clients' inputs, each
-- client's in the order of its indices.
pub mod Order
use mathlib.Core.List.{append_assoc}
use stoffel_mpc_coordinator.Prelude.HashMap
use stoffel_mpc_coordinator.Prelude.HashMap.{HashMap, get-insert}
use stoffel_mpc_coordinator.Prelude.{
  ℕ, suc, ◌≡◌, refl, sym, ap, ◌∙◌, true, false, List, [], ◌∷◌, ◌++◌, Option, none, some, ltb, ◌==◌,
  nat_eq, list_eq, length, map, take, get_elem?, u64_add, Result, ok, err, ok_or, ◌>>=◌,
  if◌then◌else◌, arith, Option-cases, Result-cases, Bool-cases, Eq-cases, inl, inr,
}
use stoffel_mpc_coordinator.Shared.ExecutionId.{Bytes, ClientIdentity, identity_iff}
use stoffel_mpc_coordinator.Shared.Errors.{
  CoordinatorError, json_error, rpc_failure, deserialization_error, share_error,
}
use stoffel_mpc_coordinator.Coordinator.Types.{Event, masked_input_event}
use stoffel_mpc_coordinator.Client.Sorting.{
  sort_by_key, sort_by_key-IsSorted, IsAscending, with_key, append_nil,
}

-- The parser of masked inputs, and `compute_masked_input`.
pub record Masking (S V : Type 0) : Type 0 where
  pub parse_value : Bytes → Option V
  pub compute_masked_input : V → S → Option S

-- An error that is returned, or the panic of `mask_shares[i]`.
pub data WaitFailure : Type 0 where
  failed : CoordinatorError → WaitFailure
  panicked : WaitFailure

-- The pattern of the loop.
unfoldable pub masked_inputs_of : Option Event → Option (ClientIdentity × List (ℕ × Bytes))
masked_inputs_of none = none
masked_inputs_of (some event) = elim event [
  | masked_input_event client inputs ↦ some (client, inputs)
  | _ ↦ none
]

-- What has been collected for each client.
abbrev pub Collected : Type 0 → Type 0
Collected S = HashMap ClientIdentity (List (ℕ × S))

module _ {S : Type 0} where
  -- `map.entry(client).or_default()`, read.
  unfoldable pub entries_of : ClientIdentity → Collected S → List (ℕ × S)
  entries_of client found = elim (HashMap.get client found) [ none ↦ [] | some entries ↦ entries ]

  unfoldable pub push_all : ClientIdentity → List (ℕ × S) → Collected S → Collected S
  unfolding entries_of
  push_all client [] found = found
  push_all client (share ∷ shares) found =
      push_all client shares (HashMap.insert client (entries_of client found ++ share ∷ []) found)

  -- The inputs of a client, in the order of their indices.
  unfoldable pub in_order : Collected S → HashMap ClientIdentity (List S)
  in_order [] = []
  in_order ((client, entries) ∷ found) =
      (client, map (λ entry. entry.1) (sort_by_key entries)) ∷ in_order found

module _ {S V : Type 0} (masking : Masking S V) (mask_shares : List S) where
  unfoldable pub input_share : ℕ × Bytes → Result WaitFailure (ℕ × S)
  input_share (i, bytes) = do
    mask_share ← ok_or (get_elem? mask_shares i) panicked
    masked_input ← ok_or (masking.parse_value bytes) (failed deserialization_error)
    input ← ok_or (masking.compute_masked_input masked_input mask_share) (failed share_error)
    ok (i, input)

  unfoldable pub input_shares : List (ℕ × Bytes) → Result WaitFailure (List (ℕ × S))
  unfolding input_share
  input_shares [] = ok []
  input_shares (pair ∷ pairs) =
      let rest = input_shares pairs in
      input_share pair >>= λ share. rest >>= λ shares. ok (share ∷ shares)

  unfoldable pub inputs_loop :
      ℕ → ℕ → Collected S → List (Option Event) → Result WaitFailure (Collected S)
  unfolding input_shares
  inputs_loop n received found [] =
      if ltb received n then err (failed (json_error rpc_failure)) else ok found
  inputs_loop n received found (message ∷ stream) =
      if ltb received n
      then elim (masked_inputs_of message) [
        | none ↦ err (failed (json_error rpc_failure))
        | some (client, pairs) ↦ input_shares pairs >>= λ shares.
            inputs_loop n (u64_add received (length pairs)) (push_all client shares found) stream
      ]
      else ok found

  unfoldable pub wait_for_inputs :
      ℕ → List (Option Event) → Result WaitFailure (HashMap ClientIdentity (List S))
  unfolding inputs_loop
  wait_for_inputs n_inputs stream =
      inputs_loop n_inputs 0 [] stream >>= λ found. ok (in_order found)
