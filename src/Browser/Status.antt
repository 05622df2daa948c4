-- ===== src/Browser/Status.antt =====
-- The read-only browser methods on the coordinator's state (crates/off-chain/src/browser_rpc.rs):
-- `browser_execution_status`, `browser_round` and `browser_output_shares`.
use stoffel_mpc_coordinator.Prelude.HashMap
use stoffel_mpc_coordinator.Prelude.HashMap.{HashMap}
use stoffel_mpc_coordinator.Prelude.HashSet.{HashSet}
use stoffel_mpc_coordinator.Prelude.{
  ℕ, ◌≡◌, ◌↔◌, refl, ap, suc, Bool, true, not, ◌&&◌, List, [], ◌∷◌, Option, none, some, arith, ltb,
  leb, ◌==◌, nat_eq, list_eq, option_eq, pair_eq, is_empty, all, length, filter, map, contains,
  get_or, count_some, filter_map, Result, ok, err, ok_or, ◌>>=◌, ◌>>◌, fail_if, if◌then◌else◌,
  Option-cases, inl, inr,
}
use stoffel_mpc_coordinator.Shared.Round.{Round}
use stoffel_mpc_coordinator.Shared.ExecutionId.{ClientIdentity, ExecutionId}
use stoffel_mpc_coordinator.Coordinator.Execution.{ExecutionState, input_slot_client}
use stoffel_mpc_coordinator.Coordinator.Server.{SharedBase}
use stoffel_mpc_coordinator.Coordinator.Outputs.{EncShares, ShareKey, is_for, shares_for}
use stoffel_mpc_coordinator.Browser.{BrowserError, not_registered, not_authorized}
use stoffel_mpc_coordinator.Browser.Bind.{collect, indices_from, has_input}

pub record BrowserExecutionStatus : Type 0 where
  pub round : Round
  pub input_indices : List ℕ
  pub total_inputs : ℕ
  pub reserved_inputs : ℕ
  pub submitted_inputs : ℕ
  pub total_clients : ℕ
  pub submitted_clients : ℕ
  pub own_input_reserved : Bool
  pub own_input_submitted : Bool
  pub output_ready : Bool

unfoldable pub input_indices : ExecutionState → ClientIdentity → List ℕ
input_indices d client = indices_from d client 0 d.input_assignments

unfoldable pub assigned_clients : ExecutionState → HashSet ClientIdentity
assigned_clients d = collect (filter_map (input_slot_client d) d.input_assignments) []

abbrev all_submitted : ExecutionState → ClientIdentity → Bool
all_submitted d client = all (has_input d) (input_indices d client)

abbrev is_reserved_by : ExecutionState → ClientIdentity → ℕ → Bool
is_reserved_by d client index = get_or d.reserved_indices index none == some client

-- The number of keys of `output_shares` for a client.
abbrev share_count : ExecutionState → ClientIdentity → ℕ
share_count d client = length (filter (is_for client) d.output_shares)

unfoldable pub status_of : ExecutionState → ClientIdentity → BrowserExecutionStatus
unfolding input_indices
status_of d client = record {
  round = d.round;
  input_indices = input_indices d client;
  total_inputs = d.registration.n_inputs;
  reserved_inputs = count_some d.reserved_indices;
  submitted_inputs = count_some d.masked_inputs;
  total_clients = length (assigned_clients d);
  submitted_clients = length (filter (all_submitted d) (assigned_clients d));
  own_input_reserved =
      not (is_empty (input_indices d client))
      && all (is_reserved_by d client) (input_indices d client);
  own_input_submitted =
      not (is_empty (input_indices d client)) && all (has_input d) (input_indices d client);
  output_ready =
      contains d.output_clients client
      && leb d.registration.min_output_shares (share_count d client);
}

unfoldable pub browser_execution_status :
    ExecutionId → ClientIdentity → SharedBase → Result BrowserError BrowserExecutionStatus
unfolding status_of
browser_execution_status id client s = do
  execution ← ok_or (HashMap.get id s.executions) not_registered
  fail_if
      (is_empty (input_indices execution client) && not (contains execution.output_clients client))
      not_authorized
  ok (status_of execution client)

unfoldable pub browser_round : ExecutionId → SharedBase → Result BrowserError Round
browser_round id s = elim (HashMap.get id s.executions) [
  | none ↦ err not_registered
  | some execution ↦ ok execution.round
]

unfoldable pub browser_output_shares :
    ExecutionId → ClientIdentity → SharedBase → Result BrowserError (Option (List EncShares))
browser_output_shares id client s = do
  execution ← ok_or (HashMap.get id s.executions) not_registered
  fail_if (not (contains execution.output_clients client)) not_authorized
  let shares = shares_for client execution.output_shares
  if ltb (length shares) execution.registration.min_output_shares then ok none else ok (some shares)

length-map {ℓ κ} :
    {A : Type ℓ} {B : Type κ} (f : A → B) (xs : List A) → length (map f xs) ≡ length xs
length-map f [] = refl
length-map f (x ∷ xs) = ap suc (length-map f xs)

length-shares_for :
    (client : ClientIdentity) (shares : HashMap ShareKey EncShares)
    → length (shares_for client shares) ≡ length (filter (is_for client) shares)
unfolding shares_for
length-shares_for client shares = length-map _ (filter (is_for client) shares)

-- If a client is told the status of an execution, then `output_ready` is true in it just when the
-- method for the output shares would return shares to that client.
pub output_ready_iff :
    (id : ExecutionId) (client : ClientIdentity) (s : SharedBase) (status : BrowserExecutionStatus)
    → browser_execution_status id client s ≡ ok status
    → (status.output_ready ≡ true)
      ↔ ((shares : List EncShares) × (browser_output_shares id client s ≡ ok (some shares)))
unfolding browser_execution_status status_of browser_output_shares
output_ready_iff id client s status h = elim (Option-cases (HashMap.get id s.executions)) [
  | inl missing ↦ absurd (ground arith)
  | inr (d, there) ↦
      let counted = length-shares_for client d.output_shares in
      let ready : status.output_ready ≡ (
          contains d.output_clients client
          && leb d.registration.min_output_shares (share_count d client)) =
        ground arith in
      (λ r. (shares_for client d.output_shares, rw there (ground arith)), λ r. ground arith)
]
