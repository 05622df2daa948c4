-- ===== src/Browser/Bind.antt =====
-- `browser_bind_webauthn_identity` of crates/off-chain/src/browser_rpc.rs, the coordinator's: a
-- passkey's assertion makes a session for a registered identity. The handler gives up the lock on
-- the coordinator before it takes those on the counters and on the bindings, so it is three
-- sections; `others` and `others'` are what other tasks do in between.
use stoffel_mpc_coordinator.Prelude.HashMap
use stoffel_mpc_coordinator.Prelude.HashMap.{HashMap}
use stoffel_mpc_coordinator.Prelude.HashSet
use stoffel_mpc_coordinator.Prelude.HashSet.{HashSet}
use stoffel_mpc_coordinator.Prelude.{
  ℕ, ◌+◌, Bool, List, [], ◌∷◌, ◌++◌, Option, none, some, ◌==◌, nat_eq, list_eq, option_eq, pair_eq,
  is_empty, get_or, any, is_some, contains, filter_map, find_map, if◌then◌else◌, Result, ok, err,
  ok_or, ◌>>=◌, ◌>>◌, fail_if,
}
use stoffel_mpc_coordinator.Shared.ExecutionId.{Bytes, ClientIdentity, ExecutionId}
use stoffel_mpc_coordinator.Coordinator.Types.{InputSlotAssignment}
use stoffel_mpc_coordinator.Coordinator.Execution.{ExecutionState, input_slot_client}
use stoffel_mpc_coordinator.Coordinator.Server.{SharedBase}
use stoffel_mpc_coordinator.Browser.{
  Crypto, WebauthnAssertion, WebauthnBinding, BindingResponse, BrowserError, Token, auth_error,
  not_registered, no_matching_identity, already_submitted,
}
use stoffel_mpc_coordinator.Browser.Message.{webauthn_bind_challenge}
use stoffel_mpc_coordinator.Browser.Nonces.{NonceBook}
use stoffel_mpc_coordinator.Browser.SignCounts.{SignCounts, accept_count}
use stoffel_mpc_coordinator.Browser.Bindings.{WebauthnBindings, insert}
use stoffel_mpc_coordinator.Browser.Webauthn.{verify_webauthn_assertion}

pub record BindWebauthnIdentity : Type 0 where
  pub execution_id : ExecutionId
  pub assertion : WebauthnAssertion
  pub ecdsa_public_key : Bytes
  pub ecdh_public_key : Bytes
  pub credential_id : Bytes

-- The fields of `CoordinatorBrowserState` that never change, and the libraries.
pub record BrowserConfig : Type 0 where
  pub crypto : Crypto
  pub rp_id_hash : Bytes
  pub origin : Bytes
  pub credential_id_index : HashMap Bytes ClientIdentity

-- The other fields of `CoordinatorBrowserState`.
pub record CoordinatorBrowserState : Type 0 where
  pub coordinator : SharedBase
  pub nonces : NonceBook
  pub bindings : WebauthnBindings
  pub sign_counts : SignCounts

-- `collect` into a `HashSet`.
abbrev pub collect : List ClientIdentity → HashSet ClientIdentity → HashSet ClientIdentity
collect [] s = s
collect (x ∷ xs) s = collect xs (HashSet.insert x s)

unfoldable pub candidates : ExecutionState → HashSet ClientIdentity
candidates d = collect (filter_map (input_slot_client d) d.input_assignments ++ d.output_clients) []

-- The indices of a client's slots, the first slot having the index `i`.
unfoldable pub indices_from :
    ExecutionState → ClientIdentity → ℕ → List InputSlotAssignment → List ℕ
indices_from d client i [] = []
indices_from d client i (slot ∷ slots) =
    let rest = indices_from d client (i + 1) slots in
    if input_slot_client d slot == some client then i ∷ rest else rest

abbrev pub has_input : ExecutionState → ℕ → Bool
has_input d index = is_some (get_or d.masked_inputs index none)

unfoldable pub has_submitted : ExecutionState → ClientIdentity → Bool
has_submitted d client = any (has_input d) (indices_from d client 0 d.input_assignments)

-- An identity whose key the assertion verifies with, and the assertion's counter.
unfoldable pub match_candidate :
    BrowserConfig → BindWebauthnIdentity → ClientIdentity → Option (ClientIdentity × ℕ)
match_candidate config call candidate =
    elim (verify_webauthn_assertion config.crypto call.assertion candidate config.rp_id_hash
      config.origin
      (webauthn_bind_challenge config.crypto call.ecdsa_public_key call.ecdh_public_key)) [
        | err _ ↦ none
        | ok sign_count ↦ some (candidate, sign_count)
      ]

unfoldable pub indexed_match :
    BrowserConfig → BindWebauthnIdentity → HashSet ClientIdentity → Option (ClientIdentity × ℕ)
indexed_match config call roster =
    if is_empty call.credential_id
    then none
    else elim (HashMap.get call.credential_id config.credential_id_index) [
      | none ↦ none
      | some candidate ↦
          if contains roster candidate then match_candidate config call candidate else none
    ]

unfoldable pub find_identity :
    BrowserConfig → BindWebauthnIdentity → HashSet ClientIdentity → Option (ClientIdentity × ℕ)
unfolding indexed_match
find_identity config call roster = elim (indexed_match config call roster) [
  | some found ↦ some found
  | none ↦ find_map (match_candidate config call) roster
]

-- The section under the lock on the coordinator.
unfoldable pub admit_bind :
    BrowserConfig → BindWebauthnIdentity → SharedBase → Result BrowserError (ClientIdentity × ℕ)
unfolding find_identity
admit_bind config call s = do
  execution ← ok_or (HashMap.get call.execution_id s.executions) not_registered
  (client_identity, sign_count) ←
      ok_or (find_identity config call (candidates execution)) (auth_error no_matching_identity)
  fail_if (has_submitted execution client_identity) (auth_error already_submitted)
  ok (client_identity, sign_count)

unfoldable pub count_bind :
    ClientIdentity
    → ℕ
    → CoordinatorBrowserState
    → CoordinatorBrowserState × Result BrowserError (Unit {0})
count_bind identity sign_count s =
    let (counts, result) = accept_count identity sign_count s.sign_counts in
    (record s { sign_counts = counts }, result)

-- `draws` are the tokens that the generator draws.
unfoldable pub finish_bind :
    ExecutionId
    → WebauthnBinding
    → List Token
    → CoordinatorBrowserState
    → CoordinatorBrowserState × Option Token
finish_bind id binding draws s =
    let (bindings, token) = insert draws (some id) binding s.bindings in
    (record s { bindings = bindings }, token)

abbrev pub binding_of : BindWebauthnIdentity → ClientIdentity → WebauthnBinding
binding_of call identity = record {
  client_identity = identity;
  ecdsa_public_key = call.ecdsa_public_key;
  ecdh_public_key = call.ecdh_public_key;
}

-- No response stands for a loop that still draws.
unfoldable pub browser_bind_webauthn_identity :
    BrowserConfig
    → BindWebauthnIdentity
    → List Token
    → (CoordinatorBrowserState → CoordinatorBrowserState)
    → (CoordinatorBrowserState → CoordinatorBrowserState)
    → CoordinatorBrowserState
    → CoordinatorBrowserState × Result BrowserError (Option BindingResponse)
browser_bind_webauthn_identity config call draws others others' s =
    elim (admit_bind config call s.coordinator) [
      | err e ↦ (s, err e)
      | ok (identity, sign_count) ↦
          let (s', counted) = count_bind identity sign_count (others s) in
          elim counted [
            | err e ↦ (s', err e)
            | ok _ ↦
                let (s'', token) =
                  finish_bind call.execution_id (binding_of call identity) draws (others' s') in
                (
                  s'',
                  ok (elim token [
                    | none ↦ none
                    | some t ↦ some (record { session_token = t; client_identity = identity })
                  ]),
                )
          ]
    ]
