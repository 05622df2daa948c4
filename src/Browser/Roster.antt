-- ===== src/Browser/Roster.antt =====
-- Whom `browser_bind_webauthn_identity` of crates/off-chain/src/browser_rpc.rs admits.
use stoffel_mpc_coordinator.Prelude.HashMap
use stoffel_mpc_coordinator.Prelude.{
  ℕ, ◌≡◌, ◌≢◌, ◌∙◌, ap, subst, Eq-cases, true, false, List, [], ◌∷◌, none, some, nat_eq, list_eq,
  ok, err, Result-cases, Option-cases, Bool-cases, inl, inr, contains, find_map, arith, beq_refl,
}
use stoffel_mpc_coordinator.Shared.ExecutionId.{ClientIdentity}
use stoffel_mpc_coordinator.Coordinator.Execution.{ExecutionState}
use stoffel_mpc_coordinator.Coordinator.Server.{SharedBase}
use stoffel_mpc_coordinator.Browser.{
  WebauthnAssertion, WebauthnBinding, auth_error, no_matching_identity,
}
use stoffel_mpc_coordinator.Browser.Message.{webauthn_bind_challenge}
use stoffel_mpc_coordinator.Browser.Webauthn.{verify_webauthn_assertion}
use stoffel_mpc_coordinator.Browser.Bind.{
  BrowserConfig, BindWebauthnIdentity, admit_bind, find_identity, indexed_match, match_candidate,
  candidates, binding_of, has_submitted,
}

-- Some assertion verifies with the identity's registered key, for this site and for the challenge
-- of the two session keys.
abbrev pub IsAttested : BrowserConfig → WebauthnBinding → Type 0
IsAttested config binding =
    (assertion : WebauthnAssertion) × (sign_count : ℕ) × (verify_webauthn_assertion config.crypto
        assertion binding.client_identity config.rp_id_hash config.origin
        (webauthn_bind_challenge config.crypto binding.ecdsa_public_key binding.ecdh_public_key)
      ≡ ok sign_count)

match_candidate-IsAttested :
    (config : BrowserConfig) (call : BindWebauthnIdentity) (candidate : ClientIdentity)
    (found : ClientIdentity × ℕ)
    → match_candidate config call candidate ≡ some found
    → (found.0 ≡ candidate) × IsAttested config (binding_of call found.0)
unfolding match_candidate
match_candidate-IsAttested config call candidate found h =
    elim (Result-cases (
      verify_webauthn_assertion config.crypto call.assertion candidate config.rp_id_hash
        config.origin
        (webauthn_bind_challenge config.crypto call.ecdsa_public_key call.ecdh_public_key))) [
          | inr (_, e) ↦ absurd (ground arith)
          | inl (sign_count, e) ↦
              let same : found.0 ≡ candidate = ground arith in
              (same, (call.assertion, sign_count, rw same e))
        ]

find_map-match :
    (config : BrowserConfig) (call : BindWebauthnIdentity) (roster : List ClientIdentity)
    (found : ClientIdentity × ℕ)
    → find_map (match_candidate config call) roster ≡ some found
    → (contains roster found.0 ≡ true) × IsAttested config (binding_of call found.0)
find_map-match config call [] found h = cc
find_map-match config call (c ∷ roster) found h =
    elim (Option-cases (match_candidate config call c)) [
      | inl e ↦
          let (m, a) = find_map-match config call roster found (ground arith) in (ground arith, a)
      | inr (first, e) ↦
          let (same, a) = match_candidate-IsAttested config call c found (ground arith) in
          (rw same (ground (arith, beq_refl c)), a)
    ]

find_identity-match :
    (config : BrowserConfig) (call : BindWebauthnIdentity) (roster : List ClientIdentity)
    (found : ClientIdentity × ℕ)
    → find_identity config call roster ≡ some found
    → (contains roster found.0 ≡ true) × IsAttested config (binding_of call found.0)
unfolding find_identity indexed_match
find_identity-match config call roster found h =
    elim (Option-cases (indexed_match config call roster)) [
      | inl e ↦ find_map-match config call roster found (ground arith)
      | inr (first, e) ↦
          elim (Option-cases (HashMap.get call.credential_id config.credential_id_index)) [
            | inl missing ↦ absurd (ground arith)
            | inr (c, there) ↦
                let (same, a) = match_candidate-IsAttested config call c found (ground arith) in
                (rw same (ground arith), a)
          ]
    ]

-- What an admitted bind shows: the execution is registered, the identity is on its roster, its
-- passkey has made an assertion for the two keys of the session, and it has submitted no input.
pub record IsAdmitted (config : BrowserConfig) (call : BindWebauthnIdentity) (s : SharedBase)
    (identity : ClientIdentity) : Type 0 where
  pub execution : ExecutionState
  pub registered : HashMap.get call.execution_id s.executions ≡ some execution
  pub on_roster : contains (candidates execution) identity ≡ true
  pub attested : IsAttested config (binding_of call identity)
  pub unsubmitted : has_submitted execution identity ≡ false

pub admit_bind-IsAdmitted :
    (config : BrowserConfig) (call : BindWebauthnIdentity) (s : SharedBase)
    (found : ClientIdentity × ℕ)
    → admit_bind config call s ≡ ok found
    → IsAdmitted config call s found.0
unfolding admit_bind
admit_bind-IsAdmitted config call s found h =
    elim (Option-cases (HashMap.get call.execution_id s.executions)) [
      | inl missing ↦ absurd (ground arith)
      | inr (d, there) ↦ elim (Option-cases (find_identity config call (candidates d))) [
        | inl nobody ↦ absurd (ground arith)
        | inr (first, e) ↦ elim (Bool-cases (has_submitted d first.0)) [
          | inl late ↦ absurd (ground arith)
          | inr early ↦
              let same : first ≡ found = ground arith in
              let (m, a) =
                find_identity-match config call (candidates d) found (e ∙ ap some same) in
              record {
                execution = d;
                registered = there;
                on_roster = m;
                attested = a;
                unsubmitted = subst (λ f. has_submitted d f.0 ≡ false) same early;
              }
        ]
      ]
    ]

find_map-nobody :
    (config : BrowserConfig) (call : BindWebauthnIdentity) (roster : List ClientIdentity)
    (c : ClientIdentity)
    → find_map (match_candidate config call) roster ≡ none
    → contains roster c ≡ true
    → match_candidate config call c ≡ none
find_map-nobody config call [] c h m = cc
find_map-nobody config call (x ∷ roster) c h m =
    elim (Option-cases (match_candidate config call x)) [
      | inr (first, e) ↦ absurd (ground arith)
      | inl e ↦ elim (Eq-cases x c) [
        | inl same ↦ subst (λ y. match_candidate config call y ≡ none) same e
        | inr (other, _) ↦ find_map-nobody config call roster c (ground arith) (ground arith)
      ]
    ]

-- If an execution is registered, the identity is on its roster, and the assertion verifies with
-- the identity's key for the keys of the session, then the bind is not refused for want of a
-- matching identity, whatever the index of credentials says.
pub admit_bind_finds :
    (config : BrowserConfig) (call : BindWebauthnIdentity) (s : SharedBase) (d : ExecutionState)
    (identity : ClientIdentity) (sign_count : ℕ)
    → HashMap.get call.execution_id s.executions ≡ some d
    → contains (candidates d) identity ≡ true
    → verify_webauthn_assertion config.crypto call.assertion identity config.rp_id_hash
        config.origin
        (webauthn_bind_challenge config.crypto call.ecdsa_public_key call.ecdh_public_key)
      ≡ ok sign_count
    → admit_bind config call s ≢ err (auth_error no_matching_identity)
unfolding admit_bind find_identity match_candidate
admit_bind_finds config call s d identity sign_count there m v h =
    elim (Option-cases (indexed_match config call (candidates d))) [
      | inr (first, e) ↦ ground arith
      | inl unindexed ↦
          elim (Option-cases (find_map (match_candidate config call) (candidates d))) [
            | inr (first, e) ↦ ground arith
            | inl nobody ↦
                let missing = find_map-nobody config call (candidates d) identity nobody m in
                ground arith
          ]
    ]
