-- ===== src/Browser/Methods.antt =====
-- The signed methods of the browser listener (crates/off-chain/src/browser_rpc.rs) that change the
-- coordinator or ask a node: authentication, then the method of the native transport. The parsers of
-- the bodies are parameters. `now` is the clock's time at the authentication.
use stoffel_mpc_coordinator.Prelude.HashMap
use stoffel_mpc_coordinator.Prelude.HashMap.{HashMap}
use stoffel_mpc_coordinator.Prelude.{
  ℕ, List, Option, none, some, Result, ok, err, codes, nat_eq, list_eq,
}
use stoffel_mpc_coordinator.Shared.ExecutionId.{Bytes, ClientIdentity}
use stoffel_mpc_coordinator.Coordinator.Types.{Network, AssignedMaskShare}
use stoffel_mpc_coordinator.Coordinator.Server.{SharedBase}
use stoffel_mpc_coordinator.Coordinator.Execution.Rounds.{TransitionDelivery}
use stoffel_mpc_coordinator.Coordinator.Rpc.{rpc_reserve_mask_indices, submit_masked_inputs}
use stoffel_mpc_coordinator.Coordinator.Outputs.{EncShares}
use stoffel_mpc_coordinator.Node.{NodeServer, assigned_mask_shares_for_client}
use stoffel_mpc_coordinator.Browser.{
  BrowserCall, BrowserError, Token, WebauthnAssertion, WebauthnBinding, BindingResponse, bad_body,
  auth_error, not_verified, not_registered, node_error, coordinator_error,
}
use stoffel_mpc_coordinator.Browser.Message.{webauthn_bind_challenge}
use stoffel_mpc_coordinator.Browser.Nonces.{NonceBook}
use stoffel_mpc_coordinator.Browser.SignCounts.{SignCounts, accept_count}
use stoffel_mpc_coordinator.Browser.Bindings.{WebauthnBindings, insert, pin_binding_from_token}
use stoffel_mpc_coordinator.Browser.Webauthn.{verify_webauthn_assertion}
use stoffel_mpc_coordinator.Browser.Session.{authenticate}
use stoffel_mpc_coordinator.Browser.Bind.{BrowserConfig, CoordinatorBrowserState}
use stoffel_mpc_coordinator.Browser.Status.{
  BrowserExecutionStatus, browser_execution_status, browser_output_shares,
}

-- The start of every signed method: the book of nonces changes, and the method goes on with the
-- client's identity.
unfoldable pub signed {ℓ} :
    {A : Type ℓ}
    → BrowserConfig
    → Bytes
    → BrowserCall
    → ℕ
    → (ClientIdentity → CoordinatorBrowserState → CoordinatorBrowserState × Result BrowserError A)
    → CoordinatorBrowserState
    → CoordinatorBrowserState × Result BrowserError A
signed config method call now body s =
    let (nonces, who) = authenticate config.crypto method call now s.bindings s.nonces in
    let s' : CoordinatorBrowserState = record s { nonces = nonces } in
    elim who [ err e ↦ (s', err e) | ok identity ↦ body identity s' ]

-- `parse_body`.
unfoldable pub parse_body {ℓ} : {A : Type ℓ} → (Bytes → Option A) → Bytes → Result BrowserError A
parse_body parse body = elim (parse body) [ none ↦ err bad_body | some a ↦ ok a ]

unfoldable pub rpc_browser_execution_status :
    BrowserConfig
    → BrowserCall
    → ℕ
    → CoordinatorBrowserState
    → CoordinatorBrowserState × Result BrowserError BrowserExecutionStatus
unfolding signed
rpc_browser_execution_status config call now =
    signed config (codes "browser_execution_status") call now
      λ identity s. (s, browser_execution_status call.execution_id identity s.coordinator)

unfoldable pub rpc_browser_output_shares :
    BrowserConfig
    → BrowserCall
    → ℕ
    → CoordinatorBrowserState
    → CoordinatorBrowserState × Result BrowserError (Option (List EncShares))
unfolding signed
rpc_browser_output_shares config call now =
    signed config (codes "browser_output_shares") call now
      λ identity s. (s, browser_output_shares call.execution_id identity s.coordinator)

unfoldable pub browser_reserve_mask_indices :
    BrowserConfig
    → (Bytes → Option (List ℕ))
    → Network
    → BrowserCall
    → ℕ
    → CoordinatorBrowserState
    → CoordinatorBrowserState × Result BrowserError (Unit {0})
unfolding signed parse_body
browser_reserve_mask_indices config parse net call now =
    signed config (codes "browser_reserve_mask_indices") call now λ identity s.
      elim (parse_body parse call.request.body) [
        | err e ↦ (s, err e)
        | ok indices ↦
            let (coordinator, result) =
              rpc_reserve_mask_indices net identity call.execution_id indices s.coordinator in
            (
              record s { coordinator = coordinator },
              elim result [ err e ↦ err (coordinator_error e) | ok _ ↦ ok tt ],
            )
      ]

pub record MaskedInputBatch : Type 0 where
  pub reserved_indices : List ℕ
  pub masked_inputs : List Bytes

-- The session that has submitted keeps its key as the output target. `others` is what other tasks
-- do to the coordinator while the submission has given up the lock, and `others'` what they do to
-- the bindings.
unfoldable pub browser_submit_masked_inputs :
    BrowserConfig
    → (Bytes → Option MaskedInputBatch)
    → Network
    → BrowserCall
    → ℕ
    → (SharedBase → SharedBase)
    → (WebauthnBindings → WebauthnBindings)
    → CoordinatorBrowserState
    → CoordinatorBrowserState × Result BrowserError (List TransitionDelivery)
unfolding signed parse_body
browser_submit_masked_inputs config parse net call now others others' =
    signed config (codes "browser_submit_masked_inputs") call now λ identity s.
      elim (parse_body parse call.request.body) [
        | err e ↦ (s, err e)
        | ok batch ↦
            let (coordinator, result) =
              submit_masked_inputs net identity call.execution_id batch.masked_inputs
                batch.reserved_indices others s.coordinator in
            let s' : CoordinatorBrowserState = record s { coordinator = coordinator } in
            elim result [
              | err e ↦ (s', err (coordinator_error e))
              | ok deliveries ↦ (
                record s' {
                  bindings =
                      pin_binding_from_token call.execution_id call.request.session_token
                        (others' s'.bindings);
                },
                ok deliveries,
              )
            ]
      ]

-- `NodeBrowserState`, without the fields that `BrowserConfig` has.
pub record NodeBrowserState : Type 0 where
  pub node : NodeServer
  pub nonces : NonceBook
  pub bindings : WebauthnBindings
  pub sign_counts : SignCounts

pub record MaskRange : Type 0 where
  pub start : ℕ
  pub count : ℕ

unfoldable pub browser_assigned_mask_shares :
    BrowserConfig
    → (Bytes → Option MaskRange)
    → BrowserCall
    → ℕ
    → NodeBrowserState
    → NodeBrowserState × Result BrowserError (Option (List AssignedMaskShare))
unfolding parse_body
browser_assigned_mask_shares config parse call now s =
    let (nonces, who) =
      authenticate config.crypto (codes "browser_assigned_mask_shares") call now s.bindings
        s.nonces in
    (
      record s { nonces = nonces },
      elim who [
        | err e ↦ err e
        | ok identity ↦ elim (parse_body parse call.request.body) [
          | err e ↦ err e
          | ok range ↦ elim (HashMap.get call.execution_id s.node) [
            | none ↦ err not_registered
            | some execution ↦
                elim (assigned_mask_shares_for_client identity range.start range.count execution) [
                  | err e ↦ err (node_error e)
                  | ok shares ↦ ok shares
                ]
          ]
        ]
      ],
    )

pub record BindWebauthnIdentityToNode : Type 0 where
  pub client_identity : ClientIdentity
  pub assertion : WebauthnAssertion
  pub ecdsa_public_key : Bytes
  pub ecdh_public_key : Bytes

-- The node's `browser_bind_webauthn_identity`: the client names its identity itself. `others` is
-- what other tasks do between the two locks. No response stands for a loop that still draws.
unfoldable pub node_bind_webauthn_identity :
    BrowserConfig
    → BindWebauthnIdentityToNode
    → List Token
    → (NodeBrowserState → NodeBrowserState)
    → NodeBrowserState
    → NodeBrowserState × Result BrowserError (Option BindingResponse)
node_bind_webauthn_identity config call draws others s =
    elim (verify_webauthn_assertion config.crypto call.assertion call.client_identity
      config.rp_id_hash config.origin
      (webauthn_bind_challenge config.crypto call.ecdsa_public_key call.ecdh_public_key)) [
        | err _ ↦ (s, err (auth_error not_verified))
        | ok sign_count ↦
            let (counts, counted) = accept_count call.client_identity sign_count s.sign_counts in
            let s' : NodeBrowserState = record s { sign_counts = counts } in
            elim counted [
              | err e ↦ (s', err e)
              | ok _ ↦
                  let binding : WebauthnBinding = record {
                    client_identity = call.client_identity;
                    ecdsa_public_key = call.ecdsa_public_key;
                    ecdh_public_key = call.ecdh_public_key;
                  } in
                  let s'' = others s' in
                  let (bindings, token) = insert draws none binding s''.bindings in
                  (
                    record s'' { bindings = bindings },
                    ok (elim token [
                      | none ↦ none
                      | some t ↦
                          some
                            (record { session_token = t; client_identity = call.client_identity })
                    ]),
                  )
            ]
      ]
