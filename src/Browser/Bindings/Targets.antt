-- ===== src/Browser/Bindings/Targets.antt =====
-- The output targets of the bindings of crates/off-chain/src/browser_rpc.rs: what leaves the target
-- of one client and execution alone.
use stoffel_mpc_coordinator.Prelude.HashMap
use stoffel_mpc_coordinator.Prelude.{
  ◌≡◌, refl, ◌∙◌, Bool, false, List, [], ◌∷◌, some, ◌==◌, nat_eq, list_eq, pair_eq, Option-cases,
  Bool-cases, inl, inr,
}
use stoffel_mpc_coordinator.Shared.ExecutionId.{ClientIdentity, ExecutionId}
use stoffel_mpc_coordinator.Browser.{Token, WebauthnBinding}
use stoffel_mpc_coordinator.Browser.Bindings.{
  WebauthnBindings, insert, with_token, with_target, pin_binding_from_token,
  resolve_ecdh_public_key, resolve-with_target,
}
use stoffel_mpc_coordinator.Browser.Bind.{}
use stoffel_mpc_coordinator.Browser.Concurrent.{}

-- Whether a binding for the one execution is for this execution and client.
abbrev pub aims_at : ExecutionId → ClientIdentity → ExecutionId → WebauthnBinding → Bool
aims_at id client id' binding =
    ◌==◌ {A = ExecutionId × ClientIdentity} (id', binding.client_identity) (id, client)

with_target-away :
    (id id' : ExecutionId) (client : ClientIdentity) (binding : WebauthnBinding)
    (b : WebauthnBindings)
    → aims_at id client id' binding ≡ false
    → resolve_ecdh_public_key id client (with_target (some id') binding b)
      ≡ resolve_ecdh_public_key id client b
with_target-away id id' client binding b away =
    resolve-with_target id' id client binding b ∙ rw away refl

pub insert-away :
    (draws : List Token) (id id' : ExecutionId) (client : ClientIdentity)
    (binding : WebauthnBinding) (b : WebauthnBindings)
    → aims_at id client id' binding ≡ false
    → resolve_ecdh_public_key id client (insert draws (some id') binding b).0
      ≡ resolve_ecdh_public_key id client b
unfolding insert with_token resolve_ecdh_public_key
insert-away [] id id' client binding b away = refl
insert-away (token ∷ draws) id id' client binding b away =
    elim (Bool-cases (HashMap.contains_key token b.by_token)) [
      | inl used ↦ rw (used, insert) (insert-away draws id id' client binding b away)
      | inr free ↦ rw (free, insert) (with_target-away id id' client binding b away)
    ]

pub pin-away :
    (id id' : ExecutionId) (token : Token) (client : ClientIdentity) (b : WebauthnBindings)
    → ((binding : WebauthnBinding)
        → HashMap.get token b.by_token ≡ some binding
        → aims_at id client id' binding ≡ false)
    → resolve_ecdh_public_key id client (pin_binding_from_token id' token b)
      ≡ resolve_ecdh_public_key id client b
unfolding pin_binding_from_token
pin-away id id' token client b o = elim (Option-cases (HashMap.get token b.by_token)) [
  | inl e ↦ rw (e, pin_binding_from_token) refl
  | inr (binding, e) ↦
      rw (e, pin_binding_from_token) (with_target-away id id' client binding b (o binding e))
]
