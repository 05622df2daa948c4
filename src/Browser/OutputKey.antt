-- ===== src/Browser/OutputKey.antt =====
-- To which key the outputs of a client are encrypted (crates/off-chain/src/browser_rpc.rs): who can
-- still change it after the client has submitted its input.
use stoffel_mpc_coordinator.Prelude.HashMap
use stoffel_mpc_coordinator.Prelude.{
  ℕ, ◌<◌, ◌≡◌, refl, ◌∙◌, Bool, true, false, List, [], ◌∷◌, none, some, nat_eq, list_eq, All,
  beq_refl, get_elem?, Distinct, length,
}
use stoffel_mpc_coordinator.Shared.ExecutionId.{ClientIdentity, ExecutionId}
use stoffel_mpc_coordinator.Coordinator.Server.{SharedBase}
use stoffel_mpc_coordinator.Browser.{Token, WebauthnBinding}
use stoffel_mpc_coordinator.Browser.Bindings.{resolve_ecdh_public_key, insert_ends}
use stoffel_mpc_coordinator.Browser.Bindings.Targets.{aims_at}
use stoffel_mpc_coordinator.Browser.Bind.{BrowserConfig, has_submitted, finish_bind}
use stoffel_mpc_coordinator.Browser.Concurrent.{
  BrowserSystem, BrowserAction, PendingBind, pin, finish_step, browser_step,
}

unfoldable pub submitted_in : SharedBase → ExecutionId → ClientIdentity → Bool
submitted_in s id client = elim (HashMap.get id s.executions) [
  | none ↦ false
  | some d ↦ has_submitted d client
]

-- No bind under way is for this execution and client.
pub record IsQuiet (id : ExecutionId) (client : ClientIdentity) (s : BrowserSystem) : Type 0 where
  pub admitted : All (λ p. aims_at id client p.execution_id p.binding ≡ false) s.admitted
  pub counted : All (λ p. aims_at id client p.execution_id p.binding ≡ false) s.counted

-- The action is not a submission of this client to this execution.
abbrev pub IsOther : ExecutionId → ClientIdentity → BrowserAction → BrowserSystem → Type 0
IsOther id client (pin id' token) s =
    (binding : WebauthnBinding)
    → HashMap.get token s.state.bindings.by_token ≡ some binding
    → aims_at id client id' binding ≡ false
IsOther id client _ s = Unit

-- Throughout a run the client's submission is there, and it makes no further one.
abbrev pub StaysSubmitted :
    BrowserConfig → ExecutionId → ClientIdentity → List BrowserAction → BrowserSystem → Type 0
StaysSubmitted config id client [] s = Unit
StaysSubmitted config id client (a ∷ actions) s =
    (submitted_in s.state.coordinator id client ≡ true)
    × IsOther id client a s
    × StaysSubmitted config id client actions (browser_step config a s)

-- A state in which nothing is under way for the client, with the same key as before.
abbrev Keeps : ExecutionId → ClientIdentity → BrowserSystem → BrowserSystem → Type 0
Keeps id client s s' =
    IsQuiet id client s'
    × (resolve_ecdh_public_key id client s'.state.bindings
        ≡ resolve_ecdh_public_key id client s.state.bindings)

-- A bind that has passed its checks and that finishes with draws that are all different and more
-- than there are sessions makes its own key the one to which its client's outputs are encrypted,
-- whatever the coordinator's state is by then.
pub finish_step_moves :
    (n : ℕ) (draws : List Token) (s : BrowserSystem) (task : PendingBind)
    → get_elem? s.counted n ≡ some task
    → Distinct draws
    → length s.state.bindings.by_token < length draws
    → resolve_ecdh_public_key task.execution_id task.binding.client_identity
        (finish_step n draws s).state.bindings
      ≡ some task.binding.ecdh_public_key
unfolding finish_step finish_bind
finish_step_moves n draws s task e d h =
    let (token, _, _, _, inserted) =
      insert_ends draws (some task.execution_id) task.binding s.state.bindings d h in
    rw (e, finish_step)
      (inserted.keys task.execution_id task.binding.client_identity
        ∙ (rw
            (beq_refl {A = ExecutionId × ClientIdentity}
              (task.execution_id, task.binding.client_identity))
            refl))
