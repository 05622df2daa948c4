-- ===== src/Browser/Attestation.antt =====
-- That every session of the browser listener (crates/off-chain/src/browser_rpc.rs) goes back to an
-- assertion by the passkey of its identity.
use stoffel_mpc_coordinator.Prelude.HashMap
use stoffel_mpc_coordinator.Prelude.HashMap.{AllValues, AllValues-insert, AllValues-get}
use stoffel_mpc_coordinator.Prelude.{
  ℕ, ◌≡◌, List, [], ◌∷◌, Option, none, some, nat_eq, list_eq, pair_eq, All, All-append,
  All-remove_at, All-get_elem?, ok, Result-cases, Option-cases, Bool-cases, inl, inr, arith,
  get_elem?,
}
use stoffel_mpc_coordinator.Shared.ExecutionId.{Bytes, ClientIdentity, ExecutionId}
use stoffel_mpc_coordinator.Coordinator.Server.{SharedBase}
use stoffel_mpc_coordinator.Browser.{Token, WebauthnBinding, BrowserCall}
use stoffel_mpc_coordinator.Browser.Bindings
use stoffel_mpc_coordinator.Browser.Bindings.{
  WebauthnBindings, insert, with_token, with_target, pin_binding_from_token,
}
use stoffel_mpc_coordinator.Browser.Session.{
  authenticate, session_identity, IsVouched, session_identity-IsVouched,
}
use stoffel_mpc_coordinator.Browser.Bind.{
  BrowserConfig, BindWebauthnIdentity, admit_bind, count_bind, finish_bind,
}
use stoffel_mpc_coordinator.Browser.Roster.{IsAttested, admit_bind-IsAdmitted}
use stoffel_mpc_coordinator.Browser.Concurrent.{
  BrowserSystem, BrowserAction, PendingBind, change_coordinator, use_session, admit, count, finish,
  pin, admitted_as, admit_step, count_step, finish_step, browser_step, browser_run, started,
  kept-All, dropped-All,
}

abbrev AttestedTasks : BrowserConfig → List PendingBind → Type 0
AttestedTasks config tasks = All (λ task. IsAttested config task.binding) tasks

-- Every session, every output target and every bind under way is attested.
pub record IsBacked (config : BrowserConfig) (s : BrowserSystem) : Type 0 where
  pub sessions : AllValues (IsAttested config) s.state.bindings.by_token
  pub targets : AllValues (IsAttested config) s.state.bindings.by_execution_and_client_identity
  pub admitted : AttestedTasks config s.admitted
  pub counted : AttestedTasks config s.counted

admit_step-IsBacked :
    (config : BrowserConfig) (call : BindWebauthnIdentity) (s : BrowserSystem)
    → IsBacked config s
    → IsBacked config (admit_step config call s)
unfolding admit_step admitted_as
admit_step-IsBacked config call s v =
    elim (Result-cases (admit_bind config call s.state.coordinator)) [
      | inr (e, refused) ↦ rw (refused, admit_step) v
      | inl (found, ok_found) ↦
          let a = (admit_bind-IsAdmitted config call s.state.coordinator found ok_found).attested in
          rw (ok_found, admit_step)
            record {
              sessions = v.sessions;
              targets = v.targets;
              admitted =
                  All-append (λ task. IsAttested config task.binding) s.admitted _ v.admitted
                    (a, tt);
              counted = v.counted;
            }
    ]

-- Both tables of the bindings.
abbrev AttestedBindings : BrowserConfig → WebauthnBindings → Type 0
AttestedBindings config b =
    AllValues (IsAttested config) b.by_token
    × AllValues (IsAttested config) b.by_execution_and_client_identity

with_target-Attested :
    (config : BrowserConfig) (execution : Option ExecutionId) (binding : WebauthnBinding)
    (b : WebauthnBindings)
    → IsAttested config binding
    → AttestedBindings config b
    → AttestedBindings config (with_target execution binding b)
unfolding with_target
with_target-Attested config none binding b a v = v
with_target-Attested config (some id) binding b a (sessions, targets) = (
  sessions,
  AllValues-insert (IsAttested config) (id, binding.client_identity) binding _ a targets,
)

insert-Attested :
    (config : BrowserConfig) (draws : List Token) (execution : Option ExecutionId)
    (binding : WebauthnBinding) (b : WebauthnBindings)
    → IsAttested config binding
    → AttestedBindings config b
    → AttestedBindings config (insert draws execution binding b).0
unfolding insert with_token
insert-Attested config [] execution binding b a v = v
insert-Attested config (token ∷ draws) execution binding b a v =
    elim (Bool-cases (HashMap.contains_key token b.by_token)) [
      | inl used ↦ rw (used, insert) (insert-Attested config draws execution binding b a v)
      | inr free ↦
          let (sessions, targets) = with_target-Attested config execution binding b a v in
          rw (free, insert)
            (AllValues-insert (IsAttested config) token binding _ a sessions, targets)
    ]

pin-Attested :
    (config : BrowserConfig) (id : ExecutionId) (token : Token) (b : WebauthnBindings)
    → AttestedBindings config b
    → AttestedBindings config (pin_binding_from_token id token b)
unfolding pin_binding_from_token
pin-Attested config id token b v = elim (Option-cases (HashMap.get token b.by_token)) [
  | inl e ↦ rw (e, pin_binding_from_token) v
  | inr (binding, e) ↦
      rw (e, pin_binding_from_token)
        (with_target-Attested config (some id) binding b
          (AllValues-get (IsAttested config) token b.by_token v.0 e) v)
]

count_step-IsBacked :
    (config : BrowserConfig) (n : ℕ) (s : BrowserSystem)
    → IsBacked config s
    → IsBacked config (count_step n s)
unfolding count_step count_bind
count_step-IsBacked config n s v = elim (Option-cases (get_elem? s.admitted n)) [
  | inl e ↦ rw (e, count_step) v
  | inr (task, e) ↦
      let P : PendingBind → Type 0 = λ p. IsAttested config p.binding in
      let a = All-get_elem? P s.admitted n v.admitted e in
      rw (e, count_step)
        record {
          sessions = v.sessions;
          targets = v.targets;
          admitted = All-remove_at P s.admitted n v.admitted;
          counted = kept-All P task s.counted _ a v.counted;
        }
]

finish_step-IsBacked :
    (config : BrowserConfig) (n : ℕ) (draws : List Token) (s : BrowserSystem)
    → IsBacked config s
    → IsBacked config (finish_step n draws s)
unfolding finish_step finish_bind
finish_step-IsBacked config n draws s v = elim (Option-cases (get_elem? s.counted n)) [
  | inl e ↦ rw (e, finish_step) v
  | inr (task, e) ↦
      let P : PendingBind → Type 0 = λ p. IsAttested config p.binding in
      let a = All-get_elem? P s.counted n v.counted e in
      let b =
        insert-Attested config draws (some task.execution_id) task.binding s.state.bindings a
          (v.sessions, v.targets) in
      rw (e, finish_step)
        record {
          sessions = b.0;
          targets = b.1;
          admitted = v.admitted;
          counted = dropped-All P s.counted n _ v.counted;
        }
]

browser_step-IsBacked :
    (config : BrowserConfig) (action : BrowserAction) (s : BrowserSystem)
    → IsBacked config s
    → IsBacked config (browser_step config action s)
unfolding browser_step
browser_step-IsBacked config (change_coordinator f) s v = record {
  sessions = v.sessions;
  targets = v.targets;
  admitted = v.admitted;
  counted = v.counted;
}
browser_step-IsBacked config (use_session method call now) s v = record {
  sessions = v.sessions;
  targets = v.targets;
  admitted = v.admitted;
  counted = v.counted;
}
browser_step-IsBacked config (admit call) s v = admit_step-IsBacked config call s v
browser_step-IsBacked config (count n) s v = count_step-IsBacked config n s v
browser_step-IsBacked config (finish n draws) s v = finish_step-IsBacked config n draws s v
browser_step-IsBacked config (pin id token) s v =
    let (sessions, targets) =
      pin-Attested config id token s.state.bindings (v.sessions, v.targets) in
    record { sessions = sessions; targets = targets; admitted = v.admitted; counted = v.counted }

browser_run-IsBacked :
    (config : BrowserConfig) (actions : List BrowserAction) (s : BrowserSystem)
    → IsBacked config s
    → IsBacked config (browser_run config actions s)
browser_run-IsBacked config [] s v = v
browser_run-IsBacked config (a ∷ actions) s v =
    browser_run-IsBacked config actions (browser_step config a s)
      (browser_step-IsBacked config a s v)

started-IsBacked :
    (config : BrowserConfig) (coordinator : SharedBase) → IsBacked config (started coordinator)
started-IsBacked config coordinator = record {
  sessions = tt;
  targets = tt;
  admitted = tt;
  counted = tt;
}

-- Whatever actions run from the start of the listener, in any order: a request that is then
-- authenticated as a client belongs to a session of that client, it is signed by the session's
-- key, and an assertion for this site and the session's keys verifies with the client's registered key.
pub authenticate-IsAttested :
    (config : BrowserConfig) (coordinator : SharedBase) (actions : List BrowserAction)
    (method : Bytes) (call : BrowserCall) (now : ℕ) (identity : ClientIdentity)
    → let state = (browser_run config actions (started coordinator)).state in
      (authenticate config.crypto method call now state.bindings state.nonces).1 ≡ ok identity
      → (v : IsVouched config.crypto method call state.bindings identity) × IsAttested config
          v.binding
unfolding authenticate Bindings.get
authenticate-IsAttested config coordinator actions method call now identity h =
    let s = browser_run config actions (started coordinator) in
    let backed =
      browser_run-IsBacked config actions (started coordinator)
        (started-IsBacked config coordinator) in
    elim (Result-cases (session_identity config.crypto method call s.state.bindings)) [
      | inr (_, refused) ↦ absurd (ground arith)
      | inl (who, found) ↦
          let v =
            session_identity-IsVouched config.crypto method call s.state.bindings identity
              (ground arith) in
          (
            v,
            AllValues-get (IsAttested config) call.request.session_token s.state.bindings.by_token
                backed.sessions v.session,
          )
    ]
