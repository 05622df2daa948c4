-- ===== src/Browser/Concurrent.antt =====
-- The coordinator's browser listener (crates/off-chain/src/browser_rpc.rs) as a whole: the sections
-- of its handlers that change its state, as actions that come in any order. A bind that has run its
-- first section waits in `admitted`, and one that has run its second in `counted`.
use stoffel_mpc_coordinator.Prelude.{
  ℕ, List, [], ◌∷◌, ◌++◌, Option, none, some, get_elem?, remove_at, ok, err, Result, All,
  All-append, All-remove_at,
}
use stoffel_mpc_coordinator.Shared.ExecutionId.{Bytes, ExecutionId}
use stoffel_mpc_coordinator.Coordinator.Server.{SharedBase}
use stoffel_mpc_coordinator.Browser.{BrowserCall, BrowserError, WebauthnBinding, Token}
use stoffel_mpc_coordinator.Browser.Bindings.{pin_binding_from_token, no_bindings}
use stoffel_mpc_coordinator.Browser.Session.{authenticate}
use stoffel_mpc_coordinator.Browser.Bind.{
  BrowserConfig, BindWebauthnIdentity, CoordinatorBrowserState, admit_bind, count_bind, finish_bind,
  binding_of,
}

-- What a task that binds keeps between its sections.
pub record PendingBind : Type 0 where
  pub execution_id : ExecutionId
  pub binding : WebauthnBinding
  pub sign_count : ℕ

pub record BrowserSystem : Type 0 where
  pub state : CoordinatorBrowserState
  pub admitted : List PendingBind
  pub counted : List PendingBind

-- `change_coordinator` is whatever the other methods do to the coordinator.
pub data BrowserAction : Type 0 where
  change_coordinator : (SharedBase → SharedBase) → BrowserAction
  use_session : Bytes → BrowserCall → ℕ → BrowserAction
  admit : BindWebauthnIdentity → BrowserAction
  count : ℕ → BrowserAction
  finish : ℕ → List Token → BrowserAction
  pin : ExecutionId → Token → BrowserAction

unfoldable pub admitted_as : BindWebauthnIdentity → Bytes × ℕ → PendingBind
admitted_as call (identity, sign_count) = record {
  execution_id = call.execution_id;
  binding = binding_of call identity;
  sign_count = sign_count;
}

unfoldable pub admit_step : BrowserConfig → BindWebauthnIdentity → BrowserSystem → BrowserSystem
admit_step config call s = elim (admit_bind config call s.state.coordinator) [
  | err _ ↦ s
  | ok found ↦ record s { admitted = s.admitted ++ admitted_as call found ∷ [] }
]

unfoldable pub count_step : ℕ → BrowserSystem → BrowserSystem
count_step n s = elim (get_elem? s.admitted n) [
  | none ↦ s
  | some task ↦
      let (state, result) = count_bind task.binding.client_identity task.sign_count s.state in
      record s {
        state = state;
        admitted = remove_at s.admitted n;
        counted = elim result [ err _ ↦ s.counted | ok _ ↦ s.counted ++ task ∷ [] ];
      }
]

-- A loop that has used up its draws goes on waiting.
unfoldable pub finish_step : ℕ → List Token → BrowserSystem → BrowserSystem
finish_step n draws s = elim (get_elem? s.counted n) [
  | none ↦ s
  | some task ↦
      let (state, token) = finish_bind task.execution_id task.binding draws s.state in
      record s {
        state = state;
        counted = elim token [ none ↦ s.counted | some _ ↦ remove_at s.counted n ];
      }
]

unfoldable pub browser_step : BrowserConfig → BrowserAction → BrowserSystem → BrowserSystem
browser_step config (change_coordinator f) s = record s {
  state = record s.state { coordinator = f s.state.coordinator };
}
browser_step config (use_session method call now) s = record s {
  state = record s.state {
    nonces = (authenticate config.crypto method call now s.state.bindings s.state.nonces).0;
  };
}
browser_step config (admit call) s = admit_step config call s
browser_step config (count n) s = count_step n s
browser_step config (finish n draws) s = finish_step n draws s
browser_step config (pin id token) s = record s {
  state = record s.state { bindings = pin_binding_from_token id token s.state.bindings };
}

abbrev pub browser_run : BrowserConfig → List BrowserAction → BrowserSystem → BrowserSystem
browser_run config [] s = s
browser_run config (a ∷ actions) s = browser_run config actions (browser_step config a s)

-- A listener that has just started.
abbrev pub started : SharedBase → BrowserSystem
started coordinator = record {
  state = record {
    coordinator = coordinator;
    nonces = [];
    bindings = no_bindings;
    sign_counts = [];
  };
  admitted = [];
  counted = [];
}

-- The lists of binds under way after a section.
module _ (P : PendingBind → Type 0) where
  pub kept-All :
      (task : PendingBind) (tasks : List PendingBind) (result : Result BrowserError (Unit {0}))
      → P task
      → All P tasks
      → All P (elim result [ err _ ↦ tasks | ok _ ↦ tasks ++ task ∷ [] ])
  kept-All task tasks (err _) p v = v
  kept-All task tasks (ok _) p v = All-append P tasks (task ∷ []) v (p, tt)

  pub dropped-All :
      (tasks : List PendingBind) (n : ℕ) (token : Option Token)
      → All P tasks
      → All P (elim token [ none ↦ tasks | some _ ↦ remove_at tasks n ])
  dropped-All tasks n none v = v
  dropped-All tasks n (some _) v = All-remove_at P tasks n v
