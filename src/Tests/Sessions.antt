-- ===== src/Tests/Sessions.antt =====
-- Repeated requests, counters, session tokens and output targets of
-- crates/off-chain/src/browser_rpc.rs on concrete data.
use stoffel_mpc_coordinator.Prelude.HashMap
use stoffel_mpc_coordinator.Prelude.{
  ℕ, ◌≡◌, ◌↔◌, refl, true, List, [], ◌∷◌, none, some, Distinct, map, replicate, codes, contains,
  list_eq, nat_eq, pair_eq, ok, arith,
}
use stoffel_mpc_coordinator.Shared.ExecutionId.{Bytes}
use stoffel_mpc_coordinator.Coordinator.Execution.{input_slot_client}
use stoffel_mpc_coordinator.Coordinator.Outputs.{EncShares}
use stoffel_mpc_coordinator.Browser.{WebauthnBinding, Token}
use stoffel_mpc_coordinator.Browser.Message.{
  authentication_message, IsSized, authentication_message_determines,
}
use stoffel_mpc_coordinator.Browser.Nonces.{accept, seen_by}
use stoffel_mpc_coordinator.Browser.Nonces.Replay.{Attempt}
use stoffel_mpc_coordinator.Browser.Nonces.Runs.{
  IsClocked, accepted, accepted_logged, ticket, accept_refines_log, accepted-Distinct,
}
use stoffel_mpc_coordinator.Browser.SignCounts.{
  IsIncreasing, last_known, accept_count, accepted_counts, accepted_counts-IsIncreasing,
}
use stoffel_mpc_coordinator.Browser.Bindings.{
  WebauthnBindings, insert, insert_ends, IsInserted, get, resolve_ecdh_public_key,
}
use stoffel_mpc_coordinator.Browser.Bind.{indices_from}
use stoffel_mpc_coordinator.Browser.Concurrent.{BrowserSystem, PendingBind, finish_step}
use stoffel_mpc_coordinator.Browser.OutputKey.{finish_step_moves}
use stoffel_mpc_coordinator.Browser.Status.{
  BrowserExecutionStatus, browser_execution_status, browser_output_shares, status_of, input_indices,
  output_ready_iff,
}
use stoffel_mpc_coordinator.Tests.Data.{job, client_x, client_y, collecting}
use stoffel_mpc_coordinator.Tests.Browser.{toy, base, token}

-- The same nonce twice, and a second one late.
abbrev attempt : ℕ → ℕ → ℕ → Attempt
attempt created nonce now = record {
  key = (job, client_x);
  created = created;
  nonce = replicate 16 nonce;
  now = now;
}

abbrev attempts : List Attempt
attempts = attempt 100 1 110 ∷ attempt 100 1 150 ∷ attempt 160 2 160 ∷ attempt 100 1 240 ∷ []

first_only : accepted [] attempts ≡ attempt 100 1 110 ∷ attempt 160 2 160 ∷ []
unfolding accept seen_by HashMap.get HashMap.insert
first_only = refl

clocked : IsClocked 0 attempts
clocked = (omega arith, (omega arith, (omega arith, (omega arith, tt))))

accept_refines_log_example : accepted [] attempts ≡ accepted_logged [] attempts
accept_refines_log_example = accept_refines_log attempts clocked

accepted-Distinct_example : Distinct (map ticket (accepted [] attempts))
accepted-Distinct_example = accepted-Distinct attempts clocked

-- An authenticator that counts to four, its clone at three, and one without a counter.
accepted_counts-IsIncreasing_example : IsIncreasing (last_known client_x []) (
    accepted_counts client_x []
      ((client_x, 4) ∷ (client_x, 3) ∷ (client_y, 0) ∷ (client_x, 5) ∷ []))
accepted_counts-IsIncreasing_example =
    accepted_counts-IsIncreasing client_x []
      ((client_x, 4) ∷ (client_x, 3) ∷ (client_y, 0) ∷ (client_x, 5) ∷ [])

clone_refused :
    accepted_counts client_x [] ((client_x, 4) ∷ (client_x, 3) ∷ (client_x, 5) ∷ []) ≡ 4 ∷ 5 ∷ []
unfolding accept_count last_known HashMap.get HashMap.insert
clone_refused = refl

abbrev sized : IsSized (codes "browser_round") job 100 (replicate 16 3)
sized = record { named = refl; id_size = refl; word = omega arith; nonce_size = refl }

same_message :
    authentication_message toy (codes "browser_round") job 100 (replicate 16 3) (1 ∷ []) token
    ≡ authentication_message toy (codes "browser_round") job 100 (replicate 16 3) (2 ∷ []) token
unfolding authentication_message
same_message = refl

-- Two bodies with the same toy hash.
authentication_message_determines_example :
    (codes "browser_round" ≡ codes "browser_round")
    × (job ≡ job)
    × (◌≡◌ {A = ℕ} 100 100)
    × (◌≡◌ {A = Bytes} (replicate 16 3) (replicate 16 3))
    × (toy.digest (1 ∷ []) ≡ toy.digest (2 ∷ []))
    × (token ≡ token)
authentication_message_determines_example =
    authentication_message_determines toy (codes "browser_round") (codes "browser_round") job job
      100 100 (replicate 16 3) (replicate 16 3) (1 ∷ []) (2 ∷ []) token token sized sized refl refl
      same_message

abbrev first : WebauthnBinding
first = record { client_identity = client_y; ecdsa_public_key = 11 ∷ []; ecdh_public_key = 12 ∷ [] }

abbrev second : WebauthnBinding
second = record {
  client_identity = client_y;
  ecdsa_public_key = 21 ∷ [];
  ecdh_public_key = 22 ∷ [];
}

-- The first session is there and has submitted.
abbrev bindings : WebauthnBindings
bindings = record {
  by_token = (token, first) ∷ [];
  by_execution_and_client_identity = ((job, client_y), first) ∷ [];
}

-- The generator draws the token in use first.
insert_ends_example :
    (t : Token) × (contains (token ∷ (78 ∷ []) ∷ []) t ≡ true)
    × (get t bindings ≡ none)
    × ((insert (token ∷ (78 ∷ []) ∷ []) (some job) second bindings).1 ≡ some t)
    × IsInserted
        (some job)
        second
        t
        bindings
        (insert (token ∷ (78 ∷ []) ∷ []) (some job) second bindings).0
insert_ends_example =
    insert_ends (token ∷ (78 ∷ []) ∷ []) (some job) second bindings (refl, (refl, tt)) (omega arith)

abbrev system : List PendingBind → BrowserSystem
system counted = record {
  state = record {
    coordinator = base collecting;
    nonces = [];
    bindings = bindings;
    sign_counts = [];
  };
  admitted = [];
  counted = counted;
}

abbrev late : PendingBind
late = record { execution_id = job; binding = second; sign_count = 2 }

-- The client has submitted with its first session, and a bind that was admitted before that
-- finishes.
finish_step_moves_example :
    resolve_ecdh_public_key job client_y
      (finish_step 0 (token ∷ (78 ∷ []) ∷ []) (system (late ∷ []))).state.bindings
    ≡ some (22 ∷ [])
finish_step_moves_example =
    finish_step_moves 0 (token ∷ (78 ∷ []) ∷ []) (system (late ∷ [])) late refl (refl, (refl, tt))
      (omega arith)

abbrev status : BrowserExecutionStatus
unfolding status_of
status = status_of collecting client_y

told : browser_execution_status job client_y (base collecting) ≡ ok status
unfolding browser_execution_status status_of input_indices indices_from input_slot_client
    HashMap.get
told = refl

output_ready_iff_example : (status.output_ready ≡ true) ↔ (
    (shares : List EncShares) × (browser_output_shares job client_y (base collecting)
      ≡ ok (some shares)))
output_ready_iff_example = output_ready_iff job client_y (base collecting) status told
