-- ===== src/Browser/Nonces.antt =====
-- `NonceBook` of crates/off-chain/src/browser_rpc.rs: which requests have been seen, for as long as
-- they could be replayed.
pub mod Replay
pub mod Runs
use stoffel_mpc_coordinator.Prelude.HashMap
use stoffel_mpc_coordinator.Prelude.HashMap.{HashMap}
use stoffel_mpc_coordinator.Prelude.{
  ℕ, ◌+◌, ◌-◌, Bool, List, [], ◌∷◌, ◌++◌, Option, none, some, leb, ltb, ◌==◌, nat_eq, list_eq,
  pair_eq, any, filter, Result, ok, err, if◌then◌else◌,
}
use stoffel_mpc_coordinator.Shared.ExecutionId.{Bytes, ClientIdentity, ExecutionId}
use stoffel_mpc_coordinator.Browser.{
  BrowserError, auth_error, outside_window, nonce_reused, nonce_window,
}

-- `(created, nonce)` pairs.
abbrev pub SeenNonces : Type 0
SeenNonces = List (ℕ × Bytes)

abbrev pub NonceKey : Type 0
NonceKey = ExecutionId × ClientIdentity

abbrev pub NonceBook : Type 0
NonceBook = HashMap NonceKey SeenNonces

-- `u64::abs_diff`.
abbrev pub abs_diff : ℕ → ℕ → ℕ
abs_diff a b = a - b + (b - a)

-- The test of `retain`, with a saturating subtraction.
abbrev pub is_recent : ℕ → ℕ × Bytes → Bool
is_recent now entry = leb (now - entry.0) nonce_window

abbrev pub has_nonce : Bytes → ℕ × Bytes → Bool
has_nonce nonce entry = entry.1 == nonce

-- `seen.entry(key).or_default()`.
unfoldable pub seen_by : NonceKey → NonceBook → SeenNonces
seen_by key book = elim (HashMap.get key book) [ none ↦ [] | some entries ↦ entries ]

-- The book is pruned also where the nonce is refused.
unfoldable pub accept :
    NonceKey → ℕ → Bytes → ℕ → NonceBook → NonceBook × Result BrowserError (Unit {0})
accept key created nonce now book =
    if ltb nonce_window (abs_diff now created)
    then (book, err (auth_error outside_window))
    else let entries = filter (is_recent now) (seen_by key book) in
      if any (has_nonce nonce) entries
      then (HashMap.insert key entries book, err (auth_error nonce_reused))
      else (HashMap.insert key (entries ++ (created, nonce) ∷ []) book, ok tt)
