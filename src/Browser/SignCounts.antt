-- ===== src/Browser/SignCounts.antt =====
-- `SignCounts` of crates/off-chain/src/browser_rpc.rs: the last counter of each identity's
-- authenticator, to notice a clone.
use stoffel_mpc_coordinator.Prelude.HashMap
use stoffel_mpc_coordinator.Prelude.HashMap.{HashMap, get-insert}
use stoffel_mpc_coordinator.Prelude.{
  ℕ, ◌≡◌, ◌<◌, ◌⊎◌, subst, ◌∙◌, inl, inr, refl, true, sym, not, ◌&&◌, ◌||◌, List, [], ◌∷◌, none,
  some, arith, leb, ◌==◌, nat_eq, list_eq, Result, ok, err, if◌then◌else◌, Bool-cases, Eq-cases,
}
use stoffel_mpc_coordinator.Shared.ExecutionId.{ClientIdentity, identity_iff}
use stoffel_mpc_coordinator.Browser.{BrowserError, auth_error, sign_count_not_increased}

abbrev pub SignCounts : Type 0
SignCounts = HashMap ClientIdentity ℕ

-- `last_known.get(identity).copied().unwrap_or(0)`.
unfoldable pub last_known : ClientIdentity → SignCounts → ℕ
last_known identity counts = elim (HashMap.get identity counts) [ none ↦ 0 | some count ↦ count ]

unfoldable pub accept_count :
    ClientIdentity → ℕ → SignCounts → SignCounts × Result BrowserError (Unit {0})
unfolding last_known
accept_count identity sign_count counts =
    let stored = last_known identity counts in
    if (not (sign_count == 0) || not (stored == 0)) && leb sign_count stored
    then (counts, err (auth_error sign_count_not_increased))
    else (HashMap.insert identity sign_count counts, ok tt)

abbrev kept : ClientIdentity → ClientIdentity → ℕ → Result BrowserError (Unit {0}) → List ℕ → List ℕ
kept identity who c (err _) rest = rest
kept identity who c (ok _) rest = if who == identity then c ∷ rest else rest

-- The counters that are accepted for one identity, in order, in a sequence of attempts.
abbrev pub accepted_counts : ClientIdentity → SignCounts → List (ClientIdentity × ℕ) → List ℕ
accepted_counts identity counts [] = []
accepted_counts identity counts ((who, sign_count) ∷ attempts) =
    let (counts', result) = accept_count who sign_count counts in
    kept identity who sign_count result (accepted_counts identity counts' attempts)

-- Each number is larger than the one before it, or both are zero.
abbrev pub IsIncreasing : ℕ → List ℕ → Type 0
IsIncreasing last [] = Unit
IsIncreasing last (c ∷ counts) = ((last < c) ⊎ ((last ≡ 0) × (c ≡ 0))) × IsIncreasing c counts

last_known-insert :
    (who identity : ClientIdentity) (c : ℕ) (counts : SignCounts)
    → last_known identity (HashMap.insert who c counts)
      ≡ (if who == identity then c else last_known identity counts)
unfolding last_known
last_known-insert who identity c counts = ground (arith, get-insert who identity c counts)

-- Either a counter is refused, or it becomes the last one and has increased.
accept_count-cases :
    (who : ClientIdentity) (c : ℕ) (counts : SignCounts)
    → (accept_count who c counts ≡ (counts, err (auth_error sign_count_not_increased)))
      ⊎ ((accept_count who c counts ≡ (HashMap.insert who c counts, ok tt))
          × ((last_known who counts < c) ⊎ ((last_known who counts ≡ 0) × (c ≡ 0))))
unfolding accept_count
accept_count-cases who c counts =
    let stored = last_known who counts in
    elim (Bool-cases ((not (c == 0) || not (stored == 0)) && leb c stored)) [
      | inl low ↦ inl (rw low refl)
      | inr high ↦ inr (rw high refl, ground arith)
    ]

-- The counters accepted for an identity rise strictly from the one that is stored, except that an
-- authenticator without a counter may stay at zero.
pub accepted_counts-IsIncreasing :
    (identity : ClientIdentity) (counts : SignCounts) (attempts : List (ClientIdentity × ℕ))
    → IsIncreasing (last_known identity counts) (accepted_counts identity counts attempts)
accepted_counts-IsIncreasing identity counts [] = tt
accepted_counts-IsIncreasing identity counts ((who, c) ∷ attempts) =
    let Goal : SignCounts × Result BrowserError (Unit {0}) → Type 0 = λ r.
      IsIncreasing (last_known identity counts)
        (kept identity who c r.1 (accepted_counts identity r.0 attempts)) in
    elim (accept_count-cases who c counts) [
      | inl refused ↦
          subst Goal (sym refused) (accepted_counts-IsIncreasing identity counts attempts)
      | inr (taken, up) ↦
          let counts' = HashMap.insert who c counts in
          let rest = accepted_counts identity counts' attempts in
          let later = accepted_counts-IsIncreasing identity counts' attempts in
          let stored = last_known-insert who identity c counts in
          subst Goal (sym taken) (elim (Eq-cases who identity) [
            | inl same ↦
                let equal : (who == identity) ≡ true = (identity_iff who identity).1 same in
                rw equal (
                  subst (λ i. (last_known i counts < c) ⊎ ((last_known i counts ≡ 0) × (c ≡ 0)))
                      same up,
                  subst (λ l. IsIncreasing l rest) (stored ∙ rw equal refl) later,
                )
            | inr (other, _) ↦
                rw other (subst (λ l. IsIncreasing l rest) (stored ∙ rw other refl) later)
          ])
    ]
