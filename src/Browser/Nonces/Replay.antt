-- ===== src/Browser/Nonces/Replay.antt =====
-- That forgetting old requests lets none be replayed (crates/off-chain/src/browser_rpc.rs): under a
-- clock that does not go back, the book decides as one that never forgets.
use stoffel_mpc_coordinator.Prelude.HashMap
use stoffel_mpc_coordinator.Prelude.HashMap.{get-insert}
use stoffel_mpc_coordinator.Prelude.{
  ℕ, ◌-◌, ◌≤◌, ◌≡◌, inl, inr, refl, sym, ◌∙◌, ap, Bool, true, ◌&&◌, List, [], ◌∷◌, ◌++◌, arith, leb,
  ltb, ◌==◌, nat_eq, list_eq, pair_eq, any, filter, Result, ok, err, if◌then◌else◌, Bool-cases,
}
use stoffel_mpc_coordinator.Shared.ExecutionId.{Bytes}
use stoffel_mpc_coordinator.Browser.{
  BrowserError, auth_error, outside_window, nonce_reused, nonce_window,
}
use stoffel_mpc_coordinator.Browser.Nonces.{
  NonceKey, NonceBook, SeenNonces, abs_diff, is_recent, has_nonce, seen_by, accept,
}

-- One request as the book sees it, with the time at which it arrives.
pub record Attempt : Type 0 where
  pub key : NonceKey
  pub created : ℕ
  pub nonce : Bytes
  pub now : ℕ

-- The specification: a list of all requests that have been accepted.
abbrev pub Log : Type 0
Log = List Attempt

-- An accepted request that stands in the way of another: same client and execution, same nonce,
-- and recent.
abbrev pub blocks : Attempt → Attempt → Bool
blocks attempt earlier =
    (earlier.key == attempt.key)
    && (earlier.nonce == attempt.nonce)
    && leb (attempt.now - earlier.created) nonce_window

unfoldable pub accept_logged : Attempt → Log → Log × Result BrowserError (Unit {0})
accept_logged attempt log =
    if ltb nonce_window (abs_diff attempt.now attempt.created)
    then (log, err (auth_error outside_window))
    else if any (blocks attempt) log
    then (log, err (auth_error nonce_reused))
    else (log ++ attempt ∷ [], ok tt)

-- The entries of one key in the log.
abbrev entries_of : NonceKey → Log → SeenNonces
entries_of key [] = []
entries_of key (a ∷ log) =
    let rest = entries_of key log in if a.key == key then (a.created, a.nonce) ∷ rest else rest

-- From time `t` on, the book and the log have the same recent entries for every key.
pub record Agree (t : ℕ) (book : NonceBook) (log : Log) : Type 0 where
  pub recent :
      (key : NonceKey) (now : ℕ)
      → t ≤ now
      → filter (is_recent now) (seen_by key book) ≡ filter (is_recent now) (entries_of key log)

key_iff : (a b : NonceKey) → ((a == b) ≡ true → a ≡ b) × (a ≡ b → (a == b) ≡ true)
key_iff a b = pair_eq.beq_iff a b

-- What is recent later is recent now.
filter-filter_recent :
    (t now : ℕ) (entries : SeenNonces)
    → t ≤ now
    → filter (is_recent now) (filter (is_recent t) entries) ≡ filter (is_recent now) entries
filter-filter_recent t now [] h = refl
filter-filter_recent t now ((c, n) ∷ entries) h =
    ground (arith, filter-filter_recent t now entries h)

filter-append {ℓ} :
    {A : Type ℓ} (p : A → Bool) (xs ys : List A) → filter p (xs ++ ys) ≡ filter p xs ++ filter p ys
filter-append p [] ys = refl
filter-append p (x ∷ xs) ys = ground (arith, filter-append p xs ys)

entries_of-append :
    (key : NonceKey) (log : Log) (a : Attempt)
    → entries_of key (log ++ a ∷ []) ≡ (
        if a.key == key
        then entries_of key log ++ (a.created, a.nonce) ∷ []
        else entries_of key log)
entries_of-append key [] a = ground arith
entries_of-append key (b ∷ log) a = ground (arith, entries_of-append key log a)

-- The log's test is the book's test on the recent entries.
any-blocks :
    (attempt : Attempt) (log : Log)
    → any (blocks attempt) log
      ≡ any (has_nonce attempt.nonce) (filter (is_recent attempt.now) (entries_of attempt.key log))
any-blocks attempt [] = refl
any-blocks attempt (a ∷ log) = ground (arith, any-blocks attempt log)

seen_by-insert :
    (key j : NonceKey) (entries : SeenNonces) (book : NonceBook)
    → seen_by j (HashMap.insert key entries book) ≡ (if key == j then entries else seen_by j book)
unfolding seen_by
seen_by-insert key j entries book = ground (arith, get-insert key j entries book)

-- Pruning the entries of a key changes nothing that is recent.
pruned-Agree :
    (key : NonceKey) (t now : ℕ) (book : NonceBook) (log : Log)
    → t ≤ now
    → Agree t book log
    → Agree now (HashMap.insert key (filter (is_recent now) (seen_by key book)) book) log
pruned-Agree key t now book log h g = record {
  recent = λ j later after. elim (Bool-cases (key == j)) [
    | inr ne ↦
        rw (seen_by-insert key j (filter (is_recent now) (seen_by key book)) book)
          (rw ne (g.recent j later (omega arith)))
    | inl same ↦ rw (seen_by-insert key j (filter (is_recent now) (seen_by key book)) book) (
        rw same (
          filter-filter_recent now later (seen_by key book) after
          ∙ (rw ((key_iff key j).0 same) (g.recent j later (omega arith)))))
  ];
}

recorded-Agree :
    (a : Attempt) (t : ℕ) (book : NonceBook) (log : Log)
    → t ≤ a.now
    → Agree t book log
    → Agree a.now
        (HashMap.insert a.key
          (filter (is_recent a.now) (seen_by a.key book) ++ (a.created, a.nonce) ∷ [])
          book)
        (log ++ a ∷ [])
recorded-Agree a t book log h g = record {
  recent = λ j later after.
      let entries = filter (is_recent a.now) (seen_by a.key book) ++ (a.created, a.nonce) ∷ [] in
      elim (Bool-cases (a.key == j)) [
        | inr ne ↦
            rw (seen_by-insert a.key j entries book, entries_of-append j log a)
              (rw ne (g.recent j later (omega arith)))
        | inl same ↦
            rw (seen_by-insert a.key j entries book, entries_of-append j log a)
              (rw same (
                cc (
                  filter-append (is_recent later) (filter (is_recent a.now) (seen_by a.key book))
                      ((a.created, a.nonce) ∷ []),
                  filter-append (is_recent later) (entries_of j log) ((a.created, a.nonce) ∷ []),
                  filter-filter_recent a.now later (seen_by a.key book) after,
                  (key_iff a.key j).0 same,
                  g.recent j later (omega arith),
                )))
      ];
}

-- The step of the book and that of the log have the same result, and leave the two in agreement.
pub accept_refines :
    (a : Attempt) (t : ℕ) (book : NonceBook) (log : Log)
    → t ≤ a.now
    → Agree t book log
    → let (book', result) = accept a.key a.created a.nonce a.now book in
      let (log', answer) = accept_logged a log in (result ≡ answer) × Agree a.now book' log'
unfolding accept accept_logged
accept_refines a t book log h g = elim (Bool-cases (ltb nonce_window (abs_diff a.now a.created))) [
  | inl out ↦ rw out (refl, record { recent = λ j later after. g.recent j later (omega arith) })
  | inr timely ↦
      let same : any (blocks a) log
          ≡ any (has_nonce a.nonce) (filter (is_recent a.now) (seen_by a.key book)) =
        any-blocks a log ∙ ap (any (has_nonce a.nonce)) (sym (g.recent a.key a.now h)) in
      elim (Bool-cases (any (has_nonce a.nonce) (filter (is_recent a.now) (seen_by a.key book)))) [
        | inl used ↦
            rw timely (rw used (rw (same ∙ used) (refl, pruned-Agree a.key t a.now book log h g)))
        | inr fresh ↦
            rw timely (rw fresh (rw (same ∙ fresh) (refl, recorded-Agree a t book log h g)))
      ]
]
