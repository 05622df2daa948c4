-- ===== src/Browser/Nonces/Runs.antt =====
-- Sequences of requests to the nonce book of crates/off-chain/src/browser_rpc.rs: what it accepts
-- over time, and that nothing is accepted twice.
use stoffel_mpc_coordinator.Prelude.HashMap
use stoffel_mpc_coordinator.Prelude.HashMap.{get-insert}
use stoffel_mpc_coordinator.Prelude.{
  ℕ, ◌≤◌, ◌≡◌, inl, inr, refl, sym, ◌∙◌, true, false, ◌||◌, List, [], ◌∷◌, ◌++◌, arith, ltb, ◌==◌,
  nat_eq, list_eq, pair_eq, any, Result, ok, err, Bool-cases, contains, Distinct, All, map,
}
use stoffel_mpc_coordinator.Shared.ExecutionId.{Bytes}
use stoffel_mpc_coordinator.Browser.{BrowserError, nonce_window}
use stoffel_mpc_coordinator.Browser.Nonces.{NonceKey, NonceBook, abs_diff, seen_by, accept}
use stoffel_mpc_coordinator.Browser.Nonces.Replay.{
  Attempt, Log, blocks, accept_logged, Agree, accept_refines,
}

-- The requests arrive in the order of their times, none of them before `t`.
abbrev pub IsClocked : ℕ → List Attempt → Type 0
IsClocked t [] = Unit
IsClocked t (a ∷ attempts) = (t ≤ a.now) × IsClocked a.now attempts

abbrev kept : Result BrowserError (Unit {0}) → Attempt → List Attempt → List Attempt
kept (ok _) a rest = a ∷ rest
kept (err _) a rest = rest

-- The requests that the book accepts, in order.
abbrev pub accepted : NonceBook → List Attempt → List Attempt
accepted book [] = []
accepted book (a ∷ attempts) =
    let (book', result) = accept a.key a.created a.nonce a.now book in
    kept result a (accepted book' attempts)

-- The same for the specification.
abbrev pub accepted_logged : Log → List Attempt → List Attempt
accepted_logged log [] = []
accepted_logged log (a ∷ attempts) =
    let (log', result) = accept_logged a log in kept result a (accepted_logged log' attempts)

accepted-refines :
    (t : ℕ) (book : NonceBook) (log : Log) (attempts : List Attempt)
    → Agree t book log
    → IsClocked t attempts
    → accepted book attempts ≡ accepted_logged log attempts
accepted-refines t book log [] g c = refl
accepted-refines t book log (a ∷ attempts) g c =
    let (book', result) = accept a.key a.created a.nonce a.now book in
    let (log', answer) = accept_logged a log in
    let (same, g') = accept_refines a t book log c.0 g in
    let rest : accepted book' attempts ≡ accepted_logged log' attempts =
      accepted-refines a.now book' log' attempts g' c.1 in
    cc (same, rest)

empty-Agree : Agree 0 [] []
unfolding seen_by HashMap.get
empty-Agree = record { recent = λ key now h. refl }

-- Requests that arrive in the order of their times are accepted from an empty book exactly as by
-- a list of all requests accepted before that is never pruned: a request whose time is within the
-- window passes unless the list has one with the same execution, client and nonce that is recent.
pub accept_refines_log :
    (attempts : List Attempt)
    → IsClocked 0 attempts
    → accepted [] attempts ≡ accepted_logged [] attempts
accept_refines_log attempts c = accepted-refines 0 [] [] attempts empty-Agree c

-- What identifies a request: execution and client, time and nonce.
abbrev pub Ticket : Type 0
Ticket = NonceKey × (ℕ × Bytes)

abbrev pub ticket : Attempt → Ticket
ticket a = (a.key, (a.created, a.nonce))

ticket_iff : (a b : Ticket) → ((a == b) ≡ true → a ≡ b) × (a ≡ b → (a == b) ≡ true)
ticket_iff a b = pair_eq.beq_iff a b

-- A request that is within the window and that nothing blocks is not in the log.
unblocked :
    (a : Attempt) (log : Log)
    → ltb nonce_window (abs_diff a.now a.created) ≡ false
    → any (blocks a) log ≡ false
    → contains (map ticket log) (ticket a) ≡ false
unblocked a [] timely h = refl
unblocked a (b ∷ log) timely h = ground (arith, unblocked a log timely)

contains-snoc :
    (log : Log) (a : Attempt) (x : Ticket)
    → contains (map ticket (log ++ a ∷ [])) x ≡ (contains (map ticket log) x || (ticket a == x))
contains-snoc [] a x = ground arith
contains-snoc (b ∷ log) a x = ground (arith, contains-snoc log a x)

abbrev IsFresh : Log → List Attempt → Type 0
IsFresh log attempts = All (λ x. contains (map ticket log) (ticket x) ≡ false) attempts

older-IsFresh :
    (log : Log) (a : Attempt) (attempts : List Attempt)
    → IsFresh (log ++ a ∷ []) attempts
    → IsFresh log attempts × (contains (map ticket attempts) (ticket a) ≡ false)
older-IsFresh log a [] f = (tt, refl)
older-IsFresh log a (b ∷ attempts) f =
    let (rest, new) = older-IsFresh log a attempts f.1 in
    let here : (contains (map ticket log) (ticket b) || (ticket a == ticket b)) ≡ false =
      sym (contains-snoc log a (ticket b)) ∙ f.0 in
    ground (arith, ticket_iff (ticket a) (ticket b), ticket_iff (ticket b) (ticket a))

logged-Distinct :
    (log : Log) (attempts : List Attempt)
    → IsFresh log (accepted_logged log attempts)
      × Distinct (map ticket (accepted_logged log attempts))
unfolding accept_logged
logged-Distinct log [] = (tt, tt)
logged-Distinct log (a ∷ attempts) =
    elim (Bool-cases (ltb nonce_window (abs_diff a.now a.created))) [
      | inl out ↦ rw out (logged-Distinct log attempts)
      | inr timely ↦ elim (Bool-cases (any (blocks a) log)) [
        | inl used ↦ rw timely (rw used (logged-Distinct log attempts))
        | inr fresh ↦
            let later = accepted_logged (log ++ a ∷ []) attempts in
            let (f, d) = logged-Distinct (log ++ a ∷ []) attempts in
            let (f', new) = older-IsFresh log a later f in
            rw timely (rw fresh ((unblocked a log timely fresh, f'), (new, d)))
      ]
    ]

-- However requests are repeated, if they arrive in the order of their times, then no two that are
-- accepted have the same execution, client, time stamp and nonce.
pub accepted-Distinct :
    (attempts : List Attempt) → IsClocked 0 attempts → Distinct (map ticket (accepted [] attempts))
accepted-Distinct attempts c = rw (accept_refines_log attempts c) (logged-Distinct [] attempts).1
