-- ===== src/Client/Sorting.antt =====
-- `sort_by_key` of the standard library, which `wait_for_inputs` of crates/off-chain/src/lib.rs uses:
-- a stable sort.
use mathlib.Core.List.{append_assoc}
use stoffel_mpc_coordinator.Prelude.{
  ℕ, ◌≤◌, ◌<◌, ◌≡◌, refl, ap, ◌∙◌, List, [], ◌∷◌, ◌++◌, ltb, ◌==◌, nat_eq, list_eq, filter,
  if◌then◌else◌, arith, Bool-cases, inl, inr, All,
}
use stoffel_mpc_coordinator.Shared.Errors.{}

-- An entry goes behind those with the same key.
module _ {A : Type 0} where
  unfoldable pub insert_by_key : ℕ × A → List (ℕ × A) → List (ℕ × A)
  insert_by_key p [] = p ∷ []
  insert_by_key p (q ∷ sorted) =
      let rest = insert_by_key p sorted in if ltb p.0 q.0 then p ∷ q ∷ sorted else q ∷ rest

  unfoldable pub sort_onto : List (ℕ × A) → List (ℕ × A) → List (ℕ × A)
  unfolding insert_by_key
  sort_onto [] sorted = sorted
  sort_onto (p ∷ entries) sorted = sort_onto entries (insert_by_key p sorted)

  unfoldable pub sort_by_key : List (ℕ × A) → List (ℕ × A)
  unfolding sort_onto
  sort_by_key entries = sort_onto entries []

  -- No key is smaller than the one before it.
  abbrev pub IsAscending : List (ℕ × A) → Type 0
  IsAscending [] = Unit
  IsAscending (p ∷ entries) = All (λ q. p.0 ≤ q.0) entries × IsAscending entries

  -- The entries of one key, in their order.
  abbrev pub with_key : ℕ → List (ℕ × A) → List (ℕ × A)
  with_key i entries = filter (λ p. p.0 == i) entries

  pub append_nil : (xs : List (ℕ × A)) → xs ≡ xs ++ []
  append_nil [] = refl
  append_nil (x ∷ xs) = ap (λ l. x ∷ l) (append_nil xs)

  All-insert_by_key :
      (b : ℕ) (p : ℕ × A) (sorted : List (ℕ × A))
      → b ≤ p.0
      → All (λ q. b ≤ q.0) sorted
      → All (λ q. b ≤ q.0) (insert_by_key p sorted)
  unfolding insert_by_key
  All-insert_by_key b p [] h a = (h, tt)
  All-insert_by_key b p (q ∷ sorted) h a = elim (Bool-cases (ltb p.0 q.0)) [
    | inl less ↦ rw (less, insert_by_key) (h, a)
    | inr more ↦ rw (more, insert_by_key) (a.0, All-insert_by_key b p sorted h a.1)
  ]

  All-trans :
      (b c : ℕ) (entries : List (ℕ × A))
      → b ≤ c
      → All (λ q. c ≤ q.0) entries
      → All (λ q. b ≤ q.0) entries
  All-trans b c [] h a = tt
  All-trans b c (q ∷ entries) h a = (omega (arith, h, a.0), All-trans b c entries h a.1)

  insert_by_key-IsAscending :
      (p : ℕ × A) (sorted : List (ℕ × A))
      → IsAscending sorted
      → IsAscending (insert_by_key p sorted)
  unfolding insert_by_key
  insert_by_key-IsAscending p [] a = (tt, tt)
  insert_by_key-IsAscending p (q ∷ sorted) a = elim (Bool-cases (ltb p.0 q.0)) [
    | inl less ↦
        let le : p.0 ≤ q.0 = ground arith in
        rw (less, insert_by_key) ((le, All-trans p.0 q.0 sorted le a.0), a)
    | inr more ↦
        rw (more, insert_by_key)
          (
            All-insert_by_key q.0 p sorted (ground arith) a.0,
            insert_by_key-IsAscending p sorted a.1,
          )
  ]

  with_key-above :
      (i b : ℕ) (entries : List (ℕ × A))
      → i < b
      → All (λ q. b ≤ q.0) entries
      → with_key i entries ≡ []
  with_key-above i b [] h a = refl
  with_key-above i b (q ∷ entries) h a = ground (arith, with_key-above i b entries h a.1, a.0)

  with_key-insert_by_key :
      (i : ℕ) (p : ℕ × A) (sorted : List (ℕ × A))
      → IsAscending sorted
      → with_key i (insert_by_key p sorted) ≡ with_key i sorted ++ with_key i (p ∷ [])
  unfolding insert_by_key
  with_key-insert_by_key i p [] a = refl
  with_key-insert_by_key i p (q ∷ sorted) a = elim (Bool-cases (ltb p.0 q.0)) [
    | inr more ↦ ground (arith, with_key-insert_by_key i p sorted a.1)
    | inl less ↦ elim (Bool-cases (p.0 == i)) [
      | inl here ↦
          let none_left : with_key i (q ∷ sorted) ≡ [] =
            with_key-above i q.0 (q ∷ sorted) (ground arith) (omega arith, a.0) in
          rw (less, insert_by_key) (rw (here, none_left) refl)
      | inr other ↦ rw (less, insert_by_key) (rw other (append_nil (with_key i (q ∷ sorted))))
    ]
  ]

  with_key-cons :
      (i : ℕ) (p : ℕ × A) (entries : List (ℕ × A))
      → with_key i (p ∷ []) ++ with_key i entries ≡ with_key i (p ∷ entries)
  with_key-cons i p entries = ground arith

  sort_onto-IsSorted :
      (entries sorted : List (ℕ × A))
      → IsAscending sorted
      → IsAscending (sort_onto entries sorted)
        × ((i : ℕ)
            → with_key i (sort_onto entries sorted) ≡ with_key i sorted ++ with_key i entries)
  unfolding sort_onto
  sort_onto-IsSorted [] sorted a = (a, λ i. append_nil (with_key i sorted))
  sort_onto-IsSorted (p ∷ entries) sorted a =
      let (up, same) =
        sort_onto-IsSorted entries (insert_by_key p sorted)
          (insert_by_key-IsAscending p sorted a) in
      (
        up,
        λ i.
            same i
            ∙ (ap (λ l. l ++ with_key i entries) (with_key-insert_by_key i p sorted a)
                ∙ (append_assoc (with_key i sorted) (with_key i (p ∷ [])) (with_key i entries)
                    ∙ ap (λ l. with_key i sorted ++ l) (with_key-cons i p entries))),
      )

  -- The sort has the entries in the order of their keys, and those of one key in the order in which
  -- they came.
  pub sort_by_key-IsSorted :
      (entries : List (ℕ × A))
      → IsAscending (sort_by_key entries)
        × ((i : ℕ) → with_key i (sort_by_key entries) ≡ with_key i entries)
  unfolding sort_by_key
  sort_by_key-IsSorted entries = sort_onto-IsSorted entries [] tt
