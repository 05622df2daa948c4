-- ===== src/Prelude/HashSet.antt =====
-- `std::collections::HashSet` as a list without repetitions.
use Prim.Native.Nat.{◌≤◌, ◌<◌, suc}
use mathlib.Core.Path.{◌≡◌, refl}
use mathlib.Core.Logic.{inl, inr}
use mathlib.Core.Bool.{true, false, ◌||◌}
use mathlib.Core.List.{List, [], ◌∷◌, ◌++◌}
use native.Mathlib.Omega.{arith}
use stoffel_mpc_coordinator.Prelude.Tests.{if◌then◌else◌, Bool-cases}
use stoffel_mpc_coordinator.Prelude.Lists.{length, All, length-append, All-append}
use stoffel_mpc_coordinator.Prelude.Equality.{Eq, ◌==◌, beq_refl, Eq-cases, contains, Distinct}

abbrev pub HashSet {ℓ} : Type ℓ → Type ℓ
HashSet A = List A

module _ {ℓ} {A : Type ℓ} ⦃e : Eq A⦄ where
  unfoldable pub insert : A → HashSet A → HashSet A
  insert a s = if contains s a then s else s ++ a ∷ []

  pub contains-append :
      (xs ys : List A) (a : A) → contains (xs ++ ys) a ≡ (contains xs a || contains ys a)
  contains-append [] ys a = refl
  contains-append (x ∷ xs) ys a = ground (arith, contains-append xs ys a)

  pub contains-insert :
      (a b : A) (s : HashSet A) → contains (insert a s) b ≡ ((a == b) || contains s b)
  unfolding insert
  contains-insert a b s = elim (Eq-cases a b) [
    | inl p ↦ ground (arith, contains-append s (a ∷ []) b, beq_refl a, beq_refl b)
    | inr p ↦ ground (arith, contains-append s (a ∷ []) b)
  ]

  pub Distinct-snoc :
      (s : List A) (a : A) → Distinct s → contains s a ≡ false → Distinct (s ++ a ∷ [])
  Distinct-snoc [] a d h = (refl, tt)
  Distinct-snoc (x ∷ s) a (n, d) h =
      ground
        (arith, Distinct-snoc s a d, contains-append s (a ∷ []) x, e.beq_iff a x, e.beq_iff x a)

  pub insert-Distinct : (a : A) (s : HashSet A) → Distinct s → Distinct (insert a s)
  unfolding insert
  insert-Distinct a s d = ground (arith, Distinct-snoc s a d)

  pub All-insert {κ} : (P : A → Type κ) (a : A) (s : HashSet A) → P a → All P s → All P (insert a s)
  unfolding insert
  All-insert P a s p h = ground (arith, All-append P s (a ∷ []) h (p, tt))

  pub length-insert-le : (a : A) (s : HashSet A) → length (insert a s) ≤ suc (length s)
  unfolding insert
  length-insert-le a s = ground (arith, length-append s (a ∷ []))

  pub length-le-insert : (a : A) (s : HashSet A) → length s ≤ length (insert a s)
  unfolding insert
  length-le-insert a s = ground (arith, length-append s (a ∷ []))

  erase : A → List A → List A
  erase a [] = []
  erase a (x ∷ xs) = let rest = erase a xs in if x == a then xs else x ∷ rest

  length-erase :
      (a : A) (xs : List A) → contains xs a ≡ true → suc (length (erase a xs)) ≡ length xs
  unfolding erase
  length-erase a [] h = cc
  length-erase a (x ∷ xs) h = ground (arith, length-erase a xs)

  contains-erase :
      (a b : A) (xs : List A)
      → (a == b) ≡ false
      → contains xs b ≡ true
      → contains (erase a xs) b ≡ true
  unfolding erase
  contains-erase a b [] n h = cc
  contains-erase a b (x ∷ xs) n h =
      ground (arith, contains-erase a b xs n, e.beq_iff x a, e.beq_iff x b, e.beq_iff a b)

  -- A set larger than a list holds a member that the list lacks.
  pub pigeonhole :
      (s : HashSet A) (f : List A)
      → Distinct s
      → length f < length s
      → (a : A) × (contains s a ≡ true) × (contains f a ≡ false)
  pigeonhole [] f d h = elim h [ ]
  pigeonhole (x ∷ s) f (n, d) h = elim (Bool-cases (contains f x)) [
    | inr out ↦ (x, ground (arith, beq_refl x), out)
    | inl held ↦ grow (pigeonhole s (erase x f) d (omega (arith, length-erase x f held)))
  ]
    where
      grow :
          (a : A) × (contains s a ≡ true) × (contains (erase x f) a ≡ false)
          → (a : A) × (contains (x ∷ s) a ≡ true) × (contains f a ≡ false)
      grow (a, m, o) = (
        a,
        ground arith,
        elim (Bool-cases (contains f a)) [
          | inr out ↦ out
          | inl held ↦ ground (arith, e.beq_iff x a, contains-erase x a f)
        ],
      )
