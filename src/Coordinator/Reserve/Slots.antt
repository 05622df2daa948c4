-- ===== src/Coordinator/Reserve/Slots.antt =====
-- The list of owners under the writes of a reservation.
use stoffel_mpc_coordinator.Prelude.{
  ℕ, zero, suc, ◌+◌, ◌≤◌, ◌<◌, ◌≡◌, refl, ap, inl, inr, true, false, List, [], ◌∷◌, Option, none,
  some, arith, nat_eq, nat_beq_iff, is_some, length, length-set, get_or, set, get_or-set_self,
  get_or-set_ne, count_some, count_some-set, contains, Distinct, All, if◌then◌else◌, Eq-cases,
  Bool-cases,
}

module _ {A : Type 0} where
  abbrev pub InBounds : List (Option A) → List ℕ → Type 0
  InBounds xs = All (λ i. i < length xs)

  abbrev pub AllFree : List (Option A) → List ℕ → Type 0
  AllFree xs = All (λ i. get_or xs i none ≡ none)

  -- Every index of the list gets the same owner.
  unfoldable pub fill : A → List ℕ → List (Option A) → List (Option A)
  fill a [] xs = xs
  fill a (i ∷ is) xs = fill a is (set xs i (some a))

  InBounds-set :
      (xs : List (Option A)) (i : ℕ) (v : Option A) (is : List ℕ)
      → InBounds xs is
      → InBounds (set xs i v) is
  InBounds-set xs i v [] b = tt
  InBounds-set xs i v (j ∷ is) (h, b) = (omega (arith, length-set xs i v), InBounds-set xs i v is b)

  AllFree-set :
      (xs : List (Option A)) (i : ℕ) (v : Option A) (is : List ℕ)
      → contains is i ≡ false
      → AllFree xs is
      → AllFree (set xs i v) is
  AllFree-set xs i v [] n f = tt
  AllFree-set xs i v (j ∷ is) n (h, f) =
      ground (arith, get_or-set_ne xs i j v none, AllFree-set xs i v is, nat_beq_iff j i)

  pub length-fill : (a : A) (is : List ℕ) (xs : List (Option A)) → length (fill a is xs) ≡ length xs
  unfolding fill
  length-fill a [] xs = refl
  length-fill a (i ∷ is) xs =
      omega (arith, length-fill a is (set xs i (some a)), length-set xs i (some a))

  pub get_or-fill :
      (a : A) (is : List ℕ) (xs : List (Option A)) (j : ℕ)
      → InBounds xs is
      → get_or (fill a is xs) j none ≡ (if contains is j then some a else get_or xs j none)
  unfolding fill
  get_or-fill a [] xs j b = refl
  get_or-fill a (i ∷ is) xs j (h, b) = ground (
    arith,
    get_or-fill a is (set xs i (some a)) j (InBounds-set xs i (some a) is b),
    get_or-set_self xs i (some a) none h,
    get_or-set_ne xs i j (some a) none,
  )

  -- Free and pairwise different indices are all counted.
  pub count_some-fill :
      (a : A) (is : List ℕ) (xs : List (Option A))
      → InBounds xs is
      → AllFree xs is
      → Distinct is
      → count_some (fill a is xs) ≡ count_some xs + length is
  unfolding fill
  count_some-fill a [] xs b f d = omega arith
  count_some-fill a (i ∷ is) xs (h, b) (e, f) (n, d) = omega (
    arith,
    count_some-set xs i a h e,
    count_some-fill a is (set xs i (some a)) (InBounds-set xs i (some a) is b)
        (AllFree-set xs i (some a) is n f) d,
  )

  count_some-set-le :
      (xs : List (Option A)) (i : ℕ) (a : A) → count_some (set xs i (some a)) ≤ suc (count_some xs)
  count_some-set-le [] i a = omega arith
  count_some-set-le (none ∷ xs) zero a = omega arith
  count_some-set-le (some x ∷ xs) zero a = omega arith
  count_some-set-le (none ∷ xs) (suc i) a = count_some-set-le xs i a
  count_some-set-le (some x ∷ xs) (suc i) a = omega (arith, count_some-set-le xs i a)

  count_some-set_taken :
      (xs : List (Option A)) (i : ℕ) (a : A)
      → is_some (get_or xs i none) ≡ true
      → count_some (set xs i (some a)) ≡ count_some xs
  count_some-set_taken [] i a h = refl
  count_some-set_taken (none ∷ xs) zero a h = cc
  count_some-set_taken (some x ∷ xs) zero a h = refl
  count_some-set_taken (none ∷ xs) (suc i) a h = count_some-set_taken xs i a h
  count_some-set_taken (some x ∷ xs) (suc i) a h = ap suc (count_some-set_taken xs i a h)

  count_some-fill-le :
      (a : A) (is : List ℕ) (xs : List (Option A))
      → count_some (fill a is xs) ≤ count_some xs + length is
  unfolding fill
  count_some-fill-le a [] xs = omega arith
  count_some-fill-le a (i ∷ is) xs =
      omega (arith, count_some-set-le xs i a, count_some-fill-le a is (set xs i (some a)))

  count_some-fill_taken :
      (a : A) (is : List ℕ) (xs : List (Option A)) (i : ℕ)
      → InBounds xs is
      → contains is i ≡ true
      → is_some (get_or xs i none) ≡ true
      → count_some (fill a is xs) < count_some xs + length is
  unfolding fill
  count_some-fill_taken a [] xs i b m t = cc
  count_some-fill_taken a (j ∷ is) xs i (h, b) m t = elim (Eq-cases j i) [
    | inl e ↦
        ground (arith, count_some-set_taken xs j a, count_some-fill-le a is (set xs j (some a)))
    | inr (e, n) ↦ ground (
      arith,
      get_or-set_ne xs j i (some a) none n,
      count_some-set-le xs j a,
      count_some-fill_taken a is (set xs j (some a)) i (InBounds-set xs j (some a) is b),
    )
  ]

  -- With a repeated index the count of taken slots stays behind the number of indices.
  pub count_some-fill_repeated :
      (a : A) (is : List ℕ) (xs : List (Option A))
      → InBounds xs is
      → ¬ Distinct is
      → count_some (fill a is xs) < count_some xs + length is
  unfolding fill
  count_some-fill_repeated a [] xs b r = absurd (r tt)
  count_some-fill_repeated a (i ∷ is) xs (h, b) r = elim (Bool-cases (contains is i)) [
    | inl again ↦ omega (
      arith,
      count_some-set-le xs i a,
      count_some-fill_taken a is (set xs i (some a)) i (InBounds-set xs i (some a) is b) again
          (rw (get_or-set_self xs i (some a) none h)),
    )
    | inr once ↦ omega (
      arith,
      count_some-set-le xs i a,
      count_some-fill_repeated a is (set xs i (some a)) (InBounds-set xs i (some a) is b)
          (λ d. r (once, d)),
    )
  ]
