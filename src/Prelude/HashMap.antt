-- ===== src/Prelude/HashMap.antt =====
-- `std::collections::HashMap` as an association list. Its iteration order is the list's.
use Prim.Native.Nat.{◌≤◌, ◌<◌, suc}
use mathlib.Core.Path.{◌≡◌, refl, subst}
use mathlib.Core.Bool.{Bool, true, false}
use mathlib.Core.Logic.{inl, inr}
use mathlib.Core.List.{List, [], ◌∷◌}
use mathlib.Core.Option.{Option, none, some, some-injective}
use native.Mathlib.Omega.{arith}
use stoffel_mpc_coordinator.Prelude.Tests.{if◌then◌else◌, is_some, Bool-cases}
use stoffel_mpc_coordinator.Prelude.Lists.{length, find}
use stoffel_mpc_coordinator.Prelude.Equality.{Eq, ◌==◌, beq_refl}

abbrev pub HashMap {ℓ κ} : Type ℓ → Type κ → Type (ℓ ⊔ κ)
HashMap K V = List (K × V)

value_of {κ μ} :
    {V : Type κ} (P : V → Type μ) (b : Bool) (w : V) (rest : Option V) {v : V}
    → P w
    → (rest ≡ some v → P v)
    → (if b then some w else rest) ≡ some v
    → P v
value_of P true w rest p r h = subst P (some-injective w _ h) p
value_of P false w rest p r h = r h

module _ {ℓ κ} {K : Type ℓ} {V : Type κ} ⦃e : Eq K⦄ where
  unfoldable pub get : K → HashMap K V → Option V
  get k [] = none
  get k ((j, v) ∷ m) = let rest = get k m in if j == k then some v else rest

  unfoldable pub contains_key : K → HashMap K V → Bool
  unfolding get
  contains_key k m = is_some (get k m)

  unfoldable pub insert : K → V → HashMap K V → HashMap K V
  insert k v [] = (k, v) ∷ []
  insert k v ((j, w) ∷ m) = let rest = insert k v m in if j == k then (k, v) ∷ m else (j, w) ∷ rest

  unfoldable pub remove : K → HashMap K V → HashMap K V
  remove k [] = []
  remove k ((j, w) ∷ m) = let rest = remove k m in if j == k then rest else (j, w) ∷ rest

  pub get-insert :
      (k j : K) (v : V) (m : HashMap K V)
      → get j (insert k v m) ≡ (if k == j then some v else get j m)
  unfolding get insert
  get-insert k j v [] = refl
  get-insert k j v ((i, w) ∷ m) =
      ground (arith, e.beq_iff k j, e.beq_iff i k, e.beq_iff i j, get-insert k j v m)

  pub get-insert_self : (k : K) (v : V) (m : HashMap K V) → get k (insert k v m) ≡ some v
  get-insert_self k v m = simp (get-insert, beq_refl)

  pub get-remove :
      (k j : K) (m : HashMap K V) → get j (remove k m) ≡ (if k == j then none else get j m)
  unfolding get remove
  get-remove k j [] = ground arith
  get-remove k j ((i, w) ∷ m) =
      ground (arith, e.beq_iff k j, e.beq_iff i k, e.beq_iff i j, get-remove k j m)

  pub length-insert-le : (k : K) (v : V) (m : HashMap K V) → length (insert k v m) ≤ suc (length m)
  unfolding insert
  length-insert-le k v [] = omega arith
  length-insert-le k v ((j, w) ∷ m) = ground (arith, length-insert-le k v m)

  pub length-insert_present :
      (k : K) (v w : V) (m : HashMap K V) → get k m ≡ some w → length (insert k v m) ≡ length m
  unfolding insert get
  length-insert_present k v w [] h = cc
  length-insert_present k v w ((j, u) ∷ m) h = ground (arith, length-insert_present k v w m)

  pub length-remove-le : (k : K) (m : HashMap K V) → length (remove k m) ≤ length m
  unfolding remove
  length-remove-le k [] = omega arith
  length-remove-le k ((j, w) ∷ m) = ground (arith, length-remove-le k m)

  -- Removing a key that is there makes the map smaller.
  pub length-remove_present :
      (k : K) (v : V) (m : HashMap K V) → get k m ≡ some v → length (remove k m) < length m
  unfolding remove get
  length-remove_present k v [] h = cc
  length-remove_present k v ((j, w) ∷ m) h =
      ground (arith, length-remove_present k v m, length-remove-le k m)

  -- A property of every value.
  abbrev pub AllValues {μ} : (V → Type μ) → HashMap K V → Type μ
  AllValues P [] = Unit
  AllValues P ((k, v) ∷ m) = P v × AllValues P m

  pub AllValues-insert {μ} :
      (P : V → Type μ) (k : K) (v : V) (m : HashMap K V)
      → P v
      → AllValues P m
      → AllValues P (insert k v m)
  unfolding insert
  AllValues-insert P k v [] p a = (p, tt)
  AllValues-insert P k v ((j, w) ∷ m) p (q, a) = ground (arith, AllValues-insert P k v m p a)

  pub AllValues-remove {μ} :
      (P : V → Type μ) (k : K) (m : HashMap K V) → AllValues P m → AllValues P (remove k m)
  unfolding remove
  AllValues-remove P k [] a = a
  AllValues-remove P k ((j, w) ∷ m) (q, a) = ground (arith, AllValues-remove P k m a)

  pub AllValues-get {μ} :
      (P : V → Type μ) (k : K) (m : HashMap K V) {v : V} → AllValues P m → get k m ≡ some v → P v
  unfolding get
  AllValues-get P k [] a h = cc
  AllValues-get P k ((j, w) ∷ m) (p, a) h =
      value_of P (j == k) w (get k m) p (AllValues-get P k m a) h

  pub AllValues-find {μ} :
      (P : V → Type μ) (p : K × V → Bool) (m : HashMap K V) (k : K) (v : V)
      → AllValues P m
      → find p m ≡ some (k, v)
      → P v
  AllValues-find P p [] k v a h = cc
  AllValues-find P p ((j, w) ∷ m) k v (q, a) h = elim (Bool-cases (p (j, w))) [
    | inl here ↦ let same : w ≡ v = ground arith in subst P same q
    | inr there ↦ AllValues-find P p m k v a (ground arith)
  ]

  -- An entry that a search of the map finds has its key in the map.
  pub find-present :
      (p : K × V → Bool) (m : HashMap K V) (k : K) {v : V}
      → find p m ≡ some (k, v)
      → (w : V) × (get k m ≡ some w)
  unfolding get
  find-present p [] k h = cc
  find-present p ((j, u) ∷ m) k {v} h = elim (Bool-cases (j == k)) [
    | inl same ↦ (u, rw same)
    | inr other ↦
        let (w, e) = find-present p m k {v = v} (ground (arith, beq_refl j)) in (w, rw other e)
  ]

  -- No key occurs twice, as in every hash map.
  abbrev pub HasDistinctKeys : HashMap K V → Type κ
  HasDistinctKeys [] = Unit
  HasDistinctKeys ((k, v) ∷ m) = (get k m ≡ none) × HasDistinctKeys m

  -- An entry that a search of such a map finds is the entry of its key.
  pub find-get :
      (p : K × V → Bool) (m : HashMap K V) (k : K) (v : V)
      → HasDistinctKeys m
      → find p m ≡ some (k, v)
      → get k m ≡ some v
  unfolding get
  find-get p [] k v d h = cc
  find-get p ((j, u) ∷ m) k v (fresh, d) h = elim (Bool-cases (p (j, u))) [
    | inl here ↦ ground (arith, beq_refl j)
    | inr there ↦ ground (arith, e.beq_iff j k, find-get p m k v d, fresh)
  ]
