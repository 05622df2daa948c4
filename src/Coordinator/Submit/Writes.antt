-- ===== src/Coordinator/Submit/Writes.antt =====
-- The list of masked inputs under the writes of a submission.
use stoffel_mpc_coordinator.Prelude.{
  ℕ, ◌<◌, ◌≡◌, refl, List, [], ◌∷◌, Option, none, some, arith, length, length-set, get_or, set,
  get_or-set_self, get_or-set_ne, ◌==◌, nat_eq, if◌then◌else◌, All,
}
use stoffel_mpc_coordinator.Shared.ExecutionId.{Bytes}
use stoffel_mpc_coordinator.Coordinator.Submit.{write_inputs}

-- The last value that the batch gives to an index.
unfoldable pub last_value : ℕ → List (ℕ × Bytes) → Option Bytes
last_value j [] = none
last_value j ((i, input) ∷ pairs) = elim (last_value j pairs) [
  | some later ↦ some later
  | none ↦ if i == j then some input else none
]

abbrev pub PairsInBounds : List (Option Bytes) → List (ℕ × Bytes) → Type 0
PairsInBounds slots = All (λ p. p.0 < length slots)

pub length-write_inputs :
    (pairs : List (ℕ × Bytes)) (slots : List (Option Bytes))
    → length (write_inputs pairs slots) ≡ length slots
unfolding write_inputs
length-write_inputs [] slots = refl
length-write_inputs ((i, input) ∷ pairs) slots =
    omega
      (arith, length-write_inputs pairs (set slots i (some input)), length-set slots i (some input))

PairsInBounds-set :
    (slots : List (Option Bytes)) (i : ℕ) (v : Option Bytes) (pairs : List (ℕ × Bytes))
    → PairsInBounds slots pairs
    → PairsInBounds (set slots i v) pairs
PairsInBounds-set slots i v [] b = tt
PairsInBounds-set slots i v (p ∷ pairs) (h, b) =
    (omega (arith, length-set slots i v), PairsInBounds-set slots i v pairs b)

-- A slot holds the last value of the batch for it, or what it held before.
pub get_or-write_inputs :
    (pairs : List (ℕ × Bytes)) (slots : List (Option Bytes)) (j : ℕ)
    → PairsInBounds slots pairs
    → get_or (write_inputs pairs slots) j none
      ≡ elim (last_value j pairs) [ none ↦ get_or slots j none | some v ↦ some v ]
unfolding write_inputs last_value
get_or-write_inputs [] slots j b = refl
get_or-write_inputs ((i, input) ∷ pairs) slots j (h, b) = ground (
  arith,
  get_or-write_inputs pairs (set slots i (some input)) j
      (PairsInBounds-set slots i (some input) pairs b),
  get_or-set_self slots i (some input) none h,
  get_or-set_ne slots i j (some input) none,
)
