-- ===== src/Prelude/Bytes.antt =====
-- Concatenated byte strings, and numbers as bytes.
use Prim.Native.Char.{code}
use Prim.Native.String.{String}
use Prim.Native.Nat.{ℕ, zero, suc, ◌/◌, ◌%◌, ◌^◌, ◌<◌}
use mathlib.Core.Path.{◌≡◌, refl, ap}
use mathlib.Core.Bool.{false}
use mathlib.Core.List.{List, [], ◌∷◌, ◌++◌}
use native.Mathlib.Omega.{arith}
use stoffel_mpc_coordinator.Prelude.Lists.{length}
use stoffel_mpc_coordinator.Prelude.Equality.{nat_eq, contains}

-- Parts of the same length that begin equal strings are equal, and so are the rests.
pub append-injective {ℓ} :
    {A : Type ℓ} (xs xs' ys ys' : List A)
    → length xs ≡ length xs'
    → xs ++ ys ≡ xs' ++ ys'
    → (xs ≡ xs') × (ys ≡ ys')
append-injective [] [] ys ys' h e = (refl, e)
append-injective [] (x' ∷ xs') ys ys' h e = absurd (omega (arith, h))
append-injective (x ∷ xs) [] ys ys' h e = absurd (omega (arith, h))
append-injective (x ∷ xs) (x' ∷ xs') ys ys' h e = ground (arith, append-injective xs xs' ys ys')

-- A part without a zero that a zero ends is known from the whole.
pub zero_ended-injective :
    (xs xs' ys ys' : List ℕ)
    → contains xs 0 ≡ false
    → contains xs' 0 ≡ false
    → xs ++ 0 ∷ ys ≡ xs' ++ 0 ∷ ys'
    → (xs ≡ xs') × (ys ≡ ys')
zero_ended-injective [] [] ys ys' h h' e = ground arith
zero_ended-injective [] (x' ∷ xs') ys ys' h h' e = absurd (ground arith)
zero_ended-injective (x ∷ xs) [] ys ys' h h' e = absurd (ground arith)
zero_ended-injective (x ∷ xs) (x' ∷ xs') ys ys' h h' e =
    ground (arith, zero_ended-injective xs xs' ys ys')

-- `to_le_bytes` of a word of `k` bytes.
abbrev pub le_bytes : ℕ → ℕ → List ℕ
le_bytes zero n = []
le_bytes (suc k) n = n % 256 ∷ le_bytes k (n / 256)

-- A number that fits into `k` bytes.
abbrev pub Fits : ℕ → ℕ → Type 0
Fits zero n = n ≡ 0
Fits (suc k) n = Fits k (n / 256)

pub le_bytes-injective : (k m n : ℕ) → Fits k m → Fits k n → le_bytes k m ≡ le_bytes k n → m ≡ n
le_bytes-injective zero m n f g e = omega (arith, f, g)
le_bytes-injective (suc k) m n f g e =
    let heads : m % 256 ≡ n % 256 = ground arith in
    let tails : m / 256 ≡ n / 256 = le_bytes-injective k (m / 256) (n / 256) f g (ground arith) in
    omega (arith, heads, tails)

pub length-le_bytes : (k n : ℕ) → length (le_bytes k n) ≡ k
length-le_bytes zero n = refl
length-le_bytes (suc k) n = ap suc (length-le_bytes k (n / 256))

pub u64-Fits : (n : ℕ) → n < 2 ^ 64 → Fits 8 n
u64-Fits n h = omega arith

-- The code points of a text: its bytes, if it is ASCII.
abbrev pub codes : String → List ℕ
codes String.[] = []
codes (String.◌∷◌ c s) = code c ∷ codes s
