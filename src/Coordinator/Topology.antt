-- ===== src/Coordinator/Topology.antt =====
-- `validate_topology`, `transition_quorum` and `retirement_quorum` of crates/off-chain/src/lib.rs.
use Prim.Native.Nat.{min, max}
use stoffel_mpc_coordinator.Prelude.HashSet.{HashSet, pigeonhole}
use stoffel_mpc_coordinator.Prelude.{
  ℕ, ◌+◌, ◌*◌, ◌%◌, ◌^◌, ◌≤◌, ◌<◌, ◌≡◌, ◌↔◌, refl, Bool, true, false, not, ◌||◌, List, [], ◌∷◌,
  ◌++◌, arith, ltb, leb, ◌==◌, Eq, nat_eq, list_eq, beq_refl, contains, Distinct, is_empty, length,
  Result, ok, ◌>>◌, fail_if, u64_mod, u64_sub,
}
use stoffel_mpc_coordinator.Shared.ExecutionId.{ClientIdentity}
use stoffel_mpc_coordinator.Shared.Errors.{
  CoordinatorError, json_error, no_mpc_nodes, node_count_mismatch, threshold_not_below_n,
  too_few_nodes, node_identities_not_unique,
}

module _ {ℓ} {A : Type ℓ} ⦃e : Eq A⦄ where
  -- Whether an element also stands at an earlier index; `seen` is the prefix before `xs`.
  unfoldable pub repeats_earlier : List A → List A → Bool
  repeats_earlier seen [] = false
  repeats_earlier seen (x ∷ xs) = contains seen x || repeats_earlier (seen ++ x ∷ []) xs

  contains-snoc : (xs : List A) (x a : A) → contains (xs ++ x ∷ []) a ≡ (contains xs a || (x == a))
  contains-snoc [] x a = ground arith
  contains-snoc (y ∷ xs) x a = ground (arith, contains-snoc xs x a)

  repeats_earlier-seen :
      (seen xs : List A) (a : A)
      → repeats_earlier seen xs ≡ false
      → contains seen a ≡ true
      → contains xs a ≡ false
  unfolding repeats_earlier
  repeats_earlier-seen seen [] a h m = refl
  repeats_earlier-seen seen (x ∷ xs) a h m =
      ground
        (arith, e.beq_iff x a, contains-snoc seen x a, repeats_earlier-seen (seen ++ x ∷ []) xs a)

  pub repeats_earlier-Distinct : (seen xs : List A) → repeats_earlier seen xs ≡ false → Distinct xs
  unfolding repeats_earlier
  repeats_earlier-Distinct seen [] h = tt
  repeats_earlier-Distinct seen (x ∷ xs) h = ground (
    arith,
    beq_refl x,
    contains-snoc seen x x,
    repeats_earlier-seen (seen ++ x ∷ []) xs x,
    repeats_earlier-Distinct (seen ++ x ∷ []) xs,
  )

  abbrev NoneSeen : List A → List A → Type ℓ
  NoneSeen seen xs = (a : A) → contains xs a ≡ true → contains seen a ≡ false

  pub Distinct-repeats_earlier :
      (seen xs : List A) → NoneSeen seen xs → Distinct xs → repeats_earlier seen xs ≡ false
  unfolding repeats_earlier
  Distinct-repeats_earlier seen [] h d = refl
  Distinct-repeats_earlier seen (x ∷ xs) h (n, d) =
      ground (arith, beq_refl x, h x, Distinct-repeats_earlier (seen ++ x ∷ []) xs apart d)
    where
      apart : NoneSeen (seen ++ x ∷ []) xs
      apart a m = ground (arith, contains-snoc seen x a, h a, e.beq_iff x a)

unfoldable pub validate_topology : ℕ → ℕ → List ClientIdentity → Result CoordinatorError (Unit {0})
validate_topology n t initial_mpc_nodes = do
  fail_if (is_empty initial_mpc_nodes) (json_error no_mpc_nodes)
  fail_if (not (length initial_mpc_nodes == n)) (json_error node_count_mismatch)
  fail_if (leb n t) (json_error threshold_not_below_n)
  fail_if (ltb n ((2 * t + 1) % u64_mod)) (json_error too_few_nodes)
  fail_if (repeats_earlier [] initial_mpc_nodes) (json_error node_identities_not_unique)

unfoldable pub transition_quorum : ℕ → ℕ → ℕ
transition_quorum n t =
    let liveness_bound = u64_sub n t in
    let honest_majority = (2 * t + 1) % u64_mod in max (min honest_majority liveness_bound) (t + 1)

unfoldable pub retirement_quorum : ℕ → ℕ → ℕ
retirement_quorum n t = u64_sub n t

-- What the coordinator needs of its nodes. A `Vec` of this type has fewer than 2 ^ 63 elements.
pub record IsValidTopology (n t : ℕ) (nodes : List ClientIdentity) : Type 0 where
  pub counted : length nodes ≡ n
  pub enough : 2 * t + 1 ≤ n
  pub unique : Distinct nodes

-- With fewer than 2 ^ 63 node identities, the check accepts a configuration exactly when there
-- are `n` of them, they are pairwise different, and `n` is at least `2 t + 1`.
pub validate_topology_iff :
    (n t : ℕ) (nodes : List ClientIdentity)
    → length nodes < 2 ^ 63
    → (validate_topology n t nodes ≡ ok tt) ↔ IsValidTopology n t nodes
unfolding validate_topology
validate_topology_iff n t [] h = (λ e. cc, λ v. absurd (omega arith))
validate_topology_iff n t (x ∷ xs) h = (
  λ e. ground (arith, repeats_earlier-Distinct [] (x ∷ xs)),
  λ v. ground (arith, Distinct-repeats_earlier [] (x ∷ xs) (λ a m. refl)),
)

-- In a valid configuration of fewer than 2 ^ 63 nodes the transition quorum is more than `t` and
-- no more than the `n - t` parties that are left when `t` fall silent, and so is the retirement
-- quorum.
pub quorum_bounds :
    (n t : ℕ) (nodes : List ClientIdentity)
    → length nodes < 2 ^ 63
    → IsValidTopology n t nodes
    → (t < transition_quorum n t)
      × (transition_quorum n t + t ≤ n)
      × (t < retirement_quorum n t)
      × (retirement_quorum n t + t ≡ n)
unfolding transition_quorum retirement_quorum
quorum_bounds n t nodes h v = omega arith

-- In a valid configuration of fewer than 2 ^ 63 nodes, one of a transition quorum of different
-- parties is outside any set of at most `t` faulty ones.
pub quorum_honest :
    (n t : ℕ) (nodes : List ClientIdentity) (voters : HashSet ClientIdentity)
    (faulty : List ClientIdentity)
    → length nodes < 2 ^ 63
    → IsValidTopology n t nodes
    → Distinct voters
    → transition_quorum n t ≤ length voters
    → length faulty ≤ t
    → (p : ClientIdentity) × (contains voters p ≡ true) × (contains faulty p ≡ false)
quorum_honest n t nodes voters faulty h v d q f =
    pigeonhole voters faulty d (omega (arith, quorum_bounds n t nodes h v))
