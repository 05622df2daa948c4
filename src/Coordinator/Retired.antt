-- ===== src/Coordinator/Retired.antt =====
-- `RetiredExecutions` of crates/off-chain/src/lib.rs: the bounded memory of sealed executions.
pub mod Bounds
pub mod Parties
use stoffel_mpc_coordinator.Prelude.HashMap
use stoffel_mpc_coordinator.Prelude.HashMap.{
  HashMap, get-insert, get-remove, length-insert-le, length-insert_present, length-remove_present,
}
use stoffel_mpc_coordinator.Prelude.HashSet
use stoffel_mpc_coordinator.Prelude.HashSet.{HashSet, contains-append}
use stoffel_mpc_coordinator.Prelude.{
  ℕ, suc, ◌+◌, ◌≤◌, ◌<◌, ◌≡◌, refl, ◌≢◌, ◌⊎◌, inl, inr, Bool, true, false, not, ◌||◌, ◌&&◌, List,
  [], ◌∷◌, ◌++◌, Option, none, some, arith, leb, ltb, ◌==◌, nat_eq, list_eq, beq_refl, is_some,
  length, length-append, filter, contains, Distinct, if◌then◌else◌, Bool-cases, Option-cases,
  Eq-cases,
}
use stoffel_mpc_coordinator.Shared.ExecutionId.{Bytes, ClientIdentity, ExecutionId, identity_iff}

-- `DEFAULT_MAX_RETIRED_EXECUTIONS`.
abbrev pub max_retired : ℕ
max_retired = 4096

pub record RetiredExecutions : Type 0 where
  pub acks : HashMap ExecutionId (HashSet ClientIdentity)
  pub order : List ExecutionId

abbrev pub no_retired : RetiredExecutions
no_retired = record { acks = []; order = [] }

-- The `while` loop of `seal`: it forgets the oldest until the bound holds.
unfoldable pub evict_oldest :
    HashMap ExecutionId (HashSet ClientIdentity) → List ExecutionId → RetiredExecutions
evict_oldest acks [] = record { acks = acks; order = [] }
evict_oldest acks (oldest ∷ order) =
    let rest = evict_oldest (HashMap.remove oldest acks) order in
    if ltb max_retired (suc (length order))
    then rest
    else record { acks = acks; order = oldest ∷ order }

unfoldable pub seal : ExecutionId → HashSet ClientIdentity → RetiredExecutions → RetiredExecutions
unfolding evict_oldest
seal id acks r =
    evict_oldest (HashMap.insert id acks r.acks)
      (if HashMap.contains_key id r.acks then r.order else r.order ++ id ∷ [])

unfoldable pub acknowledge :
    ExecutionId → ClientIdentity → ℕ → RetiredExecutions → RetiredExecutions × Bool
acknowledge id party n r = elim (HashMap.get id r.acks) [
  | none ↦ (r, false)
  | some acks ↦
      let acks' = HashSet.insert party acks in
      (
        if leb n (length acks')
            then record {
              acks = HashMap.remove id (HashMap.insert id acks' r.acks);
              order = filter (λ candidate. not (candidate == id)) r.order;
            }
            else record r { acks = HashMap.insert id acks' r.acks },
        true,
      )
]

unfoldable pub contains_sealed : ExecutionId → RetiredExecutions → Bool
contains_sealed id r = HashMap.contains_key id r.acks
