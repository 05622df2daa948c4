-- ===== src/Coordinator/Retired/Parties.antt =====
-- Whose acknowledgements `RetiredExecutions` (crates/off-chain/src/lib.rs) keeps.
use stoffel_mpc_coordinator.Prelude.HashMap
use stoffel_mpc_coordinator.Prelude.HashMap.{
  HashMap, AllValues, AllValues-insert, AllValues-remove, AllValues-get,
}
use stoffel_mpc_coordinator.Prelude.HashSet
use stoffel_mpc_coordinator.Prelude.HashSet.{HashSet}
use stoffel_mpc_coordinator.Prelude.{
  ℕ, suc, inl, inr, List, [], ◌∷◌, ◌++◌, if◌then◌else◌, leb, ltb, length, list_eq, nat_eq,
  Option-cases, Bool-cases,
}
use stoffel_mpc_coordinator.Shared.ExecutionId.{ClientIdentity, ExecutionId}
use stoffel_mpc_coordinator.Coordinator.Retired.{
  RetiredExecutions, max_retired, evict_oldest, seal, acknowledge,
}

-- What is true of a set of acknowledgements that is sealed, and stays true when the caller's is
-- added, is true of every set that is kept.
module _ (P : HashSet ClientIdentity → Type 0) where
  evict_oldest-AllValues :
      (acks : HashMap ExecutionId (HashSet ClientIdentity)) (order : List ExecutionId)
      → AllValues P acks
      → AllValues P (evict_oldest acks order).acks
  unfolding evict_oldest
  evict_oldest-AllValues acks [] h = h
  evict_oldest-AllValues acks (oldest ∷ order) h =
      elim (Bool-cases (ltb max_retired (suc (length order)))) [
        | inl full ↦
            rw (full, evict_oldest)
              (evict_oldest-AllValues (HashMap.remove oldest acks) order
                (AllValues-remove P oldest acks h))
        | inr room ↦ rw (room, evict_oldest) h
      ]

  pub seal-AllValues :
      (id : ExecutionId) (acks : HashSet ClientIdentity) (r : RetiredExecutions)
      → P acks
      → AllValues P r.acks
      → AllValues P (seal id acks r).acks
  unfolding seal
  seal-AllValues id acks r p h =
      evict_oldest-AllValues (HashMap.insert id acks r.acks)
        (if HashMap.contains_key id r.acks then r.order else r.order ++ id ∷ [])
        (AllValues-insert P id acks r.acks p h)

  pub acknowledge-AllValues :
      (id : ExecutionId) (party : ClientIdentity) (n : ℕ) (r : RetiredExecutions)
      → ((acks : HashSet ClientIdentity) → P acks → P (HashSet.insert party acks))
      → AllValues P r.acks
      → AllValues P (acknowledge id party n r).0.acks
  unfolding acknowledge
  acknowledge-AllValues id party n r grows h = elim (Option-cases (HashMap.get id r.acks)) [
    | inl e ↦ rw (e, acknowledge) h
    | inr (v, e) ↦
        let acks = HashSet.insert party v in
        let heard = AllValues-insert P id acks r.acks (grows v (AllValues-get P id r.acks h e)) h in
        elim (Bool-cases (leb n (length acks))) [
          | inr few ↦ rw (e, acknowledge) (rw few heard)
          | inl all ↦
              rw (e, acknowledge)
                (rw all (AllValues-remove P id (HashMap.insert id acks r.acks) heard))
        ]
  ]
