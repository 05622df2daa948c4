-- ===== src/Coordinator/Retired/Bounds.antt =====
-- The bound of `RetiredExecutions` (crates/off-chain/src/lib.rs), and the agreement of its fields.
use stoffel_mpc_coordinator.Prelude.HashMap
use stoffel_mpc_coordinator.Prelude.HashMap.{
  HashMap, get-insert, get-insert_self, get-remove, length-insert-le, length-insert_present,
  length-remove_present,
}
use stoffel_mpc_coordinator.Prelude.HashSet
use stoffel_mpc_coordinator.Prelude.HashSet.{HashSet, contains-append, Distinct-snoc}
use stoffel_mpc_coordinator.Prelude.{
  ℕ, suc, ◌≤◌, ◌≡◌, refl, ap, inl, inr, Bool, true, false, not, List, [], ◌∷◌, ◌++◌, some, arith,
  leb, ltb, ◌==◌, nat_eq, list_eq, beq_refl, is_some, length, length-append, length-filter-le,
  filter, contains, Distinct, if◌then◌else◌, Bool-cases, Option-cases,
}
use stoffel_mpc_coordinator.Shared.ExecutionId.{ClientIdentity, ExecutionId, identity_iff}
use stoffel_mpc_coordinator.Coordinator.Retired.{
  RetiredExecutions, max_retired, evict_oldest, seal, acknowledge,
}

-- The two fields agree: the queue names exactly the executions whose acknowledgements are kept,
-- each once, and no more than the bound.
pub record IsTidy (r : RetiredExecutions) : Type 0 where
  pub bounded : length r.order ≤ max_retired
  pub named : (id : ExecutionId) → is_some (HashMap.get id r.acks) ≡ contains r.order id
  pub once : Distinct r.order
  pub small : length r.acks ≤ length r.order

-- The same without the bound.
record IsMatched (acks : HashMap ExecutionId (HashSet ClientIdentity)) (order : List ExecutionId)
    : Type 0 where
  names : (id : ExecutionId) → is_some (HashMap.get id acks) ≡ contains order id
  unique : Distinct order
  fits : length acks ≤ length order

remove-IsMatched :
    (acks : HashMap ExecutionId (HashSet ClientIdentity)) (oldest : ExecutionId)
    (order : List ExecutionId)
    → IsMatched acks (oldest ∷ order)
    → IsMatched (HashMap.remove oldest acks) order
remove-IsMatched acks oldest order m = record {
  names = λ id. named_after id;
  unique = m.unique.1;
  fits = elim (Option-cases (HashMap.get oldest acks)) [
    | inl e ↦ cc (e, m.names oldest, beq_refl oldest)
    | inr (v, e) ↦ omega (arith, m.fits, length-remove_present oldest v acks e)
  ];
}
  where
    named_after :
        (id : ExecutionId)
        → is_some (HashMap.get id (HashMap.remove oldest acks)) ≡ contains order id
    named_after id =
        ground (arith, get-remove oldest id acks, m.names id, m.unique.0, identity_iff oldest id)

evict_oldest-IsTidy :
    (acks : HashMap ExecutionId (HashSet ClientIdentity)) (order : List ExecutionId)
    → IsMatched acks order
    → IsTidy (evict_oldest acks order)
unfolding evict_oldest
evict_oldest-IsTidy acks [] m = record {
  bounded = omega arith;
  named = m.names;
  once = tt;
  small = m.fits;
}
evict_oldest-IsTidy acks (oldest ∷ order) m =
    elim (Bool-cases (ltb max_retired (suc (length order)))) [
      | inl full ↦
          rw (full, evict_oldest)
            (evict_oldest-IsTidy (HashMap.remove oldest acks) order
              (remove-IsMatched acks oldest order m))
      | inr room ↦
          rw (room, evict_oldest)
            (record { bounded = ground arith; named = m.names; once = m.unique; small = m.fits })
    ]

insert-IsMatched :
    (id : ExecutionId) (acks : HashSet ClientIdentity) (r : RetiredExecutions)
    → IsTidy r
    → IsMatched
        (HashMap.insert id acks r.acks)
        (if HashMap.contains_key id r.acks then r.order else r.order ++ id ∷ [])
unfolding HashMap.contains_key
insert-IsMatched id acks r t = elim (Option-cases (HashMap.get id r.acks)) [
  | inl e ↦
      rw (e, HashMap.contains_key)
        (record {
          names = λ j.
              ground (
                arith,
                get-insert id j acks r.acks,
                contains-append r.order (id ∷ []) j,
                t.named j,
              );
          unique = Distinct-snoc r.order id t.once (ground (arith, t.named id));
          fits =
              omega
                (arith, t.small, length-insert-le id acks r.acks, length-append r.order (id ∷ []));
        })
  | inr (v, e) ↦
      rw (e, HashMap.contains_key)
        (record {
          names = λ j.
              ground (arith, get-insert id j acks r.acks, t.named j, t.named id, identity_iff id j);
          unique = t.once;
          fits = omega (arith, t.small, length-insert_present id acks v r.acks e);
        })
]

-- Sealing keeps the two fields in agreement and at most 4096 executions, whatever is sealed, if
-- they were so before.
pub seal-IsTidy :
    (id : ExecutionId) (acks : HashSet ClientIdentity) (r : RetiredExecutions)
    → IsTidy r
    → IsTidy (seal id acks r)
unfolding seal
seal-IsTidy id acks r t = evict_oldest-IsTidy _ _ (insert-IsMatched id acks r t)

-- `order.retain(|candidate| *candidate != id)`.
abbrev without : ExecutionId → List ExecutionId → List ExecutionId
without id = filter (λ candidate. not (candidate == id))

contains-without :
    (id j : ExecutionId) (xs : List ExecutionId)
    → contains (without id xs) j ≡ (if id == j then false else contains xs j)
contains-without id j [] = ground arith
contains-without id j (x ∷ xs) =
    ground (arith, contains-without id j xs, identity_iff x id, identity_iff x j, identity_iff id j)

without-Distinct :
    (id : ExecutionId) (xs : List ExecutionId) → Distinct xs → Distinct (without id xs)
without-Distinct id [] d = tt
without-Distinct id (x ∷ xs) (n, d) =
    ground (arith, without-Distinct id xs d, contains-without id x xs)

without-absent :
    (id : ExecutionId) (xs : List ExecutionId) → contains xs id ≡ false → without id xs ≡ xs
without-absent id [] h = refl
without-absent id (x ∷ xs) h = ground (arith, without-absent id xs)

length-without :
    (id : ExecutionId) (xs : List ExecutionId)
    → Distinct xs
    → length xs ≤ suc (length (without id xs))
length-without id [] d = omega arith
length-without id (x ∷ xs) (n, d) = ground (
  arith,
  length-without id xs d,
  identity_iff x id,
  λ (h : contains xs id ≡ false). ap length (without-absent id xs h),
)

-- An acknowledgement keeps the two fields in agreement and within the bound, also the last one,
-- after which the execution is forgotten.
pub acknowledge-IsTidy :
    (id : ExecutionId) (party : ClientIdentity) (n : ℕ) (r : RetiredExecutions)
    → IsTidy r
    → IsTidy (acknowledge id party n r).0
unfolding acknowledge
acknowledge-IsTidy id party n r t = elim (Option-cases (HashMap.get id r.acks)) [
  | inl e ↦ rw (e, acknowledge) t
  | inr (v, e) ↦
      rw (e, acknowledge)
        (heard (HashSet.insert party v) v e (leb n (length (HashSet.insert party v))))
]
  where
    heard :
        (acks v : HashSet ClientIdentity)
        → HashMap.get id r.acks ≡ some v
        → (all : Bool)
        → IsTidy (
            if all
            then record {
              acks = HashMap.remove id (HashMap.insert id acks r.acks);
              order = without id r.order;
            }
            else record r { acks = HashMap.insert id acks r.acks })
    heard acks v e true = record {
      bounded = omega (arith, t.bounded, length-filter-le (λ c. not (c == id)) r.order);
      named = λ j. ground (
        arith,
        get-remove id j (HashMap.insert id acks r.acks),
        get-insert id j acks r.acks,
        contains-without id j r.order,
        t.named j,
      );
      once = without-Distinct id r.order t.once;
      small = omega (
        arith,
        t.small,
        length-insert_present id acks v r.acks e,
        length-remove_present id acks (HashMap.insert id acks r.acks)
            (get-insert_self id acks r.acks),
        length-without id r.order t.once,
      );
    }
    heard acks v e false = record {
      bounded = t.bounded;
      named = λ j.
          ground (arith, get-insert id j acks r.acks, t.named j, t.named id, identity_iff id j);
      once = t.once;
      small = omega (arith, t.small, length-insert_present id acks v r.acks e);
    }
