-- ===== src/Coordinator/System/Safety.antt =====
-- The invariant of the whole coordinator, under every interleaving of its tasks.
use stoffel_mpc_coordinator.Prelude.HashMap
use stoffel_mpc_coordinator.Prelude.HashMap.{
  AllValues, AllValues-insert, AllValues-remove, AllValues-get, length-insert-le,
  length-insert_present, length-remove_present, find-present,
}
use stoffel_mpc_coordinator.Prelude.{
  ℕ, refl, ok, ◌≤◌, ◌≡◌, inl, inr, some, arith, length, list_eq, nat_eq, Option-cases, List,
}
use stoffel_mpc_coordinator.Shared.ExecutionId.{ClientIdentity, ExecutionId}
use stoffel_mpc_coordinator.Coordinator.Types.{RpcResult}
use stoffel_mpc_coordinator.Coordinator.Execution.{ExecutionState}
use stoffel_mpc_coordinator.Coordinator.Retired.Bounds.{IsTidy}
use stoffel_mpc_coordinator.Coordinator.Server
use stoffel_mpc_coordinator.Coordinator.Server.{SharedBase, max_executions}
use stoffel_mpc_coordinator.Coordinator.Rpc.{on_execution, put, quorum}
use stoffel_mpc_coordinator.Coordinator.System.{modify}
use stoffel_mpc_coordinator.Coordinator.System.Soundness.{IsSound, Parties}

-- Every execution is sound, the memory of sealed executions is tidy, the acknowledgements it keeps
-- are of different configured parties, and there are at most 1024 executions.
pub record IsSafe (s : SharedBase) : Type 0 where
  pub sound : AllValues (IsSound s.mpc_nodes (quorum s)) s.executions
  pub tidy : IsTidy s.retired
  pub sealed : AllValues (Parties s.mpc_nodes) s.retired.acks
  pub capacity : length s.executions ≤ max_executions

pub put-IsSafe :
    (id : ExecutionId) (d d' : ExecutionState) (s : SharedBase)
    → HashMap.get id s.executions ≡ some d
    → IsSound s.mpc_nodes (quorum s) d'
    → IsSafe s
    → IsSafe (put id d' s)
unfolding put quorum
put-IsSafe id d d' s e v h = record {
  sound = AllValues-insert _ id d' s.executions v h.sound;
  tidy = h.tidy;
  sealed = h.sealed;
  capacity = omega (arith, h.capacity, length-insert_present id d' d s.executions e);
}

pub modify-IsSafe :
    (id : ExecutionId) (f : ExecutionState → ExecutionState) (s : SharedBase)
    → ((d : ExecutionState)
        → IsSound s.mpc_nodes (quorum s) d
        → IsSound s.mpc_nodes (quorum s) (f d))
    → IsSafe s
    → IsSafe (modify id f s)
unfolding modify
modify-IsSafe id f s keeps h = elim (Option-cases (HashMap.get id s.executions)) [
  | inl e ↦ rw (e, modify) h
  | inr (d, e) ↦
      rw (e, modify)
        (put-IsSafe id d (f d) s e (keeps d (AllValues-get _ id s.executions h.sound e)) h)
]

pub on_execution-IsSafe {ℓ} :
    {A : Type ℓ} (id : ExecutionId) (f : ExecutionState → ExecutionState × RpcResult A)
    (s : SharedBase)
    → ((d : ExecutionState)
        → IsSound s.mpc_nodes (quorum s) d
        → IsSound s.mpc_nodes (quorum s) (f d).0)
    → IsSafe s
    → IsSafe (on_execution id f s).0
unfolding on_execution
on_execution-IsSafe id f s keeps h = elim (Option-cases (HashMap.get id s.executions)) [
  | inl e ↦ rw (e, on_execution) h
  | inr (d, e) ↦
      rw (e, on_execution)
        (put-IsSafe id d (f d).0 s e (keeps d (AllValues-get _ id s.executions h.sound e)) h)
]

new-initial :
    (n t : ℕ) (nodes : List ClientIdentity) {s : SharedBase}
    → Server.new n t nodes ≡ ok s
    → s ≡ Server.initial n t nodes
unfolding Server.new
new-initial n t nodes h = ground arith

-- A coordinator that `new` accepts starts in the invariant.
pub new-IsSafe :
    (n t : ℕ) (nodes : List ClientIdentity) (s : SharedBase)
    → Server.new n t nodes ≡ ok s
    → IsSafe s
unfolding HashMap.get
new-IsSafe n t nodes s h = rw (new-initial n t nodes h) (record {
  sound = tt;
  tidy = record { bounded = omega arith; named = λ id. refl; once = tt; small = omega arith };
  sealed = tt;
  capacity = omega arith;
})
