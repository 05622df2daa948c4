-- ===== src/Coordinator/System/Honest.antt =====
-- No minority moves an execution: after any interleaving of the coordinator's tasks
-- (crates/off-chain/src/lib.rs) an honest party has proposed the round of every execution.
use stoffel_mpc_coordinator.Prelude.HashMap
use stoffel_mpc_coordinator.Prelude.HashMap.{AllValues-get}
use stoffel_mpc_coordinator.Prelude.HashSet.{HashSet}
use stoffel_mpc_coordinator.Prelude.{
  ℕ, ◌≤◌, ◌<◌, ◌^◌, ◌≡◌, subst, ◌≢◌, inl, inr, true, false, List, [], ◌∷◌, some, arith, length,
  contains, All, list_eq, nat_eq, ◌==◌, Option-cases, Bool-cases,
}
use stoffel_mpc_coordinator.Shared.Round.{Round, round_eq, idle}
use stoffel_mpc_coordinator.Shared.ExecutionId.{Bytes, ClientIdentity, ExecutionId, identity_iff}
use stoffel_mpc_coordinator.Coordinator.Types.{Network, RpcResult, ExecutionRegistration}
use stoffel_mpc_coordinator.Coordinator.Topology.{IsValidTopology, quorum_honest}
use stoffel_mpc_coordinator.Coordinator.Execution.{ExecutionState}
use stoffel_mpc_coordinator.Coordinator.Execution.Rounds.{has_quorum}
use stoffel_mpc_coordinator.Coordinator.Submit.{Submission, submit_record}
use stoffel_mpc_coordinator.Coordinator.Server.{
  SharedBase, rpc_register_execution, register_execution, make_room, admit, evict,
  rpc_retire_execution, retire_execution, record_ack, request_shutdown, roster_head,
}
use stoffel_mpc_coordinator.Coordinator.Rpc.{
  on_execution, propose, put, quorum, voters_of, transition, rpc_reserve_mask_indices,
  finish_submission,
}
use stoffel_mpc_coordinator.Coordinator.System.{
  System, Action, DeliveryLock, modify, begin, finish, step, run, register, retire, ask_shutdown,
  propose_round, subscribe_round, reserve, begin_submit, end_submit, store_shares, notify_client,
  drop_waiter, subscribe_outputs,
}
use stoffel_mpc_coordinator.Coordinator.System.Safety.{IsSafe}
use stoffel_mpc_coordinator.Coordinator.System.Soundness.{IsSound, voters_of-Parties}
use stoffel_mpc_coordinator.Coordinator.System.Interleaving.{run-IsSafe}

-- Who takes part, which nothing changes.
pub record SameParties (s s' : SharedBase) : Type 0 where
  pub nodes : s'.mpc_nodes ≡ s.mpc_nodes
  pub count : s'.n ≡ s.n
  pub threshold : s'.t ≡ s.t

on_execution-SameParties {ℓ} :
    {A : Type ℓ} (id : ExecutionId) (f : ExecutionState → ExecutionState × RpcResult A)
    (s : SharedBase)
    → SameParties s (on_execution id f s).0
unfolding on_execution
on_execution-SameParties id f s = elim (Option-cases (HashMap.get id s.executions)) [
  | inl e ↦ rw (e, on_execution) (ground arith)
  | inr (d, e) ↦ rw (e, on_execution) (ground arith)
]

modify-SameParties :
    (id : ExecutionId) (f : ExecutionState → ExecutionState) (s : SharedBase)
    → SameParties s (modify id f s)
unfolding modify
modify-SameParties id f s = ground arith

admit-SameParties :
    (registration : ExecutionRegistration) (s : SharedBase) → SameParties s (admit registration s).0
unfolding admit
admit-SameParties registration s = ground arith

register-SameParties :
    (self : ClientIdentity) (registration : ExecutionRegistration) (s : SharedBase)
    → SameParties s (rpc_register_execution self registration s).0
unfolding rpc_register_execution register_execution make_room admit evict
register-SameParties self registration s = ground arith

retire-SameParties :
    (self : ClientIdentity) (id : ExecutionId) (s : SharedBase)
    → SameParties s (rpc_retire_execution self id s).0
unfolding rpc_retire_execution retire_execution record_ack
retire-SameParties self id s = ground arith

shutdown-SameParties :
    (self : ClientIdentity) (s : SharedBase) → SameParties s (request_shutdown self s).0
unfolding request_shutdown
shutdown-SameParties self s = ground arith

transition-SameParties :
    (self : ClientIdentity) (id : ExecutionId) (r : Round) (s : SharedBase)
    → SameParties s (transition self id r s).0
unfolding transition
transition-SameParties self id r s =
    ground (arith, on_execution-SameParties id (propose (quorum s) (roster_head s) self r) s)

finish-SameParties :
    (net : Network) (lock : DeliveryLock) (id : ExecutionId) (submission : Submission)
    (sys : System)
    → SameParties sys.shared (finish net lock id submission sys).shared
unfolding finish finish_submission put
finish-SameParties net lock id submission sys =
    elim (Option-cases (HashMap.get id sys.shared.executions)) [
      | inl e ↦ rw (e, finish_submission) (ground arith)
      | inr (d, e) ↦ rw (e, finish_submission) (ground arith)
    ]

begin-SameParties :
    (lock : DeliveryLock) (self : ClientIdentity) (id : ExecutionId) (inputs : List Bytes)
    (indices : List ℕ) (sys : System)
    → SameParties sys.shared (begin lock self id inputs indices sys).shared
unfolding begin
begin-SameParties lock self id inputs indices sys =
    ground (arith, on_execution-SameParties id (submit_record self inputs indices) sys.shared)

step-SameParties :
    (action : Action) (sys : System) → SameParties sys.shared (step action sys).shared
unfolding step
step-SameParties (register self registration) sys =
    register-SameParties self registration sys.shared
step-SameParties (retire self id) sys = retire-SameParties self id sys.shared
step-SameParties (ask_shutdown self) sys = shutdown-SameParties self sys.shared
step-SameParties (propose_round lock self id r) sys =
    ground (arith, transition-SameParties self id r sys.shared)
step-SameParties (subscribe_round id r sink) sys = on_execution-SameParties id _ sys.shared
step-SameParties (reserve net self id indices) sys =
    unfold rpc_reserve_mask_indices in on_execution-SameParties id _ sys.shared
step-SameParties (begin_submit lock self id inputs indices) sys =
    ground (arith, begin-SameParties lock self id inputs indices sys)
step-SameParties (end_submit net lock) sys = elim (Option-cases (HashMap.get lock sys.in_flight)) [
  | inl e ↦ ground arith
  | inr ((id, submission), e) ↦ ground (arith, finish-SameParties net lock id submission sys)
]
step-SameParties (store_shares self id client enc_shares) sys = modify-SameParties id _ sys.shared
step-SameParties (notify_client net id client) sys = modify-SameParties id _ sys.shared
step-SameParties (drop_waiter id client waiter) sys = modify-SameParties id _ sys.shared
step-SameParties (subscribe_outputs net self id sink) sys = modify-SameParties id _ sys.shared

run-SameParties :
    (actions : List Action) (sys : System) → SameParties sys.shared (run actions sys).shared
unfolding run
run-SameParties [] sys = ground arith
run-SameParties (action ∷ actions) sys =
    ground (arith, step-SameParties action sys, run-SameParties actions (step action sys))

member-All :
    (P : ClientIdentity → Type 0) (set : HashSet ClientIdentity) (p : ClientIdentity)
    → All P set
    → contains set p ≡ true
    → P p
member-All P [] p a m = cc
member-All P (x ∷ set) p (h, a) m = elim (Bool-cases (x == p)) [
  | inl e ↦ subst P ((identity_iff x p).0 e) h
  | inr e ↦ member-All P set p a (ground arith)
]

length-voters_of :
    (q : ℕ) (d : ExecutionState) (r : Round) → has_quorum q d r ≡ true → q ≤ length (voters_of d r)
unfolding has_quorum voters_of
length-voters_of q d r h = ground arith

-- In a state of the invariant, an honest party has proposed the round of an execution.
sound_honest :
    (s : SharedBase) (d : ExecutionState) (faulty : List ClientIdentity)
    → IsValidTopology s.n s.t s.mpc_nodes
    → length s.mpc_nodes < 2 ^ 63
    → IsSound s.mpc_nodes (quorum s) d
    → d.round ≢ idle
    → length faulty ≤ s.t
    → (p : ClientIdentity) × (contains s.mpc_nodes p ≡ true)
      × (contains faulty p ≡ false)
      × (contains (voters_of d d.round) p ≡ true)
unfolding quorum
sound_honest s d faulty valid sized v moved few = elim v.reached [
  | inl e ↦ absurd (moved e)
  | inr h ↦
      let voters = voters_of d d.round in
      let members = voters_of-Parties s.mpc_nodes (quorum s) d d.round v.voters in
      let (p, voted, honest) =
        quorum_honest s.n s.t s.mpc_nodes voters faulty sized valid members.0
          (length-voters_of (quorum s) d d.round h) few in
      (p, member-All (λ q. contains s.mpc_nodes q ≡ true) voters p members.1 voted, honest, voted)
]

-- Whatever the tasks of a validly configured coordinator of fewer than 2 ^ 63 nodes do, in whatever
-- order, from a state of the invariant, and whichever at most `t` parties are faulty: if an
-- execution has left `Idle`, a configured party that is not faulty has proposed the round that it
-- is in.
pub run_honest :
    (actions : List Action) (sys : System) (id : ExecutionId) (d : ExecutionState)
    (faulty : List ClientIdentity)
    → IsSafe sys.shared
    → IsValidTopology sys.shared.n sys.shared.t sys.shared.mpc_nodes
    → length sys.shared.mpc_nodes < 2 ^ 63
    → HashMap.get id (run actions sys).shared.executions ≡ some d
    → d.round ≢ idle
    → length faulty ≤ sys.shared.t
    → (p : ClientIdentity) × (contains sys.shared.mpc_nodes p ≡ true)
      × (contains faulty p ≡ false)
      × (contains (voters_of d d.round) p ≡ true)
run_honest actions sys id d faulty safe valid sized found moved few =
    let same = run-SameParties actions sys in
    let s = (run actions sys).shared in
    let safe' = run-IsSafe actions sys safe in
    let v = AllValues-get _ id s.executions safe'.sound found in
    let (p, member, honest, voted) =
      sound_honest s d faulty (rw (same.count, same.threshold, same.nodes) valid)
        (rw same.nodes sized) v moved (rw same.threshold few) in
    (p, rw same.nodes at member, honest, voted)
