-- ===== src/Coordinator/System/Interleaving.antt =====
-- Every action of every task keeps the coordinator's invariant, so it holds after any interleaving.
use stoffel_mpc_coordinator.Prelude.HashMap
use stoffel_mpc_coordinator.Prelude.HashMap.{AllValues-get}
use stoffel_mpc_coordinator.Prelude.{
  ℕ, ◌≡◌, inl, inr, Bool, true, List, [], ◌∷◌, arith, leb, contains, list_eq, nat_eq, Option-cases,
  Bool-cases, Result-cases, is_some,
}
use stoffel_mpc_coordinator.Shared.Round.{Round, round_eq, round_index, round_before}
use stoffel_mpc_coordinator.Shared.ExecutionId.{Bytes, ClientIdentity, ExecutionId}
use stoffel_mpc_coordinator.Coordinator.Types.{Network, Sink}
use stoffel_mpc_coordinator.Coordinator.Execution.{ExecutionState}
use stoffel_mpc_coordinator.Coordinator.Submit.{Submission, submit_record, submit_finish, returned}
use stoffel_mpc_coordinator.Coordinator.Server.{SharedBase, roster_head}
use stoffel_mpc_coordinator.Coordinator.Rpc.{
  on_execution, quorum, propose, transition, rpc_reserve_mask_indices, finish_submission,
  await_round,
}
use stoffel_mpc_coordinator.Coordinator.Outputs.{
  EncShares, with_shares, ready_output_snapshot, forget_waiter,
}
use stoffel_mpc_coordinator.Coordinator.System.{
  System, Action, DeliveryLock, register, retire, ask_shutdown, propose_round, subscribe_round,
  reserve, begin_submit, end_submit, store_shares, notify_client, drop_waiter, subscribe_outputs,
  store, open_outputs, begin, finish, step, run,
}
use stoffel_mpc_coordinator.Coordinator.System.Safety.{
  IsSafe, modify-IsSafe, on_execution-IsSafe, put-IsSafe,
}
use stoffel_mpc_coordinator.Coordinator.System.Registration.{
  rpc_register_execution-IsSafe, rpc_retire_execution-IsSafe, request_shutdown-IsSafe,
}
use stoffel_mpc_coordinator.Coordinator.System.Soundness.{
  IsSound, SameCore-Sound, try_advance-Sound, vote-Sound, reserve-Sound, submit-Sound,
}

propose-IsSound :
    (nodes : List ClientIdentity) (quorum : ℕ) (head self : ClientIdentity) (next_round : Round)
    (d : ExecutionState)
    → contains nodes self ≡ true
    → IsSound nodes quorum d
    → IsSound nodes quorum (propose quorum head self next_round d).0
unfolding propose
propose-IsSound nodes quorum head self next_round d m v =
    elim (Bool-cases (leb (round_index next_round) (round_index d.round))) [
      | inl late ↦ rw (late, propose) v
      | inr new ↦
          rw (new, propose)
            (try_advance-Sound nodes quorum head _ (vote-Sound nodes quorum self next_round d m v))
    ]

transition-IsSafe :
    (self : ClientIdentity) (id : ExecutionId) (next_round : Round) (s : SharedBase)
    → IsSafe s
    → IsSafe (transition self id next_round s).0
unfolding transition
transition-IsSafe self id next_round s h = elim (Bool-cases (contains s.mpc_nodes self)) [
  | inr m ↦ rw (m, transition) h
  | inl m ↦ elim (Bool-cases (is_some (round_before next_round))) [
    | inr bad ↦ rw (m, transition) (rw bad h)
    | inl good ↦
        rw (m, transition)
          (rw good (
            on_execution-IsSafe id (propose (quorum s) (roster_head s) self next_round) s
              (λ d. propose-IsSound s.mpc_nodes (quorum s) (roster_head s) self next_round d m) h))
  ]
]

module _ (nodes : List ClientIdentity) (quorum : ℕ) where
  await_round-IsSound :
      (r : Round) (sink : Sink) (d : ExecutionState)
      → IsSound nodes quorum d
      → IsSound nodes quorum (await_round r sink d).0
  await_round-IsSound r sink d =
      SameCore-Sound nodes quorum d _ (unfold await_round in ground arith)

  store-IsSound :
      (self client : ClientIdentity) (enc_shares : EncShares) (is_party : Bool) (d : ExecutionState)
      → IsSound nodes quorum d
      → IsSound nodes quorum (store self client enc_shares is_party d)
  store-IsSound self client enc_shares is_party d =
      SameCore-Sound nodes quorum d _ (unfold store with_shares in ground arith)

  snapshot-IsSound :
      (net : Network) (client : ClientIdentity) (min_shares : ℕ) (d : ExecutionState)
      → IsSound nodes quorum d
      → IsSound nodes quorum (ready_output_snapshot net client min_shares d).0
  snapshot-IsSound net client min_shares d =
      SameCore-Sound nodes quorum d _ (unfold ready_output_snapshot in ground arith)

  forget_waiter-IsSound :
      (client : ClientIdentity) (waiter : Sink) (d : ExecutionState)
      → IsSound nodes quorum d
      → IsSound nodes quorum (forget_waiter client waiter d)
  forget_waiter-IsSound client waiter d =
      SameCore-Sound nodes quorum d _ (unfold forget_waiter in ground arith)

  open_outputs-IsSound :
      (net : Network) (self : ClientIdentity) (sink : Sink) (d : ExecutionState)
      → IsSound nodes quorum d
      → IsSound nodes quorum (open_outputs net self sink d)
  open_outputs-IsSound net self sink d =
      SameCore-Sound nodes quorum d _ (unfold open_outputs in ground arith)

  submit_finish-IsSound :
      (net : Network) (head : ClientIdentity) (submission : Submission) (d : ExecutionState)
      → IsSound nodes quorum d
      → IsSound nodes quorum (submit_finish net quorum head submission d).0
  unfolding submit_finish
  submit_finish-IsSound net head submission d v = try_advance-Sound nodes quorum head _ (
      SameCore-Sound nodes quorum d (returned net submission d) (unfold returned in ground arith) v)

finish-IsSafe :
    (net : Network) (lock : DeliveryLock) (id : ExecutionId) (submission : Submission)
    (sys : System)
    → IsSafe sys.shared
    → IsSafe (finish net lock id submission sys).shared
unfolding finish finish_submission
finish-IsSafe net lock id submission sys h =
    elim (Option-cases (HashMap.get id sys.shared.executions)) [
      | inl e ↦ rw (e, finish_submission) h
      | inr (d, e) ↦
          rw (e, finish_submission)
            (put-IsSafe id d _ sys.shared e
              (submit_finish-IsSound sys.shared.mpc_nodes (quorum sys.shared) net
                (roster_head sys.shared) submission d
                (AllValues-get _ id sys.shared.executions h.sound e))
              h)
    ]

begin-IsSafe :
    (lock : DeliveryLock) (self : ClientIdentity) (id : ExecutionId) (inputs : List Bytes)
    (indices : List ℕ) (sys : System)
    → IsSafe sys.shared
    → IsSafe (begin lock self id inputs indices sys).shared
unfolding begin
begin-IsSafe lock self id inputs indices sys h =
    let kept =
      on_execution-IsSafe id (submit_record self inputs indices) sys.shared
        (submit-Sound sys.shared.mpc_nodes (quorum sys.shared) self inputs indices) h in
    elim (Result-cases (on_execution id (submit_record self inputs indices) sys.shared).1) [
      | inl (a, e) ↦ rw (e, begin) kept
      | inr (x, e) ↦ rw (e, begin) kept
    ]

-- Every action of every task keeps the invariant.
pub step-IsSafe :
    (action : Action) (sys : System) → IsSafe sys.shared → IsSafe (step action sys).shared
unfolding step
step-IsSafe (register self registration) sys h =
    rpc_register_execution-IsSafe self registration sys.shared h
step-IsSafe (retire self id) sys h = rpc_retire_execution-IsSafe self id sys.shared h
step-IsSafe (ask_shutdown self) sys h = request_shutdown-IsSafe self sys.shared h
step-IsSafe (propose_round lock self id next_round) sys h =
    elim (Bool-cases (HashMap.contains_key lock sys.in_flight)) [
      | inl taken ↦ rw (taken, step) h
      | inr free ↦ rw (free, step) (transition-IsSafe self id next_round sys.shared h)
    ]
step-IsSafe (subscribe_round id r sink) sys h =
    on_execution-IsSafe id (await_round r sink) sys.shared
      (await_round-IsSound sys.shared.mpc_nodes (quorum sys.shared) r sink) h
step-IsSafe (reserve net self id indices) sys h =
    unfold rpc_reserve_mask_indices in
    on_execution-IsSafe id _ sys.shared
      (reserve-Sound sys.shared.mpc_nodes (quorum sys.shared) net self indices) h
step-IsSafe (begin_submit lock self id inputs indices) sys h =
    elim (Bool-cases (HashMap.contains_key lock sys.in_flight)) [
      | inl taken ↦ rw (taken, step) h
      | inr free ↦ rw (free, step) (begin-IsSafe lock self id inputs indices sys h)
    ]
step-IsSafe (end_submit net lock) sys h = elim (Option-cases (HashMap.get lock sys.in_flight)) [
  | inl e ↦ rw (e, step) h
  | inr ((id, submission), e) ↦ rw (e, step) (finish-IsSafe net lock id submission sys h)
]
step-IsSafe (store_shares self id client enc_shares) sys h =
    modify-IsSafe id _ sys.shared
      (store-IsSound sys.shared.mpc_nodes (quorum sys.shared) self client enc_shares _) h
step-IsSafe (notify_client net id client) sys h =
    modify-IsSafe id _ sys.shared
      (λ d. snapshot-IsSound sys.shared.mpc_nodes (quorum sys.shared) net client _ d) h
step-IsSafe (drop_waiter id client waiter) sys h =
    modify-IsSafe id _ sys.shared
      (forget_waiter-IsSound sys.shared.mpc_nodes (quorum sys.shared) client waiter) h
step-IsSafe (subscribe_outputs net self id sink) sys h =
    modify-IsSafe id _ sys.shared
      (open_outputs-IsSound sys.shared.mpc_nodes (quorum sys.shared) net self sink) h

-- Whatever the tasks do, in whatever order: from a state of the invariant every run leads to one.
-- So votes and acknowledgements are always those of different configured parties, also the
-- acknowledgements kept of sealed executions, every round reached has a quorum of proposers, every
-- input lies in a reserved slot, and both bounds hold.
pub run-IsSafe :
    (actions : List Action) (sys : System) → IsSafe sys.shared → IsSafe (run actions sys).shared
unfolding run
run-IsSafe [] sys h = h
run-IsSafe (action ∷ actions) sys h =
    run-IsSafe actions (step action sys) (step-IsSafe action sys h)
