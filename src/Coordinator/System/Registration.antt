-- ===== src/Coordinator/System/Registration.antt =====
-- Registration, retirement and shutdown keep the coordinator's invariant.
use stoffel_mpc_coordinator.Prelude.HashMap
use stoffel_mpc_coordinator.Prelude.HashMap.{
  AllValues, AllValues-insert, AllValues-remove, AllValues-get, AllValues-find, length-insert-le,
  length-insert_present, length-remove_present, find-present,
}
use stoffel_mpc_coordinator.Prelude.{
  ℕ, ◌<◌, ◌≡◌, ◌⊎◌, inl, inr, true, false, some, arith, leb, leb→lt, find, length, contains,
  list_eq, nat_eq, Option-cases, Bool-cases, Result-cases, ok,
}
use stoffel_mpc_coordinator.Shared.ExecutionId.{ClientIdentity, ExecutionId}
use stoffel_mpc_coordinator.Coordinator.Types.{ExecutionRegistration}
use stoffel_mpc_coordinator.Coordinator.Execution
use stoffel_mpc_coordinator.Coordinator.Execution.{ExecutionState, fresh_state}
use stoffel_mpc_coordinator.Coordinator.Retired.{acknowledge}
use stoffel_mpc_coordinator.Coordinator.Retired.Bounds.{seal-IsTidy, acknowledge-IsTidy}
use stoffel_mpc_coordinator.Coordinator.Retired.Parties.{seal-AllValues, acknowledge-AllValues}
use stoffel_mpc_coordinator.Coordinator.Server.{
  SharedBase, max_executions, admit, evict, evictable, make_room, register_execution,
  retire_execution, record_ack, acked, rpc_register_execution, rpc_retire_execution,
  request_shutdown,
}
use stoffel_mpc_coordinator.Coordinator.Rpc.{put, quorum}
use stoffel_mpc_coordinator.Coordinator.System.Safety.{IsSafe, put-IsSafe}
use stoffel_mpc_coordinator.Coordinator.System.Soundness.{
  IsSound, fresh_state-Sound, acked-Sound, insert-Parties,
}

new-fresh :
    (registration : ExecutionRegistration) (n : ℕ) {d : ExecutionState}
    → Execution.new registration n ≡ ok d
    → d ≡ fresh_state registration
unfolding Execution.new
new-fresh registration n h = ground arith

admit-IsSafe :
    (registration : ExecutionRegistration) (s : SharedBase)
    → length s.executions < max_executions
    → IsSafe s
    → IsSafe (admit registration s).0
unfolding admit quorum
admit-IsSafe registration s room h = elim (Result-cases (Execution.new registration s.n)) [
  | inr (x, e) ↦ rw (e, admit) h
  | inl (d, e) ↦
      rw (e, admit)
        (record {
          sound =
              AllValues-insert _ registration.execution_id d s.executions
                (rw (new-fresh registration s.n e)
                  (fresh_state-Sound s.mpc_nodes (quorum s) registration))
                h.sound;
          tidy = h.tidy;
          sealed = h.sealed;
          capacity = omega (arith, room, length-insert-le registration.execution_id d s.executions);
        })
]

evict-IsSafe :
    (id : ExecutionId) (d : ExecutionState) (s : SharedBase)
    → find (evictable s) s.executions ≡ some (id, d)
    → IsSafe s
    → IsSafe (evict id d s) × (length (evict id d s).executions < max_executions)
unfolding evict quorum
evict-IsSafe id d s e h =
    let (w, there) = find-present (evictable s) s.executions id e in
    let found : IsSound s.mpc_nodes (quorum s) d =
      AllValues-find _ (evictable s) s.executions id d h.sound e in
    let smaller : length (HashMap.remove id s.executions) < max_executions =
      omega (arith, h.capacity, length-remove_present id w s.executions there) in
    (
      record {
        sound = AllValues-remove _ id s.executions h.sound;
        tidy = seal-IsTidy id d.retirement_acks s.retired h.tidy;
        sealed = seal-AllValues _ id d.retirement_acks s.retired found.acked h.sealed;
        capacity = omega arith;
      },
      smaller,
    )

evict-shape :
    (id : ExecutionId) (d : ExecutionState) (s : SharedBase)
    → IsSafe s
    → find (evictable s) s.executions ≡ some (id, d)
    → (registration : ExecutionRegistration) → IsSafe (admit registration (evict id d s)).0
evict-shape id d s h e registration =
    let (safe, room) = evict-IsSafe id d s e h in admit-IsSafe registration (evict id d s) room safe

make_room-IsSafe :
    (registration : ExecutionRegistration) (s : SharedBase)
    → IsSafe s
    → IsSafe (make_room registration s).0
unfolding make_room
make_room-IsSafe registration s h = elim (Option-cases (find (evictable s) s.executions)) [
  | inl e ↦ rw (e, make_room) h
  | inr ((id, d), e) ↦ rw (e, make_room) (evict-shape id d s h e registration)
]

-- Registration keeps the invariant, also where it evicts an execution to make room.
register_execution-IsSafe :
    (registration : ExecutionRegistration) (s : SharedBase)
    → IsSafe s
    → IsSafe (register_execution registration s).0
unfolding register_execution
register_execution-IsSafe registration s h =
    elim (Option-cases (HashMap.get registration.execution_id s.executions)) [
      | inr (existing, e) ↦ rw (e, register_execution) h
      | inl e ↦ elim (Bool-cases (leb max_executions (length s.executions))) [
        | inr room ↦
            rw (e, register_execution)
              (rw room
                (admit-IsSafe registration s (leb→lt max_executions (length s.executions) room) h))
        | inl full ↦ rw (e, register_execution) (rw full (make_room-IsSafe registration s h))
      ]
    ]

pub rpc_register_execution-IsSafe :
    (self : ClientIdentity) (registration : ExecutionRegistration) (s : SharedBase)
    → IsSafe s
    → IsSafe (rpc_register_execution self registration s).0
unfolding rpc_register_execution
rpc_register_execution-IsSafe self registration s h =
    elim (Bool-cases (contains s.mpc_nodes self)) [
      | inl m ↦ rw (m, rpc_register_execution) (register_execution-IsSafe registration s h)
      | inr m ↦ rw (m, rpc_register_execution) h
    ]

acknowledge_live :
    (id : ExecutionId) (party : ClientIdentity) (s : SharedBase)
    → contains s.mpc_nodes party ≡ true
    → IsSafe s
    → IsSafe (record_ack id party s)
unfolding record_ack put
acknowledge_live id party s m h = elim (Option-cases (HashMap.get id s.executions)) [
  | inl e ↦ rw (e, record_ack) h
  | inr (d, e) ↦
      rw (e, record_ack)
        (put-IsSafe id d (acked party d) s e
          (acked-Sound s.mpc_nodes (quorum s) party d m (AllValues-get _ id s.executions h.sound e))
          h)
]

retire_execution-IsSafe :
    (id : ExecutionId) (party : ClientIdentity) (s : SharedBase)
    → IsSafe s
    → IsSafe (retire_execution id party s).0
unfolding retire_execution quorum
retire_execution-IsSafe id party s h = elim (Bool-cases (contains s.mpc_nodes party)) [
  | inr m ↦ rw (m, retire_execution) h
  | inl m ↦ elim (Bool-cases (acknowledge id party (length s.mpc_nodes) s.retired).1) [
    | inl known ↦
        rw (m, retire_execution)
          (rw known (record {
            sound = h.sound;
            tidy = acknowledge-IsTidy id party (length s.mpc_nodes) s.retired h.tidy;
            sealed =
                acknowledge-AllValues _ id party (length s.mpc_nodes) s.retired
                  (λ acks. insert-Parties s.mpc_nodes (quorum s) party acks m) h.sealed;
            capacity = h.capacity;
          }))
    | inr unknown ↦ rw (m, retire_execution) (rw unknown (acknowledge_live id party s m h))
  ]
]

pub rpc_retire_execution-IsSafe :
    (self : ClientIdentity) (id : ExecutionId) (s : SharedBase)
    → IsSafe s
    → IsSafe (rpc_retire_execution self id s).0
unfolding rpc_retire_execution
rpc_retire_execution-IsSafe self id s h = elim (Bool-cases (contains s.mpc_nodes self)) [
  | inl m ↦ rw (m, rpc_retire_execution) (retire_execution-IsSafe id self s h)
  | inr m ↦ rw (m, rpc_retire_execution) h
]

request_shutdown_shape :
    (self : ClientIdentity) (s : SharedBase)
    → ((request_shutdown self s).0 ≡ s)
      ⊎ ((request_shutdown self s).0 ≡ record s { shutdown_notify = false })
unfolding request_shutdown
request_shutdown_shape self s = ground arith

pub request_shutdown-IsSafe :
    (self : ClientIdentity) (s : SharedBase) → IsSafe s → IsSafe (request_shutdown self s).0
unfolding request_shutdown quorum
request_shutdown-IsSafe self s h = elim (request_shutdown_shape self s) [
  | inl e ↦ rw e h
  | inr e ↦
      rw e (record { sound = h.sound; tidy = h.tidy; sealed = h.sealed; capacity = h.capacity })
]
