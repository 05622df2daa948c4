-- ===== src/Coordinator/Server/Registering.antt =====
-- What registration (crates/off-chain/src/lib.rs) does to the executions that are there.
use mathlib.Core.Option.{some-injective}
use stoffel_mpc_coordinator.Prelude.HashMap
use stoffel_mpc_coordinator.Prelude.HashMap.{
  HasDistinctKeys, find-get, get-insert, get-insert_self, get-remove,
}
use stoffel_mpc_coordinator.Prelude.{
  ℕ, ◌<◌, ◌≡◌, ◌⊎◌, inl, inr, refl, true, false, none, some, arith, leb, length, find, nat_eq,
  list_eq, option_eq, ◌==◌, ◌∙◌, sym, ap, find-holds, Option-cases, Bool-cases, Result-cases, ok,
}
use stoffel_mpc_coordinator.Shared.ExecutionId.{ExecutionId, identity_iff}
use stoffel_mpc_coordinator.Coordinator.Types.{ExecutionRegistration, registration_beq_iff}
use stoffel_mpc_coordinator.Coordinator.Topology.{retirement_quorum}
use stoffel_mpc_coordinator.Coordinator.Execution
use stoffel_mpc_coordinator.Coordinator.Execution.{ExecutionState, fresh_state}
use stoffel_mpc_coordinator.Coordinator.Server.{
  SharedBase, max_executions, evictable, evict, admit, make_room, register_execution,
}

-- An execution that must not lose its place: the one-off one, and one that is not retired by a
-- quorum.
abbrev pub IsKept : SharedBase → ExecutionId → ExecutionState → Type 0
IsKept s id d =
    (s.one_off_execution ≡ some id) ⊎ (length d.retirement_acks < retirement_quorum s.n s.t)

evictable-apart :
    (s : SharedBase) (id id' : ExecutionId) (d d' : ExecutionState)
    → evictable s (id', d') ≡ true
    → (id' ≡ id → d' ≡ d)
    → IsKept s id d
    → (id' == id) ≡ false
unfolding evictable
evictable-apart s id id' d d' h same keep = elim (Bool-cases (id' == id)) [
  | inr e ↦ e
  | inl e ↦
      let it = (identity_iff id' id).0 e in
      absurd (ground (arith, it, same it, keep, option_eq.beq_iff s.one_off_execution (some id')))
]

admit_spares :
    (registration : ExecutionRegistration) (s : SharedBase) (id : ExecutionId) (d : ExecutionState)
    → HashMap.get registration.execution_id s.executions ≡ none
    → HashMap.get id s.executions ≡ some d
    → HashMap.get id (admit registration s).0.executions ≡ some d
unfolding admit
admit_spares registration s id d fresh there =
    elim (Result-cases (Execution.new registration s.n)) [
      | inr (x, e) ↦ rw (e, admit) there
      | inl (new_one, e) ↦
          rw (e, admit)
            (ground (
              arith,
              get-insert registration.execution_id id new_one s.executions,
              identity_iff registration.execution_id id,
              fresh,
              there,
            ))
    ]

make_room_spares :
    (registration : ExecutionRegistration) (s : SharedBase) (id : ExecutionId) (d : ExecutionState)
    → HasDistinctKeys s.executions
    → HashMap.get registration.execution_id s.executions ≡ none
    → HashMap.get id s.executions ≡ some d
    → IsKept s id d
    → HashMap.get id (make_room registration s).0.executions ≡ some d
unfolding make_room evict
make_room_spares registration s id d keys fresh there keep =
    elim (Option-cases (find (evictable s) s.executions)) [
      | inl e ↦ rw (e, make_room) there
      | inr ((id', d'), e) ↦
          let found = find-get (evictable s) s.executions id' d' keys e in
          let apart =
            evictable-apart s id id' d d' (find-holds (evictable s) s.executions e)
              (λ it.
                some-injective d' d (sym found ∙ ap (λ i. HashMap.get i s.executions) it ∙ there))
              keep in
          rw (e, make_room)
            (admit_spares registration (evict id' d' s) id d
              (ground (arith, get-remove id' registration.execution_id s.executions, fresh))
              (get-remove id' id s.executions ∙ rw apart there))
    ]

-- If no execution identity occurs twice in the map, registration takes no execution away that is the
-- one-off one or is not retired by a quorum: it stays as it is, also at capacity and whether or not
-- the registration succeeds.
pub register_execution_spares :
    (registration : ExecutionRegistration) (s : SharedBase) (id : ExecutionId) (d : ExecutionState)
    → HasDistinctKeys s.executions
    → HashMap.get id s.executions ≡ some d
    → IsKept s id d
    → HashMap.get id (register_execution registration s).0.executions ≡ some d
unfolding register_execution
register_execution_spares registration s id d keys there keep =
    elim (Option-cases (HashMap.get registration.execution_id s.executions)) [
      | inr (existing, e) ↦ rw (e, register_execution) there
      | inl e ↦ elim (Bool-cases (leb max_executions (length s.executions))) [
        | inr room ↦ rw (e, register_execution) (rw room (admit_spares registration s id d e there))
        | inl full ↦
            rw (e, register_execution)
              (rw full (make_room_spares registration s id d keys e there keep))
      ]
    ]

-- The map holds an execution with exactly this registration.
record IsRegistered (registration : ExecutionRegistration) (s : SharedBase) : Type 0 where
  execution : ExecutionState
  there : HashMap.get registration.execution_id s.executions ≡ some execution
  same : execution.registration ≡ registration

new-registration :
    (registration : ExecutionRegistration) (n : ℕ) {d : ExecutionState}
    → Execution.new registration n ≡ ok d
    → d.registration ≡ registration
unfolding Execution.new fresh_state
new-registration registration n h = ground arith

admit-IsRegistered :
    (registration : ExecutionRegistration) (s : SharedBase)
    → (admit registration s).1 ≡ ok tt
    → IsRegistered registration (admit registration s).0
unfolding admit
admit-IsRegistered registration s h = elim (Result-cases (Execution.new registration s.n)) [
  | inr (x, e) ↦ absurd (ground arith)
  | inl (d, e) ↦
      rw (e, admit)
        (record {
          execution = d;
          there = get-insert_self registration.execution_id d s.executions;
          same = new-registration registration s.n e;
        })
]

register_execution-IsRegistered :
    (registration : ExecutionRegistration) (s : SharedBase)
    → (register_execution registration s).1 ≡ ok tt
    → IsRegistered registration (register_execution registration s).0
unfolding register_execution make_room
register_execution-IsRegistered registration s h =
    elim (Option-cases (HashMap.get registration.execution_id s.executions)) [
      | inr (existing, e) ↦
          rw (e, register_execution)
            (record {
              execution = existing;
              there = e;
              same = ground (arith, registration_beq_iff existing.registration registration);
            })
      | inl e ↦ elim (Bool-cases (leb max_executions (length s.executions))) [
        | inr room ↦
            rw (e, register_execution) (rw room (admit-IsRegistered registration s (ground arith)))
        | inl full ↦ elim (Option-cases (find (evictable s) s.executions)) [
          | inl none_left ↦ absurd (ground arith)
          | inr ((id, d), f) ↦
              rw (e, register_execution)
                (rw full (
                  rw (f, make_room)
                    (admit-IsRegistered registration (evict id d s) (ground arith))))
        ]
      ]
    ]

IsRegistered-register_execution :
    (registration : ExecutionRegistration) (s : SharedBase)
    → IsRegistered registration s
    → register_execution registration s ≡ (s, ok tt)
unfolding register_execution
IsRegistered-register_execution registration s r =
    let equal = (registration_beq_iff r.execution.registration registration).1 r.same in
    rw (r.there, register_execution) (rw equal refl)

-- Registration is idempotent: once it has succeeded, a party that repeats it gets the same answer
-- and changes nothing.
pub register_execution_again :
    (registration : ExecutionRegistration) (s : SharedBase)
    → (register_execution registration s).1 ≡ ok tt
    → let s' = (register_execution registration s).0 in
      register_execution registration s' ≡ (s', ok tt)
register_execution_again registration s h =
    IsRegistered-register_execution registration _
      (register_execution-IsRegistered registration s h)
