-- ===== src/Coordinator/Execution/Cascade.antt =====
-- What the loop of `try_advance` (crates/off-chain/src/lib.rs) does, turn by turn and as a whole.
use stoffel_mpc_coordinator.Prelude.{
  ℕ, zero, suc, ◌+◌, ◌<◌, ◌≡◌, ◌≢◌, ◌⊎◌, inl, inr, true, ◌&&◌, List, [], ◌∷◌, none, some, arith,
  find-holds, Option-cases, ok,
}
use stoffel_mpc_coordinator.Shared.Round.{Round, round_index, round_index-le}
use stoffel_mpc_coordinator.Shared.ExecutionId.{ClientIdentity}
use stoffel_mpc_coordinator.Coordinator.Types.{Event}
use stoffel_mpc_coordinator.Coordinator.Execution.{ExecutionState}
use stoffel_mpc_coordinator.Coordinator.Execution.Rounds.{
  TransitionDelivery, follows, has_quorum, next_quorum_round, blocking_precondition, round_event,
  round_sinks, entered, transition, advance_once, advance_loop, try_advance, ordered_rounds,
}

-- One turn of the loop that enters a round.
pub record Advance (quorum : ℕ) (roster_head : ClientIdentity) (d : ExecutionState)
    (delivery : TransitionDelivery) (d' : ExecutionState) : Type 0 where
  pub supported : has_quorum quorum d delivery.round ≡ true
  pub in_order : follows d delivery.round ≡ true
  pub unblocked : blocking_precondition d delivery.round ≡ none
  pub announced : round_event roster_head delivery.round ≡ some delivery.event
  pub told : delivery.sinks ≡ round_sinks d delivery.round
  pub moved : d' ≡ entered delivery.event delivery.round d

next_quorum_round-holds :
    (quorum : ℕ) (d : ExecutionState) {r : Round}
    → next_quorum_round quorum d ≡ some r
    → (has_quorum quorum d r ≡ true) × (follows d r ≡ true)
unfolding next_quorum_round
next_quorum_round-holds quorum d {r} h =
    both (find-holds (λ c. follows d c && has_quorum quorum d c) ordered_rounds h)
  where
    both :
        (follows d r && has_quorum quorum d r) ≡ true
        → (has_quorum quorum d r ≡ true) × (follows d r ≡ true)
    both p = ground arith

advance_once-Advance :
    (quorum : ℕ) (roster_head : ClientIdentity) (d d' : ExecutionState)
    (delivery : TransitionDelivery)
    → advance_once quorum roster_head d ≡ some (delivery, d')
    → Advance quorum roster_head d delivery d'
unfolding advance_once transition
advance_once-Advance quorum roster_head d d' delivery h =
    ground (arith, next_quorum_round-holds quorum d {r = delivery.round})

follows-round_index :
    (d : ExecutionState) (r : Round) → follows d r ≡ true → round_index d.round < round_index r
unfolding follows round_index
follows-round_index d r h = ground arith

-- The loop as a relation: it enters rounds until a turn enters none.
pub data Cascade (quorum : ℕ) (roster_head : ClientIdentity)
    : ExecutionState → ExecutionState → List TransitionDelivery → Type 0 where
  halt :
      {d : ExecutionState}
      → advance_once quorum roster_head d ≡ none
      → Cascade quorum roster_head d d []
  turn :
      {d d' d'' : ExecutionState} {delivery : TransitionDelivery} {rest : List TransitionDelivery}
      → Advance quorum roster_head d delivery d'
      → Cascade quorum roster_head d' d'' rest
      → Cascade quorum roster_head d d'' (delivery ∷ rest)

pub Advance-round :
    {quorum : ℕ} {roster_head : ClientIdentity} {d d' : ExecutionState}
    {delivery : TransitionDelivery}
    → Advance quorum roster_head d delivery d'
    → (d'.round ≡ delivery.round) × (round_index d.round < round_index d'.round)
unfolding entered
Advance-round {d = d} {d' = d'} {delivery = delivery} a =
    ground (arith, follows-round_index d delivery.round)

-- Fuel for one turn more than the rounds that are left.
advance_loop-Cascade :
    (fuel quorum : ℕ) (roster_head : ClientIdentity) (d : ExecutionState)
    → 6 < fuel + round_index d.round
    → Cascade quorum roster_head d
        (advance_loop fuel quorum roster_head d).0
        (advance_loop fuel quorum roster_head d).1
unfolding advance_loop
advance_loop-Cascade zero quorum roster_head d h = absurd (omega (arith, round_index-le d.round))
advance_loop-Cascade (suc fuel) quorum roster_head d h =
    elim (Option-cases (advance_once quorum roster_head d)) [
      | inl e ↦ rw (e, advance_loop) (halt e)
      | inr ((delivery, d'), e) ↦
          let a = advance_once-Advance quorum roster_head d d' delivery e in
          rw (e, advance_loop)
            (turn a
              (advance_loop-Cascade fuel quorum roster_head d' (omega (arith, Advance-round a))))
    ]

pub try_advance-Cascade :
    (quorum : ℕ) (roster_head : ClientIdentity) (d : ExecutionState)
    → Cascade quorum roster_head d
        (try_advance quorum roster_head d).0
        (try_advance quorum roster_head d).1
unfolding try_advance
try_advance-Cascade quorum roster_head d = advance_loop-Cascade 7 quorum roster_head d (omega arith)

Cascade-halted :
    {quorum : ℕ} {roster_head : ClientIdentity} {d d' : ExecutionState}
    {deliveries : List TransitionDelivery}
    → Cascade quorum roster_head d d' deliveries
    → advance_once quorum roster_head d' ≡ none
Cascade-halted (halt e) = e
Cascade-halted (turn a c) = Cascade-halted c

-- `transition` fails for `Idle` alone, and so does the choice of the event.
transition-ok :
    (event : Event) (r : Round) (d : ExecutionState)
    → 0 < round_index r
    → (transition event r d).1 ≡ ok (round_sinks d r)
unfolding transition round_index
transition-ok event r d h = ground arith

round_event-some :
    (roster_head : ClientIdentity) (r : Round)
    → 0 < round_index r
    → round_event roster_head r ≢ none
unfolding round_event round_index
round_event-some roster_head r h = ground arith

pub advance_once-none :
    (quorum : ℕ) (roster_head : ClientIdentity) (d : ExecutionState)
    → advance_once quorum roster_head d ≡ none
    → (next_quorum_round quorum d ≡ none)
      ⊎ ((r : Round) × (next_quorum_round quorum d ≡ some r) × (blocking_precondition d r ≢ none))
unfolding advance_once
advance_once-none quorum roster_head d h = elim (Option-cases (next_quorum_round quorum d)) [
  | inl e ↦ inl e
  | inr (r, e) ↦ inr (r, e, stuck r e (next_quorum_round-holds quorum d e).1)
]
  where
    stuck :
        (r : Round)
        → next_quorum_round quorum d ≡ some r
        → follows d r ≡ true
        → blocking_precondition d r ≢ none
    stuck r e f b =
        let pos : 0 < round_index r = omega (arith, follows-round_index d r f) in
        elim (Option-cases (round_event roster_head r)) [
          | inl missing ↦ round_event-some roster_head r pos missing
          | inr (event, found) ↦ ground (arith, transition-ok event r d pos)
        ]

-- The loop of `try_advance` ends, and where it ends nothing is left to do: no round that follows
-- the one reached has a quorum of proposers, or the first that has is held by its precondition.
pub try_advance_exhausts :
    (quorum : ℕ) (roster_head : ClientIdentity) (d : ExecutionState)
    → let d' = (try_advance quorum roster_head d).0 in
      (next_quorum_round quorum d' ≡ none)
      ⊎ ((r : Round) × (next_quorum_round quorum d' ≡ some r) × (blocking_precondition d' r ≢ none))
try_advance_exhausts quorum roster_head d =
    advance_once-none quorum roster_head _
      (Cascade-halted (try_advance-Cascade quorum roster_head d))

-- A cascade leaves alone what does not belong to the rounds.
pub Cascade-keeps {κ} :
    (P : ExecutionState → Type κ) {quorum : ℕ} {roster_head : ClientIdentity}
    {d d' : ExecutionState} {deliveries : List TransitionDelivery}
    → ((c c' : ExecutionState) (delivery : TransitionDelivery)
        → Advance quorum roster_head c delivery c'
        → P c
        → P c')
    → Cascade quorum roster_head d d' deliveries
    → P d
    → P d'
Cascade-keeps P step (halt e) p = p
Cascade-keeps P step (turn {d} {d'} {d''} {delivery} {rest} a c) p =
    Cascade-keeps P step c (step d d' delivery a p)
