-- ===== src/Coordinator/Execution/Precondition.antt =====
-- What `blocking_precondition` (crates/off-chain/src/lib.rs) guards: that no execution runs its
-- program on missing inputs, and where it does not.
use stoffel_mpc_coordinator.Prelude.{
  ℕ, ◌≤◌, ◌<◌, ◌≡◌, refl, ap, ◌⊎◌, inl, inr, true, false, List, Option, none, some, arith,
  count_none,
}
use stoffel_mpc_coordinator.Shared.Round.{
  Round, round_eq, round_index, preprocessing, input_mask_reservation, mpc_execution,
}
use stoffel_mpc_coordinator.Shared.ExecutionId.{Bytes, ClientIdentity}
use stoffel_mpc_coordinator.Coordinator.Execution.{ExecutionState}
use stoffel_mpc_coordinator.Coordinator.Execution.Rounds.{
  TransitionDelivery, follows, has_quorum, next_quorum_round, blocking_precondition, entered,
  try_advance,
}
use stoffel_mpc_coordinator.Coordinator.Execution.Cascade.{
  Advance, Advance-round, Cascade, Cascade-keeps, try_advance-Cascade, advance_once-none, halt,
  turn,
}

-- Past the preprocessing round, and not in the computation with an input missing.
abbrev pub HoldsInputs : ExecutionState → Type 0
HoldsInputs d =
    (2 ≤ round_index d.round) × ((round_index d.round < 4) ⊎ (count_none d.masked_inputs ≡ 0))

Advance-HoldsInputs :
    {quorum : ℕ} {roster_head : ClientIdentity} (d d' : ExecutionState)
    (delivery : TransitionDelivery)
    → Advance quorum roster_head d delivery d'
    → HoldsInputs d
    → HoldsInputs d'
unfolding entered follows blocking_precondition round_index
Advance-HoldsInputs d d' delivery a h = ground arith

-- From a round past the preprocessing, in which nothing is missing if it is the computation or
-- later, no cascade reaches the computation or a later round while a masked input is missing.
pub try_advance-HoldsInputs :
    (quorum : ℕ) (roster_head : ClientIdentity) (d : ExecutionState)
    → HoldsInputs d
    → HoldsInputs (try_advance quorum roster_head d).0
try_advance-HoldsInputs quorum roster_head d =
    Cascade-keeps HoldsInputs Advance-HoldsInputs (try_advance-Cascade quorum roster_head d)

Cascade-round-le :
    {quorum : ℕ} {roster_head : ClientIdentity} {d d' : ExecutionState}
    {deliveries : List TransitionDelivery}
    → Cascade quorum roster_head d d' deliveries
    → round_index d.round ≤ round_index d'.round
Cascade-round-le (halt e) = omega arith
Cascade-round-le (turn a c) = omega (arith, Advance-round a, Cascade-round-le c)

-- A round once reached is never left for an earlier one.
pub try_advance-round-le :
    (quorum : ℕ) (roster_head : ClientIdentity) (d : ExecutionState)
    → round_index d.round ≤ round_index (try_advance quorum roster_head d).0.round
try_advance-round-le quorum roster_head d =
    Cascade-round-le (try_advance-Cascade quorum roster_head d)

Advance-masked_inputs :
    {quorum : ℕ} {roster_head : ClientIdentity} (inputs : List (Option Bytes))
    (d d' : ExecutionState) (delivery : TransitionDelivery)
    → Advance quorum roster_head d delivery d'
    → d.masked_inputs ≡ inputs
    → d'.masked_inputs ≡ inputs
unfolding entered
Advance-masked_inputs inputs d d' delivery a h = rw a.moved h

module _ (quorum : ℕ) (roster_head : ClientIdentity) (d : ExecutionState)
    (here : d.round ≡ preprocessing) (proposed : has_quorum quorum d mpc_execution ≡ true)
    (unproposed : has_quorum quorum d input_mask_reservation ≡ false) where
  next_skips : next_quorum_round quorum d ≡ some mpc_execution
  unfolding next_quorum_round follows
  next_skips = ground arith

  unblocked : (r : Round) → next_quorum_round quorum d ≡ some r → blocking_precondition d r ≡ none
  unfolding blocking_precondition
  unblocked r found = ground (arith, next_skips)

  reaches : (r : Round) → follows d r ≡ true → has_quorum quorum d r ≡ true → 4 ≤ round_index r
  unfolding follows round_index
  reaches r f q = ground arith

  Cascade-skips :
      {d' : ExecutionState} {deliveries : List TransitionDelivery}
      → Cascade quorum roster_head d d' deliveries
      → 4 ≤ round_index d'.round
  Cascade-skips (halt e) = elim (advance_once-none quorum roster_head d e) [
    | inl stop ↦ cc (next_skips, stop)
    | inr (r, found, held) ↦ absurd (held (unblocked r found))
  ]
  Cascade-skips (turn {d' = c} {delivery = delivery} a cascade) = omega (
    arith,
    Cascade-round-le cascade,
    ap round_index (Advance-round a).0,
    reaches delivery.round a.in_order a.supported,
  )

  -- In the preprocessing round the precondition does not look at the inputs: if a quorum has
  -- proposed the computation and none the mask reservation, the cascade enters the computation,
  -- however many inputs the execution has and are missing.
  pub try_advance_skips_inputs :
      (4 ≤ round_index (try_advance quorum roster_head d).0.round)
      × ((try_advance quorum roster_head d).0.masked_inputs ≡ d.masked_inputs)
  try_advance_skips_inputs = (
    Cascade-skips (try_advance-Cascade quorum roster_head d),
    Cascade-keeps (λ c. c.masked_inputs ≡ d.masked_inputs) (Advance-masked_inputs d.masked_inputs)
        (try_advance-Cascade quorum roster_head d) refl,
  )
