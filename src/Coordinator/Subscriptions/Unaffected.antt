-- ===== src/Coordinator/Subscriptions/Unaffected.antt =====
-- What leaves the subscriptions to masked inputs alone (crates/off-chain/src/lib.rs): rounds,
-- proposals and reservations.
use stoffel_mpc_coordinator.Prelude.{
  ℕ, ◌≡◌, refl, List, [], ◌∷◌, arith, nat_eq, Result-cases, inl, inr,
}
use stoffel_mpc_coordinator.Shared.Round.{Round}
use stoffel_mpc_coordinator.Shared.ExecutionId.{ClientIdentity}
use stoffel_mpc_coordinator.Coordinator.Types.{Network}
use stoffel_mpc_coordinator.Coordinator.Execution.{ExecutionState}
use stoffel_mpc_coordinator.Coordinator.Execution.Rounds.{try_advance, entered, TransitionDelivery}
use stoffel_mpc_coordinator.Coordinator.Execution.Cascade.{
  Advance, Cascade-keeps, try_advance-Cascade,
}
use stoffel_mpc_coordinator.Coordinator.Reserve.{
  reserve_mask_indices, reserve_each, reserve_one, publish_reservation, check_reserve,
}
use stoffel_mpc_coordinator.Coordinator.Submit.{}
use stoffel_mpc_coordinator.Coordinator.Rpc.{propose, vote}

-- The part of the state that the feed is about.
abbrev pub SameFeed : ExecutionState → ExecutionState → Type 0
SameFeed d d' =
    (d'.masked_input_events ≡ d.masked_input_events)
    × (d'.masked_input_sinks ≡ d.masked_input_sinks)

Advance-SameFeed :
    {quorum : ℕ} {head : ClientIdentity} (d e e' : ExecutionState) (delivery : TransitionDelivery)
    → Advance quorum head e delivery e'
    → SameFeed d e
    → SameFeed d e'
unfolding entered
Advance-SameFeed d e e' delivery a h = ground (arith, a.moved)

pub try_advance-SameFeed :
    (quorum : ℕ) (head : ClientIdentity) (d : ExecutionState)
    → SameFeed d (try_advance quorum head d).0
try_advance-SameFeed quorum head d =
    Cascade-keeps (SameFeed d) (Advance-SameFeed d) (try_advance-Cascade quorum head d) (refl, refl)

reserve_each-SameFeed :
    (id : ClientIdentity) (indices : List ℕ) (d : ExecutionState)
    → SameFeed d (reserve_each id indices d)
unfolding reserve_each reserve_one
reserve_each-SameFeed id [] d = (refl, refl)
reserve_each-SameFeed id (i ∷ indices) d = reserve_each-SameFeed id indices (reserve_one id i d)

pub reserve_mask_indices-SameFeed :
    (net : Network) (id : ClientIdentity) (indices : List ℕ) (d : ExecutionState)
    → SameFeed d (reserve_mask_indices net id indices d).0
unfolding reserve_mask_indices publish_reservation
reserve_mask_indices-SameFeed net id indices d = elim (Result-cases (check_reserve id d indices)) [
  | inr (_, e) ↦ rw (e, reserve_mask_indices) (refl, refl)
  | inl (_, e) ↦ rw (e, reserve_mask_indices) (reserve_each-SameFeed id indices d)
]

pub propose-SameFeed :
    (quorum : ℕ) (head self : ClientIdentity) (r : Round) (d : ExecutionState)
    → SameFeed d (propose quorum head self r d).0
unfolding propose vote
propose-SameFeed quorum head self r d =
    ground (arith, try_advance-SameFeed quorum head (vote self r d))
