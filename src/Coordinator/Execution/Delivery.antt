-- ===== src/Coordinator/Execution/Delivery.antt =====
-- What a cascade of `try_advance` (crates/off-chain/src/lib.rs) tells the subscribers of rounds.
use stoffel_mpc_coordinator.Prelude.HashMap
use stoffel_mpc_coordinator.Prelude.HashMap.{get-insert, get-insert_self, get-remove}
use stoffel_mpc_coordinator.Prelude.{
  ℕ, ◌≤◌, ◌<◌, ◌≡◌, refl, sym, ◌∙◌, ap, subst, true, List, [], ◌∷◌, some, arith,
}
use stoffel_mpc_coordinator.Shared.Round.{Round, round_eq, round_index}
use stoffel_mpc_coordinator.Shared.ExecutionId.{ClientIdentity}
use stoffel_mpc_coordinator.Coordinator.Execution.{ExecutionState}
use stoffel_mpc_coordinator.Coordinator.Execution.Rounds.{
  TransitionDelivery, has_quorum, round_event, round_sinks, entered, try_advance,
}
use stoffel_mpc_coordinator.Coordinator.Execution.Cascade.{
  Advance, Advance-round, Cascade, halt, turn, try_advance-Cascade,
}

-- What is true of a round that a cascade from `d` to `d'` enters: a quorum has proposed it, its
-- event is announced to exactly the subscribers that waited for it, and is kept for later ones.
pub record Announced (quorum : ℕ) (roster_head : ClientIdentity) (d d' : ExecutionState)
    (delivery : TransitionDelivery) : Type 0 where
  pub supported : has_quorum quorum d delivery.round ≡ true
  pub event_of : round_event roster_head delivery.round ≡ some delivery.event
  pub waited : delivery.sinks ≡ round_sinks d delivery.round
  pub kept : HashMap.get delivery.round d'.trans_events ≡ some delivery.event

-- All of them, at rising positions.
abbrev pub AllAnnounced :
    ℕ → ClientIdentity → ExecutionState → ExecutionState → ℕ → List TransitionDelivery → Type 0
AllAnnounced quorum roster_head d d' index [] = Unit
AllAnnounced quorum roster_head d d' index (delivery ∷ rest) =
    (index < round_index delivery.round)
    × Announced quorum roster_head d d' delivery
    × AllAnnounced quorum roster_head d d' (round_index delivery.round) rest

-- The round of the last delivery.
abbrev pub final_round : Round → List TransitionDelivery → Round
final_round r [] = r
final_round r (delivery ∷ rest) = final_round delivery.round rest

Advance-later :
    {quorum : ℕ} {roster_head : ClientIdentity} {d d' : ExecutionState}
    {delivery : TransitionDelivery} (r : Round)
    → Advance quorum roster_head d delivery d'
    → round_index d'.round < round_index r
    → (round_sinks d' r ≡ round_sinks d r) × (has_quorum quorum d' r ≡ has_quorum quorum d r)
unfolding entered round_sinks has_quorum
Advance-later {d = d} {delivery = delivery} r a h = ground (
  arith,
  get-remove delivery.round r d.sinks,
  round_eq.beq_iff delivery.round r,
  ap round_index {x = delivery.round} {y = r},
)

Advance-earlier :
    {quorum : ℕ} {roster_head : ClientIdentity} {d d' : ExecutionState}
    {delivery : TransitionDelivery} (r : Round)
    → Advance quorum roster_head d delivery d'
    → round_index r ≤ round_index d.round
    → HashMap.get r d'.trans_events ≡ HashMap.get r d.trans_events
unfolding entered
Advance-earlier {d = d} {delivery = delivery} r a h = ground (
  arith,
  get-insert delivery.round r delivery.event d.trans_events,
  round_eq.beq_iff delivery.round r,
  Advance-round a,
)

Cascade-earlier :
    {quorum : ℕ} {roster_head : ClientIdentity} {d d' : ExecutionState}
    {deliveries : List TransitionDelivery} (r : Round)
    → Cascade quorum roster_head d d' deliveries
    → round_index r ≤ round_index d.round
    → HashMap.get r d'.trans_events ≡ HashMap.get r d.trans_events
Cascade-earlier r (halt e) h = refl
Cascade-earlier r (turn a c) h =
    Cascade-earlier r c (omega (arith, Advance-round a)) ∙ Advance-earlier r a h

-- An announcement after the first turn is one of the whole cascade.
AllAnnounced-turn :
    {quorum : ℕ} {roster_head : ClientIdentity} {d c : ExecutionState}
    {delivery : TransitionDelivery} (d' : ExecutionState) (index : ℕ)
    (rest : List TransitionDelivery)
    → Advance quorum roster_head d delivery c
    → round_index c.round ≤ index
    → AllAnnounced quorum roster_head c d' index rest
    → AllAnnounced quorum roster_head d d' index rest
AllAnnounced-turn d' index [] a h all = tt
AllAnnounced-turn d' index (next ∷ rest) a h (later, n, all) =
    let (same_sinks, same_votes) = Advance-later next.round a (omega arith) in
    (
      later,
      record {
        supported = sym same_votes ∙ n.supported;
        event_of = n.event_of;
        waited = n.waited ∙ same_sinks;
        kept = n.kept;
      },
      AllAnnounced-turn d' (round_index next.round) rest a (omega arith) all,
    )

Advance-kept :
    {quorum : ℕ} {roster_head : ClientIdentity} {d c : ExecutionState}
    {delivery : TransitionDelivery}
    → Advance quorum roster_head d delivery c
    → HashMap.get delivery.round c.trans_events ≡ some delivery.event
unfolding entered
Advance-kept {d = d} {delivery = delivery} a =
    rw a.moved (get-insert_self delivery.round delivery.event d.trans_events)

turn-announces :
    {quorum : ℕ} {roster_head : ClientIdentity} {d c d' : ExecutionState}
    {delivery : TransitionDelivery} {rest : List TransitionDelivery}
    → Advance quorum roster_head d delivery c
    → Cascade quorum roster_head c d' rest
    → AllAnnounced quorum roster_head c d' (round_index c.round) rest
    → AllAnnounced quorum roster_head d d' (round_index d.round) (delivery ∷ rest)
turn-announces {quorum} {roster_head} {c = c} {d' = d'} {delivery} {rest} a cascade all =
    let (here, later) = Advance-round a in
    (
      rw (← here) later,
      record {
        supported = a.supported;
        event_of = a.announced;
        waited = a.told;
        kept =
            Cascade-earlier delivery.round cascade (omega (arith, ap round_index here))
            ∙ Advance-kept a;
      },
      AllAnnounced-turn d' (round_index delivery.round) rest a (omega (arith, ap round_index here))
          (subst (λ r. AllAnnounced quorum roster_head c d' (round_index r) rest) here all),
    )

Cascade-announces :
    {quorum : ℕ} {roster_head : ClientIdentity} {d d' : ExecutionState}
    {deliveries : List TransitionDelivery}
    → Cascade quorum roster_head d d' deliveries
    → AllAnnounced quorum roster_head d d' (round_index d.round) deliveries
      × (d'.round ≡ final_round d.round deliveries)
Cascade-announces (halt e) = (tt, refl)
Cascade-announces (turn {rest = rest} a cascade) =
    let (all, last) = Cascade-announces cascade in
    (turn-announces a cascade all, last ∙ ap (λ r. final_round r rest) (Advance-round a).0)

-- A cascade announces, at rising positions, only rounds that a quorum has proposed; each to the
-- subscribers that waited for it, by its own event, which is kept for later subscribers; and the
-- last of them is the round reached.
pub try_advance_announces :
    (quorum : ℕ) (roster_head : ClientIdentity) (d : ExecutionState)
    → let (d', deliveries) = try_advance quorum roster_head d in
      AllAnnounced quorum roster_head d d' (round_index d.round) deliveries
      × (d'.round ≡ final_round d.round deliveries)
try_advance_announces quorum roster_head d =
    Cascade-announces (try_advance-Cascade quorum roster_head d)
