-- ===== src/Coordinator/Execution/Rounds.antt =====
-- The choice of the next round: `skips_empty_input_rounds`, `skips_empty_output_rounds`,
-- `blocking_precondition`, `next_quorum_round`, `transition` and `try_advance` of
-- crates/off-chain/src/lib.rs. What `try_advance` returns is what `deliver_transitions` sends.
use stoffel_mpc_coordinator.Prelude.HashMap
use stoffel_mpc_coordinator.Prelude.HashMap.{HashMap}
use stoffel_mpc_coordinator.Prelude.{
  ℕ, zero, suc, Bool, false, not, ◌&&◌, ◌||◌, List, [], ◌∷◌, Option, none, some, ltb, leb, ◌==◌,
  nat_eq, list_eq, option_eq, length, find, count_none, Result, ok, err, if◌then◌else◌,
}
use stoffel_mpc_coordinator.Shared.Round.{
  Round, round_eq, idle, preprocessing, input_mask_reservation, input_collection, mpc_execution,
  output_distribution, program_finished, round_before, round_index,
}
use stoffel_mpc_coordinator.Shared.ExecutionId.{ClientIdentity}
use stoffel_mpc_coordinator.Shared.Errors.{CoordinatorError, cannot_transition_to_idle}
use stoffel_mpc_coordinator.Coordinator.Types.{
  Event, Sink, preprocessing_started, input_mask_reservation_started, input_collection_started,
  mpc_started, output_sending_started, execution_done,
}
use stoffel_mpc_coordinator.Coordinator.Execution.{ExecutionState}

-- `ORDERED_ROUNDS`: every round except `Idle`, in protocol order.
abbrev pub ordered_rounds : List Round
ordered_rounds =
    preprocessing ∷ input_mask_reservation ∷ input_collection ∷ mpc_execution ∷ output_distribution
    ∷ program_finished ∷ []

unfoldable pub skips_empty_input_rounds : ExecutionState → Round → Bool
unfolding round_index
skips_empty_input_rounds d next_round = (d.round == preprocessing) && (next_round == mpc_execution)

unfoldable pub skips_empty_output_rounds : ExecutionState → Round → Bool
unfolding round_index
skips_empty_output_rounds d next_round =
    (d.round == mpc_execution) && (next_round == program_finished)

-- The reason is the number of masked inputs that are missing.
unfoldable pub blocking_precondition : ExecutionState → Round → Option ℕ
unfolding skips_empty_input_rounds round_index
blocking_precondition d next_round =
    if (next_round == mpc_execution) && not (skips_empty_input_rounds d next_round)
    then (let missing = count_none d.masked_inputs in if ltb 0 missing then some missing else none)
    else none

-- `transition_votes.get(&candidate).is_some_and(|voters| voters.len() >= quorum)`.
unfoldable pub has_quorum : ℕ → ExecutionState → Round → Bool
has_quorum quorum d r = elim (HashMap.get r d.transition_votes) [
  | none ↦ false
  | some voters ↦ leb quorum (length voters)
]

-- The test of the search in `next_quorum_round`.
unfoldable pub follows : ExecutionState → Round → Bool
unfolding skips_empty_input_rounds skips_empty_output_rounds round_before round_index
follows d candidate =
    (round_before candidate == some d.round)
    || skips_empty_input_rounds d candidate
    || skips_empty_output_rounds d candidate

unfoldable pub next_quorum_round : ℕ → ExecutionState → Option Round
next_quorum_round quorum d =
    find (λ candidate. follows d candidate && has_quorum quorum d candidate) ordered_rounds

-- The event that announces a round, and none for `Idle`.
unfoldable pub round_event : ClientIdentity → Round → Option Event
round_event roster_head idle = none
round_event roster_head preprocessing = some (preprocessing_started roster_head)
round_event roster_head input_mask_reservation = some input_mask_reservation_started
round_event roster_head input_collection = some input_collection_started
round_event roster_head mpc_execution = some mpc_started
round_event roster_head output_distribution = some output_sending_started
round_event roster_head program_finished = some execution_done

-- `sinks.remove(&round).unwrap_or_default()`.
unfoldable pub round_sinks : ExecutionState → Round → List Sink
round_sinks d r = elim (HashMap.get r d.sinks) [ none ↦ [] | some subscribed ↦ subscribed ]

-- The state once a round is entered.
unfoldable pub entered : Event → Round → ExecutionState → ExecutionState
entered event r d = record d {
  sinks = HashMap.remove r d.sinks;
  trans_events = HashMap.insert r event d.trans_events;
  round = r;
}

-- The private method `transition`.
unfoldable pub transition :
    Event → Round → ExecutionState → ExecutionState × Result CoordinatorError (List Sink)
unfolding round_sinks entered round_before
transition event r d = elim (round_before r) [
  | none ↦ (d, err cannot_transition_to_idle)
  | some _ ↦ (entered event r d, ok (round_sinks d r))
]

pub record TransitionDelivery : Type 0 where
  pub round : Round
  pub event : Event
  pub sinks : List Sink

-- The body of the loop in `try_advance`: `none` where the loop ends. The `expect` on `transition`
-- never fails, since only `Idle` makes it fail.
unfoldable pub advance_once :
    ℕ → ClientIdentity → ExecutionState → Option (TransitionDelivery × ExecutionState)
advance_once quorum roster_head d = elim (next_quorum_round quorum d) [
  | none ↦ none
  | some next_round ↦ elim (blocking_precondition d next_round) [
    | some _ ↦ none
    | none ↦ elim (round_event roster_head next_round) [
      | none ↦ none
      | some event ↦ elim (transition event next_round d).1 [
        | err _ ↦ none
        | ok subscribed ↦ some (
          record { round = next_round; event = event; sinks = subscribed },
          (transition event next_round d).0,
        )
      ]
    ]
  ]
]

-- The loop, with fuel.
unfoldable pub advance_loop :
    ℕ → ℕ → ClientIdentity → ExecutionState → ExecutionState × List TransitionDelivery
advance_loop zero quorum roster_head d = (d, [])
advance_loop (suc fuel) quorum roster_head d = elim (advance_once quorum roster_head d) [
  | none ↦ (d, [])
  | some (delivery, d') ↦
      let rest = advance_loop fuel quorum roster_head d' in (rest.0, delivery ∷ rest.1)
]

-- There are six rounds to enter, so seven turns of the loop are enough.
unfoldable pub try_advance :
    ℕ → ClientIdentity → ExecutionState → ExecutionState × List TransitionDelivery
unfolding advance_loop
try_advance quorum roster_head d = advance_loop 7 quorum roster_head d
