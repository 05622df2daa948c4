-- ===== src/Tests/Subscribers.antt =====
-- Subscribers to the masked inputs of an execution (crates/off-chain/src/lib.rs) on concrete data.
use stoffel_mpc_coordinator.Prelude.{◌≡◌, refl, true, List, [], ◌∷◌, none, some, list_eq, nat_eq}
use stoffel_mpc_coordinator.Prelude.HashMap
use stoffel_mpc_coordinator.Shared.Round.{input_collection, round_index, round_before}
use stoffel_mpc_coordinator.Coordinator.Execution.Rounds.{
  try_advance, advance_loop, advance_once, next_quorum_round, follows, has_quorum,
  skips_empty_input_rounds, skips_empty_output_rounds,
}
use stoffel_mpc_coordinator.Coordinator.Submit.{
  submission, recorded, returned, submit_record, submit_finish, check_submit, check_submissions,
  check_submission, assigned_inputs, write_inputs,
}
use stoffel_mpc_coordinator.Coordinator.Subscriptions.{replay, subscribe_masked_inputs}
use stoffel_mpc_coordinator.Coordinator.Subscriptions.Feed.{
  Feed, FeedAction, begin_submit, end_submit, subscribe, begin_step, end_step, subscribe_step,
  feed_step, feed_run,
}
use stoffel_mpc_coordinator.Coordinator.Subscriptions.History.{IsFed, feed_run-IsFed}
use stoffel_mpc_coordinator.Tests.Data.{node_a, client_x, client_y, calm, execution}

-- Both clients have reserved, and nobody has subscribed.
abbrev quiet : Feed
quiet = record {
  d =
      execution input_collection (some client_x ∷ some client_x ∷ some client_y ∷ [])
        (none ∷ none ∷ none ∷ []);
  in_flight = none;
  log = λ sink. [];
  next = 0;
}

-- The second subscriber comes while the first client's submission is under way.
abbrev actions : List FeedAction
actions =
    begin_submit client_y ((4 ∷ []) ∷ []) (2 ∷ [])
    ∷ end_submit calm 2 node_a
    ∷ subscribe (λ i. true)
    ∷ begin_submit client_x ((5 ∷ []) ∷ (6 ∷ []) ∷ []) (0 ∷ 1 ∷ [])
    ∷ subscribe (λ i. true)
    ∷ end_submit calm 2 node_a
    ∷ []

both_sent : (feed_run actions quiet).log 0 ≡ (feed_run actions quiet).log 1
unfolding feed_step begin_step end_step subscribe_step subscribe_masked_inputs replay submit_record
    check_submit check_submissions check_submission recorded submission assigned_inputs write_inputs
    submit_finish returned try_advance advance_loop advance_once next_quorum_round follows
    has_quorum skips_empty_input_rounds skips_empty_output_rounds round_index round_before
    HashMap.get
both_sent = refl

feed_run-IsFed_example : IsFed (feed_run actions quiet)
feed_run-IsFed_example = feed_run-IsFed actions quiet (record {
  current = tt;
  behind = tt;
  apart = tt;
  known = tt;
  known_flying = tt;
  unused = λ sink h. refl;
})
