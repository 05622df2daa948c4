-- ===== src/Coordinator/Subscriptions/Feed.antt =====
-- The sections of the methods of crates/off-chain/src/lib.rs that touch the subscribers to the masked
-- inputs of one execution, as actions that come in any order. A submission takes the subscribers away
-- while it sends to them, and gives up the lock on the state.
use stoffel_mpc_coordinator.Prelude.{
  ℕ, suc, Bool, ◌&&◌, List, [], ◌∷◌, ◌++◌, Option, none, some, contains, nat_eq, ◌==◌, ok, err,
  if◌then◌else◌,
}
use stoffel_mpc_coordinator.Shared.Round.{Round}
use stoffel_mpc_coordinator.Shared.ExecutionId.{Bytes, ClientIdentity}
use stoffel_mpc_coordinator.Coordinator.Types.{Sink, Event, Network, RpcResult}
use stoffel_mpc_coordinator.Coordinator.Execution.{ExecutionState}
use stoffel_mpc_coordinator.Coordinator.Reserve.{reserve_mask_indices}
use stoffel_mpc_coordinator.Coordinator.Submit.{Submission, submit_record, submit_finish}
use stoffel_mpc_coordinator.Coordinator.Rpc.{propose}
use stoffel_mpc_coordinator.Coordinator.Subscriptions.{subscribe_masked_inputs}

-- An execution with the submission under way, what each subscriber has been sent and taken so far,
-- and the number of the next subscription.
pub record Feed : Type 0 where
  pub d : ExecutionState
  pub in_flight : Option Submission
  pub log : Sink → List Event
  pub next : Sink

pub data FeedAction : Type 0 where
  begin_submit : ClientIdentity → List Bytes → List ℕ → FeedAction
  end_submit : Network → ℕ → ClientIdentity → FeedAction
  subscribe : (ℕ → Bool) → FeedAction
  reserve : Network → ClientIdentity → List ℕ → FeedAction
  propose_round : ℕ → ClientIdentity → ClientIdentity → Round → FeedAction

abbrev pub begun : ExecutionState × RpcResult Submission → Feed → Feed
begun (_, err _) f = f
begun (d', ok s) f = record f { d = d'; in_flight = some s }

-- A submission waits for the one under way.
unfoldable pub begin_step : ClientIdentity → List Bytes → List ℕ → Feed → Feed
begin_step id inputs indices f = elim f.in_flight [
  | some _ ↦ f
  | none ↦ begun (submit_record id inputs indices f.d) f
]

unfoldable pub end_step : Network → ℕ → ClientIdentity → Feed → Feed
end_step net quorum head f = elim f.in_flight [
  | none ↦ f
  | some s ↦ record f {
    d = (submit_finish net quorum head s f.d).0;
    in_flight = none;
    log = λ sink.
        if contains s.sinks sink && net.sent sink then f.log sink ++ s.event ∷ [] else f.log sink;
  }
]

unfoldable pub subscribe_step : (ℕ → Bool) → Feed → Feed
subscribe_step taken f =
    let (d', messages) = subscribe_masked_inputs taken f.next f.d in
    record f {
      d = d';
      log = λ sink. if sink == f.next then f.log sink ++ messages else f.log sink;
      next = suc f.next;
    }

unfoldable pub feed_step : FeedAction → Feed → Feed
feed_step (begin_submit id inputs indices) f = begin_step id inputs indices f
feed_step (end_submit net quorum head) f = end_step net quorum head f
feed_step (subscribe taken) f = subscribe_step taken f
feed_step (reserve net id indices) f = record f { d = (reserve_mask_indices net id indices f.d).0 }
feed_step (propose_round quorum head self r) f = record f { d = (propose quorum head self r f.d).0 }

abbrev pub feed_run : List FeedAction → Feed → Feed
feed_run [] f = f
feed_run (a ∷ actions) f = feed_run actions (feed_step a f)
