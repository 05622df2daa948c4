-- ===== src/Coordinator/Subscriptions/History.antt =====
-- That a subscriber to the masked inputs of an execution (crates/off-chain/src/lib.rs) is sent each
-- of them once and in order.
use stoffel_mpc_coordinator.Prelude.{
  ℕ, suc, ◌≤◌, ◌<◌, ◌≡◌, refl, sym, ap, ◌∙◌, subst, Bool, true, false, ◌&&◌, List, [], ◌∷◌, ◌++◌,
  Option, none, some, arith, filter, contains, nat_eq, ◌==◌, beq_refl, beq_ne, All, All-append,
  All-imp, All-both, All-imp_filter, ◌⊎◌, Result-cases, Option-cases, Bool-cases, ok, err, inl, inr,
  if◌then◌else◌,
}
use stoffel_mpc_coordinator.Shared.ExecutionId.{Bytes, ClientIdentity}
use stoffel_mpc_coordinator.Coordinator.Types.{Sink, Event, Network, RpcError, masked_input_event}
use stoffel_mpc_coordinator.Coordinator.Execution.{ExecutionState}
use stoffel_mpc_coordinator.Coordinator.Submit.{
  Submission, submit_record, submit_finish, recorded, submission, returned, check_submit, zip,
}
use stoffel_mpc_coordinator.Coordinator.Subscriptions.{replay, subscribe_masked_inputs}
use stoffel_mpc_coordinator.Coordinator.Subscriptions.Feed.{
  Feed, FeedAction, begin_submit, end_submit, subscribe, reserve, propose_round, begun, begin_step,
  end_step, subscribe_step, feed_step, feed_run,
}
use stoffel_mpc_coordinator.Coordinator.Subscriptions.Unaffected.{
  SameFeed, try_advance-SameFeed, reserve_mask_indices-SameFeed, propose-SameFeed,
}

-- The subscribers that are with the submission under way, and what they have not been sent yet.
abbrev flying : Option Submission → List Sink
flying none = []
flying (some s) = s.sinks

abbrev unsent : Option Submission → List Event
unsent none = []
unsent (some s) = s.event ∷ []

-- Registered subscribers have been sent the whole history, and those with the submission under way
-- all but its event. Nobody is both, and no number is used before its time.
pub record IsFed (f : Feed) : Type 0 where
  pub current : All (λ sink. f.log sink ≡ f.d.masked_input_events) f.d.masked_input_sinks
  pub behind :
      All (λ sink. f.log sink ++ unsent f.in_flight ≡ f.d.masked_input_events) (flying f.in_flight)
  pub apart : All (λ sink. contains (flying f.in_flight) sink ≡ false) f.d.masked_input_sinks
  pub known : All (λ sink. sink < f.next) f.d.masked_input_sinks
  pub known_flying : All (λ sink. sink < f.next) (flying f.in_flight)
  pub unused : (sink : Sink) → f.next ≤ sink → f.log sink ≡ []

SameFeed-IsFed :
    (f : Feed) (d' : ExecutionState) → IsFed f → SameFeed f.d d' → IsFed (record f { d = d' })
SameFeed-IsFed f d' v (e, s) = record {
  current = rw (e, s) v.current;
  behind = rw e v.behind;
  apart = rw s v.apart;
  known = rw s v.known;
  known_flying = v.known_flying;
  unused = v.unused;
}

-- A submission that is recorded takes the subscribers with it.
submit_record-cases :
    (id : ClientIdentity) (inputs : List Bytes) (indices : List ℕ) (d : ExecutionState)
    → ((e : RpcError) × (submit_record id inputs indices d ≡ (d, err e)))
      ⊎ (submit_record id inputs indices d
          ≡ (recorded id (zip indices inputs) d, ok (submission id (zip indices inputs) d)))
unfolding submit_record
submit_record-cases id inputs indices d = elim (Result-cases (check_submit id inputs indices d)) [
  | inr (e, refused) ↦ inl (e, rw (refused, submit_record) refl)
  | inl (_, passed) ↦ inr (rw (passed, submit_record) refl)
]

begin_step-IsFed :
    (id : ClientIdentity) (inputs : List Bytes) (indices : List ℕ) (f : Feed)
    → IsFed f
    → IsFed (begin_step id inputs indices f)
unfolding begin_step recorded submission
begin_step-IsFed id inputs indices f v = elim (Option-cases f.in_flight) [
  | inr (s, busy) ↦ rw (busy, begin_step) v
  | inl idle ↦ elim (submit_record-cases id inputs indices f.d) [
    | inl (e, refused) ↦ rw (idle, begin_step) (subst (λ r. IsFed (begun r f)) (sym refused) v)
    | inr passed ↦
        rw (idle, begin_step)
          (subst (λ r. IsFed (begun r f)) (sym passed)
            record {
              current = tt;
              behind =
                  All-imp f.d.masked_input_sinks
                    (λ sink same.
                      ap (λ l. l ++ masked_input_event id (zip indices inputs) ∷ []) same)
                    v.current;
              apart = tt;
              known = tt;
              known_flying = v.known;
              unused = v.unused;
            })
  ]
]

not_flying :
    (sinks : List Sink) (next sink : Sink)
    → All (λ x. x < next) sinks
    → next ≤ sink
    → contains sinks sink ≡ false
not_flying [] next sink h le = refl
not_flying (x ∷ sinks) next sink h le = ground (arith, not_flying sinks next sink h.1, h.0)

members : (xs : List Sink) → All (λ x. contains xs x ≡ true) xs
members [] = tt
members (x ∷ xs) = (ground (arith, beq_refl x), All-imp xs (λ y p. ground (arith, p)) (members xs))

-- The feed when the subscribers are back and before rounds are tried.
abbrev landed : Network → Submission → Feed → Feed
landed net s f = record f {
  d = returned net s f.d;
  in_flight = none;
  log = λ sink.
      if contains s.sinks sink && net.sent sink then f.log sink ++ s.event ∷ [] else f.log sink;
}

landed-IsFed :
    (net : Network) (s : Submission) (f : Feed)
    → f.in_flight ≡ some s
    → IsFed f
    → IsFed (landed net s f)
unfolding returned
landed-IsFed net s f busy v =
    let behind : All (λ sink. f.log sink ++ s.event ∷ [] ≡ f.d.masked_input_events) s.sinks =
      subst (λ o. All (λ sink. f.log sink ++ unsent o ≡ f.d.masked_input_events) (flying o)) busy
        v.behind in
    let apart : All (λ sink. contains s.sinks sink ≡ false) f.d.masked_input_sinks =
      subst (λ o. All (λ sink. contains (flying o) sink ≡ false) f.d.masked_input_sinks) busy
        v.apart in
    let known_flying : All (λ sink. sink < f.next) s.sinks =
      subst (λ o. All (λ sink. sink < f.next) (flying o)) busy v.known_flying in
    let stayed = f.d.masked_input_sinks in
    record {
      current =
          All-append _ stayed (filter net.sent s.sinks)
            (All-imp stayed (λ sink p. rw p.1 p.0) (All-both _ _ stayed v.current apart))
            (All-imp_filter net.sent s.sinks (λ sink took p. rw (p.1, took) p.0)
              (All-both _ _ s.sinks behind (members s.sinks)));
      behind = tt;
      apart =
          All-append _ stayed (filter net.sent s.sinks) (All-imp stayed (λ sink p. refl) v.known)
            (All-imp_filter net.sent s.sinks (λ sink took p. refl) known_flying);
      known =
          All-append _ stayed (filter net.sent s.sinks) v.known
            (All-imp_filter net.sent s.sinks (λ sink took p. p) known_flying);
      known_flying = tt;
      unused = λ sink h. rw (not_flying s.sinks f.next sink known_flying h) (v.unused sink h);
    }

end_step-IsFed :
    (net : Network) (quorum : ℕ) (head : ClientIdentity) (f : Feed)
    → IsFed f
    → IsFed (end_step net quorum head f)
unfolding end_step submit_finish
end_step-IsFed net quorum head f v = elim (Option-cases f.in_flight) [
  | inl idle ↦ rw (idle, end_step) v
  | inr (s, busy) ↦
      rw (busy, end_step)
        (SameFeed-IsFed (landed net s f) _ (landed-IsFed net s f busy v)
          (try_advance-SameFeed quorum head (returned net s f.d)))
]

replay-done {ℓ} :
    {E : Type ℓ} (taken : ℕ → Bool) (i : ℕ) (events : List E)
    → (replay taken i events).1 ≡ true
    → (replay taken i events).0 ≡ events
unfolding replay
replay-done taken i [] h = refl
replay-done taken i (e ∷ events) h = ground (arith, replay-done taken (suc i) events)

subscribe_step-IsFed : (taken : ℕ → Bool) (f : Feed) → IsFed f → IsFed (subscribe_step taken f)
unfolding subscribe_step subscribe_masked_inputs
subscribe_step-IsFed taken f v =
    let (messages, done) = replay taken 0 f.d.masked_input_events in
    let log : Sink → List Event =
      λ sink. if sink == f.next then f.log sink ++ messages else f.log sink in
    let older : (sink : Sink) → sink < f.next → log sink ≡ f.log sink =
      λ sink h. rw (beq_ne sink f.next (λ e. omega (arith, h, e))) refl in
    let later : (sinks : List Sink)
        → All (λ x. x < f.next) sinks
        → All (λ x. x < suc f.next) sinks =
      λ sinks h. All-imp sinks (λ x p. omega (arith, p)) h in
    let unused : (sink : Sink) → suc f.next ≤ sink → log sink ≡ [] = λ sink h.
      rw (beq_ne sink f.next (λ e. omega (arith, h, e))) (v.unused sink (omega (arith, h))) in
    let sinks = f.d.masked_input_sinks in
    let current : All (λ sink. log sink ≡ f.d.masked_input_events) sinks =
      All-imp sinks (λ sink p. older sink p.1 ∙ p.0) (All-both _ _ sinks v.current v.known) in
    let behind : All (λ sink. log sink ++ unsent f.in_flight ≡ f.d.masked_input_events)
        (flying f.in_flight) =
      All-imp (flying f.in_flight)
        (λ sink p. ap (λ l. l ++ unsent f.in_flight) (older sink p.1) ∙ p.0)
        (All-both _ _ (flying f.in_flight) v.behind v.known_flying) in
    elim (Bool-cases done) [
      | inr broken ↦
          rw (broken, subscribe_step)
            record {
              current = current;
              behind = behind;
              apart = v.apart;
              known = later sinks v.known;
              known_flying = later (flying f.in_flight) v.known_flying;
              unused = unused;
            }
      | inl whole ↦
          let new : log f.next ≡ f.d.masked_input_events = rw (beq_refl f.next) (
            rw (v.unused f.next (omega arith))
              (replay-done taken 0 f.d.masked_input_events whole)) in
          rw (whole, subscribe_step)
            record {
              current = All-append _ sinks (f.next ∷ []) current (new, tt);
              behind = behind;
              apart =
                  All-append _ sinks (f.next ∷ []) v.apart (
                    not_flying (flying f.in_flight) f.next f.next v.known_flying (omega arith),
                    tt,
                  );
              known = All-append _ sinks (f.next ∷ []) (later sinks v.known) (omega arith, tt);
              known_flying = later (flying f.in_flight) v.known_flying;
              unused = unused;
            }
    ]

feed_step-IsFed : (a : FeedAction) (f : Feed) → IsFed f → IsFed (feed_step a f)
unfolding feed_step
feed_step-IsFed (begin_submit id inputs indices) f v = begin_step-IsFed id inputs indices f v
feed_step-IsFed (end_submit net quorum head) f v = end_step-IsFed net quorum head f v
feed_step-IsFed (subscribe taken) f v = subscribe_step-IsFed taken f v
feed_step-IsFed (reserve net id indices) f v =
    SameFeed-IsFed f _ v (reserve_mask_indices-SameFeed net id indices f.d)
feed_step-IsFed (propose_round quorum head self r) f v =
    SameFeed-IsFed f _ v (propose-SameFeed quorum head self r f.d)

-- If registered subscribers have been sent every masked input once and in order, and those with a
-- submission under way all but its own, nobody being both, then this holds after any submissions,
-- subscriptions, reservations and proposals, in any order, whoever fails to take a message.
pub feed_run-IsFed : (actions : List FeedAction) (f : Feed) → IsFed f → IsFed (feed_run actions f)
feed_run-IsFed [] f v = v
feed_run-IsFed (a ∷ actions) f v = feed_run-IsFed actions (feed_step a f) (feed_step-IsFed a f v)
