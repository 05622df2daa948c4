-- ===== src/Coordinator/System/Soundness.antt =====
-- What holds of each execution between two actions.
use stoffel_mpc_coordinator.Prelude.HashMap
use stoffel_mpc_coordinator.Prelude.HashMap.{AllValues, AllValues-insert, AllValues-get, get-insert}
use stoffel_mpc_coordinator.Prelude.HashSet
use stoffel_mpc_coordinator.Prelude.HashSet.{HashSet, insert-Distinct, All-insert, length-le-insert}
use stoffel_mpc_coordinator.Prelude.{
  ℕ, ◌≡◌, refl, ◌⊎◌, inl, inr, true, List, none, arith, is_some, get_or, get_or-replicate, contains,
  Distinct, All, list_eq, nat_eq, Option-cases,
}
use stoffel_mpc_coordinator.Shared.Round.{Round, round_eq, idle, round_beq_iff}
use stoffel_mpc_coordinator.Shared.ExecutionId.{Bytes, ClientIdentity}
use stoffel_mpc_coordinator.Coordinator.Types.{Network, ExecutionRegistration}
use stoffel_mpc_coordinator.Coordinator.Execution.{ExecutionState, fresh_state}
use stoffel_mpc_coordinator.Coordinator.Execution.Rounds.{
  TransitionDelivery, has_quorum, entered, try_advance,
}
use stoffel_mpc_coordinator.Coordinator.Execution.Cascade.{
  Advance, Cascade-keeps, try_advance-Cascade,
}
use stoffel_mpc_coordinator.Coordinator.Rpc.{vote, voters_of}
use stoffel_mpc_coordinator.Coordinator.Server.{acked}
use stoffel_mpc_coordinator.Coordinator.Reserve.{reserve_mask_indices}
use stoffel_mpc_coordinator.Coordinator.Reserve.Admission.{reserve_mask_indices_atomic}
use stoffel_mpc_coordinator.Coordinator.Submit.{submit_record}
use stoffel_mpc_coordinator.Coordinator.Submit.Admission.{submit_record_atomic, submit_record_keeps}

-- Different parties of the configuration.
abbrev pub Parties : List ClientIdentity → HashSet ClientIdentity → Type 0
Parties nodes set = Distinct set × All (λ p. contains nodes p ≡ true) set

-- Votes and acknowledgements come from different configured parties, the round reached has been
-- proposed by a quorum, and only a reserved slot has an input.
pub record IsSound (nodes : List ClientIdentity) (quorum : ℕ) (d : ExecutionState) : Type 0 where
  pub voters : AllValues (Parties nodes) d.transition_votes
  pub reached : (d.round ≡ idle) ⊎ (has_quorum quorum d d.round ≡ true)
  pub acked : Parties nodes d.retirement_acks
  pub reserved :
      (j : ℕ)
      → (get_or d.masked_inputs j none ≡ none) ⊎ (is_some (get_or d.reserved_indices j none) ≡ true)

-- It depends on five fields only.
pub record SameCore (d d' : ExecutionState) : Type 0 where
  pub votes : d'.transition_votes ≡ d.transition_votes
  pub round : d'.round ≡ d.round
  pub acks : d'.retirement_acks ≡ d.retirement_acks
  pub inputs : d'.masked_inputs ≡ d.masked_inputs
  pub owners : d'.reserved_indices ≡ d.reserved_indices

module _ (nodes : List ClientIdentity) (quorum : ℕ) where
  abbrev pub Sound : ExecutionState → Type 0
  Sound = IsSound nodes quorum

  pub SameCore-Sound : (d d' : ExecutionState) → SameCore d d' → Sound d → Sound d'
  unfolding has_quorum
  SameCore-Sound d d' c v = record {
    voters = rw c.votes v.voters;
    reached = ground (arith, c, v.reached);
    acked = rw c.acks v.acked;
    reserved = λ j. rw (c.inputs, c.owners) (v.reserved j);
  }

  pub fresh_state-Sound : (registration : ExecutionRegistration) → Sound (fresh_state registration)
  unfolding fresh_state
  fresh_state-Sound registration = record {
    voters = tt;
    reached = inl refl;
    acked = (tt, tt);
    reserved = λ j. inl (get_or-replicate registration.n_inputs j none);
  }

  Advance-Sound :
      {roster_head : ClientIdentity} (d d' : ExecutionState) (delivery : TransitionDelivery)
      → Advance quorum roster_head d delivery d'
      → Sound d
      → Sound d'
  unfolding entered has_quorum
  Advance-Sound d d' delivery a v = record {
    voters = rw a.moved v.voters;
    reached = inr (ground (arith, a.supported, a.moved));
    acked = rw a.moved v.acked;
    reserved = λ j. rw a.moved (v.reserved j);
  }

  pub try_advance-Sound :
      (roster_head : ClientIdentity) (d : ExecutionState)
      → Sound d
      → Sound (try_advance quorum roster_head d).0
  try_advance-Sound roster_head d =
      Cascade-keeps Sound Advance-Sound (try_advance-Cascade quorum roster_head d)

  pub voters_of-Parties :
      (d : ExecutionState) (r : Round)
      → AllValues (Parties nodes) d.transition_votes
      → Parties nodes (voters_of d r)
  unfolding voters_of
  voters_of-Parties d r all = elim (Option-cases (HashMap.get r d.transition_votes)) [
    | inl e ↦ rw (e, voters_of) (tt, tt)
    | inr (s, e) ↦ rw (e, voters_of) (AllValues-get (Parties nodes) r d.transition_votes all e)
  ]

  pub insert-Parties :
      (self : ClientIdentity) (set : HashSet ClientIdentity)
      → contains nodes self ≡ true
      → Parties nodes set
      → Parties nodes (HashSet.insert self set)
  insert-Parties self set m (d, a) =
      (insert-Distinct self set d, All-insert (λ p. contains nodes p ≡ true) self set m a)

  -- A vote counts for its round once, and takes no vote away.
  vote-has_quorum :
      (self : ClientIdentity) (next_round r : Round) (d : ExecutionState)
      → has_quorum quorum d r ≡ true
      → has_quorum quorum (vote self next_round d) r ≡ true
  unfolding has_quorum vote voters_of
  vote-has_quorum self next_round r d h = elim (Option-cases (HashMap.get r d.transition_votes)) [
    | inl e ↦ ground arith
    | inr (s, e) ↦ ground (
      arith,
      get-insert next_round r (HashSet.insert self (voters_of d next_round)) d.transition_votes,
      length-le-insert self s,
      round_beq_iff next_round r,
    )
  ]

  pub vote-Sound :
      (self : ClientIdentity) (next_round : Round) (d : ExecutionState)
      → contains nodes self ≡ true
      → Sound d
      → Sound (vote self next_round d)
  unfolding vote
  vote-Sound self next_round d m v = record {
    voters =
        AllValues-insert (Parties nodes) next_round _ d.transition_votes
          (insert-Parties self (voters_of d next_round) m (voters_of-Parties d next_round v.voters))
          v.voters;
    reached = elim v.reached [
      | inl e ↦ inl e
      | inr h ↦ inr (vote-has_quorum self next_round d.round d h)
    ];
    acked = v.acked;
    reserved = v.reserved;
  }

  pub acked-Sound :
      (self : ClientIdentity) (d : ExecutionState)
      → contains nodes self ≡ true
      → Sound d
      → Sound (acked self d)
  unfolding acked has_quorum
  acked-Sound self d m v = record {
    voters = v.voters;
    reached = v.reached;
    acked = insert-Parties self d.retirement_acks m v.acked;
    reserved = v.reserved;
  }

  pub reserve-Sound :
      (net : Network) (self : ClientIdentity) (indices : List ℕ) (d : ExecutionState)
      → Sound d
      → Sound (reserve_mask_indices net self indices d).0
  unfolding has_quorum
  reserve-Sound net self indices d v = elim (reserve_mask_indices_atomic net self indices d) [
    | inr (n, e, same) ↦ rw same v
    | inl (a, r, owners, same) ↦ record {
      voters = rw same.same_votes v.voters;
      reached = ground (arith, same, v.reached);
      acked = rw same.same_acks v.acked;
      reserved = λ j. ground (arith, same.same_inputs, owners j, v.reserved j);
    }
  ]

  pub submit-Sound :
      (self : ClientIdentity) (inputs : List Bytes) (indices : List ℕ) (d : ExecutionState)
      → Sound d
      → Sound (submit_record self inputs indices d).0
  unfolding has_quorum
  submit-Sound self inputs indices d v = elim (submit_record_atomic self inputs indices d) [
    | inr (n, e, same) ↦ rw same v
    | inl (a, r, written, same) ↦ record {
      voters = rw same.same_votes v.voters;
      reached = ground (arith, same, v.reached);
      acked = rw same.same_acks v.acked;
      reserved = λ j.
          ground
            (arith, same.same_owners, submit_record_keeps self inputs indices d j, v.reserved j);
    }
  ]
