-- ===== src/Client/Inputs/Order.antt =====
-- That `wait_for_inputs` of crates/off-chain/src/lib.rs gives each client's inputs in the order of their
-- indices.
use mathlib.Core.List.{append_assoc}
use stoffel_mpc_coordinator.Prelude.HashMap
use stoffel_mpc_coordinator.Prelude.HashMap.{HashMap, get-insert}
use stoffel_mpc_coordinator.Prelude.{
  ℕ, suc, ◌≡◌, refl, sym, ap, ◌∙◌, true, false, List, [], ◌∷◌, ◌++◌, Option, none, some, ltb, ◌==◌,
  nat_eq, list_eq, length, map, take, u64_add, ok, err, if◌then◌else◌, arith, Option-cases,
  Result-cases, Bool-cases, Eq-cases, inl, inr,
}
use stoffel_mpc_coordinator.Shared.ExecutionId.{Bytes, ClientIdentity, identity_iff}
use stoffel_mpc_coordinator.Shared.Errors.{}
use stoffel_mpc_coordinator.Coordinator.Types.{Event}
use stoffel_mpc_coordinator.Client.Sorting.{
  sort_by_key, sort_by_key-IsSorted, IsAscending, with_key, append_nil,
}
use stoffel_mpc_coordinator.Client.Inputs.{
  Masking, masked_inputs_of, Collected, entries_of, push_all, in_order, input_shares, inputs_loop,
  wait_for_inputs,
}

module _ {S V : Type 0} (masking : Masking S V) (mask_shares : List S) where
  abbrev shares_in : List (ℕ × Bytes) → List (ℕ × S)
  shares_in pairs = elim (input_shares masking mask_shares pairs) [
    | err _ ↦ []
    | ok shares ↦ shares
  ]

  -- The shares that come from the messages for a client, in the order of the messages.
  abbrev pub shares_told : ClientIdentity → List (Option Event) → List (ℕ × S)
  shares_told client [] = []
  shares_told client (message ∷ stream) =
      let rest = shares_told client stream in
      elim (masked_inputs_of message) [
        | none ↦ rest
        | some (who, pairs) ↦ if who == client then shares_in pairs ++ rest else rest
      ]

  -- The count of the loop after some messages.
  abbrev pub counted_inputs : ℕ → List (Option Event) → ℕ
  counted_inputs received [] = received
  counted_inputs received (message ∷ stream) = elim (masked_inputs_of message) [
    | none ↦ counted_inputs received stream
    | some (who, pairs) ↦ counted_inputs (u64_add received (length pairs)) stream
  ]

  entries_of-insert :
      (who client : ClientIdentity) (entries : List (ℕ × S)) (found : Collected S)
      → entries_of client (HashMap.insert who entries found)
        ≡ (if who == client then entries else entries_of client found)
  unfolding entries_of
  entries_of-insert who client entries found = ground (arith, get-insert who client entries found)

  entries_of-push_all :
      (who client : ClientIdentity) (shares rest : List (ℕ × S)) (found : Collected S)
      → entries_of client (push_all who shares found) ++ rest
        ≡ entries_of client found ++ (if who == client then shares ++ rest else rest)
  unfolding push_all
  entries_of-push_all who client [] rest found = elim (Bool-cases (who == client)) [
    | inl same ↦ rw same refl
    | inr other ↦ rw other refl
  ]
  entries_of-push_all who client (share ∷ shares) rest found =
      let found' = HashMap.insert who (entries_of who found ++ share ∷ []) found in
      let pushed = entries_of-insert who client (entries_of who found ++ share ∷ []) found in
      let later = entries_of-push_all who client shares rest found' in
      elim (Eq-cases who client) [
        | inr (other, _) ↦ rw other (later ∙ (rw pushed (rw other refl)))
        | inl same ↦
            let yes_same : (who == client) ≡ true = (identity_iff who client).1 same in
            rw yes_same (
              later
              ∙ (rw pushed (
                  rw yes_same (
                    rw same
                      (append_assoc (entries_of client found) (share ∷ []) (shares ++ rest))))))
      ]

  -- The entries come from a first part of the messages that is long enough.
  record CollectedFrom (n received : ℕ) (found result : Collected S) (stream : List (Option Event))
      : Type 0 where
    pub used : ℕ
    pub enough : ltb (counted_inputs received (take used stream)) n ≡ false
    pub each :
        (client : ClientIdentity)
        → entries_of client result
          ≡ entries_of client found ++ shares_told client (take used stream)

  done-CollectedFrom :
      (n received : ℕ) (found result : Collected S) (stream : List (Option Event))
      → ltb received n ≡ false
      → found ≡ result
      → CollectedFrom n received found result stream
  done-CollectedFrom n received found result stream enough same = record {
    used = 0;
    enough = enough;
    each = λ client. ap (entries_of client) (sym same) ∙ append_nil (entries_of client found);
  }

  more-CollectedFrom :
      (n received : ℕ) (found result : Collected S) (message : Option Event)
      (stream : List (Option Event)) (who : ClientIdentity) (pairs : List (ℕ × Bytes))
      (shares : List (ℕ × S))
      → masked_inputs_of message ≡ some (who, pairs)
      → input_shares masking mask_shares pairs ≡ ok shares
      → CollectedFrom n (u64_add received (length pairs)) (push_all who shares found) result stream
      → CollectedFrom n received found result (message ∷ stream)
  more-CollectedFrom n received found result message stream who pairs shares e computed later =
      record {
        used = suc later.used;
        enough = rw (e, counted_inputs) later.enough;
        each = λ client.
            later.each client
            ∙ (entries_of-push_all who client shares (shares_told client (take later.used stream))
                  found
                ∙ (rw (e, shares_told) (rw (computed, shares_in) refl)));
      }

  inputs_loop-CollectedFrom :
      (n received : ℕ) (found result : Collected S) (stream : List (Option Event))
      → inputs_loop masking mask_shares n received found stream ≡ ok result
      → CollectedFrom n received found result stream
  unfolding inputs_loop
  inputs_loop-CollectedFrom n received found result [] h = elim (Bool-cases (ltb received n)) [
    | inl few ↦ absurd (ground arith)
    | inr enough ↦ done-CollectedFrom n received found result [] enough (ground arith)
  ]
  inputs_loop-CollectedFrom n received found result (message ∷ stream) h =
      elim (Bool-cases (ltb received n)) [
        | inr enough ↦
            done-CollectedFrom n received found result (message ∷ stream) enough (ground arith)
        | inl few ↦ elim (Option-cases (masked_inputs_of message)) [
          | inl other ↦ absurd (ground arith)
          | inr ((who, pairs), e) ↦ elim (Result-cases (input_shares masking mask_shares pairs)) [
            | inr (_, failure) ↦ absurd (ground arith)
            | inl (shares, computed) ↦
                let later =
                  inputs_loop-CollectedFrom n (u64_add received (length pairs))
                    (push_all who shares found) result stream (ground arith) in
                more-CollectedFrom n received found result message stream who pairs shares e
                  computed later
          ]
        ]
      ]

  -- A client's inputs in the result.
  abbrev pub inputs_for : ClientIdentity → HashMap ClientIdentity (List S) → List S
  inputs_for client result = elim (HashMap.get client result) [ none ↦ [] | some inputs ↦ inputs ]

  inputs_for-in_order :
      (client : ClientIdentity) (found : Collected S)
      → inputs_for client (in_order found)
        ≡ map (λ entry. entry.1) (sort_by_key (entries_of client found))
  unfolding in_order entries_of HashMap.get sort_by_key
  inputs_for-in_order client [] = refl
  inputs_for-in_order client ((who, entries) ∷ found) = elim (Bool-cases (who == client)) [
    | inl same ↦ rw (same, inputs_for, entries_of) refl
    | inr other ↦ rw (other, inputs_for, entries_of) (inputs_for-in_order client found)
  ]

  -- For each client the inputs of a first part of the messages that is long enough, put in the order
  -- of their indices; inputs with the same index stay in the order of the messages.
  pub record IsInOrder (n_inputs : ℕ) (stream : List (Option Event))
      (result : HashMap ClientIdentity (List S)) : Type 0 where
    pub used : ℕ
    pub enough : ltb (counted_inputs 0 (take used stream)) n_inputs ≡ false
    pub indexed : ClientIdentity → List (ℕ × S)
    pub ascending : (client : ClientIdentity) → IsAscending (indexed client)
    pub told :
        (client : ClientIdentity) (i : ℕ)
        → with_key i (indexed client) ≡ with_key i (shares_told client (take used stream))
    pub each :
        (client : ClientIdentity)
        → inputs_for client result ≡ map (λ entry. entry.1) (indexed client)

  -- If a node gets the inputs that it waits for, then it has read a first part of the messages, with
  -- by a count of 64 bits at least as many inputs as it asked for, and has for each client the shares
  -- of the inputs in these messages in the order of their indices, whatever the order of the messages;
  -- shares for the same index stay in the order of the messages.
  pub wait_for_inputs-IsInOrder :
      (n_inputs : ℕ) (stream : List (Option Event)) (result : HashMap ClientIdentity (List S))
      → wait_for_inputs masking mask_shares n_inputs stream ≡ ok result
      → IsInOrder n_inputs stream result
  unfolding wait_for_inputs entries_of HashMap.get
  wait_for_inputs-IsInOrder n_inputs stream result h =
      elim (Result-cases (inputs_loop masking mask_shares n_inputs 0 [] stream)) [
        | inr (_, failure) ↦ absurd (ground arith)
        | inl (found, finished) ↦
            let c = inputs_loop-CollectedFrom n_inputs 0 [] found stream finished in
            let same : in_order found ≡ result = ground arith in
            record {
              used = c.used;
              enough = c.enough;
              indexed = λ client. sort_by_key (entries_of client found);
              ascending = λ client. (sort_by_key-IsSorted (entries_of client found)).0;
              told = λ client i.
                  (sort_by_key-IsSorted (entries_of client found)).1 i
                  ∙ ap (with_key i) (c.each client);
              each = λ client. ap (inputs_for client) (sym same) ∙ inputs_for-in_order client found;
            }
      ]
