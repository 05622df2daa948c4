-- ===== src/Client/Waiting.antt =====
-- `wait_for_indices` and `wait_for_round` of crates/off-chain/src/lib.rs.
use mathlib.Core.List.{append_assoc}
use stoffel_mpc_coordinator.Prelude.HashMap
use stoffel_mpc_coordinator.Prelude.HashMap.{HashMap, get-insert}
use stoffel_mpc_coordinator.Prelude.{
  ℕ, suc, ◌≡◌, refl, sym, ap, ◌∙◌, false, List, [], ◌∷◌, ◌++◌, Option, none, some, ltb, ◌==◌,
  nat_eq, list_eq, length, take, u64_add, Result, ok, err, if◌then◌else◌, arith, Option-cases,
  Bool-cases, Eq-cases, inl, inr,
}
use stoffel_mpc_coordinator.Shared.ExecutionId.{ClientIdentity}
use stoffel_mpc_coordinator.Shared.Errors.{CoordinatorError, json_error, rpc_failure}
use stoffel_mpc_coordinator.Coordinator.Types.{Event, reserved_input_event}

abbrev pub Reserved : Type 0
Reserved = HashMap ClientIdentity (List ℕ)

-- The pattern of the loop: a reservation, and nothing for anything else.
unfoldable pub reservation_of : Option Event → Option (ClientIdentity × List ℕ)
reservation_of none = none
reservation_of (some event) = elim event [
  | reserved_input_event client indices ↦ some (client, indices)
  | _ ↦ none
]

-- `map.entry(client).or_default()`, read.
unfoldable pub reserved_by : ClientIdentity → Reserved → List ℕ
reserved_by client found = elim (HashMap.get client found) [ none ↦ [] | some indices ↦ indices ]

unfoldable pub extend : ClientIdentity → List ℕ → Reserved → Reserved
unfolding reserved_by
extend client indices found = HashMap.insert client (reserved_by client found ++ indices) found

-- The loop, with the number of indices received so far.
unfoldable pub indices_loop :
    ℕ → ℕ → Reserved → List (Option Event) → Result CoordinatorError Reserved
indices_loop n received found [] = if ltb received n then err (json_error rpc_failure) else ok found
indices_loop n received found (message ∷ stream) =
    if ltb received n
    then elim (reservation_of message) [
      | none ↦ err (json_error rpc_failure)
      | some (client, indices) ↦
          indices_loop n (u64_add received (length indices)) (extend client indices found) stream
    ]
    else ok found

unfoldable pub wait_for_indices : ℕ → List (Option Event) → Result CoordinatorError Reserved
unfolding indices_loop
wait_for_indices n_inputs stream = indices_loop n_inputs 0 [] stream

unfoldable pub wait_for_round : List (Option Event) → Result CoordinatorError (Unit {0})
wait_for_round [] = err (json_error rpc_failure)
wait_for_round (none ∷ stream) = err (json_error rpc_failure)
wait_for_round (some event ∷ stream) = ok tt

-- The indices that the messages say a client has reserved, in order.
abbrev pub told_of : ClientIdentity → List (Option Event) → List ℕ
told_of client [] = []
told_of client (message ∷ stream) =
    let rest = told_of client stream in
    elim (reservation_of message) [
      | none ↦ rest
      | some (who, indices) ↦ if who == client then indices ++ rest else rest
    ]

-- The count of the loop after some messages.
abbrev pub counted : ℕ → List (Option Event) → ℕ
counted received [] = received
counted received (message ∷ stream) = elim (reservation_of message) [
  | none ↦ counted received stream
  | some (who, indices) ↦ counted (u64_add received (length indices)) stream
]

reserved_by-extend :
    (who client : ClientIdentity) (indices : List ℕ) (found : Reserved)
    → reserved_by client (extend who indices found)
      ≡ (if who == client then reserved_by client found ++ indices else reserved_by client found)
unfolding reserved_by extend
reserved_by-extend who client indices found = elim (Eq-cases who client) [
  | inl same ↦ ground (arith, get-insert who client (reserved_by who found ++ indices) found)
  | inr (other, _) ↦ ground (arith, get-insert who client (reserved_by who found ++ indices) found)
]

-- The indices that are found come from a first part of the messages that is long enough.
pub record IsCollected (n received : ℕ) (found result : Reserved) (stream : List (Option Event))
    : Type 0 where
  pub used : ℕ
  pub enough : ltb (counted received (take used stream)) n ≡ false
  pub each :
      (client : ClientIdentity)
      → reserved_by client result ≡ reserved_by client found ++ told_of client (take used stream)

collected-append :
    (client who : ClientIdentity) (indices rest : List ℕ) (found : Reserved)
    → reserved_by client (extend who indices found) ++ rest
      ≡ reserved_by client found ++ (if who == client then indices ++ rest else rest)
collected-append client who indices rest found = elim (Bool-cases (who == client)) [
  | inl same ↦
      rw (reserved_by-extend who client indices found)
        (rw same (append_assoc (reserved_by client found) indices rest))
  | inr other ↦ rw (reserved_by-extend who client indices found) (rw other refl)
]

append-nil : (xs : List ℕ) → xs ≡ xs ++ []
append-nil [] = refl
append-nil (x ∷ xs) = ap (λ l. x ∷ l) (append-nil xs)

one_more-IsCollected :
    (n received : ℕ) (found result : Reserved) (message : Option Event)
    (stream : List (Option Event)) (who : ClientIdentity) (indices : List ℕ)
    → reservation_of message ≡ some (who, indices)
    → IsCollected n (u64_add received (length indices)) (extend who indices found) result stream
    → IsCollected n received found result (message ∷ stream)
one_more-IsCollected n received found result message stream who indices e later = record {
  used = suc later.used;
  enough = rw (e, counted) later.enough;
  each = λ client.
      later.each client
      ∙ (collected-append client who indices (told_of client (take later.used stream)) found
          ∙ (rw (e, told_of) refl));
}

indices_loop-IsCollected :
    (n received : ℕ) (found result : Reserved) (stream : List (Option Event))
    → indices_loop n received found stream ≡ ok result
    → IsCollected n received found result stream
unfolding indices_loop
indices_loop-IsCollected n received found result [] h = elim (Bool-cases (ltb received n)) [
  | inl few ↦ absurd (ground arith)
  | inr enough ↦
      let same : found ≡ result = ground arith in
      record {
        used = 0;
        enough = enough;
        each = λ client. ap (reserved_by client) (sym same) ∙ append-nil (reserved_by client found);
      }
]
indices_loop-IsCollected n received found result (message ∷ stream) h =
    elim (Bool-cases (ltb received n)) [
      | inr enough ↦
          let same : found ≡ result = ground arith in
          record {
            used = 0;
            enough = enough;
            each = λ client.
                ap (reserved_by client) (sym same) ∙ append-nil (reserved_by client found);
          }
      | inl few ↦ elim (Option-cases (reservation_of message)) [
        | inl other ↦ absurd (ground arith)
        | inr ((who, indices), e) ↦
            let later =
              indices_loop-IsCollected n (u64_add received (length indices))
                (extend who indices found) result stream (ground arith) in
            one_more-IsCollected n received found result message stream who indices e later
      ]
    ]

-- If a node gets the indices that it waits for, then it has read a first part of the messages, which
-- by a count of 64 bits names at least as many indices as it asked for, and has for each client exactly the indices that
-- these messages name for it, in their order.
pub wait_for_indices-IsCollected :
    (n_inputs : ℕ) (stream : List (Option Event)) (result : Reserved)
    → wait_for_indices n_inputs stream ≡ ok result
    → IsCollected n_inputs 0 [] result stream
unfolding wait_for_indices
wait_for_indices-IsCollected n_inputs stream result h =
    indices_loop-IsCollected n_inputs 0 [] result stream h
