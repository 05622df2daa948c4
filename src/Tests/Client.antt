-- ===== src/Tests/Client.antt =====
-- A client of crates/off-chain/src/lib.rs that waits for reservations and for outputs, on concrete
-- data. A sharing recovers the first share if all agree.
use stoffel_mpc_coordinator.Prelude.{
  ℕ, ◌≡◌, refl, true, List, [], ◌∷◌, Option, none, some, list_eq, nat_eq, ok, all, ◌==◌,
  if◌then◌else◌,
}
use stoffel_mpc_coordinator.Prelude.HashMap
use stoffel_mpc_coordinator.Coordinator.Types.{Event, reserved_input_event}
use stoffel_mpc_coordinator.Coordinator.Outputs.{EncShares}
use stoffel_mpc_coordinator.Client.{execution_enc_info}
use stoffel_mpc_coordinator.Client.Waiting.{
  Reserved, wait_for_indices, indices_loop, reservation_of, extend, reserved_by, IsCollected,
  wait_for_indices-IsCollected,
}
use stoffel_mpc_coordinator.Client.Outputs.{
  Sharing, obtain_outputs, receive_shares, reconstruct, shares_at, open_all, open_one, IsRecovered,
  obtain_outputs-IsRecovered,
}
use stoffel_mpc_coordinator.Prelude.HashMap.{HashMap}
use stoffel_mpc_coordinator.Prelude.{◌-◌, get_elem?, err}
use stoffel_mpc_coordinator.Shared.ExecutionId.{ClientIdentity}
use stoffel_mpc_coordinator.Coordinator.Types.{masked_input_event}
use stoffel_mpc_coordinator.Client.Sorting.{sort_by_key, sort_onto, insert_by_key}
use stoffel_mpc_coordinator.Client.Inputs.{
  Masking, wait_for_inputs, inputs_loop, masked_inputs_of, input_shares, input_share, push_all,
  entries_of, in_order, panicked,
}
use stoffel_mpc_coordinator.Client.Inputs.Order.{IsInOrder, wait_for_inputs-IsInOrder}
use stoffel_mpc_coordinator.Prelude.{arith, sym}
use stoffel_mpc_coordinator.Client.Sending.{
  Sealing, IsKeyPair, encryption_key, seal_shares, open_one-seal_shares,
}
use stoffel_mpc_coordinator.Tests.Data.{job, client_x, client_y}

abbrev reservations : List (Option Event)
reservations =
    some (reserved_input_event client_x (0 ∷ 1 ∷ []))
    ∷ some (reserved_input_event client_y (2 ∷ []))
    ∷ some (reserved_input_event client_x (5 ∷ []))
    ∷ []

-- Three indices are enough, so the last message is not read.
abbrev found : Reserved
found = (client_x, 0 ∷ 1 ∷ []) ∷ (client_y, 2 ∷ []) ∷ []

waited : wait_for_indices 3 reservations ≡ ok found
unfolding wait_for_indices indices_loop reservation_of extend reserved_by HashMap.get HashMap.insert
waited = refl

wait_for_indices-IsCollected_example : IsCollected 3 0 [] found reservations
wait_for_indices-IsCollected_example = wait_for_indices-IsCollected 3 reservations found waited

abbrev agreeing : List ℕ → Option ℕ
agreeing [] = none
agreeing (x ∷ xs) = if all (λ y. y == x) xs then some x else none

abbrev plain : Sharing ℕ ℕ
plain = record {
  is_encapped_key = λ key. true;
  open_sealed = λ key info ciphertext. some ciphertext;
  parse_shares = λ bytes. some bytes;
  recover_secret = agreeing;
  min_shares = 2;
}

-- One node sends too few shares in the second message; in the first the nodes disagree.
abbrev messages : List (Option (List EncShares))
messages =
    some (([], 4 ∷ 5 ∷ []) ∷ ([], 4 ∷ 6 ∷ []) ∷ [])
    ∷ some (([], 4 ∷ 5 ∷ []) ∷ ([], 4 ∷ []) ∷ ([], 4 ∷ 5 ∷ []) ∷ [])
    ∷ []

obtained : obtain_outputs plain job 2 messages ≡ ok (4 ∷ 5 ∷ [])
unfolding obtain_outputs receive_shares reconstruct shares_at open_all open_one execution_enc_info
obtained = refl

obtain_outputs-IsRecovered_example : IsRecovered plain job 2 messages (4 ∷ 5 ∷ [])
obtain_outputs-IsRecovered_example =
    obtain_outputs-IsRecovered plain job 2 messages (4 ∷ 5 ∷ []) obtained

-- A masked input is its first byte, and the share of an input is the difference to the mask.
abbrev subtracting : Masking ℕ ℕ
subtracting = record {
  parse_value = λ bytes. get_elem? bytes 0;
  compute_masked_input = λ value mask. some (value - mask);
}

-- The second index of the client comes first, and another client's in between.
abbrev submissions : List (Option Event)
submissions =
    some (masked_input_event client_x ((1, 30 ∷ []) ∷ []))
    ∷ some (masked_input_event client_y ((2, 40 ∷ []) ∷ []))
    ∷ some (masked_input_event client_x ((0, 20 ∷ []) ∷ []))
    ∷ []

abbrev inputs : HashMap ClientIdentity (List ℕ)
inputs = (client_x, 19 ∷ 28 ∷ []) ∷ (client_y, 37 ∷ []) ∷ []

collected : wait_for_inputs subtracting (1 ∷ 2 ∷ 3 ∷ []) 3 submissions ≡ ok inputs
unfolding wait_for_inputs inputs_loop masked_inputs_of input_shares input_share push_all entries_of
    in_order sort_by_key sort_onto insert_by_key HashMap.get HashMap.insert
collected = refl

-- A node with one mask share only.
lacking : wait_for_inputs subtracting (1 ∷ []) 3 submissions ≡ err panicked
unfolding wait_for_inputs inputs_loop masked_inputs_of input_shares input_share push_all entries_of
    in_order sort_by_key sort_onto insert_by_key HashMap.get HashMap.insert
lacking = refl

wait_for_inputs-IsInOrder_example : IsInOrder subtracting (1 ∷ 2 ∷ 3 ∷ []) 3 submissions inputs
wait_for_inputs-IsInOrder_example =
    wait_for_inputs-IsInOrder subtracting (1 ∷ 2 ∷ 3 ∷ []) 3 submissions inputs collected

-- Sealing that hides nothing: the encapsulated key is the public key.
abbrev open_letter : Sealing ℕ
open_letter = record {
  is_public_key = λ key. true;
  serialize_shares = λ shares. some shares;
  seal = λ key info bytes. some (key, bytes);
}

open_letter-IsKeyPair : IsKeyPair open_letter plain client_y
open_letter-IsKeyPair = record {
  opens = λ info bytes sealed h. (refl, ground arith);
  parses = λ shares bytes h. sym h;
}

sealed_letter :
    seal_shares open_letter job (ok (some client_y)) client_x (4 ∷ 5 ∷ [])
    ≡ ok (client_y, 4 ∷ 5 ∷ [])
unfolding seal_shares encryption_key execution_enc_info
sealed_letter = refl

session_key : encryption_key (ok (some client_y)) client_x ≡ client_y
unfolding encryption_key
session_key = refl

open_one-seal_shares_example : open_one plain job 2 (client_y, 4 ∷ 5 ∷ []) ≡ ok (4 ∷ 5 ∷ [])
open_one-seal_shares_example =
    open_one-seal_shares open_letter plain job 2 (ok (some client_y)) client_x client_y (4 ∷ 5 ∷ [])
      (client_y, 4 ∷ 5 ∷ []) open_letter-IsKeyPair session_key sealed_letter
