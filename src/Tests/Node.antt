-- ===== src/Tests/Node.antt =====
-- The node-side RPC server of crates/off-chain/src/lib.rs on concrete data.
use stoffel_mpc_coordinator.Prelude.HashMap
use stoffel_mpc_coordinator.Prelude.{
  ◌≡◌, ◌↔◌, refl, subst, true, ltb, length, if◌then◌else◌, List, [], ◌∷◌, Option, none, some, ok,
  err, arith, nat_eq, list_eq,
}
use stoffel_mpc_coordinator.Shared.ExecutionId.{Bytes, ClientIdentity}
use stoffel_mpc_coordinator.Shared.Errors.{authentication_failed}
use stoffel_mpc_coordinator.Coordinator.Types.{AssignedMaskReservation, AssignedMaskShare}
use stoffel_mpc_coordinator.Node.{
  NodeExecution, MaskDelivery, AssignedMaskRequest, assigned_mask_share, collect,
  assigned_mask_shares_for_client, settle, touch, reserve_all, has_owner,
  add_assigned_reserved_indices, record_all, has_share, add_mask_shares,
  receive_assigned_mask_shares,
}
use stoffel_mpc_coordinator.Node.Range.{IsRange, IsPaired, assigned_mask_shares_for_client_iff}
use stoffel_mpc_coordinator.Node.Waiting.{IsSettled}
use stoffel_mpc_coordinator.Node.Served.{
  AreServed, add_assigned_reserved_indices-AreServed, add_mask_shares-AreServed,
}
use stoffel_mpc_coordinator.Node.Requests.{receive_assigned_mask_shares-IsSettled}
use stoffel_mpc_coordinator.Node.Delivery.{AreAnswers, add_assigned_reserved_indices-AreAnswers}
use stoffel_mpc_coordinator.Tests.Data.{client_x, client_y}

-- The node has three shares, and the first client waits for two of them.
abbrev waiting : NodeExecution
waiting = record {
  index_to_client = (2, client_y) ∷ [];
  assigned_reservations =
      (2, record { client = client_y; reserved_index = 2; input_ordinal = 0 }) ∷ [];
  assigned_sinks = (client_x, record { start = 0; count = 2; sink = 5 }) ∷ [];
  mask_shares = (0, 10 ∷ []) ∷ (1, 11 ∷ []) ∷ (2, 12 ∷ []) ∷ [];
}

abbrev both : List AssignedMaskReservation
both =
    record { client = client_x; reserved_index = 0; input_ordinal = 0 }
    ∷ record { client = client_x; reserved_index = 1; input_ordinal = 1 }
    ∷ []

abbrev answer : MaskDelivery
answer = record {
  sink = 5;
  shares =
      record { reserved_index = 0; share_bytes = 10 ∷ [] }
      ∷ record { reserved_index = 1; share_bytes = 11 ∷ [] }
      ∷ [];
}

reserves_both : (add_assigned_reserved_indices both waiting).1 ≡ ok (answer ∷ [])
unfolding add_assigned_reserved_indices reserve_all has_owner settle touch assigned_mask_share
    collect assigned_mask_shares_for_client HashMap.get HashMap.insert HashMap.remove
    HashMap.contains_key
reserves_both = refl

-- A client that asks for another's index gets nothing.
asks_foreign :
    assigned_mask_shares_for_client client_x 2 1 waiting ≡ err (authentication_failed client_x)
unfolding assigned_mask_shares_for_client collect HashMap.get
asks_foreign = refl

waiting-IsPaired : IsPaired waiting
unfolding HashMap.get
waiting-IsPaired i = ground arith

incomplete :
    (id : ClientIdentity) (shares : List AssignedMaskShare)
    → ¬ IsRange waiting.index_to_client waiting.mask_shares id 0 2 shares
unfolding HashMap.get
incomplete id [] r = absurd (omega (arith, r.complete))
incomplete id (share ∷ shares) r = let owner = r.each.0.owner in cc owner

waiting-IsSettled : IsSettled waiting
unfolding HashMap.get
waiting-IsSettled = record {
  paired = waiting-IsPaired;
  waiting = λ id request shares found other r.
      let it : request ≡ record { start = 0; count = 2; sink = 5 } = ground arith in
      incomplete id shares (
        subst
          (λ (q : AssignedMaskRequest).
            IsRange waiting.index_to_client waiting.mask_shares id q.start q.count shares)
          it r);
}

assigned_mask_shares_for_client_iff_example :
    (assigned_mask_shares_for_client client_x 0 2 waiting ≡ ok (some answer.shares))
    ↔ IsRange waiting.index_to_client waiting.mask_shares client_x 0 2 answer.shares
assigned_mask_shares_for_client_iff_example =
    assigned_mask_shares_for_client_iff client_x 0 2 waiting answer.shares waiting-IsPaired

add_assigned_reserved_indices-AreServed_example :
    IsSettled (add_assigned_reserved_indices both waiting).0
    × AreServed waiting (add_assigned_reserved_indices both waiting).0 (answer ∷ [])
add_assigned_reserved_indices-AreServed_example =
    add_assigned_reserved_indices-AreServed both waiting (answer ∷ []) waiting-IsSettled
      reserves_both

add_assigned_reserved_indices-AreAnswers_example :
    AreAnswers waiting (add_assigned_reserved_indices both waiting).0 (answer ∷ [])
add_assigned_reserved_indices-AreAnswers_example =
    add_assigned_reserved_indices-AreAnswers both waiting (answer ∷ []) waiting-IsSettled
      reserves_both

-- Shares are byte strings here, and those of more than three bytes cannot be serialised.
abbrev short : Bytes → Option Bytes
short bytes = if ltb 3 (length bytes) then none else some bytes

-- The first client has reserved both its indices, and the share of the second is missing.
abbrev half : NodeExecution
half = record {
  index_to_client = (0, client_x) ∷ (1, client_x) ∷ [];
  assigned_reservations =
      (0, record { client = client_x; reserved_index = 0; input_ordinal = 0 })
      ∷ (1, record { client = client_x; reserved_index = 1; input_ordinal = 1 })
      ∷ [];
  assigned_sinks = (client_x, record { start = 0; count = 2; sink = 5 }) ∷ [];
  mask_shares = (0, 10 ∷ []) ∷ [];
}

half-incomplete :
    (id : ClientIdentity) (shares : List AssignedMaskShare)
    → ¬ IsRange half.index_to_client half.mask_shares id 0 2 shares
unfolding HashMap.get
half-incomplete id [] r = absurd (omega (arith, r.complete))
half-incomplete id (share ∷ []) r = absurd (omega (arith, r.complete))
half-incomplete id (share ∷ next ∷ shares) r = let bytes = r.each.1.0.bytes in cc bytes

half-IsSettled : IsSettled half
unfolding HashMap.get
half-IsSettled = record {
  paired = λ i. ground arith;
  waiting = λ id request shares found other r.
      let it : request ≡ record { start = 0; count = 2; sink = 5 } = ground arith in
      half-incomplete id shares (
        subst
          (λ (q : AssignedMaskRequest).
            IsRange half.index_to_client half.mask_shares id q.start q.count shares)
          it r);
}

shares_second : (add_mask_shares short ((1, 11 ∷ []) ∷ []) half).1 ≡ ok (answer ∷ [])
unfolding add_mask_shares record_all has_share settle touch assigned_mask_share collect
    assigned_mask_shares_for_client HashMap.get HashMap.insert HashMap.remove HashMap.contains_key
shares_second = refl

add_mask_shares-AreServed_example :
    IsSettled (add_mask_shares short ((1, 11 ∷ []) ∷ []) half).0
    × AreServed half (add_mask_shares short ((1, 11 ∷ []) ∷ []) half).0 (answer ∷ [])
add_mask_shares-AreServed_example =
    add_mask_shares-AreServed short ((1, 11 ∷ []) ∷ []) half (answer ∷ []) half-IsSettled
      shares_second

receive_assigned_mask_shares-IsSettled_example :
    IsSettled (receive_assigned_mask_shares true client_y 2 3 6 waiting).0
receive_assigned_mask_shares-IsSettled_example =
    receive_assigned_mask_shares-IsSettled true client_y 2 3 6 waiting waiting-IsSettled
