-- ===== src/Node/Requests.antt =====
-- That a range request (crates/off-chain/src/lib.rs) waits only if it has to.
use stoffel_mpc_coordinator.Prelude.HashMap
use stoffel_mpc_coordinator.Prelude.HashMap.{HashMap, get-insert, get-remove}
use stoffel_mpc_coordinator.Prelude.{
  ℕ, ◌≡◌, refl, Bool, [], none, some, arith, nat_eq, list_eq, ok, Result-cases, Bool-cases, inl,
  inr, ◌==◌,
}
use stoffel_mpc_coordinator.Shared.ExecutionId.{ClientIdentity, identity_iff}
use stoffel_mpc_coordinator.Coordinator.Types.{Sink}
use stoffel_mpc_coordinator.Node.{
  NodeExecution, AssignedMaskRequest, assigned_mask_shares_for_client, receive_assigned_mask_shares,
}
use stoffel_mpc_coordinator.Node.Range.{}
use stoffel_mpc_coordinator.Node.Waiting.{IsSettled, removed, unready, without_sink}

without_sink-IsSettled :
    (id : ClientIdentity) (d : NodeExecution) → IsSettled d → IsSettled (without_sink id d)
without_sink-IsSettled id d v = removed id [] d (record {
  paired = v.paired;
  waiting = λ j request shares found other. v.waiting j request shares found refl;
})

pending-IsSettled :
    (id : ClientIdentity) (request : AssignedMaskRequest) (d : NodeExecution)
    → IsSettled d
    → assigned_mask_shares_for_client id request.start request.count d ≡ ok none
    → IsSettled (record d { assigned_sinks = HashMap.insert id request d.assigned_sinks })
pending-IsSettled id request d v e = record {
  paired = v.paired;
  waiting = λ j request' shares found other. elim (Bool-cases (id == j)) [
    | inr ne ↦
        v.waiting j request' shares (ground (arith, get-insert id j request d.assigned_sinks)) refl
    | inl same ↦ λ r.
        let it : request ≡ request' = ground (arith, get-insert id j request d.assigned_sinks) in
        unready id request d v.paired e shares (rw (it, (identity_iff id j).0 same) r)
  ];
}

-- If before a range request no pending request could be answered and each index with an owner has
-- its reservation, then both hold after it, whatever its range and whether or not its handshake
-- succeeds: a request is left pending only if it cannot be answered.
pub receive_assigned_mask_shares-IsSettled :
    (accepted : Bool) (id : ClientIdentity) (start count : ℕ) (sink : Sink) (d : NodeExecution)
    → IsSettled d
    → IsSettled (receive_assigned_mask_shares accepted id start count sink d).0
unfolding receive_assigned_mask_shares
receive_assigned_mask_shares-IsSettled accepted id start count sink d v =
    let calm = without_sink-IsSettled id d v in
    elim (Result-cases (assigned_mask_shares_for_client id start count (without_sink id d))) [
      | inr (x, e) ↦ rw (e, receive_assigned_mask_shares) calm
      | inl (some shares, e) ↦ rw (e, receive_assigned_mask_shares) calm
      | inl (none, e) ↦ elim (Bool-cases accepted) [
        | inr failed ↦ rw (e, receive_assigned_mask_shares) (rw failed calm)
        | inl taken ↦
            rw (e, receive_assigned_mask_shares)
              (rw taken (pending-IsSettled id _ (without_sink id d) calm e))
      ]
    ]
