-- ===== src/RunCoord/Assignment.antt =====
-- `build_input_assignment` of crates/bins/src/bin/run-coord.rs: the manifest of a program's client
-- slots and the identities bound to them make the input assignment of the execution.
pub mod Ranges
use stoffel_mpc_coordinator.Prelude.HashMap
use stoffel_mpc_coordinator.Prelude.HashMap.{HashMap}
use stoffel_mpc_coordinator.Prelude.HashSet
use stoffel_mpc_coordinator.Prelude.HashSet.{
  HashSet, Distinct-snoc, contains-insert, contains-append,
}
use stoffel_mpc_coordinator.Prelude.{
  ℕ, suc, ◌+◌, ◌≤◌, ◌<◌, ◌^◌, ◌≡◌, refl, sym, ◌∙◌, subst, Bool, true, false, not, ◌||◌, List, [],
  ◌∷◌, ◌++◌, Option, none, some, ltb, leb, ◌==◌, nat_eq, list_eq, length, length-append, is_empty,
  is_some, any, contains, All, All-append, All-imp, Distinct, arith, Result, ok, err, ok_or, ◌>>=◌,
  ◌>>◌, fail_if, if◌then◌else◌, Option-cases, Bool-cases, Result-cases, inl, inr,
}
use stoffel_mpc_coordinator.Shared.ExecutionId.{ClientIdentity, identity_iff}
use stoffel_mpc_coordinator.Coordinator.Types.{InputClientRange, InputAssignment}

-- What the function reads of a `ClientIoSchema`: the slot and the numbers of inputs and outputs.
pub record ClientIoSchema : Type 0 where
  pub client_slot : ℕ
  pub inputs : ℕ
  pub outputs : ℕ

pub data AssignmentError : Type 0 where
  duplicate_slot no_manifest_entry unbound_slots client_bound_twice too_many_clients :
      AssignmentError

-- The map from slots to schemas.
unfoldable pub slots_of :
    List ClientIoSchema
    → HashMap ℕ ClientIoSchema
    → Result AssignmentError (HashMap ℕ ClientIoSchema)
slots_of [] by_slot = ok by_slot
slots_of (schema ∷ schemas) by_slot =
    let rest = slots_of schemas (HashMap.insert schema.client_slot schema by_slot) in
    if HashMap.contains_key schema.client_slot by_slot then err duplicate_slot else rest

pub record BoundClient : Type 0 where
  pub client : ClientIdentity
  pub input_count : ℕ
  pub output_count : ℕ

-- The loop over the bindings: the clients bound, and the slots that are left.
unfoldable pub bind_clients :
    List (ℕ × ClientIdentity)
    → HashMap ℕ ClientIoSchema
    → Result AssignmentError (List BoundClient × HashMap ℕ ClientIoSchema)
bind_clients [] by_slot = ok ([], by_slot)
bind_clients ((client_slot, client) ∷ bindings) by_slot =
    let rest = bind_clients bindings (HashMap.remove client_slot by_slot) in
    elim (HashMap.get client_slot by_slot) [
      | none ↦ err no_manifest_entry
      | some schema ↦ elim rest [
        | err e ↦ err e
        | ok (bound, left) ↦ ok (
          record { client = client; input_count = schema.inputs; output_count = schema.outputs }
              ∷ bound,
          left,
        )
      ]
    ]

-- The variables of the last loop.
pub record Progress : Type 0 where
  pub seen_clients : HashSet ClientIdentity
  pub clients : List ClientIdentity
  pub ranges : List InputClientRange
  pub output_clients : List ClientIdentity

-- The client is seen, and one with outputs is noted.
unfoldable pub with_client : BoundClient → Progress → Progress
with_client bound p = record p {
  seen_clients = HashSet.insert bound.client p.seen_clients;
  output_clients =
      if ltb 0 bound.output_count then p.output_clients ++ bound.client ∷ [] else p.output_clients;
}

-- A client with inputs has its range.
unfoldable pub with_range : BoundClient → Progress → Progress
with_range bound p = record p {
  clients = p.clients ++ bound.client ∷ [];
  ranges = p.ranges ++ record { client_index = length p.clients; count = bound.input_count } ∷ [];
}

-- One turn of the loop.
unfoldable pub assign_client : BoundClient → Progress → Result AssignmentError Progress
unfolding with_client with_range
assign_client bound p = do
  fail_if (contains p.seen_clients bound.client) client_bound_twice
  if bound.input_count == 0
      then ok (with_client bound p)
      else fail_if (leb (2 ^ 32) (length p.clients)) too_many_clients
        >> ok (with_range bound (with_client bound p))

unfoldable pub assign_clients : List BoundClient → Progress → Result AssignmentError Progress
assign_clients [] p = ok p
assign_clients (bound ∷ more) p = assign_client bound p >>= λ p'. assign_clients more p'

abbrev pub no_progress : Progress
no_progress = record { seen_clients = []; clients = []; ranges = []; output_clients = [] }

unfoldable pub build_input_assignment :
    List ClientIoSchema
    → List (ℕ × ClientIdentity)
    → Result AssignmentError (InputAssignment × List ClientIdentity)
build_input_assignment manifest bindings = do
  by_slot ← slots_of manifest []
  (bound, left) ← bind_clients bindings by_slot
  fail_if (not (is_empty left)) unbound_slots
  p ← assign_clients bound no_progress
  ok (record { clients = p.clients; ranges = p.ranges }, p.output_clients)
