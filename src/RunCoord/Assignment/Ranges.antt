-- ===== src/RunCoord/Assignment/Ranges.antt =====
-- What `build_input_assignment` of crates/bins/src/bin/run-coord.rs returns.
use stoffel_mpc_coordinator.Prelude.HashSet
use stoffel_mpc_coordinator.Prelude.HashSet.{Distinct-snoc, contains-insert, contains-append}
use stoffel_mpc_coordinator.Prelude.{
  ℕ, suc, zero, ◌+◌, ◌<◌, ◌≡◌, refl, sym, ap, ◌∙◌, subst, true, false, List, [], ◌∷◌, ◌++◌, ltb,
  ◌==◌, nat_eq, list_eq, length, length-append, map, range, contains, All, All-append, All-imp,
  Distinct, arith, ok, Bool-cases, Result-cases, inl, inr, beq_refl, Eq-cases,
}
use stoffel_mpc_coordinator.Shared.ExecutionId.{ClientIdentity}
use stoffel_mpc_coordinator.Coordinator.Types.{InputAssignment}
use stoffel_mpc_coordinator.RunCoord.Assignment.{
  ClientIoSchema, BoundClient, Progress, slots_of, bind_clients, assign_client, assign_clients,
  with_client, with_range, no_progress, build_input_assignment,
}

abbrev AllSeen : List ClientIdentity → List ClientIdentity → Type 0
AllSeen seen clients = All (λ c. contains seen c ≡ true) clients

pub record IsAssigned (p : Progress) : Type 0 where
  pub clients_seen : AllSeen p.seen_clients p.clients
  pub outputs_seen : AllSeen p.seen_clients p.output_clients
  pub distinct : Distinct p.clients
  pub outputs_distinct : Distinct p.output_clients
  pub indices : map (λ r. r.client_index) p.ranges ≡ range 0 (length p.clients)
  pub counts : All (λ r. 0 < r.count) p.ranges

map-append {ℓ κ} :
    {A : Type ℓ} {B : Type κ} (f : A → B) (xs ys : List A) → map f (xs ++ ys) ≡ map f xs ++ map f ys
map-append f [] ys = refl
map-append f (x ∷ xs) ys = ap (λ l. f x ∷ l) (map-append f xs ys)

range-suc : (start n : ℕ) → range start (suc n) ≡ range start n ++ (start + n) ∷ []
range-suc start zero = ap (λ i. i ∷ []) (omega arith)
range-suc start (suc n) =
    let shift : suc start + n ≡ start + suc n = omega arith in
    ap (λ l. start ∷ l) (range-suc (suc start) n ∙ ap (λ i. range (suc start) n ++ i ∷ []) shift)

range_zero-suc : (n : ℕ) → range 0 (suc n) ≡ range 0 n ++ n ∷ []
range_zero-suc n =
    let same : 0 + n ≡ n = omega arith in range-suc 0 n ∙ ap (λ i. range 0 n ++ i ∷ []) same

length-snoc {ℓ} : {A : Type ℓ} (xs : List A) (x : A) → length (xs ++ x ∷ []) ≡ suc (length xs)
length-snoc xs x = omega (arith, length-append xs (x ∷ []))

-- A client that has been seen stays seen.
AllSeen-insert :
    (c : ClientIdentity) (seen clients : List ClientIdentity)
    → AllSeen seen clients
    → AllSeen (HashSet.insert c seen) clients
AllSeen-insert c seen clients h =
    All-imp clients (λ x p. let e = contains-insert c x seen in ground arith) h

-- One that has not been seen is not among those that have.
unseen :
    (c : ClientIdentity) (seen clients : List ClientIdentity)
    → AllSeen seen clients
    → contains seen c ≡ false
    → contains clients c ≡ false
unseen c seen [] h new = refl
unseen c seen (x ∷ clients) h new = elim (Eq-cases x c) [
  | inl same ↦ absurd (ground arith)
  | inr (other, _) ↦ ground (arith, unseen c seen clients h.1 new)
]

Distinct-new :
    (c : ClientIdentity) (seen clients : List ClientIdentity)
    → AllSeen seen clients
    → contains seen c ≡ false
    → Distinct clients
    → Distinct (clients ++ c ∷ [])
Distinct-new c seen clients h new d = Distinct-snoc clients c d (unseen c seen clients h new)

with_client-IsAssigned :
    (bound : BoundClient) (p : Progress)
    → IsAssigned p
    → contains p.seen_clients bound.client ≡ false
    → IsAssigned (with_client bound p)
unfolding with_client
with_client-IsAssigned bound p v new =
    let c = bound.client in
    let seen = HashSet.insert c p.seen_clients in
    let here : contains seen c ≡ true = contains-insert c c p.seen_clients ∙ rw (beq_refl c) refl in
    let old = AllSeen-insert c p.seen_clients p.output_clients v.outputs_seen in
    let clients_seen = AllSeen-insert c p.seen_clients p.clients v.clients_seen in
    elim (Bool-cases (ltb 0 bound.output_count)) [
      | inl has ↦
          rw (has, with_client)
            record {
              clients_seen = clients_seen;
              outputs_seen = All-append _ p.output_clients (c ∷ []) old (here, tt);
              distinct = v.distinct;
              outputs_distinct =
                  Distinct-new c p.seen_clients p.output_clients v.outputs_seen new
                    v.outputs_distinct;
              indices = v.indices;
              counts = v.counts;
            }
      | inr lacks ↦
          rw (lacks, with_client)
            record {
              clients_seen = clients_seen;
              outputs_seen = old;
              distinct = v.distinct;
              outputs_distinct = v.outputs_distinct;
              indices = v.indices;
              counts = v.counts;
            }
    ]

with_range-IsAssigned :
    (bound : BoundClient) (p : Progress)
    → IsAssigned p
    → contains p.seen_clients bound.client ≡ true
    → contains p.clients bound.client ≡ false
    → 0 < bound.input_count
    → IsAssigned (with_range bound p)
unfolding with_range
with_range-IsAssigned bound p v seen new some_inputs = record {
  clients_seen = All-append _ p.clients (bound.client ∷ []) v.clients_seen (seen, tt);
  outputs_seen = v.outputs_seen;
  distinct = Distinct-snoc p.clients bound.client v.distinct new;
  outputs_distinct = v.outputs_distinct;
  indices =
      map-append (λ r. r.client_index) p.ranges _
      ∙ (ap (λ l. l ++ length p.clients ∷ []) v.indices
          ∙ (sym (range_zero-suc (length p.clients))
              ∙ ap (range 0) (sym (length-snoc p.clients bound.client))));
  counts = All-append _ p.ranges _ v.counts (some_inputs, tt);
}

assign_client-IsAssigned :
    (bound : BoundClient) (p p' : Progress)
    → IsAssigned p
    → assign_client bound p ≡ ok p'
    → IsAssigned p'
unfolding assign_client with_client
assign_client-IsAssigned bound p p' v h = elim (Bool-cases (contains p.seen_clients bound.client)) [
  | inl seen ↦ absurd (ground arith)
  | inr new ↦
      let w = with_client-IsAssigned bound p v new in
      elim (Bool-cases (bound.input_count == 0)) [
        | inl none_there ↦ let e : with_client bound p ≡ p' = ground arith in subst IsAssigned e w
        | inr inputs ↦
            let here : contains (with_client bound p).seen_clients bound.client ≡ true =
              contains-insert bound.client bound.client p.seen_clients
              ∙ rw (beq_refl bound.client) refl in
            let e : with_range bound (with_client bound p) ≡ p' = ground arith in
            subst IsAssigned e (
              with_range-IsAssigned bound (with_client bound p) w here
                (unseen bound.client p.seen_clients p.clients v.clients_seen new) (ground arith))
      ]
]

assign_clients-IsAssigned :
    (bound : List BoundClient) (p p' : Progress)
    → IsAssigned p
    → assign_clients bound p ≡ ok p'
    → IsAssigned p'
unfolding assign_clients
assign_clients-IsAssigned [] p p' v h = let e : p ≡ p' = ground arith in subst IsAssigned e v
assign_clients-IsAssigned (b ∷ bound) p p' v h = elim (Result-cases (assign_client b p)) [
  | inr (_, failed) ↦ absurd (ground arith)
  | inl (q, went) ↦
      assign_clients-IsAssigned bound q p' (assign_client-IsAssigned b p q v went) (ground arith)
]

-- If the manifest and the bindings make an assignment, then no client stands in it twice, nor among
-- the output clients; its ranges belong to the clients in order, one for each; and none is empty.
pub build_input_assignment-ranges :
    (manifest : List ClientIoSchema) (bindings : List (ℕ × ClientIdentity))
    (assignment : InputAssignment) (output_clients : List ClientIdentity)
    → build_input_assignment manifest bindings ≡ ok (assignment, output_clients)
    → Distinct assignment.clients
      × Distinct output_clients
      × (map (λ r. r.client_index) assignment.ranges ≡ range 0 (length assignment.clients))
      × All (λ r. 0 < r.count) assignment.ranges
unfolding build_input_assignment
build_input_assignment-ranges manifest bindings assignment output_clients h =
    elim (Result-cases (slots_of manifest [])) [
      | inr (_, e) ↦ absurd (ground arith)
      | inl (by_slot, e) ↦ elim (Result-cases (bind_clients bindings by_slot)) [
        | inr (_, e') ↦ absurd (ground arith)
        | inl (bound, e') ↦ elim (Result-cases (assign_clients bound.0 no_progress)) [
          | inr (_, e'') ↦ absurd (ground arith)
          | inl (p, e'') ↦
              let v =
                assign_clients-IsAssigned bound.0 no_progress p
                  (record {
                    clients_seen = tt;
                    outputs_seen = tt;
                    distinct = tt;
                    outputs_distinct = tt;
                    indices = refl;
                    counts = tt;
                  })
                  e'' in
              let clients : p.clients ≡ assignment.clients = ground arith in
              let ranges : p.ranges ≡ assignment.ranges = ground arith in
              let outputs : p.output_clients ≡ output_clients = ground arith in
              (
                subst Distinct clients v.distinct,
                subst Distinct outputs v.outputs_distinct,
                rw (sym clients, sym ranges) v.indices,
                subst (All (λ r. 0 < r.count)) ranges v.counts,
              )
        ]
      ]
    ]
