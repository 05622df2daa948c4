-- ===== src/Coordinator/Outputs/Delivery.antt =====
-- What the output shares (crates/off-chain/src/lib.rs) that a client is sent are.
use stoffel_mpc_coordinator.Prelude.HashMap
use stoffel_mpc_coordinator.Prelude.HashMap.{HashMap, HasDistinctKeys, get-insert}
use stoffel_mpc_coordinator.Prelude.{
  ℕ, ◌≤◌, ◌≡◌, ◌↔◌, refl, sym, subst, ◌∙◌, Bool, true, false, List, [], ◌∷◌, none, some, arith,
  contains, Distinct, length, is_some, nat_eq, list_eq, pair_eq, ◌==◌, Option-cases, Bool-cases,
  inl, inr, if◌then◌else◌, beq_refl,
}
use stoffel_mpc_coordinator.Shared.ExecutionId.{ClientIdentity, identity_iff}
use stoffel_mpc_coordinator.Coordinator.Types.{Network}
use stoffel_mpc_coordinator.Coordinator.Execution.{ExecutionState}
use stoffel_mpc_coordinator.Coordinator.System.{store}
use stoffel_mpc_coordinator.Coordinator.Outputs.{
  EncShares, ShareKey, shares_for, OutputDelivery, ready_output_snapshot, check_output_shares,
  with_shares,
}

-- The nodes that have sent shares for a client.
abbrev pub senders : ClientIdentity → HashMap ShareKey EncShares → List ClientIdentity
senders client [] = []
senders client (((c, node), v) ∷ shares) =
    let rest = senders client shares in if c == client then node ∷ rest else rest

senders-sent :
    (client node : ClientIdentity) (shares : HashMap ShareKey EncShares)
    → contains (senders client shares) node ≡ is_some (HashMap.get (client, node) shares)
unfolding HashMap.get
senders-sent client node [] = refl
senders-sent client node (((c, n), v) ∷ shares) =
    ground (arith, senders-sent client node shares, identity_iff c client, identity_iff n node)

senders-Distinct :
    (client : ClientIdentity) (shares : HashMap ShareKey EncShares)
    → HasDistinctKeys shares
    → Distinct (senders client shares)
senders-Distinct client [] d = tt
senders-Distinct client (((c, n), v) ∷ shares) (fresh, d) = ground (
  arith,
  senders-Distinct client shares d,
  senders-sent client n shares,
  fresh,
  identity_iff c client,
)

-- The shares of some nodes for a client, in order.
abbrev pub AreFrom :
    HashMap ShareKey EncShares → ClientIdentity → List ClientIdentity → List EncShares → Type 0
AreFrom shares client [] [] = Unit
AreFrom shares client [] (v ∷ vs) = ⊥
AreFrom shares client (node ∷ nodes) [] = ⊥
AreFrom shares client (node ∷ nodes) (v ∷ vs) =
    (HashMap.get (client, node) shares ≡ some v) × AreFrom shares client nodes vs

AreFrom-extend :
    (key : ShareKey) (w : EncShares) (shares : HashMap ShareKey EncShares) (client : ClientIdentity)
    (nodes : List ClientIdentity) (vs : List EncShares)
    → HashMap.get key shares ≡ none
    → AreFrom shares client nodes vs
    → AreFrom ((key, w) ∷ shares) client nodes vs
unfolding HashMap.get
AreFrom-extend key w shares client [] [] fresh a = tt
AreFrom-extend key w shares client [] (v ∷ vs) fresh a = a
AreFrom-extend key w shares client (node ∷ nodes) [] fresh a = a
AreFrom-extend (c, n) w shares client (node ∷ nodes) (v ∷ vs) fresh (h, a) = (
  ground (arith, fresh, h, identity_iff c client, identity_iff n node),
  AreFrom-extend (c, n) w shares client nodes vs fresh a,
)

shares_for-AreFrom :
    (client : ClientIdentity) (shares : HashMap ShareKey EncShares)
    → HasDistinctKeys shares
    → AreFrom shares client (senders client shares) (shares_for client shares)
unfolding shares_for HashMap.get
shares_for-AreFrom client [] d = tt
shares_for-AreFrom client (((c, n), v) ∷ shares) (fresh, d) =
    let later =
      AreFrom-extend (c, n) v shares client (senders client shares) (shares_for client shares) fresh
        (shares_for-AreFrom client shares d) in
    elim (Bool-cases (c == client)) [
      | inr e ↦ rw e later
      | inl e ↦ rw e (ground (arith, identity_iff c client, beq_refl n), later)
    ]

length-senders :
    (client : ClientIdentity) (shares : HashMap ShareKey EncShares)
    → length (senders client shares) ≡ length (shares_for client shares)
unfolding shares_for
length-senders client [] = refl
length-senders client (((c, n), v) ∷ shares) = ground (arith, length-senders client shares)

-- What a client is sent, in a state in which no key of the output shares occurs twice: it goes to
-- the client's own open subscription, and holds the shares that different nodes have sent for this
-- client, one of each node, from at least the least number of nodes that is asked for.
pub ready_output_snapshot_quorum :
    (net : Network) (client : ClientIdentity) (min_shares : ℕ) (d : ExecutionState)
    (delivery : OutputDelivery)
    → HasDistinctKeys d.output_shares
    → (ready_output_snapshot net client min_shares d).1 ≡ some delivery
    → (HashMap.get client d.output_sinks ≡ some delivery.waiter)
      × (net.is_closed delivery.waiter ≡ false)
      × ((nodes : List ClientIdentity) × Distinct nodes
          × (min_shares ≤ length nodes)
          × AreFrom d.output_shares client nodes delivery.shares)
unfolding ready_output_snapshot
ready_output_snapshot_quorum net client min_shares d delivery keys h =
    elim (Option-cases (HashMap.get client d.output_sinks)) [
      | inl e ↦ absurd (ground arith)
      | inr (waiter, e) ↦
          let held : delivery.shares ≡ shares_for client d.output_shares = ground arith in
          (
            ground arith,
            ground arith,
            (
              senders client d.output_shares,
              senders-Distinct client d.output_shares keys,
              ground (arith, length-senders client d.output_shares),
              rw held (shares_for-AreFrom client d.output_shares keys),
            ),
          )
    ]

key_iff : (a b : ShareKey) → ((a == b) ≡ true) ↔ (a ≡ b)
key_iff a b = pair_eq.beq_iff a b

flipped : (a b : ShareKey) → (a == b) ≡ false → (b == a) ≡ false
flipped a b ne = elim (Bool-cases (b == a)) [
  | inr f ↦ f
  | inl f ↦ cc (ne, (key_iff a b).1 (sym ((key_iff b a).0 f)))
]

absent :
    (key j : ShareKey) (v : EncShares) (rest : HashMap ShareKey EncShares)
    → (j == key) ≡ false
    → HashMap.get j rest ≡ none
    → HashMap.get j (HashMap.insert key v rest) ≡ none
absent key j v rest ne none_yet = get-insert key j v rest ∙ rw (flipped j key ne) none_yet

insert-HasDistinctKeys :
    (key : ShareKey) (v : EncShares) (shares : HashMap ShareKey EncShares)
    → HasDistinctKeys shares
    → HasDistinctKeys (HashMap.insert key v shares)
unfolding HashMap.insert
insert-HasDistinctKeys key v [] keys = (unfold HashMap.get in refl, tt)
insert-HasDistinctKeys key v ((k, w) ∷ shares) (fresh, keys) = elim (Bool-cases (k == key)) [
  | inl e ↦ rw e (subst (λ j. HashMap.get j shares ≡ none) ((key_iff k key).0 e) fresh, keys)
  | inr e ↦ rw e (absent key k v shares e fresh, insert-HasDistinctKeys key v shares keys)
]

unsent :
    (is_party : Bool) (self client : ClientIdentity) (d : ExecutionState)
    → check_output_shares is_party self client d ≡ none
    → HashMap.get (client, self) d.output_shares ≡ none
unfolding check_output_shares HashMap.contains_key
unsent is_party self client d h = elim (Option-cases (HashMap.get (client, self) d.output_shares)) [
  | inl e ↦ e
  | inr (v, e) ↦ absurd (ground arith)
]

kept :
    (fresh key : ShareKey) (new v : EncShares) (shares : HashMap ShareKey EncShares)
    → HashMap.get fresh shares ≡ none
    → HashMap.get key shares ≡ some v
    → HashMap.get key (HashMap.insert fresh new shares) ≡ some v
kept fresh key new v shares n h = elim (Bool-cases (fresh == key)) [
  | inl e ↦ cc (n, h, (key_iff fresh key).0 e)
  | inr e ↦ get-insert fresh key new shares ∙ rw e h
]

-- A node's shares for a client are never replaced: whatever a node sends for whichever client, what
-- has been recorded before stays, and no key comes to occur twice.
pub store_keeps :
    (is_party : Bool) (self client : ClientIdentity) (enc_shares v : EncShares) (key : ShareKey)
    (d : ExecutionState)
    → HasDistinctKeys d.output_shares
    → HashMap.get key d.output_shares ≡ some v
    → (HashMap.get key (store self client enc_shares is_party d).output_shares ≡ some v)
      × HasDistinctKeys (store self client enc_shares is_party d).output_shares
unfolding store with_shares HashMap.contains_key
store_keeps is_party self client enc_shares v key d keys h =
    elim (Option-cases (check_output_shares is_party self client d)) [
      | inr (e, f) ↦ rw (f, store) (h, keys)
      | inl f ↦
          rw (f, store)
            (
              kept (client, self) key enc_shares v d.output_shares (unsent is_party self client d f)
                  h,
              insert-HasDistinctKeys (client, self) enc_shares d.output_shares keys,
            )
    ]
