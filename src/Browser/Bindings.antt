-- ===== src/Browser/Bindings.antt =====
-- `WebauthnBindings` of crates/off-chain/src/browser_rpc.rs: the sessions, and the key to which the
-- outputs of a client are encrypted.
pub mod Targets
use stoffel_mpc_coordinator.Prelude.HashMap
use stoffel_mpc_coordinator.Prelude.HashMap.{HashMap, get-insert}
use stoffel_mpc_coordinator.Prelude.HashSet.{pigeonhole}
use stoffel_mpc_coordinator.Prelude.{
  ◌≡◌, ◌<◌, ◌∙◌, suc, ap, inl, inr, refl, true, false, List, [], ◌∷◌, Option, none, some, arith,
  ◌==◌, nat_eq, list_eq, pair_eq, length, contains, Distinct, map, if◌then◌else◌, Bool-cases, Bool,
}
use stoffel_mpc_coordinator.Shared.ExecutionId.{Bytes, ExecutionId, ClientIdentity, identity_iff}
use stoffel_mpc_coordinator.Browser.{Token, WebauthnBinding}

pub record WebauthnBindings : Type 0 where
  pub by_token : HashMap Token WebauthnBinding
  pub by_execution_and_client_identity : HashMap (ExecutionId × ClientIdentity) WebauthnBinding

abbrev pub no_bindings : WebauthnBindings
no_bindings = record { by_token = []; by_execution_and_client_identity = [] }

-- The output target of a binding; a node keeps none.
unfoldable pub with_target :
    Option ExecutionId → WebauthnBinding → WebauthnBindings → WebauthnBindings
with_target none binding b = b
with_target (some id) binding b = record b {
  by_execution_and_client_identity =
      HashMap.insert (id, binding.client_identity) binding b.by_execution_and_client_identity;
}

unfoldable pub with_token : Token → WebauthnBinding → WebauthnBindings → WebauthnBindings
with_token token binding b = record b { by_token = HashMap.insert token binding b.by_token }

-- The list holds the tokens that the generator of random numbers draws, one for each round of the
-- loop. The loop has not ended when they are used up.
unfoldable pub insert :
    List Token
    → Option ExecutionId
    → WebauthnBinding
    → WebauthnBindings
    → WebauthnBindings × Option Token
insert [] execution binding b = (b, none)
insert (token ∷ draws) execution binding b =
    let again = insert draws execution binding b in
    if HashMap.contains_key token b.by_token
    then again
    else (with_token token binding (with_target execution binding b), some token)

unfoldable pub resolve_ecdh_public_key :
    ExecutionId → ClientIdentity → WebauthnBindings → Option Bytes
resolve_ecdh_public_key id client b =
    elim (HashMap.get (id, client) b.by_execution_and_client_identity) [
      | none ↦ none
      | some binding ↦ some binding.ecdh_public_key
    ]

unfoldable pub get : Token → WebauthnBindings → Option WebauthnBinding
get token b = HashMap.get token b.by_token

unfoldable pub pin_binding_from_token : ExecutionId → Token → WebauthnBindings → WebauthnBindings
unfolding with_target
pin_binding_from_token id token b = elim (HashMap.get token b.by_token) [
  | none ↦ b
  | some binding ↦ with_target (some id) binding b
]

-- The tokens in use.
abbrev tokens : HashMap Token WebauthnBinding → List Token
tokens m = map (λ entry. entry.0) m

contains_key-tokens :
    (token : Token) (m : HashMap Token WebauthnBinding)
    → HashMap.contains_key token m ≡ contains (tokens m) token
unfolding HashMap.contains_key HashMap.get
contains_key-tokens token [] = refl
contains_key-tokens token ((j, w) ∷ m) = ground (arith, contains_key-tokens token m)

length-tokens : (m : HashMap Token WebauthnBinding) → length (tokens m) ≡ length m
length-tokens [] = refl
length-tokens ((j, w) ∷ m) = ap suc (length-tokens m)

-- A draw that is not in use ends the loop.
insert-some :
    (draws : List Token) (execution : Option ExecutionId) (binding : WebauthnBinding)
    (b : WebauthnBindings) (new : Token)
    → contains draws new ≡ true
    → HashMap.contains_key new b.by_token ≡ false
    → (token : Token) × (contains draws token ≡ true)
      × (HashMap.get token b.by_token ≡ none)
      × (insert draws execution binding b
          ≡ (with_token token binding (with_target execution binding b), some token))
unfolding insert HashMap.contains_key
insert-some [] execution binding b new h u = cc
insert-some (token ∷ draws) execution binding b new h u =
    elim (Bool-cases (HashMap.contains_key token b.by_token)) [
      | inr free ↦ (token, ground (arith, identity_iff token token), ground (arith), rw free refl)
      | inl used ↦ elim (Bool-cases (token == new)) [
        | inl same ↦ absurd (ground (arith, identity_iff token new))
        | inr other ↦
            let (found, m, f, e) = insert-some draws execution binding b new (ground arith) u in
            (found, ground arith, f, rw used e)
      ]
    ]

-- More different draws than there are sessions end the loop.
insert-many :
    (draws : List Token) (execution : Option ExecutionId) (binding : WebauthnBinding)
    (b : WebauthnBindings)
    → Distinct draws
    → length b.by_token < length draws
    → (token : Token) × (contains draws token ≡ true)
      × (HashMap.get token b.by_token ≡ none)
      × (insert draws execution binding b
          ≡ (with_token token binding (with_target execution binding b), some token))
insert-many draws execution binding b d h =
    let (new, m, u) =
      pigeonhole draws (tokens b.by_token) d (omega (arith, h, length-tokens b.by_token)) in
    insert-some draws execution binding b new m (contains_key-tokens new b.by_token ∙ u)

-- What the end of the loop means for the lookups.
get-with_token :
    (token j : Token) (execution : Option ExecutionId) (binding : WebauthnBinding)
    (b : WebauthnBindings)
    → get j (with_token token binding (with_target execution binding b))
      ≡ (if token == j then some binding else get j b)
unfolding get with_token with_target
get-with_token token j none binding b = get-insert token j binding b.by_token
get-with_token token j (some id) binding b = get-insert token j binding b.by_token

pub resolve-with_target :
    (id id' : ExecutionId) (client : ClientIdentity) (binding : WebauthnBinding)
    (b : WebauthnBindings)
    → resolve_ecdh_public_key id' client (with_target (some id) binding b) ≡ (
        if ◌==◌ {A = ExecutionId × ClientIdentity} (id, binding.client_identity) (id', client)
        then some binding.ecdh_public_key
        else resolve_ecdh_public_key id' client b)
unfolding resolve_ecdh_public_key with_target
resolve-with_target id id' client binding b = ground (
  arith,
  get-insert (id, binding.client_identity) (id', client) binding b.by_execution_and_client_identity,
)

-- Whether a new session for the one execution, or for none, is for this execution and client.
abbrev pub is_target : Option ExecutionId → WebauthnBinding → ExecutionId → ClientIdentity → Bool
is_target none binding id client = false
is_target (some own) binding id client =
    ◌==◌ {A = ExecutionId × ClientIdentity} (own, binding.client_identity) (id, client)

-- What the sessions and the output keys are after a session has been inserted.
pub record IsInserted (execution : Option ExecutionId) (binding : WebauthnBinding) (token : Token)
    (b b' : WebauthnBindings) : Type 0 where
  pub sessions : (j : Token) → get j b' ≡ (if token == j then some binding else get j b)
  pub keys :
      (id : ExecutionId) (client : ClientIdentity)
      → resolve_ecdh_public_key id client b' ≡ (
          if is_target execution binding id client
          then some binding.ecdh_public_key
          else resolve_ecdh_public_key id client b)

with-IsInserted :
    (execution : Option ExecutionId) (binding : WebauthnBinding) (token : Token)
    (b : WebauthnBindings)
    → IsInserted execution binding token b
        (with_token token binding (with_target execution binding b))
unfolding with_token with_target resolve_ecdh_public_key
with-IsInserted none binding token b = record {
  sessions = λ j. get-with_token token j none binding b;
  keys = λ id client. refl;
}
with-IsInserted (some own) binding token b = record {
  sessions = λ j. get-with_token token j (some own) binding b;
  keys = λ id client. resolve-with_target own id client binding b;
}

-- If the draws are all different and more than there are sessions, the loop ends with one of them
-- that no session has. Then that token finds the new session and every other token what it found
-- before, and the key of the new session is the one of its client and of the execution it is for,
-- if it is for one, while all other keys are what they were.
pub insert_ends :
    (draws : List Token) (execution : Option ExecutionId) (binding : WebauthnBinding)
    (b : WebauthnBindings)
    → Distinct draws
    → length b.by_token < length draws
    → (token : Token) × (contains draws token ≡ true)
      × (get token b ≡ none)
      × ((insert draws execution binding b).1 ≡ some token)
      × IsInserted execution binding token b (insert draws execution binding b).0
unfolding get
insert_ends draws execution binding b d h =
    let (token, m, free, e) = insert-many draws execution binding b d h in
    (token, m, free, ap (λ r. r.1) e, rw e (with-IsInserted execution binding token b))
