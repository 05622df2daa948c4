-- ===== src/Browser/Message.antt =====
-- What is signed (crates/off-chain/src/browser_rpc.rs): the message of a request and the challenge
-- of a binding.
use mathlib.Core.List.{append_assoc}
use stoffel_mpc_coordinator.Prelude.{
  ℕ, ◌<◌, ◌^◌, ◌≡◌, refl, sym, ap, ◌∙◌, false, [], ◌∷◌, ◌++◌, length, contains, nat_eq, codes,
  le_bytes, append-injective, zero_ended-injective, le_bytes-injective, length-le_bytes, u64-Fits,
}
use stoffel_mpc_coordinator.Shared.ExecutionId.{Bytes, ExecutionId}
use stoffel_mpc_coordinator.Browser.{Crypto, Token}

-- `AUTH_DOMAIN`.
abbrev pub auth_domain : Bytes
auth_domain = codes "stoffel-browser-rpc-auth"

unfoldable pub authentication_message :
    Crypto → Bytes → ExecutionId → ℕ → Bytes → Bytes → Token → Bytes
authentication_message crypto method id created nonce body token =
    auth_domain
    ++ 0 ∷ (method ++ 0 ∷ (id ++ (le_bytes 8 created ++ (nonce ++ (crypto.digest body ++ token)))))

abbrev bind_domain : Bytes
bind_domain = codes "stoffel-browser-webauthn-bind-v1"

-- The three updates of the hash are one of their concatenation.
unfoldable pub webauthn_bind_challenge : Crypto → Bytes → Bytes → Bytes
webauthn_bind_challenge crypto ecdsa_public_key ecdh_public_key =
    crypto.digest (bind_domain ++ (ecdsa_public_key ++ ecdh_public_key))

abbrev prefix : Bytes
prefix = auth_domain ++ 0 ∷ []

-- The parts of a request that the types of the source bound: a method's name holds no zero byte,
-- and the other parts have their fixed sizes.
pub record IsSized (method : Bytes) (id : ExecutionId) (created : ℕ) (nonce : Bytes) : Type 0 where
  pub named : contains method 0 ≡ false
  pub id_size : length id ≡ 32
  pub word : created < 2 ^ 64
  pub nonce_size : length nonce ≡ 16

-- Two requests with the same signed message, with hashes of 32 bytes, agree in method, execution,
-- time, nonce, hash of the body and session token. So a signature vouches for all of them.
pub authentication_message_determines :
    (crypto : Crypto) (method method' : Bytes) (id id' : ExecutionId) (created created' : ℕ)
    (nonce nonce' body body' : Bytes) (token token' : Token)
    → IsSized method id created nonce
    → IsSized method' id' created' nonce'
    → length (crypto.digest body) ≡ 32
    → length (crypto.digest body') ≡ 32
    → authentication_message crypto method id created nonce body token
      ≡ authentication_message crypto method' id' created' nonce' body' token'
    → (method ≡ method')
      × (id ≡ id')
      × (created ≡ created')
      × (nonce ≡ nonce')
      × (crypto.digest body ≡ crypto.digest body')
      × (token ≡ token')
unfolding authentication_message
authentication_message_determines crypto method method' id id' created created' nonce nonce' body
      body' token token' s s' d d' e =
    let (_, after_domain) = append-injective prefix prefix _ _ refl e in
    let (same_method, e1) = zero_ended-injective method method' _ _ s.named s'.named after_domain in
    let (same_id, e2) = append-injective id id' _ _ (s.id_size ∙ sym s'.id_size) e1 in
    let (same_word, e3) =
      append-injective (le_bytes 8 created) (le_bytes 8 created') _ _
        (length-le_bytes 8 created ∙ sym (length-le_bytes 8 created')) e2 in
    let (same_nonce, e4) =
      append-injective nonce nonce' _ _ (s.nonce_size ∙ sym s'.nonce_size) e3 in
    let (same_digest, same_token) =
      append-injective (crypto.digest body) (crypto.digest body') _ _ (d ∙ sym d') e4 in
    (
      same_method,
      same_id,
      le_bytes-injective 8 created created' (u64-Fits created s.word) (u64-Fits created' s'.word)
          same_word,
      same_nonce,
      same_digest,
      same_token,
    )

-- The challenge of a binding does not say where the first key ends: bytes that move from the one
-- key to the other leave it as it is.
pub webauthn_bind_challenge_shifts :
    (crypto : Crypto) (a b c : Bytes)
    → webauthn_bind_challenge crypto (a ++ b) c ≡ webauthn_bind_challenge crypto a (b ++ c)
unfolding webauthn_bind_challenge
webauthn_bind_challenge_shifts crypto a b c =
    ap crypto.digest (ap (λ t. bind_domain ++ t) (append_assoc a b c))
