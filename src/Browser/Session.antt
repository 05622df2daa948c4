-- ===== src/Browser/Session.antt =====
-- `authenticate` of crates/off-chain/src/browser_rpc.rs: from a signed request to the identity that
-- its session stands for.
use stoffel_mpc_coordinator.Prelude.{
  ℕ, ◌≡◌, true, not, some, arith, ◌==◌, nat_eq, list_eq, length, Result, ok, err, ok_or, ◌>>=◌,
  ◌>>◌, fail_if, Option-cases, inl, inr,
}
use stoffel_mpc_coordinator.Shared.ExecutionId.{Bytes, ClientIdentity, identity_iff}
use stoffel_mpc_coordinator.Browser.{
  Crypto, BrowserCall, BrowserError, WebauthnBinding, auth_error, invalid_nonce_length,
  invalid_public_key, invalid_signature, not_verified, unknown_token, other_signing_key,
}
use stoffel_mpc_coordinator.Browser.Message.{authentication_message}
use stoffel_mpc_coordinator.Browser.Nonces.{NonceBook, accept}
use stoffel_mpc_coordinator.Browser.Bindings.{WebauthnBindings}
use stoffel_mpc_coordinator.Browser.Bindings

unfoldable pub request_message : Crypto → Bytes → BrowserCall → Bytes
request_message crypto method call =
    authentication_message crypto method call.execution_id call.request.created call.request.nonce
      call.request.body call.request.session_token

-- The checks up to the lookup of the session, and that lookup.
unfoldable pub session_identity :
    Crypto → Bytes → BrowserCall → WebauthnBindings → Result BrowserError ClientIdentity
unfolding request_message
session_identity crypto method call bindings = do
  let request = call.request
  fail_if (not (length request.nonce == 16)) (auth_error invalid_nonce_length)
  fail_if (not (crypto.is_key request.public_key)) (auth_error invalid_public_key)
  fail_if (not (crypto.is_signature request.signature)) (auth_error invalid_signature)
  fail_if
      (not
        (crypto.verify request.public_key (request_message crypto method call) request.signature))
      (auth_error not_verified)
  binding ← ok_or (Bindings.get request.session_token bindings) (auth_error unknown_token)
  fail_if (not (binding.ecdsa_public_key == request.public_key)) (auth_error other_signing_key)
  ok binding.client_identity

-- `now` is the clock's time in seconds.
unfoldable pub authenticate :
    Crypto
    → Bytes
    → BrowserCall
    → ℕ
    → WebauthnBindings
    → NonceBook
    → NonceBook × Result BrowserError ClientIdentity
authenticate crypto method call now bindings nonces =
    elim (session_identity crypto method call bindings) [
      | err e ↦ (nonces, err e)
      | ok identity ↦
          let (nonces', result) =
            accept (call.execution_id, identity) call.request.created call.request.nonce now
              nonces in
          (nonces', result >>= λ _. ok identity)
    ]

-- What it takes to be authenticated as a client: a session of that client whose signing key signed
-- this very request.
pub record IsVouched (crypto : Crypto) (method : Bytes) (call : BrowserCall)
    (bindings : WebauthnBindings) (identity : ClientIdentity) : Type 0 where
  pub binding : WebauthnBinding
  pub session : Bindings.get call.request.session_token bindings ≡ some binding
  pub is_of : binding.client_identity ≡ identity
  pub key : binding.ecdsa_public_key ≡ call.request.public_key
  pub signed :
      crypto.verify call.request.public_key
        (request_message crypto method call)
        call.request.signature
      ≡ true
  pub nonce_size : length call.request.nonce ≡ 16

pub session_identity-IsVouched :
    (crypto : Crypto) (method : Bytes) (call : BrowserCall) (bindings : WebauthnBindings)
    (identity : ClientIdentity)
    → session_identity crypto method call bindings ≡ ok identity
    → IsVouched crypto method call bindings identity
unfolding session_identity
session_identity-IsVouched crypto method call bindings identity h =
    elim (Option-cases (Bindings.get call.request.session_token bindings)) [
      | inl none_there ↦ absurd (ground arith)
      | inr (binding, there) ↦ record {
        binding = binding;
        session = there;
        is_of = ground arith;
        key = ground (arith, identity_iff binding.ecdsa_public_key call.request.public_key);
        signed = ground arith;
        nonce_size = ground arith;
      }
    ]
