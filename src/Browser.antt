-- ===== src/Browser.antt =====
-- The listener for browser clients, crates/off-chain/src/browser_rpc.rs: requests that carry their
-- own signature, in place of the client certificate of the native transport. The libraries for
-- hashes, signatures, JSON and base64 are parameters, in one record.
pub mod Message
pub mod Nonces
pub mod SignCounts
pub mod Bindings
pub mod Webauthn
pub mod Session
pub mod CredentialIndex
pub mod Bind
pub mod Roster
pub mod Concurrent
pub mod Status
pub mod Methods
pub mod Attestation
pub mod OutputKey
use stoffel_mpc_coordinator.Prelude.{ℕ, Bool, Option, List}
use stoffel_mpc_coordinator.Shared.ExecutionId.{Bytes, ClientIdentity, ExecutionId}
use stoffel_mpc_coordinator.Shared.Errors.{NodeRpcError}
use stoffel_mpc_coordinator.Coordinator.Types.{RpcError}

-- What the JSON of a WebAuthn client says under three of its keys, where that is a string.
pub record ClientData : Type 0 where
  pub kind : Option Bytes
  pub origin : Option Bytes
  pub challenge : Option Bytes

-- sha2, p256, serde_json and base64.
pub record Crypto : Type 0 where
  pub digest : Bytes → Bytes
  pub is_key : Bytes → Bool
  pub is_signature : Bytes → Bool
  pub is_der_signature : Bytes → Bool
  pub verify : Bytes → Bytes → Bytes → Bool
  pub verify_der : Bytes → Bytes → Bytes → Bool
  pub parse_client_data : Bytes → Option ClientData
  pub decode_base64 : Bytes → Option Bytes

-- The texts of the errors with code `AUTH_ERROR`.
pub data AuthReason : Type 0 where
  invalid_nonce_length invalid_public_key invalid_signature not_verified : AuthReason
  unknown_token other_signing_key outside_window nonce_reused : AuthReason
  sign_count_not_increased no_matching_identity already_submitted : AuthReason

-- An `ErrorObjectOwned` of this listener: what its code stands for.
pub data BrowserError : Type 0 where
  auth_error : AuthReason → BrowserError
  bad_body not_registered not_authorized : BrowserError
  node_error : NodeRpcError → BrowserError
  coordinator_error : RpcError → BrowserError

-- `NONCE_WINDOW_SECONDS`.
abbrev pub nonce_window : ℕ
nonce_window = 120

-- A text.
abbrev pub Token : Type 0
Token = Bytes

pub record SignedBrowserRequest : Type 0 where
  pub public_key : Bytes
  pub created : ℕ
  pub nonce : Bytes
  pub signature : Bytes
  pub body : Bytes
  pub session_token : Token

pub record BrowserCall : Type 0 where
  pub execution_id : ExecutionId
  pub request : SignedBrowserRequest

pub record WebauthnAssertion : Type 0 where
  pub authenticator_data : Bytes
  pub client_data_json : Bytes
  pub signature : Bytes

pub record WebauthnBinding : Type 0 where
  pub client_identity : ClientIdentity
  pub ecdsa_public_key : Bytes
  pub ecdh_public_key : Bytes

-- `WebauthnBindingResponse`.
pub record BindingResponse : Type 0 where
  pub session_token : Token
  pub client_identity : ClientIdentity
