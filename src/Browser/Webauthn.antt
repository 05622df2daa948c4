-- ===== src/Browser/Webauthn.antt =====
-- `verify_webauthn_assertion` of crates/off-chain/src/browser_rpc.rs.
use stoffel_mpc_coordinator.Prelude.{
  ℕ, ◌+◌, ◌*◌, ◌%◌, ◌^◌, ◌/◌, ◌≡◌, sym, ◌∙◌, true, not, ◌||◌, ◌++◌, Option, some, arith, ltb, ◌==◌,
  nat_eq, list_eq, option_eq, get_or, take, length, codes, Result, ok, ok_or, ◌>>=◌, ◌>>◌, fail_if,
  Result-cases, Option-cases, inl, inr,
}
use stoffel_mpc_coordinator.Shared.ExecutionId.{Bytes, identity_iff}
use stoffel_mpc_coordinator.Browser.{Crypto, WebauthnAssertion}

-- `u32::from_be_bytes` of the four bytes from an index on.
abbrev be_u32 : Bytes → ℕ → ℕ
be_u32 bytes i =
    get_or bytes i 0 * 2 ^ 24
    + get_or bytes (i + 1) 0 * 2 ^ 16
    + get_or bytes (i + 2) 0 * 2 ^ 8
    + get_or bytes (i + 3) 0

-- The client data: type and origin, and the challenge.
unfoldable pub check_client_data : Crypto → Bytes → Bytes → Bytes → Result (Unit {0}) (Unit {0})
check_client_data crypto client_data_json expected_origin expected_challenge = do
  client_data ← ok_or (crypto.parse_client_data client_data_json) tt
  fail_if (not (client_data.kind == some (codes "webauthn.get"))) tt
  fail_if (not (client_data.origin == some expected_origin)) tt
  challenge_b64 ← ok_or client_data.challenge tt
  challenge ← ok_or (crypto.decode_base64 challenge_b64) tt
  fail_if (not (challenge == expected_challenge)) tt

-- The authenticator data: its length, relying party and flags (bit 0 for a user that is present,
-- bit 2 for one that is verified), and the counter.
unfoldable pub check_authenticator_data : Bytes → Bytes → Result (Unit {0}) ℕ
check_authenticator_data bytes expected_rp_id_hash = do
  fail_if (ltb (length bytes) 37) tt
  fail_if (not (take 32 bytes == expected_rp_id_hash)) tt
  let flags = get_or bytes 32 0
  fail_if ((flags % 2 == 0) || ((flags / 4) % 2 == 0)) tt
  ok (be_u32 bytes 33)

unfoldable pub signed_by : Crypto → WebauthnAssertion → Bytes → Result (Unit {0}) (Unit {0})
signed_by crypto assertion candidate_public_key = do
  fail_if (not (crypto.is_key candidate_public_key)) tt
  fail_if (not (crypto.is_der_signature assertion.signature)) tt
  fail_if
      (not (
        crypto.verify_der candidate_public_key
          (assertion.authenticator_data ++ crypto.digest assertion.client_data_json)
          assertion.signature))
      tt

unfoldable pub verify_webauthn_assertion :
    Crypto → WebauthnAssertion → Bytes → Bytes → Bytes → Bytes → Result (Unit {0}) ℕ
verify_webauthn_assertion crypto assertion candidate_public_key expected_rp_id_hash expected_origin
      expected_challenge =
    do
      check_client_data crypto assertion.client_data_json expected_origin expected_challenge
      sign_count ← check_authenticator_data assertion.authenticator_data expected_rp_id_hash
      signed_by crypto assertion candidate_public_key
      ok sign_count

text_iff : (a b : Option Bytes) → ((a == b) ≡ true → a ≡ b) × (a ≡ b → (a == b) ≡ true)
text_iff a b = option_eq.beq_iff a b

-- Accepted client data name one challenge.
check_client_data-challenge :
    (crypto : Crypto) (json origin origin' challenge challenge' : Bytes)
    → check_client_data crypto json origin challenge ≡ ok tt
    → check_client_data crypto json origin' challenge' ≡ ok tt
    → (origin ≡ origin') × (challenge ≡ challenge')
unfolding check_client_data
check_client_data-challenge crypto json origin origin' challenge challenge' h h' =
    elim (Option-cases (crypto.parse_client_data json)) [
      | inl unread ↦ absurd (ground arith)
      | inr (d, read) ↦ elim (Option-cases d.challenge) [
        | inl unsaid ↦ absurd (ground arith)
        | inr (text, said) ↦ elim (Option-cases (crypto.decode_base64 text)) [
          | inl bad ↦ absurd (ground arith)
          | inr (c, decoded) ↦ (
            ground (arith, text_iff d.origin (some origin), text_iff d.origin (some origin')),
            ground (arith, identity_iff c challenge, identity_iff c challenge'),
          )
        ]
      ]
    ]

-- The two parts of an accepted assertion that its own bytes fix.
parts :
    (crypto : Crypto) (assertion : WebauthnAssertion)
    (candidate rp_id_hash origin challenge : Bytes) (sign_count : ℕ)
    → verify_webauthn_assertion crypto assertion candidate rp_id_hash origin challenge
      ≡ ok sign_count
    → (check_client_data crypto assertion.client_data_json origin challenge ≡ ok tt)
      × (sign_count ≡ be_u32 assertion.authenticator_data 33)
unfolding verify_webauthn_assertion check_authenticator_data
parts crypto assertion candidate rp_id_hash origin challenge sign_count h =
    elim (Result-cases (check_client_data crypto assertion.client_data_json origin challenge)) [
      | inr (_, refused) ↦ absurd (ground arith)
      | inl (_, passed) ↦ (passed, ground arith)
    ]

-- One assertion is good for one challenge and one origin only, whichever keys it is tried with,
-- and it has one counter.
pub verify_webauthn_assertion_once :
    (crypto : Crypto) (assertion : WebauthnAssertion)
    (candidate candidate' rp_id_hash rp_id_hash' origin origin' challenge challenge' : Bytes)
    (sign_count sign_count' : ℕ)
    → verify_webauthn_assertion crypto assertion candidate rp_id_hash origin challenge
      ≡ ok sign_count
    → verify_webauthn_assertion crypto assertion candidate' rp_id_hash' origin' challenge'
      ≡ ok sign_count'
    → (origin ≡ origin') × (challenge ≡ challenge') × (sign_count ≡ sign_count')
verify_webauthn_assertion_once crypto assertion candidate candidate' rp_id_hash rp_id_hash' origin
      origin' challenge challenge' sign_count sign_count' h h' =
    let (passed, named) =
      parts crypto assertion candidate rp_id_hash origin challenge sign_count h in
    let (passed', named') =
      parts crypto assertion candidate' rp_id_hash' origin' challenge' sign_count' h' in
    let (same_origin, same_challenge) =
      check_client_data-challenge crypto assertion.client_data_json origin origin' challenge
        challenge' passed passed' in
    (same_origin, same_challenge, named ∙ sym named')
