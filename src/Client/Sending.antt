-- ===== src/Client/Sending.antt =====
-- The client's `send_output_shares` and `send_masked_inputs` of crates/off-chain/src/lib.rs: what a node
-- sends for a client, and what a client sends for its inputs.
use stoffel_mpc_coordinator.Prelude.{
  ℕ, ◌≡◌, refl, sym, ap, ◌∙◌, Bool, true, not, List, [], ◌∷◌, Option, none, some, Result, ok, err,
  ok_or, ◌>>=◌, ◌>>◌, fail_if, arith, Option-cases, inl, inr,
}
use stoffel_mpc_coordinator.Shared.ExecutionId.{Bytes, ExecutionId}
use stoffel_mpc_coordinator.Shared.Errors.{
  CoordinatorError, json_error, rpc_failure, parsing_public_key_failed, serialization_error,
  encryption_error,
}
use stoffel_mpc_coordinator.Coordinator.Types.{RpcResult}
use stoffel_mpc_coordinator.Coordinator.Outputs.{EncShares}
use stoffel_mpc_coordinator.Client.{execution_enc_info}
use stoffel_mpc_coordinator.Client.Outputs.{Sharing, open_one}

-- The node's side of the libraries. `seal` encrypts to a public key in a context.
pub record Sealing (S : Type 0) : Type 0 where
  pub is_public_key : Bytes → Bool
  pub serialize_shares : List S → Option Bytes
  pub seal : Bytes → Bytes → Bytes → Option EncShares

-- The answer of `resolve_output_encryption_key` decides; without one it is the key given.
unfoldable pub encryption_key : RpcResult (Option Bytes) → Bytes → Bytes
encryption_key (ok (some session_key)) key = session_key
encryption_key (ok none) key = key
encryption_key (err _) key = key

module _ {S : Type 0} (sealing : Sealing S) (id : ExecutionId) where
  unfoldable pub seal_shares :
      RpcResult (Option Bytes) → Bytes → List S → Result CoordinatorError EncShares
  unfolding encryption_key
  seal_shares resolved key output_shares = do
    let client_pk = encryption_key resolved key
    fail_if (not (sealing.is_public_key client_pk)) parsing_public_key_failed
    bytes ← ok_or (sealing.serialize_shares output_shares) serialization_error
    ok_or (sealing.seal client_pk (execution_enc_info id) bytes) encryption_error

  -- With the call of the coordinator.
  unfoldable pub send_sealed :
      RpcResult (Option Bytes)
      → Bytes
      → List S
      → (EncShares → RpcResult (Unit {0}))
      → Result CoordinatorError (Unit {0})
  unfolding seal_shares
  send_sealed resolved key output_shares call = seal_shares resolved key output_shares >>= λ sealed.
      elim (call sealed) [ ok _ ↦ ok tt | err _ ↦ err (json_error rpc_failure) ]

-- The loop of `send_masked_inputs`: the indices and the serialised inputs.
unfoldable pub masked_input_batch :
    {V : Type 0} → (V → Option Bytes) → List (ℕ × V) → Result CoordinatorError (List ℕ × List Bytes)
masked_input_batch serialize [] = ok ([], [])
masked_input_batch serialize ((i, masked_input) ∷ inputs) =
    let rest = masked_input_batch serialize inputs in
    ok_or (serialize masked_input) serialization_error >>= λ bytes.
    rest >>= λ batch. ok (i ∷ batch.0, bytes ∷ batch.1)

-- What the libraries promise to the holder of a secret key, whose public key is `public_key`: what
-- is sealed to it opens in the same context, and serialised shares parse.
pub record IsKeyPair {S V : Type 0} (sealing : Sealing S) (sharing : Sharing S V)
    (public_key : Bytes) : Type 0 where
  pub opens :
      (info bytes : Bytes) (sealed : EncShares)
      → sealing.seal public_key info bytes ≡ some sealed
      → (sharing.is_encapped_key sealed.0 ≡ true)
        × (sharing.open_sealed sealed.0 info sealed.1 ≡ some bytes)
  pub parses :
      (shares : List S) (bytes : Bytes)
      → sealing.serialize_shares shares ≡ some bytes
      → sharing.parse_shares bytes ≡ some shares

-- What a node seals for an execution, the client opens to the same shares, if the key that the
-- coordinator resolves, or else the key given, is the client's.
pub open_one-seal_shares :
    {S V : Type 0} (sealing : Sealing S) (sharing : Sharing S V) (id : ExecutionId) (n_outputs : ℕ)
    (resolved : RpcResult (Option Bytes)) (key public_key : Bytes) (shares : List S)
    (sealed : EncShares)
    → IsKeyPair sealing sharing public_key
    → encryption_key resolved key ≡ public_key
    → seal_shares sealing id resolved key shares ≡ ok sealed
    → open_one sharing id n_outputs sealed ≡ ok shares
unfolding seal_shares open_one
open_one-seal_shares sealing sharing id n_outputs resolved key public_key shares sealed pair same
      h =
    elim (Option-cases (sealing.serialize_shares shares)) [
      | inl e ↦ absurd (ground arith)
      | inr (bytes, e) ↦
          elim (Option-cases
            (sealing.seal (encryption_key resolved key) (execution_enc_info id) bytes)) [
              | inl e' ↦ absurd (ground arith)
              | inr (found, e') ↦
                  let equal : found ≡ sealed = ground arith in
                  let sealed_so : sealing.seal public_key (execution_enc_info id) bytes
                      ≡ some sealed =
                    ap (λ k. sealing.seal k (execution_enc_info id) bytes) (sym same)
                    ∙ (e' ∙ ap some equal) in
                  let (valid, opened) = pair.opens (execution_enc_info id) bytes sealed sealed_so in
                  let parsed = pair.parses shares bytes e in
                  rw (valid, open_one) (rw (opened, parsed) refl)
            ]
    ]
