-- ===== src/Client/Outputs.antt =====
-- `obtain_outputs` of crates/off-chain/src/lib.rs.
use stoffel_mpc_coordinator.Prelude.{
  ℕ, zero, suc, ◌≤◌, ◌≡◌, refl, sym, subst, ap, ◌∙◌, Bool, not, List, [], ◌∷◌, Option, none, some,
  ltb, ◌==◌, nat_eq, length, map, range, filter_map, get_elem?, All, Result, ok, err, ok_or, ◌>>=◌,
  ◌>>◌, fail_if, if◌then◌else◌, arith, Option-cases, Bool-cases, Result-cases, inl, inr,
}
use stoffel_mpc_coordinator.Shared.ExecutionId.{Bytes, ExecutionId}
use stoffel_mpc_coordinator.Shared.Errors.{
  CoordinatorError, json_error, rpc_failure, subscription_error, parsing_encapsulated_key_failed,
  decryption_error, deserialization_error,
}
use stoffel_mpc_coordinator.Coordinator.Outputs.{EncShares}
use stoffel_mpc_coordinator.Client.{execution_enc_info}

-- The client's side of the libraries: the check of an encapsulated key, the decryption with the
-- client's secret key in a context, the parser of shares, and `recover_secret` for the numbers of
-- parties and faults of the execution, with `min_shares`.
pub record Sharing (S V : Type 0) : Type 0 where
  pub is_encapped_key : Bytes → Bool
  pub open_sealed : Bytes → Bytes → Bytes → Option Bytes
  pub parse_shares : Bytes → Option (List S)
  pub recover_secret : List S → Option V
  pub min_shares : ℕ

length-filter_map-le {ℓ κ} :
    {A : Type ℓ} {B : Type κ} (f : A → Option B) (xs : List A)
    → length (filter_map f xs) ≤ length xs
length-filter_map-le f [] = omega arith
length-filter_map-le f (x ∷ xs) = elim (Option-cases (f x)) [
  | inl e ↦ rw (e, filter_map) (omega (arith, length-filter_map-le f xs))
  | inr (b, e) ↦ rw (e, filter_map) (omega (arith, length-filter_map-le f xs))
]

-- If as many come out as went in, then nothing was left out.
map-filter_map_full {ℓ κ} :
    {A : Type ℓ} {B : Type κ} (f : A → Option B) (xs : List A)
    → length (filter_map f xs) ≡ length xs
    → map f xs ≡ map some (filter_map f xs)
map-filter_map_full f [] h = refl
map-filter_map_full f (x ∷ xs) h = elim (Option-cases (f x)) [
  | inl e ↦
      let short : length (filter_map f xs) ≡ suc (length xs) = ground arith in
      absurd (omega (arith, short, length-filter_map-le f xs))
  | inr (b, e) ↦ ground (arith, map-filter_map_full f xs)
]

length-range : (start n : ℕ) → length (range start n) ≡ n
length-range start zero = refl
length-range start (suc n) = ap suc (length-range (suc start) n)

module _ {S V : Type 0} (sharing : Sharing S V) (id : ExecutionId) (n_outputs : ℕ) where
  unfoldable pub open_one : EncShares → Result CoordinatorError (List S)
  open_one (encapped_key, ciphertext) = do
    fail_if (not (sharing.is_encapped_key encapped_key)) parsing_encapsulated_key_failed
    bytes ←
        ok_or (sharing.open_sealed encapped_key (execution_enc_info id) ciphertext) decryption_error
    ok_or (sharing.parse_shares bytes) deserialization_error

  -- A node's shares that are not as many as the outputs are left out.
  unfoldable pub open_all : List EncShares → Result CoordinatorError (List (List S))
  open_all [] = ok []
  open_all (sealed ∷ message) =
      let rest = open_all message in
      open_one sealed >>= λ shares.
      rest >>= λ others. ok (if length shares == n_outputs then shares ∷ others else others)

  -- The shares of one output. Every list has `n_outputs` members, so none is left out.
  unfoldable pub shares_at : ℕ → List (List S) → List S
  shares_at i output_shares = filter_map (λ shares. get_elem? shares i) output_shares

  unfoldable pub reconstruct : List (List S) → List V
  unfolding shares_at
  reconstruct output_shares =
      filter_map (λ i. sharing.recover_secret (shares_at i output_shares)) (range 0 n_outputs)

  -- One message: an error, or what could be reconstructed.
  unfoldable pub receive_shares : List EncShares → Result CoordinatorError (List V)
  unfolding reconstruct
  receive_shares message = do
    fail_if (ltb (length message) sharing.min_shares) (subscription_error [])
    output_shares ← open_all message
    ok (reconstruct output_shares)

  unfoldable pub obtain_outputs : List (Option (List EncShares)) → Result CoordinatorError (List V)
  unfolding receive_shares
  obtain_outputs [] = err (json_error rpc_failure)
  obtain_outputs (none ∷ stream) = err (json_error rpc_failure)
  obtain_outputs (some message ∷ stream) =
      let rest = obtain_outputs stream in
      receive_shares message >>= λ outputs. if length outputs == n_outputs then ok outputs else rest

  open_all-whole :
      (message : List EncShares) (output_shares : List (List S))
      → open_all message ≡ ok output_shares
      → All (λ shares. length shares ≡ n_outputs) output_shares
  unfolding open_all
  open_all-whole [] output_shares h =
      let e : [] ≡ output_shares = ground arith in
      subst (All (λ shares. length shares ≡ n_outputs)) e tt
  open_all-whole (sealed ∷ message) output_shares h = elim (Result-cases (open_one sealed)) [
    | inr (_, e) ↦ absurd (ground arith)
    | inl (shares, e) ↦ elim (Result-cases (open_all message)) [
      | inr (_, e') ↦ absurd (ground arith)
      | inl (others, e') ↦ elim (Bool-cases (length shares == n_outputs)) [
        | inl right ↦
            let e'' : shares ∷ others ≡ output_shares = ground arith in
            subst (All (λ l. length l ≡ n_outputs)) e''
              ((nat_eq.beq_iff (length shares) n_outputs).0 right, open_all-whole message others e')
        | inr wrong ↦
            let e'' : others ≡ output_shares = ground arith in
            subst (All (λ l. length l ≡ n_outputs)) e'' (open_all-whole message others e')
      ]
    ]
  ]

  -- What stands behind outputs that a client obtains: one message of enough nodes, all of whose
  -- entries decrypt; the shares used are those of nodes that sent as many as there are outputs.
  pub record IsRecovered (stream : List (Option (List EncShares))) (outputs : List V) : Type 0 where
    pub at : ℕ
    pub message : List EncShares
    pub received : get_elem? stream at ≡ some (some message)
    pub output_shares : List (List S)
    pub enough : sharing.min_shares ≤ length message
    pub opened : open_all message ≡ ok output_shares
    pub whole : All (λ shares. length shares ≡ n_outputs) output_shares
    pub each :
        map (λ i. sharing.recover_secret (shares_at i output_shares)) (range 0 n_outputs)
        ≡ map some outputs

  -- The outputs that a client obtains are all of them and in order: each is what the secret sharing
  -- recovers from the shares for that output in one message of enough nodes.
  pub obtain_outputs-IsRecovered :
      (stream : List (Option (List EncShares))) (outputs : List V)
      → obtain_outputs stream ≡ ok outputs
      → IsRecovered stream outputs
  unfolding obtain_outputs receive_shares reconstruct
  obtain_outputs-IsRecovered [] outputs h = cc
  obtain_outputs-IsRecovered (none ∷ stream) outputs h = cc
  obtain_outputs-IsRecovered (some message ∷ stream) outputs h =
      elim (Bool-cases (ltb (length message) sharing.min_shares)) [
        | inl few ↦ absurd (ground arith)
        | inr enough ↦ elim (Result-cases (open_all message)) [
          | inr (_, e) ↦ absurd (ground arith)
          | inl (output_shares, e) ↦
              elim (Bool-cases (length (reconstruct output_shares) == n_outputs)) [
                | inr missing ↦
                    let later = obtain_outputs-IsRecovered stream outputs (ground arith) in
                    record {
                      at = suc later.at;
                      message = later.message;
                      received = later.received;
                      output_shares = later.output_shares;
                      enough = later.enough;
                      opened = later.opened;
                      whole = later.whole;
                      each = later.each;
                    }
                | inl full ↦
                    let same : reconstruct output_shares ≡ outputs = ground arith in
                    let recover : ℕ → Option V =
                      λ i. sharing.recover_secret (shares_at i output_shares) in
                    record {
                      at = 0;
                      message = message;
                      received = refl;
                      output_shares = output_shares;
                      enough = ground arith;
                      opened = e;
                      whole = open_all-whole message output_shares e;
                      each =
                          map-filter_map_full recover (range 0 n_outputs) (
                            (nat_eq.beq_iff (length (reconstruct output_shares)) n_outputs).0 full
                            ∙ sym (length-range 0 n_outputs))
                          ∙ ap (map some) same;
                    }
              ]
        ]
      ]
