-- ===== src/RunCoord/Arguments.antt =====
-- `parse_nonzero_execution_id` and `parse_one_off` of crates/bins/src/bin/run-coord.rs.
use stoffel_mpc_coordinator.Prelude.{
  ℕ, ◌<◌, ◌≡◌, refl, false, not, [], ◌∷◌, ◌++◌, Option, none, some, ◌==◌, nat_eq, beq_refl, list_eq,
  length, contains, All, arith, Result, ok, ok_or, ◌>>=◌, ◌>>◌, fail_if, if◌then◌else◌,
}
use stoffel_mpc_coordinator.Shared.ExecutionId.{Bytes, ExecutionId, is_zero}
use stoffel_mpc_coordinator.Shared.Hex.{
  Hex, IsHex, ParseError, zero_execution_id, no_comma, invalid_hash, not_32_bytes, to_string,
  from_str, from_str-to_string,
}

unfoldable pub parse_nonzero_execution_id : Hex → Bytes → Result ParseError ExecutionId
parse_nonzero_execution_id hex value = do
  execution_id ← from_str hex value
  fail_if (is_zero execution_id) zero_execution_id
  ok execution_id

pub record OneOff : Type 0 where
  pub hash : Bytes
  pub execution_id : ExecutionId

-- `str::split_once`.
abbrev pub split_once : ℕ → Bytes → Option (Bytes × Bytes)
split_once c [] = none
split_once c (x ∷ xs) =
    let rest = split_once c xs in
    if x == c
    then some ([], xs)
    else elim rest [ none ↦ none | some parts ↦ some (x ∷ parts.0, parts.1) ]

-- The comma is the character 44.
unfoldable pub parse_one_off : Hex → Bytes → Result ParseError OneOff
unfolding parse_nonzero_execution_id
parse_one_off hex value = do
  (hash_text, id_text) ← ok_or (split_once 44 value) no_comma
  hash ← ok_or (hex.decode hash_text) invalid_hash
  fail_if (not (length hash == 32)) not_32_bytes
  execution_id ← parse_nonzero_execution_id hex id_text
  ok (record { hash = hash; execution_id = execution_id })

split_once-append :
    (c : ℕ) (xs ys : Bytes) → contains xs c ≡ false → split_once c (xs ++ c ∷ ys) ≡ some (xs, ys)
split_once-append c [] ys h = ground (arith, beq_refl c)
split_once-append c (x ∷ xs) ys h = ground (arith, split_once-append c xs ys)

-- A program hash of 32 bytes and an execution identifier that is not zero are read back from their
-- digits with a comma between them.
pub parse_one_off-print :
    (hex : Hex) (hash : Bytes) (id : ExecutionId)
    → IsHex hex
    → length hash ≡ 32
    → All (λ b. b < 256) hash
    → length id ≡ 32
    → All (λ b. b < 256) id
    → is_zero id ≡ false
    → parse_one_off hex (hex.encode hash ++ 44 ∷ to_string hex id)
      ≡ ok (record { hash = hash; execution_id = id })
unfolding parse_one_off parse_nonzero_execution_id
parse_one_off-print hex hash id laws size bytes id_size id_bytes nonzero =
    let e = laws.inverse hash bytes in
    let parsed = from_str-to_string hex id laws id_size id_bytes in
    let cut = split_once-append 44 (hex.encode hash) (to_string hex id) (laws.digits hash bytes) in
    rw (cut, parse_one_off) (rw (e, size, parsed, nonzero) refl)
