-- ===== src/Shared/Hex.antt =====
-- The texts of execution identifiers (crates/coord-shared/src/lib.rs): `Display` and `FromStr` of
-- `ExecutionId`. The codec of the crate `hex` is a parameter.
use stoffel_mpc_coordinator.Prelude.{
  ◌*◌, ◌<◌, ◌≡◌, false, not, Option, some, ◌==◌, nat_eq, length, contains, All, arith, Result, ok,
  ok_or, ◌>>=◌, ◌>>◌, fail_if, Option-cases, inl, inr,
}
use stoffel_mpc_coordinator.Shared.ExecutionId.{Bytes, ExecutionId, from_bytes, as_bytes}

-- `hex::encode` and `hex::decode`; a text is a string of bytes.
pub record Hex : Type 0 where
  pub encode : Bytes → Bytes
  pub decode : Bytes → Option Bytes

-- What the crate documents: two digits for a byte, so no comma, and decoding undoes encoding.
pub record IsHex (hex : Hex) : Type 0 where
  pub inverse :
      (bytes : Bytes) → All (λ b. b < 256) bytes → hex.decode (hex.encode bytes) ≡ some bytes
  pub two_digits : (bytes : Bytes) → length (hex.encode bytes) ≡ 2 * length bytes
  pub digits : (bytes : Bytes) → All (λ b. b < 256) bytes → contains (hex.encode bytes) 44 ≡ false
  pub pairs : (text bytes : Bytes) → hex.decode text ≡ some bytes → length text ≡ 2 * length bytes

pub data ParseError : Type 0 where
  not_64_characters invalid_execution_id zero_execution_id : ParseError
  no_comma invalid_hash not_32_bytes : ParseError

unfoldable pub to_string : Hex → ExecutionId → Bytes
unfolding as_bytes
to_string hex id = hex.encode (as_bytes id)

unfoldable pub from_str : Hex → Bytes → Result ParseError ExecutionId
unfolding from_bytes
from_str hex value = do
  fail_if (not (length value == 64)) not_64_characters
  bytes ← ok_or (hex.decode value) invalid_execution_id
  ok (from_bytes bytes)

-- The `expect` of the conversion to 32 bytes never fails.
pub length-from_str :
    (hex : Hex) (value : Bytes) (id : ExecutionId)
    → IsHex hex
    → from_str hex value ≡ ok id
    → length id ≡ 32
unfolding from_str from_bytes
length-from_str hex value id laws h = elim (Option-cases (hex.decode value)) [
  | inl bad ↦ absurd (ground arith)
  | inr (bytes, good) ↦ ground (arith, laws.pairs value bytes good)
]

pub from_str-to_string :
    (hex : Hex) (id : ExecutionId)
    → IsHex hex
    → length id ≡ 32
    → All (λ b. b < 256) id
    → from_str hex (to_string hex id) ≡ ok id
unfolding from_str to_string from_bytes as_bytes
from_str-to_string hex id laws size bytes =
    let e = laws.inverse id bytes in ground (arith, laws.two_digits id)
