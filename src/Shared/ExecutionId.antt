-- ===== src/Shared/ExecutionId.antt =====
-- `ExecutionId` of crates/coord-shared/src/lib.rs, and byte strings.
use stoffel_mpc_coordinator.Prelude.{
  ℕ, List, Bool, true, ◌==◌, ◌≡◌, ◌↔◌, nat_eq, list_eq, replicate,
}

-- A `Vec<u8>`; every element is below 256.
abbrev pub Bytes : Type 0
Bytes = List ℕ

abbrev pub ClientIdentity : Type 0
ClientIdentity = Bytes

-- A `[u8; 32]`.
abbrev pub ExecutionId : Type 0
ExecutionId = Bytes

unfoldable pub from_bytes : Bytes → ExecutionId
from_bytes bytes = bytes

unfoldable pub as_bytes : ExecutionId → Bytes
as_bytes id = id

abbrev pub zero_32 : Bytes
zero_32 = replicate 32 0

unfoldable pub is_zero : ExecutionId → Bool
is_zero id = id == zero_32

pub identity_iff : (a b : Bytes) → ((a == b) ≡ true) ↔ (a ≡ b)
identity_iff a b = list_eq.beq_iff a b
