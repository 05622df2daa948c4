-- ===== src/Shared/Round.antt =====
-- `Round`, `round_index` and `round_before` of crates/coord-shared/src/lib.rs.
use stoffel_mpc_coordinator.Prelude.{
  ℕ, zero, suc, ◌≤◌, ◌≡◌, refl, ◌↔◌, Bool, true, Option, none, some, arith, nat_beq, Eq, ap,
}

pub data Round : Type 0 where
  idle preprocessing input_mask_reservation input_collection : Round
  mpc_execution output_distribution program_finished : Round

unfoldable pub round_index : Round → ℕ
round_index idle = 0
round_index preprocessing = 1
round_index input_mask_reservation = 2
round_index input_collection = 3
round_index mpc_execution = 4
round_index output_distribution = 5
round_index program_finished = 6

unfoldable pub round_before : Round → Option Round
round_before idle = none
round_before preprocessing = some idle
round_before input_mask_reservation = some preprocessing
round_before input_collection = some input_mask_reservation
round_before mpc_execution = some input_collection
round_before output_distribution = some mpc_execution
round_before program_finished = some output_distribution

-- The derived `PartialEq` of the enum.
abbrev pub round_beq : Round → Round → Bool
unfolding round_index
round_beq a b = nat_beq (round_index a) (round_index b)

-- The round of a position, the inverse of `round_index`.
round_at : ℕ → Round
round_at zero = idle
round_at (suc zero) = preprocessing
round_at (suc (suc zero)) = input_mask_reservation
round_at (suc (suc (suc zero))) = input_collection
round_at (suc (suc (suc (suc zero)))) = mpc_execution
round_at (suc (suc (suc (suc (suc zero))))) = output_distribution
round_at (suc (suc (suc (suc (suc (suc n)))))) = program_finished

round_at-round_index : (r : Round) → round_at (round_index r) ≡ r
unfolding round_at round_index
round_at-round_index idle = refl
round_at-round_index preprocessing = refl
round_at-round_index input_mask_reservation = refl
round_at-round_index input_collection = refl
round_at-round_index mpc_execution = refl
round_at-round_index output_distribution = refl
round_at-round_index program_finished = refl

pub round_index-injective : (a b : Round) → round_index a ≡ round_index b → a ≡ b
round_index-injective a b h = cc (round_at-round_index a, round_at-round_index b, ap round_at h)

pub round_beq_iff : (a b : Round) → (round_beq a b ≡ true) ↔ (a ≡ b)
unfolding round_index
round_beq_iff a b = ground (arith, round_index-injective a b)

instance abbrev pub round_eq : Eq Round
round_eq = record { beq = round_beq; beq_iff = round_beq_iff }

pub round_index-le : (r : Round) → round_index r ≤ 6
unfolding round_index
round_index-le r = ground arith

-- One round precedes another exactly when its position is one less.
pub round_before_iff :
    (a b : Round) → (round_before b ≡ some a) ↔ (round_index b ≡ suc (round_index a))
unfolding round_before round_index
round_before_iff a b = ground (arith, round_index-injective a b)
