-- ===== src/Coordinator/Inputs.antt =====
-- `expand_input_ranges` of crates/off-chain/src/lib.rs.
use stoffel_mpc_coordinator.Prelude.{
  ℕ, zero, suc, ◌+◌, ◌-◌, ◌%◌, ◌≡◌, refl, List, [], ◌∷◌, ◌++◌, Option, none, some, arith, ltb,
  length, length-append, get_elem?, if◌then◌else◌, u64_mod, u64_add,
}
use stoffel_mpc_coordinator.Coordinator.Types.{InputClientRange, InputSlotAssignment}

-- The slots of one range, from the label `label` on.
range_slots : ℕ → ℕ → ℕ → List InputSlotAssignment
range_slots client_index label zero = []
range_slots client_index label (suc count) =
    record { client_index = client_index; label = label }
    ∷ range_slots client_index (label + 1) count

unfoldable pub expand_input_ranges : List InputClientRange → List InputSlotAssignment
unfolding range_slots
expand_input_ranges [] = []
expand_input_ranges (range ∷ ranges) =
    range_slots range.client_index 0 range.count ++ expand_input_ranges ranges

-- `ranges.iter().map(|range| range.count).sum::<u64>()`.
unfoldable pub ranges_total : List InputClientRange → ℕ
ranges_total [] = 0
ranges_total (range ∷ ranges) = u64_add range.count (ranges_total ranges)

-- The slot of a global index by the definition of the wire format: the index falls in the range
-- that starts at the sum of the counts of all earlier ranges, and the label counts from there.
unfoldable pub slot_at : List InputClientRange → ℕ → Option InputSlotAssignment
slot_at [] i = none
slot_at (range ∷ ranges) i =
    if ltb i range.count
    then some (record { client_index = range.client_index; label = i })
    else slot_at ranges (i - range.count)

length-range_slots :
    (client_index label count : ℕ) → length (range_slots client_index label count) ≡ count
unfolding range_slots
length-range_slots c label zero = refl
length-range_slots c label (suc count) = omega (arith, length-range_slots c (label + 1) count)

get_elem?-range_slots :
    (c label count : ℕ) (rest : List InputSlotAssignment) (i : ℕ)
    → get_elem? (range_slots c label count ++ rest) i ≡ (
        if ltb i count
        then some (record { client_index = c; label = label + i })
        else get_elem? rest (i - count))
unfolding range_slots
get_elem?-range_slots c label zero rest i = ground arith
get_elem?-range_slots c label (suc count) rest zero = ground arith
get_elem?-range_slots c label (suc count) rest (suc i) =
    ground (arith, get_elem?-range_slots c (label + 1) count rest i)

-- The expansion agrees with the wire format's definition at every global index, out of range
-- included.
pub get_elem?-expand_input_ranges :
    (ranges : List InputClientRange) (i : ℕ)
    → get_elem? (expand_input_ranges ranges) i ≡ slot_at ranges i
unfolding expand_input_ranges slot_at
get_elem?-expand_input_ranges [] i = refl
get_elem?-expand_input_ranges (range ∷ ranges) i = ground (
  arith,
  get_elem?-range_slots range.client_index 0 range.count (expand_input_ranges ranges) i,
  get_elem?-expand_input_ranges ranges (i - range.count),
)

-- The number of expanded slots is the checked total, modulo 2 ^ 64.
pub length-expand_input_ranges :
    (ranges : List InputClientRange)
    → length (expand_input_ranges ranges) % u64_mod ≡ ranges_total ranges
unfolding expand_input_ranges ranges_total
length-expand_input_ranges [] = refl
length-expand_input_ranges (range ∷ ranges) = omega (
  arith,
  length-append (range_slots range.client_index 0 range.count) (expand_input_ranges ranges),
  length-range_slots range.client_index 0 range.count,
  length-expand_input_ranges ranges,
)
