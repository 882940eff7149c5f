-- ===== src/Extents/Tests.antt =====
-- Runs of the extent operations, and the theorems at concrete extents.
use satchel.Base.{
  ℕ, ◌+◌, ◌/◌, ◌≤◌, ◌<◌, ◌≡◌, ◌≢◌, ◌↔◌, refl, true, false, not, ◌&&◌, ◌||◌, List, [], ◌∷◌, arith,
  ok, err,
}
use satchel.Extents.{
  Extent, overlapping, count_overflows, validate_extents, extents_contain, subtract_extents,
  normalize_extents, union_extents, intersect_extent, byte_range_extents, skip_ended,
  default_block_size,
}
use satchel.Extents.Sets.{has, covers, Ordered, Separated, total_blocks}
use satchel.Extents.Validate.{validate_extents_iff, validate_extents-no_overflow}
use satchel.Extents.Subtract.{covers-subtract_extents}
use satchel.Extents.Subtract.Order.{subtract_extents-Ordered}
use satchel.Extents.Union.{normalize_extents_lem, union_extents_lem}
use satchel.Extents.Contain.{extents_contain_iff}
use satchel.Extents.Range.{covers-intersect_extent, covers-byte_range_extents}

abbrev ext : ℕ → ℕ → Extent
ext start blocks = record { start = start; blocks = blocks }

abbrev wide : List Extent
wide = ext 0 10 ∷ ext 20 5 ∷ []

abbrev holes : List Extent
holes = ext 3 2 ∷ ext 8 14 ∷ []

abbrev shuffled : List Extent
shuffled = ext 24 6 ∷ ext 10 2 ∷ []

wide_validates : validate_extents wide 25 ≡ ok 15
unfolding validate_extents
wide_validates = refl

overlap_refused : validate_extents (ext 0 4 ∷ ext 3 2 ∷ []) 25 ≡ err overlapping
unfolding validate_extents
overlap_refused = refl

wide_without_holes : subtract_extents wide holes ≡ ext 0 3 ∷ ext 5 3 ∷ ext 22 3 ∷ []
unfolding subtract_extents skip_ended
wide_without_holes = refl

wide_and_shuffled : union_extents wide shuffled ≡ ext 0 12 ∷ ext 20 10 ∷ []
unfolding union_extents
wide_and_shuffled = refl

wide_contains : extents_contain wide (ext 2 3 ∷ ext 21 2 ∷ []) ≡ true
unfolding extents_contain skip_ended
wide_contains = refl

crossing_not_contained : extents_contain wide (ext 8 4 ∷ []) ≡ false
unfolding extents_contain skip_ended
crossing_not_contained = refl

covers-subtract_extents_example :
    covers (subtract_extents wide holes) 8 ≡ (covers wide 8 && not (covers holes 8))
covers-subtract_extents_example =
    covers-subtract_extents 0 25 0 22 wide holes 8 (ground arith) (ground arith) (omega arith)
      (omega arith)

subtract_extents-Ordered_example : Ordered 0 25 (subtract_extents wide holes)
subtract_extents-Ordered_example =
    subtract_extents-Ordered 0 25 0 22 wide holes (ground arith) (ground arith) (omega arith)
      (omega arith)

normalize_extents_lem_example :
    Separated 0 30 (normalize_extents shuffled)
    × ((b : ℕ) → covers (normalize_extents shuffled) b ≡ covers shuffled b)
normalize_extents_lem_example = normalize_extents_lem 30 shuffled (ground arith) (omega arith)

union_extents_lem_example :
    Separated 0 30 (union_extents wide shuffled)
    × ((b : ℕ) → covers (union_extents wide shuffled) b ≡ (covers wide b || covers shuffled b))
union_extents_lem_example =
    union_extents_lem 30 wide shuffled (ground arith) (ground arith) (omega arith)

extents_contain_iff_example :
    (extents_contain wide holes ≡ true) ↔ ((b : ℕ) → covers holes b ≡ true → covers wide b ≡ true)
extents_contain_iff_example =
    extents_contain_iff 25 (omega arith) wide 22 holes (ground arith) (ground arith) (omega arith)

validate_extents_iff_example :
    (validate_extents wide 25 ≡ ok 15) ↔ (Ordered 0 25 wide × (15 ≡ total_blocks wide))
validate_extents_iff_example = validate_extents_iff wide 25 15 (omega arith) (ground arith)

validate_extents-no_overflow_example : validate_extents wide 25 ≢ err count_overflows
validate_extents-no_overflow_example =
    validate_extents-no_overflow wide 25 (omega arith) (ground arith)

covers-middle_extent :
    covers (intersect_extent (ext 4 18) wide) 21 ≡ (has (ext 4 18) 21 && covers wide 21)
covers-middle_extent =
    covers-intersect_extent (ext 4 18) 0 25 wide 21 (omega arith) (ground arith) (omega arith)

covers-byte_range_extents_example :
    (covers (byte_range_extents 4000 5000 20000) 2 ≡ true)
    ↔ ((i : ℕ) × (4000 ≤ i) × (i < 4000 + 5000) × (i < 20000) × (i / default_block_size ≡ 2))
covers-byte_range_extents_example = covers-byte_range_extents 4000 5000 20000 2
