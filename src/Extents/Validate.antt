-- ===== src/Extents/Validate.antt =====
-- `validateExtents` and the ordered lists within its bound.
use satchel.Base.{ℕ, ◌+◌, ◌≤◌, ◌<◌, ◌≡◌, refl, ap, ◌↔◌, ◌≢◌, List, [], ◌∷◌, arith, u64_mod, ok, err}
use satchel.Extents.{Extent, count_overflows, validate_from, validate_extents}
use satchel.Extents.Sets.{Ordered, total_blocks}

-- The fields of an extent are uint64 values.
abbrev pub IsWord : List Extent → Type 0
IsWord [] = Unit
IsWord (e ∷ es) = (e.start < u64_mod) × (e.blocks < u64_mod) × IsWord es

validate_from-ok :
    (max_blocks i total lo : ℕ) (es : List Extent)
    → max_blocks < u64_mod
    → total ≤ lo
    → Ordered lo max_blocks es
    → validate_from max_blocks i total lo es ≡ ok (total + total_blocks es)
unfolding validate_from
validate_from-ok m i t lo [] hm ht h = ap ok (omega arith)
validate_from-ok m i t lo (e ∷ es) hm ht h =
    ground (arith, validate_from-ok m (i + 1) (t + e.blocks) (e.start + e.blocks) es)

validate_from-Ordered :
    (max_blocks i total lo : ℕ) (es : List Extent) (n : ℕ)
    → max_blocks < u64_mod
    → IsWord es
    → total ≤ lo
    → (i ≡ 0 → lo ≡ 0)
    → validate_from max_blocks i total lo es ≡ ok n
    → Ordered lo max_blocks es × (n ≡ total + total_blocks es)
unfolding validate_from
validate_from-Ordered m i t lo [] n hm w ht hi h = ground arith
validate_from-Ordered m i t lo (e ∷ es) n hm w ht hi h =
    ground (arith, validate_from-Ordered m (i + 1) (t + e.blocks) (e.start + e.blocks) es n)

-- `validateExtents` returns the total exactly for the extents that are nonempty, sorted, disjoint
-- and within the bound, and that total is the sum of their lengths.
pub validate_extents_iff :
    (es : List Extent) (max_blocks n : ℕ)
    → max_blocks < u64_mod
    → IsWord es
    → (validate_extents es max_blocks ≡ ok n) ↔ (Ordered 0 max_blocks es × (n ≡ total_blocks es))
unfolding validate_extents
validate_extents_iff es m n hm w = (
  λ h. ground (arith, validate_from-Ordered m 0 0 0 es n hm w (omega arith) (λ _. refl) h),
  λ h. ground (arith, validate_from-ok m 0 0 0 es hm (omega arith) h.0),
)

validate_from-no_overflow :
    (max_blocks i total lo : ℕ) (es : List Extent)
    → max_blocks < u64_mod
    → IsWord es
    → total ≤ lo
    → (i ≡ 0 → lo ≡ 0)
    → lo ≤ max_blocks
    → validate_from max_blocks i total lo es ≢ err count_overflows
unfolding validate_from
validate_from-no_overflow m i t lo [] hm w ht hi hl = λ h. cc
validate_from-no_overflow m i t lo (e ∷ es) hm w ht hi hl =
    ground (arith, validate_from-no_overflow m (i + 1) (t + e.blocks) (e.start + e.blocks) es)

-- The overflow of the count is never the error that `validateExtents` reports.
pub validate_extents-no_overflow :
    (es : List Extent) (max_blocks : ℕ)
    → max_blocks < u64_mod
    → IsWord es
    → validate_extents es max_blocks ≢ err count_overflows
unfolding validate_extents
validate_extents-no_overflow es m hm w =
    validate_from-no_overflow m 0 0 0 es hm w (omega arith) (λ _. refl) (omega arith)
