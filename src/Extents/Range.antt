-- ===== src/Extents/Range.antt =====
-- `intersectExtent` and `byteRangeExtents`.
use satchel.Base.{
  ℕ, ◌+◌, ◌*◌, ◌/◌, ◌≤◌, ◌<◌, ◌≡◌, ◌↔◌, true, ◌&&◌, List, [], ◌∷◌, arith, leb, u64_mod, Bool-cases,
  inl, inr, max,
}
use satchel.Extents.{Extent, end, intersect_extent, byte_range_extents, default_block_size}
use satchel.Extents.Sets.{has, covers, covers-append, Ordered, covers-ge}
use satchel.Extents.Subtract.{covers-piece}

-- `intersectExtent` covers exactly the blocks of the target that lie in the ordered extents.
pub covers-intersect_extent :
    (target : Extent) (lo hi : ℕ) (es : List Extent) (b : ℕ)
    → target.start + target.blocks < u64_mod
    → Ordered lo hi es
    → hi < u64_mod
    → covers (intersect_extent target es) b ≡ (has target b && covers es b)
unfolding intersect_extent
covers-intersect_extent t lo hi [] b f h w = ground arith
covers-intersect_extent t lo hi (e ∷ es) b f h w = elim (Bool-cases (leb (end e) t.start)) [
  | inl x ↦ rw x (ground (arith, covers-intersect_extent t (e.start + e.blocks) hi es b f h.3))
  | inr x ↦ elim (Bool-cases (leb (end t) e.start)) [
    | inl y ↦ rw (x, y) (ground (arith, covers-ge (e.start + e.blocks) hi es b h.3))
    | inr y ↦
        rw
          (
            x,
            y,
            covers-append,
            covers-piece,
            covers-intersect_extent t (e.start + e.blocks) hi es b f h.3 w,
          )
          (ground arith)
  ]
]

-- `byteRangeExtents` covers exactly the blocks that hold a byte of the range, cut off at the size.
pub covers-byte_range_extents :
    (off len size b : ℕ)
    → (covers (byte_range_extents off len size) b ≡ true)
      ↔ ((i : ℕ) × (off ≤ i) × (i < off + len) × (i < size) × (i / default_block_size ≡ b))
unfolding byte_range_extents
covers-byte_range_extents off len size b = (
  λ h. (max off (b * default_block_size), ground arith, ground arith, ground arith, ground arith),
  λ (i, l, m, s, q). ground arith,
)
