-- ===== src/Segment/Runs.antt =====
-- `blocksToExtents` on a sorted list of blocks.
use satchel.Base.{
  ℕ, ◌+◌, ◌≤◌, ◌<◌, ◌≡◌, Bool, false, ◌||◌, List, [], ◌∷◌, arith, ◌==◌, u64_mod, ◌∙◌,
}
use satchel.Extents.{Extent}
use satchel.Extents.Sets.{has, covers, Separated, or_assoc}
use satchel.Segment.{push_block, push_blocks, blocks_to_extents}

-- Strictly increasing blocks from `lo`, below `hi`.
abbrev pub Increasing : ℕ → ℕ → List ℕ → Type 0
Increasing lo hi [] = Unit
Increasing lo hi (b ∷ bs) = (lo ≤ b) × (b < hi) × Increasing (b + 1) hi bs

abbrev pub has_block : List ℕ → ℕ → Bool
has_block [] b = false
has_block (k ∷ ks) b = (k == b) || has_block ks b

push_block_lem :
    (lo n : ℕ) (es : List Extent) (block : ℕ)
    → Separated lo n es
    → lo ≤ n
    → n ≤ block
    → block + 1 < u64_mod
    → Separated lo (block + 1) (push_block es block)
      × ((b : ℕ) → covers (push_block es block) b ≡ (covers es b || (block == b)))
unfolding push_block
push_block_lem lo n [] block h l k w = (ground arith, λ b. ground arith)
push_block_lem lo n (e ∷ []) block h l k w = (ground arith, λ b. ground arith)
push_block_lem lo n (e ∷ m ∷ ls) block h l k w =
    let (s, c) =
      push_block_lem (e.start + e.blocks + 1) n (m ∷ ls) block h.3
        (omega (arith, h.3.0, h.3.1, h.3.2)) k w in
    (
      (h.0, h.1, omega (arith, h.2), s),
      λ b. ground (arith, c b, or_assoc (has e b) (covers (m ∷ ls) b) (block == b)),
    )

Separated-upper : (lo n hi : ℕ) (es : List Extent) → n ≤ hi → Separated lo n es → Separated lo hi es
Separated-upper lo n hi [] l h = tt
Separated-upper lo n hi (e ∷ es) l h =
    (h.0, h.1, omega (arith, h.2), Separated-upper (e.start + e.blocks + 1) n hi es l h.3)

push_blocks_lem :
    (n hi : ℕ) (es : List Extent) (bs : List ℕ)
    → Separated 0 n es
    → n ≤ hi
    → Increasing n hi bs
    → hi < u64_mod
    → Separated 0 hi (push_blocks es bs)
      × ((b : ℕ) → covers (push_blocks es bs) b ≡ (covers es b || has_block bs b))
unfolding push_blocks
push_blocks_lem n hi es [] h l i w = (Separated-upper 0 n hi es l h, λ b. ground arith)
push_blocks_lem n hi es (k ∷ ks) h l i w =
    let (s, c) = push_block_lem 0 n es k h (omega arith) i.0 (omega (arith, i.1)) in
    let (s', c') = push_blocks_lem (k + 1) hi (push_block es k) ks s (omega (arith, i.1)) i.2 w in
    (s', λ b. c' b ∙ (rw (c b) (or_assoc (covers es b) (k == b) (has_block ks b))))

-- `blocksToExtents` of strictly increasing blocks gives extents that are sorted and do not touch, and
-- they cover exactly these blocks.
pub blocks_to_extents_lem :
    (hi : ℕ) (bs : List ℕ)
    → Increasing 0 hi bs
    → hi < u64_mod
    → Separated 0 hi (blocks_to_extents bs)
      × ((b : ℕ) → covers (blocks_to_extents bs) b ≡ has_block bs b)
unfolding blocks_to_extents
blocks_to_extents_lem hi bs i w = push_blocks_lem 0 hi [] bs tt (omega arith) i w
