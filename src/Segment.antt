-- ===== src/Segment.antt =====
-- The block lists of internal/replica/segment.go, and `mergeGenerations` of
-- internal/replica/syncer.go: what is published of several generations.
pub mod Runs
pub mod Merge
pub mod Encode
mod Tests
use Prim.Native.String.{String}
use satchel.Base.{ℕ, ◌+◌, ◌*◌, Bool, true, false, ◌&&◌, List, [], ◌∷◌, ◌==◌, if◌then◌else◌, length}
use satchel.Base.Assoc.{insert}
use satchel.Extents.{Extent, end}
use satchel.Device.{Block, Blocks, Generation, block_size}

-- `Segment`
pub record Segment : Type 0 where
  pub data_bytes : List ℕ
  pub sha256 : String
  pub bytes : ℕ
  pub blocks : ℕ
  pub extents : List Extent
  pub zero_extents : List Extent

-- The body of the loop of `blocksToExtents`.
unfoldable pub push_block : List Extent → ℕ → List Extent
push_block [] block = record { start = block; blocks = 1 } ∷ []
push_block (l ∷ []) block =
    if end l == block
    then record l { blocks = l.blocks + 1 } ∷ []
    else l ∷ record { start = block; blocks = 1 } ∷ []
push_block (l ∷ m ∷ ls) block = l ∷ push_block (m ∷ ls) block

unfoldable pub push_blocks : List Extent → List ℕ → List Extent
unfolding push_block
push_blocks extents [] = extents
push_blocks extents (block ∷ blocks) = push_blocks (push_block extents block) blocks

unfoldable pub blocks_to_extents : List ℕ → List Extent
unfolding push_blocks
blocks_to_extents blocks = push_blocks [] blocks

-- `isZero`
unfoldable pub is_zero : Block → Bool
is_zero [] = true
is_zero (value ∷ rest) = (value == 0) && is_zero rest

-- The inner loop of `mergeGenerations`, and the outer one.
unfoldable pub absorb : Blocks → Blocks → Blocks
absorb blocks [] = blocks
absorb blocks ((block, buf) ∷ m) = absorb (insert block buf blocks) m

unfoldable pub absorb_all : Blocks → List Generation → Blocks
unfolding absorb
absorb_all blocks [] = blocks
absorb_all blocks (g ∷ gs) = absorb_all (absorb blocks g.blocks) gs

unfoldable pub merge_generations : List Generation → Generation
unfolding absorb_all
merge_generations gs =
    let blocks = absorb_all [] gs in
    record { blocks = blocks; bytes = length blocks * block_size; journal_seq = 0 }
