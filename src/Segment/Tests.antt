-- ===== src/Segment/Tests.antt =====
-- Runs of the block lists, and the theorems at concrete lists.
use satchel.Base.{ℕ, ◌%◌, ◌≡◌, refl, List, [], ◌∷◌, arith, true}
use satchel.Base.Assoc.{lookup, insert}
use satchel.Extents.Sets.{covers, Separated}
use satchel.Device.{Generation}
use satchel.Device.Replay.Recovery.{overlay}
use satchel.Device.Replay.Trace.{overlays}
use satchel.Segment.{blocks_to_extents, merge_generations, is_zero}
use satchel.Segment.Runs.{has_block, blocks_to_extents_lem}
use satchel.Segment.Merge.{overlay-merge_generations}

abbrev dirty_blocks : List ℕ
dirty_blocks = 2 ∷ 3 ∷ 4 ∷ 9 ∷ []

runs_of_dirty_blocks :
    blocks_to_extents dirty_blocks
    ≡ record { start = 2; blocks = 3 } ∷ record { start = 9; blocks = 1 } ∷ []
unfolding blocks_to_extents
runs_of_dirty_blocks = refl

zero_block : is_zero (0 ∷ 0 ∷ []) ≡ true
unfolding is_zero
zero_block = refl

blocks_to_extents_lem_example :
    Separated 0 10 (blocks_to_extents dirty_blocks)
    × ((b : ℕ) → covers (blocks_to_extents dirty_blocks) b ≡ has_block dirty_blocks b)
blocks_to_extents_lem_example = blocks_to_extents_lem 10 dirty_blocks (ground arith) (omega arith)

abbrev first_then_second : List Generation
first_then_second =
    record { blocks = (1, 5 ∷ []) ∷ (2, 6 ∷ []) ∷ []; bytes = 8192; journal_seq = 1 }
    ∷ record { blocks = (2, 7 ∷ []) ∷ []; bytes = 4096; journal_seq = 2 }
    ∷ []

second_wins : (merge_generations first_then_second).blocks ≡ (1, 5 ∷ []) ∷ (2, 7 ∷ []) ∷ []
unfolding merge_generations insert
second_wins = refl

overlay-merge_generations_example :
    overlay (merge_generations first_then_second).blocks (λ i. i % 7)
    ≡ overlays first_then_second (λ i. i % 7)
unfolding lookup
overlay-merge_generations_example =
    overlay-merge_generations first_then_second (λ i. i % 7) (ground arith)
