-- ===== src/Device/Replay.antt =====
-- `Device.Replay`, and the recovery of an image.
pub mod Recovery
pub mod Trace
use satchel.Base.{
  suc, take, ℕ, ◌+◌, ◌*◌, ◌/◌, ◌≤◌, Bool, true, false, ◌||◌, not, List, [], ◌∷◌, ltb, leb, ◌==◌,
  if◌then◌else◌, length, Option, none, some,
}
use satchel.Device.{
  block_size, Block, Blocks, File, Device, Generation, write_file, generation_bytes,
}

-- The inner loop: false is the error for a block of the wrong length or outside the device, or of the write,
-- and what was written before it stays. `fails` says which writes have an error, and how many bytes such
-- a write stores.
unfoldable pub replay_blocks : (ℕ → Option ℕ) → ℕ → File → Blocks → File × Bool
replay_blocks fails size file [] = (file, true)
replay_blocks fails size file ((block, buf) ∷ m) =
    let rest = replay_blocks fails size (write_file file (block * block_size) buf) m in
    if not (length buf == block_size) || leb (size / block_size) block
    then (file, false)
    else (elim (fails block) [
      | none ↦ rest
      | some n ↦ (write_file file (block * block_size) (take n buf), false)
    ])

-- The outer loop, on a device that is open: each generation counts as dirty when it is written.
unfoldable pub replay_from : (ℕ → ℕ → Option ℕ) → Device → List Generation → Device × Bool
unfolding replay_blocks generation_bytes
replay_from fails d [] = (d, true)
replay_from fails d (g ∷ gs) =
    let (file, good) = replay_blocks (fails 0) d.size d.file g.blocks in
    let rest =
      replay_from (λ i. fails (suc i))
        (record d { file = file; dirty = d.dirty + generation_bytes (some g) }) gs in
    if good then rest else (record d { file = file }, false)

unfoldable pub replay : (ℕ → ℕ → Option ℕ) → Device → List Generation → Device × Bool
unfolding replay_from
replay fails d gs = if d.closed then (d, false) else replay_from fails d gs
