-- ===== src/Device.antt =====
-- internal/replica/device.go: the local image with its set of changed blocks. The image file is a
-- function from offsets to bytes. A buffer from the block pool holds what it held before: `fresh`
-- gives the content of the buffer taken for a block. Writes of the file and the reads and the zeroing
-- that a write or a trim needs may fail, by arguments. `ReadAt` has no error of the file, and the
-- hydrator is absent here.
pub mod Whole
pub mod Capture
pub mod Mirror
pub mod Trim
pub mod Replay
pub mod Dirty
pub mod Read
mod Tests
use satchel.Base.{
  ℕ, zero, suc, ◌+◌, ◌-◌, ◌*◌, ◌/◌, ◌%◌, min, max, Bool, true, false, not, ◌&&◌, ◌||◌, List, [],
  ◌∷◌, ltb, leb, ◌==◌, if◌then◌else◌, length, take, Option, none, some,
}
use satchel.Base.Bytes.{slice, copy_into, tabulate, get_or}
use satchel.Base.Assoc.{lookup, insert, is_some}

abbrev pub block_size : ℕ
block_size = 4096

abbrev pub Block : Type 0
Block = List ℕ

abbrev pub Blocks : Type 0
Blocks = List (ℕ × Block)

abbrev pub File : Type 0
File = ℕ → ℕ

-- `Generation`
pub record Generation : Type 0 where
  pub blocks : Blocks
  pub bytes : ℕ
  pub journal_seq : ℕ

-- `Generation.Empty` and `Generation.Bytes`; `none` is the nil pointer.
abbrev pub is_empty : Option Generation → Bool
is_empty none = true
is_empty (some g) = length g.blocks == 0

abbrev total_bytes : Blocks → ℕ
total_bytes [] = 0
total_bytes ((b, buf) ∷ m) = length buf + total_bytes m

unfoldable pub generation_bytes : Option Generation → ℕ
generation_bytes none = 0
generation_bytes (some g) = if g.bytes == 0 then total_bytes g.blocks else g.bytes

pub record Device : Type 0 where
  pub file : File
  pub size : ℕ
  pub max_dirty : ℕ
  pub dirty : ℕ
  pub active : Blocks
  pub has_dirty_handler : Bool
  pub dirty_threshold : ℕ
  pub dirty_notified : Bool
  pub notifications : ℕ  -- calls of onDirty so far
  pub has_flush_handler : Bool
  pub has_durable_handler : Bool
  pub skip_local_flush : Bool
  pub local_dirty : Bool
  pub closed : Bool

-- `Device.blockRange`: the first block, and the one after the last.
unfoldable pub block_range : ℕ → ℕ → ℕ × ℕ
block_range off len =
    let first = off / block_size in
    (first, if len == 0 then first else (off + len - 1) / block_size + 1)

-- `Device.newBlockCount`, over `n` blocks from `block`.
unfoldable pub new_block_count : Blocks → ℕ → ℕ → ℕ
new_block_count active block zero = 0
new_block_count active block (suc n) =
    (if is_some (lookup block active) then 0 else 1) + new_block_count active (block + 1) n

abbrev pub write_file : File → ℕ → List ℕ → File
write_file file off p i =
    if leb off i && ltb i (off + length p) then get_or p (i - off) 0 else file i

-- What is read of the file at a block.
unfoldable pub read_block : File → ℕ → Block
unfolding tabulate
read_block file block = tabulate (λ i. file (block * block_size + i)) block_size

pub record Captured : Type 0 where
  pub blocks : Blocks
  pub dirty : ℕ

-- The buffer of a block that has one, or a new one.
abbrev pub buffer_of : Option Block → Block → Block
buffer_of none buf = buf
buffer_of (some old) buf = old

-- The part of a write that falls in a block, which is written in whole or in part.
abbrev pub covers_block : List ℕ → ℕ → ℕ → Bool
covers_block p off block =
    (max off (block * block_size) == block * block_size)
    && (min (off + length p) (block * block_size + block_size) == block * block_size + block_size)

-- The body of the loop of `Device.captureWrite`, when it needs no read or the read works.
unfoldable pub block_captured : (ℕ → Block) → File → List ℕ → ℕ → ℕ → Captured → Captured
unfolding read_block
block_captured fresh file p off block c =
    let block_off = block * block_size in
    let start = max off block_off in
    let stop = min (off + length p) (block_off + block_size) in
    let whole = (start == block_off) && (stop == block_off + block_size) in
    let old = lookup block c.blocks in
    let buf = buffer_of old (if whole then fresh block else read_block file block) in
    record {
      blocks =
          insert block (copy_into buf (start - block_off) (slice p (start - off) (stop - off)))
            c.blocks;
      dirty = if is_some old then c.dirty else c.dirty + block_size;
    }

-- A block whose read fails has its buffer in the active generation, with what is in it then.
unfoldable pub missed : (ℕ → Block) → ℕ → Captured → Captured
missed fresh block c = record {
  blocks = insert block (fresh block) c.blocks;
  dirty = if is_some (lookup block c.blocks) then c.dirty else c.dirty + block_size;
}

-- The body of the loop of `Device.captureWrite`; true is a read that failed.
unfoldable pub capture_block :
    (ℕ → Block) → (ℕ → Bool) → File → List ℕ → ℕ → ℕ → Captured → Captured × Bool
unfolding block_captured missed
capture_block fresh fails file p off block c =
    if not (is_some (lookup block c.blocks)) && not (covers_block p off block) && fails block
    then (missed fresh block c, true)
    else (block_captured fresh file p off block c, false)

-- `Device.captureWrite`
unfoldable pub capture_write :
    (ℕ → Block) → (ℕ → Bool) → File → List ℕ → ℕ → ℕ → ℕ → Captured → Captured × Bool
unfolding capture_block
capture_write fresh fails file p off block zero c = (c, false)
capture_write fresh fails file p off block (suc n) c =
    let here = capture_block fresh fails file p off block c in
    let rest = capture_write fresh fails file p off (block + 1) n here.0 in
    if here.1 then here else rest

-- A block that is read in whole.
unfoldable pub block_read : File → ℕ → Captured → Captured
unfolding read_block
block_read file block c = record {
  blocks = insert block (read_block file block) c.blocks;
  dirty = if is_some (lookup block c.blocks) then c.dirty else c.dirty + block_size;
}

-- `Device.capture`: the whole of each block is read from the file; true is a read that failed.
unfoldable pub capture : (ℕ → Block) → (ℕ → Bool) → File → ℕ → ℕ → Captured → Captured × Bool
unfolding block_read missed
capture fresh fails file block zero c = (c, false)
capture fresh fails file block (suc n) c =
    let rest = capture fresh fails file (block + 1) n (block_read file block c) in
    if fails block then (missed fresh block c, true) else rest

-- `notifyDirtyLocked`
unfoldable pub notify_dirty : Device → Device
notify_dirty d =
    if not d.has_dirty_handler
      || (d.dirty_threshold == 0)
      || d.dirty_notified
      || ltb d.dirty d.dirty_threshold
    then d
    else record d { dirty_notified = true; notifications = d.notifications + 1 }

-- The condition of the loops that wait for unpublished generations to be released.
abbrev pub must_wait : Device → ℕ → ℕ → Bool
must_wait d first last =
    ltb 0 d.dirty
    && ltb d.max_dirty (d.dirty + new_block_count d.active first (last - first) * block_size)

-- How a call ends. After `wait` it is made again, when a generation has been released.
pub data Outcome : Type 0 where
  device_closed out_of_range wait write_failed : Outcome
  read_failed : ℕ → Outcome
  done : ℕ → Bool → Outcome

-- What `Device.WriteAt` does with the bytes that the file has stored; true is a read that failed.
unfoldable pub stored : (ℕ → Block) → (ℕ → Bool) → Device → List ℕ → ℕ → Device × Bool
unfolding block_range capture_write
stored fresh fails d written off =
    let (first, last) = block_range off (length written) in
    let file = write_file d.file off written in
    let c =
      capture_write fresh fails file written off first (last - first)
        (record { blocks = d.active; dirty = d.dirty }) in
    (record d { file = file; local_dirty = true; active = c.0.blocks; dirty = c.0.dirty }, c.1)

-- `Device.WriteAt`. The write to the file stores the first `n` bytes, and `failed` if it has an error;
-- `fails` says for which blocks a read has an error. `fresh` is what a buffer of the pool holds, which
-- may be what a released generation left in it, and what a failed read leaves in a buffer.
unfoldable pub write_at :
    (ℕ → Block) → (ℕ → Bool) → Device → List ℕ → ℕ → ℕ → Bool → Device × Outcome
unfolding block_range stored notify_dirty
write_at fresh fails d p off n failed =
    let (first, last) = block_range off (length p) in
    let written = take n p in
    let r = stored fresh fails d written off in
    if d.closed
    then (d, device_closed)
    else if ltb d.size (off + length p)
    then (d, out_of_range)
    else if must_wait d first last
    then (d, wait)
    else if length written == 0
    then (d, done 0 failed)
    else if r.1
    then (r.0, read_failed (length written))
    else (notify_dirty r.0, done (length written) failed)

abbrev pub punch : File → ℕ → ℕ → File
punch file off len i = if leb off i && ltb i (off + len) then 0 else file i

-- What `Device.Trim` does when the range is zeroed; true is a read that failed.
unfoldable pub trimmed : (ℕ → Block) → (ℕ → Bool) → Device → ℕ → ℕ → Device × Bool
unfolding block_range capture
trimmed fresh fails d off len =
    let (first, last) = block_range off len in
    let file = punch d.file off len in
    let c =
      capture fresh fails file first (last - first)
        (record { blocks = d.active; dirty = d.dirty }) in
    (
      record d {
        file = file;
        local_dirty = if c.1 then d.local_dirty else if ltb 0 len then true else d.local_dirty;
        active = c.0.blocks;
        dirty = c.0.dirty;
      },
      c.1,
    )

-- The zeroing of the range: some bytes of it, when no hole can be punched and a write of zeros fails.
abbrev pub zeroed : Option ℕ → Device → ℕ → ℕ → Device × Outcome → Device × Outcome
zeroed none d off len rest = rest
zeroed (some m) d off len rest =
    if len == 0 then rest else (record d { file = punch d.file off (min m len) }, write_failed)

-- `Device.Trim`
unfoldable pub trim : (ℕ → Block) → (ℕ → Bool) → Option ℕ → Device → ℕ → ℕ → Device × Outcome
unfolding block_range trimmed notify_dirty
trim fresh fails broken d off len =
    let (first, last) = block_range off len in
    let r = trimmed fresh fails d off len in
    if d.closed
    then (d, device_closed)
    else if ltb d.size (off + len)
    then (d, out_of_range)
    else if must_wait d first last
    then (d, wait)
    else zeroed broken d off len
        (if r.1 then (r.0, read_failed 0) else (notify_dirty r.0, done len false))

-- `Device.sealLocked`
unfoldable pub seal : Device → Device × Option Generation
seal d = if length d.active == 0 then (d, none) else (
  record d { active = [] },
  some (record { blocks = d.active; bytes = length d.active * block_size; journal_seq = 0 }),
)

-- `Device.Release`. The generation's buffers go back to the pool: it is not used after this, and what the
-- pool gives later is any content, by `fresh`.
unfoldable pub release : Device → Option Generation → Device
unfolding generation_bytes
release d none = d
release d (some g) =
    let dirty = d.dirty - generation_bytes (some g) in
    record d {
      dirty = dirty;
      dirty_notified = if ltb dirty d.dirty_threshold then false else d.dirty_notified;
    }

-- `Device.Close`
unfoldable pub close : Device → Device
close d = if d.closed then d else record d { closed = true; dirty = 0 }
