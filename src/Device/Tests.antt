-- ===== src/Device/Tests.antt =====
-- Runs of the device, and the theorems at a concrete device.
use satchel.Device.Read.{read_file, read_at, end_of_file, read_file-stored_whole}
use satchel.Base.{
  Bool, Option, none, some, ltb, leb, ◌-◌, ◌&&◌, if◌then◌else◌, err, arith, ℕ, ◌+◌, ◌*◌, ◌%◌, ◌≡◌,
  refl, true, false, List, [], ◌∷◌, length,
}
use satchel.Base.Bytes.{tabulate, length-tabulate, get_or}
use satchel.Base.Assoc.{lookup, insert}
use satchel.Device.{
  stored, notify_dirty, Generation, read_failed, write_failed, trimmed, seal, generation_bytes,
  block_size, Block, Device, out_of_range, wait, write_at, trim, block_range, new_block_count,
}
use satchel.Device.Mirror.{Mirrors, write_at-Mirrors}
use satchel.Device.Trim.{trim-Mirrors}
use satchel.Device.Dirty.{outstanding, AllBacked, dirty-run}
use satchel.Device.Whole.{stored_whole, is_failure}
use satchel.Device.Replay.{replay}
use satchel.Device.Replay.Recovery.{overlay}
use satchel.Device.Replay.Trace.{
  Op, store, cut, seal_now, published, step, run, AllWork, start-Mirrors, replay-run,
}

abbrev image : Device
image = record {
  file = λ i. i % 7;
  size = 4 * 4096;
  max_dirty = 8192;
  dirty = 0;
  active = [];
  has_dirty_handler = true;
  dirty_threshold = 4096;
  dirty_notified = false;
  notifications = 0;
  has_flush_handler = true;
  has_durable_handler = false;
  skip_local_flush = false;
  local_dirty = false;
  closed = false;
}

-- The device after a crash: the same image.
abbrev reopened : Device
reopened = record image { max_dirty = 4096 }

abbrev pooled : ℕ → Block
pooled b = tabulate (λ i. 255) block_size

pooled_whole : (b : ℕ) → length (pooled b) ≡ block_size
pooled_whole b = length-tabulate (λ i. 255) block_size

abbrev bytes : List ℕ
bytes = 1 ∷ 2 ∷ 3 ∷ []

abbrev reads : ℕ → Bool
reads b = false

abbrev writes : ℕ → ℕ → Option ℕ
writes i b = none

abbrev ops : List Op
ops =
    store pooled pooled_whole reads (1 ∷ 2 ∷ 3 ∷ []) 4094 3 false
    ∷ seal_now
    ∷ cut pooled reads none 4095 2
    ∷ store pooled pooled_whole reads (9 ∷ 8 ∷ []) 0 1 true
    ∷ []

-- A sealed generation is released while other blocks are written, and a read fails.
abbrev sealed_first : Generation
sealed_first = record { blocks = (0, pooled 0) ∷ (1, pooled 1) ∷ []; bytes = 8192; journal_seq = 1 }

abbrev released_ops : List Op
released_ops =
    store pooled pooled_whole reads (1 ∷ 2 ∷ 3 ∷ []) 4094 3 false
    ∷ seal_now
    ∷ store pooled pooled_whole (λ b. true) (9 ∷ 8 ∷ []) 0 1 true
    ∷ published sealed_first
    ∷ []

crossing_range : block_range 4094 3 ≡ (0, 2)
unfolding block_range
crossing_range = refl

past_the_end : (write_at pooled reads image (1 ∷ []) 16384 1 false).1 ≡ out_of_range
unfolding write_at
past_the_end = refl

full_waits : (trim pooled reads none (record image { dirty = 8192 }) 0 1).1 ≡ wait
unfolding trim new_block_count lookup
full_waits = refl

unread_block : (write_at pooled (λ b. true) image (1 ∷ []) 0 1 false).1 ≡ read_failed 1
unfolding write_at new_block_count lookup stored
unread_block = refl

half_zeroed : (trim pooled reads (some 1) image 0 2).1 ≡ write_failed
unfolding trim new_block_count lookup
half_zeroed = refl

ops-AllWork : AllWork image ops
unfolding step write_at trim seal stored trimmed new_block_count lookup insert
ops-AllWork = (refl, (tt, (refl, (refl, tt))))

replay-run_example :
    let (d', gs) = run image ops in
    ((replay writes reopened gs).1 ≡ true)
    × ((i : ℕ) → overlay d'.active (replay writes reopened gs).0.file i ≡ d'.file i)
replay-run_example =
    replay-run image reopened ops writes refl refl ops-AllWork refl refl refl (λ i b. refl)

released-AllBacked : AllBacked 0 image released_ops
unfolding step write_at seal stored new_block_count lookup insert generation_bytes
released-AllBacked = (tt, (tt, (tt, (omega arith, tt))))

dirty-run_example :
    (run image released_ops).0.dirty
    ≡ length (run image released_ops).0.active * block_size + outstanding 0 image released_ops
dirty-run_example = dirty-run 0 image released_ops refl released-AllBacked

short_write : is_failure (write_at pooled reads image (1 ∷ 2 ∷ 3 ∷ []) 4094 2 true).1 ≡ false
unfolding write_at stored new_block_count lookup insert
short_write = refl

trim_works : is_failure (trim pooled reads none image 4095 2).1 ≡ false
unfolding trim trimmed new_block_count lookup insert
trim_works = refl

write_at-Mirrors_example :
    Mirrors image.file (write_at pooled reads image (1 ∷ 2 ∷ 3 ∷ []) 4094 2 true).0
write_at-Mirrors_example =
    write_at-Mirrors image.file image (start-Mirrors image refl) refl pooled reads (1 ∷ 2 ∷ 3 ∷ [])
      4094 2 true pooled_whole short_write

trim-Mirrors_example : Mirrors image.file (trim pooled reads none image 4095 2).0
trim-Mirrors_example =
    trim-Mirrors image.file image (start-Mirrors image refl) refl pooled reads none 4095 2
      trim_works

read_file-two_bytes :
    get_or (read_file (notify_dirty (stored_whole pooled image bytes 4094)) 4090 8) 5 0 ≡ (
      if leb 4094 (4090 + 5) && ltb (4090 + 5) (4094 + length bytes)
      then get_or bytes (4090 + 5 - 4094) 0
      else get_or (read_file image 4090 8) 5 0)
read_file-two_bytes = read_file-stored_whole pooled image bytes 4094 4090 8 5 (omega arith)

past_the_end_read : read_at image 16384 1 ≡ err end_of_file
unfolding read_at
past_the_end_read = refl
