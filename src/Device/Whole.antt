-- ===== src/Device/Whole.antt =====
-- Writes and trims whose reads of the file work, and when `Device.WriteAt` and `Device.Trim` are these.
use satchel.Base.{
  ℕ, zero, suc, ◌+◌, ◌-◌, ◌≡◌, refl, ap, ◌⊎◌, inl, inr, Bool, true, false, not, ◌&&◌, List, ltb,
  if◌then◌else◌, length,
}
use satchel.Base.Assoc.{lookup, is_some}
use satchel.Device.{
  Block, File, Device, Captured, Outcome, device_closed, out_of_range, wait, done, write_failed,
  read_failed, write_file, punch, block_range, missed, covers_block, block_captured, block_read,
  capture_block, capture_write, capture, stored, trimmed,
}

unfoldable pub blocks_captured : (ℕ → Block) → File → List ℕ → ℕ → ℕ → ℕ → Captured → Captured
blocks_captured fresh file p off block zero c = c
blocks_captured fresh file p off block (suc n) c =
    blocks_captured fresh file p off (block + 1) n (block_captured fresh file p off block c)

unfoldable pub range_captured : File → ℕ → ℕ → Captured → Captured
unfolding block_read
range_captured file block zero c = c
range_captured file block (suc n) c = range_captured file (block + 1) n (block_read file block c)

unfoldable pub stored_whole : (ℕ → Block) → Device → List ℕ → ℕ → Device
unfolding block_range blocks_captured
stored_whole fresh d written off =
    let (first, last) = block_range off (length written) in
    let file = write_file d.file off written in
    let c =
      blocks_captured fresh file written off first (last - first)
        (record { blocks = d.active; dirty = d.dirty }) in
    record d { file = file; local_dirty = true; active = c.blocks; dirty = c.dirty }

unfoldable pub trimmed_whole : Device → ℕ → ℕ → Device
unfolding block_range range_captured
trimmed_whole d off len =
    let (first, last) = block_range off len in
    let file = punch d.file off len in
    let c =
      range_captured file first (last - first) (record { blocks = d.active; dirty = d.dirty }) in
    record d {
      file = file;
      local_dirty = if ltb 0 len then true else d.local_dirty;
      active = c.blocks;
      dirty = c.dirty;
    }

-- The call ends with an error of the file behind the first change to it.
abbrev pub is_failure : Outcome → Bool
is_failure device_closed = false
is_failure out_of_range = false
is_failure wait = false
is_failure write_failed = true
is_failure (read_failed n) = true
is_failure (done n failed) = false

-- One round of a loop that ends with the first failure.
round-whole :
    (t : Bool) (m w : Captured) (f : Captured → Captured × Bool) (z : Captured)
    → ((f w).1 ≡ true) ⊎ (f w ≡ (z, false))
    → let here : Captured × Bool = if t then (m, true) else (w, false) in
      ((if here.1 then here else f here.0).1 ≡ true)
      ⊎ ((if here.1 then here else f here.0) ≡ (z, false))
round-whole true m w f z h = inl refl
round-whole false m w f z h = h

capture_write-whole :
    (fresh : ℕ → Block) (fails : ℕ → Bool) (file : File) (p : List ℕ) (off n block : ℕ)
    (c : Captured)
    → ((capture_write fresh fails file p off block n c).1 ≡ true)
      ⊎ (capture_write fresh fails file p off block n c
          ≡ (blocks_captured fresh file p off block n c, false))
unfolding capture_write capture_block blocks_captured
capture_write-whole fresh fails file p off zero block c = inr refl
capture_write-whole fresh fails file p off (suc n) block c =
    round-whole
      (not (is_some (lookup block c.blocks)) && not (covers_block p off block) && fails block)
      (missed fresh block c) (block_captured fresh file p off block c)
      (λ x. capture_write fresh fails file p off (block + 1) n x)
      (blocks_captured fresh file p off (block + 1) n (block_captured fresh file p off block c))
      (capture_write-whole fresh fails file p off n (block + 1)
        (block_captured fresh file p off block c))

choice-whole :
    (t : Bool) (m : Captured) (r : Captured × Bool) (z : Captured)
    → (r.1 ≡ true) ⊎ (r ≡ (z, false))
    → ((if t then (m, true) else r).1 ≡ true) ⊎ ((if t then (m, true) else r) ≡ (z, false))
choice-whole true m r z h = inl refl
choice-whole false m r z h = h

capture-whole :
    (fresh : ℕ → Block) (fails : ℕ → Bool) (file : File) (n block : ℕ) (c : Captured)
    → ((capture fresh fails file block n c).1 ≡ true)
      ⊎ (capture fresh fails file block n c ≡ (range_captured file block n c, false))
unfolding capture range_captured
capture-whole fresh fails file zero block c = inr refl
capture-whole fresh fails file (suc n) block c =
    choice-whole (fails block) (missed fresh block c)
      (capture fresh fails file (block + 1) n (block_read file block c))
      (range_captured file (block + 1) n (block_read file block c))
      (capture-whole fresh fails file n (block + 1) (block_read file block c))

pub stored-whole :
    (fresh : ℕ → Block) (fails : ℕ → Bool) (d : Device) (p : List ℕ) (off : ℕ)
    → ((stored fresh fails d p off).1 ≡ true)
      ⊎ (stored fresh fails d p off ≡ (stored_whole fresh d p off, false))
unfolding stored stored_whole
stored-whole fresh fails d p off =
    elim (capture_write-whole fresh fails (write_file d.file off p) p off
      ((block_range off (length p)).1 - (block_range off (length p)).0)
      (block_range off (length p)).0 (record { blocks = d.active; dirty = d.dirty })) [
        | inl e ↦ inl e
        | inr e ↦ inr (
            ap
              (λ c. (
                record d {
                  file = write_file d.file off p;
                  local_dirty = true;
                  active = c.0.blocks;
                  dirty = c.0.dirty;
                },
                c.1,
              ))
              e)
      ]

pub trimmed-whole :
    (fresh : ℕ → Block) (fails : ℕ → Bool) (d : Device) (off len : ℕ)
    → ((trimmed fresh fails d off len).1 ≡ true)
      ⊎ (trimmed fresh fails d off len ≡ (trimmed_whole d off len, false))
unfolding trimmed trimmed_whole
trimmed-whole fresh fails d off len =
    elim (capture-whole fresh fails (punch d.file off len)
      ((block_range off len).1 - (block_range off len).0) (block_range off len).0
      (record { blocks = d.active; dirty = d.dirty })) [
        | inl e ↦ inl e
        | inr e ↦ inr (
            ap
              (λ c. (
                record d {
                  file = punch d.file off len;
                  local_dirty =
                      if c.1 then d.local_dirty else if ltb 0 len then true else d.local_dirty;
                  active = c.0.blocks;
                  dirty = c.0.dirty;
                },
                c.1,
              ))
              e)
      ]
