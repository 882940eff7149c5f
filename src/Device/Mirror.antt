-- ===== src/Device/Mirror.antt =====
-- The image as what was sealed before with the active generation over it, and `Device.WriteAt`.
use satchel.Base.{
  sym, subst, ℕ, ◌+◌, ◌-◌, ◌*◌, ◌/◌, ◌%◌, ◌≤◌, ◌<◌, ◌≡◌, ◌≢◌, ◌⊎◌, refl, Bool, true, false, List,
  arith, ltb, ◌==◌, if◌then◌else◌, length, take, none, some, Bool-cases, inl, inr, length-take, not,
  ◌||◌,
}
use satchel.Base.Assoc.{lookup, Unique}
use satchel.Device.Whole.{stored_whole, is_failure, stored-whole}
use satchel.Device.{
  read_failed, stored, block_size, Block, File, Device, Captured, Outcome, device_closed,
  out_of_range, wait, done, write_file, block_range, notify_dirty, must_wait, write_at,
}
use satchel.Device.Capture.{
  HoldAll, blocks_captured-HoldAll, blocks_captured-none, blocks_captured-some,
  blocks_captured-Unique,
}

-- The image is `shadow` with the buffers of the active generation over it.
pub record Mirrors (shadow : File) (d : Device) : Type 0 where
  pub held : HoldAll d.file d.active
  pub kept : (i : ℕ) → lookup (i / block_size) d.active ≡ none → d.file i ≡ shadow i
  pub inside :
      (block : ℕ) (buf : Block)
      → lookup block d.active ≡ some buf
      → block * block_size + block_size ≤ d.size
  pub unique : Unique d.active

module _ (P : Device → Type 0) where
  pub branch :
      (t : Bool) (x y : Device × Outcome) → P x.0 → (t ≡ false → P y.0) → P (if t then x else y).0
  branch true x y h k = h
  branch false x y h k = k refl

-- The image is mirrored, unless a read or a write failed.
abbrev pub Kept : File → Device × Outcome → Type 0
Kept shadow r = is_failure r.1 ≡ false → Mirrors shadow r.0

module _ {shadow : File} where
  pub branch-Kept :
      (t : Bool) (x y : Device × Outcome)
      → Kept shadow x
      → (t ≡ false → Kept shadow y)
      → Kept shadow (if t then x else y)
  branch-Kept true x y h k = h
  branch-Kept false x y h k = k refl

  pub choice-failed :
      (r : Device × Bool) (n : ℕ) (y : Device × Outcome)
      → r.1 ≡ true
      → Kept shadow (if r.1 then (r.0, read_failed n) else y)
  choice-failed (d, true) n y e = λ h. absurd (cc h)
  choice-failed (d, false) n y e = absurd (cc e)

module _ (shadow : File) (d : Device) where
  pub notify_dirty-Mirrors : Mirrors shadow d → Mirrors shadow (notify_dirty d)
  unfolding notify_dirty
  notify_dirty-Mirrors m =
      elim (Bool-cases (
        not d.has_dirty_handler
        || (d.dirty_threshold == 0)
        || d.dirty_notified
        || ltb d.dirty d.dirty_threshold)) [
          | inl e ↦ rw e m
          | inr e ↦
              rw e (record { held = m.held; kept = m.kept; inside = m.inside; unique = m.unique })
        ]

-- The blocks of `block_range` are those that the range touches.
range-touches :
    (off len k : ℕ)
    → len ≢ 0
    → (block_range off len).0 ≤ k
    → k < (block_range off len).0 + ((block_range off len).1 - (block_range off len).0)
    → (off < k * block_size + block_size) × (k * block_size < off + len)
unfolding block_range
range-touches off len k z l h = ground arith

pub range-below :
    (off len k : ℕ)
    → len ≢ 0
    → k < (block_range off len).0 + ((block_range off len).1 - (block_range off len).0)
    → k * block_size < off + len
unfolding block_range
range-below off len k z h = ground arith

range-misses :
    (off len k : ℕ)
    → len ≢ 0
    → (k < (block_range off len).0)
      ⊎ ((block_range off len).0 + ((block_range off len).1 - (block_range off len).0) ≤ k)
    → (k * block_size + block_size ≤ off) ⊎ (off + len ≤ k * block_size)
unfolding block_range
range-misses off len k z h = ground arith

module _ (shadow : File) (d : Device) (m : Mirrors shadow d)
    (aligned : d.size % block_size ≡ 0) where
  stored_whole-Mirrors :
      (fresh : ℕ → Block) (p : List ℕ) (off : ℕ)
      → ((b : ℕ) → length (fresh b) ≡ block_size)
      → length p ≢ 0
      → off + length p ≤ d.size
      → Mirrors shadow (stored_whole fresh d p off)
  unfolding stored_whole
  stored_whole-Mirrors fresh p off whole z fits =
      let (first, last) = block_range off (length p) in
      let c0 : Captured = record { blocks = d.active; dirty = d.dirty } in
      let new = write_file d.file off p in
      let n = last - first in
      record {
        held =
            blocks_captured-HoldAll fresh whole d.file p off n first c0
              (λ k l h. range-touches off (length p) k z l h)
              (λ k o. range-misses off (length p) k z o) m.held;
        kept = λ i e.
            let (gone, out) = blocks_captured-none fresh new p off n first c0 (i / block_size) e in
            kept_outside new i (range-misses off (length p) (i / block_size) z out) (m.kept i gone);
        inside = λ b buf e. elim (blocks_captured-some fresh new p off n first c0 b buf e) [
          | inl (x, e') ↦ m.inside b x e'
          | inr l ↦ inside_range b l
        ];
        unique = blocks_captured-Unique fresh new p off n first c0 m.unique;
      }
    where
      kept_outside :
          (new : File) (i : ℕ)
          → (i / block_size * block_size + block_size ≤ off)
            ⊎ (off + length p ≤ i / block_size * block_size)
          → d.file i ≡ shadow i
          → write_file d.file off p i ≡ shadow i
      kept_outside new i o e = ground arith

      inside_range :
          (b : ℕ)
          → b
            < (block_range off (length p)).0
              + ((block_range off (length p)).1 - (block_range off (length p)).0)
          → b * block_size + block_size ≤ d.size
      inside_range b l = omega (arith, range-below off (length p) b z l)

  stored_choice :
      (fresh : ℕ → Block) (fails : ℕ → Bool) (p : List ℕ) (off : ℕ) (failed : Bool)
      → Mirrors shadow (stored_whole fresh d p off)
      → Kept shadow (
          if (stored fresh fails d p off).1
          then ((stored fresh fails d p off).0, read_failed (length p))
          else (notify_dirty (stored fresh fails d p off).0, done (length p) failed))
  stored_choice fresh fails p off failed k = elim (stored-whole fresh fails d p off) [
    | inl e ↦ choice-failed _ _ _ e
    | inr e ↦
        subst
          (λ (r : Device × Bool). Kept shadow (
            if r.1
            then (r.0, read_failed (length p))
            else (notify_dirty r.0, done (length p) failed)))
          (sym e) (λ _. notify_dirty-Mirrors shadow (stored_whole fresh d p off) k)
  ]

  -- Whatever a write stores, the active generation still mirrors the image, on every outcome but that of
  -- a block that could not be read.
  pub write_at-Mirrors :
      (fresh : ℕ → Block) (fails : ℕ → Bool) (p : List ℕ) (off n : ℕ) (failed : Bool)
      → ((b : ℕ) → length (fresh b) ≡ block_size)
      → is_failure (write_at fresh fails d p off n failed).1 ≡ false
      → Mirrors shadow (write_at fresh fails d p off n failed).0
  unfolding write_at
  write_at-Mirrors fresh fails p off n failed whole =
      branch-Kept d.closed (d, device_closed) _ (λ _. m)
        λ opened.
          branch-Kept (ltb d.size (off + length p)) (d, out_of_range) _ (λ _. m)
            λ fits.
              branch-Kept
                (must_wait d (block_range off (length p)).0 (block_range off (length p)).1)
                (d, wait) _ (λ _. m)
                λ room.
                  branch-Kept (length (take n p) == 0) (d, done 0 failed) _ (λ _. m)
                    λ some_written. stored_choice fresh fails (take n p) off failed (
                      stored_whole-Mirrors fresh (take n p) off whole (ground arith)
                        (ground (arith, length-take n p)))
