-- ===== src/Device/Trim.antt =====
-- `Device.Trim` on the active generation.
use satchel.Base.{
  subst, Bool, false, if◌then◌else◌, Option, none, some, ◌==◌, Bool-cases, ℕ, ◌+◌, ◌-◌, ◌*◌, ◌/◌,
  ◌%◌, ◌≤◌, ◌<◌, ◌≡◌, ◌⊎◌, sym, ◌∙◌, arith, ltb, inl, inr,
}
use satchel.Device.Whole.{trimmed_whole, is_failure, trimmed-whole}
use satchel.Device.{
  read_failed, done, Block, Outcome, notify_dirty, trimmed, zeroed, block_size, File, Device,
  Captured, device_closed, out_of_range, wait, punch, block_range, must_wait, trim,
}
use satchel.Device.Capture.{
  range_captured-HoldAll, range_captured-none, range_captured-some, range_captured-Unique,
}
use satchel.Device.Mirror.{Mirrors, Kept, branch-Kept, choice-failed, notify_dirty-Mirrors}

-- Blocks outside the range of a trim are not changed by it.
trim-misses :
    (file : File) (off len k i : ℕ)
    → (k < (block_range off len).0)
      ⊎ ((block_range off len).0 + ((block_range off len).1 - (block_range off len).0) ≤ k)
    → i < block_size
    → punch file off len (k * block_size + i) ≡ file (k * block_size + i)
unfolding block_range
trim-misses file off len k i o h = ground arith

trim-kept :
    (file shadow : File) (off len i : ℕ)
    → (i / block_size < (block_range off len).0)
      ⊎ ((block_range off len).0 + ((block_range off len).1 - (block_range off len).0)
          ≤ i / block_size)
    → file i ≡ shadow i
    → punch file off len i ≡ shadow i
unfolding block_range
trim-kept file shadow off len i o e = ground arith

trim-inside :
    (off len size k : ℕ)
    → off + len ≤ size
    → size % block_size ≡ 0
    → k < (block_range off len).0 + ((block_range off len).1 - (block_range off len).0)
    → k * block_size + block_size ≤ size
unfolding block_range
trim-inside off len size k f a h = ground arith

module _ (shadow : File) (d : Device) (m : Mirrors shadow d)
    (aligned : d.size % block_size ≡ 0) where
  trimmed_whole-Mirrors :
      (off len : ℕ) → off + len ≤ d.size → Mirrors shadow (trimmed_whole d off len)
  unfolding trimmed_whole
  trimmed_whole-Mirrors off len fits =
      let (first, last) = block_range off len in
      let c0 : Captured = record { blocks = d.active; dirty = d.dirty } in
      let new = punch d.file off len in
      let n = last - first in
      record {
        held = range_captured-HoldAll new n first c0 λ k buf e o. record {
          whole = (m.held k buf e).whole;
          same = λ i h. (m.held k buf e).same i h ∙ sym (trim-misses d.file off len k i o h);
        };
        kept = λ i e.
            let (gone, out) = range_captured-none new n first c0 (i / block_size) e in
            trim-kept d.file shadow off len i out (m.kept i gone);
        inside = λ b buf e. elim (range_captured-some new n first c0 b buf e) [
          | inl (x, e') ↦ m.inside b x e'
          | inr l ↦ trim-inside off len d.size b fits aligned l
        ];
        unique = range_captured-Unique new n first c0 m.unique;
      }

  trimmed_choice :
      (fresh : ℕ → Block) (fails : ℕ → Bool) (off len : ℕ)
      → Mirrors shadow (trimmed_whole d off len)
      → Kept shadow (
          if (trimmed fresh fails d off len).1
          then ((trimmed fresh fails d off len).0, read_failed 0)
          else (notify_dirty (trimmed fresh fails d off len).0, done len false))
  trimmed_choice fresh fails off len k = elim (trimmed-whole fresh fails d off len) [
    | inl e ↦ choice-failed _ _ _ e
    | inr e ↦
        subst
          (λ (r : Device × Bool).
            Kept shadow (if r.1 then (r.0, read_failed 0) else (notify_dirty r.0, done len false)))
          (sym e) (λ _. notify_dirty-Mirrors shadow (trimmed_whole d off len) k)
  ]

  zeroed-Kept :
      (broken : Option ℕ) (off len : ℕ) (rest : Device × Outcome)
      → Kept shadow rest
      → Kept shadow (zeroed broken d off len rest)
  zeroed-Kept none off len rest k = k
  zeroed-Kept (some n) off len rest k = elim (Bool-cases (len == 0)) [
    | inl e ↦ rw e k
    | inr e ↦ rw e (λ h. absurd (cc h))
  ]

  -- A trim keeps the active generation a mirror of the image, on every outcome but those of a block that
  -- could not be read and of zeros that could not be written.
  pub trim-Mirrors :
      (fresh : ℕ → Block) (fails : ℕ → Bool) (broken : Option ℕ) (off len : ℕ)
      → is_failure (trim fresh fails broken d off len).1 ≡ false
      → Mirrors shadow (trim fresh fails broken d off len).0
  unfolding trim
  trim-Mirrors fresh fails broken off len =
      branch-Kept d.closed (d, device_closed) _ (λ _. m)
        λ opened.
          branch-Kept (ltb d.size (off + len)) (d, out_of_range) _ (λ _. m)
            λ fits.
              branch-Kept (must_wait d (block_range off len).0 (block_range off len).1) (d, wait) _
                (λ _. m)
                λ room. zeroed-Kept broken off len _ (
                  trimmed_choice fresh fails off len (trimmed_whole-Mirrors off len (ground arith)))
