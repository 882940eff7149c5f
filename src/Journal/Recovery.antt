-- ===== src/Journal/Recovery.antt =====
-- `Journal.ValidateRecovery`, `OpenJournal`'s next sequence number, and what `Acknowledge` keeps.
use Prim.Native.String.{String}
use text.Mathlib.Text.{◌==◌ as str_eq}
use satchel.Base.{
  ℕ, ◌+◌, ◌≤◌, ◌<◌, ◌≡◌, ◌≢◌, refl, Bool, false, not, ◌&&◌, ◌||◌, List, [], ◌∷◌, arith, ltb, ◌==◌,
  if◌then◌else◌, Option, none, some, All, u64, Bool-cases, inl, inr,
}
use satchel.Device.{Generation}
use satchel.Journal.{journal_format, Metadata, remaining, reclaimable, all_sizes}

-- The part of a remote state that recovery looks at.
pub record RemoteHead : Type 0 where
  pub id : String
  pub name : String
  pub size : ℕ
  pub block_size : ℕ
  pub generation : ℕ
  pub manifest : String
  pub epoch : ℕ
  pub holder : Option String  -- of the lease, if there is one

pub data Conflict : Type 0 where
  wrong_identity behind_base manifest_changed wrong_epoch : Conflict

abbrev pub held_by : Option String → String → Bool
held_by none holder = false
held_by (some h) holder = str_eq h holder

-- `Journal.ValidateRecovery`: none, or the conflict.
unfoldable pub validate_recovery : Metadata → RemoteHead → Option Conflict
validate_recovery m s =
    let same_identity =
      str_eq m.format journal_format
      && str_eq m.volume_id s.id
      && str_eq m.volume_name s.name
      && (m.size == s.size)
      && (m.block_size == s.block_size) in
    let same_holder = held_by s.holder m.holder in
    let unchanged_head = (s.generation == m.base_generation) && str_eq s.manifest m.base_manifest in
    let resumed_prefix =
      (s.epoch == u64 (m.writer_epoch + 1)) && ltb m.base_generation s.generation in
    if not same_identity
    then some wrong_identity
    else if ltb s.generation m.base_generation
    then some behind_base
    else if s.epoch == m.writer_epoch
    then if (s.generation == m.base_generation) && not (str_eq s.manifest m.base_manifest)
      then some manifest_changed
      else none
    else if same_holder && (unchanged_head || resumed_prefix)
    then none
    else some wrong_epoch

-- A head in another epoch that the journal's node does not hold is a conflict.
pub validate_recovery-foreign :
    (m : Metadata) (s : RemoteHead)
    → s.epoch ≢ m.writer_epoch
    → held_by s.holder m.holder ≡ false
    → validate_recovery m s ≢ none
unfolding validate_recovery
validate_recovery-foreign m s n h e = ground arith

-- `OpenJournal`: the sequence number after the last entry's, or 1.
unfoldable pub next_sequence : List Generation → ℕ
next_sequence [] = 1
next_sequence (g ∷ []) = g.journal_seq + 1
next_sequence (g ∷ h ∷ gs) = next_sequence (h ∷ gs)

-- Entries in the order of their sequence numbers, from `lo` on and below `hi`.
abbrev pub InOrder : ℕ → ℕ → List Generation → Type 0
InOrder lo hi [] = Unit
InOrder lo hi (g ∷ gs) =
    (lo ≤ g.journal_seq) × (g.journal_seq < hi) × InOrder (g.journal_seq + 1) hi gs

-- The bytes that an acknowledgement makes reclaimable are those of the entries that it removes.
pub reclaimable-remaining :
    (sequence : ℕ) (gs : List Generation)
    → reclaimable sequence gs + all_sizes (remaining sequence gs) ≡ all_sizes gs
reclaimable-remaining sequence [] = refl
reclaimable-remaining sequence (g ∷ gs) = ground (arith, reclaimable-remaining sequence gs)

InOrder-lower :
    (lo lo' hi : ℕ) (gs : List Generation) → lo ≤ lo' → InOrder lo' hi gs → InOrder lo hi gs
InOrder-lower lo lo' hi [] l h = tt
InOrder-lower lo lo' hi (g ∷ gs) l h = (omega (arith, h.0), h.1, h.2)

-- An acknowledgement leaves the entries in order, and only those after the acknowledged one.
pub remaining-InOrder :
    (sequence lo hi : ℕ) (gs : List Generation)
    → InOrder lo hi gs
    → InOrder lo hi (remaining sequence gs)
      × All (λ (g : Generation). sequence < g.journal_seq) (remaining sequence gs)
remaining-InOrder sequence lo hi [] h = (tt, tt)
remaining-InOrder sequence lo hi (g ∷ gs) h =
    let (r, a) = remaining-InOrder sequence (g.journal_seq + 1) hi gs h.2 in
    elim (Bool-cases (ltb sequence g.journal_seq)) [
      | inl e ↦ rw e ((h.0, h.1, r), (ground arith, a))
      | inr e ↦ rw e (
        InOrder-lower lo (g.journal_seq + 1) hi (remaining sequence gs) (omega (arith, h.0)) r,
        a,
      )
    ]
