-- ===== src/Volume/Validate.antt =====
-- The segments of a manifest that `validateManifest` accepts.
use text.Mathlib.Text.{◌==◌ as str_eq}
use satchel.Base.{
  ℕ, ◌+◌, ◌-◌, ◌/◌, ◌≤◌, ◌<◌, ◌≡◌, sym, ◌∙◌, not, ◌&&◌, ◌||◌, List, [], ◌∷◌, arith, leb, ◌==◌,
  u64_mod, ok, All, inl, inr, lt_or_ge, ap, ok_of_bind, ok_of_guard, ok_of_or_error, or_error,
}
use satchel.Extents.{Extent, validate_extents, union_extents, extents_contain}
use satchel.Extents.Sets.{
  covers, covers-append, covers-above, Ordered, Separated-Ordered, total_blocks,
}
use satchel.Extents.Validate.{IsWord, validate_extents_iff}
use satchel.Extents.Union.{union_extents_lem}
use satchel.Extents.Count.{sum, sum_add, sum_congr, sum_tight, bit, sum-covers, sum_nothing}
use satchel.Remote.{ObjectRef, Kind, Manifest}
use satchel.Remote.Plan.{all_extents}
use satchel.Remote.Plan.Sources.{holders, IsValid}
use satchel.Remote.Plan.Newest.{all_extents-Within, held}
use satchel.Volume.{
  Codec, State, bad_extents, bad_zero_extents, bad_reference, bad_digest, count_overflow,
  foreign_manifest, broken_chain, overlapping_segments, volume_format, is_nil, is_sha256,
  known_kind, check_storage, check_blocks, check_segment, check_segments, validate_manifest,
  is_delta,
}

-- Extents of uint64 numbers.
abbrev pub AreWords : List ObjectRef → Type 0
AreWords refs = All (λ (r : ObjectRef). IsWord r.extents × IsWord r.zero_extents) refs

abbrev AreOrdered : ℕ → List ObjectRef → Type 0
AreOrdered hi refs =
    All (λ (r : ObjectRef). Ordered 0 hi r.extents × Ordered 0 hi r.zero_extents) refs

abbrev all_blocks : List ObjectRef → ℕ
all_blocks [] = 0
all_blocks (r ∷ rs) = total_blocks r.extents + all_blocks rs

Ordered-IsWord : (lo hi : ℕ) (es : List Extent) → hi < u64_mod → Ordered lo hi es → IsWord es
Ordered-IsWord lo hi [] w h = tt
Ordered-IsWord lo hi (e ∷ es) w h =
    (omega (arith, h.2), omega (arith, h.2), Ordered-IsWord (e.start + e.blocks) hi es w h.3)

check_blocks-Ordered :
    (hi : ℕ) (kind : Kind) (ref : ObjectRef) (n : ℕ)
    → hi < u64_mod
    → IsWord ref.extents
    → IsWord ref.zero_extents
    → check_blocks hi kind ref ≡ ok n
    → (Ordered 0 hi ref.extents × Ordered 0 hi ref.zero_extents) × (n ≡ total_blocks ref.extents)
unfolding check_blocks
check_blocks-Ordered hi kind ref n w u v h =
    let (blocks, v0, h1) =
      ok_of_bind (or_error (validate_extents ref.extents hi) bad_extents) _ n h in
    let (g1, h2) =
      ok_of_guard (leb blocks ref.blocks && (not (is_delta kind) || (blocks == ref.blocks)))
        bad_extents _ n h1 in
    let (zero_blocks, v1, h3) =
      ok_of_bind (or_error (validate_extents ref.zero_extents hi) bad_zero_extents) _ n h2 in
    let (g2, h4) =
      ok_of_guard (extents_contain ref.extents ref.zero_extents) bad_zero_extents _ n h3 in
    let (o, e) =
      (validate_extents_iff ref.extents hi blocks w u).0 (ok_of_or_error _ bad_extents blocks v0) in
    let (z, f) =
      (validate_extents_iff ref.zero_extents hi zero_blocks w v).0
        (ok_of_or_error _ bad_zero_extents zero_blocks v1) in
    ((o, z), cc (h4, e))

check_segment-Ordered :
    (c : Codec) (state : State) (kind : Kind) (ref : ObjectRef) (n : ℕ)
    → state.size / state.block_size < u64_mod
    → IsWord ref.extents
    → IsWord ref.zero_extents
    → check_segment c state kind ref ≡ ok n
    → (Ordered 0 (state.size / state.block_size) ref.extents
        × Ordered 0 (state.size / state.block_size) ref.zero_extents)
      × (n ≡ total_blocks ref.extents)
unfolding check_segment
check_segment-Ordered c state kind ref n w u v h =
    let hi = state.size / state.block_size in
    let (g1, h1) =
      ok_of_guard
        (not (ref.bytes == 0)
          && not (ref.blocks == 0)
          && leb ref.blocks hi
          && not (is_nil ref.extents))
        bad_reference _ n h in
    let (g2, h2) = ok_of_guard (is_sha256 ref.sha256) bad_digest _ n h1 in
    let (s, g3, h3) = ok_of_bind (check_storage c state.name ref) _ n h2 in
    check_blocks-Ordered hi kind ref n w u v h3

check_segments-Ordered :
    (c : Codec) (state : State) (kind : Kind) (total n : ℕ) (refs : List ObjectRef)
    → state.size / state.block_size < u64_mod
    → AreWords refs
    → check_segments c state kind total refs ≡ ok n
    → AreOrdered (state.size / state.block_size) refs × (n ≡ total + all_blocks refs)
unfolding check_segments
check_segments-Ordered c state kind total n [] w u h = (tt, ground arith)
check_segments-Ordered c state kind total n (ref ∷ refs) w u h =
    let (blocks, s, h1) = ok_of_bind (check_segment c state kind ref) _ n h in
    let (g, h2) = ok_of_guard (leb total (u64_mod - 1 - blocks)) count_overflow _ n h1 in
    let (o, e) = check_segment-Ordered c state kind ref blocks w u.0.0 u.0.1 s in
    let (os, f) = check_segments-Ordered c state kind (total + blocks) n refs w u.1 h2 in
    ((o, os), omega (arith, e, f))

-- How many references hold a block, added up over the blocks below the bound.
sum-holders :
    (hi : ℕ) (refs : List ObjectRef) → AreOrdered hi refs → sum (holders refs) hi ≡ all_blocks refs
sum-holders hi [] h = sum_nothing hi
sum-holders hi (r ∷ rs) h =
    sum_add (λ b. bit (covers r.extents b)) (holders rs) hi
    ∙ omega (arith, sum-covers 0 hi r.extents h.0.0, sum-holders hi rs h.1)

covers-le_holders :
    (refs : List ObjectRef) (b : ℕ) → bit (covers (all_extents refs) b) ≤ holders refs b
covers-le_holders [] b = omega arith
covers-le_holders (r ∷ rs) b =
    ground (arith, covers-append r.extents (all_extents rs) b, covers-le_holders rs b)

-- References whose blocks are as many as the blocks they cover together hold no block twice.
disjoint_of_total :
    (hi : ℕ) (refs : List ObjectRef) (us : List Extent)
    → AreOrdered hi refs
    → Ordered 0 hi us
    → ((b : ℕ) → covers us b ≡ covers (all_extents refs) b)
    → total_blocks us ≡ all_blocks refs
    → (b : ℕ) → holders refs b ≤ 1
disjoint_of_total hi refs us h o same e b = elim (lt_or_ge b hi) [
  | inl l ↦
      let tight =
        sum_tight (holders refs) (λ k. bit (covers (all_extents refs) k)) hi
          (covers-le_holders refs)
          (sum-holders hi refs h
            ∙ sym e
            ∙ sym (sum-covers 0 hi us o)
            ∙ sum_congr (λ k. bit (covers us k)) (λ k. bit (covers (all_extents refs) k)) hi
                (λ k. ap bit (same k)))
          b l in
      ground (arith, tight)
  | inr l ↦
      omega
        (arith, held refs b (covers-above hi (all_extents refs) b (all_extents-Within hi refs h) l))
]

-- The segments of a manifest that `validateManifest` accepts have ordered extents within the volume,
-- and no two of them hold the same block.
pub validate_manifest-IsValid :
    (c : Codec) (state : State) (manifest : Manifest) (expected : ℕ)
    → state.size / state.block_size < u64_mod
    → AreWords manifest.segments
    → validate_manifest c state manifest expected ≡ ok tt
    → IsValid (state.size / state.block_size) manifest.segments
unfolding validate_manifest
validate_manifest-IsValid c state manifest expected w u h =
    let hi = state.size / state.block_size in
    let refs = manifest.segments in
    let united = union_extents [] (all_extents refs) in
    let (g1, h1) =
      ok_of_guard
        (str_eq manifest.format volume_format
          && str_eq manifest.volume_id state.id
          && not (manifest.epoch == 0))
        foreign_manifest _ tt h in
    let (g2, h2) =
      ok_of_guard ((manifest.generation == expected) && not (expected == 0)) broken_chain _ tt h1 in
    let (k, g3, h3) = ok_of_bind (known_kind manifest.kind refs) _ tt h2 in
    let (total, g4, h4) = ok_of_bind (check_segments c state manifest.kind 0 refs) _ tt h3 in
    let (covered, g5, h5) =
      ok_of_bind (or_error (validate_extents united hi) overlapping_segments) _ tt h4 in
    let (o, e) = check_segments-Ordered c state manifest.kind 0 total refs w u g4 in
    let (s, same) =
      union_extents_lem hi [] (all_extents refs) tt (all_extents-Within hi refs o) w in
    let us = Separated-Ordered 0 hi united s in
    let (t, f) =
      (validate_extents_iff united hi covered w (Ordered-IsWord 0 hi united w us)).0
        (ok_of_or_error _ overlapping_segments covered g5) in
    record {
      ordered = o;
      disjoint = disjoint_of_total hi refs united o us same (ground (arith, e, f));
    }
