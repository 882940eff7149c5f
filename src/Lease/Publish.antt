-- ===== src/Lease/Publish.antt =====
-- `Publish` and `PublishCheckpoint` of internal/replica/remote.go. The uploads of a publication, which
-- the source makes at the same time, are made one after the other: they are of objects of their own.
use Prim.Native.String.{String, ◌++◌ as ◌<>◌}
use text.Mathlib.Text.{◌==◌ as str_eq}
use satchel.Base.{
  ℕ, zero, suc, ◌+◌, ◌-◌, ◌/◌, ◌%◌, Bool, true, false, not, ◌&&◌, List, [], ◌∷◌, ◌++◌, ltb, leb,
  ◌==◌, if◌then◌else◌, length, map, u64_mod, Option, none, some, Result, ok, err, ◌>>=◌, ◌>>◌,
  guard, or_error,
}
use satchel.Extents.{Extent, validate_extents, extents_contain, union_extents}
use satchel.Segment.{Segment}
use satchel.Remote.{ObjectRef, Kind, delta, checkpoint, other_kind, Manifest}
use satchel.Remote.Plan.{restore_plan, checkpoint_ready_refs}
use satchel.Volume.{State, Codec, ManifestError, volume_format, volume_prefix, manifest_key, is_nil}
use satchel.History.{HistoryError, restore_manifests}
use satchel.Garbage.{fetch_from}
use satchel.ObjectStore.{Memory}
use satchel.Lease.{Prepared, PreparedBundle, Lease, is_held, attach_bundle}
use satchel.Lease.Commit.{Net, LeaseError, lease_lost, resolve_pending, renew_locked, extent_eq}
use satchel.Lease.Archive.{UploadNet, prepare_bundle}
use satchel.Lease.Placement.{
  PublishError, Published, in_history, in_lease, in_manifest, inline_segment_limit,
  publish_prepared, no_segment, segment_mismatch, bad_extents, bad_zero_extents, count_overflow,
  overlapping,
}

-- A number as `%d` prints it, of at most twenty digits.
abbrev digit : ℕ → String
digit zero = "0"
digit (suc zero) = "1"
digit (suc (suc zero)) = "2"
digit (suc (suc (suc zero))) = "3"
digit (suc (suc (suc (suc zero)))) = "4"
digit (suc (suc (suc (suc (suc zero))))) = "5"
digit (suc (suc (suc (suc (suc (suc zero)))))) = "6"
digit (suc (suc (suc (suc (suc (suc (suc zero))))))) = "7"
digit (suc (suc (suc (suc (suc (suc (suc (suc zero)))))))) = "8"
digit n = "9"

abbrev pub decimal_of : ℕ → ℕ → String
decimal_of zero n = ""
decimal_of (suc fuel) n =
    let higher = decimal_of fuel (n / 10) in if ltb n 10 then digit n else higher <> digit (n % 10)

unfoldable pub decimal : ℕ → String
decimal n = decimal_of 20 n

-- `segmentKey`
unfoldable pub segment_key : String → ℕ → ℕ → String → String
segment_key name epoch generation digest =
    volume_prefix name
    <> "segments/e"
    <> decimal epoch
    <> "-g"
    <> decimal generation
    <> "-"
    <> digest
    <> ".seg.gz"

-- `segmentReference`
unfoldable pub segment_reference : State → Segment → ObjectRef
unfolding segment_key
segment_reference snapshot segment =
    let small = leb (length segment.data_bytes) inline_segment_limit in
    record {
      key =
          if small
          then ""
          else segment_key snapshot.name snapshot.epoch ((snapshot.generation + 1) % u64_mod)
              segment.sha256;
      source_manifest = "";
      source_bundle = "";
      source_index = 0;
      inline_data = if small then segment.data_bytes else [];
      sha256 = segment.sha256;
      bytes = segment.bytes;
      blocks = segment.blocks;
      extents = segment.extents;
      zero_extents = segment.zero_extents;
    }

-- What `uploadSegments` uploads.
abbrev pub segment_uploads : State → List Segment → List (String × List ℕ)
segment_uploads snapshot [] = []
segment_uploads snapshot (segment ∷ segments) =
    let ref = segment_reference snapshot segment in
    let rest = segment_uploads snapshot segments in
    if is_nil ref.inline_data then (ref.key, segment.data_bytes) ∷ rest else rest

-- The first loop of `Publish`.
abbrev pub check_data : Codec → List Segment → Bool
check_data c [] = true
check_data c (segment ∷ segments) =
    not (is_nil segment.data_bytes)
    && not (is_nil segment.extents)
    && str_eq segment.sha256 (c.digest segment.data_bytes)
    && (segment.bytes == length segment.data_bytes)
    && check_data c segments

-- The second loop: the number of blocks.
unfoldable pub check_extents : ℕ → ℕ → List Segment → Result PublishError ℕ
check_extents max_blocks total [] = ok total
check_extents max_blocks total (segment ∷ segments) = do
  blocks ← or_error (validate_extents segment.extents max_blocks) bad_extents
  guard (blocks == segment.blocks) bad_extents
  zero_blocks ← or_error (validate_extents segment.zero_extents max_blocks) bad_zero_extents
  guard (extents_contain segment.extents segment.zero_extents) bad_zero_extents
  guard (leb total (u64_mod - 1 - blocks)) count_overflow
  check_extents max_blocks (total + blocks) segments

abbrev pub segments_extents : List Segment → List Extent
segments_extents [] = []
segments_extents (segment ∷ segments) = segment.extents ++ segments_extents segments

unfoldable pub check_segments : State → List Segment → Result PublishError (Unit {0})
unfolding check_extents
check_segments snapshot segments =
    let max_blocks = snapshot.size / snapshot.block_size in
    do
      total ← check_extents max_blocks 0 segments
      covered ←
          or_error (validate_extents (union_extents [] (segments_extents segments)) max_blocks)
            overlapping
      guard (covered == total) overlapping

-- `sameSegmentReference`
abbrev pub same_reference : ObjectRef → Segment → Bool
same_reference ref segment =
    str_eq ref.sha256 segment.sha256
    && (ref.bytes == segment.bytes)
    && (ref.blocks == segment.blocks)
    && extent_eq ref.extents segment.extents
    && extent_eq ref.zero_extents segment.zero_extents

abbrev pub same_references : List ObjectRef → List Segment → Bool
same_references [] [] = true
same_references [] (segment ∷ segments) = false
same_references (ref ∷ refs) [] = false
same_references (ref ∷ refs) (segment ∷ segments) =
    same_reference ref segment && same_references refs segments

abbrev pub is_delta_kind : Kind → Bool
is_delta_kind delta = true
is_delta_kind checkpoint = false
is_delta_kind (other_kind k) = false

-- `consumeAdoptedPublishLocked`: the adopted manifest is the one of these segments.
abbrev pub adopted_publish : State → Option Manifest → List Segment → Bool
adopted_publish state none segments = false
adopted_publish state (some manifest) segments =
    is_delta_kind manifest.kind
    && (manifest.generation == state.generation)
    && (manifest.epoch == state.epoch)
    && same_references manifest.segments segments

-- `prepareManifest`
unfoldable pub prepare_manifest : Codec → State → Manifest → Prepared
prepare_manifest c snapshot manifest =
    let body = c.manifest_body manifest in
    record { manifest = manifest; body = body; key = manifest_key c snapshot.name body }

abbrev pub next_manifest : State → ℕ → Kind → List ObjectRef → Manifest
next_manifest snapshot now kind refs = record {
  format = volume_format;
  volume_id = snapshot.id;
  generation = (snapshot.generation + 1) % u64_mod;
  epoch = snapshot.epoch;
  kind = kind;
  parent = snapshot.manifest;
  segments = refs;
  created_at = now;
}

abbrev pub refused_with : Memory → Lease → PublishError → Published
refused_with m l e = record { memory = m; lease = l; error = some e; background = none }

abbrev pub publish_checked :
    Codec
    → Net
    → (ℕ → UploadNet)
    → ℕ
    → ℕ
    → List Segment
    → Memory
    → Lease
    → Result PublishError (Unit {0})
    → Published
publish_checked c net nets now ttl segments m l (err e) = refused_with m l e
publish_checked c net nets now ttl segments m l (ok u) =
    publish_prepared c net nets now ttl l.state
      (prepare_manifest c l.state
        (next_manifest l.state now delta (map (segment_reference l.state) segments)))
      (segment_uploads l.state segments) none false m l

-- `Publish`, when no commit is pending.
unfoldable pub publish_held :
    Codec → Net → (ℕ → UploadNet) → ℕ → ℕ → List Segment → Memory → Lease → Published
unfolding publish_prepared prepare_manifest segment_reference check_segments renew_locked
publish_held c net nets now ttl segments m l =
    let (m', l') = renew_locked c net now ttl m (record l { adopted_manifest = none }) in
    if not (is_held l)
    then refused_with m l (in_lease lease_lost)
    else if adopted_publish l.state l.adopted_manifest segments
    then record { memory = m'; lease = l'; error = none; background = none }
    else publish_checked c net nets now ttl segments m l (check_segments l.state segments)

abbrev pub publish_after : Lease × Option LeaseError → Memory → (Lease → Published) → Published
publish_after (l, some e) m next = refused_with m l (in_lease e)
publish_after (l, none) m next = next l

-- `Publish`
unfoldable pub publish :
    Codec → Net → (ℕ → UploadNet) → ℕ → ℕ → List Segment → Memory → Lease → Published
unfolding publish_held resolve_pending
publish c net nets now ttl segments m l =
    if is_nil segments
    then refused_with m l no_segment
    else if not (check_data c segments)
    then refused_with m l segment_mismatch
    else publish_after (resolve_pending net m l) m (publish_held c net nets now ttl segments m)

-- The references of a checkpoint.
abbrev pub checkpoint_plan : Codec → Memory → Lease → Result HistoryError (List ObjectRef)
checkpoint_plan c m l =
    if l.plan_known
    then ok l.plan
    else (restore_manifests c (fetch_from m) l.state >>= λ entries. ok (restore_plan entries))

abbrev pub attached : List ObjectRef → Option PreparedBundle → List ObjectRef
attached refs none = refs
attached refs (some bundle) = attach_bundle refs bundle

abbrev pub publish_bundled :
    Codec
    → Net
    → (ℕ → UploadNet)
    → ℕ
    → ℕ
    → Memory
    → Lease
    → List ObjectRef
    → Result ManifestError (Option PreparedBundle)
    → Published
publish_bundled c net nets now ttl m l refs (err e) = refused_with m l (in_manifest e)
publish_bundled c net nets now ttl m l refs (ok bundle) =
    publish_prepared c net nets now ttl l.state
      (prepare_manifest c l.state
        (next_manifest l.state now checkpoint (checkpoint_ready_refs (attached refs bundle))))
      [] bundle true m l

abbrev pub publish_planned :
    Codec
    → Net
    → (ℕ → UploadNet)
    → ℕ
    → ℕ
    → Memory
    → Lease
    → Result HistoryError (List ObjectRef)
    → Published
publish_planned c net nets now ttl m l (err e) = refused_with m l (in_history e)
publish_planned c net nets now ttl m l (ok refs) =
    publish_bundled c net nets now ttl m l refs (prepare_bundle c l.state)

-- `PublishCheckpoint`
unfoldable pub publish_checkpoint :
    Codec → Net → (ℕ → UploadNet) → ℕ → ℕ → Memory → Lease → Published
unfolding publish_prepared prepare_manifest prepare_bundle attach_bundle checkpoint_ready_refs
    restore_manifests restore_plan
publish_checkpoint c net nets now ttl m l =
    if is_held l
    then publish_planned c net nets now ttl m l (checkpoint_plan c m l)
    else refused_with m l (in_lease lease_lost)
