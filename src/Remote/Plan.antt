-- ===== src/Remote/Plan.antt =====
-- internal/replica/remote.go: the plan of a restore, that is, which stored segment holds each block.
-- `restore_plan` walks the manifests from the newest; `apply_delta_to_plan` updates a plan.
pub mod Sources
pub mod Newest
pub mod Incremental
use Prim.Native.String.{String}
use satchel.Base.{
  ℕ, suc, ◌+◌, ◌%◌, ◌^◌, Bool, true, false, not, ◌&&◌, List, [], ◌∷◌, ◌++◌, if◌then◌else◌, map,
}
use satchel.Extents.{Extent, subtract_extents, union_extents}
use satchel.Remote.{ObjectRef, Manifest, ManifestEntry, is_empty}

abbrev pub is_nil {ℓ} : {A : Type ℓ} → List A → Bool
is_nil [] = true
is_nil (x ∷ xs) = false

-- A reference kept with the extents that are still visible, and dropped if none is.
unfoldable pub keep_visible : ObjectRef → List Extent → List ObjectRef
keep_visible ref [] = []
keep_visible ref (e ∷ es) = record ref { extents = e ∷ es; zero_extents = [] } ∷ []

-- The body of the inner loop of `restorePlan` before the subtraction: an inline segment is named by
-- its manifest and its place there.
unfoldable pub locate : String → String → ℕ → ObjectRef → ObjectRef
locate key bundle index ref =
    if not (is_nil ref.inline_data) && not (is_empty key)
    then record ref { source_manifest = key; source_bundle = bundle; source_index = index % 2 ^ 32 }
    else ref

unfoldable pub plan_segments : String → String → List Extent → ℕ → List ObjectRef → List ObjectRef
unfolding keep_visible
plan_segments key bundle covered index [] = []
plan_segments key bundle covered index (original ∷ refs) =
    let visible = subtract_extents original.extents covered in
    let non_zero = subtract_extents visible original.zero_extents in
    keep_visible (locate key bundle index original) non_zero
    ++ plan_segments key bundle covered (suc index) refs

abbrev pub all_extents : List ObjectRef → List Extent
all_extents [] = []
all_extents (ref ∷ refs) = ref.extents ++ all_extents refs

-- The outer loop of `restorePlan`, over the manifests from the newest to the oldest.
unfoldable pub plan_from : List Extent → List ManifestEntry → List ObjectRef
plan_from covered [] = []
plan_from covered (entry ∷ entries) =
    plan_segments entry.key entry.bundle covered 0 entry.manifest.segments
    ++ plan_from (union_extents covered (all_extents entry.manifest.segments)) entries

unfoldable pub restore_plan : List ManifestEntry → List ObjectRef
unfolding plan_from
restore_plan entries = plan_from [] entries

-- `checkpointRefs`: the references of a manifest that is stored under `key`, inline data replaced by
-- the place where it is found.
unfoldable pub checkpoint_refs_from : String → ℕ → List ObjectRef → List ObjectRef
checkpoint_refs_from key index [] = []
checkpoint_refs_from key index (ref ∷ refs) =
    (if is_nil ref.inline_data
      then ref
      else record ref { inline_data = []; source_manifest = key; source_index = index % 2 ^ 32 })
    ∷ checkpoint_refs_from key (suc index) refs

unfoldable pub checkpoint_refs : String → Manifest → List ObjectRef
unfolding checkpoint_refs_from
checkpoint_refs key manifest = checkpoint_refs_from key 0 manifest.segments

-- `checkpointReadyRefs`
unfoldable pub ready_ref : ObjectRef → ObjectRef
ready_ref ref = if is_empty ref.source_manifest then ref else record ref { inline_data = [] }

unfoldable pub checkpoint_ready_refs : List ObjectRef → List ObjectRef
unfolding ready_ref
checkpoint_ready_refs refs = map ready_ref refs

-- The first loop of `applyDeltaToPlan`, and its `covered`.
unfoldable pub delta_refs : List ObjectRef → List ObjectRef
unfolding keep_visible
delta_refs [] = []
delta_refs (original ∷ refs) =
    keep_visible original (subtract_extents original.extents original.zero_extents)
    ++ delta_refs refs

unfoldable pub delta_covered : List Extent → List ObjectRef → List Extent
delta_covered covered [] = covered
delta_covered covered (original ∷ refs) =
    delta_covered (union_extents covered original.extents) refs

-- The second loop of `applyDeltaToPlan`.
unfoldable pub surviving_refs : List Extent → List ObjectRef → List ObjectRef
unfolding keep_visible
surviving_refs covered [] = []
surviving_refs covered (original ∷ refs) =
    keep_visible original (subtract_extents original.extents covered) ++ surviving_refs covered refs

unfoldable pub apply_delta_to_plan : List ObjectRef → List ObjectRef → List ObjectRef
unfolding delta_refs delta_covered surviving_refs
apply_delta_to_plan current delta =
    delta_refs delta ++ surviving_refs (delta_covered [] delta) current
