-- ===== src/Loader.antt =====
-- `manifestSourceLoader` of internal/replica/remote.go: inline segments that a reference names by a
-- manifest and an index. The chain of bundles is walked on fuel: bundles are named by their checksums,
-- so their parents make no circle, and a longer chain than the fuel is the error `too_long`.
pub mod Path
mod Tests
use Prim.Native.String.{String, ◌++◌ as ◌<>◌}
use text.Mathlib.Text.{◌==◌ as str_eq}
use satchel.Base.{
  ℕ, zero, suc, Bool, true, false, not, ◌&&◌, List, [], ◌∷◌, ◌++◌, leb, ltb, ◌==◌, if◌then◌else◌,
  length, Option, none, some, Result, ok, err, ◌>>=◌, ◌>>◌, guard, required, or_error,
}
use satchel.Remote.{ObjectRef, Manifest, is_empty}
use satchel.Volume.{
  BundleRef, State, Bundle, BundledManifest, Codec, volume_format, has_suffix, is_nil,
}
use satchel.History.{
  Fetch, HistoryError, missing, too_long, bundle_checksum, bundle_undecodable, invalid_bundle,
  body_of, inline_body,
}

pub data SourceError : Type 0 where
  in_history : HistoryError → SourceError
  absent_from_bundle source_checksum source_undecodable index_outside no_match : SourceError

-- `loadBundleLocked`; what the source keeps in a map is fetched again here.
unfoldable pub load_bundle : Codec → Fetch → String → String → Result HistoryError Bundle
load_bundle c fetch volume_id key = do
  body ← fetch key
  guard (has_suffix key ("/manifest-bundles/" <> c.digest body <> ".json")) bundle_checksum
  bundle ← required (c.bundle_of body) bundle_undecodable
  guard
      (str_eq bundle.format volume_format
        && str_eq bundle.volume_id volume_id
        && not (is_nil bundle.manifests))
      invalid_bundle
  ok bundle

abbrev pub lifted {ℓ} : {A : Type ℓ} → Result HistoryError A → Result SourceError A
lifted (ok a) = ok a
lifted (err e) = err (in_history e)

-- `manifestBody`
unfoldable pub manifest_in_bundle :
    Codec → Fetch → String → String → String → Result SourceError (List ℕ)
unfolding load_bundle
manifest_in_bundle c fetch volume_id bundle_key manifest_key = do
  bundle ← lifted (load_bundle c fetch volume_id bundle_key)
  required (body_of manifest_key bundle.manifests) absent_from_bundle

-- `searchBundleChain`: the body, if it is found, and the keys of the bundles on the way.
unfoldable pub search_chain :
    Codec
    → Fetch
    → String
    → String
    → ℕ
    → Option BundleRef
    → Result HistoryError (Option (List ℕ) × List String)
unfolding load_bundle
search_chain c fetch volume_id key fuel none = ok (none, [])
search_chain c fetch volume_id key zero (some ref) = err too_long
search_chain c fetch volume_id key (suc fuel) (some ref) = do
  bundle ← load_bundle c fetch volume_id ref.key
  elim (body_of key bundle.manifests) [
    | some body ↦ ok (some body, ref.key ∷ [])
    | none ↦ do
      found ← search_chain c fetch volume_id key fuel bundle.parent
      ok (found.0, ref.key ∷ found.1)
  ]

-- A missing bundle counts as not found.
abbrev pub or_missing :
    Result HistoryError (Option (List ℕ) × List String) → Result HistoryError (Option (List ℕ))
or_missing (ok found) = ok found.0
or_missing (err missing) = ok none
or_missing (err e) = err e

-- `resolve`
unfoldable pub resolve : Codec → Fetch → State → ℕ → String → Result HistoryError (List ℕ)
unfolding search_chain
resolve c fetch state fuel key = elim (inline_body key state.inline_manifests) [
  | some body ↦ ok body
  | none ↦ do
    found ← or_missing (search_chain c fetch state.id key fuel state.manifest_bundle)
    elim found [ some body ↦ ok body | none ↦ fetch key ]
]

abbrev pub path_of : Option (List ℕ) × List String → List String
path_of (none, path) = []
path_of (some body, path) = path

-- `findBundlePath`
unfoldable pub find_bundle_path :
    Codec → Fetch → State → ℕ → String → Result HistoryError (List String)
unfolding search_chain
find_bundle_path c fetch state fuel key = elim (inline_body key state.inline_manifests) [
  | some body ↦ ok []
  | none ↦ do
    found ← search_chain c fetch state.id key fuel state.manifest_bundle
    ok (path_of found)
]

abbrev pub segment_at : ℕ → List ObjectRef → Option ObjectRef
segment_at i [] = none
segment_at zero (ref ∷ refs) = some ref
segment_at (suc i) (ref ∷ refs) = segment_at i refs

abbrev pub source_body : Codec → Fetch → State → ℕ → ObjectRef → Result SourceError (List ℕ)
source_body c fetch state fuel ref =
    if is_empty ref.source_bundle
    then lifted (resolve c fetch state fuel ref.source_manifest)
    else manifest_in_bundle c fetch state.id ref.source_bundle ref.source_manifest

-- `inlineSegment`: the data.
unfoldable pub inline_segment : Codec → Fetch → State → ℕ → ObjectRef → Result SourceError (List ℕ)
unfolding resolve manifest_in_bundle
inline_segment c fetch state fuel ref = do
  body ← source_body c fetch state fuel ref
  guard (has_suffix ref.source_manifest ("/manifests/" <> c.digest body <> ".json")) source_checksum
  source ← required (c.manifest_of body) source_undecodable
  found ← required (segment_at ref.source_index source.segments) index_outside
  guard
      (not (is_nil found.inline_data)
        && str_eq found.sha256 ref.sha256
        && (found.bytes == ref.bytes)
        && (found.blocks == ref.blocks)
        && (length found.inline_data == ref.bytes)
        && str_eq (c.digest found.inline_data) ref.sha256)
      no_match
  ok found.inline_data

-- The data of a reference in `applyObjectRef`.
unfoldable pub segment_data : Codec → Fetch → State → ℕ → ObjectRef → Result SourceError (List ℕ)
unfolding inline_segment
segment_data c fetch state fuel ref =
    if not (is_nil ref.inline_data)
    then ok ref.inline_data
    else if not (is_empty ref.source_manifest)
    then inline_segment c fetch state fuel ref
    else lifted (fetch ref.key)
