-- ===== src/History.antt =====
-- internal/replica/remote.go: the manifests of a volume, followed from its state. They are inline in the
-- state, in bundles that are chained by their parents, or objects of their own. `fetch` is the store's
-- `Get`; it is a function, so what the source keeps in a map of bundles is fetched again here.
pub mod Bundles
pub mod Chain
pub mod Restore
pub mod Sample
mod Tests
use Prim.Native.String.{String}
use text.Mathlib.Text.{◌==◌ as str_eq}
use satchel.Base.{
  ℕ, zero, suc, ◌+◌, ◌-◌, ◌%◌, Bool, true, false, not, ◌&&◌, ◌||◌, List, [], ◌∷◌, ltb, leb, ◌==◌,
  if◌then◌else◌, u64_mod, Option, none, some, Result, ok, err, ◌>>=◌, ◌>>◌, guard, required,
  or_error,
}
use satchel.Remote.{Kind, delta, checkpoint, other_kind, Manifest, ManifestEntry, is_empty}
use satchel.Volume.{
  LeaseRecord, BundleRef, State, BundledManifest, Bundle, Codec, volume_format, bundle_key,
  valid_bundle_ref, ManifestError, decode_manifest, is_nil,
}

pub data HistoryError : Type 0 where
  missing unavailable : HistoryError
  bundle_checksum bundle_undecodable invalid_bundle invalid_parent unordered_generations
        bundle_range :
      HistoryError
  in_manifest : ManifestError → HistoryError
  one_has_parent ended_early too_long not_retained : HistoryError

abbrev pub Fetch : Type 0
Fetch = String → Result HistoryError (List ℕ)

-- `decodeManifest`, its error wrapped.
abbrev pub wrapped {ℓ} : {A : Type ℓ} → Result ManifestError A → Result HistoryError A
wrapped (ok a) = ok a
wrapped (err e) = err (in_manifest e)

abbrev pub good_parent : String → Option BundleRef → ℕ → Bool
good_parent name none first = true
good_parent name (some ref) first = valid_bundle_ref name ref && ltb ref.last_generation first

-- The loop of `readManifestBundle` after the first entry: the last generation.
unfoldable pub bundle_rest :
    Codec → State → ℕ → ℕ → ℕ → List BundledManifest → Result HistoryError ℕ
bundle_rest c state first last previous [] = ok previous
bundle_rest c state first last previous (entry ∷ entries) = do
  manifest ← wrapped (decode_manifest c state entry.key entry.body 0)
  guard
      (leb first manifest.generation
        && leb manifest.generation last
        && ltb previous manifest.generation)
      unordered_generations
  bundle_rest c state first last manifest.generation entries

-- The loop: the first generation and the last.
unfoldable pub bundle_generations :
    Codec → State → ℕ → ℕ → List BundledManifest → Result HistoryError (ℕ × ℕ)
unfolding bundle_rest
bundle_generations c state first last [] = ok (0, 0)
bundle_generations c state first last (entry ∷ entries) = do
  manifest ← wrapped (decode_manifest c state entry.key entry.body 0)
  guard (leb first manifest.generation && leb manifest.generation last) unordered_generations
  previous ← bundle_rest c state first last manifest.generation entries
  ok (manifest.generation, previous)

-- `readManifestBundle`
unfoldable pub read_bundle : Codec → Fetch → State → BundleRef → Result HistoryError Bundle
unfolding bundle_generations
read_bundle c fetch state ref = do
  body ← fetch ref.key
  guard (str_eq ref.key (bundle_key c state.name body)) bundle_checksum
  bundle ← required (c.bundle_of body) bundle_undecodable
  guard
      (str_eq bundle.format volume_format
        && str_eq bundle.volume_id state.id
        && (bundle.first_generation == ref.first_generation)
        && (bundle.last_generation == ref.last_generation)
        && not (is_nil bundle.manifests))
      invalid_bundle
  guard (good_parent state.name bundle.parent bundle.first_generation) invalid_parent
  range ← bundle_generations c state bundle.first_generation bundle.last_generation bundle.manifests
  guard ((range.0 == bundle.first_generation) && (range.1 == bundle.last_generation)) bundle_range
  ok bundle

abbrev pub body_of : String → List BundledManifest → Option (List ℕ)
body_of key [] = none
body_of key (entry ∷ entries) =
    if str_eq entry.key key then some entry.body else body_of key entries

abbrev pub inline_body : String → List (String × List ℕ) → Option (List ℕ)
inline_body key [] = none
inline_body key ((k, body) ∷ rest) = if str_eq k key then some body else inline_body key rest

abbrev pub entry_of : String → String → Manifest → ManifestEntry
entry_of key bundle manifest = record { key = key; manifest = manifest; bundle = bundle }

-- An entry of a bundle with this key, decoded.
unfoldable pub entry_in :
    Codec
    → State
    → String
    → ℕ
    → String
    → List BundledManifest
    → Result HistoryError (Option ManifestEntry)
entry_in c state key expected bundle manifests = elim (body_of key manifests) [
  | none ↦ ok none
  | some body ↦ do
    manifest ← wrapped (decode_manifest c state key body expected)
    ok (some (entry_of key bundle manifest))
]

-- The loop on `bundleRef` of `readManifestWithSourceCache`: none where the manifest is in no bundle.
unfoldable pub find_in_bundles :
    Codec
    → Fetch
    → State
    → String
    → ℕ
    → ℕ
    → Option BundleRef
    → Result HistoryError (Option ManifestEntry)
unfolding read_bundle entry_in
find_in_bundles c fetch state key expected fuel none = ok none
find_in_bundles c fetch state key expected zero (some ref) = ok none
find_in_bundles c fetch state key expected (suc fuel) (some ref) =
    if not (expected == 0) && leb expected ref.last_generation
    then (do
      bundle ← read_bundle c fetch state ref
      (if leb ref.first_generation expected
          then entry_in c state key expected ref.key bundle.manifests
          else find_in_bundles c fetch state key expected fuel bundle.parent))
    else ok none

-- The first generations of the bundles of a chain go down, so that of the first is enough.
abbrev pub bundle_fuel : Option BundleRef → ℕ
bundle_fuel none = 0
bundle_fuel (some ref) = suc ref.first_generation

-- `readManifestWithSourceCache`
unfoldable pub read_manifest :
    Codec → Fetch → State → String → ℕ → Result HistoryError ManifestEntry
unfolding find_in_bundles
read_manifest c fetch state key expected = elim (inline_body key state.inline_manifests) [
  | some body ↦ do
    manifest ← wrapped (decode_manifest c state key body expected)
    ok (entry_of key "" manifest)
  | none ↦ do
    found ←
        find_in_bundles c fetch state key expected (bundle_fuel state.manifest_bundle)
          state.manifest_bundle
    elim found [
      | some entry ↦ ok entry
      | none ↦ do
        body ← fetch key
        manifest ← wrapped (decode_manifest c state key body expected)
        ok (entry_of key "" manifest)
    ]
]

abbrev pub is_checkpoint : Kind → Bool
is_checkpoint delta = false
is_checkpoint checkpoint = true
is_checkpoint (other_kind k) = false

-- A missing object behind a checkpoint ends the history, any other error is the answer.
abbrev ended : HistoryError → Bool → Result HistoryError (List ManifestEntry)
ended missing true = ok []
ended missing false = err missing
ended e behind = err e

abbrev pub history_limit : ℕ
history_limit = 1000000

-- The loop of `loadHistory`, of at most one round more than the limit.
unfoldable pub history_from :
    Codec → Fetch → State → ℕ → String → ℕ → Bool → Result HistoryError (List ManifestEntry)
unfolding read_manifest
history_from c fetch state zero key expected behind = err too_long
history_from c fetch state (suc fuel) key expected behind =
    if is_empty key then ok [] else elim (read_manifest c fetch state key expected) [
      | err e ↦ ended e behind
      | ok entry ↦
          let manifest = entry.manifest in
          if manifest.generation == 1
          then (if is_empty manifest.parent then ok (entry ∷ []) else err one_has_parent)
          else if is_empty manifest.parent && not (is_checkpoint manifest.kind)
          then err ended_early
          else (do
            rest ←
                history_from c fetch state fuel manifest.parent (expected - 1)
                  (behind || is_checkpoint manifest.kind)
            ok (entry ∷ rest))
    ]

-- `loadHistory`
unfoldable pub load_history : Codec → Fetch → State → Result HistoryError (List ManifestEntry)
load_history c fetch state =
    if state.generation == 0
    then ok []
    else history_from c fetch state (suc history_limit) state.manifest state.generation false

-- `selectHistory`: the first entry of the generation, or made at or before the time; 0 is not given.
unfoldable pub select_entry : ℕ → ℕ → List ManifestEntry → Result HistoryError ManifestEntry
select_entry generation timestamp [] = err not_retained
select_entry generation timestamp (entry ∷ entries) =
    if (not (generation == 0) && (entry.manifest.generation == generation))
      || (not (timestamp == 0) && leb entry.manifest.created_at timestamp)
    then ok entry
    else select_entry generation timestamp entries

unfoldable pub select_history : Codec → Fetch → State → ℕ → ℕ → Result HistoryError ManifestEntry
unfolding load_history select_entry
select_history c fetch state generation timestamp =
    load_history c fetch state >>= select_entry generation timestamp

-- The loop of `restoreManifests`. `expectedGeneration--` wraps.
unfoldable pub restore_from :
    Codec → Fetch → State → ℕ → String → ℕ → Result HistoryError (List ManifestEntry)
unfolding read_manifest
restore_from c fetch state zero key expected = err too_long
restore_from c fetch state (suc fuel) key expected =
    if is_empty key then (if expected == 0 then ok [] else err ended_early) else (do
      entry ← read_manifest c fetch state key expected
      (if is_checkpoint entry.manifest.kind then ok (entry ∷ []) else (do
        rest ←
            restore_from c fetch state fuel entry.manifest.parent
              ((expected + u64_mod - 1) % u64_mod)
        ok (entry ∷ rest))))

-- `restoreManifests`
unfoldable pub restore_manifests : Codec → Fetch → State → Result HistoryError (List ManifestEntry)
restore_manifests c fetch state =
    restore_from c fetch state (suc history_limit) state.manifest state.generation

-- `RestoreWithOptions`: the state that is restored.
unfoldable pub restore_state : Codec → Fetch → State → ℕ → ℕ → Result HistoryError State
unfolding select_history
restore_state c fetch state generation timestamp =
    if (generation == 0) && (timestamp == 0) then ok state else (do
      entry ← select_history c fetch state generation timestamp
      ok (record state {
        generation = entry.manifest.generation;
        manifest = entry.key;
        checkpoint_generation =
            if ltb entry.manifest.generation state.checkpoint_generation
            then 0
            else state.checkpoint_generation;
      }))
