-- ===== src/Volume.antt =====
-- The state of a volume in internal/replica/remote.go, the keys of its objects, and `validateState`
-- and `validateManifest`. encoding/json and crypto/sha256 are the functions of a `Codec`. Sizes and
-- counts of type int64 are numbers from 0; the checks that refuse a negative one refuse 0 as well.
pub mod Validate
use Prim.Native.Char.{code}
use Prim.Native.String.{String, ◌++◌ as ◌<>◌, len}
use text.Mathlib.Text.{◌==◌ as str_eq, starts_with}
use satchel.Base.{
  ℕ, ◌+◌, ◌-◌, ◌/◌, ◌%◌, Bool, true, false, not, ◌&&◌, ◌||◌, List, [], ◌∷◌, ◌++◌, ltb, leb, ◌==◌,
  if◌then◌else◌, length, u64_mod, u64, Option, none, some, Result, ok, err, ◌>>=◌, ◌>>◌, guard,
  or_error, required,
}
use satchel.Extents.{
  Extent, ExtentError, validate_extents, extents_contain, union_extents, default_block_size,
}
use satchel.Remote.Plan.{all_extents}
use satchel.Remote.{ObjectRef, Kind, delta, checkpoint, other_kind, Manifest, is_empty}

-- `LeaseRecord`; times are numbers of milliseconds.
pub record LeaseRecord : Type 0 where
  pub holder : String
  pub token : String
  pub epoch : ℕ
  pub expires_at : ℕ
  pub mounted_at : ℕ

-- `ManifestBundleRef`
pub record BundleRef : Type 0 where
  pub key : String
  pub first_generation : ℕ
  pub last_generation : ℕ

-- `State`; the inline manifests are a map from keys to bodies.
pub record State : Type 0 where
  pub format : String
  pub id : String
  pub name : String
  pub size : ℕ
  pub block_size : ℕ
  pub filesystem : String
  pub generation : ℕ
  pub manifest : String
  pub inline_manifests : List (String × List ℕ)
  pub manifest_bundle : Option BundleRef
  pub checkpoint_generation : ℕ
  pub epoch : ℕ
  pub deleting : Bool
  pub lease : Option LeaseRecord

-- `bundledManifest` and `manifestBundle`
pub record BundledManifest : Type 0 where
  pub key : String
  pub body : List ℕ

pub record Bundle : Type 0 where
  pub format : String
  pub volume_id : String
  pub first_generation : ℕ
  pub last_generation : ℕ
  pub parent : Option BundleRef
  pub manifests : List BundledManifest

-- What the code takes from encoding/json and crypto/sha256: `digest` is the checksum in hexadecimal.
pub record Codec : Type 0 where
  pub digest : List ℕ → String
  pub manifest_of : List ℕ → Option Manifest
  pub bundle_of : List ℕ → Option Bundle
  pub state_of : List ℕ → Option State
  pub manifest_body : Manifest → List ℕ
  pub bundle_body : Bundle → List ℕ
  pub state_body : State → List ℕ

abbrev pub volume_format : String
volume_format = "satchel-block-v2"

-- `VolumePrefix` and `StateKey`
abbrev pub volume_prefix : String → String
volume_prefix name = "volumes/" <> name <> "/"

abbrev pub state_key : String → String
state_key name = "volumes/" <> name <> "/state.json"

abbrev pub manifest_key : Codec → String → List ℕ → String
manifest_key c name body = volume_prefix name <> "manifests/" <> c.digest body <> ".json"

abbrev pub bundle_key : Codec → String → List ℕ → String
bundle_key c name body = volume_prefix name <> "manifest-bundles/" <> c.digest body <> ".json"

-- `strings.HasSuffix`
abbrev ends_at : String → String → Bool
ends_at String.[] t = str_eq String.[] t
ends_at (String.◌∷◌ c s) t = str_eq (String.◌∷◌ c s) t || ends_at s t

unfoldable pub has_suffix : String → String → Bool
has_suffix s t = ends_at s t

-- `validManifestBundleRef`
unfoldable pub valid_bundle_ref : String → BundleRef → Bool
unfolding has_suffix
valid_bundle_ref name ref =
    starts_with ref.key (volume_prefix name <> "manifest-bundles/")
    && has_suffix ref.key ".json"
    && ltb 0 ref.first_generation
    && leb ref.first_generation ref.last_generation

pub data ManifestError : Type 0 where
  undecodable checksum_mismatch foreign_manifest broken_chain no_segments unknown_kind bad_reference
        bad_digest :
      ManifestError
  bad_key bad_inline bad_source bad_bundle orphan_bundle bad_storage bad_extents bad_zero_extents :
      ManifestError
  count_overflow overlapping_segments : ManifestError

-- `hex.DecodeString` accepts the text, and it stands for 32 bytes.
abbrev pub is_hex : ℕ → Bool
is_hex c = (leb 48 c && leb c 57) || (leb 65 c && leb c 70) || (leb 97 c && leb c 102)

abbrev pub all_hex : String → Bool
all_hex String.[] = true
all_hex (String.◌∷◌ c s) = is_hex (code c) && all_hex s

abbrev pub is_sha256 : String → Bool
is_sha256 s = all_hex s && (len s == 64)

abbrev pub is_nil {ℓ} : {A : Type ℓ} → List A → Bool
is_nil [] = true
is_nil (x ∷ xs) = false

abbrev pub one_if : Bool → ℕ
one_if true = 1
one_if false = 0

-- How a segment is stored: a key, inline data, or a place in another manifest; just one of them.
unfoldable pub check_storage : Codec → String → ObjectRef → Result ManifestError (Unit {0})
unfolding has_suffix
check_storage c name ref =
    let prefix = volume_prefix name in
    do
      guard
          (is_empty ref.key
            || (starts_with ref.key (prefix <> "segments/")
                && has_suffix ref.key ("-" <> ref.sha256 <> ".seg.gz")))
          bad_key
      guard
          (is_nil ref.inline_data
            || ((length ref.inline_data == ref.bytes)
                && str_eq (c.digest ref.inline_data) ref.sha256))
          bad_inline
      guard
          (is_empty ref.source_manifest
            || (starts_with ref.source_manifest (prefix <> "manifests/")
                && has_suffix ref.source_manifest ".json"))
          bad_source
      guard
          (is_empty ref.source_manifest
            || is_empty ref.source_bundle
            || (starts_with ref.source_bundle (prefix <> "manifest-bundles/")
                && has_suffix ref.source_bundle ".json"))
          bad_bundle
      guard (not (is_empty ref.source_manifest) || is_empty ref.source_bundle) orphan_bundle
      guard
          (one_if (not (is_empty ref.key))
              + one_if (not (is_nil ref.inline_data))
              + one_if (not (is_empty ref.source_manifest))
            == 1)
          bad_storage

abbrev same_bool : Bool → Bool → Bool
same_bool true b = b
same_bool false b = not b

abbrev pub is_delta : Kind → Bool
is_delta delta = true
is_delta checkpoint = false
is_delta (other_kind k) = false

-- The extents of a reference, and its zero extents: the number of blocks.
unfoldable pub check_blocks : ℕ → Kind → ObjectRef → Result ManifestError ℕ
check_blocks max_blocks kind ref = do
  blocks ← or_error (validate_extents ref.extents max_blocks) bad_extents
  guard (leb blocks ref.blocks && (not (is_delta kind) || (blocks == ref.blocks))) bad_extents
  zero_blocks ← or_error (validate_extents ref.zero_extents max_blocks) bad_zero_extents
  guard (extents_contain ref.extents ref.zero_extents) bad_zero_extents
  ok blocks

-- The body of the loop of `validateManifest`.
unfoldable pub check_segment : Codec → State → Kind → ObjectRef → Result ManifestError ℕ
unfolding check_storage check_blocks
check_segment c state kind ref =
    let max_blocks = state.size / state.block_size in
    do
      guard
          (not (ref.bytes == 0)
            && not (ref.blocks == 0)
            && leb ref.blocks max_blocks
            && not (is_nil ref.extents))
          bad_reference
      guard (is_sha256 ref.sha256) bad_digest
      check_storage c state.name ref
      check_blocks max_blocks kind ref

-- The loop: `total` is `manifestBlocks`. The extents are collected by the caller.
unfoldable pub check_segments : Codec → State → Kind → ℕ → List ObjectRef → Result ManifestError ℕ
unfolding check_segment
check_segments c state kind total [] = ok total
check_segments c state kind total (ref ∷ refs) = do
  blocks ← check_segment c state kind ref
  guard (leb total (u64_mod - 1 - blocks)) count_overflow
  check_segments c state kind (total + blocks) refs

abbrev pub known_kind : Kind → List ObjectRef → Result ManifestError (Unit {0})
known_kind delta refs = guard (not (is_nil refs)) no_segments
known_kind checkpoint refs = ok tt
known_kind (other_kind k) refs = err unknown_kind

-- `validateManifest`
unfoldable pub validate_manifest : Codec → State → Manifest → ℕ → Result ManifestError (Unit {0})
unfolding check_segments
validate_manifest c state manifest expected =
    let max_blocks = state.size / state.block_size in
    do
      guard
          (str_eq manifest.format volume_format
            && str_eq manifest.volume_id state.id
            && not (manifest.epoch == 0))
          foreign_manifest
      guard ((manifest.generation == expected) && not (expected == 0)) broken_chain
      known_kind manifest.kind manifest.segments
      total ← check_segments c state manifest.kind 0 manifest.segments
      covered ←
          or_error (validate_extents (union_extents [] (all_extents manifest.segments)) max_blocks)
            overlapping_segments
      guard (covered == total) overlapping_segments

-- `decodeManifest`; 0 expects any generation.
unfoldable pub decode_manifest : Codec → State → String → List ℕ → ℕ → Result ManifestError Manifest
unfolding validate_manifest
decode_manifest c state key body expected = do
  manifest ← required (c.manifest_of body) undecodable
  guard (str_eq key (manifest_key c state.name body)) checksum_mismatch
  validate_manifest c state manifest (if expected == 0 then manifest.generation else expected)
  ok manifest

pub data StateError : Type 0 where
  bad_format bad_identity bad_geometry bad_checkpoint bad_generation too_much_inline bad_bundle_ref
        bad_manifest :
      StateError

abbrev pub inline_manifest_state_limit : ℕ
inline_manifest_state_limit = 65536

-- The loop over the inline manifests, in the order of the map.
unfoldable pub check_inline :
    Codec → State → ℕ → List (String × List ℕ) → Result StateError (Unit {0})
unfolding decode_manifest
check_inline c state total [] = ok tt
check_inline c state total ((key, body) ∷ rest) = do
  guard (leb (total + length body) inline_manifest_state_limit) too_much_inline
  manifest ← or_error (decode_manifest c state key body 0) bad_manifest
  check_inline c state (total + length body) rest

abbrev check_bundle : String → Option BundleRef → Result StateError (Unit {0})
check_bundle name none = ok tt
check_bundle name (some ref) = guard (valid_bundle_ref name ref) bad_bundle_ref

-- `validateState`
unfoldable pub validate_state : Codec → String → State → Result StateError (Unit {0})
unfolding check_inline valid_bundle_ref
validate_state c name state = do
  guard (str_eq state.format volume_format) bad_format
  guard (str_eq state.name name && not (is_empty state.id)) bad_identity
  guard
      (not (state.size == 0)
        && (state.size % default_block_size == 0)
        && (state.block_size == default_block_size))
      bad_geometry
  guard (leb state.checkpoint_generation state.generation) bad_checkpoint
  guard (same_bool (state.generation == 0) (is_empty state.manifest)) bad_generation
  check_inline c state 0 state.inline_manifests
  check_bundle state.name state.manifest_bundle
