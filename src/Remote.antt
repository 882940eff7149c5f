-- ===== src/Remote.antt =====
-- The data of internal/replica/remote.go: manifests and object references.
pub mod Plan
mod Tests
use Prim.Native.String.{String}
use text.Mathlib.Text.{◌==◌ as str_eq}
use satchel.Base.{ℕ, Bool, not, List, Option}
use satchel.Extents.{Extent}

-- `ObjectRef`: where a segment is stored, and the blocks it holds.
pub record ObjectRef : Type 0 where
  pub key : String
  pub source_manifest : String
  pub source_bundle : String
  pub source_index : ℕ
  pub inline_data : List ℕ
  pub sha256 : String
  pub bytes : ℕ
  pub blocks : ℕ
  pub extents : List Extent
  pub zero_extents : List Extent

pub data Kind : Type 0 where
  delta checkpoint : Kind
  other_kind : String → Kind

-- Times are numbers of milliseconds.
pub record Manifest : Type 0 where
  pub format : String
  pub volume_id : String
  pub generation : ℕ
  pub epoch : ℕ
  pub kind : Kind
  pub parent : String
  pub segments : List ObjectRef
  pub created_at : ℕ

-- `manifestEntry`: a manifest with its key, and the bundle that holds it (empty if none does).
pub record ManifestEntry : Type 0 where
  pub key : String
  pub manifest : Manifest
  pub bundle : String

abbrev pub is_empty : String → Bool
is_empty s = str_eq s ""
