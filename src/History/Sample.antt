-- ===== src/History/Sample.antt =====
-- A volume with two generations, one inline in its state and one in a bundle.
use Prim.Native.String.{String, ◌++◌ as ◌<>◌}
use text.Mathlib.Text.{◌==◌ as str_eq}
use satchel.Base.{ℕ, false, List, [], ◌∷◌, if◌then◌else◌, ◌==◌, Option, none, some, ok, err}
use satchel.Remote.{ObjectRef, delta, Manifest, ManifestEntry}
use satchel.Volume.{BundleRef, State, Bundle, Codec, volume_format}
use satchel.History.{Fetch, missing}

abbrev pub hash : String → String
hash digit = "000000000000000000000000000000000000000000000000000000000000000" <> digit

abbrev pub segment : ℕ → ObjectRef
segment start = record {
  key = "";
  source_manifest = "";
  source_bundle = "";
  source_index = 0;
  inline_data = 7 ∷ [];
  sha256 = hash "7";
  bytes = 1;
  blocks = 2;
  extents = record { start = start; blocks = 2 } ∷ [];
  zero_extents = [];
}

abbrev pub first_manifest : Manifest
first_manifest = record {
  format = volume_format;
  volume_id = "id";
  generation = 1;
  epoch = 1;
  kind = delta;
  parent = "";
  segments = segment 0 ∷ [];
  created_at = 10;
}

abbrev pub second_manifest : Manifest
second_manifest = record first_manifest {
  generation = 2;
  parent = "volumes/v/manifests/" <> hash "1" <> ".json";
  segments = segment 1 ∷ [];
  created_at = 20;
}

abbrev pub parent_ref : BundleRef
parent_ref = record {
  key = "volumes/v/manifest-bundles/" <> hash "3" <> ".json";
  first_generation = 1;
  last_generation = 1;
}

abbrev pub parent_bundle : Bundle
parent_bundle = record {
  format = volume_format;
  volume_id = "id";
  first_generation = 1;
  last_generation = 1;
  parent = none;
  manifests = record { key = "volumes/v/manifests/" <> hash "1" <> ".json"; body = 1 ∷ [] } ∷ [];
}

-- A body is one number; 1 and 2 are the manifests, 3 the bundle.
abbrev pub digest_of : List ℕ → String
digest_of [] = hash "0"
digest_of (n ∷ ns) =
    if n == 1 then hash "1" else if n == 2 then hash "2" else if n == 3 then hash "3" else hash "7"

abbrev pub manifest_in : List ℕ → Option Manifest
manifest_in [] = none
manifest_in (n ∷ ns) =
    if n == 1 then some first_manifest else if n == 2 then some second_manifest else none

abbrev pub state : State
state = record {
  format = volume_format;
  id = "id";
  name = "v";
  size = 16384;
  block_size = 4096;
  filesystem = "ext4";
  generation = 2;
  manifest = "volumes/v/manifests/" <> hash "2" <> ".json";
  inline_manifests = ("volumes/v/manifests/" <> hash "2" <> ".json", 2 ∷ []) ∷ [];
  manifest_bundle = some parent_ref;
  checkpoint_generation = 0;
  epoch = 1;
  deleting = false;
  lease = none;
}

abbrev pub codec : Codec
codec = record {
  digest = digest_of;
  manifest_of = manifest_in;
  bundle_of = λ body. some parent_bundle;
  state_of = λ body. some state;
  manifest_body = λ m. m.generation ∷ [];
  bundle_body = λ b. 3 ∷ [];
  state_body = λ s. s.generation ∷ [];
}

abbrev pub fetch : Fetch
fetch key = if str_eq key parent_ref.key then ok (3 ∷ []) else err missing

abbrev pub newest : ManifestEntry
newest = record { key = state.manifest; manifest = second_manifest; bundle = "" }

abbrev pub oldest : ManifestEntry
oldest = record { key = second_manifest.parent; manifest = first_manifest; bundle = parent_ref.key }

abbrev pub entries : List ManifestEntry
entries = newest ∷ oldest ∷ []
