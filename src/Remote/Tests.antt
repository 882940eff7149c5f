-- ===== src/Remote/Tests.antt =====
-- Runs of the restore plan, and the theorems at a concrete history.
use satchel.Base.{ℕ, ◌≤◌, ◌≡◌, refl, List, [], ◌∷◌, arith, none, some}
use satchel.Extents.{Extent, skip_ended, union_extents, subtract_extents}
use satchel.Remote.{ObjectRef, Kind, delta, checkpoint, ManifestEntry}
use satchel.Remote.Plan.{restore_plan, apply_delta_to_plan, plan_segments, locate}
use satchel.Remote.Plan.Sources.{source_of, holders, IsValid, newest_source}
use satchel.Remote.Plan.Newest.{AreValid, source_of-restore_plan, holders-restore_plan}
use satchel.Remote.Plan.Incremental.{delta_source, source_of-apply_delta_to_plan}

abbrev ext : ℕ → ℕ → Extent
ext start blocks = record { start = start; blocks = blocks }

abbrev segment : List Extent → List Extent → ObjectRef
segment extents zeros = record {
  key = "seg";
  source_manifest = "";
  source_bundle = "";
  source_index = 0;
  inline_data = [];
  sha256 = "";
  bytes = 10;
  blocks = 4;
  extents = extents;
  zero_extents = zeros;
}

abbrev older : ObjectRef
older = segment (ext 0 10 ∷ []) []

abbrev newer : ObjectRef
newer = segment (ext 2 3 ∷ ext 8 4 ∷ []) (ext 3 1 ∷ [])

abbrev entry : ℕ → Kind → ObjectRef → ManifestEntry
entry generation kind ref = record {
  key = "m";
  bundle = "";
  manifest = record {
    format = "";
    volume_id = "v1";
    generation = generation;
    epoch = 1;
    kind = kind;
    parent = "";
    segments = ref ∷ [];
    created_at = 0;
  };
}

-- From the newest to the oldest.
abbrev history : List ManifestEntry
history = entry 2 delta newer ∷ entry 1 checkpoint older ∷ []

plan_of_history :
    restore_plan history
    ≡ segment (ext 2 1 ∷ ext 4 1 ∷ ext 8 4 ∷ []) [] ∷ segment (ext 0 2 ∷ ext 5 3 ∷ []) [] ∷ []
unfolding restore_plan plan_segments subtract_extents union_extents skip_ended locate
plan_of_history = refl

newer-IsValid : IsValid 12 (newer ∷ [])
newer-IsValid = record { ordered = ground arith; disjoint = λ b. ground arith }

older-IsValid : IsValid 12 (older ∷ [])
older-IsValid = record { ordered = ground arith; disjoint = λ b. ground arith }

history-AreValid : AreValid 12 history
history-AreValid = (newer-IsValid, (older-IsValid, tt))

source_of-restore_plan_example : source_of (restore_plan history) 4 ≡ newest_source history 4
source_of-restore_plan_example = source_of-restore_plan 12 (omega arith) history 4 history-AreValid

holders-restore_plan_example : holders (restore_plan history) 9 ≤ 1
holders-restore_plan_example = holders-restore_plan 12 (omega arith) history 9 history-AreValid

source_of-apply_delta_to_plan_example :
    source_of (apply_delta_to_plan (older ∷ []) (newer ∷ [])) 3
    ≡ elim (delta_source (newer ∷ []) 3) [ some s ↦ s | none ↦ source_of (older ∷ []) 3 ]
source_of-apply_delta_to_plan_example =
    source_of-apply_delta_to_plan 12 (omega arith) (older ∷ []) (newer ∷ []) 3 (ground arith)
      newer-IsValid
