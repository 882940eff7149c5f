-- ===== src/History/Tests.antt =====
-- Runs on the sample volume, and the theorems at it.
use satchel.Base.{
  ◌≡◌, refl, Bool, true, false, [], ◌∷◌, arith, if◌then◌else◌, ◌==◌, none, some, ok, subst, ℕ,
}
use satchel.Extents.{validate_extents, extents_contain, union_extents}
use satchel.Remote.{Manifest}
use satchel.Remote.Plan.{restore_plan}
use satchel.Remote.Plan.Sources.{IsValid, source_of, newest_source}
use satchel.Volume.{validate_manifest, validate_state, decode_manifest}
use satchel.Volume.Validate.{validate_manifest-IsValid, AreWords}
use satchel.History.Sample.{
  first_manifest, second_manifest, parent_ref, state, codec, fetch, entries,
}
use satchel.History.{find_in_bundles, load_history, history_from, restore_manifests, restore_from}
use satchel.History.Bundles.{find_in_bundles_stable}
use satchel.History.Chain.{IsHistory, load_history-IsHistory}
use satchel.History.Restore.{DecodesWords, IsRestore, restore_manifests_lem}

codec-DecodesWords : DecodesWords codec
codec-DecodesWords [] m h = absurd cc
codec-DecodesWords (n ∷ ns) m h = pick (n == 1) (n == 2) h
  where
    pick :
        (s t : Bool)
        → (if s then some first_manifest else if t then some second_manifest else none) ≡ some m
        → AreWords m.segments
    pick true t e =
        let same : first_manifest ≡ m = cc in
        subst (λ (x : Manifest). AreWords x.segments) same (ground arith)
    pick false true e =
        let same : second_manifest ≡ m = cc in
        subst (λ (x : Manifest). AreWords x.segments) same (ground arith)
    pick false false e = absurd cc

state_is_valid : validate_state codec "v" state ≡ ok tt
unfolding validate_state validate_extents extents_contain union_extents
state_is_valid = refl

second_is_valid : validate_manifest codec state second_manifest 2 ≡ ok tt
unfolding validate_manifest validate_extents extents_contain union_extents
second_is_valid = refl

history : load_history codec fetch state ≡ ok entries
unfolding load_history history_from validate_extents extents_contain union_extents decode_manifest
history = refl

-- The first manifest has no parent and generation 0 is reached.
restored : restore_manifests codec fetch state ≡ ok entries
unfolding restore_manifests restore_from validate_extents extents_contain union_extents
    decode_manifest
restored = refl

validate_manifest-IsValid_example : IsValid 4 second_manifest.segments
validate_manifest-IsValid_example =
    validate_manifest-IsValid codec state second_manifest 2 (omega arith) (ground arith)
      second_is_valid

find_in_bundles_stable_example :
    find_in_bundles codec fetch state second_manifest.parent 1 2 (some parent_ref)
    ≡ find_in_bundles codec fetch state second_manifest.parent 1 9 (some parent_ref)
find_in_bundles_stable_example =
    find_in_bundles_stable codec fetch state second_manifest.parent 1 2 9 (some parent_ref)
      (omega arith) (omega arith)

load_history-IsHistory_example : IsHistory codec state state.manifest 2 false entries
load_history-IsHistory_example =
    load_history-IsHistory codec fetch state entries refl (omega arith) history

restore_manifests_lem_example :
    IsRestore codec state state.manifest state.generation entries
    × ((b : ℕ) → source_of (restore_plan entries) b ≡ newest_source entries b)
restore_manifests_lem_example =
    restore_manifests_lem codec codec-DecodesWords state (omega arith) fetch entries restored
