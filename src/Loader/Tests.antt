-- ===== src/Loader/Tests.antt =====
-- A run of the source loader on the sample volume, and the theorem at it.
use satchel.Base.{◌≡◌, ◌≤◌, ◌⊎◌, refl, [], ◌∷◌, length, ok}
use satchel.Volume.{has_suffix}
use satchel.History.Sample.{second_manifest, parent_ref, state, codec, fetch}
use satchel.Loader.{find_bundle_path}
use satchel.Loader.Path.{IsPath, find_bundle_path-IsPath}

path : find_bundle_path codec fetch state 1 second_manifest.parent ≡ ok (parent_ref.key ∷ [])
unfolding find_bundle_path has_suffix
path = refl

find_bundle_path-IsPath_example :
    (find_bundle_path codec fetch state 1 second_manifest.parent ≡ ok (parent_ref.key ∷ [])
      → (parent_ref.key ∷ [] ≡ [])
        ⊎ IsPath codec fetch state.id second_manifest.parent state.manifest_bundle
            (parent_ref.key ∷ []))
    × (length (parent_ref.key ∷ []) ≤ 1
        → IsPath codec fetch state.id second_manifest.parent state.manifest_bundle
            (parent_ref.key ∷ [])
        → find_bundle_path codec fetch state 1 second_manifest.parent ≡ ok (parent_ref.key ∷ []))
find_bundle_path-IsPath_example =
    find_bundle_path-IsPath codec fetch state 1 second_manifest.parent (parent_ref.key ∷ []) refl
