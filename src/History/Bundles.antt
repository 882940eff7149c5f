-- ===== src/History/Bundles.antt =====
-- `readManifestBundle`, and the walk along the parents of bundles.
use text.Mathlib.Text.{◌==◌ as str_eq}
use Prim.Native.String.{String}
use satchel.Base.{
  ℕ, zero, suc, ◌≤◌, ◌<◌, ◌≡◌, refl, ap, ◌∙◌, true, not, ◌&&◌, arith, leb, ◌==◌, if◌then◌else◌,
  Option, none, some, ok, required, ok_of_bind, ok_of_guard, Result-cases, inl, inr,
}
use satchel.Volume.{
  BundleRef, State, Bundle, Codec, bundle_key, volume_format, valid_bundle_ref, is_nil,
}
use satchel.History.{
  Fetch, bundle_checksum, bundle_undecodable, invalid_bundle, invalid_parent, bundle_range,
  good_parent, bundle_generations, read_bundle, find_in_bundles, entry_in, bundle_fuel,
}

-- The parent of a bundle that was read has an earlier first generation.
read_bundle-parent :
    (c : Codec) (fetch : Fetch) (state : State) (ref parent : BundleRef) (bundle : Bundle)
    → read_bundle c fetch state ref ≡ ok bundle
    → bundle.parent ≡ some parent
    → parent.first_generation < ref.first_generation
unfolding read_bundle valid_bundle_ref
read_bundle-parent c fetch state ref parent bundle h e =
    let (body, g0, h0) = ok_of_bind (fetch ref.key) _ bundle h in
    let (g1, h1) =
      ok_of_guard (str_eq ref.key (bundle_key c state.name body)) bundle_checksum _ bundle h0 in
    let (b, g2, h2) = ok_of_bind (required (c.bundle_of body) bundle_undecodable) _ bundle h1 in
    let (g3, h3) =
      ok_of_guard
        (str_eq b.format volume_format
          && str_eq b.volume_id state.id
          && (b.first_generation == ref.first_generation)
          && (b.last_generation == ref.last_generation)
          && not (is_nil b.manifests))
        invalid_bundle _ bundle h2 in
    let (g4, h4) =
      ok_of_guard (good_parent state.name b.parent b.first_generation) invalid_parent _ bundle h3 in
    let (range, g5, h5) =
      ok_of_bind (bundle_generations c state b.first_generation b.last_generation b.manifests) _
        bundle h4 in
    let (g6, h6) =
      ok_of_guard ((range.0 == b.first_generation) && (range.1 == b.last_generation)) bundle_range _
        bundle h5 in
    let same : b ≡ bundle = cc in
    let p : b.parent ≡ some parent = ap (λ (x : Bundle). x.parent) same ∙ e in
    let q : good_parent state.name (some parent) b.first_generation ≡ true = cc (p, g4) in
    ground (arith, q, g3)

-- The walk along the parents is over before the fuel of the first bundle is used up: any fuel that
-- reaches it gives the same answer.
pub find_in_bundles_stable :
    (c : Codec) (fetch : Fetch) (state : State) (key : String) (expected fuel fuel' : ℕ)
    (start : Option BundleRef)
    → bundle_fuel start ≤ fuel
    → bundle_fuel start ≤ fuel'
    → find_in_bundles c fetch state key expected fuel start
      ≡ find_in_bundles c fetch state key expected fuel' start
unfolding find_in_bundles
find_in_bundles_stable c fetch state key expected fuel fuel' none l l' = refl
find_in_bundles_stable c fetch state key expected zero fuel' (some ref) l l' = absurd (omega arith)
find_in_bundles_stable c fetch state key expected (suc fuel) zero (some ref) l l' =
    absurd (omega arith)
find_in_bundles_stable c fetch state key expected (suc fuel) (suc fuel') (some ref) l l' =
    elim (Result-cases (read_bundle c fetch state ref)) [
      | inr (e, r) ↦ rw r refl
      | inl (bundle, r) ↦ rw r (
          ap
            (λ rest.
              if not (expected == 0) && leb expected ref.last_generation
              then (if leb ref.first_generation expected
                  then entry_in c state key expected ref.key bundle.manifests
                  else rest)
              else ok none)
            (find_in_bundles_stable c fetch state key expected fuel fuel' bundle.parent
              (reach bundle r bundle.parent refl fuel (omega arith))
              (reach bundle r bundle.parent refl fuel' (omega arith))))
    ]
  where
    reach :
        (bundle : Bundle)
        → read_bundle c fetch state ref ≡ ok bundle
        → (o : Option BundleRef) → bundle.parent ≡ o
        → (n : ℕ) → ref.first_generation ≤ n
        → bundle_fuel o ≤ n
    reach bundle r none e n k = omega arith
    reach bundle r (some p) e n k = omega (arith, read_bundle-parent c fetch state ref p bundle r e)
