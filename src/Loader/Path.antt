-- ===== src/Loader/Path.antt =====
-- The bundles that `findBundlePath` lists.
use Prim.Native.String.{String}
use satchel.Base.{
  ℕ, zero, suc, ◌≤◌, ◌≡◌, refl, sym, ap, subst, ◌∙◌, ◌⊎◌, inl, inr, List, [], ◌∷◌, arith, length,
  Option, none, some, ok, ◌>>=◌, ok_of_bind, Option-cases,
}
use satchel.Volume.{BundleRef, Bundle, State, Codec}
use satchel.History.{Fetch, body_of, inline_body}
use satchel.Loader.{load_bundle, search_chain, path_of, find_bundle_path}

module _ (c : Codec) (fetch : Fetch) (volume_id key : String) where
  -- The keys lead from a bundle by the parents to the first bundle that holds the manifest.
  pub IsPath : Option BundleRef → List String → Type 0
  IsPath start [] = ⊥
  IsPath start (k ∷ ks) =
      (ref : BundleRef) × (bundle : Bundle) × (start ≡ some ref)
      × (k ≡ ref.key)
      × (load_bundle c fetch volume_id ref.key ≡ ok bundle)
      × (((body : List ℕ) × (body_of key bundle.manifests ≡ some body) × (ks ≡ []))
          ⊎ ((body_of key bundle.manifests ≡ none) × IsPath bundle.parent ks))

  search_chain-IsPath :
      (fuel : ℕ) (start : Option BundleRef) (body : List ℕ) (ks : List String)
      → search_chain c fetch volume_id key fuel start ≡ ok (some body, ks)
      → IsPath start ks
  unfolding search_chain IsPath
  search_chain-IsPath fuel none body ks h = absurd cc
  search_chain-IsPath zero (some ref) body ks h = absurd cc
  search_chain-IsPath (suc fuel) (some ref) body ks h =
      let (bundle, l, g) = ok_of_bind (load_bundle c fetch volume_id ref.key) _ (some body, ks) h in
      elim (Option-cases (body_of key bundle.manifests)) [
        | inr (found, b) ↦
            let q : ref.key ∷ [] ≡ ks = cc (rw b at g) in
            subst (IsPath (some ref)) q (ref, bundle, refl, refl, l, inl (found, b, refl))
        | inl b ↦
            let ((o, rest), r, u) =
              ok_of_bind (search_chain c fetch volume_id key fuel bundle.parent) _ (some body, ks)
                (rw b at g) in
            let p : o ≡ some body = cc in
            let q : ref.key ∷ rest ≡ ks = cc in
            subst (IsPath (some ref)) q (
              ref,
              bundle,
              refl,
              refl,
              l,
              inr (
                b,
                search_chain-IsPath fuel bundle.parent body rest (r ∙ ap (λ x. ok (x, rest)) p),
              ),
            )
      ]

  IsPath-search_chain :
      (fuel : ℕ) (start : Option BundleRef) (ks : List String)
      → length ks ≤ fuel
      → IsPath start ks
      → (body : List ℕ) × (search_chain c fetch volume_id key fuel start ≡ ok (some body, ks))
  unfolding search_chain IsPath
  IsPath-search_chain fuel start [] l h = absurd h
  IsPath-search_chain zero start (k ∷ ks) l h = absurd (omega arith)
  IsPath-search_chain (suc fuel) start (k ∷ ks) l (ref, bundle, s, q, b, inl (body, f, e)) =
      (body, rw (s, b, ◌>>=◌, f, q, e) refl)
  IsPath-search_chain (suc fuel) start (k ∷ ks) l (ref, bundle, s, q, b, inr (f, later)) =
      let (body, r) = IsPath-search_chain fuel bundle.parent ks (omega arith) later in
      (body, rw (s, b, ◌>>=◌, f, r, q) refl)

-- For a manifest that is not inline in the state: a path that `findBundlePath` finds is empty or leads
-- from the head's bundle by the parents to the first bundle that holds the manifest, each bundle read
-- and checked. Such a path is found, when it is not longer than the fuel.
pub find_bundle_path-IsPath :
    (c : Codec) (fetch : Fetch) (state : State) (fuel : ℕ) (key : String) (ks : List String)
    → inline_body key state.inline_manifests ≡ none
    → (find_bundle_path c fetch state fuel key ≡ ok ks
        → (ks ≡ []) ⊎ IsPath c fetch state.id key state.manifest_bundle ks)
      × (length ks ≤ fuel
          → IsPath c fetch state.id key state.manifest_bundle ks
          → find_bundle_path c fetch state fuel key ≡ ok ks)
unfolding find_bundle_path
find_bundle_path-IsPath c fetch state fuel key ks n = (found, finds)
  where
    found :
        find_bundle_path c fetch state fuel key ≡ ok ks
        → (ks ≡ []) ⊎ IsPath c fetch state.id key state.manifest_bundle ks
    found h =
        let ((o, path), r, g) =
          ok_of_bind (search_chain c fetch state.id key fuel state.manifest_bundle) _ ks
            (rw (find_bundle_path, n) at h) in
        elim (Option-cases o) [
          | inl e ↦
              let q : path_of (o, path) ≡ ks = cc in inl (sym q ∙ ap (λ x. path_of (x, path)) e)
          | inr (body, e) ↦
              let q : path_of (o, path) ≡ ks = cc in
              let p : path ≡ ks = sym (ap (λ x. path_of (x, path)) e) ∙ q in
              inr (
                subst (IsPath c fetch state.id key state.manifest_bundle) p (
                  search_chain-IsPath c fetch state.id key fuel state.manifest_bundle body path
                    (r ∙ ap (λ x. ok (x, path)) e)))
        ]

    finds :
        length ks ≤ fuel
        → IsPath c fetch state.id key state.manifest_bundle ks
        → find_bundle_path c fetch state fuel key ≡ ok ks
    finds l h =
        let (body, r) =
          IsPath-search_chain c fetch state.id key fuel state.manifest_bundle ks l h in
        rw (find_bundle_path, n, r) refl
