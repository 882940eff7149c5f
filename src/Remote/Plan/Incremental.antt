-- ===== src/Remote/Plan/Incremental.antt =====
-- `applyDeltaToPlan`, block by block.
use satchel.Base.{
  ℕ, ◌≤◌, ◌<◌, ◌≡◌, refl, true, false, ◌||◌, List, [], ◌∷◌, arith, if◌then◌else◌, Option, none,
  some, All, u64_mod, Bool-cases, inl, inr,
}
use satchel.Extents.{Extent, subtract_extents, union_extents}
use satchel.Extents.Sets.{covers, covers-append, Ordered, Ordered-Within, Separated-Ordered}
use satchel.Extents.Subtract.{covers-subtract_extents}
use satchel.Extents.Union.{union_extents_lem}
use satchel.Remote.{ObjectRef}
use satchel.Remote.Plan.{
  keep_visible, all_extents, delta_refs, delta_covered, surviving_refs, apply_delta_to_plan,
}
use satchel.Remote.Plan.Sources.{
  place, source_of, holders, IsValid, source_of-append, source_of-keep_visible, not_held,
}

abbrev pub AreOrdered : ℕ → List ObjectRef → Type 0
AreOrdered hi refs =
    All (λ (r : ObjectRef). Ordered 0 hi r.extents × Ordered 0 hi r.zero_extents) refs

-- What a delta says of block `b`: nothing, that it is zero, or where it is.
abbrev pub delta_source : List ObjectRef → ℕ → Option (Option ObjectRef)
delta_source [] b = none
delta_source (r ∷ rs) b =
    if covers r.extents b
    then some (if covers r.zero_extents b then none else some (place r))
    else delta_source rs b

delta_source-none :
    (refs : List ObjectRef) (b : ℕ)
    → covers (all_extents refs) b ≡ false
    → delta_source refs b ≡ none
delta_source-none [] b h = refl
delta_source-none (r ∷ rs) b h =
    ground (arith, covers-append r.extents (all_extents rs) b, delta_source-none rs b)

delta_source-some :
    (refs : List ObjectRef) (b : ℕ)
    → covers (all_extents refs) b ≡ true
    → (s : Option ObjectRef) × (delta_source refs b ≡ some s)
delta_source-some [] b h = absurd cc
delta_source-some (r ∷ rs) b h = elim (Bool-cases (covers r.extents b)) [
  | inl c ↦ (if covers r.zero_extents b then none else some (place r), rw c)
  | inr c ↦
      let (s, e) =
        delta_source-some rs b (ground (arith, covers-append r.extents (all_extents rs) b)) in
      (s, rw c e)
]

module _ (hi : ℕ) (small : hi < u64_mod) where
  source_of-delta_refs :
      (refs : List ObjectRef) (b : ℕ)
      → AreOrdered hi refs
      → holders refs b ≤ 1
      → source_of (delta_refs refs) b ≡ elim (delta_source refs b) [ some s ↦ s | none ↦ none ]
  unfolding delta_refs
  source_of-delta_refs [] b o h = refl
  source_of-delta_refs (r ∷ rs) b o h =
      let visible = subtract_extents r.extents r.zero_extents in
      ground (
        arith,
        source_of-append (keep_visible r visible) (delta_refs rs) b,
        source_of-keep_visible r visible b,
        covers-subtract_extents 0 hi 0 hi r.extents r.zero_extents b o.0.0 o.0.1 small small,
        source_of-delta_refs rs b o.1,
        not_held rs b,
        delta_source-none rs b,
      )

  delta_covered_lem :
      (covered : List Extent) (refs : List ObjectRef)
      → Ordered 0 hi covered
      → AreOrdered hi refs
      → Ordered 0 hi (delta_covered covered refs)
        × ((b : ℕ)
            → covers (delta_covered covered refs) b
              ≡ (covers covered b || covers (all_extents refs) b))
  unfolding delta_covered
  delta_covered_lem covered [] c o = (c, λ b. ground arith)
  delta_covered_lem covered (r ∷ rs) c o =
      let (s, u) =
        union_extents_lem hi covered r.extents c (Ordered-Within 0 hi r.extents o.0.0) small in
      let covered' = union_extents covered r.extents in
      let (d, v) = delta_covered_lem covered' rs (Separated-Ordered 0 hi covered' s) o.1 in
      (d, λ b. ground (arith, u b, v b, covers-append r.extents (all_extents rs) b))

  source_of-surviving_refs :
      (covered : List Extent) (refs : List ObjectRef) (b : ℕ)
      → Ordered 0 hi covered
      → AreOrdered hi refs
      → source_of (surviving_refs covered refs) b
        ≡ (if covers covered b then none else source_of refs b)
  unfolding surviving_refs
  source_of-surviving_refs covered [] b c o = ground arith
  source_of-surviving_refs covered (r ∷ rs) b c o =
      let visible = subtract_extents r.extents covered in
      ground (
        arith,
        source_of-append (keep_visible r visible) (surviving_refs covered rs) b,
        source_of-keep_visible r visible b,
        covers-subtract_extents 0 hi 0 hi r.extents covered b o.0.0 c small small,
        source_of-surviving_refs covered rs b c o.1,
      )

  -- After `applyDeltaToPlan` a block that the delta holds is read as the delta says, and every
  -- other block as before.
  pub source_of-apply_delta_to_plan :
      (current delta : List ObjectRef) (b : ℕ)
      → AreOrdered hi current
      → IsValid hi delta
      → source_of (apply_delta_to_plan current delta) b
        ≡ elim (delta_source delta b) [ some s ↦ s | none ↦ source_of current b ]
  unfolding apply_delta_to_plan
  source_of-apply_delta_to_plan current delta b o v =
      let (c, u) = delta_covered_lem [] delta tt v.ordered in
      let covered = delta_covered [] delta in
      let both = source_of-append (delta_refs delta) (surviving_refs covered current) b in
      let old = source_of-surviving_refs covered current b c o in
      let new = source_of-delta_refs delta b v.ordered (v.disjoint b) in
      elim (Bool-cases (covers (all_extents delta) b)) [
        | inl e ↦ let (x, q) = delta_source-some delta b e in ground (arith, u b)
        | inr e ↦ ground (arith, u b, delta_source-none delta b e)
      ]
