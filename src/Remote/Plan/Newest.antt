-- ===== src/Remote/Plan/Newest.antt =====
-- `restorePlan`, block by block.
use satchel.Base.{
  ℕ, ◌≤◌, ◌<◌, ◌≡◌, refl, false, List, [], ◌∷◌, ◌++◌, arith, if◌then◌else◌, none, All, u64_mod,
  Bool-cases, inl, inr,
}
use satchel.Extents.{Extent, union_extents}
use satchel.Extents.Sets.{covers, covers-append, Ordered, Within, Ordered-Within, Separated-Ordered}
use satchel.Extents.Union.{union_extents_lem}
use satchel.Remote.{ObjectRef, ManifestEntry}
use satchel.Remote.Plan.{plan_segments, all_extents, plan_from, restore_plan}
use satchel.Remote.Plan.Sources.{
  source_of, holders, IsValid, newest_source, source_of-append, holders-append, entry_source-none,
  entry_source-some, source_of-plan_segments, holders-plan_segments,
}

pub Within-append :
    (hi : ℕ) (xs ys : List Extent) → Within hi xs → Within hi ys → Within hi (xs ++ ys)
Within-append hi [] ys h k = k
Within-append hi (x ∷ xs) ys h k = (h.0, Within-append hi xs ys h.1 k)

pub all_extents-Within :
    (hi : ℕ) (refs : List ObjectRef)
    → All (λ (r : ObjectRef). Ordered 0 hi r.extents × Ordered 0 hi r.zero_extents) refs
    → Within hi (all_extents refs)
all_extents-Within hi [] h = tt
all_extents-Within hi (r ∷ rs) h =
    Within-append hi r.extents (all_extents rs) (Ordered-Within 0 hi r.extents h.0.0)
      (all_extents-Within hi rs h.1)

-- Blocks in no reference's extents have no holder.
pub held :
    (refs : List ObjectRef) (b : ℕ) → covers (all_extents refs) b ≡ false → holders refs b ≡ 0
held [] b h = refl
held (r ∷ rs) b h = ground (arith, covers-append r.extents (all_extents rs) b, held rs b)

abbrev pub AreValid : ℕ → List ManifestEntry → Type 0
AreValid hi ms = All (λ (m : ManifestEntry). IsValid hi m.manifest.segments) ms

module _ (hi : ℕ) (small : hi < u64_mod) where
  source_of-plan_from :
      (covered : List Extent) (ms : List ManifestEntry) (b : ℕ)
      → Ordered 0 hi covered
      → AreValid hi ms
      → source_of (plan_from covered ms) b ≡ (if covers covered b then none else newest_source ms b)
  unfolding plan_from
  source_of-plan_from covered [] b c v = ground arith
  source_of-plan_from covered (m ∷ ms) b c v =
      let refs = m.manifest.segments in
      let (s, u) =
        union_extents_lem hi covered (all_extents refs) c (all_extents-Within hi refs v.0.ordered)
          small in
      let covered' = union_extents covered (all_extents refs) in
      let rest = source_of-plan_from covered' ms b (Separated-Ordered 0 hi covered' s) v.1 in
      let here =
        source_of-plan_segments hi small m.key m.bundle covered 0 refs b c v.0.ordered
          (v.0.disjoint b) in
      let both =
        source_of-append (plan_segments m.key m.bundle covered 0 refs) (plan_from covered' ms) b in
      elim (Bool-cases (covers (all_extents refs) b)) [
        | inl e ↦ let (x, q) = entry_source-some m.key m.bundle 0 refs b e in ground (arith, u b)
        | inr e ↦ ground (arith, u b, entry_source-none m.key m.bundle 0 refs b e)
      ]

  -- The plan of a restore reads each block from where the newest manifest that holds it stores it,
  -- and from nowhere if that manifest says that it is zero or no manifest holds it.
  pub source_of-restore_plan :
      (ms : List ManifestEntry) (b : ℕ)
      → AreValid hi ms
      → source_of (restore_plan ms) b ≡ newest_source ms b
  unfolding restore_plan
  source_of-restore_plan ms b v = source_of-plan_from [] ms b tt v

  holders-plan_from :
      (covered : List Extent) (ms : List ManifestEntry) (b : ℕ)
      → Ordered 0 hi covered
      → AreValid hi ms
      → holders (plan_from covered ms) b ≤ (if covers covered b then 0 else 1)
  unfolding plan_from
  holders-plan_from covered [] b c v = ground arith
  holders-plan_from covered (m ∷ ms) b c v =
      let refs = m.manifest.segments in
      let (s, u) =
        union_extents_lem hi covered (all_extents refs) c (all_extents-Within hi refs v.0.ordered)
          small in
      let covered' = union_extents covered (all_extents refs) in
      ground (
        arith,
        u b,
        holders-append (plan_segments m.key m.bundle covered 0 refs) (plan_from covered' ms) b,
        holders-plan_segments hi small m.key m.bundle covered 0 refs b c v.0.ordered,
        held refs b,
        v.0.disjoint b,
        holders-plan_from covered' ms b (Separated-Ordered 0 hi covered' s) v.1,
      )

  -- No block is held by two references of a restore plan.
  pub holders-restore_plan :
      (ms : List ManifestEntry) (b : ℕ) → AreValid hi ms → holders (restore_plan ms) b ≤ 1
  unfolding restore_plan
  holders-restore_plan ms b v = holders-plan_from [] ms b tt v
