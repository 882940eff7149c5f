-- ===== src/Remote/Plan/Sources.antt =====
-- Which stored segment a plan reads each block from.
use satchel.Base.{
  ℕ, suc, ◌+◌, ◌≤◌, ◌<◌, ◌≡◌, refl, true, false, not, ◌&&◌, List, [], ◌∷◌, ◌++◌, arith,
  if◌then◌else◌, Option, none, some, All, u64_mod, Bool-cases, inl, inr,
}
use satchel.Extents.{Extent, subtract_extents}
use satchel.Extents.Sets.{covers, covers-append, Ordered}
use satchel.Extents.Subtract.{covers-subtract_extents}
use satchel.Extents.Subtract.Order.{subtract_extents-Ordered}
use satchel.Remote.{ObjectRef, ManifestEntry}
use satchel.Remote.Plan.{keep_visible, locate, plan_segments, all_extents}
use Prim.Native.String.{String}

-- A reference without its extents: where a segment is stored.
abbrev pub place : ObjectRef → ObjectRef
place ref = record ref { extents = []; zero_extents = [] }

-- `first`, and if it is none, `second`.
abbrev pub or_else {ℓ} : {A : Type ℓ} → Option A → Option A → Option A
or_else none second = second
or_else (some a) second = some a

-- The place that a plan reads block `b` from; a block with no place is zero.
abbrev pub source_of : List ObjectRef → ℕ → Option ObjectRef
source_of [] b = none
source_of (ref ∷ refs) b = if covers ref.extents b then some (place ref) else source_of refs b

-- How many references hold the block.
abbrev pub holders : List ObjectRef → ℕ → ℕ
holders [] b = 0
holders (ref ∷ refs) b = (if covers ref.extents b then 1 else 0) + holders refs b

-- The references of one manifest: ordered extents within the volume, each block held once.
pub record IsValid (hi : ℕ) (refs : List ObjectRef) : Type 0 where
  pub ordered : All (λ (r : ObjectRef). Ordered 0 hi r.extents × Ordered 0 hi r.zero_extents) refs
  pub disjoint : (b : ℕ) → holders refs b ≤ 1

-- What a manifest says of block `b`: nothing, that it is zero, or where it is.
abbrev pub entry_source : String → String → ℕ → List ObjectRef → ℕ → Option (Option ObjectRef)
entry_source key bundle index [] b = none
entry_source key bundle index (r ∷ rs) b =
    if covers r.extents b
    then some (if covers r.zero_extents b then none else some (place (locate key bundle index r)))
    else entry_source key bundle (suc index) rs b

-- The newest manifest that says something of block `b` decides.
abbrev pub newest_source : List ManifestEntry → ℕ → Option ObjectRef
newest_source [] b = none
newest_source (m ∷ ms) b = elim (entry_source m.key m.bundle 0 m.manifest.segments b) [
  | some s ↦ s
  | none ↦ newest_source ms b
]

pub source_of-append :
    (xs ys : List ObjectRef) (b : ℕ)
    → source_of (xs ++ ys) b ≡ or_else (source_of xs b) (source_of ys b)
source_of-append [] ys b = refl
source_of-append (x ∷ xs) ys b = ground (arith, source_of-append xs ys b)

pub source_of-keep_visible :
    (ref : ObjectRef) (es : List Extent) (b : ℕ)
    → source_of (keep_visible ref es) b ≡ (if covers es b then some (place ref) else none)
unfolding keep_visible
source_of-keep_visible ref [] b = refl
source_of-keep_visible ref (e ∷ es) b = refl

pub holders-append :
    (xs ys : List ObjectRef) (b : ℕ) → holders (xs ++ ys) b ≡ holders xs b + holders ys b
holders-append [] ys b = omega arith
holders-append (x ∷ xs) ys b = omega (arith, holders-append xs ys b)

pub holders-keep_visible :
    (ref : ObjectRef) (es : List Extent) (b : ℕ)
    → holders (keep_visible ref es) b ≡ (if covers es b then 1 else 0)
unfolding keep_visible
holders-keep_visible ref [] b = refl
holders-keep_visible ref (e ∷ es) b = ground arith

-- A manifest says something of the blocks that its references hold, and of no others.
pub entry_source-none :
    (key bundle : String) (i : ℕ) (refs : List ObjectRef) (b : ℕ)
    → covers (all_extents refs) b ≡ false
    → entry_source key bundle i refs b ≡ none
entry_source-none key bundle i [] b h = refl
entry_source-none key bundle i (r ∷ rs) b h =
    ground
      (arith, covers-append r.extents (all_extents rs) b, entry_source-none key bundle (suc i) rs b)

pub entry_source-some :
    (key bundle : String) (i : ℕ) (refs : List ObjectRef) (b : ℕ)
    → covers (all_extents refs) b ≡ true
    → (s : Option ObjectRef) × (entry_source key bundle i refs b ≡ some s)
entry_source-some key bundle i [] b h = absurd cc
entry_source-some key bundle i (r ∷ rs) b h = elim (Bool-cases (covers r.extents b)) [
  | inl c ↦ (if covers r.zero_extents b then none else some (place (locate key bundle i r)), rw c)
  | inr c ↦
      let (s, e) =
        entry_source-some key bundle (suc i) rs b
          (ground (arith, covers-append r.extents (all_extents rs) b)) in
      (s, rw c e)
]

pub not_held :
    (refs : List ObjectRef) (b : ℕ) → holders refs b ≡ 0 → covers (all_extents refs) b ≡ false
not_held [] b h = refl
not_held (r ∷ rs) b h = ground (arith, covers-append r.extents (all_extents rs) b, not_held rs b)

module _ (hi : ℕ) (small : hi < u64_mod) where
  pub covers-visible :
      (covered : List Extent) (r : ObjectRef) (b : ℕ)
      → Ordered 0 hi covered
      → Ordered 0 hi r.extents
      → Ordered 0 hi r.zero_extents
      → covers (subtract_extents (subtract_extents r.extents covered) r.zero_extents) b
        ≡ (covers r.extents b && not (covers covered b) && not (covers r.zero_extents b))
  covers-visible covered r b c o z = ground (
    arith,
    covers-subtract_extents 0 hi 0 hi (subtract_extents r.extents covered) r.zero_extents b
        (subtract_extents-Ordered 0 hi 0 hi r.extents covered o c small small) z small small,
    covers-subtract_extents 0 hi 0 hi r.extents covered b o c small small,
  )

  -- What the inner loop keeps of a manifest: nothing that is covered already, and otherwise what
  -- the manifest says of the block.
  pub source_of-plan_segments :
      (key bundle : String) (covered : List Extent) (i : ℕ) (refs : List ObjectRef) (b : ℕ)
      → Ordered 0 hi covered
      → All (λ (r : ObjectRef). Ordered 0 hi r.extents × Ordered 0 hi r.zero_extents) refs
      → holders refs b ≤ 1
      → source_of (plan_segments key bundle covered i refs) b ≡ (
          if covers covered b
          then none
          else elim (entry_source key bundle i refs b) [ some s ↦ s | none ↦ none ])
  unfolding plan_segments
  source_of-plan_segments key bundle covered i [] b c o h = ground arith
  source_of-plan_segments key bundle covered i (r ∷ rs) b c o h = ground (
    arith,
    source_of-append
        (keep_visible (locate key bundle i r)
          (subtract_extents (subtract_extents r.extents covered) r.zero_extents))
        (plan_segments key bundle covered (suc i) rs) b,
    source_of-keep_visible (locate key bundle i r)
        (subtract_extents (subtract_extents r.extents covered) r.zero_extents) b,
    covers-visible covered r b c o.0.0 o.0.1,
    source_of-plan_segments key bundle covered (suc i) rs b c o.1,
    not_held rs b,
    entry_source-none key bundle (suc i) rs b,
  )

  pub holders-plan_segments :
      (key bundle : String) (covered : List Extent) (i : ℕ) (refs : List ObjectRef) (b : ℕ)
      → Ordered 0 hi covered
      → All (λ (r : ObjectRef). Ordered 0 hi r.extents × Ordered 0 hi r.zero_extents) refs
      → holders (plan_segments key bundle covered i refs) b
        ≤ (if covers covered b then 0 else holders refs b)
  unfolding plan_segments
  holders-plan_segments key bundle covered i [] b c o = ground arith
  holders-plan_segments key bundle covered i (r ∷ rs) b c o = ground (
    arith,
    holders-append
        (keep_visible (locate key bundle i r)
          (subtract_extents (subtract_extents r.extents covered) r.zero_extents))
        (plan_segments key bundle covered (suc i) rs) b,
    holders-keep_visible (locate key bundle i r)
        (subtract_extents (subtract_extents r.extents covered) r.zero_extents) b,
    covers-visible covered r b c o.0.0 o.0.1,
    holders-plan_segments key bundle covered (suc i) rs b c o.1,
  )
