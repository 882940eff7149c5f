-- ===== src/History/Restore.antt =====
-- The restore of a volume: the manifests that `restoreManifests` finds, and the plan of their segments.
use Prim.Native.String.{String}
use satchel.Base.{
  ℕ, zero, suc, ◌+◌, ◌-◌, ◌/◌, ◌%◌, ◌<◌, ◌≡◌, true, false, List, [], ◌∷◌, if◌then◌else◌, ◌==◌,
  u64_mod, some, ok, err, ok_of_bind, Bool-cases, inl, inr, ◌⊎◌, refl, subst, arith,
}
use satchel.Remote.{Manifest, ManifestEntry, is_empty}
use satchel.Remote.Plan.{restore_plan}
use satchel.Remote.Plan.Sources.{IsValid, source_of, newest_source}
use satchel.Remote.Plan.Newest.{AreValid, source_of-restore_plan}
use satchel.Volume.{State, Codec}
use satchel.Volume.Validate.{AreWords, validate_manifest-IsValid}
use satchel.History.{
  ended_early, Fetch, read_manifest, is_checkpoint, restore_from, restore_manifests, history_limit,
}
use satchel.History.Chain.{Checked, IsEntry, read_manifest-IsEntry}

-- encoding/json decodes uint64 fields to numbers that fit.
abbrev pub DecodesWords : Codec → Type 0
DecodesWords c = (body : List ℕ) (m : Manifest) → c.manifest_of body ≡ some m → AreWords m.segments

-- The manifests lead from a key by their parents to the one without a parent, each of them the
-- checked manifest of its key. A manifest has the expected generation, which is one less than that of
-- the one before, but where 0 is expected it may have any. They end where 0 is expected, or at the
-- first checkpoint.
pub IsRestore : Codec → State → String → ℕ → List ManifestEntry → Type 0
IsRestore c state key expected [] = (is_empty key ≡ true) × (expected ≡ 0)
IsRestore c state key expected (entry ∷ rest) =
    (is_empty key ≡ false)
    × IsEntry c state key expected entry
    × (((is_checkpoint entry.manifest.kind ≡ true) × (rest ≡ []))
        ⊎ ((is_checkpoint entry.manifest.kind ≡ false)
            × IsRestore c state entry.manifest.parent ((expected + u64_mod - 1) % u64_mod) rest))

restore_from-IsRestore :
    (c : Codec) (fetch : Fetch) (state : State) (fuel : ℕ) (key : String) (expected : ℕ)
    (ms : List ManifestEntry)
    → restore_from c fetch state fuel key expected ≡ ok ms
    → IsRestore c state key expected ms
unfolding restore_from IsRestore
restore_from-IsRestore c fetch state zero key expected ms h = absurd cc
restore_from-IsRestore c fetch state (suc fuel) key expected ms h =
    elim (Bool-cases (is_empty key)) [
      | inl e ↦ nothing e (rw e at h)
      | inr e ↦
          let (entry, r, g) =
            ok_of_bind (read_manifest c fetch state key expected) _ ms (rw e at h) in
          let checked = read_manifest-IsEntry c fetch state key expected entry r in
          let m = entry.manifest in
          elim (Bool-cases (is_checkpoint m.kind)) [
            | inl k ↦
                let q : entry ∷ [] ≡ ms = cc (rw k at g) in
                subst (IsRestore c state key expected) q (e, checked, inl (k, refl))
            | inr k ↦
                let next = (expected + u64_mod - 1) % u64_mod in
                let (rest, s, u) =
                  ok_of_bind (restore_from c fetch state fuel m.parent next) _ ms (rw k at g) in
                let q : entry ∷ rest ≡ ms = cc in
                subst (IsRestore c state key expected) q (
                  e,
                  checked,
                  inr (k, restore_from-IsRestore c fetch state fuel m.parent next rest s),
                )
          ]
    ]
  where
    nothing :
        is_empty key ≡ true
        → (if expected == 0 then ok [] else err ended_early) ≡ ok ms
        → IsRestore c state key expected ms
    nothing e x = elim (Bool-cases (expected == 0)) [
      | inl z ↦
          let q : [] ≡ ms = cc (rw z at x) in
          let n : expected ≡ 0 = ground arith in subst (IsRestore c state key expected) q (e, n)
      | inr z ↦ absurd (cc (rw z at x))
    ]

module _ (c : Codec) (words : DecodesWords c) (state : State)
    (small : state.size / state.block_size < u64_mod) where
  Checked-IsValid :
      (entry : ManifestEntry) (expected : ℕ)
      → Checked c state expected entry.manifest
      → IsValid (state.size / state.block_size) entry.manifest.segments
  Checked-IsValid entry expected checked =
      let m = entry.manifest in
      validate_manifest-IsValid c state m m.generation small (words checked.body m checked.decoded)
        checked.valid

  IsRestore-AreValid :
      (key : String) (expected : ℕ) (ms : List ManifestEntry)
      → IsRestore c state key expected ms
      → AreValid (state.size / state.block_size) ms
  unfolding IsRestore
  IsRestore-AreValid key expected [] h = tt
  IsRestore-AreValid key expected (entry ∷ rest) (e, (k, checked), inl (p, q)) =
      (Checked-IsValid entry expected checked, rw q tt)
  IsRestore-AreValid key expected (entry ∷ rest) (e, (k, checked), inr (p, later)) = (
    Checked-IsValid entry expected checked,
    IsRestore-AreValid entry.manifest.parent ((expected + u64_mod - 1) % u64_mod) rest later,
  )

  -- Whatever manifests `restoreManifests` accepts, they are the chain of the state: from its manifest
  -- by the parents to where generation zero is expected or to the first checkpoint, each one valid and,
  -- unless zero is expected, of the generation before. The plan of `restorePlan` for them reads each
  -- block of the volume from where the newest of them that holds it stores it, or from nowhere. The
  -- blocks of the volume are fewer than 2 to the 64, and the numbers of decoded segments fit in 64 bits.
  pub restore_manifests_lem :
      (fetch : Fetch) (ms : List ManifestEntry)
      → restore_manifests c fetch state ≡ ok ms
      → IsRestore c state state.manifest state.generation ms
        × ((b : ℕ) → source_of (restore_plan ms) b ≡ newest_source ms b)
  unfolding restore_manifests
  restore_manifests_lem fetch ms h =
      let chain =
        restore_from-IsRestore c fetch state (suc history_limit) state.manifest state.generation ms
          h in
      (
        chain,
        λ b.
            source_of-restore_plan (state.size / state.block_size) small ms b
              (IsRestore-AreValid state.manifest state.generation ms chain),
      )
