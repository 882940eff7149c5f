-- ===== src/History/Chain.antt =====
-- `readManifestWithSourceCache`, and the history that `loadHistory` follows.
use text.Mathlib.Text.{◌==◌ as str_eq}
use Prim.Native.String.{String}
use satchel.Base.{
  ℕ, zero, suc, ◌-◌, ◌<◌, ◌≡◌, ◌≢◌, ◌⊎◌, refl, sym, subst, ◌∙◌, Bool, true, false, not, ◌&&◌, ◌||◌,
  List, [], ◌∷◌, arith, leb, ◌==◌, if◌then◌else◌, Option, none, some, Result, ok, err, ◌>>=◌,
  required, ok_of_bind, ok_of_guard, Result-cases, Option-cases, Bool-cases, inl, inr, ==_iff,
}
use satchel.Remote.{Manifest, ManifestEntry, is_empty}
use satchel.Volume.{
  BundleRef, State, BundledManifest, Codec, ManifestError, undecodable, checksum_mismatch,
  foreign_manifest, broken_chain, volume_format, manifest_key, validate_manifest, decode_manifest,
}
use satchel.History.{
  Fetch, HistoryError, missing, wrapped, entry_of, body_of, inline_body, entry_in, read_bundle,
  find_in_bundles, bundle_fuel, read_manifest, is_checkpoint, ended, history_from, load_history,
  history_limit,
}

-- What a manifest that was read for a generation is: decoded from a body and valid. Generation 0
-- expects any.
pub record Checked (c : Codec) (state : State) (expected : ℕ) (m : Manifest) : Type 0 where
  pub body : List ℕ
  pub decoded : c.manifest_of body ≡ some m
  pub valid : validate_manifest c state m m.generation ≡ ok tt
  pub positive : 0 < m.generation
  pub generation : 0 < expected → m.generation ≡ expected

ok_of_wrapped {ℓ} : {A : Type ℓ} (r : Result ManifestError A) (a : A) → wrapped r ≡ ok a → r ≡ ok a
ok_of_wrapped (ok x) a h = cc
ok_of_wrapped (err e) a h = absurd cc

validate_manifest-generation :
    (c : Codec) (state : State) (m : Manifest) (expected : ℕ)
    → validate_manifest c state m expected ≡ ok tt
    → (m.generation ≡ expected) × (0 < expected)
unfolding validate_manifest
validate_manifest-generation c state m expected h =
    let (g1, h1) =
      ok_of_guard
        (str_eq m.format volume_format && str_eq m.volume_id state.id && not (m.epoch == 0))
        foreign_manifest _ tt h in
    let (g2, h2) =
      ok_of_guard ((m.generation == expected) && not (expected == 0)) broken_chain _ tt h1 in
    (ground arith, ground arith)

pub decode_manifest-Checked :
    (c : Codec) (state : State) (key : String) (body : List ℕ) (expected : ℕ) (m : Manifest)
    → decode_manifest c state key body expected ≡ ok m
    → Checked c state expected m
unfolding decode_manifest
decode_manifest-Checked c state key body expected m h =
    let (n, d, h1) = ok_of_bind (required (c.manifest_of body) undecodable) _ m h in
    let (k, h2) =
      ok_of_guard (str_eq key (manifest_key c state.name body)) checksum_mismatch _ m h1 in
    let wanted = if expected == 0 then n.generation else expected in
    let (u, v, h3) = ok_of_bind (validate_manifest c state n wanted) _ m h2 in
    let same : n ≡ m = cc in
    let (g, p) = validate_manifest-generation c state n wanted v in
    subst (Checked c state expected) same (record {
      body = body;
      decoded = found (c.manifest_of body) n d;
      valid = subst (λ e. validate_manifest c state n e ≡ ok tt) (sym g) v;
      positive = omega (arith, g, p);
      generation = λ l. ground (arith, g);
    })
  where
    found : (o : Option Manifest) (n : Manifest) → required o undecodable ≡ ok n → o ≡ some n
    found none n e = absurd cc
    found (some x) n e = cc

-- An entry under its key, checked.
abbrev pub IsEntry : Codec → State → String → ℕ → ManifestEntry → Type 0
IsEntry c state key expected entry = (entry.key ≡ key) × Checked c state expected entry.manifest

decoded-IsEntry :
    (c : Codec) (state : State) (key bundle : String) (body : List ℕ) (expected : ℕ)
    (entry : ManifestEntry)
    → (wrapped (decode_manifest c state key body expected) >>= λ m. ok (entry_of key bundle m))
      ≡ ok entry
    → IsEntry c state key expected entry
decoded-IsEntry c state key bundle body expected entry h =
    let (m, d, e) = ok_of_bind (wrapped (decode_manifest c state key body expected)) _ entry h in
    let same : entry_of key bundle m ≡ entry = cc in
    subst (IsEntry c state key expected) same (
      refl,
      decode_manifest-Checked c state key body expected m
          (ok_of_wrapped (decode_manifest c state key body expected) m d),
    )

entry_in-IsEntry :
    (c : Codec) (state : State) (key : String) (expected : ℕ) (bundle : String)
    (ms : List BundledManifest) (entry : ManifestEntry)
    → entry_in c state key expected bundle ms ≡ ok (some entry)
    → IsEntry c state key expected entry
unfolding entry_in
entry_in-IsEntry c state key expected bundle ms entry h = elim (Option-cases (body_of key ms)) [
  | inl e ↦ absurd (cc (rw (e, entry_in) at h))
  | inr (body, e) ↦
      let h' = rw (e, entry_in) at h in
      let (m, d, f) =
        ok_of_bind (wrapped (decode_manifest c state key body expected)) _ (some entry) h' in
      let same : entry_of key bundle m ≡ entry = cc in
      subst (IsEntry c state key expected) same (
        refl,
        decode_manifest-Checked c state key body expected m
            (ok_of_wrapped (decode_manifest c state key body expected) m d),
      )
]

find_in_bundles-IsEntry :
    (c : Codec) (fetch : Fetch) (state : State) (key : String) (expected fuel : ℕ)
    (start : Option BundleRef) (entry : ManifestEntry)
    → find_in_bundles c fetch state key expected fuel start ≡ ok (some entry)
    → IsEntry c state key expected entry
unfolding find_in_bundles
find_in_bundles-IsEntry c fetch state key expected fuel none entry h = absurd cc
find_in_bundles-IsEntry c fetch state key expected zero (some ref) entry h = absurd cc
find_in_bundles-IsEntry c fetch state key expected (suc fuel) (some ref) entry h =
    elim (Bool-cases (not (expected == 0) && leb expected ref.last_generation)) [
      | inr e ↦ absurd (cc (rw e at h))
      | inl e ↦
          let h' = rw e at h in
          let (bundle, r, f) = ok_of_bind (read_bundle c fetch state ref) _ (some entry) h' in
          elim (Bool-cases (leb ref.first_generation expected)) [
            | inl i ↦
                entry_in-IsEntry c state key expected ref.key bundle.manifests entry (rw i at f)
            | inr i ↦
                find_in_bundles-IsEntry c fetch state key expected fuel bundle.parent entry
                  (rw i at f)
          ]
    ]

-- Wherever it is found, a manifest that is read has its key, is valid for the volume, and has the
-- expected generation.
pub read_manifest-IsEntry :
    (c : Codec) (fetch : Fetch) (state : State) (key : String) (expected : ℕ)
    (entry : ManifestEntry)
    → read_manifest c fetch state key expected ≡ ok entry
    → IsEntry c state key expected entry
unfolding read_manifest
read_manifest-IsEntry c fetch state key expected entry h =
    elim (Option-cases (inline_body key state.inline_manifests)) [
      | inr (body, e) ↦
          decoded-IsEntry c state key "" body expected entry (rw (e, read_manifest) at h)
      | inl e ↦
          let h' = rw (e, read_manifest) at h in
          let start = state.manifest_bundle in
          let (found, f, g) =
            ok_of_bind (find_in_bundles c fetch state key expected (bundle_fuel start) start) _
              entry h' in
          elim (Option-cases found) [
            | inr (x, q) ↦
                let same : x ≡ entry = cc (rw q at g) in
                find_in_bundles-IsEntry c fetch state key expected (bundle_fuel start) start entry
                  (f ∙ (rw (q, same) refl))
            | inl q ↦
                let g' = rw q at g in
                let (body, b, d) = ok_of_bind (fetch key) _ entry g' in
                decoded-IsEntry c state key "" body expected entry d
          ]
    ]

-- A history: each entry is the parent of the one before it, and the generations go down by one.
abbrev pub IsHistory : Codec → State → String → ℕ → Bool → List ManifestEntry → Type 0
IsHistory c state key expected behind [] = behind ≡ true
IsHistory c state key expected behind (entry ∷ entries) =
    IsEntry c state key expected entry
    × ((entry.manifest.generation ≡ 1) × (entries ≡ [])
        ⊎ ((entry.manifest.generation ≢ 1)
            × IsHistory c state entry.manifest.parent (expected - 1)
                (behind || is_checkpoint entry.manifest.kind) entries))

ended_lem :
    (x : HistoryError) (behind : Bool) (ms : List ManifestEntry)
    → ended x behind ≡ ok ms
    → (ms ≡ []) × (behind ≡ true)
ended_lem missing true ms h = (cc, refl)
ended_lem x behind ms h = absurd cc

-- Whatever the loop of `loadHistory` returns is such a history.
history_from-IsHistory :
    (c : Codec) (fetch : Fetch) (state : State) (fuel : ℕ) (key : String) (expected : ℕ)
    (behind : Bool) (ms : List ManifestEntry)
    → (is_empty key ≡ true → behind ≡ true)
    → 0 < expected
    → history_from c fetch state fuel key expected behind ≡ ok ms
    → IsHistory c state key expected behind ms
unfolding history_from
history_from-IsHistory c fetch state zero key expected behind ms k p h = absurd cc
history_from-IsHistory c fetch state (suc fuel) key expected behind ms k p h =
    elim (Bool-cases (is_empty key)) [
      | inl e ↦ let q : ms ≡ [] = cc (rw e at h) in rw q (k e)
      | inr e ↦ elim (Result-cases (read_manifest c fetch state key expected)) [
        | inr (x, r) ↦ let (q, b) = ended_lem x behind ms (rw (e, r) at h) in rw q b
        | inl (entry, r) ↦
            let here = read_manifest-IsEntry c fetch state key expected entry r in
            let m = entry.manifest in
            let h' = rw (e, r) at h in
            elim (Bool-cases (m.generation == 1)) [
              | inl g ↦ elim (Bool-cases (is_empty m.parent)) [
                | inr f ↦ absurd (cc (rw (g, f) at h'))
                | inl f ↦
                    let q : ms ≡ entry ∷ [] = cc (rw (g, f) at h') in
                    rw q (here, inl ((==_iff m.generation 1).0 g, refl))
              ]
              | inr g ↦ elim (Bool-cases (is_empty m.parent && not (is_checkpoint m.kind))) [
                | inl f ↦ absurd (cc (rw (g, f) at h'))
                | inr f ↦
                    let behind' = behind || is_checkpoint m.kind in
                    let (rest, s, u) =
                      ok_of_bind (history_from c fetch state fuel m.parent (expected - 1) behind') _
                        ms (rw (g, f) at h') in
                    let n : m.generation ≢ 1 = λ x. absurd (ground (arith, g)) in
                    let later =
                      history_from-IsHistory c fetch state fuel m.parent (expected - 1) behind' rest
                        (λ x. ground (arith, f)) (omega (arith, p, n, here.1.generation p)) s in
                    let q : ms ≡ entry ∷ rest = cc in rw q (here, inr (n, later))
              ]
            ]
      ]
    ]

-- `loadHistory` of a state with a manifest: its entries follow each other by their parents, each is
-- valid for the volume, and their generations go down by one from that of the state, to generation 1
-- or to a place behind a checkpoint.
pub load_history-IsHistory :
    (c : Codec) (fetch : Fetch) (state : State) (ms : List ManifestEntry)
    → is_empty state.manifest ≡ false
    → 0 < state.generation
    → load_history c fetch state ≡ ok ms
    → IsHistory c state state.manifest state.generation false ms
unfolding load_history
load_history-IsHistory c fetch state ms e p h = elim (Bool-cases (state.generation == 0)) [
  | inl z ↦ absurd (omega (arith, (==_iff state.generation 0).0 z))
  | inr z ↦
      history_from-IsHistory c fetch state (suc history_limit) state.manifest state.generation false
        ms (λ x. absurd (cc (e, x))) p
        (subst
          (λ t.
            (if t
              then ok []
              else history_from c fetch state (suc history_limit) state.manifest state.generation
                  false)
            ≡ ok ms)
          z h)
]
