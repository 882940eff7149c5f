-- ===== src/Garbage/Kept.antt =====
-- The keys that `collectGarbage` keeps, and the objects of the retained history.
use Prim.Native.String.{String}
use text.Mathlib.Text.{◌==◌ as str_eq, starts_with}
use text.Mathlib.TextEquality.{eq_iff}
use satchel.Base.{
  ℕ, ◌-◌, ◌≡◌, refl, sym, subst, ◌∙◌, Bool, true, false, not, ◌&&◌, ◌||◌, List, [], ◌∷◌, ◌++◌,
  arith, length, leb, if◌then◌else◌, Result, ok, err, ok_of_bind, Bool-cases, inl, inr, Option,
  none, some,
}
use satchel.Remote.{ObjectRef, ManifestEntry, is_empty}
use satchel.Volume.{State, Codec, volume_prefix, is_nil}
use satchel.History.{Fetch, HistoryError, load_history, is_checkpoint}
use satchel.Loader.{find_bundle_path}
use satchel.ObjectStore.{Memory, find_object, list_keys}
use satchel.Garbage.{
  GcCodec, GcError, fetch_from, member, unless_empty, retained, ref_keys, kept_keys, history_result,
  Sweep, Sweeping, gc_prefix, sweep_keys, candidates, sort_keys, mark, keep_set, sweeping,
  collect_with, collect,
}
use satchel.Garbage.Safety.{Same, sweep_keys-Same, write_records-Same}

module _ (c : Codec) (fetch : Fetch) (state : State) (fuel : ℕ) where
  -- The key is that of a bundle on the way from the head's bundle to the one that holds a manifest.
  abbrev pub on_path : String → Result HistoryError (List String) → Bool
  on_path key (err e) = false
  on_path key (ok path) = member key path

  -- The key is one that a reference names. A reference that names a source manifest without its
  -- bundle, and holds no data, also needs each bundle on the way to that manifest.
  abbrev pub names : String → ObjectRef → Bool
  names key ref =
      str_eq ref.key key
      || str_eq ref.source_manifest key
      || str_eq ref.source_bundle key
      || (not (is_empty ref.source_manifest)
          && is_empty ref.source_bundle
          && is_nil ref.inline_data
          && on_path key (find_bundle_path c fetch state fuel ref.source_manifest))

  abbrev pub mentions_ref : String → List ObjectRef → Bool
  mentions_ref key [] = false
  mentions_ref key (ref ∷ refs) = names key ref || mentions_ref key refs

  -- The key is that of the manifest, of the bundle it was found in, or one that its references name.
  abbrev pub needs : String → ManifestEntry → Bool
  needs key entry =
      str_eq entry.key key || str_eq entry.bundle key || mentions_ref key entry.manifest.segments

  abbrev pub mentions : String → List ManifestEntry → Bool
  mentions key [] = false
  mentions key (entry ∷ entries) = needs key entry || mentions key entries

-- A checkpoint that was made at or before the cutoff.
abbrev pub is_old_checkpoint : ℕ → ManifestEntry → Bool
is_old_checkpoint cutoff entry =
    is_checkpoint entry.manifest.kind && leb entry.manifest.created_at cutoff

abbrev pub has_old_checkpoint : ℕ → List ManifestEntry → Bool
has_old_checkpoint cutoff [] = false
has_old_checkpoint cutoff (entry ∷ entries) =
    is_old_checkpoint cutoff entry || has_old_checkpoint cutoff entries

-- What stands behind no old checkpoint is retained.
mentions-retained :
    (c : Codec) (fetch : Fetch) (state : State) (fuel cutoff : ℕ) (newer older : List ManifestEntry)
    (entry : ManifestEntry) (key : String)
    → has_old_checkpoint cutoff newer ≡ false
    → needs c fetch state fuel key entry ≡ true
    → mentions c fetch state fuel key (retained cutoff (newer ++ entry ∷ older)) ≡ true
unfolding retained
mentions-retained c fetch state fuel cutoff [] older entry key o n =
    elim (Bool-cases (is_old_checkpoint cutoff entry)) [
      | inl e ↦ rw (e, n) refl
      | inr e ↦ rw (e, n) refl
    ]
mentions-retained c fetch state fuel cutoff (first ∷ newer) older entry key o n =
    let is_new : is_old_checkpoint cutoff first ≡ false = ground arith in
    let later =
      mentions-retained c fetch state fuel cutoff newer older entry key (ground arith) n in
    rw (is_new, later) (or_true (needs c fetch state fuel key first))
  where
    or_true : (a : Bool) → (a || true) ≡ true
    or_true true = refl
    or_true false = refl

member-append :
    (key : String) (xs ys : List String) → member key (xs ++ ys) ≡ (member key xs || member key ys)
member-append key [] ys = refl
member-append key (x ∷ xs) ys = ground (arith, member-append key xs ys)

member-unless_empty :
    (key x : String) (keys : List String)
    → is_empty key ≡ false
    → member key (unless_empty x keys) ≡ (str_eq x key || member key keys)
member-unless_empty key x keys h = elim (Bool-cases (is_empty x)) [
  | inr e ↦ rw e refl
  | inl e ↦
      let q : x ≡ "" = (eq_iff x "").0 e in
      let r : str_eq x key ≡ false = unlike q in rw (e, r) refl
]
  where
    unlike : x ≡ "" → str_eq x key ≡ false
    unlike q = elim (Bool-cases (str_eq x key)) [
      | inr k ↦ k
      | inl k ↦
          let p : key ≡ "" = sym ((eq_iff x key).0 k) ∙ q in absurd (cc ((eq_iff key "").1 p, h))
    ]

member-ref_keys :
    (c : Codec) (fetch : Fetch) (state : State) (fuel : ℕ) (refs : List ObjectRef)
    (keys : List String) (key : String)
    → is_empty key ≡ false
    → ref_keys c fetch state fuel refs ≡ ok keys
    → mentions_ref c fetch state fuel key refs ≡ true
    → member key keys ≡ true
unfolding ref_keys
member-ref_keys c fetch state fuel [] keys key n h m = absurd cc
member-ref_keys c fetch state fuel (ref ∷ refs) keys key n h m =
    let (path, p, h1) =
      ok_of_bind
        (if not (is_empty ref.source_manifest)
            && is_empty ref.source_bundle
            && is_nil ref.inline_data
          then history_result (find_bundle_path c fetch state fuel ref.source_manifest)
          else ok [])
        _ keys h in
    let (rest, r, h2) = ok_of_bind (ref_keys c fetch state fuel refs) _ keys h1 in
    let same : unless_empty ref.key
          (unless_empty ref.source_manifest (unless_empty ref.source_bundle (path ++ rest)))
        ≡ keys =
      cc in
    let later = member-ref_keys c fetch state fuel refs rest key n r in
    let way =
      walked (not (is_empty ref.source_manifest)) (is_empty ref.source_bundle)
        (is_nil ref.inline_data) (find_bundle_path c fetch state fuel ref.source_manifest) path p in
    rw (sym same) (
      member-unless_empty key ref.key
        (unless_empty ref.source_manifest (unless_empty ref.source_bundle (path ++ rest))) n
      ∙ (rw
          (
            member-unless_empty key ref.source_manifest
                (unless_empty ref.source_bundle (path ++ rest)) n,
            member-unless_empty key ref.source_bundle (path ++ rest) n,
            member-append key path rest,
          )
          (spread (str_eq ref.key key) (str_eq ref.source_manifest key)
            (str_eq ref.source_bundle key)
            (not (is_empty ref.source_manifest)
              && is_empty ref.source_bundle
              && is_nil ref.inline_data
              && on_path c fetch state fuel key
                  (find_bundle_path c fetch state fuel ref.source_manifest))
            (mentions_ref c fetch state fuel key refs) (member key path) (member key rest) m way
            later)))
  where
    walked :
        (a b d : Bool) (r : Result HistoryError (List String)) (path : List String)
        → (if a && b && d then history_result r else ok []) ≡ ok path
        → (a && b && d && on_path c fetch state fuel key r) ≡ true
        → member key path ≡ true
    walked true true true (ok found) path e x =
        let q : found ≡ path = cc in subst (λ y. member key y ≡ true) q x
    walked true true true (err e1) path e x = absurd cc
    walked false b d r path e x = absurd cc
    walked true false d r path e x = absurd cc
    walked true true false r path e x = absurd cc

    spread :
        (a b c w d p r : Bool)
        → ((a || b || c || w) || d) ≡ true
        → (w ≡ true → p ≡ true)
        → (d ≡ true → r ≡ true)
        → (a || (b || (c || (p || r)))) ≡ true
    spread a b c w d p r m y l = ground arith

member-kept_keys :
    (c : Codec) (fetch : Fetch) (state : State) (fuel : ℕ) (entries : List ManifestEntry)
    (keys : List String) (key : String)
    → is_empty key ≡ false
    → kept_keys c fetch state fuel entries ≡ ok keys
    → mentions c fetch state fuel key entries ≡ true
    → member key keys ≡ true
unfolding kept_keys
member-kept_keys c fetch state fuel [] keys key n h m = absurd cc
member-kept_keys c fetch state fuel (entry ∷ entries) keys key n h m =
    let (refs, p, h1) = ok_of_bind (ref_keys c fetch state fuel entry.manifest.segments) _ keys h in
    let (rest, r, h2) = ok_of_bind (kept_keys c fetch state fuel entries) _ keys h1 in
    let same : unless_empty entry.key (unless_empty entry.bundle (refs ++ rest)) ≡ keys = cc in
    let here = member-ref_keys c fetch state fuel entry.manifest.segments refs key n p in
    let later = member-kept_keys c fetch state fuel entries rest key n r in
    rw (sym same) (
      member-unless_empty key entry.key (unless_empty entry.bundle (refs ++ rest)) n
      ∙ (rw (member-unless_empty key entry.bundle (refs ++ rest) n, member-append key refs rest)
          (spread (str_eq entry.key key) (str_eq entry.bundle key)
            (mentions_ref c fetch state fuel key entry.manifest.segments)
            (mentions c fetch state fuel key entries) (member key refs) (member key rest) m here
            later)))
  where
    spread :
        (a b s d p r : Bool)
        → ((a || b || s) || d) ≡ true
        → (s ≡ true → p ≡ true)
        → (d ≡ true → r ≡ true)
        → (a || (b || (p || r))) ≡ true
    spread a b s d p r m k l = ground arith

keep_set_lem :
    (c : Codec) (fetch : Fetch) (state : State) (fuel cutoff : ℕ) (history : List ManifestEntry)
    (keep : List String) (key : String)
    → is_empty key ≡ false
    → load_history c fetch state ≡ ok history
    → keep_set c fetch state fuel cutoff ≡ ok keep
    → mentions c fetch state fuel key (retained cutoff history) ≡ true
    → member key keep ≡ true
unfolding keep_set
keep_set_lem c fetch state fuel cutoff history keep key n l k m =
    let (found, f, h) = ok_of_bind (history_result (load_history c fetch state)) _ keep k in
    let same : found ≡ history = cc (rw l at f) in
    member-kept_keys c fetch state fuel (retained cutoff history) keep key n
      (subst (λ x. kept_keys c fetch state fuel (retained cutoff x) ≡ ok keep) same h) m

mark-Same :
    (key : String) (w : Sweeping) (g : GcCodec) (keys : List String) (m : Memory)
    (r : Sweep × Option GcError)
    → member key w.keep ≡ true
    → starts_with key (gc_prefix w.prefix) ≡ false
    → Same key m r.0.memory
    → Same key m (mark w g keys r).0
unfolding mark
mark-Same key w g keys m (s, some e) k o h = h
mark-Same key w g keys m (s, none) k o h =
    elim (Bool-cases (not (is_nil (sort_keys (candidates w s keys))) && not (w.held s.memory))) [
      | inl e ↦ rw (e, mark) h
      | inr e ↦
          rw (e, mark)
            (write_records-Same key w k o g w.now (length (sort_keys (candidates w s keys)))
                (sort_keys (candidates w s keys)) s.memory
              ∙ h)
    ]

-- However `collectGarbage` ends, it leaves as it was the object of each key that an entry of the
-- history needs, if no checkpoint from before the retention stands between that entry and the newest
-- one: the key of the manifest, of the bundle it was found in, of a segment, manifest or bundle that
-- one of its references names, or of a bundle on the way that `findBundlePath` finds to a source
-- manifest without a bundle. The history loads, and the key is not empty
-- and no record of the collector's.
pub collect-Same :
    (c : Codec) (g : GcCodec) (state : State) (fuel retention grace now : ℕ) (held : Memory → Bool)
    (m : Memory) (newer older : List ManifestEntry) (entry : ManifestEntry) (key : String)
    → load_history c (fetch_from m) state ≡ ok (newer ++ entry ∷ older)
    → has_old_checkpoint (now - retention) newer ≡ false
    → needs c (fetch_from m) state fuel key entry ≡ true
    → is_empty key ≡ false
    → starts_with key (gc_prefix (volume_prefix state.name)) ≡ false
    → find_object key (collect c g state fuel retention grace now held m).0.objects
      ≡ find_object key m.objects
unfolding collect
collect-Same c g state fuel retention grace now held m newer older entry key l a r n o =
    finish (keep_set c (fetch_from m) state fuel (now - retention)) (λ keep k. kept keep k)
  where
    w : List String → Sweeping
    w = sweeping state grace now held

    keys : List String
    keys = list_keys m (volume_prefix state.name)

    kept :
        (keep : List String)
        → keep_set c (fetch_from m) state fuel (now - retention) ≡ ok keep
        → member key keep ≡ true
    kept keep k =
        keep_set_lem c (fetch_from m) state fuel (now - retention) (newer ++ entry ∷ older) keep key
          n l k
          (mentions-retained c (fetch_from m) state fuel (now - retention) newer older entry key a
            r)

    finish :
        (s : Result GcError (List String))
        → ((keep : List String) → s ≡ ok keep → member key keep ≡ true)
        → Same key m (collect_with g w keys m s).0
    finish (err e) k = refl
    finish (ok keep) k =
        mark-Same key (w keep) g keys m
          (sweep_keys (w keep) g keys (record { memory = m; marked = []; deleted = [] }))
          (k keep refl) o
          (sweep_keys-Same key (w keep) (k keep refl) o g keys
            (record { memory = m; marked = []; deleted = [] }))
