-- ===== src/Garbage.antt =====
-- `collectGarbage` of internal/replica/remote.go, on the memory store. The store has no errors here but
-- missing objects. `held` is what `stillHeld` answers, which may change with the store.
pub mod Safety
pub mod Kept
mod Tests
use Prim.Native.String.{String, ◌++◌ as ◌<>◌}
use text.Mathlib.Text.{◌==◌ as str_eq, starts_with}
use satchel.Base.{
  ℕ, zero, suc, ◌+◌, ◌-◌, Bool, true, false, not, ◌&&◌, ◌||◌, List, [], ◌∷◌, ◌++◌, ltb, leb, ◌==◌,
  if◌then◌else◌, length, take, drop, Option, none, some, Result, ok, err, ◌>>=◌, ◌>>◌, guard,
  required,
}
use satchel.Remote.{ObjectRef, ManifestEntry, is_empty}
use satchel.Volume.{State, Codec, volume_format, volume_prefix, is_nil}
use satchel.History.{Fetch, HistoryError, missing, is_checkpoint, load_history}
use satchel.Loader.{find_bundle_path}
use satchel.ObjectStore.{Memory, Object, find_object, put_if_absent, delete, list_keys, insert_key}

-- `gcRecord`
pub record GcRecord : Type 0 where
  pub format : String
  pub volume_id : String
  pub created_at : ℕ
  pub objects : List String

-- encoding/json for a record, and the printed time and checksum of its name.
pub record GcCodec : Type 0 where
  pub record_of : List ℕ → Option GcRecord
  pub record_body : GcRecord → List ℕ
  pub record_name : ℕ → List ℕ → String

pub data GcError : Type 0 where
  bad_history : HistoryError → GcError
  record_missing record_undecodable invalid_record lease_lost : GcError

-- The store's `Get`.
abbrev pub fetched : Option Object → Result HistoryError (List ℕ)
fetched none = err missing
fetched (some object) = ok object.content

abbrev pub fetch_from : Memory → Fetch
fetch_from m key = fetched (find_object key m.objects)

abbrev pub member : String → List String → Bool
member key [] = false
member key (k ∷ ks) = str_eq k key || member key ks

-- `history[:keepThrough+1]`: up to the first checkpoint that was made at or before the cutoff.
unfoldable pub retained : ℕ → List ManifestEntry → List ManifestEntry
retained cutoff [] = []
retained cutoff (entry ∷ entries) =
    let rest = retained cutoff entries in
    if is_checkpoint entry.manifest.kind && leb entry.manifest.created_at cutoff
    then entry ∷ []
    else entry ∷ rest

abbrev pub unless_empty : String → List String → List String
unless_empty key keys = if is_empty key then keys else key ∷ keys

abbrev pub history_result {ℓ} : {A : Type ℓ} → Result HistoryError A → Result GcError A
history_result (ok a) = ok a
history_result (err e) = err (bad_history e)

-- The keys that the references of an entry keep.
unfoldable pub ref_keys : Codec → Fetch → State → ℕ → List ObjectRef → Result GcError (List String)
unfolding find_bundle_path
ref_keys c fetch state fuel [] = ok []
ref_keys c fetch state fuel (ref ∷ refs) = do
  path ←
      if not (is_empty ref.source_manifest) && is_empty ref.source_bundle && is_nil ref.inline_data
      then history_result (find_bundle_path c fetch state fuel ref.source_manifest)
      else ok []
  rest ← ref_keys c fetch state fuel refs
  ok (
      unless_empty ref.key
        (unless_empty ref.source_manifest (unless_empty ref.source_bundle (path ++ rest))))

unfoldable pub kept_keys :
    Codec → Fetch → State → ℕ → List ManifestEntry → Result GcError (List String)
unfolding ref_keys
kept_keys c fetch state fuel [] = ok []
kept_keys c fetch state fuel (entry ∷ entries) = do
  refs ← ref_keys c fetch state fuel entry.manifest.segments
  rest ← kept_keys c fetch state fuel entries
  ok (unless_empty entry.key (unless_empty entry.bundle (refs ++ rest)))

-- `isImmutableObject`
unfoldable pub is_immutable : String → String → Bool
is_immutable prefix key =
    starts_with key (prefix <> "manifests/")
    || starts_with key (prefix <> "manifest-bundles/")
    || starts_with key (prefix <> "segments/")

pub record Sweep : Type 0 where
  pub memory : Memory
  pub marked : List String
  pub deleted : List String

-- The loop over the objects of a record whose grace period is over.
unfoldable pub sweep_objects : List String → String → List String → Sweep → Sweep
unfolding delete is_immutable
sweep_objects keep prefix [] s = s
sweep_objects keep prefix (key ∷ keys) s = sweep_objects keep prefix keys (
    if member key keep || not (is_immutable prefix key)
    then s
    else record s { memory = delete s.memory key; deleted = key ∷ s.deleted })

pub record Sweeping : Type 0 where
  pub keep : List String
  pub prefix : String
  pub volume_id : String
  pub grace : ℕ
  pub now : ℕ
  pub held : Memory → Bool

-- The body of the loop over the listed keys, from a record on; the sweep so far, and an error.
unfoldable pub sweep_record : Sweeping → String → GcRecord → Sweep → Sweep × Option GcError
unfolding sweep_objects
sweep_record w key r s =
    let s' = record s { marked = r.objects ++ s.marked } in
    let swept = sweep_objects w.keep w.prefix r.objects s' in
    if not (str_eq r.format volume_format)
      || not (str_eq r.volume_id w.volume_id)
      || (r.created_at == 0)
    then (s, some invalid_record)
    else if ltb w.now (r.created_at + w.grace)
    then (s', none)
    else if not (w.held s.memory)
    then (s', some lease_lost)
    else (record swept { memory = delete swept.memory key }, none)

abbrev pub gc_prefix : String → String
gc_prefix prefix = prefix <> "gc/"

unfoldable pub sweep_key : Sweeping → GcCodec → String → Sweep → Sweep × Option GcError
unfolding sweep_record
sweep_key w g key s =
    if not (starts_with key (gc_prefix w.prefix))
    then (s, none)
    else elim (find_object key s.memory.objects) [
      | none ↦ (s, some record_missing)
      | some object ↦ elim (g.record_of object.content) [
        | none ↦ (s, some record_undecodable)
        | some r ↦ sweep_record w key r s
      ]
    ]

unfoldable pub sweep_keys : Sweeping → GcCodec → List String → Sweep → Sweep × Option GcError
unfolding sweep_key
sweep_keys w g [] s = (s, none)
sweep_keys w g (key ∷ keys) s =
    let (s', e) = sweep_key w g key s in
    elim e [ some x ↦ (s', some x) | none ↦ sweep_keys w g keys s' ]

-- What is marked now: listed objects that are not kept, not deleted and not marked before.
unfoldable pub candidates : Sweeping → Sweep → List String → List String
unfolding is_immutable
candidates w s [] = []
candidates w s (key ∷ keys) =
    let rest = candidates w s keys in
    if not (is_immutable w.prefix key)
      || member key w.keep
      || member key s.deleted
      || member key s.marked
    then rest
    else key ∷ rest

abbrev pub objects_per_record : ℕ
objects_per_record = 1000

-- The loop that writes records, of at most as many rounds as there are candidates.
unfoldable pub write_records : GcCodec → String → String → ℕ → ℕ → List String → Memory → Memory
unfolding put_if_absent
write_records g prefix volume_id now zero keys m = m
write_records g prefix volume_id now (suc fuel) [] m = m
write_records g prefix volume_id now (suc fuel) (key ∷ keys) m =
    let batch = take objects_per_record (key ∷ keys) in
    let body = g.record_body (record {
      format = volume_format;
      volume_id = volume_id;
      created_at = now;
      objects = batch;
    }) in
    write_records g prefix volume_id now fuel (drop objects_per_record (key ∷ keys))
      (put_if_absent m (gc_prefix prefix <> g.record_name now body) body).0

abbrev pub sort_keys : List String → List String
sort_keys [] = []
sort_keys (key ∷ keys) = insert_key key (sort_keys keys)

-- The end of `collectGarbage`, after the sweep.
unfoldable pub mark :
    Sweeping → GcCodec → List String → Sweep × Option GcError → Memory × Option GcError
unfolding candidates write_records
mark w g keys (s, some e) = (s.memory, some e)
mark w g keys (s, none) =
    let found = sort_keys (candidates w s keys) in
    if not (is_nil found) && not (w.held s.memory)
    then (s.memory, some lease_lost)
    else (write_records g w.prefix w.volume_id w.now (length found) found s.memory, none)

-- `keep`: what the retained history needs.
unfoldable pub keep_set : Codec → Fetch → State → ℕ → ℕ → Result GcError (List String)
unfolding retained kept_keys
keep_set c fetch state fuel cutoff = do
  history ← history_result (load_history c fetch state)
  kept_keys c fetch state fuel (retained cutoff history)

abbrev pub sweeping : State → ℕ → ℕ → (Memory → Bool) → List String → Sweeping
sweeping state grace now held keep = record {
  keep = keep;
  prefix = volume_prefix state.name;
  volume_id = state.id;
  grace = grace;
  now = now;
  held = held;
}

abbrev pub collect_with :
    GcCodec
    → (List String → Sweeping)
    → List String
    → Memory
    → Result GcError (List String)
    → Memory × Option GcError
collect_with g w keys m (err e) = (m, some e)
collect_with g w keys m (ok keep) =
    mark (w keep) g keys
      (sweep_keys (w keep) g keys (record { memory = m; marked = []; deleted = [] }))

-- `collectGarbage`: the store, and an error. The source lists the keys before it sweeps.
unfoldable pub collect :
    Codec → GcCodec → State → ℕ → ℕ → ℕ → ℕ → (Memory → Bool) → Memory → Memory × Option GcError
unfolding keep_set sweep_keys mark
collect c g state fuel retention grace now held m =
    collect_with g (sweeping state grace now held) (list_keys m (volume_prefix state.name)) m
      (keep_set c (fetch_from m) state fuel (now - retention))
