-- ===== src/Lease/Commit.antt =====
-- The commits of a lease: `update` with `Renew` and `Release`, `resolvePending`, and `commitManifest`.
use Prim.Native.String.{String}
use text.Mathlib.Text.{◌==◌ as str_eq}
use satchel.Base.{
  ℕ, ◌+◌, ◌/◌, Bool, true, false, not, ◌&&◌, ◌||◌, List, [], ◌∷◌, ltb, ◌==◌, if◌then◌else◌, Option,
  none, some, Result, ok, err,
}
use satchel.Extents.{Extent}
use satchel.Remote.{ObjectRef, Kind, delta, checkpoint, other_kind, Manifest}
use satchel.Base.Bytes.{bytes_eq}
use satchel.Volume.{LeaseRecord, State, Codec}
use satchel.History.{is_checkpoint}
use satchel.ObjectStore.{Memory, Object}
use satchel.Head.Conditional.{
  Fault, Reply, committed, precondition, failed, conditional_commit, conditional_read,
}
use satchel.Lease.{
  Prepared, PreparedBundle, Pending, Lease, is_held, bundle_applies, apply_bundle,
  ready_bundle_locked, apply_commit, apply_manifest_commit,
}

-- What the network does in one call: to the read of `resolvePending`, to the write of the commit, and
-- to the read after a commit that failed.
pub record Net : Type 0 where
  pub resolve_fails : Bool
  pub write : Fault
  pub read_fails : Bool

pub data LeaseError : Type 0 where
  lease_lost request_failed refused head_changed bundle_changed : LeaseError

-- The store, the lease, and the error that the call returns, if it does.
pub record Outcome : Type 0 where
  pub memory : Memory
  pub lease : Lease
  pub error : Option LeaseError

-- `commitState`: a commit that failed counts if the head holds the same body.
abbrev pub adopted : Option Object → List ℕ → Reply → Reply
adopted none body reply = reply
adopted (some o) body reply = if bytes_eq o.content body then committed o.etag else reply

abbrev pub settled : Net → String → List ℕ → Memory × Reply → Memory × Reply
settled net name body (m, committed etag) = (m, committed etag)
settled net name body (m, precondition) =
    (m, adopted (conditional_read net.read_fails m name) body precondition)
settled net name body (m, failed) =
    (m, adopted (conditional_read net.read_fails m name) body failed)

unfoldable pub commit_state : Net → Memory → Lease → List ℕ → Memory × Reply
unfolding conditional_commit conditional_read
commit_state net m l body =
    settled net l.state.name body (conditional_commit net.write m l.state.name body l.etag)

-- `pending.commit` and the adopted manifest.
abbrev pub adopt : Lease → Pending → ℕ → Option Prepared → Lease
adopt l p etag none = apply_commit l p.candidate etag p.bundle
adopt l p etag (some prepared) =
    record (apply_manifest_commit l p.candidate etag prepared p.bundle) {
      adopted_manifest = some prepared.manifest;
    }

abbrev pub resolved : Lease → Pending → Option Object → Lease × Option LeaseError
resolved l p none = (l, some request_failed)
resolved l p (some o) =
    let l' = record l { pending = none } in
    (if bytes_eq o.content p.body then adopt l' p o.etag p.prepared else l', none)

abbrev pub resolve_with : Bool → Memory → Lease → Option Pending → Lease × Option LeaseError
resolve_with fails m l none = (l, none)
resolve_with fails m l (some p) =
    if is_held l then resolved l p (conditional_read fails m l.state.name) else (l, none)

-- `resolvePending`
unfoldable pub resolve_pending : Net → Memory → Lease → Lease × Option LeaseError
unfolding conditional_read apply_commit apply_manifest_commit
resolve_pending net m l = resolve_with net.resolve_fails m l l.pending

-- What a caller does with the reply to its commit: `p` is what it commits.
abbrev pub apply_pending : Lease → Pending → ℕ → Option Prepared → Lease
apply_pending l p etag none = apply_commit l p.candidate etag p.bundle
apply_pending l p etag (some prepared) = apply_manifest_commit l p.candidate etag prepared p.bundle

abbrev pub concluded : Lease → Pending → Memory × Reply → Outcome
concluded l p (m, committed etag) = record {
  memory = m;
  lease = apply_pending l p etag p.prepared;
  error = none;
}
concluded l p (m, precondition) = record {
  memory = m;
  lease = record l { lost = true };
  error = some lease_lost;
}
concluded l p (m, failed) = record {
  memory = m;
  lease = record l { pending = some p };
  error = some request_failed;
}

abbrev pub with_bundle : State → Option PreparedBundle → State
with_bundle state none = state
with_bundle state (some bundle) = apply_bundle state bundle

-- The end of `update`, from the mutated candidate on.
abbrev pub update_to :
    Codec → Net → Memory → Lease → Option PreparedBundle → Result LeaseError State → Outcome
update_to c net m l bundle (err e) = record { memory = m; lease = l; error = some e }
update_to c net m l bundle (ok candidate) =
    concluded l
      (record {
        body = c.state_body candidate;
        candidate = candidate;
        prepared = none;
        bundle = bundle;
      })
      (commit_state net m l (c.state_body candidate))

abbrev pub after_resolving : Lease × Option LeaseError → Memory → (Lease → Outcome) → Outcome
after_resolving (l, some e) m next = record { memory = m; lease = l; error = some e }
after_resolving (l, none) m next =
    if is_held l then next l else record { memory = m; lease = l; error = some lease_lost }

-- `update`, from `readyManifestBundleLocked` on.
unfoldable pub update_held :
    Codec → Net → (State → Result LeaseError State) → Memory → Lease → Outcome
unfolding commit_state ready_bundle_locked apply_bundle
update_held c net mutate m l =
    let (l', bundle) = ready_bundle_locked c l in
    update_to c net m l' bundle (mutate (with_bundle l'.state bundle))

-- `update`
unfoldable pub update : Codec → Net → (State → Result LeaseError State) → Memory → Lease → Outcome
unfolding resolve_pending update_held
update c net mutate m l = after_resolving (resolve_pending net m l) m (update_held c net mutate m)

abbrev pub extended : ℕ → Option LeaseRecord → Option LeaseRecord
extended expires none = none
extended expires (some r) = some (record r { expires_at = expires })

-- `Renew` and `Release`
unfoldable pub renew : Codec → Net → ℕ → ℕ → Memory → Lease → Outcome
unfolding update
renew c net now ttl m l =
    update c net (λ s. ok (record s { lease = extended (now + ttl) s.lease })) m l

unfoldable pub release : Codec → Net → Memory → Lease → Outcome
unfolding update
release c net m l = update c net (λ s. ok (record s { lease = none })) m l

abbrev due : ℕ → Option LeaseRecord → Bool
due limit none = false
due limit (some r) = not (ltb limit r.expires_at)

abbrev pub renewed : Lease → State → Memory × Reply → Memory × Lease
renewed l candidate (m, committed etag) = (m, apply_commit l candidate etag none)
renewed l candidate (m, precondition) = (m, record l { lost = true })
renewed l candidate (m, failed) = (m, l)

-- `renewLocked`: an error is not reported, and no commit is kept pending.
unfoldable pub renew_locked : Codec → Net → ℕ → ℕ → Memory → Lease → Memory × Lease
unfolding commit_state apply_commit
renew_locked c net now ttl m l =
    let candidate = record l.state { lease = extended (now + ttl) l.state.lease } in
    if due (now + ttl / 2) l.state.lease
    then renewed l candidate (commit_state net m l (c.state_body candidate))
    else (m, l)

abbrev pub extent_eq : List Extent → List Extent → Bool
extent_eq [] [] = true
extent_eq [] (y ∷ ys) = false
extent_eq (x ∷ xs) [] = false
extent_eq (x ∷ xs) (y ∷ ys) = (x.start == y.start) && (x.blocks == y.blocks) && extent_eq xs ys

abbrev ref_eq : ObjectRef → ObjectRef → Bool
ref_eq a b =
    str_eq a.key b.key
    && str_eq a.source_manifest b.source_manifest
    && str_eq a.source_bundle b.source_bundle
    && (a.source_index == b.source_index)
    && bytes_eq a.inline_data b.inline_data
    && str_eq a.sha256 b.sha256
    && (a.bytes == b.bytes)
    && (a.blocks == b.blocks)
    && extent_eq a.extents b.extents
    && extent_eq a.zero_extents b.zero_extents

abbrev refs_eq : List ObjectRef → List ObjectRef → Bool
refs_eq [] [] = true
refs_eq [] (y ∷ ys) = false
refs_eq (x ∷ xs) [] = false
refs_eq (x ∷ xs) (y ∷ ys) = ref_eq x y && refs_eq xs ys

abbrev kind_name : Kind → String
kind_name delta = "delta"
kind_name checkpoint = "checkpoint"
kind_name (other_kind k) = k

-- `sameLogicalManifest`: all but the time.
unfoldable pub same_manifest : Manifest → Manifest → Bool
same_manifest a b =
    str_eq a.format b.format
    && str_eq a.volume_id b.volume_id
    && (a.generation == b.generation)
    && (a.epoch == b.epoch)
    && str_eq (kind_name a.kind) (kind_name b.kind)
    && str_eq a.parent b.parent
    && refs_eq a.segments b.segments

abbrev pub same_as : Option Manifest → Manifest → Bool
same_as none m = false
same_as (some a) m = same_manifest a m

abbrev pub set_inline : String → List ℕ → List (String × List ℕ) → List (String × List ℕ)
set_inline key body [] = (key, body) ∷ []
set_inline key body ((k, b) ∷ rest) =
    let later = set_inline key body rest in
    if str_eq k key then (key, body) ∷ rest else (k, b) ∷ later

abbrev pub still_applies : Codec → State → Option PreparedBundle → Bool
still_applies c state none = true
still_applies c state (some bundle) = bundle_applies c state bundle

-- The state that `commitManifest` commits.
unfoldable pub manifest_candidate : ℕ → State → Prepared → Bool → Option PreparedBundle → State
unfolding apply_bundle
manifest_candidate expires state prepared embed bundle =
    let base = with_bundle state bundle in
    record base {
      lease = extended expires base.lease;
      generation = prepared.manifest.generation;
      manifest = prepared.key;
      inline_manifests =
          if embed
          then set_inline prepared.key prepared.body base.inline_manifests
          else base.inline_manifests;
      checkpoint_generation =
          if is_checkpoint prepared.manifest.kind
          then prepared.manifest.generation
          else base.checkpoint_generation;
    }

-- `commitManifest`, when no commit is pending.
unfoldable pub commit_prepared :
    Codec → Net → ℕ → ℕ → State → Prepared → Bool → Option PreparedBundle → Memory → Lease → Outcome
unfolding renew_locked same_manifest manifest_candidate commit_state bundle_applies
commit_prepared c net now ttl snapshot prepared embed bundle m l =
    let candidate = manifest_candidate (now + ttl) l.state prepared embed bundle in
    let renewing = renew_locked c net now ttl m (record l { adopted_manifest = none }) in
    if same_as l.adopted_manifest prepared.manifest
    then record { memory = renewing.0; lease = renewing.1; error = none }
    else if not (l.state.generation == snapshot.generation)
        || not (str_eq l.state.manifest snapshot.manifest)
        || not (l.state.epoch == snapshot.epoch)
    then record { memory = m; lease = l; error = some head_changed }
    else if not (still_applies c l.state bundle)
    then record { memory = m; lease = l; error = some bundle_changed }
    else concluded l
        (record {
          body = c.state_body candidate;
          candidate = candidate;
          prepared = some prepared;
          bundle = bundle;
        })
        (commit_state net m l (c.state_body candidate))

-- `commitManifest`
unfoldable pub commit_manifest :
    Codec → Net → ℕ → ℕ → State → Prepared → Bool → Option PreparedBundle → Memory → Lease → Outcome
unfolding resolve_pending commit_prepared
commit_manifest c net now ttl snapshot prepared embed bundle m l =
    after_resolving (resolve_pending net m l) m
      λ l1. commit_prepared c net now ttl snapshot prepared embed bundle m l1
