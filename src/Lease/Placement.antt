-- ===== src/Lease/Placement.antt =====
-- `publishPrepared` of internal/replica/remote.go: where a manifest goes, its uploads and its commit. The uploads,
-- which the source makes at the same time, are made one after the other: they are of objects of their own.
use Prim.Native.String.{String}
use satchel.Base.{
  ℕ, ◌+◌, Bool, true, false, not, ◌&&◌, ◌||◌, List, [], ◌∷◌, ◌++◌, leb, if◌then◌else◌, length,
  Option, none, some, Result, ok, err, ◌>>=◌,
}
use satchel.Volume.{State, Codec, ManifestError, inline_manifest_state_limit}
use satchel.History.{HistoryError}
use satchel.ObjectStore.{Memory}
use satchel.Lease.{Prepared, PreparedBundle, Lease, ready_bundle_for}
use satchel.Lease.Commit.{Net, LeaseError, commit_manifest}
use satchel.Lease.Archive.{
  UploadNet, UploadError, prepare_bundle, inline_bytes, keys_of, is_some, start_archive, upload_all,
}

pub data PublishError : Type 0 where
  no_segment segment_mismatch bad_extents bad_zero_extents count_overflow overlapping : PublishError
  in_lease : LeaseError → PublishError
  in_manifest : ManifestError → PublishError
  in_history : HistoryError → PublishError
  in_upload : UploadError → PublishError

-- The store, the lease, the error if there is one, and the bundle that goes on in the background.
pub record Published : Type 0 where
  pub memory : Memory
  pub lease : Lease
  pub error : Option PublishError
  pub background : Option PreparedBundle

abbrev pub inline_manifest_limit : ℕ
inline_manifest_limit = 65536

abbrev pub inline_segment_limit : ℕ
inline_segment_limit = 65536

-- Where the body of a manifest goes, and the bundle that the commit takes in.
pub record Decision : Type 0 where
  pub embed : Bool
  pub archive : Bool
  pub bundle : Option PreparedBundle

abbrev pub is_small : Prepared → Bool
is_small prepared = leb (length prepared.body) inline_manifest_limit

abbrev pub fits_inline : State → Prepared → Option PreparedBundle → Bool
fits_inline snapshot prepared bundle =
    leb (inline_bytes (keys_of bundle) snapshot.inline_manifests + length prepared.body)
      inline_manifest_state_limit

-- A body is embedded or archived.
abbrev pub insured : Decision → Decision
insured d = if not d.embed && not d.archive then record d { archive = true } else d

-- The start of `publishPrepared`, behind the ready bundle.
unfoldable pub decide :
    Codec → State → Prepared → Option PreparedBundle → Bool → Result ManifestError Decision
unfolding prepare_bundle
decide c snapshot prepared bundle archive =
    let large = archive || not (is_small prepared) in
    let embed = not large && is_small prepared && fits_inline snapshot prepared bundle in
    if not embed && not (is_some bundle) && not large
    then (prepare_bundle c snapshot >>= λ made. ok (
        insured (
          if is_small prepared
          then record { embed = true; archive = large; bundle = made }
          else record { embed = false; archive = true; bundle = made })))
    else ok (insured (record { embed = embed; archive = large; bundle = bundle }))

abbrev pub bundle_upload : Option PreparedBundle → List (String × List ℕ)
bundle_upload none = []
bundle_upload (some bundle) = if bundle.uploaded then [] else (bundle.ref.key, bundle.body) ∷ []

abbrev pub manifest_upload : Prepared → Bool → List (String × List ℕ)
manifest_upload prepared archive = if archive then (prepared.key, prepared.body) ∷ [] else []

abbrev pub uploads_of : List (String × List ℕ) → Prepared → Decision → List (String × List ℕ)
uploads_of segments prepared d =
    segments ++ (bundle_upload d.bundle ++ manifest_upload prepared d.archive)

-- After the commit: a success starts the archive.
abbrev pub archived : Codec → Lease × Option PreparedBundle → Memory → Published
archived c (l, bundle) m = record { memory = m; lease = l; error = none; background = bundle }

abbrev pub after_commit : Codec → Memory → Lease → Option LeaseError → Published
after_commit c m l none = archived c (start_archive c l) m
after_commit c m l (some e) = record {
  memory = m;
  lease = l;
  error = some (in_lease e);
  background = none;
}

abbrev pub after_uploads :
    Codec
    → Net
    → ℕ
    → ℕ
    → State
    → Prepared
    → Decision
    → Lease
    → Memory × Option UploadError
    → Published
after_uploads c net now ttl snapshot prepared d l (m, some e) = record {
  memory = m;
  lease = l;
  error = some (in_upload e);
  background = none;
}
after_uploads c net now ttl snapshot prepared d l (m, none) =
    let out = commit_manifest c net now ttl snapshot prepared d.embed d.bundle m l in
    after_commit c out.memory out.lease out.error

abbrev pub decided :
    Codec
    → Net
    → (ℕ → UploadNet)
    → ℕ
    → ℕ
    → State
    → Prepared
    → List (String × List ℕ)
    → Memory
    → Lease
    → Result ManifestError Decision
    → Published
decided c net nets now ttl snapshot prepared segments m l (err e) = record {
  memory = m;
  lease = l;
  error = some (in_manifest e);
  background = none;
}
decided c net nets now ttl snapshot prepared segments m l (ok d) =
    after_uploads c net now ttl snapshot prepared d l
      (upload_all nets m (uploads_of segments prepared d))

abbrev pub ready_for :
    Codec → Lease → State → Option PreparedBundle → Bool → Lease × Option PreparedBundle
ready_for c l snapshot none false = ready_bundle_for c l snapshot
ready_for c l snapshot none true = (l, none)
ready_for c l snapshot (some bundle) archive = (l, some bundle)

-- `publishPrepared`
unfoldable pub publish_prepared :
    Codec
    → Net
    → (ℕ → UploadNet)
    → ℕ
    → ℕ
    → State
    → Prepared
    → List (String × List ℕ)
    → Option PreparedBundle
    → Bool
    → Memory
    → Lease
    → Published
unfolding decide upload_all commit_manifest start_archive ready_bundle_for
publish_prepared c net nets now ttl snapshot prepared segments bundle archive m l =
    let ready = ready_for c l snapshot bundle archive in
    decided c net nets now ttl snapshot prepared segments m ready.0
      (decide c snapshot prepared ready.1 archive)
