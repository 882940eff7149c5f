-- ===== src/Lease/Durable.antt =====
-- `publishPrepared`: where the body of a published manifest is, when the publication has succeeded.
mod Tests
use Prim.Native.String.{String}
use text.Mathlib.Text.{◌==◌ as str_eq}
use text.Mathlib.TextEquality.{eq_iff}
use satchel.Base.{
  ℕ, suc, ◌+◌, ◌≡◌, ◌≢◌, refl, ◌∙◌, ap, sym, subst, arith, Bool-cases, Bool, true, false, not, ◌&&◌,
  ◌||◌, List, [], ◌∷◌, ◌++◌, append_assoc, ◌==◌, ltb, if◌then◌else◌, Option, none, some, Result, ok,
  err, ◌>>=◌, ◌⊎◌, inl, inr, Option-cases, Result-cases,
}
use satchel.Base.Bytes.{bytes_eq, bytes_eq_sound}
use satchel.Volume.{State, Codec, ManifestError, state_key, is_nil}
use satchel.History.{inline_body}
use satchel.ObjectStore.{
  Memory, Object, precondition_failed, find_object, store_object, stored_as, put_if_absent,
  put_if_match, present, matches, list_keys,
}
use satchel.ObjectStore.Swap.{find_object-store_object}
use satchel.Head.Conditional.{
  Fault, delivered, lost_reply, lost_request, Reply, committed, precondition, failed, through,
  conditional_commit, head_prefix,
}
use satchel.Lease.{
  Prepared, PreparedBundle, Pending, Lease, is_held, ready_bundle_for, ready_bundle_locked,
  ready_of, bundle_applies, apply_bundle,
}
use satchel.Lease.Commit.{
  after_resolving, resolve_with, lease_lost, Net, LeaseError, head_changed, bundle_changed,
  renew_locked, same_as, Outcome, concluded, commit_state, commit_manifest, commit_prepared,
  manifest_candidate, set_inline, resolve_pending, with_bundle, still_applies,
}
use satchel.Lease.Archive.{
  UploadNet, UploadError, compared, upload_reply, upload, upload_all, start_archive, prepare_bundle,
  is_some, started, inline_bytes, manifest_bundle_target,
}
use satchel.Remote.{is_empty}
use satchel.Lease.Placement.{
  Published, Decision, is_small, fits_inline, insured, decide, uploads_of, bundle_upload,
  manifest_upload, after_commit, after_uploads, decided, ready_for, publish_prepared,
}
use satchel.Lease.Takeover.{settled-memory}
use satchel.Lease.Writes.{IsApplied, apply_pending-IsApplied}
use satchel.Lease.Uploads.{Holds, IsDurable, archived-Holds, decide_covers, inline_body-set_inline}
use satchel.Lease.Commits.{IsCommitted, commit_manifest-IsCommitted, started-state}

start_archive-state : (c : Codec) (l : Lease) → (start_archive c l).0.state ≡ l.state
unfolding start_archive
start_archive-state c l =
    elim (Bool-cases (
      not (is_held l)
      || not (is_empty l.bundle_in_flight)
      || is_some l.ready_bundle
      || ltb (inline_bytes [] l.state.inline_manifests) manifest_bundle_target)) [
        | inl e ↦ rw e refl
        | inr e ↦ rw e (started-state l (prepare_bundle c l.state))
      ]

ready_for-state :
    (c : Codec) (l : Lease) (snapshot : State) (bundle : Option PreparedBundle) (archive : Bool)
    → (ready_for c l snapshot bundle archive).0
      ≡ record l { ready_bundle = (ready_for c l snapshot bundle archive).0.ready_bundle }
unfolding ready_bundle_for ready_bundle_locked
ready_for-state c l snapshot none false = refl
ready_for-state c l snapshot none true = refl
ready_for-state c l snapshot (some bundle) archive = refl

-- The state of a candidate, and the body in it.
manifest_candidate-manifest :
    (expires : ℕ) (state : State) (prepared : Prepared) (embed : Bool)
    (bundle : Option PreparedBundle)
    → (manifest_candidate expires state prepared embed bundle).manifest ≡ prepared.key
unfolding manifest_candidate
manifest_candidate-manifest expires state prepared embed bundle = refl

manifest_candidate-inline :
    (expires : ℕ) (state : State) (prepared : Prepared) (bundle : Option PreparedBundle)
    → inline_body prepared.key
        (manifest_candidate expires state prepared true bundle).inline_manifests
      ≡ some prepared.body
unfolding manifest_candidate
manifest_candidate-inline expires state prepared bundle =
    inline_body-set_inline prepared.key prepared.body (with_bundle state bundle).inline_manifests

-- The publication is done: the state names the manifest, whose body is kept.
pub IsPublished : Prepared → Memory → State → Type 0
IsPublished prepared m s = (s.manifest ≡ prepared.key) × IsDurable m s prepared.key prepared.body

after_commit-IsPublished :
    (c : Codec) (prepared : Prepared) (m : Memory) (l : Lease) (e : Option LeaseError)
    → (e ≡ none → IsPublished prepared m l.state)
    → (after_commit c m l e).error ≡ none
    → IsPublished prepared (after_commit c m l e).memory (after_commit c m l e).lease.state
after_commit-IsPublished c prepared m l (some e) done h = absurd (cc h)
after_commit-IsPublished c prepared m l none done h =
    subst (IsPublished prepared m) (sym (start_archive-state c l)) (done refl)

-- Embedded, or archived by the uploads before the commit.
committed-IsPublished :
    (prepared : Prepared) (embed archive : Bool) (bundle : Option PreparedBundle) (expires : ℕ)
    (m : Memory) (l : Lease) (out : Outcome)
    → embed || archive ≡ true
    → str_eq (state_key l.state.name) prepared.key ≡ false
    → (archive ≡ true → Holds m prepared.key prepared.body)
    → IsCommitted m l (manifest_candidate expires l.state prepared embed bundle) out
    → IsPublished prepared out.memory out.lease.state
unfolding IsPublished IsDurable
committed-IsPublished prepared true archive bundle expires m l out e n up done = (
  ap (λ s. s.manifest) done.state
      ∙ manifest_candidate-manifest expires l.state prepared true bundle,
  inl (
      ap (λ s. inline_body prepared.key s.inline_manifests) done.state
      ∙ manifest_candidate-inline expires l.state prepared bundle),
)
committed-IsPublished prepared false archive bundle expires m l out e n up done = (
  ap (λ s. s.manifest) done.state
      ∙ manifest_candidate-manifest expires l.state prepared false bundle,
  inr (done.kept prepared.key prepared.body n (up e)),
)

module _ (c : Codec) (net : Net) (nets : ℕ → UploadNet) (now ttl : ℕ) (snapshot : State)
    (prepared : Prepared) (segments : List (String × List ℕ)) (m : Memory) where
  after_uploads-IsPublished :
      (d : Decision) (l : Lease) (r : Memory × Option UploadError)
      → d.embed || d.archive ≡ true
      → l.pending ≡ none
      → l.adopted_manifest ≡ none
      → str_eq (state_key l.state.name) prepared.key ≡ false
      → (d.archive ≡ true → r.1 ≡ none → Holds r.0 prepared.key prepared.body)
      → (after_uploads c net now ttl snapshot prepared d l r).error ≡ none
      → IsPublished prepared
          (after_uploads c net now ttl snapshot prepared d l r).memory
          (after_uploads c net now ttl snapshot prepared d l r).lease.state
  after_uploads-IsPublished d l (m', some e) v p f n up h = absurd (cc h)
  after_uploads-IsPublished d l (m', none) v p f n up h =
      let out = commit_manifest c net now ttl snapshot prepared d.embed d.bundle m' l in
      after_commit-IsPublished c prepared out.memory out.lease out.error
        (λ done.
          committed-IsPublished prepared d.embed d.archive d.bundle (now + ttl) m' l out v n
            (λ a. up a refl)
            (commit_manifest-IsCommitted c net now ttl snapshot prepared d.embed d.bundle m' l f p
              done))
        h

  decided-IsPublished :
      (bundle : Option PreparedBundle) (archive : Bool) (l : Lease)
      (r : Result ManifestError Decision)
      → decide c snapshot prepared bundle archive ≡ r
      → l.pending ≡ none
      → l.adopted_manifest ≡ none
      → str_eq (state_key l.state.name) prepared.key ≡ false
      → (decided c net nets now ttl snapshot prepared segments m l r).error ≡ none
      → IsPublished prepared
          (decided c net nets now ttl snapshot prepared segments m l r).memory
          (decided c net nets now ttl snapshot prepared segments m l r).lease.state
  decided-IsPublished bundle archive l (err e) k p f n h = absurd (cc h)
  decided-IsPublished bundle archive l (ok d) k p f n h =
      after_uploads-IsPublished d l (upload_all nets m (uploads_of segments prepared d))
        (decide_covers c snapshot prepared bundle archive d k) p f n
        (λ a. archived-Holds nets m segments prepared d a) h

  -- A publication that succeeds, on a lease with no commit pending and no adopted manifest, and with a
  -- key that is not the head's, leaves a state that names the manifest, and the body of the manifest is
  -- inline in this state or an object of the store.
  publish_prepared-IsPublished :
      (bundle : Option PreparedBundle) (archive : Bool) (l : Lease)
      → l.pending ≡ none
      → l.adopted_manifest ≡ none
      → str_eq (state_key l.state.name) prepared.key ≡ false
      → (publish_prepared c net nets now ttl snapshot prepared segments bundle archive m l).error
        ≡ none
      → IsPublished prepared
          (publish_prepared c net nets now ttl snapshot prepared segments bundle archive m l).memory
          (publish_prepared c net nets now ttl snapshot prepared segments bundle archive m
            l).lease.state
  unfolding publish_prepared
  publish_prepared-IsPublished bundle archive l p f n h =
      let ready = ready_for c l snapshot bundle archive in
      let same = ready_for-state c l snapshot bundle archive in
      decided-IsPublished ready.1 archive ready.0 (decide c snapshot prepared ready.1 archive) refl
        (ap (λ x. x.pending) same ∙ p) (ap (λ x. x.adopted_manifest) same ∙ f)
        (ap (λ x. str_eq (state_key x.state.name) prepared.key) same ∙ n) h
