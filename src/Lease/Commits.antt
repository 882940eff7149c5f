-- ===== src/Lease/Commits.antt =====
-- `commitManifest` beside other objects: what a commit that succeeds leaves in the store and the lease.
use Prim.Native.String.{String}
use text.Mathlib.Text.{◌==◌ as str_eq}
use satchel.Lease.Uploads.{Holds}
use satchel.Base.{
  ℕ, ◌+◌, ◌≡◌, refl, ◌∙◌, ap, sym, subst, Bool-cases, Bool, true, false, not, ◌&&◌, ◌||◌, List,
  ◌==◌, if◌then◌else◌, Option, none, some, Result, ok, err, ◌⊎◌, inl, inr,
}
use satchel.Volume.{State, Codec, ManifestError, state_key, is_nil}
use satchel.ObjectStore.{
  Memory, precondition_failed, find_object, store_object, stored_as, put_if_absent, put_if_match,
  present, matches, list_keys,
}
use satchel.ObjectStore.Swap.{find_object-store_object}
use satchel.Head.Conditional.{
  Fault, delivered, lost_reply, lost_request, Reply, committed, precondition, failed, through,
  conditional_commit, head_prefix,
}
use satchel.Lease.{Prepared, PreparedBundle, Pending, Lease, is_held}
use satchel.Lease.Commit.{
  after_resolving, resolve_with, lease_lost, Net, LeaseError, head_changed, bundle_changed,
  renew_locked, same_as, Outcome, concluded, commit_state, commit_manifest, commit_prepared,
  manifest_candidate, resolve_pending, still_applies,
}
use satchel.Lease.Archive.{started}
use satchel.Lease.Takeover.{settled-memory}
use satchel.Lease.Writes.{apply_pending-IsApplied}
use satchel.Lease.Uploads.{Holds}

-- A commit writes nothing but the head.
through-memory :
    (f : Fault) (t : Bool) (m m' : Memory) (etag : ℕ)
    → ((through f m (if t then (m, err precondition_failed) else stored_as (m', etag))).0 ≡ m)
      ⊎ ((through f m (if t then (m, err precondition_failed) else stored_as (m', etag))).0 ≡ m')
through-memory delivered true m m' etag = inl refl
through-memory delivered false m m' etag = inr refl
through-memory lost_reply true m m' etag = inl refl
through-memory lost_reply false m m' etag = inr refl
through-memory lost_request t m m' etag = inl refl

conditional_commit-memory :
    (f : Fault) (m : Memory) (name : String) (body : List ℕ) (etag : ℕ)
    → ((conditional_commit f m name body etag).0 ≡ m)
      ⊎ ((conditional_commit f m name body etag).0 ≡ (store_object m (state_key name) body).0)
unfolding conditional_commit put_if_absent put_if_match
conditional_commit-memory f m name body etag =
    let stored = store_object m (state_key name) body in
    elim (Bool-cases (etag == 0)) [
      | inl z ↦ elim (Bool-cases (is_nil (list_keys m (head_prefix name)))) [
        | inl n ↦
            rw (z, n)
              (through-memory f
                (present (find_object (state_key name) m.objects) && not m.unconditional) m stored.0
                stored.1)
        | inr n ↦ rw (z, n) (inl refl)
      ]
      | inr z ↦ rw z (
          through-memory f
            (not m.unconditional && not (matches (find_object (state_key name) m.objects) etag)) m
            stored.0 stored.1)
    ]

commit_state-memory :
    (net : Net) (m : Memory) (l : Lease) (body : List ℕ)
    → ((commit_state net m l body).0 ≡ m)
      ⊎ ((commit_state net m l body).0 ≡ (store_object m (state_key l.state.name) body).0)
unfolding commit_state
commit_state-memory net m l body =
    rw
      (settled-memory net l.state.name body
        (conditional_commit net.write m l.state.name body l.etag))
      (conditional_commit-memory net.write m l.state.name body l.etag)

commit_state-Holds :
    (net : Net) (m : Memory) (l : Lease) (body : List ℕ) (key : String) (content : List ℕ)
    → str_eq (state_key l.state.name) key ≡ false
    → Holds m key content
    → Holds (commit_state net m l body).0 key content
unfolding Holds
commit_state-Holds net m l body key content n (o, f, e) = elim (commit_state-memory net m l body) [
  | inl same ↦ rw same (o, f, e)
  | inr same ↦ rw same (o, find_object-store_object m (state_key l.state.name) key body ∙ rw n f, e)
]

-- What a commit that succeeds leaves.
pub record IsCommitted (m : Memory) (l : Lease) (candidate : State) (out : Outcome) : Type 0 where
  pub state : out.lease.state ≡ candidate
  pub kept :
      (key : String) (content : List ℕ)
      → str_eq (state_key l.state.name) key ≡ false
      → Holds m key content
      → Holds out.memory key content

concluded-IsCommitted :
    (net : Net) (m : Memory) (l : Lease) (p : Pending) (r : Memory × Reply)
    → commit_state net m l p.body ≡ r
    → (concluded l p r).error ≡ none
    → IsCommitted m l p.candidate (concluded l p r)
concluded-IsCommitted net m l p (m', committed e) k h = record {
  state = (apply_pending-IsApplied l p e p.prepared).state;
  kept = λ key content n o.
      subst (λ x. Holds x.0 key content) k (commit_state-Holds net m l p.body key content n o);
}
concluded-IsCommitted net m l p (m', precondition) k h = absurd (cc h)
concluded-IsCommitted net m l p (m', failed) k h = absurd (cc h)

last_branch :
    (a b e : Bool) (x y z w : Outcome) (f g : LeaseError)
    → a ≡ false
    → y.error ≡ some f
    → z.error ≡ some g
    → (if a then x else if b then y else if e then z else w).error ≡ none
    → (if a then x else if b then y else if e then z else w) ≡ w
last_branch true b e x y z w f g na ny nz h = absurd (cc na)
last_branch false true e x y z w f g na ny nz h = absurd (cc (sym ny ∙ h))
last_branch false false true x y z w f g na ny nz h = absurd (cc (sym nz ∙ h))
last_branch false false false x y z w f g na ny nz h = refl

resolve_none :
    (net : Net) (m : Memory) (l : Lease) → l.pending ≡ none → resolve_pending net m l ≡ (l, none)
unfolding resolve_pending
resolve_none net m l n = ap (resolve_with net.resolve_fails m l) n

held_branch :
    (t : Bool) (x y : Outcome) (e : LeaseError)
    → y.error ≡ some e
    → (if t then x else y).error ≡ none
    → (if t then x else y) ≡ x
held_branch true x y e n h = refl
held_branch false x y e n h = absurd (cc (sym n ∙ h))

after_none :
    (r : Lease × Option LeaseError) (l : Lease) (m : Memory) (next : Lease → Outcome)
    → r ≡ (l, none)
    → (after_resolving r m next).error ≡ none
    → after_resolving r m next ≡ next l
after_none r l m next e h =
    let to : after_resolving r m next ≡ after_resolving (l, none) m next =
      ap (λ x. after_resolving x m next) e in
    to
    ∙ held_branch (is_held l) (next l) (record { memory = m; lease = l; error = some lease_lost })
        lease_lost refl (ap (λ o. o.error) (sym to) ∙ h)

pub started-state :
    (l : Lease) (r : Result ManifestError (Option PreparedBundle)) → (started l r).0.state ≡ l.state
started-state l (err e) = refl
started-state l (ok none) = refl
started-state l (ok (some bundle)) = refl

module _ (c : Codec) (net : Net) (now ttl : ℕ) (snapshot : State) (prepared : Prepared)
    (embed : Bool) (bundle : Option PreparedBundle) (m : Memory) (l : Lease)
    (fresh : l.adopted_manifest ≡ none) where
  abbrev candidate : State
  candidate = manifest_candidate (now + ttl) l.state prepared embed bundle

  abbrev renewing : Memory × Lease
  renewing = renew_locked c net now ttl m (record l { adopted_manifest = none })

  abbrev pub pending : Pending
  pending = record {
    body = c.state_body candidate;
    candidate = candidate;
    prepared = some prepared;
    bundle = bundle;
  }

  not_adopted : same_as l.adopted_manifest prepared.manifest ≡ false
  not_adopted = rw fresh refl

  commit_prepared-IsCommitted :
      (commit_prepared c net now ttl snapshot prepared embed bundle m l).error ≡ none
      → IsCommitted m l candidate (commit_prepared c net now ttl snapshot prepared embed bundle m l)
  unfolding commit_prepared
  commit_prepared-IsCommitted h =
      let e =
        last_branch (same_as l.adopted_manifest prepared.manifest)
          (not (l.state.generation == snapshot.generation)
            || not (str_eq l.state.manifest snapshot.manifest)
            || not (l.state.epoch == snapshot.epoch))
          (not (still_applies c l.state bundle))
          (record { memory = renewing.0; lease = renewing.1; error = none })
          (record { memory = m; lease = l; error = some head_changed })
          (record { memory = m; lease = l; error = some bundle_changed })
          (concluded l pending (commit_state net m l pending.body)) head_changed bundle_changed
          not_adopted refl refl h in
      subst (IsCommitted m l candidate) (sym e) (
        concluded-IsCommitted net m l pending (commit_state net m l pending.body) refl
          (ap (λ o. o.error) (sym e) ∙ h))

  pub commit_manifest-IsCommitted :
      l.pending ≡ none
      → (commit_manifest c net now ttl snapshot prepared embed bundle m l).error ≡ none
      → IsCommitted m l candidate (commit_manifest c net now ttl snapshot prepared embed bundle m l)
  unfolding commit_manifest
  commit_manifest-IsCommitted n h =
      let e =
        after_none (resolve_pending net m l) l m
          (commit_prepared c net now ttl snapshot prepared embed bundle m) (resolve_none net m l n)
          h in
      subst (IsCommitted m l candidate) (sym e)
        (commit_prepared-IsCommitted (ap (λ o. o.error) (sym e) ∙ h))
