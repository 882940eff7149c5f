-- ===== src/Lease.antt =====
-- `Lease` of internal/replica/remote.go: the writer's side of a volume. The store is the memory store
-- behind the conditional head; what the network does is an argument of each call, and so are the time
-- and the time to live, in milliseconds. A closure of a pending commit is the data it closes over.
pub mod Commit
pub mod Writes
pub mod Agreement
pub mod Fencing
pub mod Acquire
pub mod Takeover
pub mod Archive
pub mod Placement
pub mod Publish
pub mod Uploads
pub mod Commits
pub mod Durable
mod Tests
use Prim.Native.String.{String}
use text.Mathlib.Text.{◌==◌ as str_eq}
use satchel.Base.{
  ℕ, ◌+◌, Bool, true, false, not, ◌&&◌, ◌||◌, List, [], ◌∷◌, ltb, leb, ◌==◌, if◌then◌else◌, length,
  map, Option, none, some,
}
use satchel.Remote.{ObjectRef, Kind, delta, checkpoint, other_kind, Manifest}
use satchel.Remote.Plan.{checkpoint_refs, apply_delta_to_plan}
use satchel.Volume.{LeaseRecord, BundleRef, State, Bundle, Codec}
use satchel.Garbage.{member}

-- `preparedManifest`
pub record Prepared : Type 0 where
  pub manifest : Manifest
  pub body : List ℕ
  pub key : String

-- `preparedManifestBundle`
pub record PreparedBundle : Type 0 where
  pub ref : BundleRef
  pub body : List ℕ
  pub keys : List String
  pub uploaded : Bool

-- `pendingCommit`: a commit whose outcome is not known. `prepared` is there if it commits a manifest.
pub record Pending : Type 0 where
  pub body : List ℕ
  pub candidate : State
  pub prepared : Option Prepared
  pub bundle : Option PreparedBundle

pub record Lease : Type 0 where
  pub state : State
  pub etag : ℕ
  pub lost : Bool
  pub plan : List ObjectRef
  pub plan_known : Bool
  pub pending : Option Pending
  pub adopted_manifest : Option Manifest
  pub bundle_in_flight : String
  pub ready_bundle : Option PreparedBundle

abbrev pub has_record : Option LeaseRecord → Bool
has_record none = false
has_record (some r) = true

abbrev pub is_held : Lease → Bool
is_held l = not l.lost && has_record l.state.lease

abbrev parent_key : Option BundleRef → String
parent_key none = ""
parent_key (some ref) = ref.key

abbrev pub all_inline : List String → List (String × List ℕ) → Bool
all_inline [] inline = true
all_inline (key ∷ keys) inline = has_key key inline && all_inline keys inline
  where
    has_key : String → List (String × List ℕ) → Bool
    has_key key [] = false
    has_key key ((k, body) ∷ rest) = str_eq k key || has_key key rest

-- `manifestBundleApplies`
unfoldable pub bundle_applies : Codec → State → PreparedBundle → Bool
bundle_applies c state bundle = elim (c.bundle_of bundle.body) [
  | none ↦ false
  | some decoded ↦
      str_eq (parent_key state.manifest_bundle) (parent_key decoded.parent)
      && all_inline bundle.keys state.inline_manifests
]

abbrev pub without : List String → List (String × List ℕ) → List (String × List ℕ)
without keys [] = []
without keys ((k, body) ∷ rest) =
    let others = without keys rest in if member k keys then others else (k, body) ∷ others

-- `applyManifestBundle`
unfoldable pub apply_bundle : State → PreparedBundle → State
apply_bundle state bundle = record state {
  inline_manifests = without bundle.keys state.inline_manifests;
  manifest_bundle = some bundle.ref;
}

-- `attachBundleToRefs`
abbrev attach_ref : PreparedBundle → ObjectRef → ObjectRef
attach_ref bundle ref =
    if member ref.source_manifest bundle.keys
    then record ref { source_bundle = bundle.ref.key }
    else ref

unfoldable pub attach_bundle : List ObjectRef → PreparedBundle → List ObjectRef
attach_bundle refs bundle = map (attach_ref bundle) refs

-- `readyManifestBundleLocked`: the lease may forget its bundle.
abbrev pub ready_of : Codec → State → Option PreparedBundle → Option PreparedBundle
ready_of c state none = none
ready_of c state (some bundle) = if bundle_applies c state bundle then some bundle else none

unfoldable pub ready_bundle_locked : Codec → Lease → Lease × Option PreparedBundle
unfolding bundle_applies
ready_bundle_locked c l =
    let ready = ready_of c l.state l.ready_bundle in (record l { ready_bundle = ready }, ready)

-- `readyManifestBundle`
unfoldable pub ready_bundle_for : Codec → Lease → State → Lease × Option PreparedBundle
unfolding ready_bundle_locked
ready_bundle_for c l snapshot =
    let (l', ready) = ready_bundle_locked c l in (l', ready_of c snapshot ready)

abbrev unless_same : Option PreparedBundle → PreparedBundle → Option PreparedBundle
unless_same none bundle = none
unless_same (some ready) bundle = if str_eq ready.ref.key bundle.ref.key then none else some ready

-- `applyCommitLocked`
unfoldable pub apply_commit : Lease → State → ℕ → Option PreparedBundle → Lease
unfolding attach_bundle
apply_commit l candidate etag none = record l { state = candidate; etag = etag }
apply_commit l candidate etag (some bundle) = record l {
  state = candidate;
  etag = etag;
  plan = attach_bundle l.plan bundle;
  ready_bundle = unless_same l.ready_bundle bundle;
}

-- `applyManifestCommitLocked`, the plan.
abbrev pub planned : Lease → Prepared → Kind → Lease
planned l prepared delta =
    if l.plan_known
    then record l {
      plan = apply_delta_to_plan l.plan (checkpoint_refs prepared.key prepared.manifest);
    }
    else l
planned l prepared checkpoint = record l { plan = prepared.manifest.segments; plan_known = true }
planned l prepared (other_kind k) = l

unfoldable pub apply_manifest_commit : Lease → State → ℕ → Prepared → Option PreparedBundle → Lease
unfolding apply_commit checkpoint_refs apply_delta_to_plan
apply_manifest_commit l candidate etag prepared bundle =
    let l' = apply_commit l candidate etag bundle in
    planned (record l' { adopted_manifest = none }) prepared prepared.manifest.kind
