-- ===== src/Lease/Writes.antt =====
-- What one commit of the head leaves in the store, and what applying it leaves in the lease.
use Prim.Native.String.{String}
use text.Mathlib.TextEquality.{eq_iff}
use satchel.Base.{
  ℕ, ◌+◌, ◌≡◌, refl, ◌∙◌, ap, sym, subst, Bool, true, false, List, ◌==◌, ==_iff, if◌then◌else◌,
  Option, none, some, err, Bool-cases, inl, inr, arith,
}
use satchel.Remote.{Kind, delta, checkpoint, other_kind}
use satchel.Base.Bytes.{bytes_eq, bytes_eq_sound}
use satchel.Volume.{State, state_key, is_nil}
use satchel.ObjectStore.{
  Memory, Object, find_object, store_object, put_if_match, put_if_absent, stored_as,
  precondition_failed, list_keys,
}
use satchel.ObjectStore.Swap.{find_object-store_object}
use satchel.Head.Conditional.{
  Fault, delivered, lost_reply, lost_request, Reply, committed, precondition, failed, through,
  conditional_commit, conditional_read, head_prefix,
}
use satchel.Lease.{
  Prepared, PreparedBundle, Pending, Lease, apply_commit, apply_manifest_commit, planned,
}
use satchel.Lease.Commit.{Net, adopted, settled, commit_state, adopt, apply_pending}

-- The head's object is this one.
abbrev pub HeadIs : String → Memory → Object → Type 0
HeadIs name m o = find_object (state_key name) m.objects ≡ some o

abbrev pub object : List ℕ → ℕ → Object
object body etag = record { content = body; etag = etag }

-- How a commit of the body ends in a store whose head has not moved on.
pub data Commits (name : String) (body : List ℕ) (m : Memory) : Memory × Reply → Type 0 where
  done :
      (m' : Memory) (etag : ℕ)
      → HeadIs name m' (object body etag)
      → (etag == 0) ≡ false
      → Commits name body m (m', committed etag)
  unknown :
      (m' : Memory) (etag : ℕ)
      → HeadIs name m' (object body etag)
      → (etag == 0) ≡ false
      → Commits name body m (m', failed)
  undone : Commits name body m (m, failed)

pub either-Commits :
    {name : String} {body : List ℕ} {m m' : Memory} {e : ℕ} (t : Bool)
    → Commits name body m (m', committed e)
    → Commits name body m (m', failed)
    → Commits name body m (m', (if t then committed e else failed))
either-Commits true x y = x
either-Commits false x y = y

module _ (name : String) (body : List ℕ) (m : Memory) where
  pub by_swap :
      (f : Fault) (o : Object)
      → (o.etag == 0) ≡ false
      → put_if_match m (state_key name) body o.etag
        ≡ stored_as (store_object m (state_key name) body)
      → conditional_commit f m name body o.etag
        ≡ through f m (stored_as (store_object m (state_key name) body))
  unfolding conditional_commit
  by_swap f o nz e = rw nz (ap (through f m) e)

  pub stored-HeadIs : HeadIs name (store_object m (state_key name) body).0 (object body (m.seq + 1))
  stored-HeadIs =
      find_object-store_object m (state_key name) (state_key name) body
      ∙ rw ((eq_iff (state_key name) (state_key name)).1 refl) refl

  stored-Commits :
      (f : Fault)
      → Commits name body m (through f m (stored_as (store_object m (state_key name) body)))
  unfolding store_object
  stored-Commits delivered = done _ _ stored-HeadIs (ground arith)
  stored-Commits lost_reply = unknown _ (m.seq + 1) stored-HeadIs (ground arith)
  stored-Commits lost_request = undone

  pub swapped :
      (o : Object)
      → HeadIs name m o
      → put_if_match m (state_key name) body o.etag
        ≡ stored_as (store_object m (state_key name) body)
  unfolding put_if_match
  swapped o h = elim (Bool-cases m.unconditional) [
    | inl u ↦ rw u refl
    | inr u ↦ rw (u, h, (==_iff o.etag o.etag).1 refl) refl
  ]

  conditional_commit-Commits :
      (f : Fault) (o : Object)
      → HeadIs name m o
      → (o.etag == 0) ≡ false
      → Commits name body m (conditional_commit f m name body o.etag)
  conditional_commit-Commits f o h nz =
      subst (λ r. Commits name body m r) (sym commits) (stored-Commits f)
    where
      commits :
          conditional_commit f m name body o.etag
          ≡ through f m (stored_as (store_object m (state_key name) body))
      commits = by_swap f o nz (swapped o h)

  -- A commit that fails counts as done if the head holds its body.
  settled-Commits :
      (net : Net) (o : Object) (r : Memory × Reply)
      → HeadIs name m o
      → (o.etag == 0) ≡ false
      → Commits name body m r
      → Commits name body m (settled net name body r)
  unfolding conditional_read
  settled-Commits net o _ h nz (done m' e k z) = done m' e k z
  settled-Commits net o _ h nz (unknown m' e k z) = elim (Bool-cases net.read_fails) [
    | inl f ↦ rw f (unknown m' e k z)
    | inr f ↦ rw (f, k) (either-Commits _ (done m' e k z) (unknown m' e k z))
  ]
  settled-Commits net o _ h nz undone = elim (Bool-cases net.read_fails) [
    | inl f ↦ rw f undone
    | inr f ↦ elim (Bool-cases (bytes_eq o.content body)) [
      | inl e ↦
          rw (f, h, e)
            (done m o.etag (h ∙ ap some (ap (λ b. object b o.etag) (bytes_eq_sound _ _ e))) nz)
      | inr e ↦ rw (f, h, e) undone
    ]
  ]

pub commit_state-Commits :
    (net : Net) (m : Memory) (l : Lease) (body : List ℕ) (o : Object)
    → HeadIs l.state.name m o
    → o.etag ≡ l.etag
    → (o.etag == 0) ≡ false
    → Commits l.state.name body m (commit_state net m l body)
unfolding commit_state
commit_state-Commits net m l body o h e nz = settled-Commits l.state.name body m net o _ h nz (
    subst
      (λ etag. Commits l.state.name body m (conditional_commit net.write m l.state.name body etag))
      e (conditional_commit-Commits l.state.name body m net.write o h nz))

-- A commit that the network delivers succeeds, if the head has not moved on.
pub delivered_commit :
    (net : Net) (m : Memory) (l : Lease) (body : List ℕ) (o : Object)
    → net.write ≡ delivered
    → HeadIs l.state.name m o
    → o.etag ≡ l.etag
    → (o.etag == 0) ≡ false
    → commit_state net m l body
      ≡ ((store_object m (state_key l.state.name) body).0, committed (m.seq + 1))
unfolding commit_state
delivered_commit net m l body o d h e nz =
    rw (d, sym e, by_swap l.state.name body m delivered o nz (swapped l.state.name body m o h)) refl

-- A reply of success means that the head holds the body, with the etag of the reply.
abbrev pub IsWritten : String → List ℕ → Memory × Reply → Type 0
IsWritten name body (m, committed etag) = HeadIs name m (object body etag)
IsWritten name body (m, precondition) = Unit
IsWritten name body (m, failed) = Unit

module _ (name : String) (body : List ℕ) where
  refused-IsWritten :
      (f : Fault) (t : Bool) (m : Memory)
      → IsWritten name body (
          through f m (
            if t
            then (m, err precondition_failed)
            else stored_as (store_object m (state_key name) body)))
  unfolding store_object
  refused-IsWritten delivered true m = tt
  refused-IsWritten lost_reply true m = tt
  refused-IsWritten lost_request true m = tt
  refused-IsWritten delivered false m = stored-HeadIs name body m
  refused-IsWritten lost_reply false m = tt
  refused-IsWritten lost_request false m = tt

  pub conditional_commit-IsWritten :
      (f : Fault) (m : Memory) (prev : ℕ)
      → IsWritten name body (conditional_commit f m name body prev)
  unfolding conditional_commit put_if_absent put_if_match
  conditional_commit-IsWritten f m prev = elim (Bool-cases (prev == 0)) [
    | inl z ↦ elim (Bool-cases (is_nil (list_keys m (head_prefix name)))) [
      | inl n ↦ rw (z, n) (refused-IsWritten f _ m)
      | inr n ↦ rw (z, n) tt
    ]
    | inr z ↦ rw z (refused-IsWritten f _ m)
  ]

  adopted-IsWritten :
      (m : Memory) (o : Option Object) (reply : Reply)
      → find_object (state_key name) m.objects ≡ o
      → IsWritten name body (m, reply)
      → IsWritten name body (m, adopted o body reply)
  adopted-IsWritten m none reply e w = w
  adopted-IsWritten m (some o) reply e w = elim (Bool-cases (bytes_eq o.content body)) [
    | inl s ↦ rw s (e ∙ ap some (ap (λ b. object b o.etag) (bytes_eq_sound _ _ s)))
    | inr s ↦ rw s w
  ]

  read-IsWritten :
      (net : Net) (m : Memory) (reply : Reply)
      → IsWritten name body (m, reply)
      → IsWritten name body (m, adopted (conditional_read net.read_fails m name) body reply)
  unfolding conditional_read
  read-IsWritten net m reply w = elim (Bool-cases net.read_fails) [
    | inl f ↦ rw f w
    | inr f ↦ rw f (adopted-IsWritten m (find_object (state_key name) m.objects) reply refl w)
  ]

  pub settled-IsWritten :
      (net : Net) (r : Memory × Reply)
      → IsWritten name body r
      → IsWritten name body (settled net name body r)
  settled-IsWritten net (m, committed e) w = w
  settled-IsWritten net (m, precondition) w = read-IsWritten net m precondition w
  settled-IsWritten net (m, failed) w = read-IsWritten net m failed w

pub commit_state-IsWritten :
    (net : Net) (m : Memory) (l : Lease) (body : List ℕ)
    → IsWritten l.state.name body (commit_state net m l body)
unfolding commit_state
commit_state-IsWritten net m l body =
    settled-IsWritten l.state.name body net _
      (conditional_commit-IsWritten l.state.name body net.write m l.etag)

-- The lease after a commit: its state and its etag are those of the commit.
pub record IsApplied (l : Lease) (candidate : State) (given : ℕ) (l' : Lease) : Type 0 where
  pub state : l'.state ≡ candidate
  pub etag : l'.etag ≡ given
  pub lost : l'.lost ≡ l.lost
  pub pending : l'.pending ≡ l.pending

apply_commit-IsApplied :
    (l : Lease) (candidate : State) (etag : ℕ) (bundle : Option PreparedBundle)
    → IsApplied l candidate etag (apply_commit l candidate etag bundle)
unfolding apply_commit
apply_commit-IsApplied l candidate etag none = record {
  state = refl;
  etag = refl;
  lost = refl;
  pending = refl;
}
apply_commit-IsApplied l candidate etag (some b) = record {
  state = refl;
  etag = refl;
  lost = refl;
  pending = refl;
}

planned-IsApplied :
    (l l' : Lease) (candidate : State) (etag : ℕ) (prepared : Prepared) (kind : Kind)
    → IsApplied l candidate etag l'
    → IsApplied l candidate etag (planned (record l' { adopted_manifest = none }) prepared kind)
planned-IsApplied l l' candidate etag prepared delta a = elim (Bool-cases l'.plan_known) [
  | inl k ↦ rw k (record { state = a.state; etag = a.etag; lost = a.lost; pending = a.pending })
  | inr k ↦ rw k (record { state = a.state; etag = a.etag; lost = a.lost; pending = a.pending })
]
planned-IsApplied l l' candidate etag prepared checkpoint a = record {
  state = a.state;
  etag = a.etag;
  lost = a.lost;
  pending = a.pending;
}
planned-IsApplied l l' candidate etag prepared (other_kind k) a = record {
  state = a.state;
  etag = a.etag;
  lost = a.lost;
  pending = a.pending;
}

apply_manifest_commit-IsApplied :
    (l : Lease) (candidate : State) (etag : ℕ) (prepared : Prepared)
    (bundle : Option PreparedBundle)
    → IsApplied l candidate etag (apply_manifest_commit l candidate etag prepared bundle)
unfolding apply_manifest_commit
apply_manifest_commit-IsApplied l candidate etag prepared bundle =
    planned-IsApplied l _ candidate etag prepared prepared.manifest.kind
      (apply_commit-IsApplied l candidate etag bundle)

pub apply_pending-IsApplied :
    (l : Lease) (p : Pending) (etag : ℕ) (prepared : Option Prepared)
    → IsApplied l p.candidate etag (apply_pending l p etag prepared)
apply_pending-IsApplied l p etag none = apply_commit-IsApplied l p.candidate etag p.bundle
apply_pending-IsApplied l p etag (some prepared) =
    apply_manifest_commit-IsApplied l p.candidate etag prepared p.bundle

pub adopt-IsApplied :
    (l : Lease) (p : Pending) (etag : ℕ) (prepared : Option Prepared)
    → IsApplied l p.candidate etag (adopt l p etag prepared)
adopt-IsApplied l p etag none = apply_commit-IsApplied l p.candidate etag p.bundle
adopt-IsApplied l p etag (some prepared) =
    let a = apply_manifest_commit-IsApplied l p.candidate etag prepared p.bundle in
    record { state = a.state; etag = a.etag; lost = a.lost; pending = a.pending }
