-- ===== src/Lease/Fencing.antt =====
-- A lease whose volume another holder has taken over: the head holds a state of another epoch.
use satchel.Base.{
  ℕ, ◌≡◌, ◌≢◌, refl, ◌∙◌, ap, sym, subst, Bool-cases, Bool, true, false, List, [], ◌∷◌, ◌==◌,
  Option, none, some, Result, ok, err, ◌⊎◌, inl, inr,
}
use satchel.Base.Bytes.{bytes_eq, bytes_eq_sound}
use satchel.Volume.{State, Codec}
use satchel.ObjectStore.{Memory, put_if_match, precondition_failed}
use satchel.Head.Conditional.{
  Reply, Fault, delivered, lost_reply, lost_request, precondition, failed, through,
  conditional_commit, conditional_read,
}
use satchel.Lease.{Lease, Pending, PreparedBundle, is_held, ready_bundle_locked, apply_bundle}
use satchel.Lease.Commit.{
  Net, LeaseError, lease_lost, request_failed, Outcome, adopted, settled, resolve_with,
  resolve_pending, update_to, after_resolving, update, update_held, commit_state, with_bundle,
}
use satchel.Lease.Writes.{HeadIs, object}

-- A call of `update`, and what the network does in it.
pub record Call : Type 0 where
  pub net : Net
  pub mutate : State → Result LeaseError State

abbrev pub updates : Codec → List Call → Memory → Lease → Memory × Lease
updates c [] m l = (m, l)
updates c (call ∷ calls) m l =
    let out = update c call.net call.mutate m l in updates c calls out.memory out.lease

abbrev IsOwn : Codec → State → Option Pending → Type 0
IsOwn c s none = Unit
IsOwn c s (some p) = (p.body ≡ c.state_body p.candidate) × (p.candidate.epoch ≡ s.epoch)

-- The head is another holder's, with an etag that the lease does not know.
pub record Fenced (c : Codec) (m : Memory) (l : Lease) : Type 0 where
  pub own : IsOwn c l.state l.pending
  pub owner : State
  pub epoch : owner.epoch ≢ l.state.epoch
  pub current : ℕ
  pub head : HeadIs l.state.name m (object (c.state_body owner) current)
  pub etag : (current == l.etag) ≡ false
  pub nonzero : (l.etag == 0) ≡ false
  pub conditional : m.unconditional ≡ false

abbrev pub epoch_of : Option State → ℕ
epoch_of none = 0
epoch_of (some s) = s.epoch

-- A codec that reads the epoch that it writes.
unfoldable pub IsDecoding : Codec → Type 0
IsDecoding c = (s : State) → epoch_of (c.state_of (c.state_body s)) ≡ s.epoch

-- A call that keeps the epoch.
unfoldable pub KeepsEpoch : (State → Result LeaseError State) → Type 0
KeepsEpoch mutate = (s s' : State) → mutate s ≡ ok s' → s'.epoch ≡ s.epoch

abbrev pub AllKeepEpoch : List Call → Type 0
AllKeepEpoch [] = Unit
AllKeepEpoch (call ∷ calls) = KeepsEpoch call.mutate × AllKeepEpoch calls

with_bundle-epoch : (s : State) (b : Option PreparedBundle) → (with_bundle s b).epoch ≡ s.epoch
unfolding apply_bundle
with_bundle-epoch s none = refl
with_bundle-epoch s (some b) = refl

module _ (c : Codec) (law : IsDecoding c) where
  foreign :
      (m : Memory) (l : Lease) (f : Fenced c m l) (s : State)
      → s.epoch ≡ l.state.epoch
      → bytes_eq (c.state_body f.owner) (c.state_body s) ≡ false
  unfolding IsDecoding
  foreign m l f s e = elim (Bool-cases (bytes_eq (c.state_body f.owner) (c.state_body s))) [
    | inl b ↦ absurd (
        f.epoch (
          sym (law f.owner)
          ∙ ap (λ b'. epoch_of (c.state_of b')) (bytes_eq_sound _ _ b)
          ∙ law s
          ∙ e))
    | inr b ↦ b
  ]

  refused_commit :
      (f : Fault) (m : Memory) (l : Lease) (body : List ℕ)
      → Fenced c m l
      → conditional_commit f m l.state.name body l.etag ≡ through f m (m, err precondition_failed)
  unfolding conditional_commit put_if_match
  refused_commit f m l body g = rw (g.nonzero, g.conditional, g.head, g.etag) refl

  read_foreign :
      (net : Net) (m : Memory) (l : Lease) (g : Fenced c m l) (s : State) (reply : Reply)
      → s.epoch ≡ l.state.epoch
      → adopted (conditional_read net.read_fails m l.state.name) (c.state_body s) reply ≡ reply
  unfolding conditional_read
  read_foreign net m l g s reply e = elim (Bool-cases net.read_fails) [
    | inl r ↦ rw r refl
    | inr r ↦ rw (r, g.head, foreign m l g s e) refl
  ]

  settled_refusal :
      (net : Net) (f : Fault) (m : Memory) (l : Lease) (g : Fenced c m l) (s : State)
      → s.epoch ≡ l.state.epoch
      → (settled net l.state.name (c.state_body s) (through f m (m, err precondition_failed))
          ≡ (m, precondition))
        ⊎ (settled net l.state.name (c.state_body s) (through f m (m, err precondition_failed))
            ≡ (m, failed))
  settled_refusal net delivered m l g s e =
      inl (ap (λ r. (m, r)) (read_foreign net m l g s precondition e))
  settled_refusal net lost_reply m l g s e =
      inr (ap (λ r. (m, r)) (read_foreign net m l g s failed e))
  settled_refusal net lost_request m l g s e =
      inr (ap (λ r. (m, r)) (read_foreign net m l g s failed e))

  commit_state-refused :
      (net : Net) (m : Memory) (l : Lease) (g : Fenced c m l) (s : State)
      → s.epoch ≡ l.state.epoch
      → (commit_state net m l (c.state_body s) ≡ (m, precondition))
        ⊎ (commit_state net m l (c.state_body s) ≡ (m, failed))
  unfolding commit_state
  commit_state-refused net m l g s e =
      subst
        (λ r.
          (settled net l.state.name (c.state_body s) r ≡ (m, precondition))
          ⊎ (settled net l.state.name (c.state_body s) r ≡ (m, failed)))
        (sym (refused_commit net.write m l (c.state_body s) g))
        (settled_refusal net net.write m l g s e)

  -- The call changed nothing in the store and returned an error, and the lease is still fenced.
  record IsShut (m : Memory) (out : Outcome) : Type 0 where
    same : out.memory ≡ m
    refused : (e : LeaseError) × (out.error ≡ some e)
    fenced : Fenced c m out.lease

  pending-Fenced :
      (m : Memory) (l : Lease) (p : Pending)
      → Fenced c m l
      → p.body ≡ c.state_body p.candidate
      → p.candidate.epoch ≡ l.state.epoch
      → Fenced c m (record l { pending = some p })
  pending-Fenced m l p g b e = record {
    own = (b, e);
    owner = g.owner;
    epoch = g.epoch;
    current = g.current;
    head = g.head;
    etag = g.etag;
    nonzero = g.nonzero;
    conditional = g.conditional;
  }

  relabelled-Fenced :
      (m : Memory) (l : Lease) (lost : Bool) (ready : Option PreparedBundle)
      → Fenced c m l
      → Fenced c m (record l { lost = lost; ready_bundle = ready })
  relabelled-Fenced m l lost ready g = record {
    own = g.own;
    owner = g.owner;
    epoch = g.epoch;
    current = g.current;
    head = g.head;
    etag = g.etag;
    nonzero = g.nonzero;
    conditional = g.conditional;
  }

  update_to-IsShut :
      (net : Net) (m : Memory) (l : Lease) (bundle : Option PreparedBundle)
      (r : Result LeaseError State)
      → Fenced c m l
      → ((s : State) → r ≡ ok s → s.epoch ≡ l.state.epoch)
      → IsShut m (update_to c net m l bundle r)
  update_to-IsShut net m l bundle (err e) g k = record {
    same = refl;
    refused = (e, refl);
    fenced = g;
  }
  update_to-IsShut net m l bundle (ok s) g k = elim (commit_state-refused net m l g s (k s refl)) [
    | inl q ↦ rw q (record {
      same = refl;
      refused = (lease_lost, refl);
      fenced = relabelled-Fenced m l true l.ready_bundle g;
    })
    | inr q ↦ rw q (record {
      same = refl;
      refused = (request_failed, refl);
      fenced = pending-Fenced m l _ g refl (k s refl);
    })
  ]

  -- A pending commit is found not to have been done.
  forgotten-Fenced :
      (m : Memory) (l : Lease) → Fenced c m l → Fenced c m (record l { pending = none })
  forgotten-Fenced m l g = record {
    own = tt;
    owner = g.owner;
    epoch = g.epoch;
    current = g.current;
    head = g.head;
    etag = g.etag;
    nonzero = g.nonzero;
    conditional = g.conditional;
  }

  -- The lease after `resolvePending` is fenced, with its old state.
  IsResolved : Memory → Lease → Lease × Option LeaseError → Type 0
  IsResolved m l r = Fenced c m r.0 × (r.0.state ≡ l.state)

  resolve_with-IsResolved :
      (fails : Bool) (m : Memory) (l : Lease) (pending : Option Pending)
      → l.pending ≡ pending
      → Fenced c m l
      → IsResolved m l (resolve_with fails m l pending)
  unfolding IsResolved conditional_read
  resolve_with-IsResolved fails m l none n g = (g, refl)
  resolve_with-IsResolved fails m l (some p) n g =
      let own : IsOwn c l.state (some p) = subst (λ q. IsOwn c l.state q) n g.own in
      elim (Bool-cases (is_held l)) [
        | inr h ↦ rw h (g, refl)
        | inl h ↦ elim (Bool-cases fails) [
          | inl f ↦ rw (h, f) (g, refl)
          | inr f ↦
              rw (h, f, g.head, own.0, foreign m l g p.candidate own.1)
                (forgotten-Fenced m l g, refl)
        ]
      ]

  update_held-IsShut :
      (net : Net) (mutate : State → Result LeaseError State) (m : Memory) (l : Lease)
      → KeepsEpoch mutate
      → Fenced c m l
      → IsShut m (update_held c net mutate m l)
  unfolding update_held KeepsEpoch ready_bundle_locked
  update_held-IsShut net mutate m l keeps g =
      let l' = (ready_bundle_locked c l).0 in
      let bundle = (ready_bundle_locked c l).1 in
      update_to-IsShut net m l' bundle (mutate (with_bundle l'.state bundle))
        (relabelled-Fenced m l l.lost bundle g)
        (λ s e. keeps (with_bundle l'.state bundle) s e ∙ with_bundle-epoch l'.state bundle)

  after_resolving-IsShut :
      (net : Net) (mutate : State → Result LeaseError State) (m : Memory) (l : Lease)
      (r : Lease × Option LeaseError)
      → KeepsEpoch mutate
      → IsResolved m l r
      → IsShut m (after_resolving r m (update_held c net mutate m))
  unfolding IsResolved
  after_resolving-IsShut net mutate m l (l', some e) keeps g = record {
    same = refl;
    refused = (e, refl);
    fenced = g.0;
  }
  after_resolving-IsShut net mutate m l (l', none) keeps g = elim (Bool-cases (is_held l')) [
    | inl h ↦ rw h (update_held-IsShut net mutate m l' keeps g.0)
    | inr h ↦ rw h (record { same = refl; refused = (lease_lost, refl); fenced = g.0 })
  ]

  update-IsShut :
      (net : Net) (mutate : State → Result LeaseError State) (m : Memory) (l : Lease)
      → KeepsEpoch mutate
      → Fenced c m l
      → IsShut m (update c net mutate m l)
  unfolding update resolve_pending
  update-IsShut net mutate m l keeps g =
      after_resolving-IsShut net mutate m l (resolve_pending net m l) keeps
        (resolve_with-IsResolved net.resolve_fails m l l.pending refl g)

  updates-Fenced :
      (calls : List Call) (m : Memory) (l : Lease)
      → AllKeepEpoch calls
      → Fenced c m l
      → ((updates c calls m l).0 ≡ m) × Fenced c (updates c calls m l).0 (updates c calls m l).1
  updates-Fenced [] m l k g = (refl, g)
  updates-Fenced (call ∷ calls) m l k g =
      let shut = update-IsShut call.net call.mutate m l k.0 g in
      let out = update c call.net call.mutate m l in
      let rest =
        updates-Fenced calls out.memory out.lease k.1
          (subst (λ n. Fenced c n out.lease) (sym shut.same) shut.fenced) in
      (rest.0 ∙ shut.same, rest.1)

-- Once the head holds a state of another epoch, under an etag that the lease does not have, no
-- updates of the lease that keep its epoch change the store, in a store with conditions, whatever the
-- network loses and whatever commit of the lease's epoch is pending; and the next one returns an error.
-- The codec reads the epoch that it writes.
pub updates-refused :
    (c : Codec) (calls : List Call) (net : Net) (mutate : State → Result LeaseError State)
    (m : Memory) (l : Lease)
    → IsDecoding c
    → Fenced c m l
    → AllKeepEpoch calls
    → KeepsEpoch mutate
    → ((updates c calls m l).0 ≡ m)
      × ((e : LeaseError) × ((update c net mutate
              (updates c calls m l).0
              (updates c calls m l).1).error
            ≡ some e))
updates-refused c calls net mutate m l law g ks k =
    let after = updates-Fenced c law calls m l ks g in
    (
      after.0,
      (update-IsShut c law net mutate (updates c calls m l).0 (updates c calls m l).1 k
          after.1).refused,
    )
