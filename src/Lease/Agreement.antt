-- ===== src/Lease/Agreement.antt =====
-- `update`: what the lease knows of the head after a commit that it counts as done.
use satchel.Base.{
  ℕ, ◌≡◌, refl, ◌∙◌, ap, subst, sym, Bool-cases, Option, none, some, Result, ok, err, inl, inr,
}
use satchel.Volume.{State, Codec}
use satchel.ObjectStore.{Memory}
use satchel.Head.Conditional.{Reply, committed, precondition, failed}
use satchel.Lease.{Lease, Pending, PreparedBundle, is_held, ready_bundle_locked, apply_bundle}
use satchel.Lease.Commit.{
  Net, LeaseError, Outcome, concluded, update_to, after_resolving, update, update_held, with_bundle,
  resolve_pending,
}
use satchel.Lease.Writes.{
  HeadIs, object, IsWritten, commit_state-IsWritten, IsApplied, apply_pending-IsApplied,
}

-- The head holds the lease's state, at the lease's etag.
unfoldable pub Agrees : Codec → Memory → Lease → Type 0
Agrees c m l = HeadIs l.state.name m (object (c.state_body l.state) l.etag)

pub Agrees-of_applied :
    (c : Codec) (m : Memory) (l l' : Lease) (candidate : State) (etag : ℕ)
    → candidate.name ≡ l.state.name
    → HeadIs l.state.name m (object (c.state_body candidate) etag)
    → IsApplied l candidate etag l'
    → Agrees c m l'
unfolding Agrees
Agrees-of_applied c m l l' candidate etag n h a =
    rw (a.state, a.etag)
      (subst (λ name. HeadIs name m (object (c.state_body candidate) etag)) (sym n) h)

module _ (c : Codec) (net : Net) where
  concluded-Agrees :
      (l : Lease) (p : Pending) (r : Memory × Reply)
      → p.body ≡ c.state_body p.candidate
      → p.candidate.name ≡ l.state.name
      → IsWritten l.state.name p.body r
      → (concluded l p r).error ≡ none
      → Agrees c (concluded l p r).memory (concluded l p r).lease
  concluded-Agrees l p (m, committed e) b n w h =
      Agrees-of_applied c m l _ p.candidate e n (w ∙ ap some (ap (λ x. object x e) b))
        (apply_pending-IsApplied l p e p.prepared)
  concluded-Agrees l p (m, precondition) b n w h = absurd cc
  concluded-Agrees l p (m, failed) b n w h = absurd cc

  update_to-Agrees :
      (m : Memory) (l : Lease) (bundle : Option PreparedBundle) (r : Result LeaseError State)
      → ((s : State) → r ≡ ok s → s.name ≡ l.state.name)
      → (update_to c net m l bundle r).error ≡ none
      → Agrees c (update_to c net m l bundle r).memory (update_to c net m l bundle r).lease
  update_to-Agrees m l bundle (err e) n h = absurd cc
  update_to-Agrees m l bundle (ok s) n h =
      concluded-Agrees l
        (record { body = c.state_body s; candidate = s; prepared = none; bundle = bundle }) _ refl
        (n s refl) (commit_state-IsWritten net m l (c.state_body s)) h

  after_resolving-Agrees :
      (r : Lease × Option LeaseError) (m : Memory) (next : Lease → Outcome)
      → ((l : Lease) → (next l).error ≡ none → Agrees c (next l).memory (next l).lease)
      → (after_resolving r m next).error ≡ none
      → Agrees c (after_resolving r m next).memory (after_resolving r m next).lease
  after_resolving-Agrees (l, some e) m next k h = absurd cc
  after_resolving-Agrees (l, none) m next k h = elim (Bool-cases (is_held l)) [
    | inl t ↦ rw t (k l (rw t at h))
    | inr t ↦ absurd (cc (rw t at h))
  ]

-- A call that changes the state of the lease, but not the volume's name.
unfoldable pub KeepsName : (State → Result LeaseError State) → Type 0
KeepsName mutate = (s s' : State) → mutate s ≡ ok s' → s'.name ≡ s.name

pub with_bundle-name : (s : State) (b : Option PreparedBundle) → (with_bundle s b).name ≡ s.name
unfolding apply_bundle
with_bundle-name s none = refl
with_bundle-name s (some b) = refl

pub update_held-Agrees :
    (c : Codec) (net : Net) (mutate : State → Result LeaseError State) (m : Memory) (l : Lease)
    → KeepsName mutate
    → (update_held c net mutate m l).error ≡ none
    → Agrees c (update_held c net mutate m l).memory (update_held c net mutate m l).lease
unfolding update_held KeepsName ready_bundle_locked
update_held-Agrees c net mutate m l keeps h =
    let l' = (ready_bundle_locked c l).0 in
    let bundle = (ready_bundle_locked c l).1 in
    update_to-Agrees c net m l' bundle (mutate (with_bundle l'.state bundle))
      (λ s q. keeps (with_bundle l'.state bundle) s q ∙ with_bundle-name l'.state bundle) h

-- An update that returns no error, with a mutation that keeps the volume's name, leaves the head
-- holding the body of the lease's state at the lease's etag: whatever commit was pending before it,
-- whatever the head held, and also where the reply to the write was lost.
pub update-Agrees :
    (c : Codec) (net : Net) (mutate : State → Result LeaseError State) (m : Memory) (l : Lease)
    → KeepsName mutate
    → (update c net mutate m l).error ≡ none
    → Agrees c (update c net mutate m l).memory (update c net mutate m l).lease
unfolding update
update-Agrees c net mutate m l keeps h =
    after_resolving-Agrees c net (resolve_pending net m l) m (update_held c net mutate m)
      (λ l1 e. update_held-Agrees c net mutate m l1 keeps e) h
