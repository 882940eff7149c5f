-- ===== src/Lease/Takeover.antt =====
-- `Acquire` of a volume that another lease had: what it leaves of that lease.
use Prim.Native.String.{String}
use satchel.Base.{
  ℕ, ◌+◌, ◌≤◌, ◌<◌, ◌≡◌, ◌≢◌, refl, ◌∙◌, ap, sym, subst, arith, Bool-cases, Bool, true, false, not,
  ◌||◌, List, [], ◌==◌, Option, none, some, Result, ok, err, ◌⊎◌, inl, inr, u64_mod, Result-cases,
  Option-cases, ok_of_bind, ok_of_guard,
}
use text.Mathlib.Text.{◌==◌ as str_eq}
use satchel.Remote.{is_empty}
use satchel.Volume.{State, Codec, state_key, validate_state}
use satchel.ObjectStore.{Memory, Object, store_object, stored_as}
use satchel.Head.Conditional.{
  Fault, delivered, lost_reply, lost_request, Reply, committed, precondition, failed, through,
  conditional_commit,
}
use satchel.Lease.{Lease}
use satchel.Lease.Commit.{Net, settled}
use satchel.Lease.Acquire.{
  AcquireError, invalid_name, no_head, unreadable, undecodable, bad_size, being_deleted, other_size,
  other_filesystem, lost, uncertain, invalid_state, held_by, Request, decode_state, inspect,
  taken_state, check_free, base_state, leased, new_lease, granted, claim_head, acquire_from,
  acquire, valid_name,
}
use satchel.Lease.Writes.{
  HeadIs, object, IsWritten, settled-IsWritten, conditional_commit-IsWritten, stored-HeadIs,
  swapped, by_swap,
}
use satchel.Lease.Agreement.{Agrees}
use satchel.Lease.Fencing.{Fenced, IsDecoding, epoch_of}

-- The lease that had the volume: it knows the head, and the store gave it its etag.
pub record Owns (c : Codec) (m : Memory) (l : Lease) : Type 0 where
  pub agrees : Agrees c m l
  pub settled : l.pending ≡ none
  pub nonzero : (l.etag == 0) ≡ false
  pub given : l.etag ≤ m.seq
  pub conditional : m.unconditional ≡ false
  pub small : l.state.epoch < u64_mod

pub settled-memory :
    (net : Net) (name : String) (body : List ℕ) (r : Memory × Reply)
    → (settled net name body r).0 ≡ r.0
settled-memory net name body (m, committed e) = refl
settled-memory net name body (m, precondition) = refl
settled-memory net name body (m, failed) = refl

through-memory :
    (f : Fault) (m : Memory) (r : Memory × ℕ)
    → ((through f m (stored_as r)).0 ≡ m) ⊎ ((through f m (stored_as r)).0 ≡ r.0)
through-memory delivered m r = inr refl
through-memory lost_reply m r = inr refl
through-memory lost_request m r = inl refl

module _ (c : Codec) (law : IsDecoding c) (m : Memory) (l : Lease) (o : Owns c m l) where
  own_head : HeadIs l.state.name m (object (c.state_body l.state) l.etag)
  unfolding Agrees
  own_head = o.agrees

  claimed_memory :
      (net : Net) (s : State)
      → ((claim_head c net l.state.name m s l.etag).0 ≡ m)
        ⊎ ((claim_head c net l.state.name m s l.etag).0
            ≡ (store_object m (state_key l.state.name) (c.state_body s)).0)
  unfolding claim_head
  claimed_memory net s =
      rw
        (
          settled-memory net l.state.name (c.state_body s)
              (conditional_commit net.write m l.state.name (c.state_body s) l.etag),
          by_swap l.state.name (c.state_body s) m net.write (object (c.state_body l.state) l.etag)
              o.nonzero
              (swapped l.state.name (c.state_body s) m (object (c.state_body l.state) l.etag)
                own_head),
        )
        (through-memory net.write m (store_object m (state_key l.state.name) (c.state_body s)))

  claimed-HeadIs :
      (net : Net) (s : State) (m' : Memory) (e : ℕ)
      → claim_head c net l.state.name m s l.etag ≡ (m', committed e)
      → HeadIs l.state.name m' (object (c.state_body s) e)
  unfolding claim_head
  claimed-HeadIs net s m' e h = subst (IsWritten l.state.name (c.state_body s)) h (
      settled-IsWritten l.state.name (c.state_body s) net _
        (conditional_commit-IsWritten l.state.name (c.state_body s) net.write m l.etag))

  -- Two bodies of different epochs differ.
  epochs_agree : (s : State) → c.state_body l.state ≡ c.state_body s → s.epoch ≡ l.state.epoch
  unfolding IsDecoding
  epochs_agree s e = sym (law s) ∙ ap (λ b. epoch_of (c.state_of b)) (sym e) ∙ law l.state

  stored-Fenced :
      (s : State)
      → s.epoch ≢ l.state.epoch
      → Fenced c (store_object m (state_key l.state.name) (c.state_body s)).0 l
  unfolding store_object
  stored-Fenced s d = record {
    own = rw o.settled tt;
    owner = s;
    epoch = d;
    current = m.seq + 1;
    head = stored-HeadIs l.state.name (c.state_body s) m;
    etag = ground (arith, o.given);
    nonzero = o.nonzero;
    conditional = o.conditional;
  }

  content_of : Option Object → List ℕ
  content_of none = []
  content_of (some x) = x.content

  -- A claim that succeeds is in the store under a new etag.
  claimed-Fenced :
      (net : Net) (s : State) (m' : Memory) (e : ℕ)
      → s.epoch ≢ l.state.epoch
      → claim_head c net l.state.name m s l.etag ≡ (m', committed e)
      → Fenced c m' l
  unfolding content_of
  claimed-Fenced net s m' e d h =
      let same : m' ≡ (claim_head c net l.state.name m s l.etag).0 = ap (λ r. r.0) (sym h) in
      elim (claimed_memory net s) [
        | inl k ↦
            let head : HeadIs l.state.name m (object (c.state_body s) e) =
              subst (λ n. HeadIs l.state.name n (object (c.state_body s) e)) (same ∙ k)
                (claimed-HeadIs net s m' e h) in
            absurd (d (epochs_agree s (ap content_of (sym own_head ∙ head))))
        | inr k ↦ subst (λ n. Fenced c n l) (sym (same ∙ k)) (stored-Fenced s d)
      ]

  -- What `Inspect` finds of the lease's state.
  IsFound : Result AcquireError (State × ℕ) → Type 0
  IsFound (ok (s, e)) = (s.epoch ≡ l.state.epoch) × (e ≡ l.etag)
  IsFound (err e) = e ≢ no_head

  decode_state-IsFound :
      (name : String) → IsFound (decode_state c name (object (c.state_body l.state) l.etag))
  unfolding IsFound decode_state IsDecoding
  decode_state-IsFound name = elim (Option-cases (c.state_of (c.state_body l.state))) [
    | inl n ↦ rw n (λ q. absurd (cc q))
    | inr (s, n) ↦ elim (Result-cases (validate_state c name s)) [
      | inl (u, v) ↦ rw (n, v) (ap epoch_of (sym n) ∙ law l.state, refl)
      | inr (x, v) ↦ rw (n, v) (λ q. absurd (cc q))
    ]
  ]

  inspect-IsFound : (fails : Bool) → IsFound (inspect c fails m l.state.name)
  unfolding IsFound inspect
  inspect-IsFound true = λ q. absurd (cc q)
  inspect-IsFound false = rw own_head (decode_state-IsFound l.state.name)

  taken-IsFound :
      (q : Request) (s : State) (e : ℕ) (found : State × ℕ)
      → taken_state q (s, e) ≡ ok found
      → found ≡ (s, e)
  unfolding taken_state
  taken-IsFound q s e found h =
      let (_, h1) = ok_of_guard (not s.deleting) _ _ _ h in
      let (u, _, h2) = ok_of_bind (check_free q.now s.lease) _ _ h1 in
      let (_, h3) = ok_of_guard ((q.size == 0) || (q.size == s.size)) _ _ _ h2 in
      let (_, h4) =
        ok_of_guard (is_empty q.filesystem || str_eq q.filesystem s.filesystem) _ (ok (s, e)) found
          h3 in
      cc (sym h4)

  base_state-IsFound :
      (q : Request) (name : String) (r : Result AcquireError (State × ℕ)) (found : State × ℕ)
      → IsFound r
      → base_state q name r ≡ ok found
      → IsFound (ok found)
  unfolding IsFound
  base_state-IsFound q name (ok (s, e)) found f h =
      subst (λ x. (x.0.epoch ≡ l.state.epoch) × (x.1 ≡ l.etag)) (sym (taken-IsFound q s e found h))
        f
  base_state-IsFound q name (err invalid_name) found f h = absurd (cc h)
  base_state-IsFound q name (err unreadable) found f h = absurd (cc h)
  base_state-IsFound q name (err undecodable) found f h = absurd (cc h)
  base_state-IsFound q name (err bad_size) found f h = absurd (cc h)
  base_state-IsFound q name (err being_deleted) found f h = absurd (cc h)
  base_state-IsFound q name (err other_size) found f h = absurd (cc h)
  base_state-IsFound q name (err other_filesystem) found f h = absurd (cc h)
  base_state-IsFound q name (err lost) found f h = absurd (cc h)
  base_state-IsFound q name (err uncertain) found f h = absurd (cc h)
  base_state-IsFound q name (err (invalid_state x)) found f h = absurd (cc h)
  base_state-IsFound q name (err (held_by r)) found f h = absurd (cc h)
  base_state-IsFound q name (err no_head) found f h = absurd (f refl)

  leased-epoch :
      (q : Request) (s : State) → s.epoch ≡ l.state.epoch → (leased q s).epoch ≢ l.state.epoch
  unfolding leased
  leased-epoch q s e = λ h. omega (arith, e, o.small, h)

  granted-Fenced :
      (net : Net) (s : State) (r : Memory × Reply) (l' : Lease)
      → claim_head c net l.state.name m s l.etag ≡ r
      → s.epoch ≢ l.state.epoch
      → (granted s r).1 ≡ ok l'
      → Fenced c (granted s r).0 l
        × HeadIs l.state.name (granted s r).0 (object (c.state_body l'.state) l'.etag)
  unfolding new_lease
  granted-Fenced net s (m', committed e) l' k d h =
      let same : new_lease s e ≡ l' = cc h in
      (
        claimed-Fenced net s m' e d k,
        subst (λ (x : Lease). HeadIs l.state.name m' (object (c.state_body x.state) x.etag)) same
            (claimed-HeadIs net s m' e k),
      )
  granted-Fenced net s (m', precondition) l' k d h = absurd (cc h)
  granted-Fenced net s (m', failed) l' k d h = absurd (cc h)

  acquire_from-Fenced :
      (net : Net) (q : Request) (r : Result AcquireError (State × ℕ)) (l' : Lease)
      → ((found : State × ℕ) → r ≡ ok found → IsFound (ok found))
      → (acquire_from c net q l.state.name m r).1 ≡ ok l'
      → Fenced c (acquire_from c net q l.state.name m r).0 l
        × HeadIs l.state.name
            (acquire_from c net q l.state.name m r).0
            (object (c.state_body l'.state) l'.etag)
  unfolding IsFound
  acquire_from-Fenced net q (err e) l' f h = absurd (cc h)
  acquire_from-Fenced net q (ok (s, e)) l' f h =
      let found = f (s, e) refl in
      rw found.1
        (granted-Fenced net (leased q s) _ l' refl (leased-epoch q s found.0) (rw found.1 at h))

-- An acquire of a volume that returns a lease fences the lease that owned its head, in a store with
-- conditions, also where the reply to its write is lost: the head holds the state and has the etag of
-- the new lease. The old lease has no commit pending, its etag was given out and is not 0, and its epoch
-- is a number of 64 bits; the codec reads the epoch that it writes.
pub acquire-Fenced :
    (c : Codec) (net : Net) (q : Request) (m : Memory) (l l' : Lease)
    → IsDecoding c
    → Owns c m l
    → (acquire c net q l.state.name m).1 ≡ ok l'
    → Fenced c (acquire c net q l.state.name m).0 l
      × HeadIs l.state.name
          (acquire c net q l.state.name m).0
          (object (c.state_body l'.state) l'.etag)
unfolding acquire
acquire-Fenced c net q m l l' law o h = elim (Bool-cases (valid_name l.state.name)) [
  | inl v ↦ rw v (
      acquire_from-Fenced c law m l o net q _ l'
        (λ found e.
          base_state-IsFound c law m l o q l.state.name _ found
            (inspect-IsFound c law m l o net.resolve_fails) e)
        (rw v at h))
  | inr v ↦ absurd (cc (rw v at h))
]
