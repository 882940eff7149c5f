-- ===== src/Head/Prune.antt =====
-- `liveEntries` and `pruneBehind`: what they leave of a listing.
use text.Mathlib.TextEquality.{eq_iff}
use satchel.Base.{
  ℕ, ◌+◌, ◌<◌, ◌≡◌, refl, Bool, true, false, List, [], ◌∷◌, arith, ltb, some, Bool-cases, inl, inr,
  u64_mod, sym, subst, taken, ap,
}
use satchel.Head.{
  Version, Entry, committed_head, claim_present, dead_claim, live_from, live_entries, superseded,
  prune_behind,
}

-- Dropping entries that are not published keeps the committed head.
committed_head-live_from :
    (dead : Entry → Bool) (es : List Entry)
    → ((e : Entry) → dead e ≡ true → e.version.seq ≡ 0)
    → committed_head (live_from dead es) ≡ committed_head es
unfolding committed_head live_from
committed_head-live_from dead [] h = refl
committed_head-live_from dead (e ∷ es) h = ground (arith, h e, committed_head-live_from dead es h)

dead_claim-seq :
    (now ttl settle : ℕ) (es : List Entry) (e : Entry)
    → dead_claim now ttl settle es e ≡ true
    → e.version.seq ≡ 0
unfolding dead_claim
dead_claim-seq now ttl settle es e h = ground arith

-- `liveEntries` removes no published version: the committed head is the same before and after.
pub committed_head-live_entries :
    (now ttl settle : ℕ) (es : List Entry)
    → committed_head (live_entries now ttl settle es) ≡ committed_head es
unfolding live_entries
committed_head-live_entries now ttl settle es =
    committed_head-live_from (dead_claim now ttl settle es) es (dead_claim-seq now ttl settle es)

not_superseded :
    (current : Version) → current.seq + 2 < u64_mod → superseded current current ≡ false
unfolding superseded
not_superseded current h = ground (arith, eq_iff current.token current.token)

-- `pruneBehind` keeps the committed head when that is the current version.
pub committed_head-prune_behind :
    (es : List Entry) (head : Entry)
    → committed_head es ≡ some head
    → head.version.seq + 2 < u64_mod
    → committed_head (prune_behind es head.version) ≡ some head
unfolding committed_head prune_behind
committed_head-prune_behind [] head h w = h
committed_head-prune_behind (e ∷ es) head h w = elim (Bool-cases (ltb 0 e.version.seq)) [
  | inl p ↦
      let same : e ≡ head = taken (ltb 0 e.version.seq) e head (committed_head es) p h in
      let kept =
        subst (λ x. superseded head.version x.version ≡ false) (sym same)
          (not_superseded head.version w) in
      rw (kept, committed_head, p) (ap some same)
  | inr p ↦ ground (arith, committed_head-prune_behind es head)
]

-- `pruneBehind` keeps the claim of the current owner, so later confirmations still find it.
pub claim_present-prune_behind :
    (es : List Entry) (current : Version)
    → claim_present (prune_behind es current) current ≡ claim_present es current
unfolding claim_present prune_behind superseded
claim_present-prune_behind [] current = refl
claim_present-prune_behind (e ∷ es) current =
    ground (arith, eq_iff e.version.token current.token, claim_present-prune_behind es current)
