-- ===== src/Journal/Trace.antt =====
-- The journal over every order of enqueues, syncs, acknowledgements and rebases.
use satchel.Base.{
  ℕ, ◌≤◌, ◌≡◌, refl, Bool, true, false, List, [], ◌∷◌, ◌++◌, arith, if◌then◌else◌, Option, none,
  some, All-append, Option-cases, Bool-cases, inl, inr, sym, subst,
}
use satchel.Device.{Generation}
use satchel.Volume.{State}
use satchel.Journal.{
  Metadata, Waiter, Notice, Journal, enqueue_empty, enqueue, sync_begin, sync_end, acknowledge,
  close_journal,
}
use satchel.Journal.Format.{FileCodec, rebase}
use satchel.Journal.Durability.{
  Covered, SyncCovers, Truthful, Sound, same-Sound, enqueue_empty-Sound, enqueue-Sound,
  sync_begin-Sound, sync_end-Sound,
}
use satchel.Journal.Rewrite.{acknowledge-Sound, rebase-Sound}

-- What can happen to a journal. A sync begins only when none runs, and acknowledgements,
-- `Rebase` and `Close` wait for it.
pub data Event : Type 0 where
  add : ℕ → Generation → Bool → Event
  add_empty : ℕ → Event
  begin : Event
  finish : Bool → Event
  ack : ℕ → ℕ → Metadata → Bool → Event
  move_base : FileCodec → State → Bool → Event
  shut : Event

abbrev pub when_idle :
    Option (ℕ × List Waiter) → Journal × List Notice → Journal × List Notice → Journal × List Notice
when_idle none x y = x
when_idle (some s) x y = y

unfoldable pub step : Journal → Event → Journal × List Notice
step j (add id g written) = enqueue j id g written
step j (add_empty id) = enqueue_empty j id
step j begin = when_idle j.syncing (if j.sync_running then (sync_begin j, []) else (j, [])) (j, [])
step j (finish synced) = sync_end j synced
step j (ack header sequence m rewritten) =
    when_idle j.syncing ((acknowledge header j sequence m rewritten).0, []) (j, [])
step j (move_base c state rewritten) =
    when_idle j.syncing ((rebase c state rewritten j).0, []) (j, [])
step j shut = when_idle j.syncing (close_journal j, []) (j, [])

unfoldable pub run : Journal → List Event → Journal × List Notice
unfolding step
run j [] = (j, [])
run j (e ∷ es) = let (j', ns) = step j e in let (j'', ns') = run j' es in (j'', ns ++ ns')

close_journal-Sound : (j : Journal) → Covered j → Sound j (close_journal j, [])
unfolding close_journal
close_journal-Sound j c = elim (Bool-cases j.closed) [
  | inl e ↦
      subst (λ t. Sound j ((if t then j else record j { closed = true }), [])) (sym e)
        (same-Sound j [] c tt)
  | inr e ↦
      subst (λ t. Sound j ((if t then j else record j { closed = true }), [])) (sym e)
        (record {
          covered = record {
            started = c.started;
            bounded = c.bounded;
            quiet = c.quiet;
            pending = c.pending;
            counted = c.counted;
            sync = shut_sync j.syncing c.sync;
          };
          truthful = tt;
          grows = omega arith;
        })
]
  where
    shut_sync :
        (s : Option (ℕ × List Waiter)) → SyncCovers j s → SyncCovers (record j { closed = true }) s
    shut_sync none h = h
    shut_sync (some s) h = h

step-Sound : (j : Journal) (e : Event) → Covered j → Sound j (step j e)
unfolding step
step-Sound j (add id g written) c = enqueue-Sound j id g written c
step-Sound j (add_empty id) c = enqueue_empty-Sound j id c
step-Sound j (finish synced) c = sync_end-Sound j synced c
step-Sound j begin c = elim (Option-cases j.syncing) [
  | inr (s, e) ↦
      subst
        (λ o.
          Sound j (when_idle o (if j.sync_running then (sync_begin j, []) else (j, [])) (j, [])))
        (sym e) (same-Sound j [] c tt)
  | inl e ↦
      subst
        (λ o.
          Sound j (when_idle o (if j.sync_running then (sync_begin j, []) else (j, [])) (j, [])))
        (sym e)
        (elim (Bool-cases j.sync_running) [
          | inl r ↦
              subst (λ t. Sound j (if t then (sync_begin j, []) else (j, []))) (sym r)
                (sync_begin-Sound j e r c)
          | inr r ↦
              subst (λ t. Sound j (if t then (sync_begin j, []) else (j, []))) (sym r)
                (same-Sound j [] c tt)
        ])
]
step-Sound j (ack header sequence m rewritten) c = elim (Option-cases j.syncing) [
  | inr (s, e) ↦
      subst (λ o. Sound j (when_idle o ((acknowledge header j sequence m rewritten).0, []) (j, [])))
        (sym e) (same-Sound j [] c tt)
  | inl e ↦
      subst (λ o. Sound j (when_idle o ((acknowledge header j sequence m rewritten).0, []) (j, [])))
        (sym e) (acknowledge-Sound header j sequence m rewritten e c)
]
step-Sound j (move_base fc state rewritten) c = elim (Option-cases j.syncing) [
  | inr (s, e) ↦
      subst (λ o. Sound j (when_idle o ((rebase fc state rewritten j).0, []) (j, []))) (sym e)
        (same-Sound j [] c tt)
  | inl e ↦
      subst (λ o. Sound j (when_idle o ((rebase fc state rewritten j).0, []) (j, []))) (sym e)
        (rebase-Sound fc state rewritten j e c)
]
step-Sound j shut c = elim (Option-cases j.syncing) [
  | inr (s, e) ↦
      subst (λ o. Sound j (when_idle o (close_journal j, []) (j, []))) (sym e)
        (same-Sound j [] c tt)
  | inl e ↦
      subst (λ o. Sound j (when_idle o (close_journal j, []) (j, []))) (sym e)
        (close_journal-Sound j c)
]

Truthful-upper : (n m : ℕ) (ns : List Notice) → n ≤ m → Truthful n ns → Truthful m ns
Truthful-upper n m [] l h = tt
Truthful-upper n m (x ∷ ns) l h = ((λ g. omega (arith, h.0 g)), Truthful-upper n m ns l h.1)

pub run-Sound : (j : Journal) (es : List Event) → Covered j → Sound j (run j es)
unfolding run
run-Sound j [] c = same-Sound j [] c tt
run-Sound j (e ∷ es) c =
    let (j', ns) = step j e in
    let here = step-Sound j e c in
    let later = run-Sound j' es here.covered in
    let end = (run j' es).0.stable_seq in
    record {
      covered = later.covered;
      truthful =
          All-append (λ (n : Notice). n.good ≡ true → n.waiter.needs ≤ end) ns (run j' es).1
            (Truthful-upper j'.stable_seq end ns later.grows here.truthful) later.truthful;
      grows = omega (arith, here.grows, later.grows);
    }

-- `CreateJournal`, after its first rewrite.
unfoldable pub create : ℕ → ℕ → Metadata → Journal
create header compact_after m = record {
  metadata = m;
  entries = [];
  next_seq = 1;
  pending_sync = [];
  pending_data = 0;
  inflight = [];
  sync_running = false;
  syncing = none;
  closed = false;
  broken = false;
  stable_seq = 0;
  disk_bytes = header;
  reclaim_bytes = 0;
  compact_after = compact_after;
}

pub create-Covered :
    (header compact_after : ℕ) (m : Metadata) → Covered (create header compact_after m)
unfolding create
create-Covered header compact_after m = record {
  started = omega arith;
  bounded = omega arith;
  quiet = λ r b. omega arith;
  pending = tt;
  counted = refl;
  sync = (refl, λ r. absurd cc);
}
