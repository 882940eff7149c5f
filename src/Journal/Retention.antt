-- ===== src/Journal/Retention.antt =====
-- The records that the journal keeps over every order of calls, and the syncs that cover them.
use satchel.Base.{
  ℕ, ◌≤◌, ◌≡◌, refl, sym, ap, ◌∙◌, Bool, true, false, not, ◌&&◌, ◌||◌, List, [], ◌∷◌, ◌++◌, arith,
  ltb, ◌==◌, if◌then◌else◌, Option, none, some, All, Result, ok, err, Bool-cases, inl, inr,
  append-nil, append_assoc,
}
use satchel.Device.{Generation}
use satchel.Journal.{
  Metadata, Waiter, Notice, Journal, encodable, enqueue_empty, enqueue, start_sync, sync_begin,
  finish_sync, sync_end, remaining, rewrite, acknowledge, close_journal,
}
use satchel.Journal.Format.{FileCodec, FormatError, metadata_of_state, rebased, rebase}
use satchel.Journal.Durability.{Covered, Sound}
use satchel.Journal.Trace.{
  Event, add, add_empty, begin, finish, ack, move_base, shut, when_idle, step, run, run-Sound,
}

-- The records behind a sequence number.
abbrev pub newer : ℕ → List Generation → List Generation
newer n [] = []
newer n (g ∷ gs) = if ltb n g.journal_seq then g ∷ newer n gs else newer n gs

-- The record that a call adds: a generation that can be encoded, whose write succeeds while the
-- journal is open and not broken, under the next sequence number.
abbrev pub added : Journal → Event → List Generation
added j (add id g written) =
    if not j.closed && not j.broken && encodable g && written
    then record g { journal_seq = j.next_seq } ∷ []
    else []
added j (add_empty id) = []
added j begin = []
added j (finish synced) = []
added j (ack header sequence m rewritten) = []
added j (move_base c state rewritten) = []
added j shut = []

abbrev pub all_added : Journal → List Event → List Generation
all_added j [] = []
all_added j (e ∷ es) = added j e ++ all_added (step j e).0 es

-- The sequence number that the call acknowledges.
abbrev pub acknowledged : Event → ℕ
acknowledged (add id g written) = 0
acknowledged (add_empty id) = 0
acknowledged begin = 0
acknowledged (finish synced) = 0
acknowledged (ack header sequence m rewritten) = sequence
acknowledged (move_base c state rewritten) = 0
acknowledged shut = 0

newer-append : (n : ℕ) (gs hs : List Generation) → newer n (gs ++ hs) ≡ newer n gs ++ newer n hs
newer-append n [] hs = refl
newer-append n (g ∷ gs) hs = elim (Bool-cases (ltb n g.journal_seq)) [
  | inl e ↦ rw (e, newer-append n gs hs) refl
  | inr e ↦ rw (e, newer-append n gs hs) refl
]

newer-remaining : (n s : ℕ) (gs : List Generation) → s ≤ n → newer n (remaining s gs) ≡ newer n gs
newer-remaining n s [] l = refl
newer-remaining n s (g ∷ gs) l = elim (Bool-cases (ltb s g.journal_seq)) [
  | inl e ↦ rw (e, newer-remaining n s gs l) refl
  | inr e ↦
      let k : ltb n g.journal_seq ≡ false = ground arith in rw (e, k, newer-remaining n s gs l) refl
]

abbrev Retains : ℕ → List Generation → List Generation → Type 0
Retains n before after = newer n after ≡ newer n before

-- A choice keeps what both of its branches keep.
Retains-if :
    {A : Type 0} (n : ℕ) (gs : List Generation) (t : Bool) (x y : Journal × A)
    → Retains n gs x.0.entries
    → Retains n gs y.0.entries
    → Retains n gs (if t then x else y).0.entries
Retains-if n gs true x y h k = h
Retains-if n gs false x y h k = k

Retains-idle :
    (n : ℕ) (gs : List Generation) (s : Option (ℕ × List Waiter)) (x y : Journal × List Notice)
    → Retains n gs x.0.entries
    → Retains n gs y.0.entries
    → Retains n gs (when_idle s x y).0.entries
Retains-idle n gs none x y h k = h
Retains-idle n gs (some s) x y h k = k

enqueue_empty-Retains :
    (n : ℕ) (j : Journal) (id : ℕ) → Retains n j.entries (enqueue_empty j id).0.entries
unfolding enqueue_empty
enqueue_empty-Retains n j id =
    Retains-if n j.entries (not j.broken && not j.closed && j.sync_running) _ _
      (Retains-if n j.entries (j.pending_data == 0) _ _ refl refl) refl

enqueue-Retains :
    (n : ℕ) (j : Journal) (id : ℕ) (g : Generation) (written : Bool)
    → Retains n (j.entries ++ added j (add id g written)) (enqueue j id g written).0.entries
unfolding enqueue
enqueue-Retains n j id g written =
    chosen j.closed j.broken (encodable g) written (record j { broken = true }) _ _ refl refl
  where
    new : List Generation
    new = record g { journal_seq = j.next_seq } ∷ []

    same : (gs : List Generation) → gs ≡ j.entries → Retains n (j.entries ++ []) gs
    same gs q = ap (newer n) (q ∙ sym (append-nil j.entries))

    chosen :
        (a b c w : Bool) (j2 : Journal) (fail : List Notice) (x : Journal × List Notice)
        → x.0.entries ≡ j.entries ++ new
        → j2.entries ≡ j.entries
        → Retains n
            (j.entries ++ (if not a && not b && c && w then new else []))
            (if a || b
              then (j, fail)
              else if not c
              then (j, fail)
              else if not w
              then (j2, fail)
              else x).0.entries
    chosen true b c w j2 fail x p q = same j.entries refl
    chosen false true c w j2 fail x p q = same j.entries refl
    chosen false false false w j2 fail x p q = same j.entries refl
    chosen false false true false j2 fail x p q = same j2.entries q
    chosen false false true true j2 fail x p q = ap (newer n) p

finish_sync-entries :
    (j : Journal) (s : Option (ℕ × List Waiter)) (synced : Bool)
    → (finish_sync j s synced).0.entries ≡ j.entries
finish_sync-entries j none synced = refl
finish_sync-entries j (some s) true = refl
finish_sync-entries j (some s) false = refl

start_sync-entries : (j : Journal) (ws : List Waiter) → (start_sync j ws).entries ≡ j.entries
start_sync-entries j [] = refl
start_sync-entries j (w ∷ ws) = refl

acknowledge-Retains :
    (n header : ℕ) (j : Journal) (sequence : ℕ) (m : Metadata) (rewritten : Bool)
    → sequence ≤ n
    → Retains n j.entries (acknowledge header j sequence m rewritten).0.entries
unfolding acknowledge rewrite
acknowledge-Retains n header j sequence m rewritten l =
    let trimmed = newer-remaining n sequence j.entries l in
    Retains-if n j.entries (sequence == 0) _ _ refl (
      Retains-if n j.entries (j.closed || j.broken) _ _ refl (
        Retains-if n j.entries _ _ _ trimmed
          (Retains-if n j.entries rewritten _ _ trimmed trimmed)))

rebased-Retains :
    (n : ℕ) (c : FileCodec) (r : Result FormatError Metadata) (rewritten : Bool) (j : Journal)
    → Retains n j.entries (rebased c r rewritten j).0.entries
unfolding rewrite
rebased-Retains n c (err e) rewritten j = refl
rebased-Retains n c (ok m) rewritten j =
    Retains-if n j.entries (j.closed || j.broken) _ _ refl
      (Retains-if n j.entries rewritten _ _ refl refl)

close_journal-entries : (j : Journal) → (close_journal j).entries ≡ j.entries
unfolding close_journal
close_journal-entries j = elim (Bool-cases j.closed) [ inl e ↦ rw e refl | inr e ↦ rw e refl ]

-- A call that adds no record.
quiet :
    (n : ℕ) (j : Journal) (gs : List Generation)
    → Retains n j.entries gs
    → Retains n (j.entries ++ []) gs
quiet n j gs h = h ∙ ap (newer n) (sym (append-nil j.entries))

step-Retains :
    (n : ℕ) (j : Journal) (e : Event)
    → acknowledged e ≤ n
    → Retains n (j.entries ++ added j e) (step j e).0.entries
unfolding step sync_begin sync_end rebase
step-Retains n j (add id g written) l = enqueue-Retains n j id g written
step-Retains n j (add_empty id) l = quiet n j _ (enqueue_empty-Retains n j id)
step-Retains n j begin l = quiet n j _ (
    Retains-idle n j.entries j.syncing _ _
      (Retains-if n j.entries j.sync_running _ _
        (ap (newer n) (start_sync-entries j j.pending_sync)) refl)
      refl)
step-Retains n j (finish synced) l =
    quiet n j _ (ap (newer n) (finish_sync-entries j j.syncing synced))
step-Retains n j (ack header sequence m rewritten) l = quiet n j _ (
    Retains-idle n j.entries j.syncing _ _ (acknowledge-Retains n header j sequence m rewritten l)
      refl)
step-Retains n j (move_base c state rewritten) l = quiet n j _ (
    Retains-idle n j.entries j.syncing _ _
      (rebased-Retains n c (metadata_of_state state) rewritten j) refl)
step-Retains n j shut l =
    quiet n j _
      (Retains-idle n j.entries j.syncing _ _ (ap (newer n) (close_journal-entries j)) refl)

run-Retains :
    (n : ℕ) (j : Journal) (es : List Event)
    → All (λ (e : Event). acknowledged e ≤ n) es
    → Retains n (j.entries ++ all_added j es) (run j es).0.entries
unfolding run
run-Retains n j [] l = quiet n j j.entries refl
run-Retains n j (e ∷ es) (l, ls) =
    let j' = (step j e).0 in
    let later = all_added j' es in
    run-Retains n j' es ls
    ∙ newer-append n j'.entries later
    ∙ ap (λ gs. gs ++ newer n later) (step-Retains n j e l)
    ∙ sym (newer-append n (j.entries ++ added j e) later)
    ∙ ap (newer n) (append_assoc j.entries (added j e) later)

-- The waiters told of success are covered by completed syncs, the invariant holds at the end, and the
-- records that were not acknowledged are still there, in their order.
pub record Kept (j : Journal) (es : List Event) : Type 0 where
  pub sound : Sound j (run j es)
  pub records :
      (n : ℕ)
      → All (λ (e : Event). acknowledged e ≤ n) es
      → newer n (run j es).0.entries ≡ newer n (j.entries ++ all_added j es)

-- Whatever calls of `Enqueue`, `Acknowledge`, `Rebase` and `Close` and whatever syncs follow each
-- other, in any order and with any failures: every waiter that was told of success has the records up
-- to the last one it asked for covered by completed syncs. The records behind every acknowledged
-- sequence number that the journal then has are those that it began with and those that were added,
-- none lost and in their order. The invariant holds at the end. A sync begins when none runs,
-- and acknowledgements, `Rebase` and `Close` wait for it.
pub run-Kept : (j : Journal) (es : List Event) → Covered j → Kept j es
run-Kept j es c = record { sound = run-Sound j es c; records = λ n l. run-Retains n j es l }
