-- ===== src/Syncer/Order.antt =====
-- What a syncer has published, and what it still has, against what it was given.
use satchel.Base.{
  ℕ, ◌+◌, ◌-◌, ◌%◌, u64_mod, ◌≡◌, refl, ◌∙◌, sym, ap, subst, Bool, true, false, not, ◌&&◌, ◌||◌,
  ltb, ◌==◌, List, [], ◌∷◌, ◌++◌, map, append_assoc, append-nil, Option, none, some, Result, ok,
  err, Bool-cases, inl, inr, ◌⊎◌,
}
use satchel.Device.{Generation, File}
use satchel.Device.Replay.Trace.{overlays}
use satchel.Segment.{Segment, merge_generations}
use satchel.Segment.Merge.{overlay-merge_generations}
use satchel.Segment.Encode.{SegmentError, encode_segments, default_segment_blocks}
use satchel.Syncer.{
  SyncRequest, SyncError, lease_lost, local_journal, cancelled, stopped, encode_failed,
  checkpoint_failed, no_journal, Event, releases, loses, Syncer, Readiness, is_ready, failed, never,
  Answers, Config, answer_all, Collected, collected, journal_failed, context_done, readiness,
  of_request, when_ready, gather, publish_with_retry, journal_sequence, settle, publish_segments,
  sync, checkpoint, close_requests, after_round, unless_failed, finish_collected,
}
use satchel.Syncer.Events.{
  AllUnique, answers-published, contents, generations, published_by, published_by-append,
}

-- A step publishes the first of what there is, and leaves the rest.
pub record Keeps (had : List Generation) (r : Syncer × List Event) : Type 0 where
  pub done : List Generation
  pub rest : List Generation
  pub split : had ≡ done ++ rest
  pub covers : (file : File) → overlays (published_by r.1) file ≡ overlays done file
  pub running : (r.0.closed ≡ true) ⊎ (rest ≡ contents r.0)

-- A step that publishes nothing.
pub quiet-Keeps :
    (had : List Generation) (s : Syncer) (ev : List Event)
    → published_by ev ≡ []
    → (s.closed ≡ false → had ≡ contents s)
    → Keeps had (s, ev)
quiet-Keeps had s ev p h = record {
  done = [];
  rest = had;
  split = refl;
  covers = λ file. ap (λ l. overlays l file) p;
  running = elim (Bool-cases s.closed) [ inl t ↦ inl t | inr t ↦ inr (h t) ];
}

gather-ready :
    (x : Readiness) (pending : List Generation) (later : Collected) (p : List Generation) (w : Bool)
    (all : List Generation)
    → when_ready x pending later ≡ collected p w
    → (later ≡ collected p w → p ≡ all)
    → p ≡ all
gather-ready is_ready pending later p w all h k = k h
gather-ready failed pending later p w all h k = absurd (cc h)
gather-ready never pending later p w all h k = absurd (cc h)

gather-contents :
    (ready : ℕ → Readiness) (pending : List Generation) (c : Bool) (rs : List SyncRequest)
    (p : List Generation) (w : Bool)
    → gather ready pending c rs ≡ collected p w
    → p ≡ pending ++ generations rs
gather-contents ready pending c [] p w h = cc (append-nil pending)
gather-contents ready pending c (r ∷ rs) p w h =
    gather-ready (readiness ready r.ready) pending
      (gather ready (pending ++ of_request r.generation) (c || r.checkpoint) rs) p w _ h
      (λ k.
        gather-contents ready (pending ++ of_request r.generation) (c || r.checkpoint) rs p w k
        ∙ append_assoc pending (of_request r.generation) (generations rs))

after_round-published : (s : Syncer) (e : Option SyncError) → published_by (after_round s e).1 ≡ []
unfolding close_requests
after_round-published s none = refl
after_round-published s (some lease_lost) = answers-published s.requests (some stopped)
after_round-published s (some local_journal) = answers-published s.requests (some stopped)
after_round-published s (some cancelled) = answers-published s.requests (some stopped)
after_round-published s (some stopped) = refl
after_round-published s (some encode_failed) = refl
after_round-published s (some checkpoint_failed) = refl
after_round-published s (some no_journal) = refl

after_round-same :
    (s : Syncer) (e : Option SyncError)
    → (after_round s e).0.closed ≡ false
    → (after_round s e).0 ≡ s
unfolding close_requests
after_round-same s none h = refl
after_round-same s (some lease_lost) h = absurd (cc h)
after_round-same s (some local_journal) h = absurd (cc h)
after_round-same s (some cancelled) h = absurd (cc h)
after_round-same s (some stopped) h = refl
after_round-same s (some encode_failed) h = refl
after_round-same s (some checkpoint_failed) h = refl
after_round-same s (some no_journal) h = refl

releases-published : (gs : List Generation) → published_by (map releases gs) ≡ []
releases-published [] = refl
releases-published (g ∷ gs) = releases-published gs

-- What `sync` does with the pending generations.
record IsSynced (pending : List Generation) (r : List Generation × List Event × Option SyncError)
    : Type 0 where
  done : List Generation
  rest : List Generation
  split : pending ≡ done ++ rest
  covers : (file : File) → overlays (published_by r.1) file ≡ overlays done file
  kept : (r.2 ≡ some local_journal) ⊎ (rest ≡ r.0)

whole-IsSynced :
    (pending : List Generation) (r : List Generation × List Event × Option SyncError)
    → AllUnique pending
    → published_by r.1 ≡ merge_generations pending ∷ []
    → (r.2 ≡ some local_journal) ⊎ ([] ≡ r.0)
    → IsSynced pending r
whole-IsSynced pending r u p k = record {
  done = pending;
  rest = [];
  split = sym (append-nil pending);
  covers = λ file. ap (λ l. overlays l file) p ∙ overlay-merge_generations pending file u;
  kept = k;
}

kept-IsSynced :
    (pending : List Generation) (e : Option SyncError) → IsSynced pending (pending, [], e)
kept-IsSynced pending e = record {
  done = [];
  rest = pending;
  split = refl;
  covers = λ file. refl;
  kept = inr refl;
}

settle-IsSynced :
    (config : Config) (env : Answers) (pending : List Generation) (segments : List Segment)
    → AllUnique pending
    → IsSynced pending (settle config env pending segments)
settle-IsSynced config env pending segments u =
    elim (Bool-cases (config.has_journal && ltb 0 (journal_sequence pending))) [
      | inl n ↦ elim (Bool-cases env.acknowledged) [
        | inl a ↦
            whole-IsSynced pending _ u (rw (n, a, releases-published pending) refl)
              (rw (n, a) (inr refl))
        | inr a ↦ whole-IsSynced pending _ u (rw (n, a) refl) (rw (n, a) (inl refl))
      ]
      | inr n ↦
          whole-IsSynced pending _ u (rw (n, releases-published pending) refl) (rw n (inr refl))
    ]

publish-IsSynced :
    (config : Config) (env : Answers) (pending : List Generation)
    (r : Result SegmentError (List Segment)) (e : Option SyncError)
    → AllUnique pending
    → IsSynced pending (publish_segments config env pending r e)
publish-IsSynced config env pending (err x) e u = kept-IsSynced pending (some encode_failed)
publish-IsSynced config env pending (ok segments) (some e) u = kept-IsSynced pending (some e)
publish-IsSynced config env pending (ok segments) none u =
    settle-IsSynced config env pending segments u

sync-IsSynced :
    (config : Config) (env : Answers) (pending : List Generation)
    → AllUnique pending
    → IsSynced pending (sync config env pending)
unfolding sync
sync-IsSynced config env [] u = kept-IsSynced [] none
sync-IsSynced config env (g ∷ gs) u =
    publish-IsSynced config env (g ∷ gs)
      (encode_segments config.packer default_segment_blocks (merge_generations (g ∷ gs)))
      (publish_with_retry env.attempts) u

checkpoint-published :
    (config : Config) (env : Answers) → published_by (checkpoint config env).0 ≡ []
unfolding checkpoint
checkpoint-published config env =
    elim (Bool-cases (
      (config.checkpoint_interval == 0)
      || ltb ((env.generation + u64_mod - env.checkpointed) % u64_mod)
          config.checkpoint_interval)) [ inl t ↦ rw t refl | inr t ↦ rw t refl ]

unless_failed-published :
    (e : Option SyncError) (wanted : Bool) (done : List Event × Option SyncError)
    → published_by done.0 ≡ []
    → published_by (unless_failed e wanted done).0 ≡ []
unless_failed-published (some e) wanted done h = refl
unless_failed-published none true done h = h
unless_failed-published none false done h = refl

published_by-quiet :
    (a b : List Event) → published_by b ≡ [] → published_by (a ++ b) ≡ published_by a
published_by-quiet a b h = published_by-append a b ∙ rw h (append-nil (published_by a))

both_quiet :
    (a b : List Event) → published_by a ≡ [] → published_by b ≡ [] → published_by (a ++ b) ≡ []
both_quiet a b h k = published_by-append a b ∙ rw (h, k) refl

pub All-left : (a b : List Generation) → AllUnique (a ++ b) → AllUnique a
All-left [] b h = tt
All-left (x ∷ a) b h = (h.0, All-left a b h.1)

pub All-right : (a b : List Generation) → AllUnique (a ++ b) → AllUnique b
All-right [] b h = h
All-right (x ∷ a) b h = All-right a b h.1

journal_error :
    (e : Option SyncError) (w : Bool) (done : List Event × Option SyncError)
    → e ≡ some local_journal
    → (unless_failed (unless_failed e w done).1 (not w) done).1 ≡ some local_journal
journal_error e w done h = rw h refl

journal_ends :
    (s : Syncer) (e : Option SyncError) → e ≡ some local_journal → (after_round s e).0.closed ≡ true
unfolding close_requests
journal_ends s e h = rw h refl

module _ (config : Config) (env : Answers) (s : Syncer) where
  queued : List Generation
  queued = generations s.requests

  collected-Keeps :
      (p : List Generation) (w : Bool)
      → p ≡ s.pending ++ generations s.working
      → AllUnique (contents s)
      → Keeps (contents s) (finish_collected config env s (collected p w))
  unfolding queued
  collected-Keeps p w e u =
      let had : contents s ≡ p ++ queued =
        sym (append_assoc s.pending (generations s.working) queued)
        ∙ ap (λ x. x ++ queued) (sym e) in
      let synced = sync config env p in
      let y = sync-IsSynced config env p (All-left p queued (subst AllUnique had u)) in
      let done = checkpoint config env in
      let first = unless_failed synced.2 w done in
      let second = unless_failed first.1 (not w) done in
      let left = record s { pending = synced.0; working = [] } in
      let out = after_round left second.1 in
      let quiet =
        published_by-quiet synced.1
          (first.0 ++ (answer_all s.working first.1 ++ (second.0 ++ out.1)))
          (both_quiet first.0 (answer_all s.working first.1 ++ (second.0 ++ out.1))
            (unless_failed-published synced.2 w done (checkpoint-published config env))
            (both_quiet (answer_all s.working first.1) (second.0 ++ out.1)
              (answers-published s.working first.1)
              (both_quiet second.0 out.1
                (unless_failed-published first.1 (not w) done (checkpoint-published config env))
                (after_round-published left second.1)))) in
      record {
        done = y.done;
        rest = y.rest ++ queued;
        split = had ∙ ap (λ x. x ++ queued) y.split ∙ append_assoc y.done y.rest queued;
        covers = λ file. ap (λ l. overlays l file) quiet ∙ y.covers file;
        running = elim y.kept [
          | inl j ↦ inl (journal_ends left second.1 (journal_error synced.2 w done j))
          | inr k ↦ elim (Bool-cases out.0.closed) [
            | inl t ↦ inl t
            | inr t ↦
                inr (ap (λ l. l ++ queued) k ∙ ap contents (sym (after_round-same left second.1 t)))
          ]
        ];
      }

  pub finish_collected-Keeps :
      (x : Collected)
      → gather env.ready s.pending false s.working ≡ x
      → AllUnique (contents s)
      → Keeps (contents s) (finish_collected config env s x)
  unfolding close_requests
  finish_collected-Keeps (collected p w) h u =
      collected-Keeps p w (gather-contents env.ready s.pending false s.working p w h) u
  finish_collected-Keeps (journal_failed p) h u =
      quiet-Keeps (contents s) _ _
        (both_quiet (answer_all s.working (some local_journal))
          (loses local_journal ∷ answer_all s.requests (some stopped))
          (answers-published s.working (some local_journal))
          (answers-published s.requests (some stopped)))
        (λ k. absurd (cc k))
  finish_collected-Keeps (context_done p) h u =
      quiet-Keeps (contents s) _ _ (answers-published s.requests (some stopped))
        (λ k. absurd (cc k))
