-- ===== src/Syncer/Success.antt =====
-- When a syncer's round tells its callers of success.
use satchel.Base.{
  ◌+◌, ◌-◌, ◌%◌, u64_mod, ◌≡◌, refl, ◌∙◌, Bool, true, false, not, ◌&&◌, ◌||◌, ltb, ◌==◌, List, [],
  ◌∷◌, ◌++◌, map, Option, none, some, Result, ok, err, Bool-cases, Option-cases, inl, inr, ◌⊎◌,
}
use satchel.Device.{Generation}
use satchel.Segment.{Segment, merge_generations}
use satchel.Segment.Encode.{SegmentError, encode_segments, default_segment_blocks}
use satchel.Syncer.{
  SyncRequest, SyncError, lease_lost, local_journal, cancelled, stopped, encode_failed,
  checkpoint_failed, no_journal, Event, publishes, acknowledges, releases, checkpoints, answers,
  loses, Syncer, Answers, Config, answer, answer_all, no_requests, Collected, collected,
  journal_failed, context_done, gather, publish_with_retry, journal_sequence, settle,
  publish_segments, sync, checkpoint, close_requests, after_round, unless_failed, finish_collected,
  finish,
}

abbrev is_none : Option SyncError → Bool
is_none none = true
is_none (some e) = false

-- Some caller gets no error.
abbrev pub tells_success : List Event → Bool
tells_success [] = false
tells_success (answers id e ∷ ev) = is_none e || tells_success ev
tells_success (publishes g segments ∷ ev) = tells_success ev
tells_success (acknowledges sequence ∷ ev) = tells_success ev
tells_success (releases g ∷ ev) = tells_success ev
tells_success (checkpoints ∷ ev) = tells_success ev
tells_success (loses e ∷ ev) = tells_success ev

tells_nothing :
    (a b : List Event)
    → tells_success a ≡ false
    → tells_success b ≡ false
    → tells_success (a ++ b) ≡ false
tells_nothing [] b h k = k
tells_nothing (answers id none ∷ a) b h k = absurd (cc h)
tells_nothing (answers id (some e) ∷ a) b h k = tells_nothing a b h k
tells_nothing (publishes g segments ∷ a) b h k = tells_nothing a b h k
tells_nothing (acknowledges sequence ∷ a) b h k = tells_nothing a b h k
tells_nothing (releases g ∷ a) b h k = tells_nothing a b h k
tells_nothing (checkpoints ∷ a) b h k = tells_nothing a b h k
tells_nothing (loses e ∷ a) b h k = tells_nothing a b h k

answer_failure : (r : SyncRequest) (e : SyncError) → tells_success (answer r (some e)) ≡ false
answer_failure r e = elim (Option-cases r.caller) [ inl n ↦ rw n refl | inr (id, n) ↦ rw n refl ]

answers_failure :
    (rs : List SyncRequest) (e : SyncError) → tells_success (answer_all rs (some e)) ≡ false
answers_failure [] e = refl
answers_failure (r ∷ rs) e =
    tells_nothing (answer r (some e)) (answer_all rs (some e)) (answer_failure r e)
      (answers_failure rs e)

after_round_tells : (s : Syncer) (e : Option SyncError) → tells_success (after_round s e).1 ≡ false
unfolding close_requests
after_round_tells s none = refl
after_round_tells s (some lease_lost) = answers_failure s.requests stopped
after_round_tells s (some local_journal) = answers_failure s.requests stopped
after_round_tells s (some cancelled) = answers_failure s.requests stopped
after_round_tells s (some stopped) = refl
after_round_tells s (some encode_failed) = refl
after_round_tells s (some checkpoint_failed) = refl
after_round_tells s (some no_journal) = refl

after_round_pending : (s : Syncer) (e : Option SyncError) → (after_round s e).0.pending ≡ s.pending
unfolding close_requests
after_round_pending s none = refl
after_round_pending s (some lease_lost) = refl
after_round_pending s (some local_journal) = refl
after_round_pending s (some cancelled) = refl
after_round_pending s (some stopped) = refl
after_round_pending s (some encode_failed) = refl
after_round_pending s (some checkpoint_failed) = refl
after_round_pending s (some no_journal) = refl

releases_tell : (gs : List Generation) → tells_success (map releases gs) ≡ false
releases_tell [] = refl
releases_tell (g ∷ gs) = releases_tell gs

-- `sync` answers no one, and without an error nothing stays pending.
record IsSilent (r : List Generation × List Event × Option SyncError) : Type 0 where
  silent : tells_success r.1 ≡ false
  emptied : r.2 ≡ none → r.0 ≡ []

settle-IsSilent :
    (config : Config) (env : Answers) (pending : List Generation) (segments : List Segment)
    → IsSilent (settle config env pending segments)
settle-IsSilent config env pending segments =
    elim (Bool-cases (config.has_journal && ltb 0 (journal_sequence pending))) [
      | inl n ↦ elim (Bool-cases env.acknowledged) [
        | inl a ↦ record {
          silent = rw (n, a) (releases_tell pending);
          emptied = rw (n, a) (λ _. refl);
        }
        | inr a ↦ record { silent = rw (n, a) refl; emptied = rw (n, a) (λ h. absurd (cc h)) }
      ]
      | inr n ↦ record { silent = rw n (releases_tell pending); emptied = rw n (λ _. refl) }
    ]

publish-IsSilent :
    (config : Config) (env : Answers) (pending : List Generation)
    (r : Result SegmentError (List Segment)) (e : Option SyncError)
    → IsSilent (publish_segments config env pending r e)
publish-IsSilent config env pending (err x) e = record {
  silent = refl;
  emptied = λ h. absurd (cc h);
}
publish-IsSilent config env pending (ok segments) (some e) = record {
  silent = refl;
  emptied = λ h. absurd (cc h);
}
publish-IsSilent config env pending (ok segments) none = settle-IsSilent config env pending segments

sync-IsSilent :
    (config : Config) (env : Answers) (pending : List Generation)
    → IsSilent (sync config env pending)
unfolding sync
sync-IsSilent config env [] = record { silent = refl; emptied = λ _. refl }
sync-IsSilent config env (g ∷ gs) =
    publish-IsSilent config env (g ∷ gs)
      (encode_segments config.packer default_segment_blocks (merge_generations (g ∷ gs)))
      (publish_with_retry env.attempts)

checkpoint_tells :
    (config : Config) (env : Answers) → tells_success (checkpoint config env).0 ≡ false
unfolding checkpoint
checkpoint_tells config env =
    elim (Bool-cases (
      (config.checkpoint_interval == 0)
      || ltb ((env.generation + u64_mod - env.checkpointed) % u64_mod)
          config.checkpoint_interval)) [ inl t ↦ rw t refl | inr t ↦ rw t refl ]

unless_failed_tells :
    (e : Option SyncError) (wanted : Bool) (done : List Event × Option SyncError)
    → tells_success done.0 ≡ false
    → tells_success (unless_failed e wanted done).0 ≡ false
unless_failed_tells (some e) wanted done h = refl
unless_failed_tells none true done h = h
unless_failed_tells none false done h = refl

-- The answers after an error are errors.
error_kept :
    (e : Option SyncError) (wanted : Bool) (done : List Event × Option SyncError)
    (rs : List SyncRequest)
    → tells_success (answer_all rs (unless_failed e wanted done).1) ≡ false ⊎ (e ≡ none)
error_kept none wanted done rs = inr refl
error_kept (some e) wanted done rs = inl (answers_failure rs e)

module _ (config : Config) (env : Answers) (s : Syncer) where
  finish_collected_told :
      (x : Collected)
      → tells_success (finish_collected config env s x).1 ≡ true
      → (finish_collected config env s x).0.pending ≡ []
  finish_collected_told (journal_failed p) h =
      let left = record s { pending = p; working = [] } in
      absurd (
        cc (
          tells_nothing (answer_all s.working (some local_journal))
              (after_round left (some local_journal)).1 (answers_failure s.working local_journal)
              (after_round_tells left (some local_journal)),
          h,
        ))
  finish_collected_told (context_done p) h =
      absurd (cc (after_round_tells (record s { pending = p; working = [] }) (some cancelled), h))
  finish_collected_told (collected p w) h =
      let synced = sync config env p in
      let done = checkpoint config env in
      let first = unless_failed synced.2 w done in
      let second = unless_failed first.1 (not w) done in
      let left = record s { pending = synced.0; working = [] } in
      let out = after_round left second.1 in
      elim (error_kept synced.2 w done s.working) [
        | inl quiet ↦ absurd (
            cc (
              tells_nothing synced.1
                  (first.0 ++ (answer_all s.working first.1 ++ (second.0 ++ out.1)))
                  (sync-IsSilent config env p).silent
                  (tells_nothing first.0 (answer_all s.working first.1 ++ (second.0 ++ out.1))
                    (unless_failed_tells synced.2 w done (checkpoint_tells config env))
                    (tells_nothing (answer_all s.working first.1) (second.0 ++ out.1) quiet (
                      tells_nothing second.0 out.1
                        (unless_failed_tells first.1 (not w) done (checkpoint_tells config env))
                        (after_round_tells left second.1)))),
              h,
            ))
        | inr e ↦ after_round_pending left second.1 ∙ (sync-IsSilent config env p).emptied e
      ]

-- A round that tells a caller of success leaves no generation pending.
pub finish_told :
    (config : Config) (env : Answers) (s : Syncer)
    → tells_success (finish config env s).1 ≡ true
    → (finish config env s).0.pending ≡ []
unfolding finish
finish_told config env s h = elim (Bool-cases (no_requests s.working)) [
  | inl t ↦ absurd (cc (rw t at h))
  | inr t ↦
      rw t (
        finish_collected_told config env s (gather env.ready s.pending false s.working) (rw t at h))
]
