-- ===== src/Syncer.antt =====
-- internal/replica/syncer.go: the queue of requests and the goroutine that publishes them, as a state
-- machine. A round of the goroutine is two steps, since requests come in while it works: it takes requests from
-- the queue, and it finishes them. What the journal, the lease and the store answer in a round is an
-- argument; the calls of a round and the answers to callers are events, in their order. A context that is done
-- ends the goroutine, since it fails all that comes after.
pub mod Events
pub mod Order
pub mod Steps
pub mod Trace
pub mod Success
mod Tests
use satchel.Base.{
  ℕ, suc, ◌+◌, ◌-◌, Bool, true, false, not, ◌&&◌, ◌||◌, List, [], ◌∷◌, ◌++◌, ltb, ◌==◌,
  if◌then◌else◌, max, map, take, drop, u64_mod, ◌%◌, Option, none, some, Result, ok, err,
}
use satchel.Device.{Generation, is_empty}
use satchel.Segment.{Segment, merge_generations}
use satchel.Segment.Encode.{Packer, SegmentError, encode_segments, default_segment_blocks}

-- `syncRequest`: `ready` and `caller` name the channel of the journal and of the caller.
pub record SyncRequest : Type 0 where
  pub generation : Option Generation
  pub checkpoint : Bool
  pub caller : Option ℕ
  pub ready : Option ℕ

pub data SyncError : Type 0 where
  lease_lost local_journal cancelled stopped encode_failed checkpoint_failed no_journal : SyncError

pub data Event : Type 0 where
  publishes : Generation → List Segment → Event
  acknowledges : ℕ → Event
  releases : Generation → Event
  checkpoints : Event
  answers : ℕ → Option SyncError → Event
  loses : SyncError → Event

-- `Syncer` with the variables of `run`: `pending`, and the requests of the round that goes on.
pub record Syncer : Type 0 where
  pub requests : List SyncRequest
  pub closed : Bool
  pub pending : List Generation
  pub working : List SyncRequest
  pub wake : Bool

-- What comes from a channel of the journal, or that the context is done first.
pub data Readiness : Type 0 where
  is_ready failed never : Readiness

-- What one call of `Publish` returns.
pub data Attempt : Type 0 where
  published lost refused done_context : Attempt

-- The answers of the others in a round; `generation` and `checkpointed` are those of the lease's state.
pub record Answers : Type 0 where
  pub ready : ℕ → Readiness
  pub attempts : List Attempt
  pub acknowledged : Bool
  pub generation : ℕ
  pub checkpointed : ℕ
  pub checkpoint_error : Option SyncError

pub record Config : Type 0 where
  pub packer : Packer
  pub has_journal : Bool
  pub checkpoint_interval : ℕ

abbrev pub answer : SyncRequest → Option SyncError → List Event
answer r e = elim r.caller [ none ↦ [] | some id ↦ answers id e ∷ [] ]

abbrev pub answer_all : List SyncRequest → Option SyncError → List Event
answer_all [] e = []
answer_all (r ∷ rs) e = answer r e ++ answer_all rs e

-- `enqueue`
unfoldable pub enqueue_request : Syncer → SyncRequest → Bool → Syncer × List Event
enqueue_request s r wake =
    if s.closed
    then (s, answer r (some stopped))
    else (record s { requests = s.requests ++ (r ∷ []); wake = s.wake || wake }, [])

-- `prepareLocalGeneration`: `id` is the channel that the journal gives.
unfoldable pub prepare_local : Config → ℕ → Option Generation → SyncRequest
prepare_local config id g = record {
  generation = g;
  checkpoint = false;
  caller = none;
  ready = if not config.has_journal || is_empty g then none else some id;
}

-- What `Sync` and `SyncCheckpoint` enqueue_request.
unfoldable pub request : Config → ℕ → ℕ → Option Generation → Bool → SyncRequest
unfolding prepare_local
request config id caller g checkpoint = record (prepare_local config id g) {
  checkpoint = checkpoint;
  caller = some caller;
}

-- `EnqueueGeneration`
unfoldable pub enqueue_generation : Syncer → ℕ → Generation → Syncer × List Event
unfolding enqueue_request
enqueue_generation s caller g =
    enqueue_request s
      (record { generation = some g; checkpoint = false; caller = some caller; ready = none }) true

-- `EnqueueLocalGeneration`, behind the journal's `Enqueue`.
unfoldable pub enqueue_local : Config → Syncer → ℕ → ℕ → Option Generation → Syncer × List Event
unfolding enqueue_request
enqueue_local config s id caller g =
    if not config.has_journal
    then (s, answers caller (some no_journal) ∷ [])
    else if is_empty g
    then (s, [])
    else enqueue_request s
        (record { generation = g; checkpoint = false; caller = none; ready = some id }) false

-- `EnqueueRecovered`
unfoldable pub enqueue_recovered : Syncer → List Generation → Syncer
unfolding enqueue_request
enqueue_recovered s [] = s
enqueue_recovered s (g ∷ gs) =
    enqueue_recovered
      (enqueue_request s
        (record { generation = some g; checkpoint = false; caller = none; ready = none }) false).0
      gs

abbrev pub no_requests : List SyncRequest → Bool
no_requests [] = true
no_requests (r ∷ rs) = false

-- The first request of a round, and up to 127 that are queued; the rest wakes the goroutine again.
abbrev pub take_up : Syncer → SyncRequest → List SyncRequest → Syncer
take_up s first queued = record s {
  requests = drop 127 queued;
  working = first ∷ take 127 queued;
  wake = s.wake || not (no_requests (drop 127 queued));
}

-- A round that `wake` starts.
abbrev pub woken : Syncer → List SyncRequest → Syncer
woken s [] = s
woken s (r ∷ rs) = take_up s r rs

-- A round that the ticker or `urgent` starts; `sealed` is the request of `backgroundRequest`.
abbrev pub background : Syncer → SyncRequest → List SyncRequest → Syncer
background s sealed [] = take_up s sealed []
background s sealed (r ∷ rs) = take_up s r rs

-- The loop over the requests of a round.
pub data Collected : Type 0 where
  collected : List Generation → Bool → Collected
  journal_failed context_done : List Generation → Collected

abbrev pub readiness : (ℕ → Readiness) → Option ℕ → Readiness
readiness ready none = is_ready
readiness ready (some id) = ready id

abbrev pub of_request : Option Generation → List Generation
of_request none = []
of_request (some g) = if is_empty (some g) then [] else g ∷ []

abbrev pub when_ready : Readiness → List Generation → Collected → Collected
when_ready is_ready pending later = later
when_ready failed pending later = journal_failed pending
when_ready never pending later = context_done pending

abbrev pub gather : (ℕ → Readiness) → List Generation → Bool → List SyncRequest → Collected
gather ready pending checkpoint [] = collected pending checkpoint
gather ready pending checkpoint (r ∷ rs) =
    when_ready (readiness ready r.ready) pending
      (gather ready (pending ++ of_request r.generation) (checkpoint || r.checkpoint) rs)

-- `publishWithRetry`; when the attempts are over, the context is done.
abbrev pub publish_with_retry : List Attempt → Option SyncError
publish_with_retry [] = some cancelled
publish_with_retry (published ∷ others) = none
publish_with_retry (lost ∷ others) = some lease_lost
publish_with_retry (done_context ∷ others) = some cancelled
publish_with_retry (refused ∷ others) = publish_with_retry others

abbrev pub journal_sequence : List Generation → ℕ
journal_sequence [] = 0
journal_sequence (g ∷ gs) = max g.journal_seq (journal_sequence gs)

-- The end of `sync`, behind the publication.
abbrev pub settle :
    Config
    → Answers
    → List Generation
    → List Segment
    → List Generation × List Event × Option SyncError
settle config env pending segments =
    let sequence = journal_sequence pending in
    let sent = publishes (merge_generations pending) segments in
    let noted = config.has_journal && ltb 0 sequence in
    if noted && not env.acknowledged
    then (pending, sent ∷ acknowledges sequence ∷ [], some local_journal)
    else (
      [],
      sent ∷ ((if noted then acknowledges sequence ∷ [] else []) ++ map releases pending),
      none,
    )

abbrev pub publish_segments :
    Config
    → Answers
    → List Generation
    → Result SegmentError (List Segment)
    → Option SyncError
    → List Generation × List Event × Option SyncError
publish_segments config env pending (err x) e = (pending, [], some encode_failed)
publish_segments config env pending (ok segments) (some e) = (pending, [], some e)
publish_segments config env pending (ok segments) none = settle config env pending segments

-- `sync`: what is still pending, the calls, and the error.
unfoldable pub sync :
    Config → Answers → List Generation → List Generation × List Event × Option SyncError
unfolding merge_generations encode_segments
sync config env [] = ([], [], none)
sync config env (g ∷ gs) =
    publish_segments config env (g ∷ gs)
      (encode_segments config.packer default_segment_blocks (merge_generations (g ∷ gs)))
      (publish_with_retry env.attempts)

-- `checkpoint`
unfoldable pub checkpoint : Config → Answers → List Event × Option SyncError
checkpoint config env =
    if (config.checkpoint_interval == 0)
      || ltb ((env.generation + u64_mod - env.checkpointed) % u64_mod) config.checkpoint_interval
    then ([], none)
    else (checkpoints ∷ [], env.checkpoint_error)

-- `closeRequests`
unfoldable pub close_requests : Syncer → Syncer × List Event
close_requests s =
    (record s { closed = true; requests = []; working = [] }, answer_all s.requests (some stopped))

-- What `run` does with the error of a round.
abbrev pub after_round : Syncer → Option SyncError → Syncer × List Event
after_round s none = (s, [])
after_round s (some lease_lost) = let (s', ev) = close_requests s in (s', loses lease_lost ∷ ev)
after_round s (some local_journal) =
    let (s', ev) = close_requests s in (s', loses local_journal ∷ ev)
after_round s (some cancelled) = close_requests s
after_round s (some stopped) = (s, [])
after_round s (some encode_failed) = (s, [])
after_round s (some checkpoint_failed) = (s, [])
after_round s (some no_journal) = (s, [])

abbrev pub unless_failed :
    Option SyncError → Bool → List Event × Option SyncError → List Event × Option SyncError
unless_failed (some e) wanted done = ([], some e)
unless_failed none wanted done = if wanted then done else ([], none)

-- The rest of `process` behind the loop over the requests, and of the round.
abbrev pub finish_collected : Config → Answers → Syncer → Collected → Syncer × List Event
finish_collected config env s (journal_failed pending) =
    let (s', ev) =
      after_round (record s { pending = pending; working = [] }) (some local_journal) in
    (s', answer_all s.working (some local_journal) ++ ev)
finish_collected config env s (context_done pending) =
    after_round (record s { pending = pending; working = [] }) (some cancelled)
finish_collected config env s (collected pending wanted) =
    let synced = sync config env pending in
    let first = unless_failed synced.2 wanted (checkpoint config env) in
    let second = unless_failed first.1 (not wanted) (checkpoint config env) in
    let (s', ev) = after_round (record s { pending = synced.0; working = [] }) second.1 in
    (s', synced.1 ++ (first.0 ++ (answer_all s.working first.1 ++ (second.0 ++ ev))))

unfoldable pub finish : Config → Answers → Syncer → Syncer × List Event
unfolding sync checkpoint close_requests
finish config env s =
    if no_requests s.working
    then (s, [])
    else finish_collected config env s (gather env.ready s.pending false s.working)
