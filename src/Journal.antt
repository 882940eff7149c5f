-- ===== src/Journal.antt =====
-- internal/replica/journal.go: the local journal of acknowledged generations, as a state machine. The
-- file is known by the sequence numbers of its records and its length in bytes; the critical
-- sections under the journal's mutexes are the steps. Whether the disk accepts a write or a sync is
-- an argument. `stable_seq` is the last sequence number that a completed sync covers.
pub mod Durability
pub mod Rewrite
pub mod Trace
pub mod Retention
pub mod Recovery
pub mod Format
mod Tests
use Prim.Native.String.{String}
use satchel.Base.{
  ℕ, suc, ◌+◌, ◌-◌, ◌*◌, Bool, true, false, not, ◌&&◌, ◌||◌, List, [], ◌∷◌, ◌++◌, ltb, leb, ◌==◌,
  if◌then◌else◌, length, Option, none, some,
}
use satchel.Device.{Generation, Blocks, block_size}

-- `JournalMetadata`
pub record Metadata : Type 0 where
  pub format : String
  pub volume_id : String
  pub volume_name : String
  pub holder : String
  pub size : ℕ
  pub block_size : ℕ
  pub writer_epoch : ℕ
  pub base_generation : ℕ
  pub base_manifest : String

-- `journalWaiters`, named by a number. It asks for the records up to `needs`, which are those that
-- the journal had when the waiter was made.
pub record Waiter : Type 0 where
  pub id : ℕ
  pub needs : ℕ

-- What a waiter's two channels receive: true for no error.
pub record Notice : Type 0 where
  pub waiter : Waiter
  pub good : Bool

pub record Journal : Type 0 where
  pub metadata : Metadata
  pub entries : List Generation
  pub next_seq : ℕ
  pub pending_sync : List Waiter
  pub pending_data : ℕ
  pub inflight : List Waiter
  pub sync_running : Bool
  pub syncing : Option (ℕ × List Waiter)  -- the target and the waiters of the sync that runs
  pub closed : Bool
  pub broken : Bool
  pub stable_seq : ℕ
  pub disk_bytes : ℕ
  pub reclaim_bytes : ℕ
  pub compact_after : ℕ

abbrev pub journal_record_header : ℕ
journal_record_header = 60

abbrev pub journal_format : String
journal_format = "satchel-local-journal-v1"

-- `journalRecordSize`
abbrev pub record_size : Generation → ℕ
record_size g = journal_record_header + length g.blocks * (8 + block_size)

-- The length of every block is checked by `encodeJournalRecord`.
abbrev pub whole_blocks : Blocks → Bool
whole_blocks [] = true
whole_blocks ((b, buf) ∷ m) = (length buf == block_size) && whole_blocks m

abbrev pub encodable : Generation → Bool
encodable g =
    not (length g.blocks == 0) && leb (length g.blocks) 4294967295 && whole_blocks g.blocks

abbrev pub last_seq : Journal → ℕ
last_seq j = j.next_seq - 1

abbrev pub waiter_of : Journal → ℕ → Waiter
waiter_of j id = record { id = id; needs = last_seq j }

-- `Journal.Enqueue` of an empty generation.
unfoldable pub enqueue_empty : Journal → ℕ → Journal × List Notice
enqueue_empty j id =
    let w = waiter_of j id in
    if not j.broken && not j.closed && j.sync_running
    then if j.pending_data == 0
      then (record j { inflight = j.inflight ++ (w ∷ []) }, [])
      else (record j { pending_sync = j.pending_sync ++ (w ∷ []) }, [])
    else (j, record { waiter = w; good = not j.broken && not j.closed } ∷ [])

-- `Journal.Enqueue` of a generation with blocks; `written` says if the file took the record.
unfoldable pub enqueue : Journal → ℕ → Generation → Bool → Journal × List Notice
enqueue j id g written =
    let fail = record { waiter = waiter_of j id; good = false } ∷ [] in
    if j.closed || j.broken
    then (j, fail)
    else if not (encodable g)
    then (j, fail)
    else if not written
    then (record j { broken = true }, fail)
    else (
      record j {
        next_seq = j.next_seq + 1;
        entries = j.entries ++ (record g { journal_seq = j.next_seq } ∷ []);
        disk_bytes = j.disk_bytes + record_size g;
        pending_sync = j.pending_sync ++ (record { id = id; needs = j.next_seq } ∷ []);
        pending_data = j.pending_data + 1;
        sync_running = true;
      },
      [],
    )

-- `Journal.syncPending`, up to the call of `syncFile`. The sync covers what is in the file by then.
abbrev pub start_sync : Journal → List Waiter → Journal
start_sync j [] = record j { sync_running = false }
start_sync j (w ∷ ws) = record j {
  pending_sync = [];
  pending_data = 0;
  syncing = some (last_seq j, w ∷ ws);
}

unfoldable pub sync_begin : Journal → Journal
sync_begin j = start_sync j j.pending_sync

abbrev pub notify_all : List Waiter → Bool → List Notice
notify_all [] good = []
notify_all (w ∷ ws) good = record { waiter = w; good = good } ∷ notify_all ws good

abbrev pub is_nil : List Waiter → Bool
is_nil [] = true
is_nil (w ∷ ws) = false

-- `Journal.syncPending`, from the return of `syncFile`.
abbrev finish_sync : Journal → Option (ℕ × List Waiter) → Bool → Journal × List Notice
finish_sync j none synced = (j, [])
finish_sync j (some (target, waiters)) synced =
    let served = waiters ++ j.inflight in
    if synced
    then (
      record j {
        inflight = [];
        syncing = none;
        stable_seq = target;
        sync_running = if is_nil j.pending_sync then false else j.sync_running;
      },
      notify_all served true,
    )
    else (
      record j {
        inflight = [];
        syncing = none;
        broken = true;
        pending_sync = [];
        pending_data = 0;
        sync_running = false;
      },
      notify_all (served ++ j.pending_sync) false,
    )

unfoldable pub sync_end : Journal → Bool → Journal × List Notice
sync_end j synced = finish_sync j j.syncing synced

-- The loop of `Journal.Acknowledge`: what stays, and the bytes that may be reclaimed.
abbrev pub remaining : ℕ → List Generation → List Generation
remaining sequence [] = []
remaining sequence (g ∷ gs) =
    let rest = remaining sequence gs in if ltb sequence g.journal_seq then g ∷ rest else rest

abbrev pub reclaimable : ℕ → List Generation → ℕ
reclaimable sequence [] = 0
reclaimable sequence (g ∷ gs) =
    (if ltb sequence g.journal_seq then 0 else record_size g) + reclaimable sequence gs

abbrev pub all_sizes : List Generation → ℕ
all_sizes [] = 0
all_sizes (g ∷ gs) = record_size g + all_sizes gs

-- `Journal.rewriteLocked`, when the disk has no error: a new file with a header of `header` bytes
-- and the entries, synced before it takes the place of the old one.
unfoldable pub rewrite : ℕ → Journal → Journal
rewrite header j = record j {
  disk_bytes = header + all_sizes j.entries;
  reclaim_bytes = 0;
  stable_seq = last_seq j;
}

-- `Journal.Acknowledge`, between syncs; `rewritten` says if a compaction succeeds. False is an error.
unfoldable pub acknowledge : ℕ → Journal → ℕ → Metadata → Bool → Journal × Bool
unfolding rewrite
acknowledge header j sequence metadata rewritten =
    let j' = record j {
      entries = remaining sequence j.entries;
      reclaim_bytes = j.reclaim_bytes + reclaimable sequence j.entries;
      metadata = metadata;
    } in
    if sequence == 0
    then (j, true)
    else if j.closed || j.broken
    then (j, false)
    else if ltb j'.reclaim_bytes j.compact_after || ltb (j'.reclaim_bytes * 2) j.disk_bytes
    then (j', true)
    else if rewritten
    then (rewrite header j', true)
    else (record j' { broken = true }, false)

-- `Journal.Close`, between syncs. The goroutine goes on with what is pending.
unfoldable pub close_journal : Journal → Journal
close_journal j = if j.closed then j else record j { closed = true }
