-- ===== src/Journal/Tests.antt =====
-- Runs of the journal, and the theorems at a concrete journal.
use satchel.Base.{ℕ, ◌+◌, ◌<◌, ◌≡◌, ◌≢◌, refl, true, false, List, [], ◌∷◌, arith, none, some, All}
use satchel.Base.Bytes.{tabulate}
use satchel.Device.{Generation, block_size}
use satchel.Journal.{
  journal_format, Metadata, Journal, enqueue_empty, remaining, reclaimable, all_sizes,
}
use satchel.Journal.Retention.{Kept, run-Kept}
use satchel.Journal.Trace.{Event, add, add_empty, begin, finish, ack, shut, create, create-Covered}
use satchel.Journal.Recovery.{
  RemoteHead, validate_recovery, validate_recovery-foreign, InOrder, reclaimable-remaining,
  remaining-InOrder,
}

abbrev metadata : Metadata
metadata = record {
  format = journal_format;
  volume_id = "v1";
  volume_name = "vol";
  holder = "node-a";
  size = 16384;
  block_size = 4096;
  writer_epoch = 3;
  base_generation = 7;
  base_manifest = "m7";
}

abbrev sealed_at : ℕ → Generation
sealed_at seq = record {
  blocks = (0, tabulate (λ i. 1) block_size) ∷ [];
  bytes = 4096;
  journal_seq = seq;
}

abbrev fresh : Journal
fresh = create 64 1048576 metadata

abbrev events : List Event
events =
    add 1 (sealed_at 0) true
    ∷ begin
    ∷ add_empty 2
    ∷ add 3 (sealed_at 0) true
    ∷ finish true
    ∷ ack 64 1 metadata true
    ∷ begin
    ∷ finish false
    ∷ shut
    ∷ []

idle_flush :
    (enqueue_empty fresh 5).1 ≡ record { waiter = record { id = 5; needs = 0 }; good = true } ∷ []
unfolding enqueue_empty create
idle_flush = refl

run-Kept_example : Kept fresh events
run-Kept_example = run-Kept fresh events (create-Covered 64 1048576 metadata)

-- The head that the next start of the same node finds, one generation on.
abbrev resumed : RemoteHead
resumed = record {
  id = "v1";
  name = "vol";
  size = 16384;
  block_size = 4096;
  generation = 8;
  manifest = "m8";
  epoch = 4;
  holder = some "node-a";
}

abbrev taken_over : RemoteHead
taken_over = record resumed { holder = some "node-b" }

resumed_accepted : validate_recovery metadata resumed ≡ none
unfolding validate_recovery
resumed_accepted = refl

validate_recovery-foreign_example : validate_recovery metadata taken_over ≢ none
validate_recovery-foreign_example =
    validate_recovery-foreign metadata taken_over (λ e. omega arith) refl

abbrev entries : List Generation
entries = sealed_at 4 ∷ sealed_at 5 ∷ sealed_at 6 ∷ []

reclaimable-entries : reclaimable 5 entries + all_sizes (remaining 5 entries) ≡ all_sizes entries
reclaimable-entries = reclaimable-remaining 5 entries

remaining-entries :
    InOrder 4 7 (remaining 5 entries)
    × All (λ (g : Generation). 5 < g.journal_seq) (remaining 5 entries)
remaining-entries = remaining-InOrder 5 4 7 entries (ground arith)
