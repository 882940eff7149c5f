-- ===== src/Syncer/Tests.antt =====
-- Rounds of a syncer: a publication that is tried again, a journal that failed, and the theorems.
use satchel.Base.{ℕ, ◌≡◌, refl, true, false, List, [], ◌∷◌, replicate, map, none, some}
use satchel.Base.Assoc.{insert}
use satchel.Device.{Generation}
use satchel.Journal.Format.{sort_blocks}
use satchel.Syncer.{
  SyncRequest, answers, loses, local_journal, stopped, Syncer, is_ready, failed, published, refused,
  lost, Answers, Config, enqueue_recovered, publish_with_retry, lease_lost, sync, finish,
}
use satchel.Syncer.Steps.{Step, enqueues, wakes, finishes, stops}
use satchel.Syncer.Success.{tells_success, finish_told}

abbrev config : Config
config = record {
  packer = record {
    compress = λ bytes. bytes;
    opened = λ bytes. some (bytes, true);
    digest = λ bytes. "0";
  };
  has_journal = true;
  checkpoint_interval = 0;
}

abbrev idle : Syncer
idle = record { requests = []; closed = false; pending = []; working = []; wake = false }

abbrev dirty : ℕ → Generation
dirty n = record { blocks = (n, replicate 4096 n) ∷ []; bytes = 4096; journal_seq = n }

abbrev flush : ℕ → SyncRequest
flush n = record {
  generation = some (dirty n);
  checkpoint = false;
  caller = some n;
  ready = some n;
}

abbrev second_try : Answers
second_try = record {
  ready = λ id. is_ready;
  attempts = refused ∷ published ∷ [];
  acknowledged = true;
  generation = 3;
  checkpointed = 0;
  checkpoint_error = none;
}

abbrev bad_disk : Answers
bad_disk = record second_try { ready = λ id. failed }

taken_over : publish_with_retry (refused ∷ lost ∷ published ∷ []) ≡ some lease_lost
taken_over = refl

recovered :
    (enqueue_recovered idle (dirty 1 ∷ dirty 2 ∷ [])).requests
    ≡ map
        (λ n. record {
          generation = some (dirty n);
          checkpoint = false;
          caller = none;
          ready = none;
        })
        (1 ∷ 2 ∷ [])
unfolding enqueue_recovered
recovered = refl

journal_down :
    (finish config bad_disk (record idle { requests = flush 2 ∷ []; working = flush 1 ∷ [] })).1
    ≡ answers 1 (some local_journal) ∷ loses local_journal ∷ answers 2 (some stopped) ∷ []
unfolding finish
journal_down = refl

abbrev steps : List Step
steps = enqueues (flush 1) true ∷ wakes ∷ enqueues (flush 2) true ∷ finishes second_try ∷ stops ∷ []

told : tells_success (finish config second_try (record idle { working = flush 1 ∷ [] })).1 ≡ true
unfolding finish sync insert sort_blocks
told = refl

finish_told_example :
    (finish config second_try (record idle { working = flush 1 ∷ [] })).0.pending ≡ []
finish_told_example = finish_told config second_try (record idle { working = flush 1 ∷ [] }) told
