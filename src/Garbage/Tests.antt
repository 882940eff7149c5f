-- ===== src/Garbage/Tests.antt =====
-- A collection on the sample volume, and the theorem at it.
use satchel.Base.{◌≡◌, refl, Bool, true, false, [], ◌∷◌, some, ok}
use satchel.Extents.{validate_extents, extents_contain, union_extents}
use satchel.Volume.{volume_format, decode_manifest}
use satchel.History.{load_history, history_from}
use satchel.History.Sample.{parent_ref, state, codec, newest, oldest, entries}
use satchel.ObjectStore.{Memory, find_object}
use satchel.Garbage.{GcRecord, GcCodec, fetch_from, collect}
use satchel.Garbage.Kept.{collect-Same}

abbrev old_record : GcRecord
old_record = record {
  format = volume_format;
  volume_id = "id";
  created_at = 5;
  objects = "volumes/v/segments/old" ∷ parent_ref.key ∷ [];
}

abbrev gc_codec : GcCodec
gc_codec = record {
  record_of = λ body. some old_record;
  record_body = λ r. 4 ∷ [];
  record_name = λ now body. "new.json";
}

abbrev store : Memory
store = record {
  objects =
      (parent_ref.key, record { content = 3 ∷ []; etag = 1 })
      ∷ ("volumes/v/segments/old", record { content = 7 ∷ []; etag = 2 })
      ∷ ("volumes/v/gc/1.json", record { content = 4 ∷ []; etag = 3 })
      ∷ [];
  seq = 3;
  unconditional = false;
}

abbrev always : Memory → Bool
always m = true

history : load_history codec (fetch_from store) state ≡ ok entries
unfolding load_history history_from validate_extents extents_contain union_extents decode_manifest
    find_object
history = refl

collect-Same_example :
    find_object parent_ref.key (collect codec gc_codec state 9 15 10 100 always store).0.objects
    ≡ find_object parent_ref.key store.objects
collect-Same_example =
    collect-Same codec gc_codec state 9 15 10 100 always store (newest ∷ []) [] oldest
      parent_ref.key history refl refl refl refl
