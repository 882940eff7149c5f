-- ===== src/ObjectStore/Tests.antt =====
-- Runs of the memory store, and the theorems at a concrete store.
use text.Mathlib.Text.{◌==◌ as str_eq}
use satchel.Base.{◌+◌, ◌≡◌, refl, false, [], ◌∷◌, arith, if◌then◌else◌, ok, err}
use satchel.ObjectStore.{
  precondition_failed, Memory, new_memory, find_object, drop_keys, get_object, put, put_if_match,
  list_keys, has_prefix,
}
use satchel.ObjectStore.Swap.{
  get_object-put, write_if_absent, remove, remove_under, changes, put_if_match_once,
}

abbrev one_head : Memory
one_head = record (new_memory false) {
  objects = ("volumes/a/state.json", record { content = 7 ∷ []; etag = 1 }) ∷ [];
  seq = 1;
}

two_keys :
    list_keys (put one_head "volumes/a/m1.json" (1 ∷ [])).0 "volumes/a/"
    ≡ "volumes/a/m1.json" ∷ "volumes/a/state.json" ∷ []
unfolding list_keys put find_object drop_keys has_prefix
two_keys = refl

swapped : (put_if_match one_head "volumes/a/state.json" (8 ∷ []) 1).1 ≡ ok 2
unfolding put_if_match
swapped = refl

get_object-other_key :
    get_object (put one_head "volumes/b/state.json" (5 ∷ [])).0 "volumes/a/state.json" ≡ (
      if str_eq "volumes/b/state.json" "volumes/a/state.json"
      then ok (record { content = 5 ∷ []; etag = 1 + 1 })
      else get_object one_head "volumes/a/state.json")
get_object-other_key =
    get_object-put one_head "volumes/b/state.json" "volumes/a/state.json" (5 ∷ [])

put_if_match_once_example :
    (put_if_match
      (changes (put_if_match one_head "volumes/a/state.json" (8 ∷ []) 1).0 (
        remove "volumes/a/state.json"
        ∷ write_if_absent "volumes/a/state.json" (7 ∷ [])
        ∷ remove_under "volumes/b/"
        ∷ []))
      "volumes/a/state.json"
      (9 ∷ [])
      1).1
    ≡ err precondition_failed
put_if_match_once_example =
    put_if_match_once one_head "volumes/a/state.json" (8 ∷ []) (9 ∷ []) 1 2
      (remove "volumes/a/state.json"
        ∷ write_if_absent "volumes/a/state.json" (7 ∷ [])
        ∷ remove_under "volumes/b/"
        ∷ [])
      refl (omega arith) swapped
