-- ===== src/ObjectStore.antt =====
-- internal/objectstore/memory.go: the store that keeps its objects in memory. An etag is the number
-- that the source prints between quotes: the count of puts so far, so 0 stands for every text that no
-- put has returned. The map is an association list.
pub mod Swap
mod Tests
use Prim.Native.Char.{code}
use Prim.Native.String.{String}
use text.Mathlib.Text.{◌==◌ as str_eq}
use satchel.Base.{
  ℕ, ◌+◌, Bool, true, false, not, ◌&&◌, ◌||◌, List, [], ◌∷◌, ltb, ◌==◌, if◌then◌else◌, Option, none,
  some, Result, ok, err,
}

-- `Object`
pub record Object : Type 0 where
  pub content : List ℕ
  pub etag : ℕ

pub data StoreError : Type 0 where
  not_found precondition_failed : StoreError

pub record Memory : Type 0 where
  pub objects : List (String × Object)
  pub seq : ℕ
  pub unconditional : Bool

unfoldable pub find_object : String → List (String × Object) → Option Object
find_object key [] = none
find_object key ((k, object) ∷ rest) =
    let later = find_object key rest in if str_eq k key then some object else later

unfoldable pub drop_keys : (String → Bool) → List (String × Object) → List (String × Object)
drop_keys gone [] = []
drop_keys gone ((k, object) ∷ rest) =
    let later = drop_keys gone rest in if gone k then later else (k, object) ∷ later

-- `NewMemory` and `NewUnconditionalMemory`
abbrev pub new_memory : Bool → Memory
new_memory unconditional = record { objects = []; seq = 0; unconditional = unconditional }

-- `Memory.Get`
abbrev pub found : Option Object → Result StoreError Object
found none = err not_found
found (some object) = ok object

unfoldable pub get_object : Memory → String → Result StoreError Object
unfolding find_object
get_object m key = found (find_object key m.objects)

-- `Memory.store`: an old object of the key makes way.
unfoldable pub store_object : Memory → String → List ℕ → Memory × ℕ
unfolding drop_keys
store_object m key content =
    let seq = m.seq + 1 in
    (
      record m {
        seq = seq;
        objects =
            (key, record { content = content; etag = seq })
            ∷ drop_keys (λ k. str_eq k key) m.objects;
      },
      seq,
    )

abbrev pub stored_as : Memory × ℕ → Memory × Result StoreError ℕ
stored_as (m, etag) = (m, ok etag)

-- `Memory.Put`
unfoldable pub put : Memory → String → List ℕ → Memory × Result StoreError ℕ
unfolding store_object
put m key content = stored_as (store_object m key content)

abbrev pub present : Option Object → Bool
present none = false
present (some object) = true

-- `Memory.PutIfAbsent`
unfoldable pub put_if_absent : Memory → String → List ℕ → Memory × Result StoreError ℕ
unfolding store_object find_object
put_if_absent m key content =
    if present (find_object key m.objects) && not m.unconditional
    then (m, err precondition_failed)
    else stored_as (store_object m key content)

abbrev pub matches : Option Object → ℕ → Bool
matches none etag = false
matches (some object) etag = object.etag == etag

-- `Memory.PutIfMatch`
unfoldable pub put_if_match : Memory → String → List ℕ → ℕ → Memory × Result StoreError ℕ
unfolding store_object find_object
put_if_match m key content etag =
    if not m.unconditional && not (matches (find_object key m.objects) etag)
    then (m, err precondition_failed)
    else stored_as (store_object m key content)

-- `Memory.Delete`
unfoldable pub delete : Memory → String → Memory
unfolding drop_keys
delete m key = record m { objects = drop_keys (λ k. str_eq k key) m.objects }

-- `strings.HasPrefix`
unfoldable pub has_prefix : String → String → Bool
has_prefix s String.[] = true
has_prefix String.[] (String.◌∷◌ d p) = false
has_prefix (String.◌∷◌ c s) (String.◌∷◌ d p) = (code c == code d) && has_prefix s p

-- The order of `sort.Strings`.
unfoldable pub key_before : String → String → Bool
key_before String.[] t = true
key_before (String.◌∷◌ c s) String.[] = false
key_before (String.◌∷◌ c s) (String.◌∷◌ d t) =
    ltb (code c) (code d) || ((code c == code d) && key_before s t)

unfoldable pub insert_key : String → List String → List String
unfolding key_before
insert_key key [] = key ∷ []
insert_key key (k ∷ rest) =
    let later = insert_key key rest in if key_before key k then key ∷ k ∷ rest else k ∷ later

-- `Memory.List`
unfoldable pub keys_under : String → List (String × Object) → List String
unfolding has_prefix insert_key
keys_under prefix [] = []
keys_under prefix ((k, object) ∷ rest) =
    let later = keys_under prefix rest in if has_prefix k prefix then insert_key k later else later

unfoldable pub list_keys : Memory → String → List String
unfolding keys_under
list_keys m prefix = keys_under prefix m.objects

-- `Memory.DeletePrefix`
unfoldable pub delete_prefix : Memory → String → Memory
unfolding drop_keys has_prefix
delete_prefix m prefix = record m { objects = drop_keys (λ k. has_prefix k prefix) m.objects }
