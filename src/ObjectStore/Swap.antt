-- ===== src/ObjectStore/Swap.antt =====
-- The memory store's puts, and its compare-and-swap.
use Prim.Native.String.{String}
use text.Mathlib.Text.{◌==◌ as str_eq}
use text.Mathlib.TextEquality.{eq_iff}
use satchel.Base.{
  ℕ, ◌+◌, ◌≤◌, ◌≡◌, refl, ◌∙◌, Bool, true, false, not, ◌&&◌, List, [], ◌∷◌, arith, if◌then◌else◌,
  none, some, Result, ok, err, Bool-cases, inl, inr, ap,
}
use satchel.ObjectStore.{
  Object, StoreError, precondition_failed, Memory, find_object, drop_keys, get_object, store_object,
  put, put_if_absent, put_if_match, matches, delete, delete_prefix, has_prefix,
}

pub find_object-drop_keys :
    (gone : String → Bool) (key : String) (objects : List (String × Object))
    → find_object key (drop_keys gone objects)
      ≡ (if gone key then none else find_object key objects)
unfolding find_object drop_keys
find_object-drop_keys gone key [] = ground arith
find_object-drop_keys gone key ((k, object) ∷ rest) = elim (Bool-cases (str_eq k key)) [
  | inl e ↦
      let q : gone k ≡ gone key = ap gone ((eq_iff k key).0 e) in
      elim (Bool-cases (gone key)) [
        | inl g ↦ rw (q ∙ g, g) (find_object-drop_keys gone key rest ∙ (rw g refl))
        | inr g ↦ rw (q ∙ g, g, e) refl
      ]
  | inr e ↦ elim (Bool-cases (gone k)) [
    | inl g ↦ rw (g, e) (find_object-drop_keys gone key rest)
    | inr g ↦ rw (g, e) (find_object-drop_keys gone key rest)
  ]
]

pub find_object-store_object :
    (m : Memory) (key other : String) (content : List ℕ)
    → find_object other (store_object m key content).0.objects ≡ (
        if str_eq key other
        then some (record { content = content; etag = m.seq + 1 })
        else find_object other m.objects)
unfolding find_object store_object
find_object-store_object m key other content = ground (
  arith,
  find_object-drop_keys (λ k. str_eq k key) other m.objects,
  eq_iff key other,
  eq_iff other key,
)

-- What was put is what is read under its key, with the new etag, and every other key reads as before.
pub get_object-put :
    (m : Memory) (key other : String) (content : List ℕ)
    → get_object (put m key content).0 other ≡ (
        if str_eq key other
        then ok (record { content = content; etag = m.seq + 1 })
        else get_object m other)
unfolding get_object put
get_object-put m key other content = ground (arith, find_object-store_object m key other content)

-- A call that changes the store.
pub data Change : Type 0 where
  write write_if_absent : String → List ℕ → Change
  write_if_match : String → List ℕ → ℕ → Change
  remove remove_under : String → Change

unfoldable pub change : Memory → Change → Memory
change m (write key content) = (put m key content).0
change m (write_if_absent key content) = (put_if_absent m key content).0
change m (write_if_match key content etag) = (put_if_match m key content etag).0
change m (remove key) = delete m key
change m (remove_under prefix) = delete_prefix m prefix

unfoldable pub changes : Memory → List Change → Memory
unfolding change
changes m [] = m
changes m (c ∷ cs) = changes (change m c) cs

-- The etag was given out, and the key's object, if there is one, has another.
record Replaced (key : String) (etag : ℕ) (m : Memory) : Type 0 where
  given : etag ≤ m.seq
  other : matches (find_object key m.objects) etag ≡ false
  conditional : m.unconditional ≡ false

module _ (key : String) (etag : ℕ) where
  store_object-Replaced :
      (m : Memory) (k : String) (content : List ℕ)
      → Replaced key etag m
      → Replaced key etag (store_object m k content).0
  unfolding store_object
  store_object-Replaced m k content r = record {
    given = omega (arith, r.given);
    other = fresh;
    conditional = r.conditional;
  }
    where
      fresh : matches (find_object key (store_object m k content).0.objects) etag ≡ false
      fresh = rw (find_object-store_object m k key content) (ground (arith, r.other, r.given))

  drop_keys-Replaced :
      (m : Memory) (gone : String → Bool)
      → Replaced key etag m
      → Replaced key etag (record m { objects = drop_keys gone m.objects })
  drop_keys-Replaced m gone r = record {
    given = r.given;
    other = left;
    conditional = r.conditional;
  }
    where
      left : matches (find_object key (drop_keys gone m.objects)) etag ≡ false
      left = elim (Bool-cases (gone key)) [
        | inl g ↦ rw (find_object-drop_keys gone key m.objects, g) refl
        | inr g ↦ rw (find_object-drop_keys gone key m.objects, g) r.other
      ]

  either-Replaced :
      (t : Bool) (x y : Memory × Result StoreError ℕ)
      → Replaced key etag x.0
      → Replaced key etag y.0
      → Replaced key etag (if t then x else y).0
  either-Replaced true x y h k = h
  either-Replaced false x y h k = k

  change-Replaced : (m : Memory) (c : Change) → Replaced key etag m → Replaced key etag (change m c)
  unfolding change put put_if_absent put_if_match delete delete_prefix
  change-Replaced m (write k content) r = store_object-Replaced m k content r
  change-Replaced m (write_if_absent k content) r =
      either-Replaced _ _ _ r (store_object-Replaced m k content r)
  change-Replaced m (write_if_match k content e) r =
      either-Replaced _ _ _ r (store_object-Replaced m k content r)
  change-Replaced m (remove k) r = drop_keys-Replaced m (λ j. str_eq j k) r
  change-Replaced m (remove_under prefix) r = drop_keys-Replaced m (λ j. has_prefix j prefix) r

  changes-Replaced :
      (m : Memory) (cs : List Change) → Replaced key etag m → Replaced key etag (changes m cs)
  unfolding changes
  changes-Replaced m [] r = r
  changes-Replaced m (c ∷ cs) r = changes-Replaced (change m c) cs (change-Replaced m c r)

swapped-Replaced :
    (m : Memory) (key : String) (content : List ℕ) (etag n : ℕ)
    → m.unconditional ≡ false
    → etag ≤ m.seq
    → (put_if_match m key content etag).1 ≡ ok n
    → Replaced key etag (put_if_match m key content etag).0
unfolding put_if_match
swapped-Replaced m key content etag n u l h =
    elim (Bool-cases (not m.unconditional && not (matches (find_object key m.objects) etag))) [
      | inl e ↦ absurd (cc (rw e at h))
      | inr e ↦ rw e (record {
        given = omega (arith, l);
        other = rw (find_object-store_object m key key content) (ground (arith, l, eq_iff key key));
        conditional = u;
      })
    ]

Replaced-refused :
    (m : Memory) (key : String) (content : List ℕ) (etag : ℕ)
    → Replaced key etag m
    → (put_if_match m key content etag).1 ≡ err precondition_failed
unfolding put_if_match
Replaced-refused m key content etag r = rw (r.conditional, r.other) refl

-- In a store with conditions, a swap that succeeds on an etag that a put had returned is the last
-- one on that etag: whatever is put and deleted after it, another swap of the key on it fails.
pub put_if_match_once :
    (m : Memory) (key : String) (content later : List ℕ) (etag n : ℕ) (cs : List Change)
    → m.unconditional ≡ false
    → etag ≤ m.seq
    → (put_if_match m key content etag).1 ≡ ok n
    → (put_if_match (changes (put_if_match m key content etag).0 cs) key later etag).1
      ≡ err precondition_failed
put_if_match_once m key content later etag n cs u l h =
    Replaced-refused (changes (put_if_match m key content etag).0 cs) key later etag (
      changes-Replaced key etag (put_if_match m key content etag).0 cs
        (swapped-Replaced m key content etag n u l h))
