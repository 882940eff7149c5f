-- ===== src/Base/Assoc.antt =====
-- A Go map with numbers as keys, as an association list in which a write keeps the key's place.
use Prim.Native.Nat.{ℕ, ◌+◌}
use mathlib.Core.Path.{◌≡◌, refl, sym, ◌∙◌}
use mathlib.Core.Logic.{◌≢◌, ◌⊎◌, inl, inr}
use mathlib.Core.Bool.{Bool, true, false}
use mathlib.Core.Option.{Option, none, some}
use mathlib.Core.List.{List, [], ◌∷◌}
use native.Mathlib.Omega.{arith}
use satchel.Base.Tests.{◌==◌, ==_iff, taken, not_taken, Bool-cases, if◌then◌else◌}
use satchel.Base.Lists.{length}

module _ {ℓ} {V : Type ℓ} where
  unfoldable pub lookup : ℕ → List (ℕ × V) → Option V
  lookup key [] = none
  lookup key ((first, held) ∷ rest) =
      let later = lookup key rest in if first == key then some held else later

  unfoldable pub insert : ℕ → V → List (ℕ × V) → List (ℕ × V)
  insert key value [] = (key, value) ∷ []
  insert key value ((first, held) ∷ rest) =
      let later = insert key value rest in
      if first == key then (first, value) ∷ rest else (first, held) ∷ later

  abbrev pub is_some : Option V → Bool
  is_some none = false
  is_some (some v) = true

  pub lookup-insert :
      (written read : ℕ) (value : V) (m : List (ℕ × V))
      → lookup read (insert written value m)
        ≡ (if written == read then some value else lookup read m)
  unfolding lookup insert
  lookup-insert written read value [] = refl
  lookup-insert written read value ((i, held) ∷ m) =
      ground (arith, lookup-insert written read value m)

  -- A write to a new key adds an entry, one to an old key does not.
  pub length-insert :
      (k : ℕ) (v : V) (m : List (ℕ × V))
      → length (insert k v m) ≡ (if is_some (lookup k m) then length m else length m + 1)
  unfolding lookup insert
  length-insert k v [] = omega arith
  length-insert k v ((i, w) ∷ m) = ground (arith, length-insert k v m)

  -- A key that is missing after a write was missing before it, and is not the written one.
  pub insert-none :
      (k j : ℕ) (v : V) (m : List (ℕ × V))
      → lookup j (insert k v m) ≡ none
      → (lookup j m ≡ none) × (k ≢ j)
  insert-none k j v m h = ground (arith, lookup-insert k j v m)

  pub insert-some :
      (k j : ℕ) (v x : V) (m : List (ℕ × V))
      → lookup j (insert k v m) ≡ some x
      → ((k ≡ j) × (v ≡ x)) ⊎ ((k ≢ j) × (lookup j m ≡ some x))
  insert-some k j v x m h =
      let e = sym (lookup-insert k j v m) ∙ h in
      elim (Bool-cases (k == j)) [
        | inl q ↦ inl ((==_iff k j).0 q, taken (k == j) v x (lookup j m) q e)
        | inr q ↦ inr (ground arith, not_taken (k == j) v x (lookup j m) q e)
      ]

  -- No key stands twice.
  abbrev pub Unique : List (ℕ × V) → Type ℓ
  Unique [] = Unit
  Unique ((k, v) ∷ m) = (lookup k m ≡ none) × Unique m

  pub insert-Unique : (k : ℕ) (v : V) (m : List (ℕ × V)) → Unique m → Unique (insert k v m)
  unfolding insert lookup
  insert-Unique k v [] u = (refl, tt)
  insert-Unique k v ((j, w) ∷ m) u = elim (Bool-cases (j == k)) [
    | inl q ↦ rw q u
    | inr q ↦ rw q (lookup-insert k j v m ∙ (ground arith), insert-Unique k v m u.1)
  ]
