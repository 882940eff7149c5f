-- ===== src/Base/Bytes.antt =====
-- Byte slices: reading an index with a default, `copy` into a buffer, and slicing.
use Prim.Native.Nat.{ℕ, zero, suc, ◌+◌, ◌-◌, ◌≤◌, ◌<◌}
use mathlib.Core.Path.{◌≡◌, refl, ap, ◌∙◌}
use mathlib.Core.Logic.{inl, inr}
use mathlib.Core.Bool.{Bool, true, false, ◌&&◌}
use mathlib.Core.List.{List, [], ◌∷◌}
use native.Mathlib.Omega.{arith}
use satchel.Base.Tests.{ltb, leb, ◌==◌, ==_iff, Bool-cases, if◌then◌else◌}
use satchel.Base.Lists.{length, take, drop, length-take, length-drop}

module _ {ℓ} {A : Type ℓ} where
  abbrev pub get_or : List A → ℕ → A → A
  get_or [] i d = d
  get_or (x ∷ xs) zero d = x
  get_or (x ∷ xs) (suc i) d = get_or xs i d

  pub get_or-take :
      (n : ℕ) (xs : List A) (i : ℕ) (d : A) → i < n → get_or (take n xs) i d ≡ get_or xs i d
  get_or-take zero xs i d h = elim h [ ]
  get_or-take (suc n) [] i d h = refl
  get_or-take (suc n) (x ∷ xs) zero d h = refl
  get_or-take (suc n) (x ∷ xs) (suc i) d h = get_or-take n xs i d (omega arith)

  pub get_or-drop :
      (n : ℕ) (xs : List A) (i : ℕ) (d : A) → get_or (drop n xs) i d ≡ get_or xs (n + i) d
  get_or-drop zero xs i d = ap (λ k. get_or xs k d) (omega arith)
  get_or-drop (suc n) [] i d = refl
  get_or-drop (suc n) (x ∷ xs) i d =
      let e : suc n + i ≡ suc (n + i) = omega arith in rw e (get_or-drop n xs i d)

-- `data[from:stop]`
abbrev pub slice {ℓ} : {A : Type ℓ} → List A → ℕ → ℕ → List A
slice xs from stop = take (stop - from) (drop from xs)

pub get_or-slice :
    (xs : List ℕ) (from stop i d : ℕ)
    → i < stop - from
    → get_or (slice xs from stop) i d ≡ get_or xs (from + i) d
get_or-slice xs from stop i d h =
    get_or-take (stop - from) (drop from xs) i d h ∙ get_or-drop from xs i d

pub length-slice :
    (xs : List ℕ) (from stop : ℕ)
    → from ≤ stop
    → stop ≤ length xs
    → length (slice xs from stop) ≡ stop - from
length-slice xs from stop l m =
    omega (arith, length-take (stop - from) (drop from xs), length-drop from xs)

-- `copy(buf[from:], data)`
unfoldable pub copy_into : List ℕ → ℕ → List ℕ → List ℕ
copy_into [] from bytes = []
copy_into (x ∷ xs) (suc from) bytes = x ∷ copy_into xs from bytes
copy_into (x ∷ xs) zero [] = x ∷ xs
copy_into (x ∷ xs) zero (b ∷ bytes) = b ∷ copy_into xs zero bytes

pub length-copy_into :
    (buf : List ℕ) (from : ℕ) (bytes : List ℕ) → length (copy_into buf from bytes) ≡ length buf
unfolding copy_into
length-copy_into [] from bytes = refl
length-copy_into (x ∷ xs) (suc from) bytes = ap suc (length-copy_into xs from bytes)
length-copy_into (x ∷ xs) zero [] = refl
length-copy_into (x ∷ xs) zero (b ∷ bytes) = ap suc (length-copy_into xs zero bytes)

pub get_or-copy_into :
    (buf : List ℕ) (from : ℕ) (bytes : List ℕ) (i d : ℕ)
    → i < length buf
    → get_or (copy_into buf from bytes) i d ≡ (
        if leb from i && ltb i (from + length bytes)
        then get_or bytes (i - from) d
        else get_or buf i d)
unfolding copy_into
get_or-copy_into [] from bytes i d h = absurd (omega arith)
get_or-copy_into (x ∷ xs) (suc from) bytes zero d h = ground arith
get_or-copy_into (x ∷ xs) (suc from) bytes (suc i) d h =
    let e : suc i - suc from ≡ i - from = omega arith in
    rw e (ground (arith, get_or-copy_into xs from bytes i d))
get_or-copy_into (x ∷ xs) zero [] i d h = ground arith
get_or-copy_into (x ∷ xs) zero (b ∷ bytes) zero d h = ground arith
get_or-copy_into (x ∷ xs) zero (b ∷ bytes) (suc i) d h =
    let e : suc i - 0 ≡ suc (i - 0) = omega arith in
    rw e (ground (arith, get_or-copy_into xs zero bytes i d))

-- The list of the first `n` values of a function.
unfoldable pub tabulate : (ℕ → ℕ) → ℕ → List ℕ
tabulate f zero = []
tabulate f (suc n) = f 0 ∷ tabulate (λ i. f (suc i)) n

pub length-tabulate : (f : ℕ → ℕ) (n : ℕ) → length (tabulate f n) ≡ n
unfolding tabulate
length-tabulate f zero = refl
length-tabulate f (suc n) = ap suc (length-tabulate (λ i. f (suc i)) n)

pub get_or-tabulate : (f : ℕ → ℕ) (n i d : ℕ) → i < n → get_or (tabulate f n) i d ≡ f i
unfolding tabulate
get_or-tabulate f zero i d h = elim h [ ]
get_or-tabulate f (suc n) zero d h = refl
get_or-tabulate f (suc n) (suc i) d h = get_or-tabulate (λ k. f (suc k)) n i d (omega arith)

-- `bytes.Equal`
abbrev pub bytes_eq : List ℕ → List ℕ → Bool
bytes_eq [] [] = true
bytes_eq [] (y ∷ ys) = false
bytes_eq (x ∷ xs) [] = false
bytes_eq (x ∷ xs) (y ∷ ys) = (x == y) && bytes_eq xs ys

pub bytes_eq_sound : (xs ys : List ℕ) → bytes_eq xs ys ≡ true → xs ≡ ys
bytes_eq_sound [] [] h = refl
bytes_eq_sound [] (y ∷ ys) h = absurd cc
bytes_eq_sound (x ∷ xs) [] h = absurd cc
bytes_eq_sound (x ∷ xs) (y ∷ ys) h = elim (Bool-cases (x == y)) [
  | inl e ↦ rw ((==_iff x y).0 e, bytes_eq_sound xs ys (rw e at h)) refl
  | inr e ↦ absurd (cc (rw e at h))
]

pub bytes_eq_refl : (xs : List ℕ) → bytes_eq xs xs ≡ true
bytes_eq_refl [] = refl
bytes_eq_refl (x ∷ xs) = rw ((==_iff x x).1 refl, bytes_eq_refl xs) refl
