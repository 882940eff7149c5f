-- ===== src/Base/Binary.antt =====
-- encoding/binary in big-endian order, and `io.ReadFull` from a byte slice.
use Prim.Native.Nat.{ℕ, zero, suc, ◌+◌, ◌*◌, ◌/◌, ◌%◌, ◌<◌}
use mathlib.Core.Path.{◌≡◌, refl, ap}
use mathlib.Core.Option.{Option, none, some}
use mathlib.Core.List.{List, [], ◌∷◌, ◌++◌}
use native.Mathlib.Omega.{arith}
use satchel.Base.Lists.{length, take, drop, length-append}
use satchel.Base.Bytes.{slice}

-- The last `count` bytes of a number, the highest first.
unfoldable pub big_endian : ℕ → ℕ → List ℕ
big_endian zero n = []
big_endian (suc count) n = big_endian count (n / 256) ++ (n % 256 ∷ [])

unfoldable pub number_from : ℕ → List ℕ → ℕ
number_from acc [] = acc
number_from acc (b ∷ bytes) = number_from (acc * 256 + b) bytes

unfoldable pub number_of : List ℕ → ℕ
unfolding number_from
number_of bytes = number_from 0 bytes

pub length-big_endian : (count n : ℕ) → length (big_endian count n) ≡ count
unfolding big_endian
length-big_endian zero n = refl
length-big_endian (suc count) n = omega (
  arith,
  length-append (big_endian count (n / 256)) (n % 256 ∷ []),
  length-big_endian count (n / 256),
)

number_from-snoc :
    (acc b : ℕ) (bytes : List ℕ)
    → number_from acc (bytes ++ (b ∷ [])) ≡ number_from acc bytes * 256 + b
unfolding number_from
number_from-snoc acc b [] = refl
number_from-snoc acc b (x ∷ bytes) = number_from-snoc (acc * 256 + x) b bytes

-- 256 to the power of `count`.
abbrev pub scale : ℕ → ℕ
scale zero = 1
scale (suc count) = 256 * scale count

pub number_of-big_endian : (count n : ℕ) → n < scale count → number_of (big_endian count n) ≡ n
unfolding number_of big_endian
number_of-big_endian zero n h = omega (arith, h)
number_of-big_endian (suc count) n h = omega (
  arith,
  h,
  number_from-snoc 0 (n % 256) (big_endian count (n / 256)),
  number_of-big_endian count (n / 256) (omega (arith, h)),
)

-- `io.ReadFull`: the bytes and the rest; none is the end of the input, before them or within them.
unfoldable pub read : ℕ → List ℕ → Option (List ℕ × List ℕ)
read zero bytes = some ([], bytes)
read (suc count) [] = none
read (suc count) (b ∷ bytes) = elim (read count bytes) [
  | none ↦ none
  | some (found, rest) ↦ some (b ∷ found, rest)
]

pub read-append : (bytes rest : List ℕ) → read (length bytes) (bytes ++ rest) ≡ some (bytes, rest)
unfolding read
read-append [] rest = refl
read-append (b ∷ bytes) rest = rw (read-append bytes rest) refl

pub read_short : (count : ℕ) (bytes : List ℕ) → length bytes < count → read count bytes ≡ none
unfolding read
read_short zero bytes h = absurd (omega (arith, h))
read_short (suc count) [] h = refl
read_short (suc count) (b ∷ bytes) h = rw (read_short count bytes (omega (arith, h))) refl

pub read_exact :
    (count : ℕ) (bytes rest : List ℕ)
    → length bytes ≡ count
    → read count (bytes ++ rest) ≡ some (bytes, rest)
read_exact count bytes rest h = rw (← h) (read-append bytes rest)

take_exact : (count : ℕ) (xs ys : List ℕ) → length xs ≡ count → take count (xs ++ ys) ≡ xs
take_exact zero [] ys h = refl
take_exact zero (x ∷ xs) ys h = absurd (omega (arith, h))
take_exact (suc count) [] ys h = absurd (omega (arith, h))
take_exact (suc count) (x ∷ xs) ys h = ap (λ l. x ∷ l) (take_exact count xs ys (omega (arith, h)))

drop_exact : (count : ℕ) (xs ys : List ℕ) → length xs ≡ count → drop count (xs ++ ys) ≡ ys
drop_exact zero [] ys h = refl
drop_exact zero (x ∷ xs) ys h = absurd (omega (arith, h))
drop_exact (suc count) [] ys h = absurd (omega (arith, h))
drop_exact (suc count) (x ∷ xs) ys h = drop_exact count xs ys (omega (arith, h))

-- A part of a slice that is put together of three.
pub slice_exact :
    (from stop : ℕ) (before part after : List ℕ)
    → length before ≡ from
    → length part + from ≡ stop
    → slice (before ++ (part ++ after)) from stop ≡ part
slice_exact from stop before part after h k =
    rw (drop_exact from before (part ++ after) h) (take_exact _ part after (omega (arith, k)))

-- What is left of two parts when the end is cut off.
pub take_past : (n k : ℕ) (xs ys : List ℕ) → n ≡ length xs + k → take n (xs ++ ys) ≡ xs ++ take k ys
take_past n k [] ys h = ap (λ j. take j ys) (omega (arith, h))
take_past zero k (x ∷ xs) ys h = absurd (omega (arith, h))
take_past (suc n) k (x ∷ xs) ys h = ap (λ l. x ∷ l) (take_past n k xs ys (omega (arith, h)))

pub drop_past : (n k : ℕ) (xs ys : List ℕ) → n ≡ length xs + k → drop n (xs ++ ys) ≡ drop k ys
drop_past n k [] ys h = ap (λ j. drop j ys) (omega (arith, h))
drop_past zero k (x ∷ xs) ys h = absurd (omega (arith, h))
drop_past (suc n) k (x ∷ xs) ys h = drop_past n k xs ys (omega (arith, h))
