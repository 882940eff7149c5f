-- ===== src/Extents/Count.antt =====
-- Counting the blocks of a set below a bound.
use satchel.Base.{
  ℕ, zero, suc, ◌+◌, ◌≤◌, ◌<◌, ◌≡◌, refl, ◌∙◌, Bool, ◌||◌, List, [], ◌∷◌, arith, if◌then◌else◌, inl,
  inr, lt_or_ge, min,
}
use satchel.Extents.{Extent}
use satchel.Extents.Sets.{has, covers, Ordered, covers-ge, total_blocks}

-- The sum of `f` over the numbers below `n`.
unfoldable pub sum : (ℕ → ℕ) → ℕ → ℕ
sum f zero = 0
sum f (suc n) = sum f n + f n

pub sum_add : (f g : ℕ → ℕ) (n : ℕ) → sum (λ b. f b + g b) n ≡ sum f n + sum g n
unfolding sum
sum_add f g zero = refl
sum_add f g (suc n) = omega (arith, sum_add f g n)

pub sum_congr : (f g : ℕ → ℕ) (n : ℕ) → ((b : ℕ) → f b ≡ g b) → sum f n ≡ sum g n
unfolding sum
sum_congr f g zero h = refl
sum_congr f g (suc n) h = omega (arith, sum_congr f g n h, h n)

pub sum_mono : (f g : ℕ → ℕ) (n : ℕ) → ((b : ℕ) → g b ≤ f b) → sum g n ≤ sum f n
unfolding sum
sum_mono f g zero h = omega arith
sum_mono f g (suc n) h = omega (arith, sum_mono f g n h, h n)

-- Where one function is nowhere above another and has the same sum, they are equal.
pub sum_tight :
    (f g : ℕ → ℕ) (n : ℕ) → ((b : ℕ) → g b ≤ f b) → sum f n ≡ sum g n → (b : ℕ) → b < n → f b ≡ g b
unfolding sum
sum_tight f g zero h e b l = absurd (omega arith)
sum_tight f g (suc n) h e b l = elim (lt_or_ge b n) [
  | inl k ↦ sum_tight f g n h (omega (arith, sum_mono f g n h, h n)) b k
  | inr k ↦ let q : b ≡ n = omega arith in rw q (omega (arith, sum_mono f g n h, h n))
]

abbrev pub bit : Bool → ℕ
bit t = if t then 1 else 0

sum-has_lem :
    (e : Extent) (n : ℕ) → sum (λ b. bit (has e b)) n + min n e.start ≡ min n (e.start + e.blocks)
unfolding sum
sum-has_lem e zero = ground arith
sum-has_lem e (suc n) = ground (arith, sum-has_lem e n)

pub sum_nothing : (n : ℕ) → sum (λ b. 0) n ≡ 0
unfolding sum
sum_nothing zero = refl
sum_nothing (suc n) = omega (arith, sum_nothing n)

pub sum-covers :
    (lo hi : ℕ) (es : List Extent)
    → Ordered lo hi es
    → sum (λ b. bit (covers es b)) hi ≡ total_blocks es
sum-covers lo hi [] h = sum_nothing hi
sum-covers lo hi (e ∷ es) h =
    sum_congr (λ b. bit (has e b || covers es b)) (λ b. bit (has e b) + bit (covers es b)) hi apart
    ∙ sum_add (λ b. bit (has e b)) (λ b. bit (covers es b)) hi
    ∙ omega (arith, sum-has_lem e hi, sum-covers (e.start + e.blocks) hi es h.3, h.2)
  where
    apart : (b : ℕ) → bit (has e b || covers es b) ≡ bit (has e b) + bit (covers es b)
    apart b = ground (arith, covers-ge (e.start + e.blocks) hi es b h.3)
