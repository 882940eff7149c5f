-- ===== src/Journal/Format/Sort.antt =====
-- `sortedBlocks`: the blocks of a generation in the order in which a record holds them.
use satchel.Base.{
  ℕ, ◌+◌, ◌≤◌, ◌<◌, ◌≡◌, refl, ◌∙◌, arith, true, [], ◌∷◌, ltb, ◌==◌, if◌then◌else◌, length, none,
  some, Bool-cases, inl, inr,
}
use satchel.Base.Assoc.{lookup, Unique}
use satchel.Device.{Block, Blocks, block_size}
use satchel.Journal.{whole_blocks}
use satchel.Journal.Format.{place_block, sort_blocks}

-- The blocks go up, from `low` on.
abbrev pub Sorted : ℕ → Blocks → Type 0
Sorted low [] = Unit
Sorted low ((b, buf) ∷ m) = (low ≤ b) × Sorted (b + 1) m

abbrev pub Below : ℕ → Blocks → Type 0
Below bound [] = Unit
Below bound ((b, buf) ∷ m) = (b < bound) × Below bound m

place_block-Sorted :
    (b low : ℕ) (buf : Block) (m : Blocks)
    → low ≤ b
    → lookup b m ≡ none
    → Sorted low m
    → Sorted low (place_block b buf m)
unfolding place_block lookup
place_block-Sorted b low buf [] l n s = (l, tt)
place_block-Sorted b low buf ((k, held) ∷ m) l n s = elim (Bool-cases (ltb b k)) [
  | inl t ↦ rw t (l, (ground (arith, t), s.1))
  | inr t ↦ elim (Bool-cases (k == b)) [
    | inl e ↦ absurd (cc (rw e at n))
    | inr e ↦ rw t (s.0, place_block-Sorted b (k + 1) buf m (ground (arith, t, e)) (rw e at n) s.1)
  ]
]

lookup-place_block :
    (b k : ℕ) (buf : Block) (m : Blocks)
    → lookup b m ≡ none
    → lookup k (place_block b buf m) ≡ (if b == k then some buf else lookup k m)
unfolding place_block lookup
lookup-place_block b k buf [] n = refl
lookup-place_block b k buf ((j, held) ∷ m) n = elim (Bool-cases (ltb b j)) [
  | inl t ↦ rw t refl
  | inr t ↦ elim (Bool-cases (j == b)) [
    | inl e ↦ absurd (cc (rw e at n))
    | inr e ↦ ground (arith, t, e, lookup-place_block b k buf m (rw e at n))
  ]
]

length-place_block :
    (b : ℕ) (buf : Block) (m : Blocks) → length (place_block b buf m) ≡ length m + 1
unfolding place_block
length-place_block b buf [] = refl
length-place_block b buf ((k, held) ∷ m) = ground (arith, length-place_block b buf m)

whole_blocks-place_block :
    (b : ℕ) (buf : Block) (m : Blocks)
    → (length buf == block_size) ≡ true
    → whole_blocks m ≡ true
    → whole_blocks (place_block b buf m) ≡ true
unfolding place_block
whole_blocks-place_block b buf [] w h = rw w refl
whole_blocks-place_block b buf ((k, held) ∷ m) w h = elim (Bool-cases (ltb b k)) [
  | inl t ↦ rw (t, w) h
  | inr t ↦ elim (Bool-cases (length held == block_size)) [
    | inl v ↦ rw (t, v) (whole_blocks-place_block b buf m w (rw v at h))
    | inr v ↦ absurd (cc (rw v at h))
  ]
]

place_block-Below :
    (b bound : ℕ) (buf : Block) (m : Blocks)
    → b < bound
    → Below bound m
    → Below bound (place_block b buf m)
unfolding place_block
place_block-Below b bound buf [] l h = (l, tt)
place_block-Below b bound buf ((k, held) ∷ m) l h = elim (Bool-cases (ltb b k)) [
  | inl t ↦ rw t (l, h)
  | inr t ↦ rw t (h.0, place_block-Below b bound buf m l h.1)
]

pub lookup-sort_blocks : (k : ℕ) (m : Blocks) → Unique m → lookup k (sort_blocks m) ≡ lookup k m
unfolding sort_blocks lookup
lookup-sort_blocks k [] u = refl
lookup-sort_blocks k ((b, buf) ∷ m) u =
    lookup-place_block b k buf (sort_blocks m) (lookup-sort_blocks b m u.1 ∙ u.0)
    ∙ rw (lookup-sort_blocks k m u.1) refl

pub sort_blocks-Sorted : (m : Blocks) → Unique m → Sorted 0 (sort_blocks m)
unfolding sort_blocks
sort_blocks-Sorted [] u = tt
sort_blocks-Sorted ((b, buf) ∷ m) u =
    place_block-Sorted b 0 buf (sort_blocks m) (omega arith) (lookup-sort_blocks b m u.1 ∙ u.0)
      (sort_blocks-Sorted m u.1)

pub length-sort_blocks : (m : Blocks) → length (sort_blocks m) ≡ length m
unfolding sort_blocks
length-sort_blocks [] = refl
length-sort_blocks ((b, buf) ∷ m) =
    omega (arith, length-place_block b buf (sort_blocks m), length-sort_blocks m)

pub whole_blocks-sort_blocks :
    (m : Blocks) → whole_blocks m ≡ true → whole_blocks (sort_blocks m) ≡ true
unfolding sort_blocks
whole_blocks-sort_blocks [] h = refl
whole_blocks-sort_blocks ((b, buf) ∷ m) h = elim (Bool-cases (length buf == block_size)) [
  | inl w ↦
      whole_blocks-place_block b buf (sort_blocks m) w (whole_blocks-sort_blocks m (rw w at h))
  | inr w ↦ absurd (cc (rw w at h))
]

pub sort_blocks-Below : (bound : ℕ) (m : Blocks) → Below bound m → Below bound (sort_blocks m)
unfolding sort_blocks
sort_blocks-Below bound [] h = tt
sort_blocks-Below bound ((b, buf) ∷ m) h =
    place_block-Below b bound buf (sort_blocks m) h.0 (sort_blocks-Below bound m h.1)
