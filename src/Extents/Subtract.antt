-- ===== src/Extents/Subtract.antt =====
-- `subtractExtents` as a set of blocks.
pub mod Order
use satchel.Base.{
  ℕ, zero, suc, ◌+◌, ◌-◌, ◌/◌, ◌≤◌, ◌<◌, ◌≡◌, refl, ◌⊎◌, Bool, true, false, not, ◌&&◌, ◌||◌, List,
  [], ◌∷◌, ◌++◌, arith, ltb, leb, u64_mod, Bool-cases, inl, inr, min, max, drop, length,
  if◌then◌else◌,
}
use satchel.Extents.{
  Extent, end, skip_ended, search_from, sort_search, ends_after, piece, carve, subtract_from,
  subtract_extents,
}
use satchel.Extents.Sets.{
  has, covers, covers-append, Ordered, Ordered-lower, Ordered-upper, Ordered-Within, covers-below,
  covers-ge,
}

-- What is passed over covers no block from the cursor on.
pub covers-skip_ended :
    (cursor lo hi : ℕ) (rs : List Extent) (b : ℕ)
    → Ordered lo hi rs
    → hi < u64_mod
    → cursor ≤ b
    → covers (skip_ended cursor rs) b ≡ covers rs b
unfolding skip_ended
covers-skip_ended cursor lo hi [] b h w l = refl
covers-skip_ended cursor lo hi (r ∷ rs) b h w l =
    ground (arith, covers-skip_ended cursor (r.start + r.blocks) hi rs b h.3)

pub skip_ended-Ordered :
    (cursor lo hi : ℕ) (rs : List Extent) → Ordered lo hi rs → Ordered lo hi (skip_ended cursor rs)
unfolding skip_ended
skip_ended-Ordered cursor lo hi [] h = tt
skip_ended-Ordered cursor lo hi (r ∷ rs) h = elim (Bool-cases (leb (end r) cursor)) [
  | inl e ↦ rw e (
      Ordered-lower (r.start + r.blocks) lo hi (skip_ended cursor rs) (omega arith)
        (skip_ended-Ordered cursor (r.start + r.blocks) hi rs h.3))
  | inr e ↦ rw e h
]

pub covers-piece : (from stop b : ℕ) → covers (piece from stop) b ≡ (leb from b && ltb b stop)
unfolding piece
covers-piece from stop b = ground arith

-- One round of `carve`, by what it leaves to the next: `left` says that the rest covers `b`.
module _ (stop cursor b : ℕ) (r : Extent) (left : Bool) (fits : r.start + r.blocks < u64_mod) where
  round_covers :
      (left ≡ true → r.start + r.blocks ≤ b)
      → (if ltb r.start stop
          then (leb cursor b && ltb b (min stop r.start))
            || (if leb stop (max (end r) cursor)
                then leb (max (end r) cursor) b && ltb b stop
                else leb (max (end r) cursor) b && ltb b stop && not left)
          else leb cursor b && ltb b stop)
        ≡ (leb cursor b && ltb b stop && not (has r b || left))
  round_covers h = ground arith

covers-if :
    (t : Bool) (xs ys : List Extent) (b : ℕ)
    → covers (if t then xs else ys) b ≡ (if t then covers xs b else covers ys b)
covers-if true xs ys b = refl
covers-if false xs ys b = refl

covers-carve :
    (stop cursor lo hi : ℕ) (rs : List Extent) (b : ℕ)
    → Ordered lo hi rs
    → hi < u64_mod
    → covers (carve stop cursor rs) b ≡ (leb cursor b && ltb b stop && not (covers rs b))
unfolding carve
covers-carve stop cursor lo hi [] b h w = ground (arith, covers-piece cursor stop b)
covers-carve stop cursor lo hi (r ∷ rs) b h w =
    simp
      (
        covers-if,
        covers-append,
        covers-piece,
        covers-carve stop (max (end r) cursor) (r.start + r.blocks) hi rs b h.3 w,
      )
      (round_covers stop cursor b r (covers rs b) (omega arith)
        (covers-ge (r.start + r.blocks) hi rs b h.3))

covers-subtract_from :
    (lo hi lo' hi' : ℕ) (es rs : List Extent) (b : ℕ)
    → Ordered lo hi es
    → Ordered lo' hi' rs
    → hi < u64_mod
    → hi' < u64_mod
    → covers (subtract_from rs es) b ≡ (covers es b && not (covers rs b))
unfolding subtract_from
covers-subtract_from lo hi lo' hi' [] rs b h k w w' = refl
covers-subtract_from lo hi lo' hi' (e ∷ es) rs b h k w w' =
    let rs' = skip_ended e.start rs in
    let k' = skip_ended-Ordered e.start lo' hi' rs k in
    simp
      (
        covers-append,
        covers-carve (end e) e.start lo' hi' rs' b k' w',
        covers-subtract_from (e.start + e.blocks) hi lo' hi' es rs' b h.3 k' w w',
      )
      (ground (
        arith,
        covers-skip_ended e.start lo' hi' rs b k w',
        covers-ge (e.start + e.blocks) hi es b h.3,
      ))

-- The result of the binary search: what is just below it fails the test, and it passes the test
-- or is the upper bound. The fuel is enough if it is at least the length of the range.
search_from_lem :
    (fuel : ℕ) (f : ℕ → Bool) (i j : ℕ)
    → i ≤ j
    → j - i ≤ fuel
    → let r = search_from fuel f i j in
      (i ≤ r) × (r ≤ j) × ((r ≡ i) ⊎ (f (r - 1) ≡ false)) × ((r ≡ j) ⊎ (f r ≡ true))
unfolding search_from
search_from_lem zero f i j h l = ground arith
search_from_lem (suc fuel) f i j h l =
    ground
      (arith, search_from_lem fuel f ((i + j) / 2 + 1) j, search_from_lem fuel f i ((i + j) / 2))

ends_after_mono :
    (lo hi start k : ℕ) (rs : List Extent)
    → Ordered lo hi rs
    → hi < u64_mod
    → k < length rs
    → ends_after rs start k ≡ false
    → lo ≤ start
ends_after_mono lo hi start k [] h w l e = absurd (omega arith)
ends_after_mono lo hi start zero (r ∷ rs) h w l e = ground arith
ends_after_mono lo hi start (suc k) (r ∷ rs) h w l e =
    ground (arith, ends_after_mono (r.start + r.blocks) hi start k rs h.3 w)

-- Extents that end at or before `start` may be dropped from the front.
covers-drop :
    (lo hi start k : ℕ) (rs : List Extent) (b : ℕ)
    → Ordered lo hi rs
    → hi < u64_mod
    → k ≤ length rs
    → (k ≡ 0) ⊎ (ends_after rs start (k - 1) ≡ false)
    → start ≤ b
    → covers (drop k rs) b ≡ covers rs b
covers-drop lo hi start zero rs b h w l e s = refl
covers-drop lo hi start (suc k) [] b h w l e s = refl
covers-drop lo hi start (suc zero) (r ∷ rs) b h w l e s = ground arith
covers-drop lo hi start (suc (suc k)) (r ∷ rs) b h w l e s = ground (
  arith,
  covers-drop (r.start + r.blocks) hi start (suc k) rs b h.3 w,
  ends_after_mono (r.start + r.blocks) hi start k rs h.3 w,
)

pub drop-Ordered : (lo hi k : ℕ) (rs : List Extent) → Ordered lo hi rs → Ordered lo hi (drop k rs)
drop-Ordered lo hi zero rs h = h
drop-Ordered lo hi (suc k) [] h = tt
drop-Ordered lo hi (suc k) (r ∷ rs) h =
    drop-Ordered lo hi k rs (Ordered-lower (r.start + r.blocks) lo hi rs (omega arith) h.3)

-- `subtractExtents` keeps exactly the blocks of its first argument that the second lacks, for
-- ordered arguments.
pub covers-subtract_extents :
    (lo hi lo' hi' : ℕ) (es rs : List Extent) (b : ℕ)
    → Ordered lo hi es
    → Ordered lo' hi' rs
    → hi < u64_mod
    → hi' < u64_mod
    → covers (subtract_extents es rs) b ≡ (covers es b && not (covers rs b))
unfolding subtract_extents
covers-subtract_extents lo hi lo' hi' [] rs b h k w w' = refl
covers-subtract_extents lo hi lo' hi' (e ∷ es) [] b h k w w' = ground arith
covers-subtract_extents lo hi lo' hi' (e ∷ es) (r ∷ rs) b h k w w' = ground (
  arith,
  covers-subtract_from lo hi lo' hi' (e ∷ es) (drop from (r ∷ rs)) b h
      (drop-Ordered lo' hi' from (r ∷ rs) k),
  search_from_lem (length (r ∷ rs)) (ends_after (r ∷ rs) e.start) 0 (length (r ∷ rs)),
  covers-drop lo' hi' e.start from (r ∷ rs) b k,
  covers-ge e.start hi (e ∷ es) b,
)
  where
    from : ℕ
    from = sort_search (length (r ∷ rs)) (ends_after (r ∷ rs) e.start)
