-- ===== src/Extents/Subtract/Order.antt =====
-- The order of the result of `subtractExtents`.
use satchel.Base.{
  ℕ, ◌+◌, ◌-◌, ◌≤◌, ◌<◌, ◌≡◌, List, [], ◌∷◌, ◌++◌, arith, ltb, leb, u64_mod, Bool-cases, inl, inr,
  min, max, drop, length,
}
use satchel.Extents.{
  Extent, end, skip_ended, sort_search, ends_after, piece, carve, subtract_from, subtract_extents,
}
use satchel.Extents.Subtract.{skip_ended-Ordered, drop-Ordered}
use satchel.Extents.Sets.{Ordered, Ordered-lower, Ordered-append}

piece-Ordered : (from stop : ℕ) → from ≤ stop → Ordered from stop (piece from stop)
unfolding piece
piece-Ordered from stop h = ground arith

piece-Ordered_append :
    (from stop next hi : ℕ) (ys : List Extent)
    → from ≤ next
    → stop ≤ next
    → next ≤ hi
    → Ordered next hi ys
    → Ordered from hi (piece from stop ++ ys)
unfolding piece
piece-Ordered_append from stop next hi ys l m n h = elim (Bool-cases (ltb from stop)) [
  | inl e ↦ rw e (
    omega arith,
    ground arith,
    ground arith,
    Ordered-lower next (from + (stop - from)) hi ys (ground arith) h,
  )
  | inr e ↦ rw e (Ordered-lower next from hi ys l h)
]

piece-none : (from stop : ℕ) → stop ≤ from → piece from stop ≡ []
unfolding piece
piece-none from stop h = ground arith

carve-Ordered :
    (stop cursor lo hi : ℕ) (rs : List Extent)
    → Ordered lo hi rs
    → hi < u64_mod
    → cursor ≤ stop
    → Ordered cursor stop (carve stop cursor rs)
unfolding carve
carve-Ordered stop cursor lo hi [] h w l = piece-Ordered cursor stop l
carve-Ordered stop cursor lo hi (r ∷ rs) h w l = elim (Bool-cases (ltb r.start stop)) [
  | inr e ↦ rw e (piece-Ordered cursor stop l)
  | inl e ↦ rw e (elim (Bool-cases (leb stop (max (end r) cursor))) [
    | inl c ↦
        rw (c, piece-none (max (end r) cursor) stop (ground arith))
          (piece-Ordered_append cursor (min stop r.start) stop stop [] l (omega arith) (omega arith)
            tt)
    | inr c ↦ rw c (
        piece-Ordered_append cursor (min stop r.start) (max (end r) cursor) stop
          (carve stop (max (end r) cursor) rs) (omega arith) (omega arith) (ground arith)
          (carve-Ordered stop (max (end r) cursor) (r.start + r.blocks) hi rs h.3 w (ground arith)))
  ])
]

subtract_from-Ordered :
    (lo hi lo' hi' : ℕ) (es rs : List Extent)
    → Ordered lo hi es
    → Ordered lo' hi' rs
    → hi < u64_mod
    → hi' < u64_mod
    → Ordered lo hi (subtract_from rs es)
unfolding subtract_from
subtract_from-Ordered lo hi lo' hi' [] rs h k w w' = tt
subtract_from-Ordered lo hi lo' hi' (e ∷ es) rs h k w w' =
    let rs' = skip_ended e.start rs in
    let k' = skip_ended-Ordered e.start lo' hi' rs k in
    Ordered-lower e.start lo hi (carve (end e) e.start rs' ++ subtract_from rs' es) h.0 (
      Ordered-append e.start (end e) hi (carve (end e) e.start rs') (subtract_from rs' es)
        (omega arith) (omega arith) (carve-Ordered (end e) e.start lo' hi' rs' k' w' (omega arith))
        (Ordered-lower (e.start + e.blocks) (end e) hi (subtract_from rs' es) (omega arith)
          (subtract_from-Ordered (e.start + e.blocks) hi lo' hi' es rs' h.3 k' w w')))

-- `subtractExtents` of ordered arguments is ordered, within the bounds of its first argument.
pub subtract_extents-Ordered :
    (lo hi lo' hi' : ℕ) (es rs : List Extent)
    → Ordered lo hi es
    → Ordered lo' hi' rs
    → hi < u64_mod
    → hi' < u64_mod
    → Ordered lo hi (subtract_extents es rs)
unfolding subtract_extents
subtract_extents-Ordered lo hi lo' hi' [] rs h k w w' = tt
subtract_extents-Ordered lo hi lo' hi' (e ∷ es) [] h k w w' = h
subtract_extents-Ordered lo hi lo' hi' (e ∷ es) (r ∷ rs) h k w w' =
    let from = sort_search (length (r ∷ rs)) (ends_after (r ∷ rs) e.start) in
    subtract_from-Ordered lo hi lo' hi' (e ∷ es) (drop from (r ∷ rs)) h
      (drop-Ordered lo' hi' from (r ∷ rs) k) w w'
