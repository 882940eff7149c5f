-- ===== src/Extents/Union.antt =====
-- `normalizeExtents` and `unionExtents` as sets of blocks, and the order of their results.
use satchel.Base.{
  ℕ, ◌+◌, ◌≤◌, ◌<◌, ◌≡◌, refl, ap, sym, ◌∙◌, Bool, true, false, ◌||◌, List, [], ◌∷◌, arith, leb,
  u64_mod, Bool-cases, inl, inr,
}
use satchel.Extents.{
  Extent, append_extent, before, insert_extent, sort_extents, append_all, normalize_extents,
  merge_extents, union_extents,
}
use satchel.Extents.Sets.{
  has, covers, Ordered, Separated, Separated-Ordered, Ordered-Sorted, Ordered-Within, Within,
  Sorted, or_assoc,
}

-- Every start is at most `n`.
abbrev StartsBy : ℕ → List Extent → Type 0
StartsBy n [] = Unit
StartsBy n (e ∷ es) = (e.start ≤ n) × StartsBy n es

StartsBy-upper : (n m : ℕ) (es : List Extent) → n ≤ m → StartsBy n es → StartsBy m es
StartsBy-upper n m [] l h = tt
StartsBy-upper n m (e ∷ es) l h = (omega arith, StartsBy-upper n m es l h.1)

covers-append_extent :
    (lo hi : ℕ) (ls : List Extent) (e : Extent) (b : ℕ)
    → Separated lo hi ls
    → StartsBy e.start ls
    → hi < u64_mod
    → e.start + e.blocks ≤ hi
    → covers (append_extent ls e) b ≡ (covers ls b || has e b)
unfolding append_extent
covers-append_extent lo hi [] e b h s w f = ground arith
covers-append_extent lo hi (l ∷ []) e b h s w f = ground arith
covers-append_extent lo hi (l ∷ m ∷ ls) e b h s w f = ground (
  arith,
  covers-append_extent (l.start + l.blocks + 1) hi (m ∷ ls) e b h.3 s.1 w f,
  or_assoc (has l b) (covers (m ∷ ls) b) (has e b),
)

append_extent-Separated :
    (lo hi : ℕ) (ls : List Extent) (e : Extent)
    → Separated lo hi ls
    → StartsBy e.start ls
    → lo ≤ e.start
    → hi < u64_mod
    → e.start + e.blocks ≤ hi
    → Separated lo hi (append_extent ls e)
unfolding append_extent
append_extent-Separated lo hi [] e h s l w f = ground arith
append_extent-Separated lo hi (l₀ ∷ []) e h s l w f = ground arith
append_extent-Separated lo hi (l₀ ∷ m ∷ ls) e h s l w f = (
  h.0,
  h.1,
  h.2,
  append_extent-Separated (l₀.start + l₀.blocks + 1) hi (m ∷ ls) e h.3 s.1 (omega arith) w f,
)

append_extent-StartsBy :
    (ls : List Extent) (e : Extent) (n : ℕ)
    → StartsBy n ls
    → e.start ≤ n
    → StartsBy n (append_extent ls e)
unfolding append_extent
append_extent-StartsBy [] e n s l = ground arith
append_extent-StartsBy (l₀ ∷ []) e n s l = ground arith
append_extent-StartsBy (l₀ ∷ m ∷ ls) e n s l = (s.0, append_extent-StartsBy (m ∷ ls) e n s.1 l)

append_all-Separated :
    (lo hi n : ℕ) (result es : List Extent)
    → Separated lo hi result
    → StartsBy n result
    → Sorted n es
    → lo ≤ n
    → Within hi es
    → hi < u64_mod
    → Separated lo hi (append_all result es)
unfolding append_all
append_all-Separated lo hi n result [] h s o l f w = h
append_all-Separated lo hi n result (e ∷ es) h s o l f w =
    let s' = StartsBy-upper n e.start result o.0 s in
    append_all-Separated lo hi e.start (append_extent result e) es
      (append_extent-Separated lo hi result e h s' (omega arith) w f.0)
      (append_extent-StartsBy result e e.start s' (omega arith)) o.1 (omega arith) f.1 w

covers-append_all :
    (lo hi n : ℕ) (result es : List Extent) (b : ℕ)
    → Separated lo hi result
    → StartsBy n result
    → Sorted n es
    → lo ≤ n
    → Within hi es
    → hi < u64_mod
    → covers (append_all result es) b ≡ (covers result b || covers es b)
unfolding append_all
covers-append_all lo hi n result [] b h s o l f w = ground arith
covers-append_all lo hi n result (e ∷ es) b h s o l f w =
    let s' = StartsBy-upper n e.start result o.0 s in
    covers-append_all lo hi e.start (append_extent result e) es b
      (append_extent-Separated lo hi result e h s' (omega arith) w f.0)
      (append_extent-StartsBy result e e.start s' (omega arith)) o.1 (omega arith) f.1 w
    ∙ (rw (covers-append_extent lo hi result e b h s' w f.0)
        (or_assoc (covers result b) (has e b) (covers es b)))

or_left_comm : (a b c : Bool) → (a || (b || c)) ≡ (b || (a || c))
or_left_comm true true c = refl
or_left_comm true false c = refl
or_left_comm false b c = refl

covers-insert_extent :
    (e : Extent) (xs : List Extent) (b : ℕ)
    → covers (insert_extent e xs) b ≡ (has e b || covers xs b)
unfolding insert_extent
covers-insert_extent e [] b = refl
covers-insert_extent e (x ∷ xs) b = elim (Bool-cases (before e x)) [
  | inl t ↦ rw t
  | inr t ↦ rw (t, covers-insert_extent e xs b) (or_left_comm (has x b) (has e b) (covers xs b))
]

insert_extent-Sorted :
    (lo : ℕ) (e : Extent) (xs : List Extent)
    → lo ≤ e.start
    → Sorted lo xs
    → Sorted lo (insert_extent e xs)
unfolding insert_extent
insert_extent-Sorted lo e [] l h = (l, tt)
insert_extent-Sorted lo e (x ∷ xs) l h = elim (Bool-cases (before e x)) [
  | inl t ↦ rw t (l, (ground arith, h.1))
  | inr t ↦ rw t (h.0, insert_extent-Sorted x.start e xs (ground arith) h.1)
]

insert_extent-Within :
    (hi : ℕ) (e : Extent) (xs : List Extent)
    → e.start + e.blocks ≤ hi
    → Within hi xs
    → Within hi (insert_extent e xs)
unfolding insert_extent
insert_extent-Within hi e [] l h = (l, tt)
insert_extent-Within hi e (x ∷ xs) l h = elim (Bool-cases (before e x)) [
  | inl t ↦ rw t (l, (h.0, h.1))
  | inr t ↦ rw t (h.0, insert_extent-Within hi e xs l h.1)
]

module _ (hi : ℕ) where
  sort_extents_lem :
      (es : List Extent)
      → Within hi es
      → Sorted 0 (sort_extents es)
        × Within hi (sort_extents es)
        × ((b : ℕ) → covers (sort_extents es) b ≡ covers es b)
  unfolding sort_extents
  sort_extents_lem [] f = (tt, tt, λ b. refl)
  sort_extents_lem (e ∷ es) f =
      let (o, g, c) = sort_extents_lem es f.1 in
      (
        insert_extent-Sorted 0 e (sort_extents es) (omega arith) o,
        insert_extent-Within hi e (sort_extents es) f.0 g,
        λ b. rw (covers-insert_extent e (sort_extents es) b, c b),
      )

  -- `normalizeExtents` gives sorted extents that do not touch, and keeps the set of blocks, for
  -- extents in any order that do not pass the bound.
  pub normalize_extents_lem :
      (es : List Extent)
      → Within hi es
      → hi < u64_mod
      → Separated 0 hi (normalize_extents es)
        × ((b : ℕ) → covers (normalize_extents es) b ≡ covers es b)
  unfolding normalize_extents
  normalize_extents_lem es f w =
      let (o, g, c) = sort_extents_lem es f in
      (
        append_all-Separated 0 hi 0 [] (sort_extents es) tt tt o (omega arith) g w,
        λ b. covers-append_all 0 hi 0 [] (sort_extents es) b tt tt o (omega arith) g w ∙ c b,
      )

  merge_extents_lem :
      (lo : ℕ) (ls rs : List Extent)
      → Sorted lo ls
      → Sorted lo rs
      → Within hi ls
      → Within hi rs
      → Sorted lo (merge_extents ls rs)
        × Within hi (merge_extents ls rs)
        × ((b : ℕ) → covers (merge_extents ls rs) b ≡ (covers ls b || covers rs b))
  unfolding merge_extents
  merge_extents_lem lo [] rs o p f g = (p, g, λ b. refl)
  merge_extents_lem lo (l ∷ ls) [] o p f g = (o, f, λ b. ground arith)
  merge_extents_lem lo (l ∷ ls) (r ∷ rs) o p f g = elim (Bool-cases (leb l.start r.start)) [
    | inl t ↦ rw t (
        let (q, k, c) = merge_extents_lem l.start ls (r ∷ rs) o.1 (ground arith, p.1) f.1 g in
        (
          (o.0, q),
          (f.0, k),
          λ b. rw (c b) (sym (or_assoc (has l b) (covers ls b) (covers (r ∷ rs) b))),
        ))
    | inr t ↦ rw t (
        let (q, k, c) = merge_extents_lem r.start (l ∷ ls) rs (ground arith, o.1) p.1 f g.1 in
        (
          (p.0, q),
          (g.0, k),
          λ b. rw (c b) (or_left_comm (has r b) (covers (l ∷ ls) b) (covers rs b)),
        ))
  ]

  -- `unionExtents` of an ordered set and any extents gives sorted extents that do not touch, and
  -- covers exactly the blocks of either.
  pub union_extents_lem :
      (left right : List Extent)
      → Ordered 0 hi left
      → Within hi right
      → hi < u64_mod
      → Separated 0 hi (union_extents left right)
        × ((b : ℕ) → covers (union_extents left right) b ≡ (covers left b || covers right b))
  unfolding union_extents
  union_extents_lem left right o f w =
      let (s, c) = normalize_extents_lem right f w in
      let n = Separated-Ordered 0 hi (normalize_extents right) s in
      let (q, k, d) =
        merge_extents_lem 0 left (normalize_extents right) (Ordered-Sorted 0 hi left o)
          (Ordered-Sorted 0 hi (normalize_extents right) n) (Ordered-Within 0 hi left o)
          (Ordered-Within 0 hi (normalize_extents right) n) in
      (
        append_all-Separated 0 hi 0 [] (merge_extents left (normalize_extents right)) tt tt q
            (omega arith) k w,
        λ b.
            covers-append_all 0 hi 0 [] (merge_extents left (normalize_extents right)) b tt tt q
              (omega arith) k w
            ∙ (d b ∙ ap (λ t. covers left b || t) (c b)),
      )
