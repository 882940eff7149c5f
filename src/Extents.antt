-- ===== src/Extents.antt =====
-- internal/replica/extents.go and the extent part of internal/replica/segment.go: sets of block
-- numbers as lists of extents. uint64 arithmetic wraps.
pub mod Sets
pub mod Validate
pub mod Subtract
pub mod Union
pub mod Contain
pub mod Range
pub mod Count
mod Tests
use satchel.Base.{
  ℕ, zero, suc, ◌+◌, ◌-◌, ◌/◌, min, max, Bool, true, false, ◌&&◌, ◌||◌, List, [], ◌∷◌, ◌++◌, ltb,
  leb, ◌==◌, if◌then◌else◌, u64, u64_mod, length, drop, Result, ok, err, Option, none, some,
}

pub record Extent : Type 0 where
  pub start : ℕ
  pub blocks : ℕ

-- `Extent.end`
abbrev pub end : Extent → ℕ
end e = u64 (e.start + e.blocks)

pub data ExtentError : Type 0 where
  invalid_extent : ℕ → ExtentError
  overlapping count_overflows : ExtentError

-- The loop of `validateExtents`, at index `i`.
validate_from : ℕ → ℕ → ℕ → ℕ → List Extent → Result ExtentError ℕ
validate_from max_blocks i total previous_end [] = ok total
validate_from max_blocks i total previous_end (e ∷ es) =
    if (e.blocks == 0) || (ltb (end e) e.start || ltb max_blocks (end e))
    then err (invalid_extent i)
    else if ltb 0 i && ltb e.start previous_end
    then err overlapping
    else if ltb (u64_mod - 1 - e.blocks) total
    then err count_overflows
    else validate_from max_blocks (i + 1) (u64 (total + e.blocks)) (end e) es

unfoldable pub validate_extents : List Extent → ℕ → Result ExtentError ℕ
unfolding validate_from
validate_extents es max_blocks = validate_from max_blocks 0 0 0 es

-- The inner loop of `extentsContain` that passes over the extents which end at or before `cursor`.
unfoldable pub skip_ended : ℕ → List Extent → List Extent
skip_ended cursor [] = []
skip_ended cursor (e ∷ es) =
    let rest = skip_ended cursor es in if leb (end e) cursor then rest else e ∷ es

-- One round of the loop on `cursor`, the extents that have ended passed over: the rest of the loop
-- is `continue`, and `none` is the answer `false`.
contain_round :
    (List Extent → ℕ → Option (List Extent)) → ℕ → ℕ → List Extent → Option (List Extent)
contain_round continue cursor stop [] = none
contain_round continue cursor stop (e ∷ es) =
    if ltb cursor e.start then none else continue (e ∷ es) (min stop (end e))

-- The loop on `cursor` for a candidate that ends at `stop`: what is left of `outer`, or `none`.
contain_from : ℕ → ℕ → List Extent → ℕ → Option (List Extent)
unfolding contain_round
contain_from zero stop outer cursor = none
contain_from (suc fuel) stop outer cursor =
    let round = contain_round (contain_from fuel stop) cursor stop (skip_ended cursor outer) in
    if ltb cursor stop then round else some outer

-- Each round but the first passes over an extent, and the last one finds the cursor at its end.
abbrev pub contain_fuel : List Extent → ℕ
contain_fuel outer = suc (suc (length outer))

contain_next : (List Extent → Bool) → Option (List Extent) → Bool
contain_next continue none = false
contain_next continue (some rest) = continue rest

contain_all : List Extent → List Extent → Bool
unfolding contain_from contain_next
contain_all outer [] = true
contain_all outer (e ∷ es) =
    contain_next (λ rest. contain_all rest es)
      (contain_from (contain_fuel outer) (end e) outer e.start)

unfoldable pub extents_contain : List Extent → List Extent → Bool
unfolding contain_all
extents_contain outer inner = contain_all outer inner

-- `sort.Search`: the loop with bounds `i` and `j`. Each round halves `j - i`.
search_from : ℕ → (ℕ → Bool) → ℕ → ℕ → ℕ
search_from zero f i j = i
search_from (suc fuel) f i j =
    let h = (i + j) / 2 in
    let right = search_from fuel f (h + 1) j in
    let left = search_from fuel f i h in if ltb i j then (if f h then left else right) else i

sort_search : ℕ → (ℕ → Bool) → ℕ
unfolding search_from
sort_search n f = search_from n f 0 n

-- The end of the extent at index `i` lies after `start`.
abbrev ends_after : List Extent → ℕ → ℕ → Bool
ends_after [] start i = false
ends_after (r ∷ rs) start zero = ltb start (end r)
ends_after (r ∷ rs) start (suc i) = ends_after rs start i

pub piece : ℕ → ℕ → List Extent
piece from stop = if ltb from stop then record { start = from; blocks = stop - from } ∷ [] else []

-- The loop on `i` of `subtractExtents` for an extent that ends at `stop`, and the piece after it.
carve : ℕ → ℕ → List Extent → List Extent
carve stop cursor [] = piece cursor stop
carve stop cursor (r ∷ rs) =
    let cursor' = max (end r) cursor in
    let rest = carve stop cursor' rs in
    if ltb r.start stop
    then piece cursor (min stop r.start) ++ (if leb stop cursor' then piece cursor' stop else rest)
    else piece cursor stop

subtract_from : List Extent → List Extent → List Extent
unfolding carve
subtract_from removed [] = []
subtract_from removed (e ∷ es) =
    let removed' = skip_ended e.start removed in
    carve (end e) e.start removed' ++ subtract_from removed' es

unfoldable pub subtract_extents : List Extent → List Extent → List Extent
unfolding subtract_from carve piece sort_search
subtract_extents [] removed = []
subtract_extents (e ∷ es) [] = e ∷ es
subtract_extents (e ∷ es) (r ∷ rs) =
    let removed = r ∷ rs in
    subtract_from (drop (sort_search (length removed) (ends_after removed e.start)) removed)
      (e ∷ es)

-- `appendExtent` of `unionExtents`, and the body of the loop of `normalizeExtents`: an extent that
-- touches the last one extends it.
append_extent : List Extent → Extent → List Extent
append_extent [] e = if e.blocks == 0 then [] else e ∷ []
append_extent (l ∷ []) e =
    if e.blocks == 0
    then l ∷ []
    else if ltb (end l) e.start
    then l ∷ e ∷ []
    else if ltb (end l) (end e)
    then record l { blocks = end e - l.start } ∷ []
    else l ∷ []
append_extent (l ∷ m ∷ ls) e = l ∷ append_extent (m ∷ ls) e

-- The order of `sort.Slice`: by start, then by blocks.
abbrev before : Extent → Extent → Bool
before a b = ltb a.start b.start || ((a.start == b.start) && leb a.blocks b.blocks)

insert_extent : Extent → List Extent → List Extent
insert_extent e [] = e ∷ []
insert_extent e (x ∷ xs) =
    let rest = insert_extent e xs in if before e x then e ∷ x ∷ xs else x ∷ rest

-- Extents that are equal in this order are equal, so every sort has this result.
sort_extents : List Extent → List Extent
unfolding insert_extent
sort_extents [] = []
sort_extents (e ∷ es) = insert_extent e (sort_extents es)

append_all : List Extent → List Extent → List Extent
append_all result [] = result
append_all result (e ∷ es) = append_all (append_extent result e) es

unfoldable pub normalize_extents : List Extent → List Extent
unfolding append_all append_extent sort_extents
normalize_extents es = append_all [] (sort_extents es)

-- The loop of `unionExtents` on `leftIndex` and `rightIndex`: which extent is taken next.
merge_extents : List Extent → List Extent → List Extent
merge_extents [] rs = rs
merge_extents (l ∷ ls) [] = l ∷ ls
merge_extents (l ∷ ls) (r ∷ rs) =
    let from_left = l ∷ merge_extents ls (r ∷ rs) in
    let from_right = r ∷ merge_extents (l ∷ ls) rs in
    if leb l.start r.start then from_left else from_right

unfoldable pub union_extents : List Extent → List Extent → List Extent
unfolding merge_extents normalize_extents
union_extents left right = append_all [] (merge_extents left (normalize_extents right))

unfoldable pub intersect_extent : Extent → List Extent → List Extent
unfolding piece
intersect_extent target [] = []
intersect_extent target (e ∷ es) =
    let rest = intersect_extent target es in
    if leb (end e) target.start
    then rest
    else if leb (end target) e.start
    then []
    else piece (max target.start e.start) (min (end target) (end e)) ++ rest

abbrev pub default_block_size : ℕ
default_block_size = 4096

-- `byteRangeExtents`. A negative offset or length is no value of these types.
unfoldable pub byte_range_extents : ℕ → ℕ → ℕ → List Extent
byte_range_extents off len size =
    let len' = min len (size - off) in
    let first = off / default_block_size in
    let last = (off + len' - 1) / default_block_size + 1 in
    if (len == 0) || leb size off then [] else record { start = first; blocks = last - first } ∷ []
