-- ===== src/Segment/Encode/Contents.antt =====
-- The blocks that decoded runs hold.
use satchel.Base.{
  ℕ, ◌+◌, ◌-◌, ◌*◌, ◌≤◌, ◌≡◌, refl, ◌∙◌, sym, ap, arith, true, false, ◌&&◌, List, [], ◌∷◌, ◌++◌,
  ltb, leb, ◌==◌, length, take, drop, All, map, append_assoc, if◌then◌else◌, length-append,
  Bool-cases, ==_iff, inl, inr, Option, some, none,
}
use satchel.Base.Assoc.{lookup}
use satchel.Base.Bytes.{slice}
use satchel.Base.Binary.{slice_exact, drop_past}
use satchel.Device.{Block, Blocks, block_size}
use satchel.Journal.Format.Sort.{Sorted}
use satchel.Segment.Encode.{Run, joined, DecodedRun}
use satchel.Segment.Encode.Runs.{numbered, flatten, RunsIn}
use satchel.Segment.Encode.Decode.{decoded, block_count}

-- The data of a block in the first run that has it.
pub block_data : List DecodedRun → ℕ → Option Block
block_data [] b = none
block_data (r ∷ rs) b =
    let later = block_data rs b in
    if leb r.extent.start b && ltb b (r.extent.start + r.extent.blocks)
    then some (
        slice r.bytes ((b - r.extent.start) * block_size)
          ((b - r.extent.start) * block_size + block_size))
    else later

pub AllSized : List Block → Type 0
AllSized bufs = All (λ (buf : Block). length buf ≡ block_size) bufs

slice_past :
    (buf rest : List ℕ) (from stop : ℕ)
    → length buf ≡ block_size
    → slice (buf ++ rest) (from + block_size) (stop + block_size) ≡ slice rest from stop
slice_past buf rest from stop h =
    let cut : drop (from + block_size) (buf ++ rest) ≡ drop from rest =
      drop_past (from + block_size) from buf rest (omega (arith, h)) in
    rw cut (ap (λ n. take n (drop from rest)) (omega arith))

lookup-numbered :
    (b start : ℕ) (bufs : List Block) (m : Blocks)
    → AllSized bufs
    → lookup b (numbered start bufs ++ m) ≡ (
        if leb start b && ltb b (start + length bufs)
        then some
            (slice (joined bufs) ((b - start) * block_size) ((b - start) * block_size + block_size))
        else lookup b m)
unfolding lookup AllSized
lookup-numbered b start [] m h = ground arith
lookup-numbered b start (buf ∷ bufs) m h = elim (Bool-cases (start == b)) [
  | inl e ↦
      let same : start ≡ b = (==_iff start b).0 e in
      let none_before : b - start ≡ 0 = omega (arith, same) in
      let inside : (leb start b && ltb b (start + length (buf ∷ bufs))) ≡ true =
        ground (arith, same) in
      rw (e, inside, none_before)
        (ap some (sym (slice_exact 0 block_size [] buf (joined bufs) refl (omega (arith, h.0)))))
  | inr e ↦ elim (Bool-cases (leb start b)) [
    | inl l ↦
        let past : b - start ≡ b - (start + 1) + 1 = ground (arith, e, l) in
        let from : (b - start) * block_size ≡ (b - (start + 1)) * block_size + block_size =
          omega (arith, past) in
        let same : (leb start b && ltb b (start + length (buf ∷ bufs)))
            ≡ (leb (start + 1) b && ltb b ((start + 1) + length bufs)) =
          ground (arith, e, l) in
        rw
          (
            e,
            same,
            from,
            slice_past buf (joined bufs) ((b - (start + 1)) * block_size)
                ((b - (start + 1)) * block_size + block_size) h.0,
          )
          (lookup-numbered b (start + 1) bufs m h.1)
    | inr l ↦
        let later : (leb (start + 1) b && ltb b ((start + 1) + length bufs)) ≡ false =
          ground (arith, l) in
        rw (e, l) (lookup-numbered b (start + 1) bufs m h.1 ∙ rw later refl)
  ]
]

unfoldable pub Sized : List Run → Type 0
Sized rs = All (λ (r : Run). AllSized r.buffers) rs

pub block_data-decoded :
    (rs : List Run) (b : ℕ) → Sized rs → block_data (map decoded rs) b ≡ lookup b (flatten rs)
unfolding Sized block_data lookup
block_data-decoded [] b h = refl
block_data-decoded (r ∷ rs) b h =
    rw (block_data-decoded rs b h.1) (sym (lookup-numbered b r.start r.buffers (flatten rs) h.0))

pub RunsIn-Sized : (lo hi : ℕ) (rs : List Run) → RunsIn lo hi rs → Sized rs
unfolding Sized AllSized
RunsIn-Sized lo hi [] h = tt
RunsIn-Sized lo hi (r ∷ rs) h = (h.3, RunsIn-Sized (r.start + length r.buffers) hi rs h.4)

length-numbered : (start : ℕ) (bufs : List Block) → length (numbered start bufs) ≡ length bufs
length-numbered start [] = refl
length-numbered start (buf ∷ bufs) = omega (arith, length-numbered (start + 1) bufs)

pub length-flatten : (rs : List Run) → length (flatten rs) ≡ block_count rs
length-flatten [] = refl
length-flatten (r ∷ rs) = omega (
  arith,
  length-append (numbered r.start r.buffers) (flatten rs),
  length-numbered r.start r.buffers,
  length-flatten rs,
)

pub flatten-append : (xs ys : List Run) → flatten (xs ++ ys) ≡ flatten xs ++ flatten ys
flatten-append [] ys = refl
flatten-append (r ∷ rs) ys =
    ap (λ m. numbered r.start r.buffers ++ m) (flatten-append rs ys)
    ∙ sym (append_assoc (numbered r.start r.buffers) (flatten rs) (flatten ys))

pub map-append : (xs ys : List Run) → map decoded (xs ++ ys) ≡ map decoded xs ++ map decoded ys
map-append [] ys = refl
map-append (r ∷ rs) ys = ap (λ l. decoded r ∷ l) (map-append rs ys)

pub Sorted-lower : (low high : ℕ) (m : Blocks) → low ≤ high → Sorted high m → Sorted low m
Sorted-lower low high [] l s = tt
Sorted-lower low high ((b, buf) ∷ m) l s = (omega (arith, l, s.0), s.1)
