-- ===== src/Device/Capture.antt =====
-- The buffers of the active generation after a write or a trim.
use satchel.Base.{
  ℕ, zero, suc, ◌+◌, ◌-◌, ◌*◌, ◌≤◌, ◌<◌, ◌≡◌, ◌⊎◌, ap, refl, ◌∙◌, min, max, ◌&&◌, List, arith, sym,
  subst, lt_or_ge, ltb→lt, lt→ltb, taken, not_taken, ltb_irrefl, ltb-suc_of_ne, ==_iff, ltb, ◌==◌,
  if◌then◌else◌, length, Option, none, some, inl, inr, Bool-cases,
}
use satchel.Base.Bytes.{
  slice, copy_into, get_or, get_or-copy_into, length-copy_into, length-slice, get_or-slice,
  length-tabulate, get_or-tabulate,
}
use satchel.Base.Assoc.{
  lookup, insert, lookup-insert, insert-none, insert-some, Unique, insert-Unique,
}
use satchel.Device.Whole.{blocks_captured, range_captured}
use satchel.Device.{
  block_read, block_size, Block, Blocks, File, Captured, write_file, read_block, buffer_of,
  block_captured,
}

-- The buffer holds what the file holds at the block.
pub record Holds (file : File) (block : ℕ) (buf : Block) : Type 0 where
  pub whole : length buf ≡ block_size
  pub same : (i : ℕ) → i < block_size → get_or buf i 0 ≡ file (block * block_size + i)

-- Every buffer of the map does.
abbrev pub HoldAll : File → Blocks → Type 0
HoldAll file m = (block : ℕ) (buf : Block) → lookup block m ≡ some buf → Holds file block buf

read_block-Holds : (file : File) (block : ℕ) → Holds file block (read_block file block)
unfolding read_block
read_block-Holds file block = record {
  whole = length-tabulate (λ i. file (block * block_size + i)) block_size;
  same = λ i h. get_or-tabulate (λ k. file (block * block_size + k)) block_size i 0 h;
}

-- The block lies where the write does.
abbrev Touches : ℕ → List ℕ → ℕ → Type 0
Touches off p block =
    (off < block * block_size + block_size) × (block * block_size < off + length p)

module _ (fresh : ℕ → Block) (fresh_whole : (b : ℕ) → length (fresh b) ≡ block_size) where
  module _ (old_file : File) (p : List ℕ) (off block : ℕ) (touched : Touches off p block) where
    abbrev start : ℕ
    start = max off (block * block_size)

    abbrev stop : ℕ
    stop = min (off + length p) (block * block_size + block_size)

    index :
        (i : ℕ)
        → start - block * block_size ≤ i
        → get_or p (start - off + (i - (start - block * block_size))) 0
          ≡ get_or p (block * block_size + i - off) 0
    index i l = ap (λ k. get_or p k 0) (omega arith)

    -- Copying the written bytes into a buffer that holds the old block, or the new one, or into
    -- any buffer if they fill it, gives one that holds the new block.
    copied-Holds :
        (buf : Block)
        → length buf ≡ block_size
        → ((i : ℕ)
            → i < block_size
            → (block * block_size + i < off) ⊎ (off + length p ≤ block * block_size + i)
            → get_or buf i 0 ≡ old_file (block * block_size + i))
        → Holds
            (write_file old_file off p)
            block
            (copy_into buf (start - block * block_size) (slice p (start - off) (stop - off)))
    copied-Holds buf w h = record {
      whole =
          length-copy_into buf (start - block * block_size) (slice p (start - off) (stop - off))
          ∙ w;
      same = λ i l. ground (
        arith,
        get_or-copy_into buf (start - block * block_size) (slice p (start - off) (stop - off)) i 0,
        length-slice p (start - off) (stop - off),
        get_or-slice p (start - off) (stop - off) (i - (start - block * block_size)) 0,
        index i,
        h i,
      );
    }

  module _ (old_file : File) (p : List ℕ) (off : ℕ) where
    -- In the middle of the loop the blocks below `cur` are done, and the others are as before.
    abbrev Mid : ℕ → Blocks → Type 0
    Mid cur m =
        (block : ℕ) (buf : Block)
        → lookup block m ≡ some buf
        → Holds (if ltb block cur then write_file old_file off p else old_file) block buf

    -- The buffer that the loop takes for a block is fit to be copied into.
    buffer-fit :
        (block : ℕ) (old : Option Block) (i : ℕ)
        → ((buf : Block) → old ≡ some buf → Holds old_file block buf)
        → let whole =
            (max off (block * block_size) == block * block_size)
            && (min (off + length p) (block * block_size + block_size)
                == block * block_size + block_size) in
          let buf =
            buffer_of old
              (if whole then fresh block else read_block (write_file old_file off p) block) in
          (length buf ≡ block_size)
          × (i < block_size
              → (block * block_size + i < off) ⊎ (off + length p ≤ block * block_size + i)
              → get_or buf i 0 ≡ old_file (block * block_size + i))
    buffer-fit block (some b) i h = ((h b refl).whole, λ l o. (h b refl).same i l)
    buffer-fit block none i h =
        let B = block * block_size in
        elim (Bool-cases
          ((max off B == B) && (min (off + length p) (B + block_size) == B + block_size))) [
            | inl w ↦ rw w (fresh_whole block, λ l o. absurd (ground arith))
            | inr w ↦ rw w (
              (read_block-Holds (write_file old_file off p) block).whole,
              λ l o. (read_block-Holds (write_file old_file off p) block).same i l ∙ (ground arith),
            )
          ]

    block_captured-Mid :
        (block : ℕ) (c : Captured)
        → Touches off p block
        → Mid block c.blocks
        → Mid (block + 1) (block_captured fresh (write_file old_file off p) p off block c).blocks
    unfolding block_captured
    block_captured-Mid block c t h b buf e =
        let new = write_file old_file off p in
        let B = block * block_size in
        let whole = (max off B == B) && (min (off + length p) (B + block_size) == B + block_size) in
        let old =
          buffer_of (lookup block c.blocks) (if whole then fresh block else read_block new block) in
        let v =
          copy_into old (max off B - B)
            (slice p (max off B - off) (min (off + length p) (B + block_size) - off)) in
        let fit = λ (i : ℕ).
          buffer-fit block (lookup block c.blocks) i
            (λ x y. subst (λ (f : File). Holds f block x) (rw ltb_irrefl) (h block x y)) in
        let e' : (if block == b then some v else lookup b c.blocks) ≡ some buf =
          sym (lookup-insert block b v c.blocks) ∙ e in
        elim (Bool-cases (block == b)) [
          | inl q ↦
              let at : v ≡ buf = taken (block == b) v buf (lookup b c.blocks) q e' in
              let here : block ≡ b = (==_iff block b).0 q in
              subst (λ k. Holds (if ltb k (block + 1) then new else old_file) k buf) here
                (rw (lt→ltb block (block + 1) (omega arith)) (
                  subst (Holds new block) at
                    (copied-Holds old_file p off block t old (fit 0).0 (λ i. (fit i).1))))
          | inr q ↦
              let kept = not_taken (block == b) v buf (lookup b c.blocks) q e' in
              rw (ltb-suc_of_ne block b q) (h b buf kept)
        ]

    blocks_captured-Mid :
        (n block : ℕ) (c : Captured)
        → ((k : ℕ) → block ≤ k → k < block + n → Touches off p k)
        → Mid block c.blocks
        → Mid (block + n) (blocks_captured fresh (write_file old_file off p) p off block n c).blocks
    unfolding blocks_captured
    blocks_captured-Mid zero block c t h =
        let e : block ≡ block + 0 = omega arith in subst (λ k. Mid k c.blocks) e h
    blocks_captured-Mid (suc n) block c t h =
        let new = write_file old_file off p in
        let c' = block_captured fresh new p off block c in
        let e : block + 1 + n ≡ block + suc n = omega arith in
        subst (λ k. Mid k (blocks_captured fresh new p off (block + 1) n c').blocks) e
          (blocks_captured-Mid n (block + 1) c' (λ k l m. t k (omega arith) (omega arith))
            (block_captured-Mid block c (t block (omega arith) (omega arith)) h))

    Holds-outside :
        (block : ℕ) (buf : Block)
        → (block * block_size + block_size ≤ off) ⊎ (off + length p ≤ block * block_size)
        → Holds old_file block buf
        → Holds (write_file old_file off p) block buf
    Holds-outside block buf o h = record {
      whole = h.whole;
      same = λ i l. h.same i l ∙ (ground arith);
    }

    -- After the loop over the blocks of the write every buffer holds what the file holds.
    pub blocks_captured-HoldAll :
        (n block : ℕ) (c : Captured)
        → ((k : ℕ) → block ≤ k → k < block + n → Touches off p k)
        → ((k : ℕ)
            → (k < block) ⊎ (block + n ≤ k)
            → (k * block_size + block_size ≤ off) ⊎ (off + length p ≤ k * block_size))
        → HoldAll old_file c.blocks
        → HoldAll
            (write_file old_file off p)
            (blocks_captured fresh (write_file old_file off p) p off block n c).blocks
    blocks_captured-HoldAll n block c t o h b buf e =
        let mid = blocks_captured-Mid n block c t (λ k x y. start_mid k x (h k x y)) b buf e in
        elim (Bool-cases (ltb b (block + n))) [
          | inl l ↦ rw l at mid
          | inr l ↦
              Holds-outside b buf (o b (inr (ground arith)))
                (subst (λ t. Holds (if t then write_file old_file off p else old_file) b buf) l mid)
        ]
      where
        start_mid :
            (k : ℕ) (x : Block)
            → Holds old_file k x
            → Holds (if ltb k block then write_file old_file off p else old_file) k x
        start_mid k x y = elim (Bool-cases (ltb k block)) [
          | inl l ↦ rw l (Holds-outside k x (o k (inl (ltb→lt k block l))) y)
          | inr l ↦ rw l y
        ]

-- The blocks that the loop goes over are in the map after it, and no others are added.
pub blocks_captured-none :
    (fresh : ℕ → Block) (file : File) (p : List ℕ) (off n block : ℕ) (c : Captured) (b : ℕ)
    → lookup b (blocks_captured fresh file p off block n c).blocks ≡ none
    → (lookup b c.blocks ≡ none) × ((b < block) ⊎ (block + n ≤ b))
unfolding blocks_captured block_captured
blocks_captured-none fresh file p off zero block c b h = (h, ground arith)
blocks_captured-none fresh file p off (suc n) block c b h =
    let c' = block_captured fresh file p off block c in
    let (x, y) = blocks_captured-none fresh file p off n (block + 1) c' b h in
    let (m, ne) = insert-none block b _ c.blocks x in (m, omega arith)

pub range_captured-none :
    (file : File) (n block : ℕ) (c : Captured) (b : ℕ)
    → lookup b (range_captured file block n c).blocks ≡ none
    → (lookup b c.blocks ≡ none) × ((b < block) ⊎ (block + n ≤ b))
unfolding range_captured block_read
range_captured-none file zero block c b h = (h, ground arith)
range_captured-none file (suc n) block c b h =
    let (x, y) = range_captured-none file n (block + 1) _ b h in
    let (m, ne) = insert-none block b (read_block file block) c.blocks x in (m, omega arith)

-- The loop of `capture` leaves buffers that hold what the file holds, if those of the other blocks do.
pub range_captured-HoldAll :
    (file : File) (n block : ℕ) (c : Captured)
    → ((k : ℕ) (buf : Block)
        → lookup k c.blocks ≡ some buf
        → (k < block) ⊎ (block + n ≤ k)
        → Holds file k buf)
    → HoldAll file (range_captured file block n c).blocks
unfolding range_captured block_read
range_captured-HoldAll file zero block c h b buf e =
    h b buf e (elim (lt_or_ge b block) [ inl l ↦ inl l | inr l ↦ inr (omega arith) ])
range_captured-HoldAll file (suc n) block c h b buf e =
    range_captured-HoldAll file n (block + 1) _ step b buf e
  where
    step :
        (k : ℕ) (x : Block)
        → lookup k (insert block (read_block file block) c.blocks) ≡ some x
        → (k < block + 1) ⊎ (block + 1 + n ≤ k)
        → Holds file k x
    step k x l o = elim (insert-some block k (read_block file block) x c.blocks l) [
      | inl (q, v) ↦
          subst (Holds file k) v
            (subst (λ t. Holds file k (read_block file t)) (sym q) (read_block-Holds file k))
      | inr (q, l') ↦ h k x l' (elim o [ inl m ↦ inl (omega arith) | inr m ↦ inr (omega arith) ])
    ]

pub blocks_captured-Unique :
    (fresh : ℕ → Block) (file : File) (p : List ℕ) (off n block : ℕ) (c : Captured)
    → Unique c.blocks
    → Unique (blocks_captured fresh file p off block n c).blocks
unfolding blocks_captured block_captured
blocks_captured-Unique fresh file p off zero block c u = u
blocks_captured-Unique fresh file p off (suc n) block c u =
    blocks_captured-Unique fresh file p off n (block + 1) (block_captured fresh file p off block c)
      (insert-Unique block _ c.blocks u)

pub range_captured-Unique :
    (file : File) (n block : ℕ) (c : Captured)
    → Unique c.blocks
    → Unique (range_captured file block n c).blocks
unfolding range_captured block_read
range_captured-Unique file zero block c u = u
range_captured-Unique file (suc n) block c u =
    range_captured-Unique file n (block + 1) _
      (insert-Unique block (read_block file block) c.blocks u)

-- A block that has a buffer after the loop had one before, or is one of the loop's.
pub blocks_captured-some :
    (fresh : ℕ → Block) (file : File) (p : List ℕ) (off n block : ℕ) (c : Captured) (b : ℕ)
    (buf : Block)
    → lookup b (blocks_captured fresh file p off block n c).blocks ≡ some buf
    → ((x : Block) × (lookup b c.blocks ≡ some x)) ⊎ (b < block + n)
unfolding blocks_captured block_captured
blocks_captured-some fresh file p off zero block c b buf h = inl (buf, h)
blocks_captured-some fresh file p off (suc n) block c b buf h =
    elim (blocks_captured-some fresh file p off n (block + 1)
      (block_captured fresh file p off block c) b buf h) [
        | inr l ↦ inr (omega arith)
        | inl (x, e) ↦ elim (insert-some block b _ x c.blocks e) [
          | inl (q, v) ↦ inr (omega arith)
          | inr (q, e') ↦ inl (x, e')
        ]
      ]

pub range_captured-some :
    (file : File) (n block : ℕ) (c : Captured) (b : ℕ) (buf : Block)
    → lookup b (range_captured file block n c).blocks ≡ some buf
    → ((x : Block) × (lookup b c.blocks ≡ some x)) ⊎ (b < block + n)
unfolding range_captured block_read
range_captured-some file zero block c b buf h = inl (buf, h)
range_captured-some file (suc n) block c b buf h =
    elim (range_captured-some file n (block + 1) _ b buf h) [
      | inr l ↦ inr (omega arith)
      | inl (x, e) ↦ elim (insert-some block b (read_block file block) x c.blocks e) [
        | inl (q, v) ↦ inr (omega arith)
        | inr (q, e') ↦ inl (x, e')
      ]
    ]
