-- ===== src/Segment/Encode/RoundTrip.antt =====
-- A generation that is encoded as segments, and what is decoded from them.
use text.Mathlib.TextEquality.{eq_iff}
use native.Mathlib.Omega.{div_fact, mod_fact}
use satchel.Base.{
  ℕ, zero, suc, ◌+◌, ◌-◌, ◌*◌, ◌/◌, ◌≤◌, ◌<◌, ◌≡◌, refl, ◌∙◌, sym, ap, arith, Bool, true, ◌||◌, not,
  List, [], ◌∷◌, ◌++◌, ◌==◌, length, take, drop, All-append, map, append-nil, if◌then◌else◌,
  length-take, length-drop, take-append-drop, Bool-cases, ==_iff, inl, inr, some, Result, ok, ◌>>=◌,
}
use satchel.Base.Assoc.{lookup, Unique}
use satchel.Device.{Blocks, Generation, block_size}
use satchel.Journal.{whole_blocks}
use satchel.Journal.Format.{sort_blocks}
use satchel.Journal.Format.Sort.{
  Sorted, Below, sort_blocks-Sorted, sort_blocks-Below, length-sort_blocks,
  whole_blocks-sort_blocks, lookup-sort_blocks,
}
use satchel.Journal.Format.Records.{whole_block}
use satchel.Segment.{Segment}
use satchel.Segment.Encode.{
  default_segment_blocks, segment_of, segment_bytes, decode_stream, Packer, Run, push_runs,
  encode_segment_blocks, encode_segment, encode_groups, encode_segments, DecodedRun, decode_segment,
  decode_segments, max_image_blocks, SegmentError,
}
use satchel.Segment.Encode.Runs.{flatten, push_runs-IsRuns}
use satchel.Segment.Encode.Decode.{decoded, block_count, decode_stream-segment_bytes}
use satchel.Segment.Encode.Contents.{
  RunsIn-Sized, Sized, Sorted-lower, block_data, block_data-decoded, flatten-append, length-flatten,
  map-append,
}

-- What a group of blocks, or what is left behind one, is like.
record IsGroup (low : ℕ) (m : Blocks) : Type 0 where
  sorted : Sorted low m
  below : Below max_image_blocks m
  whole : whole_blocks m ≡ true
  few : length m ≤ 4294967295

take-IsGroup :
    (n low : ℕ) (m : Blocks)
    → Sorted low m
    → Below max_image_blocks m
    → whole_blocks m ≡ true
    → Sorted low (take n m) × Below max_image_blocks (take n m) × (whole_blocks (take n m) ≡ true)
take-IsGroup zero low m s b w = (tt, tt, refl)
take-IsGroup (suc n) low [] s b w = (tt, tt, refl)
take-IsGroup (suc n) low ((k, buf) ∷ m) s b w =
    let (size, w') = whole_block buf m k w in
    let (s', b', x) = take-IsGroup n (k + 1) m s.1 b.1 w' in
    ((s.0, s'), (b.0, b'), rw ((==_iff (length buf) block_size).1 size) x)

drop-IsGroup :
    (n low : ℕ) (m : Blocks)
    → Sorted low m
    → Below max_image_blocks m
    → whole_blocks m ≡ true
    → Sorted low (drop n m) × Below max_image_blocks (drop n m) × (whole_blocks (drop n m) ≡ true)
drop-IsGroup zero low m s b w = (s, b, w)
drop-IsGroup (suc n) low [] s b w = (tt, tt, refl)
drop-IsGroup (suc n) low ((k, buf) ∷ m) s b w =
    drop-IsGroup n low m (Sorted-lower low (k + 1) m (omega (arith, s.0)) s.1) b.1
      (whole_block buf m k w).1

-- Segments that hold the blocks.
record IsEncoded (c : Packer) (m : Blocks) (r : Result SegmentError (List Segment)) : Type 0 where
  segments : List Segment
  runs : List Run
  encoded : r ≡ ok segments
  decodes : decode_segments c segments ≡ ok (map decoded runs)
  blocks : flatten runs ≡ m
  sized : Sized runs

nothing : (m : Blocks) → length m ≤ 0 → [] ≡ m
nothing [] h = refl
nothing (x ∷ m) h = absurd (omega (arith, h))

good_length : (a b : ℕ) → a ≡ b → ((a == 0) || (a == b)) ≡ true
good_length a b h = ground (arith, h)

opened_segment :
    (c : Packer) (s : Segment) (stream : List ℕ × Bool)
    → s.bytes ≡ length s.data_bytes
    → c.digest s.data_bytes ≡ s.sha256
    → c.opened s.data_bytes ≡ some stream
    → decode_segment c s ≡ decode_stream s.blocks stream.0 stream.1
unfolding decode_segment
opened_segment c s stream l d o =
    rw
      (
        good_length s.bytes (length s.data_bytes) l,
        (eq_iff (c.digest s.data_bytes) s.sha256).1 d,
        o,
      )
      refl

module _ (c : Packer)
    (packs : (bytes : List ℕ) → c.opened (c.compress bytes) ≡ some (bytes, true)) where
  decode_one :
      (low : ℕ) (m : Blocks)
      → IsGroup low m
      → low ≤ max_image_blocks
      → 0 < length m
      → (s : Segment) × (encode_segment_blocks c m ≡ ok s)
        × (decode_segment c s ≡ ok (map decoded (push_runs [] m)))
  unfolding encode_segment_blocks
  decode_one low m g l some_block =
      let runs = push_runs-IsRuns max_image_blocks low m (omega arith) l g.sorted g.below g.whole in
      let count : block_count (push_runs [] m) ≡ length m =
        sym (length-flatten (push_runs [] m)) ∙ ap length runs.blocks in
      let stream =
        decode_stream-segment_bytes max_image_blocks low (push_runs [] m) (omega arith) runs.bounded
          (omega (arith, count, some_block)) (omega (arith, count, g.few)) in
      (
        segment_of c m,
        rw g.whole refl,
        opened_segment c (segment_of c m) (segment_bytes (push_runs [] m), true) refl refl
              (packs (segment_bytes (push_runs [] m)))
            ∙ ap (λ n. decode_stream n (segment_bytes (push_runs [] m)) true) (sym count)
            ∙ stream,
      )

  -- Groups of `size` blocks, the last of which may have fewer.
  groups-IsEncoded :
      (count size low : ℕ) (m : Blocks)
      → IsGroup low m
      → low ≤ max_image_blocks
      → 0 < size
      → length m ≤ count * size
      → count * size < length m + size
      → IsEncoded c m (encode_groups c count size m)
  unfolding encode_groups Sized
  groups-IsEncoded zero size low m g l p a b = record {
    segments = [];
    runs = [];
    encoded = refl;
    decodes = refl;
    blocks = nothing m (omega (arith, a));
    sized = tt;
  }
  groups-IsEncoded (suc count) size low m g l p a b =
      let whole : suc count * size ≡ count * size + size = omega arith in
      let first = take-IsGroup size low m g.sorted g.below g.whole in
      let others = drop-IsGroup size low m g.sorted g.below g.whole in
      let (s, e, d) =
        decode_one low (take size m)
          (record {
            sorted = first.0;
            below = first.1;
            whole = first.2;
            few = omega (arith, g.few, length-take size m);
          })
          l (omega (arith, p, a, b, whole, length-take size m)) in
      let rest =
        groups-IsEncoded count size low (drop size m)
          (record {
            sorted = others.0;
            below = others.1;
            whole = others.2;
            few = omega (arith, g.few, length-drop size m);
          })
          l p (omega (arith, a, whole, length-drop size m))
          (omega (arith, b, whole, length-drop size m)) in
      let runs =
        push_runs-IsRuns max_image_blocks low (take size m) (omega arith) l first.0 first.1
          first.2 in
      record {
        segments = s ∷ rest.segments;
        runs = push_runs [] (take size m) ++ rest.runs;
        encoded = rw (e, rest.encoded) refl;
        decodes =
            rw (d, rest.decodes) (ap ok (sym (map-append (push_runs [] (take size m)) rest.runs)));
        blocks =
            flatten-append (push_runs [] (take size m)) rest.runs
            ∙ ap (λ x. x ++ flatten rest.runs) runs.blocks
            ∙ ap (λ x. take size m ++ x) rest.blocks
            ∙ take-append-drop size m;
        sized =
            All-append _ (push_runs [] (take size m)) rest.runs
              (RunsIn-Sized low max_image_blocks _ runs.bounded) rest.sized;
      }

-- The number of groups.
group_bounds :
    (size len : ℕ)
    → 0 < size
    → 0 < len
    → (len ≤ ((len - 1) / size + 1) * size) × (((len - 1) / size + 1) * size < len + size)
group_bounds zero len s l = absurd (omega (arith, s))
group_bounds (suc k) len s l = (
  omega (arith, l, div_fact (len - 1) k, mod_fact (len - 1) k),
  omega (arith, l, div_fact (len - 1) k, mod_fact (len - 1) k),
)

one_IsEncoded :
    (c : Packer) (packs : (bytes : List ℕ) → c.opened (c.compress bytes) ≡ some (bytes, true))
    (low : ℕ) (m : Blocks)
    → IsGroup low m
    → low ≤ max_image_blocks
    → 0 < length m
    → IsEncoded c m (encode_segment_blocks c m >>= λ segment. ok (segment ∷ []))
one_IsEncoded c packs low m g l some_block =
    let (s, e, d) = decode_one c packs low m g l some_block in
    let runs = push_runs-IsRuns max_image_blocks low m (omega arith) l g.sorted g.below g.whole in
    record {
      segments = s ∷ [];
      runs = push_runs [] m;
      encoded = rw e refl;
      decodes = rw d (ap ok (append-nil (map decoded (push_runs [] m))));
      blocks = runs.blocks;
      sized = RunsIn-Sized low max_image_blocks _ runs.bounded;
    }

positive_size : (n : ℕ) → 0 < (if n == 0 then default_segment_blocks else n)
positive_size n = ground arith

encode_segments-IsEncoded :
    (c : Packer) (packs : (bytes : List ℕ) → c.opened (c.compress bytes) ≡ some (bytes, true))
    (n : ℕ) (g : Generation)
    → Unique g.blocks
    → Below max_image_blocks g.blocks
    → whole_blocks g.blocks ≡ true
    → 0 < length g.blocks
    → length g.blocks ≤ 4294967295
    → IsEncoded c (sort_blocks g.blocks) (encode_segments c n g)
unfolding encode_segments encode_segment
encode_segments-IsEncoded c packs n g u b w some_block few =
    let size = if n == 0 then default_segment_blocks else n in
    let len = length-sort_blocks g.blocks in
    let group : IsGroup 0 (sort_blocks g.blocks) = record {
      sorted = sort_blocks-Sorted g.blocks u;
      below = sort_blocks-Below max_image_blocks g.blocks b;
      whole = whole_blocks-sort_blocks g.blocks w;
      few = omega (arith, few, len);
    } in
    let bounds =
      group_bounds size (length (sort_blocks g.blocks)) (positive_size n)
        (omega (arith, len, some_block)) in
    let nonempty : not (length g.blocks == 0) ≡ true = ground (arith, some_block) in
    elim (Bool-cases ((length (sort_blocks g.blocks) - 1) / size + 1 == 1)) [
      | inl e ↦
          rw (nonempty, e)
            (one_IsEncoded c packs 0 (sort_blocks g.blocks) group (omega arith)
              (omega (arith, len, some_block)))
      | inr e ↦
          rw (nonempty, e)
            (groups-IsEncoded c packs ((length (sort_blocks g.blocks) - 1) / size + 1) size 0
              (sort_blocks g.blocks) group (omega arith) (positive_size n) bounds.0 bounds.1)
    ]

-- The generation read back from segments.
pub IsReadBack : Packer → Generation → Result SegmentError (List Segment) → Type 0
IsReadBack c g r =
    (segments : List Segment) × (runs : List DecodedRun) × (r ≡ ok segments)
    × (decode_segments c segments ≡ ok runs)
    × ((b : ℕ) → block_data runs b ≡ lookup b g.blocks)

-- With a compression that is undone by the decompression, the blocks of a generation of 4096 bytes each,
-- which are at least one, fit 32 bits in number and lie within an image, are encoded as segments without
-- an error, whatever the number of blocks asked for; these decode without an error, and the runs that
-- are decoded hold the data of each block of the generation and no other block.
pub encode_segments-IsReadBack :
    (c : Packer) (blocks_per_segment : ℕ) (g : Generation)
    → ((bytes : List ℕ) → c.opened (c.compress bytes) ≡ some (bytes, true))
    → Unique g.blocks
    → Below max_image_blocks g.blocks
    → whole_blocks g.blocks ≡ true
    → 0 < length g.blocks
    → length g.blocks ≤ 4294967295
    → IsReadBack c g (encode_segments c blocks_per_segment g)
unfolding IsReadBack
encode_segments-IsReadBack c n g packs u b w some_block few =
    let e = encode_segments-IsEncoded c packs n g u b w some_block few in
    (
      e.segments,
      map decoded e.runs,
      e.encoded,
      e.decodes,
      λ k.
          block_data-decoded e.runs k e.sized
          ∙ ap (lookup k) e.blocks
          ∙ lookup-sort_blocks k g.blocks u,
    )
