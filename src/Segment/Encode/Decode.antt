-- ===== src/Segment/Encode/Decode.antt =====
-- `decodeSegment` on the bytes that `encodeSegmentBlocks` compresses.
use satchel.Base.{
  ℕ, suc, ◌+◌, ◌-◌, ◌*◌, ◌/◌, ◌%◌, ◌≤◌, ◌<◌, ◌≡◌, refl, ap, arith, Bool, true, false, ◌&&◌, ◌||◌,
  not, List, [], ◌∷◌, ◌++◌, ltb, leb, ◌==◌, length, All, map, append_assoc, length-append, ==_iff,
  ok, ◌>>=◌, u64,
}
use satchel.Base.Binary.{big_endian, number_of, read_exact, length-big_endian, number_of-big_endian}
use satchel.Device.{Block, block_size}
use satchel.Segment.Encode.{
  Run, joined, runs_bytes, run_extent, segment_magic, segment_bytes, max_run_blocks,
  max_image_blocks, DecodedRun, decode_runs, decode_stream,
}
use satchel.Segment.Encode.Runs.{RunsIn, RunsIn-least}

-- A run as it is decoded.
abbrev pub decoded : Run → DecodedRun
decoded r = record { extent = run_extent r; bytes = joined r.buffers }

abbrev pub block_count : List Run → ℕ
block_count [] = 0
block_count (r ∷ rs) = length r.buffers + block_count rs

length-joined :
    (bufs : List Block)
    → All (λ (buf : Block). length buf ≡ block_size) bufs
    → length (joined bufs) ≡ length bufs * block_size
length-joined [] h = refl
length-joined (buf ∷ bufs) h =
    omega (arith, h.0, length-append buf (joined bufs), length-joined bufs h.1)

-- One run.
module _ (total last done : ℕ) (is_first : Bool) (r : Run) (low : last ≤ r.start)
    (some_blocks : 0 < length r.buffers) (few : length r.buffers ≤ 256)
    (sizes : All (λ (buf : Block). length buf ≡ block_size) r.buffers)
    (within : r.start + length r.buffers ≤ max_image_blocks)
    (room : done + length r.buffers ≤ total) where
  start_bytes : number_of (big_endian 8 r.start) ≡ r.start
  start_bytes = number_of-big_endian 8 r.start (omega (arith, within))

  size_bytes :
      number_of (big_endian 4 (length r.buffers * block_size)) ≡ length r.buffers * block_size
  size_bytes = number_of-big_endian 4 (length r.buffers * block_size) (omega (arith, few))

  run_part : (length r.buffers * block_size) / block_size ≡ length r.buffers
  run_part = omega arith

  good_size :
      (not (length r.buffers * block_size == 0)
        && ((length r.buffers * block_size) % block_size == 0)
        && leb (length r.buffers * block_size) (max_run_blocks * block_size))
      ≡ true
  good_size = ground (arith, some_blocks, few)

  good_order :
      (not (ltb (u64 (r.start + length r.buffers)) r.start)
        && leb (u64 (r.start + length r.buffers)) max_image_blocks
        && (is_first || not (ltb r.start last)))
      ≡ true
  good_order = ground (arith, low, within)

  next_end : u64 (r.start + length r.buffers) ≡ r.start + length r.buffers
  next_end = omega (arith, within)

  good_count : leb (length r.buffers) (total - done) ≡ true
  good_count = ground (arith, room)

  decode_runs_step :
      (count : ℕ) (rest : List ℕ)
      → decode_runs total (suc count) is_first last done (
          big_endian 8 r.start
          ++ (big_endian 4 (length r.buffers * block_size) ++ (joined r.buffers ++ rest)))
        ≡ (decode_runs total count false (r.start + length r.buffers) (done + length r.buffers) rest
            >>= λ found. ok (decoded r ∷ found.0, found.1, found.2))
  unfolding decode_runs
  decode_runs_step count rest =
      rw
        (
          read_exact 8 (big_endian 8 r.start)
              (big_endian 4 (length r.buffers * block_size) ++ (joined r.buffers ++ rest))
              (length-big_endian 8 r.start),
          read_exact 4 (big_endian 4 (length r.buffers * block_size)) (joined r.buffers ++ rest)
              (length-big_endian 4 _),
          start_bytes,
          size_bytes,
        )
        (rw (good_size, run_part)
          (rw
            (
              good_count,
              good_order,
              next_end,
              read_exact (length r.buffers * block_size) (joined r.buffers) rest
                  (length-joined r.buffers sizes),
            )
            refl))

module _ (total bound : ℕ) (image : bound ≤ max_image_blocks) where
  decode_runs-runs_bytes :
      (lo last done : ℕ) (is_first : Bool) (rs : List Run)
      → RunsIn lo bound rs
      → last ≤ lo
      → done + block_count rs ≤ total
      → decode_runs total (length rs) is_first last done (runs_bytes rs)
        ≡ ok (map decoded rs, done + block_count rs, [])
  unfolding decode_runs
  decode_runs-runs_bytes lo last done is_first [] h l t = ap (λ n. ok ([], n, [])) (omega arith)
  decode_runs-runs_bytes lo last done is_first (r ∷ rs) h l t =
      let after : r.start + length r.buffers ≤ bound =
        RunsIn-least (r.start + length r.buffers) bound rs h.4 in
      let rest =
        decode_runs-runs_bytes (r.start + length r.buffers) (r.start + length r.buffers)
          (done + length r.buffers) false rs h.4 (omega arith) (omega (arith, t)) in
      let step =
        decode_runs_step total last done is_first r (omega (arith, l, h.0)) h.1 h.2 h.3
          (omega (arith, after, image)) (omega (arith, t)) (length rs) (runs_bytes rs) in
      rw (append_assoc, append_assoc, step, rest)
        (ap (λ n. ok (map decoded (r ∷ rs), n, [])) (omega arith))

  few_runs : (lo : ℕ) (rs : List Run) → RunsIn lo bound rs → length rs ≤ block_count rs
  few_runs lo [] h = omega arith
  few_runs lo (r ∷ rs) h = omega (arith, h.1, few_runs (r.start + length r.buffers) rs h.4)

-- The bytes of runs, which are at least one and fit 32 bits.
pub decode_stream-segment_bytes :
    (bound lo : ℕ) (rs : List Run)
    → bound ≤ max_image_blocks
    → RunsIn lo bound rs
    → 0 < block_count rs
    → block_count rs ≤ 4294967295
    → decode_stream (block_count rs) (segment_bytes rs) true ≡ ok (map decoded rs)
unfolding decode_stream segment_bytes
decode_stream-segment_bytes bound lo rs image h some_block fits =
    let few = few_runs (block_count rs) bound image lo rs h in
    let number : number_of (big_endian 4 (length rs)) ≡ length rs =
      number_of-big_endian 4 (length rs) (omega (arith, few, fits)) in
    let good : (not (block_count rs == 0) && leb (length rs) (block_count rs)) ≡ true =
      ground (arith, some_block, few) in
    let loop =
      decode_runs-runs_bytes (block_count rs) bound image lo 0 0 true rs h (omega arith)
        (omega arith) in
    rw
      (
        read_exact 8 segment_magic
            (big_endian 4 block_size ++ (big_endian 4 (length rs) ++ runs_bytes rs)) refl,
        read_exact 4 (big_endian 4 block_size) (big_endian 4 (length rs) ++ runs_bytes rs)
            (length-big_endian 4 block_size),
        read_exact 4 (big_endian 4 (length rs)) (runs_bytes rs) (length-big_endian 4 (length rs)),
        number_of-big_endian 4 block_size (omega arith),
        number,
      )
      (rw (good, loop) (rw ((==_iff (block_count rs) (0 + block_count rs)).1 (omega arith)) refl))
