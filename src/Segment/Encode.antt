-- ===== src/Segment/Encode.antt =====
-- The bytes of a segment, internal/replica/segment.go: `EncodeSegments`, `EncodeSegment`, `encodeSegmentBlocks`,
-- `zeroExtents`, `decodeSegment` and the data of a run. compress/gzip and crypto/sha256 are a `Packer`. The workers
-- of `EncodeSegments` encode segments of their own, here one after the other.
pub mod Runs
pub mod Decode
pub mod Contents
pub mod RoundTrip
mod Tests
use Prim.Native.String.{String}
use text.Mathlib.Text.{◌==◌ as str_eq}
use satchel.Base.{
  ℕ, zero, suc, ◌+◌, ◌-◌, ◌*◌, ◌/◌, ◌%◌, Bool, true, false, not, ◌&&◌, ◌||◌, List, [], ◌∷◌, ◌++◌,
  ltb, leb, ◌==◌, if◌then◌else◌, length, take, drop, u64, Option, none, some, Result, ok, err,
  ◌>>=◌, ◌>>◌, guard, required,
}
use satchel.Base.Bytes.{bytes_eq}
use satchel.Base.Binary.{big_endian, number_of, read}
use satchel.Extents.{Extent, end}
use satchel.Device.{Block, Blocks, Generation, block_size}
use satchel.Journal.{whole_blocks}
use satchel.Journal.Format.{sort_blocks}
use satchel.Segment.{Segment, is_zero, blocks_to_extents}

-- A reader gives bytes, and then its end or an error; `opened` says which, with none for bytes that are not gzip.
pub record Packer : Type 0 where
  pub compress : List ℕ → List ℕ
  pub opened : List ℕ → Option (List ℕ × Bool)
  pub digest : List ℕ → String

pub data SegmentError : Type 0 where
  empty_generation bad_block length_mismatch checksum_mismatch not_gzip truncated bad_magic
        bad_block_size :
      SegmentError
  bad_run_count bad_extent too_many_blocks bad_order trailing_data block_mismatch : SegmentError

-- `segmentMagic`
abbrev pub segment_magic : List ℕ
segment_magic = 83 ∷ 65 ∷ 84 ∷ 83 ∷ 69 ∷ 71 ∷ 48 ∷ 49 ∷ []

abbrev pub default_segment_blocks : ℕ
default_segment_blocks = 1024

abbrev pub max_run_blocks : ℕ
max_run_blocks = 256

abbrev pub max_image_blocks : ℕ
max_image_blocks = 9223372036854775807 / block_size

-- Blocks that follow each other, with their data.
pub record Run : Type 0 where
  pub start : ℕ
  pub buffers : List Block

-- The body of the first loop of `encodeSegmentBlocks`.
unfoldable pub push_run : List Run → ℕ → Block → List Run
push_run [] block buf = record { start = block; buffers = buf ∷ [] } ∷ []
push_run (r ∷ []) block buf =
    if (block == u64 (r.start + length r.buffers)) && ltb (length r.buffers) max_run_blocks
    then record r { buffers = r.buffers ++ (buf ∷ []) } ∷ []
    else r ∷ record { start = block; buffers = buf ∷ [] } ∷ []
push_run (r ∷ s ∷ rs) block buf = r ∷ push_run (s ∷ rs) block buf

unfoldable pub push_runs : List Run → Blocks → List Run
unfolding push_run
push_runs runs [] = runs
push_runs runs ((block, buf) ∷ m) = push_runs (push_run runs block buf) m

abbrev pub joined : List Block → List ℕ
joined [] = []
joined (buf ∷ bufs) = buf ++ joined bufs

abbrev pub run_bytes : Run → List ℕ
run_bytes r =
    big_endian 8 r.start ++ (big_endian 4 (length r.buffers * block_size) ++ joined r.buffers)

abbrev pub runs_bytes : List Run → List ℕ
runs_bytes [] = []
runs_bytes (r ∷ rs) = run_bytes r ++ runs_bytes rs

-- What `encodeSegmentBlocks` compresses.
unfoldable pub segment_bytes : List Run → List ℕ
segment_bytes runs =
    segment_magic ++ (big_endian 4 block_size ++ (big_endian 4 (length runs) ++ runs_bytes runs))

abbrev pub run_extent : Run → Extent
run_extent r = record { start = r.start; blocks = length r.buffers }

abbrev pub run_extents : List Run → List Extent
run_extents [] = []
run_extents (r ∷ rs) = run_extent r ∷ run_extents rs

abbrev pub zero_blocks : Blocks → List ℕ
zero_blocks [] = []
zero_blocks ((block, buf) ∷ m) =
    let rest = zero_blocks m in if is_zero buf then block ∷ rest else rest

-- `zeroExtents`
abbrev pub zero_extents : Blocks → List Extent
zero_extents m = blocks_to_extents (zero_blocks m)

-- The segment of blocks in their order.
abbrev pub segment_of : Packer → Blocks → Segment
segment_of c m =
    let runs = push_runs [] m in
    let bytes = c.compress (segment_bytes runs) in
    record {
      data_bytes = bytes;
      sha256 = c.digest bytes;
      bytes = length bytes;
      blocks = length m;
      extents = run_extents runs;
      zero_extents = zero_extents m;
    }

-- `encodeSegmentBlocks`
unfoldable pub encode_segment_blocks : Packer → Blocks → Result SegmentError Segment
unfolding push_runs segment_bytes blocks_to_extents
encode_segment_blocks c m = guard (whole_blocks m) bad_block >> ok (segment_of c m)

-- `EncodeSegment`
unfoldable pub encode_segment : Packer → Generation → Result SegmentError Segment
unfolding encode_segment_blocks
encode_segment c g =
    guard (not (length g.blocks == 0)) empty_generation
    >> encode_segment_blocks c (sort_blocks g.blocks)

-- The segments of `count` groups of blocks.
unfoldable pub encode_groups : Packer → ℕ → ℕ → Blocks → Result SegmentError (List Segment)
unfolding encode_segment_blocks
encode_groups c zero size m = ok []
encode_groups c (suc count) size m = do
  segment ← encode_segment_blocks c (take size m)
  rest ← encode_groups c count size (drop size m)
  ok (segment ∷ rest)

-- `EncodeSegments`
unfoldable pub encode_segments : Packer → ℕ → Generation → Result SegmentError (List Segment)
unfolding encode_segment encode_groups
encode_segments c blocks_per_segment g =
    let size = if blocks_per_segment == 0 then default_segment_blocks else blocks_per_segment in
    let count = (length (sort_blocks g.blocks) - 1) / size + 1 in
    guard (not (length g.blocks == 0)) empty_generation
    >> (if count == 1
        then (encode_segment c g >>= λ segment. ok (segment ∷ []))
        else encode_groups c count size (sort_blocks g.blocks))

-- `decodedRun`
pub record DecodedRun : Type 0 where
  pub extent : Extent
  pub bytes : List ℕ

abbrev pub read_extent : List ℕ → List ℕ → Extent
read_extent block size = record { start = number_of block; blocks = number_of size / block_size }

-- The loop of `decodeSegment`: the runs, the number of blocks, and the rest.
unfoldable pub decode_runs :
    ℕ → ℕ → Bool → ℕ → ℕ → List ℕ → Result SegmentError (List DecodedRun × ℕ × List ℕ)
decode_runs total zero is_first last_end blocks bytes = ok ([], blocks, bytes)
decode_runs total (suc count) is_first last_end blocks bytes = do
  block ← required (read 8 bytes) truncated
  size ← required (read 4 block.1) truncated
  guard
      (not (number_of size.0 == 0)
        && (number_of size.0 % block_size == 0)
        && leb (number_of size.0) (max_run_blocks * block_size))
      bad_extent
  guard (leb (number_of size.0 / block_size) (total - blocks)) too_many_blocks
  guard
      (not (ltb (end (read_extent block.0 size.0)) (number_of block.0))
        && leb (end (read_extent block.0 size.0)) max_image_blocks
        && (is_first || not (ltb (number_of block.0) last_end)))
      bad_order
  found ← required (read (number_of size.0) size.1) truncated
  rest ←
      decode_runs total count false (end (read_extent block.0 size.0))
        (blocks + number_of size.0 / block_size) found.1
  ok (record { extent = read_extent block.0 size.0; bytes = found.0 } ∷ rest.0, rest.1, rest.2)

-- The part of `decodeSegment` that reads the uncompressed bytes; `ends` says that they end without an error.
unfoldable pub decode_stream : ℕ → List ℕ → Bool → Result SegmentError (List DecodedRun)
unfolding decode_runs
decode_stream blocks stream ends = do
  magic ← required (read 8 stream) truncated
  guard (bytes_eq magic.0 segment_magic) bad_magic
  size ← required (read 4 magic.1) truncated
  guard (number_of size.0 == block_size) bad_block_size
  count ← required (read 4 size.1) truncated
  guard (not (blocks == 0) && leb (number_of count.0) blocks) bad_run_count
  found ← decode_runs blocks (number_of count.0) true 0 0 count.1
  guard ((length found.2 == 0) && ends) trailing_data
  guard (blocks == found.1) block_mismatch
  ok found.0

-- `decodeSegment`
unfoldable pub decode_segment : Packer → Segment → Result SegmentError (List DecodedRun)
unfolding decode_stream
decode_segment c s = do
  guard ((s.bytes == 0) || (s.bytes == length s.data_bytes)) length_mismatch
  guard (str_eq (c.digest s.data_bytes) s.sha256) checksum_mismatch
  stream ← required (c.opened s.data_bytes) not_gzip
  decode_stream s.blocks stream.0 stream.1

-- The runs of several segments.
abbrev pub decode_segments : Packer → List Segment → Result SegmentError (List DecodedRun)
decode_segments c [] = ok []
decode_segments c (s ∷ ss) = do
  runs ← decode_segment c s
  rest ← decode_segments c ss
  ok (runs ++ rest)
