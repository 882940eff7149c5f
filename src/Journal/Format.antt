-- ===== src/Journal/Format.antt =====
-- The bytes of the journal's file in internal/replica/journal.go: the header, the records, and the
-- reading of a file whose last record may be torn. Reads have no error but the end of the file.
pub mod Sort
pub mod Records
pub mod Parts
pub mod RoundTrip
pub mod Reopen
mod Tests
use satchel.Base.{
  ℕ, zero, suc, ◌+◌, ◌-◌, ◌*◌, ◌/◌, Bool, true, false, not, ◌&&◌, ◌||◌, List, [], ◌∷◌, ◌++◌, ltb,
  leb, ◌==◌, if◌then◌else◌, length, take, Option, none, some, Result, ok, err, ◌>>=◌, ◌>>◌, guard,
  required, u64, u64_mod,
}
use satchel.Base.Bytes.{slice, bytes_eq}
use satchel.Base.Binary.{big_endian, number_of, read}
use satchel.Remote.{is_empty}
use satchel.Device.{Block, Blocks, Generation, block_size}
use satchel.Volume.{State}
use satchel.Journal.{
  Metadata, journal_format, Journal, journal_record_header, whole_blocks, rewrite,
}
use satchel.Journal.Recovery.{next_sequence}
use text.Mathlib.Text.{◌==◌ as str_eq}

-- crypto/sha256, and encoding/json for the metadata.
pub record FileCodec : Type 0 where
  pub digest : List ℕ → List ℕ
  pub metadata_body : Metadata → List ℕ
  pub metadata_of : List ℕ → Option Metadata

pub data FormatError : Type 0 where
  empty_generation too_many_blocks too_large bad_block bad_metadata_size : FormatError
  short_header bad_magic bad_metadata_length short_metadata bad_metadata_checksum undecodable
        invalid_metadata :
      FormatError
  bad_record_magic bad_dimensions block_outside block_repeated bad_checksum out_of_fuel no_lease :
      FormatError

-- `journalHeaderMagic` and `journalRecordMagic`
abbrev pub header_magic : List ℕ
header_magic = 83 ∷ 65 ∷ 84 ∷ 74 ∷ 78 ∷ 76 ∷ 48 ∷ 49 ∷ []

abbrev pub record_magic : List ℕ
record_magic = 83 ∷ 65 ∷ 84 ∷ 71 ∷ 69 ∷ 78 ∷ 48 ∷ 49 ∷ []

abbrev pub max_journal_metadata : ℕ
max_journal_metadata = 65536

-- `sortedBlocks`, with the data of each block.
unfoldable pub place_block : ℕ → Block → Blocks → Blocks
place_block b buf [] = (b, buf) ∷ []
place_block b buf ((k, held) ∷ m) =
    let later = place_block b buf m in
    if ltb b k then (b, buf) ∷ (k, held) ∷ m else (k, held) ∷ later

unfoldable pub sort_blocks : Blocks → Blocks
unfolding place_block
sort_blocks [] = []
sort_blocks ((b, buf) ∷ m) = place_block b buf (sort_blocks m)

-- The payload of a record.
unfoldable pub encode_blocks : Blocks → List ℕ
encode_blocks [] = []
encode_blocks ((b, buf) ∷ m) = big_endian 8 b ++ (buf ++ encode_blocks m)

-- `record[8:28]`
unfoldable pub dimensions : ℕ → ℕ → List ℕ
dimensions sequence count =
    big_endian 8 sequence ++ (big_endian 4 count ++ big_endian 8 (count * (8 + block_size)))

unfoldable pub record_bytes : FileCodec → ℕ → Blocks → List ℕ
record_bytes c sequence blocks =
    let fields = dimensions sequence (length blocks) in
    let payload = encode_blocks blocks in
    record_magic ++ (fields ++ (c.digest (fields ++ payload) ++ payload))

-- `encodeJournalRecord`: the record, and the generation with its sequence number.
unfoldable pub encode_record : FileCodec → Generation → ℕ → Result FormatError (List ℕ × Generation)
unfolding sort_blocks record_bytes
encode_record c g sequence = do
  guard (not (length g.blocks == 0)) empty_generation
  guard (leb (length g.blocks) 4294967295) too_many_blocks
  guard (leb (length g.blocks * (8 + block_size)) (9223372036854775807 - journal_record_header))
      too_large
  guard (whole_blocks g.blocks) bad_block
  ok (record_bytes c sequence (sort_blocks g.blocks), record g { journal_seq = sequence })

-- `writeJournalHeader`
unfoldable pub header_bytes : FileCodec → Metadata → List ℕ
header_bytes c m =
    let body = c.metadata_body m in
    header_magic ++ (big_endian 4 (length body) ++ (body ++ c.digest body))

unfoldable pub write_header : FileCodec → Metadata → Result FormatError (List ℕ)
unfolding header_bytes
write_header c m =
    guard
      (not (length (c.metadata_body m) == 0)
        && leb (length (c.metadata_body m)) max_journal_metadata)
      bad_metadata_size
    >> ok (header_bytes c m)

abbrev pub encode_all : FileCodec → List Generation → Result FormatError (List ℕ)
encode_all c [] = ok []
encode_all c (g ∷ gs) = do
  encoded ← encode_record c g g.journal_seq
  rest ← encode_all c gs
  ok (encoded.0 ++ rest)

-- The file that `rewriteLocked` writes.
unfoldable pub file_bytes : FileCodec → Metadata → List Generation → Result FormatError (List ℕ)
unfolding write_header encode_record
file_bytes c m gs = do header ← write_header c m; records ← encode_all c gs; ok (header ++ records)

abbrev pub has_number : ℕ → List ℕ → Bool
has_number b [] = false
has_number b (k ∷ ks) = (k == b) || has_number b ks

-- One block of a record: its number, its bytes, its data and the rest; none is a torn record.
abbrev pub read_data : List ℕ → Option (List ℕ × List ℕ) → Option (ℕ × List ℕ × Block × List ℕ)
read_data head none = none
read_data head (some (buf, rest)) = some (number_of head, head ++ buf, buf, rest)

abbrev pub read_head :
    ℕ
    → List ℕ
    → Option (List ℕ × List ℕ)
    → Result FormatError (Option (ℕ × List ℕ × Block × List ℕ))
read_head max_blocks seen none = ok none
read_head max_blocks seen (some (head, after)) = do
  guard (ltb (number_of head) max_blocks) block_outside
  guard (not (has_number (number_of head) seen)) block_repeated
  ok (read_data head (read block_size after))

unfoldable pub read_block :
    ℕ → List ℕ → List ℕ → Result FormatError (Option (ℕ × List ℕ × Block × List ℕ))
read_block max_blocks seen bytes = read_head max_blocks seen (read 8 bytes)

abbrev pub with_block :
    ℕ → List ℕ → Block → Option (Blocks × List ℕ × List ℕ) → Option (Blocks × List ℕ × List ℕ)
with_block b raw buf none = none
with_block b raw buf (some (blocks, hashed, rest)) = some ((b, buf) ∷ blocks, raw ++ hashed, rest)

-- The loop over the blocks of a record: the blocks, the bytes that are hashed, and the rest.
unfoldable pub read_blocks :
    ℕ → ℕ → List ℕ → List ℕ → Result FormatError (Option (Blocks × List ℕ × List ℕ))
unfolding read_block
read_blocks max_blocks zero seen bytes = ok (some ([], [], bytes))
read_blocks max_blocks (suc count) seen bytes = do
  found ← read_block max_blocks seen bytes
  (elim found [
    | none ↦ ok none
    | some (b, raw, buf, after) ↦ do
      later ← read_blocks max_blocks count (b ∷ seen) after
      ok (with_block b raw buf later)
  ])

abbrev pub read_generation : ℕ → Blocks → Generation
read_generation sequence blocks = record {
  blocks = blocks;
  bytes = length blocks * block_size;
  journal_seq = sequence;
}

abbrev pub check_record :
    FileCodec
    → List ℕ
    → Option (Blocks × List ℕ × List ℕ)
    → Result FormatError (Option (Generation × List ℕ × List ℕ))
check_record c header none = ok none
check_record c header (some (blocks, hashed, rest)) =
    guard (bytes_eq (slice header 28 60) (c.digest (slice header 8 28 ++ hashed))) bad_checksum
    >> ok (some (read_generation (number_of (slice header 8 16)) blocks, hashed, rest))

-- One record behind its header: the generation, its payload and the rest; none is a torn record.
unfoldable pub read_record :
    FileCodec → ℕ → ℕ → List ℕ → List ℕ → Result FormatError (Option (Generation × List ℕ × List ℕ))
unfolding read_blocks
read_record c max_blocks last header bytes =
    let sequence = number_of (slice header 8 16) in
    let count = number_of (slice header 16 20) in
    do
      guard (bytes_eq (slice header 0 8) record_magic) bad_record_magic
      guard
          (ltb last sequence
            && not (count == 0)
            && leb count max_blocks
            && (number_of (slice header 20 28) == u64 (count * (8 + block_size))))
          bad_dimensions
      found ← read_blocks max_blocks count [] bytes
      check_record c header found

-- The loop over the records, on fuel of one round for each byte: the generations, and the number of bytes
-- up to the end of the last whole record.
unfoldable pub read_records :
    FileCodec → ℕ → ℕ → ℕ → List ℕ → Result FormatError (List Generation × ℕ)
unfolding read_record
read_records c max_blocks zero last bytes = err out_of_fuel
read_records c max_blocks (suc fuel) last bytes = elim (read journal_record_header bytes) [
  | none ↦ ok ([], 0)
  | some (header, after) ↦ do
    found ← read_record c max_blocks last header after
    (elim found [
      | none ↦ ok ([], 0)
      | some (g, payload, rest) ↦ do
        later ← read_records c max_blocks fuel g.journal_seq rest
        ok (g ∷ later.0, journal_record_header + length payload + later.1)
    ])
]

abbrev pub valid_metadata : Metadata → Bool
valid_metadata m =
    str_eq m.format journal_format
    && not (is_empty m.volume_id)
    && not (is_empty m.volume_name)
    && not (m.size == 0)
    && (m.block_size == block_size)

-- `readJournal`: the metadata, the generations and the number of valid bytes.
unfoldable pub read_journal :
    FileCodec → List ℕ → Result FormatError (Metadata × List Generation × ℕ)
unfolding read_records
read_journal c file = do
  prefix ← required (read 12 file) short_header
  guard (bytes_eq (slice prefix.0 0 8) header_magic) bad_magic
  guard
      (not (number_of (slice prefix.0 8 12) == 0)
        && leb (number_of (slice prefix.0 8 12)) max_journal_metadata)
      bad_metadata_length
  body ← required (read (number_of (slice prefix.0 8 12)) prefix.1) short_metadata
  digest ← required (read 32 body.1) short_metadata
  guard (bytes_eq digest.0 (c.digest body.0)) bad_metadata_checksum
  metadata ← required (c.metadata_of body.0) undecodable
  guard (valid_metadata metadata) invalid_metadata
  found ← read_records c (metadata.size / metadata.block_size) (suc (length digest.1)) 0 digest.1
  ok (metadata, found.0, 12 + number_of (slice prefix.0 8 12) + 32 + found.1)

-- `journalMetadata`
unfoldable pub metadata_of_state : State → Result FormatError Metadata
metadata_of_state state = elim state.lease [
  | none ↦ err no_lease
  | some r ↦ ok (record {
    format = journal_format;
    volume_id = state.id;
    volume_name = state.name;
    holder = r.holder;
    size = state.size;
    block_size = state.block_size;
    writer_epoch = state.epoch;
    base_generation = state.generation;
    base_manifest = state.manifest;
  })
]

-- `OpenJournal`: the journal, and the file without a torn tail.
unfoldable pub open_journal : FileCodec → ℕ → List ℕ → Result FormatError (Journal × List ℕ)
unfolding read_journal next_sequence
open_journal c compact_after file = do
  found ← read_journal c file
  ok (
    record {
      metadata = found.0;
      entries = found.1;
      next_seq = next_sequence found.1;
      pending_sync = [];
      pending_data = 0;
      inflight = [];
      sync_running = false;
      syncing = none;
      closed = false;
      broken = false;
      stable_seq = 0;
      disk_bytes = if ltb found.2 (length file) then found.2 else length file;
      reclaim_bytes = 0;
      compact_after = compact_after;
    },
    if ltb found.2 (length file) then take found.2 file else file,
  )

abbrev pub rebased : FileCodec → Result FormatError Metadata → Bool → Journal → Journal × Bool
rebased c (err e) rewritten j = (j, false)
rebased c (ok metadata) rewritten j =
    let j' = record j { metadata = metadata } in
    if j.closed || j.broken
    then (j, false)
    else if rewritten
    then (rewrite (length (header_bytes c metadata)) j', true)
    else (j', false)

-- `Journal.Rebase`, between syncs; false is an error.
unfoldable pub rebase : FileCodec → State → Bool → Journal → Journal × Bool
unfolding metadata_of_state rewrite header_bytes
rebase c state rewritten j = rebased c (metadata_of_state state) rewritten j
