-- ===== src/Journal/Format/Tests.antt =====
-- A journal of one generation of two blocks, and a torn second record.
use satchel.Base.{
  ℕ, ◌<◌, ◌≡◌, refl, arith, List, [], ◌∷◌, ◌++◌, length, take, replicate, map, some, ok,
}
use satchel.Base.Assoc.{lookup}
use satchel.Base.Binary.{big_endian}
use satchel.Device.{Generation}
use satchel.Journal.{Metadata, journal_format}
use satchel.Journal.Format.{
  FileCodec, dimensions, encode_blocks, record_bytes, encode_record, sort_blocks, header_bytes,
  file_bytes, read_journal,
}
use satchel.Journal.Format.RoundTrip.{IsStored, read_back}
use satchel.Journal.Format.Reopen.{read_journal-file_bytes}

abbrev metadata : Metadata
metadata = record {
  format = journal_format;
  volume_id = "id";
  volume_name = "v";
  holder = "a";
  size = 16384;
  block_size = 4096;
  writer_epoch = 1;
  base_generation = 0;
  base_manifest = "";
}

-- Only one metadata is decoded, so this codec stands for it alone.
abbrev codec : FileCodec
codec = record {
  digest = λ bytes. replicate 32 7;
  metadata_body = λ m. 1 ∷ [];
  metadata_of = λ body. some metadata;
}

abbrev first : Generation
first = record {
  blocks = (3, replicate 4096 9) ∷ (1, replicate 4096 8) ∷ [];
  bytes = 8192;
  journal_seq = 1;
}

abbrev second : Generation
second = record { blocks = (2, replicate 4096 5) ∷ []; bytes = 4096; journal_seq = 2 }

abbrev file : List ℕ
file = header_bytes codec metadata ++ (record_bytes codec 1 (sort_blocks first.blocks) ++ [])

written : file_bytes codec metadata (first ∷ []) ≡ ok file
unfolding file_bytes encode_record
written = refl

encoded :
    encode_record codec second 2 ≡ ok (record_bytes codec 2 (sort_blocks second.blocks), second)
unfolding encode_record
encoded = refl

torn :
    take 70 (record_bytes codec 2 (sort_blocks second.blocks))
    ≡ take 70 (record_bytes codec 2 second.blocks)
unfolding sort_blocks
torn = refl

first-IsStored : IsStored 4 first
unfolding lookup
first-IsStored = record {
  unique = (refl, (refl, tt));
  below = (omega arith, (omega arith, tt));
  few = omega arith;
  sequence = omega arith;
}

second-IsStored : IsStored 4 second
unfolding lookup
second-IsStored = record {
  unique = (refl, tt);
  below = (omega arith, tt);
  few = omega arith;
  sequence = omega arith;
}

short : 70 < length (record_bytes codec 2 (sort_blocks second.blocks))
unfolding record_bytes sort_blocks dimensions big_endian encode_blocks
short = omega arith

read_journal-file_bytes_example :
    read_journal codec (file ++ take 70 (record_bytes codec 2 (sort_blocks second.blocks)))
    ≡ ok (metadata, map read_back (first ∷ []), length file)
read_journal-file_bytes_example =
    read_journal-file_bytes codec metadata (first ∷ []) second file
      (record_bytes codec 2 (sort_blocks second.blocks), second) 70 (λ bytes. refl) refl refl
      (omega arith) written (first-IsStored, tt) second-IsStored (omega arith, (omega arith, tt))
      encoded short
