-- ===== src/Segment/Encode/Tests.antt =====
-- A generation of two runs, encoded and decoded.
use satchel.Base.{◌≡◌, refl, arith, true, [], ◌∷◌, ◌++◌, replicate, some, err}
use satchel.Base.Assoc.{lookup, Unique}
use satchel.Base.Binary.{read}
use satchel.Device.{Generation}
use satchel.Journal.Format.{sort_blocks}
use satchel.Segment.Encode.{
  Packer, push_runs, run_extents, encode_segment, encode_segments, decode_stream, empty_generation,
  truncated, segment_magic,
}
use satchel.Segment.Encode.RoundTrip.{IsReadBack, encode_segments-IsReadBack}

-- No compression, and one digest for all.
abbrev plain : Packer
plain = record {
  compress = λ bytes. bytes;
  opened = λ bytes. some (bytes, true);
  digest = λ bytes. "0";
}

abbrev sealed : Generation
sealed = record {
  blocks = (5, replicate 4096 3) ∷ (2, replicate 4096 1) ∷ (1, replicate 4096 0) ∷ [];
  bytes = 12288;
  journal_seq = 0;
}

two_runs :
    run_extents (push_runs [] (sort_blocks sealed.blocks))
    ≡ record { start = 1; blocks = 2 } ∷ record { start = 5; blocks = 1 } ∷ []
unfolding push_runs sort_blocks
two_runs = refl

nothing_to_encode : encode_segment plain (record sealed { blocks = [] }) ≡ err empty_generation
unfolding encode_segment
nothing_to_encode = refl

cut_off : decode_stream 1 (segment_magic ++ (0 ∷ [])) true ≡ err truncated
unfolding decode_stream read
cut_off = refl

no_block_twice : Unique sealed.blocks
unfolding lookup
no_block_twice = (refl, (refl, (refl, tt)))

encode_segments-IsReadBack_example : IsReadBack plain sealed (encode_segments plain 2 sealed)
encode_segments-IsReadBack_example =
    encode_segments-IsReadBack plain 2 sealed (λ bytes. refl) no_block_twice
      (omega arith, (omega arith, (omega arith, tt))) refl (omega arith) (omega arith)
