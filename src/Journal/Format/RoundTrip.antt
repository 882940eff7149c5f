-- ===== src/Journal/Format/RoundTrip.antt =====
-- A journal's file, read back after the writes that made it, the last of which may be cut off.
use satchel.Base.{
  ℕ, suc, ◌+◌, ◌-◌, ◌*◌, ◌≤◌, ◌<◌, ◌≡◌, refl, ◌∙◌, sym, arith, true, false, not, ◌&&◌, List, [],
  ◌∷◌, ◌++◌, ltb, leb, ◌==◌, length, take, Option, none, some, ok, append_assoc, inl, inr, lt_or_ge,
  ap, length-take, length-append, u64, u64_mod,
}
use satchel.Base.Assoc.{Unique}
use satchel.Base.Bytes.{slice, bytes_eq_refl}
use satchel.Base.Binary.{
  big_endian, number_of, read, read_exact, read_short, take_past, length-big_endian,
  number_of-big_endian,
}
use satchel.Device.{Blocks, Generation, block_size}
use satchel.Journal.{whole_blocks}
use satchel.Journal.Format.{
  FileCodec, record_magic, sort_blocks, encode_blocks, dimensions, record_bytes, read_blocks,
  read_generation, check_record, read_record, read_records,
}
use satchel.Journal.Format.Sort.{
  Below, sort_blocks-Sorted, length-sort_blocks, whole_blocks-sort_blocks, sort_blocks-Below,
}
use satchel.Journal.Format.Records.{read_blocks-encode_blocks, read_blocks_torn}
use satchel.Journal.Format.Parts.{
  whole, length-whole, slice_a, slice_b, slice_c, slice_d, slice_e, slice_bcd,
}

-- A generation that a journal of the volume holds: its blocks are of the volume, with no number twice.
pub record IsStored (max_blocks : ℕ) (g : Generation) : Type 0 where
  pub unique : Unique g.blocks
  pub below : Below max_blocks g.blocks
  pub few : length g.blocks ≤ max_blocks
  pub sequence : g.journal_seq < u64_mod

-- What `encodeJournalRecord` checks.
pub record IsEncodable (g : Generation) : Type 0 where
  pub nonempty : (length g.blocks == 0) ≡ false
  pub fits : length g.blocks ≤ 4294967295
  pub sizes : whole_blocks g.blocks ≡ true

-- The generation that is read back.
abbrev pub read_back : Generation → Generation
read_back g = read_generation g.journal_seq (sort_blocks g.blocks)

five : (a b d e f : List ℕ) → (a ++ (b ++ d)) ++ (e ++ f) ≡ (a ++ (b ++ (d ++ e))) ++ f
five a b d e f = simp append_assoc refl

module _ (c : FileCodec) (digest_length : (bytes : List ℕ) → length (c.digest bytes) ≡ 32) where
  header_of : ℕ → Blocks → List ℕ
  header_of sequence blocks =
      whole record_magic (big_endian 8 sequence) (big_endian 4 (length blocks))
        (big_endian 8 (length blocks * (8 + block_size)))
        (c.digest (dimensions sequence (length blocks) ++ encode_blocks blocks)) refl
        (length-big_endian 8 _) (length-big_endian 4 _) (length-big_endian 8 _) (digest_length _)

  record_bytes-header_of :
      (sequence : ℕ) (blocks : Blocks)
      → record_bytes c sequence blocks ≡ header_of sequence blocks ++ encode_blocks blocks
  unfolding record_bytes header_of dimensions
  record_bytes-header_of sequence blocks =
      ap (λ x. record_magic ++ x)
        (five (big_endian 8 sequence) (big_endian 4 (length blocks))
          (big_endian 8 (length blocks * (8 + block_size)))
          (c.digest (dimensions sequence (length blocks) ++ encode_blocks blocks))
          (encode_blocks blocks))

  module _ (sequence : ℕ) (blocks : Blocks) where
    length-header_of : length (header_of sequence blocks) ≡ 60
    unfolding header_of
    length-header_of =
        length-whole record_magic (big_endian 8 sequence) (big_endian 4 (length blocks))
          (big_endian 8 (length blocks * (8 + block_size)))
          (c.digest (dimensions sequence (length blocks) ++ encode_blocks blocks)) refl
          (length-big_endian 8 _) (length-big_endian 4 _) (length-big_endian 8 _) (digest_length _)

    header_magic_part : slice (header_of sequence blocks) 0 8 ≡ record_magic
    unfolding header_of
    header_magic_part =
        slice_a record_magic (big_endian 8 sequence) (big_endian 4 (length blocks))
          (big_endian 8 (length blocks * (8 + block_size)))
          (c.digest (dimensions sequence (length blocks) ++ encode_blocks blocks)) refl
          (length-big_endian 8 _) (length-big_endian 4 _) (length-big_endian 8 _) (digest_length _)

    header_sequence :
        sequence < u64_mod → number_of (slice (header_of sequence blocks) 8 16) ≡ sequence
    unfolding header_of
    header_sequence h =
        ap number_of (
          slice_b record_magic (big_endian 8 sequence) (big_endian 4 (length blocks))
            (big_endian 8 (length blocks * (8 + block_size)))
            (c.digest (dimensions sequence (length blocks) ++ encode_blocks blocks)) refl
            (length-big_endian 8 _) (length-big_endian 4 _) (length-big_endian 8 _)
            (digest_length _))
        ∙ number_of-big_endian 8 sequence h

    header_count :
        length blocks ≤ 4294967295
        → number_of (slice (header_of sequence blocks) 16 20) ≡ length blocks
    unfolding header_of
    header_count h =
        ap number_of (
          slice_c record_magic (big_endian 8 sequence) (big_endian 4 (length blocks))
            (big_endian 8 (length blocks * (8 + block_size)))
            (c.digest (dimensions sequence (length blocks) ++ encode_blocks blocks)) refl
            (length-big_endian 8 _) (length-big_endian 4 _) (length-big_endian 8 _)
            (digest_length _))
        ∙ number_of-big_endian 4 (length blocks) (omega (arith, h))

    header_payload :
        length blocks ≤ 4294967295
        → number_of (slice (header_of sequence blocks) 20 28) ≡ length blocks * (8 + block_size)
    unfolding header_of
    header_payload h =
        ap number_of (
          slice_d record_magic (big_endian 8 sequence) (big_endian 4 (length blocks))
            (big_endian 8 (length blocks * (8 + block_size)))
            (c.digest (dimensions sequence (length blocks) ++ encode_blocks blocks)) refl
            (length-big_endian 8 _) (length-big_endian 4 _) (length-big_endian 8 _)
            (digest_length _))
        ∙ number_of-big_endian 8 (length blocks * (8 + block_size)) (omega (arith, h))

    header_digest :
        slice (header_of sequence blocks) 28 60
        ≡ c.digest (slice (header_of sequence blocks) 8 28 ++ encode_blocks blocks)
    unfolding header_of dimensions
    header_digest =
        slice_e record_magic (big_endian 8 sequence) (big_endian 4 (length blocks))
          (big_endian 8 (length blocks * (8 + block_size)))
          (c.digest (dimensions sequence (length blocks) ++ encode_blocks blocks)) refl
          (length-big_endian 8 _) (length-big_endian 4 _) (length-big_endian 8 _) (digest_length _)
        ∙ ap (λ f. c.digest (f ++ encode_blocks blocks))
            (sym (
              slice_bcd record_magic (big_endian 8 sequence) (big_endian 4 (length blocks))
                (big_endian 8 (length blocks * (8 + block_size)))
                (c.digest (dimensions sequence (length blocks) ++ encode_blocks blocks)) refl
                (length-big_endian 8 _) (length-big_endian 4 _) (length-big_endian 8 _)
                (digest_length _)))

  pub length-record_bytes :
      (sequence : ℕ) (blocks : Blocks)
      → length (record_bytes c sequence blocks) ≡ 60 + length (encode_blocks blocks)
  length-record_bytes sequence blocks =
      ap length (record_bytes-header_of sequence blocks)
      ∙ length-append (header_of sequence blocks) (encode_blocks blocks)
      ∙ ap (λ n. n + length (encode_blocks blocks)) (length-header_of sequence blocks)

  module _ (bound last : ℕ) (g : Generation) (fits : bound ≤ u64_mod) (stored : IsStored bound g)
      (able : IsEncodable g) (later : last < g.journal_seq) where
    abbrev header : List ℕ
    header = header_of g.journal_seq (sort_blocks g.blocks)

    read_record_found :
        (bytes : List ℕ) (r : Option (Blocks × List ℕ × List ℕ))
        → read_blocks bound (length (sort_blocks g.blocks)) [] bytes ≡ ok r
        → read_record c bound last header bytes ≡ check_record c header r
    unfolding read_record
    read_record_found bytes r h =
        rw
          (
            header_magic_part g.journal_seq (sort_blocks g.blocks),
            header_sequence g.journal_seq (sort_blocks g.blocks) stored.sequence,
            header_count g.journal_seq (sort_blocks g.blocks)
                (omega (arith, able.fits, length-sort_blocks g.blocks)),
            header_payload g.journal_seq (sort_blocks g.blocks)
                (omega (arith, able.fits, length-sort_blocks g.blocks)),
          )
          (rw (dims, h) refl)
      where
        size : length (sort_blocks g.blocks) ≡ length g.blocks
        size = length-sort_blocks g.blocks

        dims :
            (ltb last g.journal_seq
              && not (length (sort_blocks g.blocks) == 0)
              && leb (length (sort_blocks g.blocks)) bound
              && (length (sort_blocks g.blocks) * (8 + block_size)
                  == u64 (length (sort_blocks g.blocks) * (8 + block_size))))
            ≡ true
        dims = rw size (ground (arith, later, able.nonempty, able.fits, stored.few))

    read_record_whole :
        (rest : List ℕ)
        → read_record c bound last header (encode_blocks (sort_blocks g.blocks) ++ rest)
          ≡ ok (some (read_back g, encode_blocks (sort_blocks g.blocks), rest))
    read_record_whole rest =
        read_record_found _ _ (
          read_blocks-encode_blocks bound fits 0 (sort_blocks g.blocks) [] rest
            (sort_blocks-Sorted g.blocks stored.unique)
            (sort_blocks-Below bound g.blocks stored.below)
            (whole_blocks-sort_blocks g.blocks able.sizes) tt)
        ∙ rw
            (
              header_digest g.journal_seq (sort_blocks g.blocks),
              bytes_eq_refl,
              header_sequence g.journal_seq (sort_blocks g.blocks) stored.sequence,
            )
            refl

    read_record_torn :
        (n : ℕ)
        → n < length (encode_blocks (sort_blocks g.blocks))
        → read_record c bound last header (take n (encode_blocks (sort_blocks g.blocks))) ≡ ok none
    read_record_torn n h = read_record_found _ _ (
        read_blocks_torn bound fits 0 n (sort_blocks g.blocks) []
          (sort_blocks-Sorted g.blocks stored.unique)
          (sort_blocks-Below bound g.blocks stored.below)
          (whole_blocks-sort_blocks g.blocks able.sizes) tt h)

    abbrev payload : List ℕ
    payload = encode_blocks (sort_blocks g.blocks)

    abbrev pub bytes_of : List ℕ
    bytes_of = record_bytes c g.journal_seq (sort_blocks g.blocks)

    read-header : (rest : List ℕ) → read 60 (bytes_of ++ rest) ≡ some (header, payload ++ rest)
    read-header rest =
        ap (λ x. read 60 (x ++ rest)) (record_bytes-header_of g.journal_seq (sort_blocks g.blocks))
        ∙ ap (read 60) (append_assoc header payload rest)
        ∙ read_exact 60 header (payload ++ rest)
            (length-header_of g.journal_seq (sort_blocks g.blocks))

    -- One round of the loop over the records.
    pub read_records_whole :
        (fuel : ℕ) (rest : List ℕ) (found : List Generation × ℕ)
        → read_records c bound fuel g.journal_seq rest ≡ ok found
        → read_records c bound
            (suc fuel)
            last
            (record_bytes c g.journal_seq (sort_blocks g.blocks) ++ rest)
          ≡ ok (
            read_back g ∷ found.0,
            length (record_bytes c g.journal_seq (sort_blocks g.blocks)) + found.1,
          )
    unfolding read_records
    read_records_whole fuel rest found h =
        rw (read-header rest, read_record_whole rest, h, read_records)
          (ap (λ n. ok (read_back g ∷ found.0, n + found.1))
            (sym (length-record_bytes g.journal_seq (sort_blocks g.blocks))))

    cut_header : (n : ℕ) → 60 ≤ n → read 60 (take n bytes_of) ≡ some (header, take (n - 60) payload)
    cut_header n long =
        ap (λ x. read 60 (take n x)) (record_bytes-header_of g.journal_seq (sort_blocks g.blocks))
        ∙ ap (read 60) (
            take_past n (n - 60) header payload
              (omega (arith, long, length-header_of g.journal_seq (sort_blocks g.blocks))))
        ∙ read_exact 60 header (take (n - 60) payload)
            (length-header_of g.journal_seq (sort_blocks g.blocks))

    pub read_records_torn :
        (fuel n : ℕ)
        → n < length (record_bytes c g.journal_seq (sort_blocks g.blocks))
        → read_records c bound
            (suc fuel)
            last
            (take n (record_bytes c g.journal_seq (sort_blocks g.blocks)))
          ≡ ok ([], 0)
    unfolding read_records
    read_records_torn fuel n h = elim (lt_or_ge n 60) [
      | inl short ↦
          rw
            (
              read_short 60 (take n bytes_of) (omega (arith, short, length-take n bytes_of)),
              read_records,
            )
            refl
      | inr long ↦
          rw
            (
              cut_header n long,
              read_record_torn (n - 60) (
                  omega (arith, long, h, length-record_bytes g.journal_seq (sort_blocks g.blocks))),
              read_records,
            )
            refl
    ]
