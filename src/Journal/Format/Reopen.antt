-- ===== src/Journal/Format/Reopen.antt =====
-- `readJournal` of the file that a journal wrote, with the last record whole, cut off or missing.
use satchel.Base.{
  ℕ, All, zero, suc, ◌+◌, ◌-◌, ◌*◌, ◌/◌, ◌≤◌, ◌<◌, ◌≡◌, refl, ◌∙◌, sym, subst, arith, true, false,
  not, ◌&&◌, List, [], ◌∷◌, ◌++◌, leb, ◌==◌, length, take, some, ok, append-nil, append_assoc, ap,
  length-append, u64_mod, map, ok_of_bind, ok_of_guard,
}
use satchel.Base.Bytes.{slice, bytes_eq_refl}
use satchel.Base.Binary.{
  big_endian, number_of, read, read-append, read_exact, slice_exact, length-big_endian,
  number_of-big_endian,
}
use satchel.Device.{Generation, block_size}
use satchel.Journal.{Metadata, whole_blocks, journal_record_header}
use satchel.Journal.Format.{
  FileCodec, header_magic, sort_blocks, record_bytes, encode_record, header_bytes, encode_all,
  file_bytes, write_header, read_records, read_journal, valid_metadata, max_journal_metadata,
}
use satchel.Journal.Format.RoundTrip.{
  IsStored, IsEncodable, read_back, length-record_bytes, read_records_whole, read_records_torn,
}

-- The sequence numbers go up.
abbrev pub IsRising : ℕ → List Generation → Type 0
IsRising last [] = Unit
IsRising last (g ∷ gs) = (last < g.journal_seq) × IsRising g.journal_seq gs

abbrev pub last_of : ℕ → List Generation → ℕ
last_of last [] = last
last_of last (g ∷ gs) = last_of g.journal_seq gs

encode_record_lem :
    (c : FileCodec) (g : Generation) (sequence : ℕ) (encoded : List ℕ × Generation)
    → encode_record c g sequence ≡ ok encoded
    → IsEncodable g × (encoded.0 ≡ record_bytes c sequence (sort_blocks g.blocks))
unfolding encode_record
encode_record_lem c g sequence encoded h =
    let (a, h1) = ok_of_guard (not (length g.blocks == 0)) _ _ _ h in
    let (b, h2) = ok_of_guard (leb (length g.blocks) 4294967295) _ _ _ h1 in
    let (_, h3) =
      ok_of_guard
        (leb (length g.blocks * (8 + block_size)) (9223372036854775807 - journal_record_header)) _ _
        _ h2 in
    let (d, h4) =
      ok_of_guard (whole_blocks g.blocks) _
        (ok (record_bytes c sequence (sort_blocks g.blocks), record g { journal_seq = sequence }))
        encoded h3 in
    (record { nonempty = ground (arith, a); fits = ground (arith, b); sizes = d }, cc (sym h4))

module _ (c : FileCodec) (digest_length : (bytes : List ℕ) → length (c.digest bytes) ≡ 32)
    (bound : ℕ) (fits : bound ≤ u64_mod) where
  read_records-encode_all :
      (gs : List Generation) (last fuel : ℕ) (records torn : List ℕ)
      → encode_all c gs ≡ ok records
      → All (IsStored bound) gs
      → IsRising last gs
      → length gs < fuel
      → ((f : ℕ) → read_records c bound (suc f) (last_of last gs) torn ≡ ok ([], 0))
      → read_records c bound fuel last (records ++ torn) ≡ ok (map read_back gs, length records)
  read_records-encode_all gs last zero records torn h s r l t = absurd (omega (arith, l))
  read_records-encode_all [] last (suc fuel) records torn h s r l t =
      let e : [] ≡ records = cc h in
      subst (λ x. read_records c bound (suc fuel) last (x ++ torn) ≡ ok ([], length x)) e (t fuel)
  read_records-encode_all (g ∷ gs) last (suc fuel) records torn h s r l t =
      let (encoded, e, h1) = ok_of_bind (encode_record c g g.journal_seq) _ _ h in
      let (rest, k, h2) =
        ok_of_bind (encode_all c gs) (λ rest. ok (encoded.0 ++ rest)) records h1 in
      let (able, same) = encode_record_lem c g g.journal_seq encoded e in
      let later =
        read_records-encode_all gs g.journal_seq fuel rest torn k s.1 r.1 (omega (arith, l)) t in
      let written = record_bytes c g.journal_seq (sort_blocks g.blocks) in
      let shape : records ≡ written ++ rest = cc (sym h2) ∙ ap (λ x. x ++ rest) same in
      let whole =
        read_records_whole c digest_length bound last g fits s.0 able r.0 fuel (rest ++ torn) _
          later in
      subst
        (λ x.
          read_records c bound (suc fuel) last (x ++ torn) ≡ ok (map read_back (g ∷ gs), length x))
        (sym shape) (rw (append_assoc written rest torn, length-append written rest) whole)

  length-encode_all :
      (gs : List Generation) (records : List ℕ)
      → encode_all c gs ≡ ok records
      → length gs ≤ length records
  length-encode_all [] records h = omega arith
  length-encode_all (g ∷ gs) records h =
      let (encoded, e, h1) = ok_of_bind (encode_record c g g.journal_seq) _ _ h in
      let (rest, k, h2) =
        ok_of_bind (encode_all c gs) (λ rest. ok (encoded.0 ++ rest)) records h1 in
      let (able, same) = encode_record_lem c g g.journal_seq encoded e in
      let shape : records ≡ encoded.0 ++ rest = cc (sym h2) in
      omega (
        arith,
        ap length shape,
        ap length same,
        length-append encoded.0 rest,
        length-record_bytes c digest_length g.journal_seq (sort_blocks g.blocks),
        length-encode_all gs rest k,
      )

header_lem :
    (c : FileCodec) (m : Metadata) (header : List ℕ)
    → write_header c m ≡ ok header
    → (header ≡ header_bytes c m)
      × ((length (c.metadata_body m) == 0) ≡ false)
      × (length (c.metadata_body m) ≤ max_journal_metadata)
unfolding write_header
header_lem c m header h =
    let (a, h1) =
      ok_of_guard
        (not (length (c.metadata_body m) == 0)
          && leb (length (c.metadata_body m)) max_journal_metadata)
        _ (ok (header_bytes c m)) header h in
    (cc (sym h1), ground (arith, a), ground (arith, a))

four : (a b d e f : List ℕ) → (a ++ (b ++ (d ++ e))) ++ f ≡ (a ++ b) ++ (d ++ (e ++ f))
four a b d e f = simp append_assoc refl

module _ (c : FileCodec) (digest_length : (bytes : List ℕ) → length (c.digest bytes) ≡ 32)
    (m : Metadata) (law : c.metadata_of (c.metadata_body m) ≡ some m) (rest : List ℕ)
    (found : List Generation × ℕ) (nonempty : (length (c.metadata_body m) == 0) ≡ false)
    (short : length (c.metadata_body m) ≤ max_journal_metadata) (valid : valid_metadata m ≡ true)
    (records : read_records c (m.size / m.block_size) (suc (length rest)) 0 rest ≡ ok found) where
  read_journal_behind :
      (file prefix : List ℕ)
      → read 12 file ≡ some (prefix, c.metadata_body m ++ (c.digest (c.metadata_body m) ++ rest))
      → slice prefix 0 8 ≡ header_magic
      → number_of (slice prefix 8 12) ≡ length (c.metadata_body m)
      → read_journal c file ≡ ok (m, found.0, 12 + length (c.metadata_body m) + 32 + found.1)
  unfolding read_journal
  read_journal_behind file prefix p magic size =
      rw (p, magic, size, nonempty, le_leb)
        (rw
          (
            read-append (c.metadata_body m) (c.digest (c.metadata_body m) ++ rest),
            read_exact 32 (c.digest (c.metadata_body m)) rest (digest_length (c.metadata_body m)),
            bytes_eq_refl (c.digest (c.metadata_body m)),
            law,
            valid,
            records,
          )
          refl)
    where
      le_leb : leb (length (c.metadata_body m)) max_journal_metadata ≡ true
      le_leb = ground (arith, short)

  abbrev body : List ℕ
  body = c.metadata_body m

  abbrev prefix_of : List ℕ
  prefix_of = header_magic ++ big_endian 4 (length body)

  header_shape :
      (after : List ℕ) → header_bytes c m ++ after ≡ prefix_of ++ (body ++ (c.digest body ++ after))
  unfolding header_bytes
  header_shape after = four header_magic (big_endian 4 (length body)) body (c.digest body) after

  length-header : length (header_bytes c m) ≡ 12 + length body + 32
  unfolding header_bytes
  length-header = omega (
    arith,
    length-append (big_endian 4 (length body)) (body ++ c.digest body),
    length-append body (c.digest body),
    length-big_endian 4 (length body),
    digest_length body,
  )

  length-prefix_of : length prefix_of ≡ 12
  length-prefix_of = omega (arith, length-big_endian 4 (length body))

  read_journal-header :
      read_journal c (header_bytes c m ++ rest)
      ≡ ok (m, found.0, length (header_bytes c m) + found.1)
  read_journal-header =
      read_journal_behind (header_bytes c m ++ rest) prefix_of
        (ap (read 12) (header_shape rest)
          ∙ read_exact 12 prefix_of (body ++ (c.digest body ++ rest)) length-prefix_of)
        (slice_exact 0 8 [] header_magic (big_endian 4 (length body)) refl refl)
        (ap number_of (
            ap (λ x. slice (header_magic ++ x) 8 12) (sym (append-nil (big_endian 4 (length body))))
            ∙ slice_exact 8 12 header_magic (big_endian 4 (length body)) [] refl
                (omega (arith, length-big_endian 4 (length body))))
          ∙ number_of-big_endian 4 (length body) (omega (arith, short)))
      ∙ ap (λ n. ok (m, found.0, n + found.1)) (sym length-header)

IsRising-append :
    (last : ℕ) (gs : List Generation) (g : Generation)
    → IsRising last (gs ++ (g ∷ []))
    → IsRising last gs × (last_of last gs < g.journal_seq)
IsRising-append last [] g h = (tt, h.0)
IsRising-append last (x ∷ gs) g h =
    let (a, b) = IsRising-append x.journal_seq gs g h.1 in ((h.0, a), b)

-- A file that a journal wrote, with a part of one more record behind it, is read back whole: the metadata,
-- every generation with its blocks in their order, and as valid bytes the length of the file without
-- that part, which may be empty. The generations' blocks are blocks of the volume, with no number twice,
-- the sequence numbers go up from 1 and, like the number of blocks, fit in 64 bits; a checksum has 32
-- bytes and the metadata is valid and decodes to what was encoded.
pub read_journal-file_bytes :
    (c : FileCodec) (m : Metadata) (gs : List Generation) (g : Generation) (file : List ℕ)
    (encoded : List ℕ × Generation) (cut : ℕ)
    → ((bytes : List ℕ) → length (c.digest bytes) ≡ 32)
    → c.metadata_of (c.metadata_body m) ≡ some m
    → valid_metadata m ≡ true
    → m.size / m.block_size ≤ u64_mod
    → file_bytes c m gs ≡ ok file
    → All (IsStored (m.size / m.block_size)) gs
    → IsStored (m.size / m.block_size) g
    → IsRising 0 (gs ++ (g ∷ []))
    → encode_record c g g.journal_seq ≡ ok encoded
    → cut < length encoded.0
    → read_journal c (file ++ take cut encoded.0) ≡ ok (m, map read_back gs, length file)
unfolding file_bytes
read_journal-file_bytes c m gs g file encoded cut dl law valid fits w stored torn rising e short =
    let (header, h, w1) = ok_of_bind (write_header c m) _ _ w in
    let (records, r, w2) =
      ok_of_bind (encode_all c gs) (λ records. ok (header ++ records)) file w1 in
    let (same, nonempty, few) = header_lem c m header h in
    let shape : file ≡ header_bytes c m ++ records = cc (sym w2) ∙ ap (λ x. x ++ records) same in
    let (able, bytes) = encode_record_lem c g g.journal_seq encoded e in
    let (up, next) = IsRising-append 0 gs g rising in
    let tail = take cut encoded.0 in
    let cut_off = λ (f : ℕ).
      subst
        (λ x.
          read_records c (m.size / m.block_size) (suc f) (last_of 0 gs) (take cut x) ≡ ok ([], 0))
        (sym bytes)
        (read_records_torn c dl (m.size / m.block_size) (last_of 0 gs) g fits torn able next f cut
          (omega (arith, short, ap length bytes))) in
    let enough : length gs < suc (length (records ++ tail)) = omega (
      arith,
      length-encode_all c dl (m.size / m.block_size) fits gs records r,
      length-append records tail,
    ) in
    let found =
      read_records-encode_all c dl (m.size / m.block_size) fits gs 0
        (suc (length (records ++ tail))) records tail r stored up enough cut_off in
    subst (λ x. read_journal c (x ++ tail) ≡ ok (m, map read_back gs, length x)) (sym shape)
      (ap (read_journal c) (append_assoc (header_bytes c m) records tail)
        ∙ read_journal-header c dl m law (records ++ tail) (map read_back gs, length records)
            nonempty few valid found
        ∙ ap (λ n. ok (m, map read_back gs, n)) (sym (length-append (header_bytes c m) records)))
