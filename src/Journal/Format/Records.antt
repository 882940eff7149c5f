-- ===== src/Journal/Format/Records.antt =====
-- The blocks of a record, read back from its payload.
use satchel.Base.{
  ℕ, ◌+◌, ◌-◌, ◌≤◌, ◌<◌, ◌≡◌, refl, ◌∙◌, arith, true, false, List, [], ◌∷◌, ◌++◌, ◌==◌, length,
  take, All, none, some, ok, append_assoc, Bool-cases, inl, inr, ==_iff, lt_or_ge, lt→ltb, ap,
  length-take, length-append, u64_mod,
}
use satchel.Base.Binary.{
  big_endian, read, read_exact, read_short, take_past, length-big_endian, number_of-big_endian,
}
use satchel.Device.{Block, Blocks, block_size}
use satchel.Journal.{whole_blocks}
use satchel.Journal.Format.{encode_blocks, has_number, read_data, read_block, read_blocks}
use satchel.Journal.Format.Sort.{Sorted, Below}

has_number-below : (b : ℕ) (seen : List ℕ) → All (λ k. k < b) seen → has_number b seen ≡ false
has_number-below b [] h = refl
has_number-below b (k ∷ seen) h = ground (arith, h.0, has_number-below b seen h.1)

All-lt_mono :
    (low high : ℕ) (seen : List ℕ) → low ≤ high → All (λ k. k < low) seen → All (λ k. k < high) seen
All-lt_mono low high [] l h = tt
All-lt_mono low high (k ∷ seen) l h = (omega (arith, l, h.0), All-lt_mono low high seen l h.1)

read_block_short :
    (bound : ℕ) (seen bytes : List ℕ) → length bytes < 8 → read_block bound seen bytes ≡ ok none
unfolding read_block
read_block_short bound seen bytes h = rw (read_short 8 bytes h) refl

-- One block that is in the volume and new.
module _ (bound b : ℕ) (seen : List ℕ) (in_bound : b < bound) (fits : b < u64_mod)
    (fresh : All (λ k. k < b) seen) where
  read_block_head :
      (after : List ℕ)
      → read_block bound seen (big_endian 8 b ++ after)
        ≡ ok (read_data (big_endian 8 b) (read block_size after))
  unfolding read_block
  read_block_head after = rw (read_exact 8 (big_endian 8 b) after (length-big_endian 8 b)) (
      rw (number_of-big_endian 8 b fits, lt→ltb b bound in_bound, has_number-below b seen fresh)
        refl)

  read_block_torn :
      (after : List ℕ)
      → length after < block_size
      → read_block bound seen (big_endian 8 b ++ after) ≡ ok none
  read_block_torn after h =
      read_block_head after
      ∙ ap (λ r. ok (read_data (big_endian 8 b) r)) (read_short block_size after h)

  read_block_whole :
      (buf : Block) (after : List ℕ)
      → length buf ≡ block_size
      → read_block bound seen (big_endian 8 b ++ (buf ++ after))
        ≡ ok (some (b, big_endian 8 b ++ buf, buf, after))
  read_block_whole buf after h =
      read_block_head (buf ++ after)
      ∙ ap (λ r. ok (read_data (big_endian 8 b) r)) (read_exact block_size buf after h)
      ∙ ap (λ n. ok (some (n, big_endian 8 b ++ buf, buf, after))) (number_of-big_endian 8 b fits)

pub whole_block :
    (buf : Block) (m : Blocks) (b : ℕ)
    → whole_blocks ((b, buf) ∷ m) ≡ true
    → (length buf ≡ block_size) × (whole_blocks m ≡ true)
whole_block buf m b h = elim (Bool-cases (length buf == block_size)) [
  | inl e ↦ ((==_iff (length buf) block_size).0 e, rw e at h)
  | inr e ↦ absurd (cc (rw e at h))
]

module _ (bound : ℕ) (fits : bound ≤ u64_mod) where
  pub read_blocks-encode_blocks :
      (low : ℕ) (m : Blocks) (seen rest : List ℕ)
      → Sorted low m
      → Below bound m
      → whole_blocks m ≡ true
      → All (λ k. k < low) seen
      → read_blocks bound (length m) seen (encode_blocks m ++ rest)
        ≡ ok (some (m, encode_blocks m, rest))
  unfolding read_blocks encode_blocks
  read_blocks-encode_blocks low [] seen rest s l w fresh = refl
  read_blocks-encode_blocks low ((b, buf) ∷ m) seen rest s l w fresh =
      let (size, w') = whole_block buf m b w in
      let new = All-lt_mono low b seen s.0 fresh in
      let first =
        read_block_whole bound b seen l.0 (omega (arith, l.0, fits)) new buf
          (encode_blocks m ++ rest) size in
      let later =
        read_blocks-encode_blocks (b + 1) m (b ∷ seen) rest s.1 l.1 w'
          (omega arith, All-lt_mono b (b + 1) seen (omega arith) new) in
      rw (append_assoc, append_assoc, first, later)
        (ap (λ x. ok (some ((b, buf) ∷ m, x, rest)))
          (append_assoc (big_endian 8 b) buf (encode_blocks m)))

  -- A payload that is cut off is a torn record.
  pub read_blocks_torn :
      (low n : ℕ) (m : Blocks) (seen : List ℕ)
      → Sorted low m
      → Below bound m
      → whole_blocks m ≡ true
      → All (λ k. k < low) seen
      → n < length (encode_blocks m)
      → read_blocks bound (length m) seen (take n (encode_blocks m)) ≡ ok none
  unfolding read_blocks encode_blocks
  read_blocks_torn low n [] seen s l w fresh h = absurd (omega (arith, h))
  read_blocks_torn low n ((b, buf) ∷ m) seen s l w fresh h =
      let (size, w') = whole_block buf m b w in
      let new = All-lt_mono low b seen s.0 fresh in
      elim (lt_or_ge n 8) [
        | inl short ↦
            rw
              (read_block_short bound seen (take n (big_endian 8 b ++ (buf ++ encode_blocks m)))
                (omega (arith, short, length-take n (big_endian 8 b ++ (buf ++ encode_blocks m)))))
              refl
        | inr long ↦ elim (lt_or_ge n (8 + block_size)) [
          | inl within ↦
              rw
                (
                  take_past n (n - 8) (big_endian 8 b) (buf ++ encode_blocks m)
                      (omega (arith, long, length-big_endian 8 b)),
                  read_block_torn bound b seen l.0 (omega (arith, l.0, fits)) new
                      (take (n - 8) (buf ++ encode_blocks m))
                      (omega (arith, within, length-take (n - 8) (buf ++ encode_blocks m))),
                )
                refl
          | inr past ↦
              rw
                (
                  take_past n (n - 8) (big_endian 8 b) (buf ++ encode_blocks m)
                      (omega (arith, long, length-big_endian 8 b)),
                  take_past (n - 8) (n - (8 + block_size)) buf (encode_blocks m)
                      (omega (arith, past, size)),
                  read_block_whole bound b seen l.0 (omega (arith, l.0, fits)) new buf
                      (take (n - (8 + block_size)) (encode_blocks m)) size,
                  read_blocks_torn (b + 1) (n - (8 + block_size)) m (b ∷ seen) s.1 l.1 w'
                      (omega arith, All-lt_mono b (b + 1) seen (omega arith) new)
                      (omega (
                        arith,
                        past,
                        h,
                        size,
                        length-append (big_endian 8 b) (buf ++ encode_blocks m),
                        length-append buf (encode_blocks m),
                        length-big_endian 8 b,
                      )),
                )
                refl
        ]
      ]
