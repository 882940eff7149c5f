-- ===== src/Journal/Format/Parts.antt =====
-- The fields of a record's header, cut out of its 60 bytes.
use satchel.Base.{
  ℕ, ◌≡◌, refl, ◌∙◌, sym, arith, List, [], ◌++◌, length, append-nil, append_assoc, ap,
  length-append,
}
use satchel.Base.Bytes.{slice}
use satchel.Base.Binary.{slice_exact}

module _ (a b c d e : List ℕ) (la : length a ≡ 8) (lb : length b ≡ 8) (lc : length c ≡ 4)
    (ld : length d ≡ 8) (le : length e ≡ 32) where
  abbrev pub whole : List ℕ
  whole = a ++ (b ++ (c ++ (d ++ e)))

  pub length-whole : length whole ≡ 60
  length-whole = omega (
    arith,
    la,
    lb,
    lc,
    ld,
    le,
    length-append a (b ++ (c ++ (d ++ e))),
    length-append b (c ++ (d ++ e)),
    length-append c (d ++ e),
    length-append d e,
  )

  pub slice_a : slice whole 0 8 ≡ a
  slice_a = slice_exact 0 8 [] a (b ++ (c ++ (d ++ e))) refl (omega (arith, la))

  pub slice_b : slice whole 8 16 ≡ b
  slice_b = slice_exact 8 16 a b (c ++ (d ++ e)) la (omega (arith, lb))

  pub slice_c : slice whole 16 20 ≡ c
  slice_c =
      ap (λ w. slice w 16 20) (sym (append_assoc a b (c ++ (d ++ e))))
      ∙ slice_exact 16 20 (a ++ b) c (d ++ e) (omega (arith, la, lb, length-append a b))
          (omega (arith, lc))

  pub slice_d : slice whole 20 28 ≡ d
  slice_d =
      ap (λ w. slice w 20 28)
        (sym (append_assoc a b (c ++ (d ++ e))) ∙ sym (append_assoc (a ++ b) c (d ++ e)))
      ∙ slice_exact 20 28 ((a ++ b) ++ c) d e
          (omega (arith, la, lb, lc, length-append a b, length-append (a ++ b) c))
          (omega (arith, ld))

  pub slice_e : slice whole 28 60 ≡ e
  slice_e =
      ap (λ w. slice w 28 60)
        (sym (append_assoc a b (c ++ (d ++ e)))
          ∙ sym (append_assoc (a ++ b) c (d ++ e))
          ∙ sym (append_assoc ((a ++ b) ++ c) d e)
          ∙ ap (λ w. (((a ++ b) ++ c) ++ d) ++ w) (sym (append-nil e)))
      ∙ slice_exact 28 60 (((a ++ b) ++ c) ++ d) e []
          (omega (
            arith,
            la,
            lb,
            lc,
            ld,
            length-append a b,
            length-append (a ++ b) c,
            length-append ((a ++ b) ++ c) d,
          ))
          (omega (arith, le))

  pub slice_bcd : slice whole 8 28 ≡ b ++ (c ++ d)
  slice_bcd =
      ap (λ w. slice (a ++ w) 8 28)
        (ap (λ w. b ++ w) (sym (append_assoc c d e)) ∙ sym (append_assoc b (c ++ d) e))
      ∙ slice_exact 8 28 a (b ++ (c ++ d)) e la
          (omega (arith, lb, lc, ld, length-append b (c ++ d), length-append c d))
