-- ===== src/Extents/Contain.antt =====
-- `extentsContain` and inclusion of the two sets of blocks.
use satchel.Base.{
  ℕ, zero, suc, ◌+◌, ◌≤◌, ◌<◌, ◌≡◌, refl, sym, ap, ◌∙◌, ◌↔◌, true, false, List, [], ◌∷◌, arith, ltb,
  u64_mod, Bool-cases, Option-cases, Option, none, some, inl, inr, ◌⊎◌, subst, ltb→lt, min, length,
}
use mathlib.Core.Bool.{false≢true}
use satchel.Extents.{
  Extent, end, skip_ended, contain_round, contain_from, contain_fuel, contain_next, contain_all,
  extents_contain,
}
use satchel.Extents.Sets.{covers, Ordered, covers-below, covers-ge}
use satchel.Extents.Subtract.{covers-skip_ended, skip_ended-Ordered}

length-skip_ended : (cursor : ℕ) (es : List Extent) → length (skip_ended cursor es) ≤ length es
unfolding skip_ended
length-skip_ended cursor [] = omega arith
length-skip_ended cursor (e ∷ es) = ground (arith, length-skip_ended cursor es)

-- What is passed over leaves an extent that ends after the cursor at the head.
skip_ended-head :
    (cursor : ℕ) (outer : List Extent) (e : Extent) (es : List Extent)
    → skip_ended cursor outer ≡ e ∷ es
    → cursor < end e
unfolding skip_ended
skip_ended-head cursor [] e es h = cc
skip_ended-head cursor (o ∷ os) e es h = ground (arith, skip_ended-head cursor os e es)

length-skip_ended_next :
    (e : Extent) (es : List Extent) → length (skip_ended (end e) (e ∷ es)) ≤ length es
unfolding skip_ended
length-skip_ended_next e es = ground (arith, length-skip_ended (end e) es)

module _ (continue : List Extent → ℕ → Option (List Extent)) (cursor stop : ℕ) where
  -- A round that goes on has found an extent at the cursor.
  contain_round-some :
      (sk : List Extent) {rest : List Extent}
      → contain_round continue cursor stop sk ≡ some rest
      → (e : Extent) × (es : List Extent) × (sk ≡ e ∷ es)
        × (e.start ≤ cursor)
        × (continue (e ∷ es) (min stop (end e)) ≡ some rest)
  unfolding contain_round
  contain_round-some [] h = absurd cc
  contain_round-some (e ∷ es) h = (e, es, refl, ground arith, ground arith)

  -- A round that stops has found no extent at the cursor, or the rest of the loop has stopped.
  contain_round-none :
      (sk : List Extent)
      → contain_round continue cursor stop sk ≡ none
      → (sk ≡ [])
        ⊎ ((e : Extent) × (es : List Extent) × (sk ≡ e ∷ es)
            × ((cursor < e.start) ⊎ (continue (e ∷ es) (min stop (end e)) ≡ none)))
  unfolding contain_round
  contain_round-none [] h = inl refl
  contain_round-none (e ∷ es) h = elim (Bool-cases (ltb cursor e.start)) [
    | inl l ↦ inr (e, es, refl, inl (ground arith))
    | inr l ↦ inr (e, es, refl, inr (ground arith))
  ]

fuel_for_next :
    (fuel stop : ℕ) (e : Extent) (es : List Extent)
    → min stop (end e) < stop
    → length es + 2 ≤ fuel
    → length (skip_ended (min stop (end e)) (e ∷ es)) + 2 ≤ fuel
fuel_for_next fuel stop e es s l =
    let same : min stop (end e) ≡ end e = omega arith in
    rw same (omega (arith, length-skip_ended_next e es))

module _ (hi : ℕ) (small : hi < u64_mod) where
  skip_ended_agrees :
      (cursor : ℕ) (outer : List Extent) (e : Extent) (es : List Extent) (b : ℕ)
      → Ordered 0 hi outer
      → skip_ended cursor outer ≡ e ∷ es
      → cursor ≤ b
      → covers (e ∷ es) b ≡ covers outer b
  skip_ended_agrees cursor outer e es b o sk l =
      ap (λ xs. covers xs b) (sym sk) ∙ covers-skip_ended cursor 0 hi outer b o small l

  after_skip_ended-Ordered :
      (cursor : ℕ) (outer : List Extent) (e : Extent) (es : List Extent)
      → Ordered 0 hi outer
      → skip_ended cursor outer ≡ e ∷ es
      → Ordered 0 hi (e ∷ es)
  after_skip_ended-Ordered cursor outer e es o sk =
      subst (Ordered 0 hi) sk (skip_ended-Ordered cursor 0 hi outer o)

  -- Where the loop succeeds, the candidate's blocks are covered, and what is left of `outer`
  -- agrees with it from the candidate's end on.
  contain_from-some :
      (fuel stop : ℕ) (outer : List Extent) (cursor : ℕ) (rest : List Extent)
      → Ordered 0 hi outer
      → contain_from fuel stop outer cursor ≡ some rest
      → ((b : ℕ) → cursor ≤ b → b < stop → covers outer b ≡ true)
        × ((b : ℕ) → cursor ≤ b → stop ≤ b → covers rest b ≡ covers outer b)
        × Ordered 0 hi rest
  unfolding contain_from
  contain_from-some zero stop outer cursor rest o h = absurd cc
  contain_from-some (suc f) stop outer cursor rest o h = elim (Bool-cases (ltb cursor stop)) [
    | inr n ↦
        let same : outer ≡ rest = ground arith in
        (
          λ b l m. absurd (ground arith),
          λ b l m. ap (λ xs. covers xs b) (sym same),
          subst (Ordered 0 hi) same o,
        )
    | inl y ↦
        let go : contain_round (contain_from f stop) cursor stop (skip_ended cursor outer)
            ≡ some rest =
          ground arith in
        let (e, es, sk, le, k) =
          contain_round-some (contain_from f stop) cursor stop (skip_ended cursor outer) go in
        let (ins, out, ord) =
          contain_from-some f stop (e ∷ es) (min stop (end e)) rest
            (after_skip_ended-Ordered cursor outer e es o sk) k in
        (
          λ b l m.
              sym (skip_ended_agrees cursor outer e es b o sk l)
              ∙ (ground (arith, ins b, after_skip_ended-Ordered cursor outer e es o sk)),
          λ b l m. out b (omega arith) m ∙ skip_ended_agrees cursor outer e es b o sk l,
          ord,
        )
  ]

  -- Where the loop fails, with enough fuel, a block of the candidate is not covered.
  contain_from-none :
      (fuel stop : ℕ) (outer : List Extent) (cursor : ℕ)
      → Ordered 0 hi outer
      → 1 ≤ fuel
      → (cursor < stop → length (skip_ended cursor outer) + 2 ≤ fuel)
      → contain_from fuel stop outer cursor ≡ none
      → (b : ℕ) × (cursor ≤ b) × (b < stop) × (covers outer b ≡ false)
  unfolding contain_from
  contain_from-none zero stop outer cursor o p q h = absurd (omega arith)
  contain_from-none (suc f) stop outer cursor o p q h = elim (Bool-cases (ltb cursor stop)) [
    | inr n ↦ absurd (ground arith)
    | inl y ↦
        let go : contain_round (contain_from f stop) cursor stop (skip_ended cursor outer) ≡ none =
          ground arith in
        elim (contain_round-none (contain_from f stop) cursor stop (skip_ended cursor outer) go) [
          | inl sk ↦ (
            cursor,
            omega arith,
            ltb→lt cursor stop y,
            sym (covers-skip_ended cursor 0 hi outer cursor o small (omega arith))
                ∙ ap (λ xs. covers xs cursor) sk,
          )
          | inr (e, es, sk, inl l) ↦
              let o' = after_skip_ended-Ordered cursor outer e es o sk in
              (
                cursor,
                omega arith,
                ltb→lt cursor stop y,
                sym (skip_ended_agrees cursor outer e es cursor o sk (omega arith))
                    ∙ covers-below e.start hi (e ∷ es) cursor (omega arith, o'.1, o'.2, o'.3) l,
              )
          | inr (e, es, sk, inr k) ↦
              let o' = after_skip_ended-Ordered cursor outer e es o sk in
              let head = skip_ended-head cursor outer e es sk in
              let size : length (skip_ended cursor outer) ≡ suc (length es) = ap length sk in
              let room = q (ltb→lt cursor stop y) in
              let (b, l, m, c) =
                contain_from-none f stop (e ∷ es) (min stop (end e)) o' (omega arith)
                  (λ s. fuel_for_next f stop e es s (omega arith)) k in
              (
                b,
                omega arith,
                m,
                sym (skip_ended_agrees cursor outer e es b o sk (omega arith)) ∙ c,
              )
        ]
  ]

  contain_all_sound :
      (outer : List Extent) (lo hi' : ℕ) (inner : List Extent) (b : ℕ)
      → Ordered 0 hi outer
      → Ordered lo hi' inner
      → hi' < u64_mod
      → contain_all outer inner ≡ true
      → covers inner b ≡ true
      → covers outer b ≡ true
  unfolding contain_all
  contain_all_sound outer lo hi' [] b o p w h c = absurd (false≢true c)
  contain_all_sound outer lo hi' (e ∷ es) b o p w h c =
      elim (Option-cases (contain_from (contain_fuel outer) (end e) outer e.start)) [
        | inl k ↦ absurd (false≢true (rw (k, contain_next) at h))
        | inr (rest, k) ↦
            let (ins, out, ord) =
              contain_from-some (contain_fuel outer) (end e) outer e.start rest o k in
            let h' : contain_all rest es ≡ true = rw (k, contain_next) at h in
            ground (
              arith,
              ins b,
              out b,
              covers-ge (e.start + e.blocks) hi' es b p.3,
              contain_all_sound rest (e.start + e.blocks) hi' es b ord p.3 w h',
            )
      ]

  contain_all_complete :
      (outer : List Extent) (lo hi' : ℕ) (inner : List Extent)
      → Ordered 0 hi outer
      → Ordered lo hi' inner
      → hi' < u64_mod
      → ((b : ℕ) → covers inner b ≡ true → covers outer b ≡ true)
      → contain_all outer inner ≡ true
  unfolding contain_all
  contain_all_complete outer lo hi' [] o p w all = refl
  contain_all_complete outer lo hi' (e ∷ es) o p w all =
      elim (Option-cases (contain_from (contain_fuel outer) (end e) outer e.start)) [
        | inl k ↦
            let (b, l, m, c) =
              contain_from-none (contain_fuel outer) (end e) outer e.start o (omega arith)
                (λ _. omega (arith, length-skip_ended e.start outer)) k in
            absurd (ground (arith, all b))
        | inr (rest, k) ↦
            let (ins, out, ord) =
              contain_from-some (contain_fuel outer) (end e) outer e.start rest o k in
            rw (k, contain_next)
              (contain_all_complete rest (e.start + e.blocks) hi' es ord p.3 w
                (λ b c. ground (arith, all b, out b, covers-ge (e.start + e.blocks) hi' es b p.3)))
      ]

  -- `extentsContain` returns true exactly when each block of the inner set is in the outer set, for
  -- ordered arguments.
  pub extents_contain_iff :
      (outer : List Extent) (hi' : ℕ) (inner : List Extent)
      → Ordered 0 hi outer
      → Ordered 0 hi' inner
      → hi' < u64_mod
      → (extents_contain outer inner ≡ true)
        ↔ ((b : ℕ) → covers inner b ≡ true → covers outer b ≡ true)
  unfolding extents_contain
  extents_contain_iff outer hi' inner o p w = (
    λ h b c. contain_all_sound outer 0 hi' inner b o p w h c,
    λ all. contain_all_complete outer 0 hi' inner o p w all,
  )
