-- ===== src/Segment/Encode/Runs.antt =====
-- The runs of `encodeSegmentBlocks`: they hold the blocks in their order, and keep apart.
use satchel.Base.{
  ℕ, ◌+◌, ◌≤◌, ◌<◌, ◌≡◌, refl, ◌∙◌, sym, ap, arith, Bool, true, false, ◌&&◌, List, [], ◌∷◌, ◌++◌,
  ltb, ◌==◌, length, All, All-append, append_assoc, append-nil, length-append, u64, u64_mod,
}
use satchel.Device.{Block, Blocks, block_size}
use satchel.Journal.{whole_blocks}
use satchel.Journal.Format.Sort.{Sorted, Below}
use satchel.Journal.Format.Records.{whole_block}
use satchel.Segment.Encode.{Run, push_run, push_runs, max_run_blocks}

abbrev pub numbered : ℕ → List Block → Blocks
numbered start [] = []
numbered start (buf ∷ bufs) = (start, buf) ∷ numbered (start + 1) bufs

-- The blocks of runs.
abbrev pub flatten : List Run → Blocks
flatten [] = []
flatten (r ∷ rs) = numbered r.start r.buffers ++ flatten rs

-- Runs from `lo` on and below `hi`, in order, of one to 256 blocks.
abbrev pub RunsIn : ℕ → ℕ → List Run → Type 0
RunsIn lo hi [] = lo ≤ hi
RunsIn lo hi (r ∷ rs) =
    (lo ≤ r.start)
    × (0 < length r.buffers)
    × (length r.buffers ≤ 256)
    × All (λ (buf : Block). length buf ≡ block_size) r.buffers
    × RunsIn (r.start + length r.buffers) hi rs

numbered-append :
    (start : ℕ) (xs ys : List Block)
    → numbered start (xs ++ ys) ≡ numbered start xs ++ numbered (start + length xs) ys
numbered-append start [] ys = ap (λ n. numbered n ys) (omega arith)
numbered-append start (x ∷ xs) ys =
    ap (λ m. (start, x) ∷ m)
      (numbered-append (start + 1) xs ys
        ∙ ap (λ n. numbered (start + 1) xs ++ numbered n ys) (omega arith))

RunsIn-upper : (lo hi bound : ℕ) (rs : List Run) → hi ≤ bound → RunsIn lo hi rs → RunsIn lo bound rs
RunsIn-upper lo hi bound [] l h = omega (arith, l, h)
RunsIn-upper lo hi bound (r ∷ rs) l h =
    (h.0, h.1, h.2, h.3, RunsIn-upper (r.start + length r.buffers) hi bound rs l h.4)

-- One block more.
record IsPushed (lo : ℕ) (rs : List Run) (block : ℕ) (buf : Block) : Type 0 where
  runs : RunsIn lo (block + 1) (push_run rs block buf)
  blocks : flatten (push_run rs block buf) ≡ flatten rs ++ ((block, buf) ∷ [])

module _ (block : ℕ) (buf : Block) (fits : block < u64_mod) (size : length buf ≡ block_size) where
  push_last :
      (lo : ℕ) (r : Run) (t : Bool)
      → ((block == u64 (r.start + length r.buffers)) && ltb (length r.buffers) max_run_blocks) ≡ t
      → RunsIn lo block (r ∷ [])
      → IsPushed lo (r ∷ []) block buf
  unfolding push_run
  push_last lo r true e (l, p, m, s, k) =
      let same : block ≡ r.start + length r.buffers = ground (arith, e, k, fits) in
      let room : length r.buffers < 256 = ground (arith, e) in
      record {
        runs = rw e (
          l,
          omega (arith, length-append r.buffers (buf ∷ [])),
          omega (arith, room, length-append r.buffers (buf ∷ [])),
          All-append _ r.buffers (buf ∷ []) s (size, tt),
          omega (arith, same, length-append r.buffers (buf ∷ [])),
        );
        blocks = rw e (
            append-nil _
            ∙ numbered-append r.start r.buffers (buf ∷ [])
            ∙ ap (λ n. numbered r.start r.buffers ++ ((n, buf) ∷ [])) (sym same)
            ∙ ap (λ m. m ++ ((block, buf) ∷ [])) (sym (append-nil (numbered r.start r.buffers))));
      }
  push_last lo r false e (l, p, m, s, k) = record {
    runs = rw e (l, p, m, s, (k, omega arith, omega arith, (size, tt), omega arith));
    blocks =
        rw e (ap (λ x. x ++ ((block, buf) ∷ [])) (sym (append-nil (numbered r.start r.buffers))));
  }

  push_run-IsPushed : (lo : ℕ) (rs : List Run) → RunsIn lo block rs → IsPushed lo rs block buf
  unfolding push_run
  push_run-IsPushed lo [] h = record {
    runs = (h, omega arith, omega arith, (size, tt), omega arith);
    blocks = refl;
  }
  push_run-IsPushed lo (r ∷ []) h = push_last lo r _ refl h
  push_run-IsPushed lo (r ∷ s ∷ rs) (l, p, m, z, k) =
      let later = push_run-IsPushed (r.start + length r.buffers) (s ∷ rs) k in
      record {
        runs = (l, p, m, z, later.runs);
        blocks =
            ap (λ x. numbered r.start r.buffers ++ x) later.blocks
            ∙ sym
                (append_assoc (numbered r.start r.buffers) (flatten (s ∷ rs)) ((block, buf) ∷ []));
      }

-- Blocks that go up.
pub record IsRuns (lo bound : ℕ) (before m : Blocks) (runs : List Run) : Type 0 where
  pub bounded : RunsIn lo bound runs
  pub blocks : flatten runs ≡ before ++ m

push_runs_onto-IsRuns :
    (lo low bound : ℕ) (rs : List Run) (m : Blocks)
    → bound ≤ u64_mod
    → low ≤ bound
    → RunsIn lo low rs
    → Sorted low m
    → Below bound m
    → whole_blocks m ≡ true
    → IsRuns lo bound (flatten rs) m (push_runs rs m)
unfolding push_runs
push_runs_onto-IsRuns lo low bound rs [] fits l h s b w = record {
  bounded = RunsIn-upper lo low bound rs l h;
  blocks = sym (append-nil (flatten rs));
}
push_runs_onto-IsRuns lo low bound rs ((block, buf) ∷ m) fits l h s b w =
    let (size, w') = whole_block buf m block w in
    let one =
      push_run-IsPushed block buf (omega (arith, fits, b.0)) size lo rs
        (RunsIn-upper lo low block rs s.0 h) in
    let rest =
      push_runs_onto-IsRuns lo (block + 1) bound (push_run rs block buf) m fits (omega (arith, b.0))
        one.runs s.1 b.1 w' in
    record {
      bounded = rest.bounded;
      blocks =
          rest.blocks
          ∙ ap (λ x. x ++ m) one.blocks
          ∙ append_assoc (flatten rs) ((block, buf) ∷ []) m;
    }

-- The runs of sorted blocks hold these blocks.
pub push_runs-IsRuns :
    (bound : ℕ) (low : ℕ) (m : Blocks)
    → bound ≤ u64_mod
    → low ≤ bound
    → Sorted low m
    → Below bound m
    → whole_blocks m ≡ true
    → IsRuns low bound [] m (push_runs [] m)
push_runs-IsRuns bound low m fits l s b w =
    push_runs_onto-IsRuns low low bound [] m fits l (omega arith) s b w

pub RunsIn-least : (lo hi : ℕ) (rs : List Run) → RunsIn lo hi rs → lo ≤ hi
RunsIn-least lo hi [] h = h
RunsIn-least lo hi (r ∷ rs) h =
    omega (arith, h.0, RunsIn-least (r.start + length r.buffers) hi rs h.4)
