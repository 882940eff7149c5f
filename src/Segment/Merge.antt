-- ===== src/Segment/Merge.antt =====
-- `mergeGenerations`: one generation in place of several.
use mathlib.Core.Path.{fun_ext}
use satchel.Base.{
  ℕ, ◌/◌, ◌≡◌, refl, ◌∙◌, List, [], ◌∷◌, arith, ◌==◌, Option, none, some, All, Bool-cases,
  Option-cases, inl, inr, ap,
}
use satchel.Base.Assoc.{lookup, insert, lookup-insert, Unique}
use satchel.Device.{block_size, Block, Blocks, File, Generation}
use satchel.Device.Replay.Recovery.{overlay}
use satchel.Device.Replay.Trace.{overlays}
use satchel.Segment.{absorb, absorb_all, merge_generations}

-- The newer buffer of a block, or else the older one.
abbrev newer : Option Block → Option Block → Option Block
newer none old = old
newer (some buf) old = some buf

lookup-absorb :
    (acc m : Blocks) (b : ℕ)
    → Unique m
    → lookup b (absorb acc m) ≡ newer (lookup b m) (lookup b acc)
unfolding absorb lookup
lookup-absorb acc [] b u = refl
lookup-absorb acc ((k, buf) ∷ m) b u =
    lookup-absorb (insert k buf acc) m b u.1 ∙ (elim (Bool-cases (k == b)) [
      | inl e ↦ ground (arith, lookup-insert k b buf acc)
      | inr e ↦ ground (arith, lookup-insert k b buf acc)
    ])

overlay-absorb :
    (acc m : Blocks) (file : File) (i : ℕ)
    → Unique m
    → overlay (absorb acc m) file i ≡ overlay m (overlay acc file) i
overlay-absorb acc m file i u = elim (Option-cases (lookup (i / block_size) m)) [
  | inl e ↦ rw (lookup-absorb acc m (i / block_size) u, e) refl
  | inr (buf, e) ↦ rw (lookup-absorb acc m (i / block_size) u, e) refl
]

overlay-absorb_all :
    (acc : Blocks) (gs : List Generation) (file : File)
    → All (λ (g : Generation). Unique g.blocks) gs
    → overlay (absorb_all acc gs) file ≡ overlays gs (overlay acc file)
unfolding absorb_all
overlay-absorb_all acc [] file u = refl
overlay-absorb_all acc (g ∷ gs) file u =
    overlay-absorb_all (absorb acc g.blocks) gs file u.1
    ∙ ap (overlays gs) (fun_ext (λ i. overlay-absorb acc g.blocks file i u.0))

overlay-nothing : (file : File) → overlay [] file ≡ file
unfolding lookup
overlay-nothing file = refl

-- A merged generation laid over an image gives what its generations give one after the other, for
-- generations that hold no block twice.
pub overlay-merge_generations :
    (gs : List Generation) (file : File)
    → All (λ (g : Generation). Unique g.blocks) gs
    → overlay (merge_generations gs).blocks file ≡ overlays gs file
unfolding merge_generations
overlay-merge_generations gs file u =
    overlay-absorb_all [] gs file u ∙ ap (overlays gs) (overlay-nothing file)
