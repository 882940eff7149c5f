-- ===== src/Device/Replay/Trace.antt =====
-- What a device seals in the course of any calls, replayed on the image that it started from.
use mathlib.Core.Path.{fun_ext}
use satchel.Base.{
  suc, min, ℕ, ◌+◌, ◌%◌, ◌≡◌, refl, sym, ap, subst, ◌∙◌, Bool, true, false, List, [], ◌∷◌, ◌++◌,
  arith, ◌==◌, if◌then◌else◌, length, take, Option, none, some, All, Bool-cases, inl, inr, ltb,
}
use satchel.Base.Assoc.{lookup, Unique}
use satchel.Device.Whole.{is_failure}
use satchel.Device.{
  Outcome, write_failed, read_failed, zeroed, punch, block_size, Block, File, Device, Generation,
  device_closed, out_of_range, wait, done, stored, trimmed, write_at, trim, seal, release,
  notify_dirty, generation_bytes, must_wait, block_range,
}
use satchel.Device.Mirror.{Mirrors, branch, write_at-Mirrors}
use satchel.Device.Trim.{trim-Mirrors}
use satchel.Device.Replay.{replay_blocks, replay_from, replay}
use satchel.Device.Replay.Recovery.{overlay, Fits, replay_blocks_lem, Mirrors-overlay}

-- A call, with what the pool and the file answer to it.
pub data Op : Type 0 where
  store :
      (fresh : ℕ → Block)
      → ((b : ℕ) → length (fresh b) ≡ block_size)
      → (ℕ → Bool)
      → List ℕ
      → ℕ
      → ℕ
      → Bool
      → Op
  cut : (ℕ → Block) → (ℕ → Bool) → Option ℕ → ℕ → ℕ → Op
  seal_now : Op
  published : Generation → Op

abbrev pub sealed : Device × Option Generation → Device × List Generation
sealed (d, none) = (d, [])
sealed (d, some g) = (d, g ∷ [])

-- One call, and the generation that it seals.
unfoldable pub step : Device → Op → Device × List Generation
step d (store fresh whole fails p off n failed) = ((write_at fresh fails d p off n failed).0, [])
step d (cut fresh fails broken off len) = ((trim fresh fails broken d off len).0, [])
step d seal_now = sealed (seal d)
step d (published g) = (release d (some g), [])

unfoldable pub run : Device → List Op → Device × List Generation
unfolding step
run d [] = (d, [])
run d (op ∷ ops) = let (d', gs) = step d op in let (d'', gs') = run d' ops in (d'', gs ++ gs')

-- A call does not end with a failure to read a block or to write zeros.
abbrev pub Works : Device → Op → Type 0
Works d (store fresh whole fails p off n failed) =
    is_failure (write_at fresh fails d p off n failed).1 ≡ false
Works d (cut fresh fails broken off len) = is_failure (trim fresh fails broken d off len).1 ≡ false
Works d seal_now = Unit
Works d (published g) = Unit

abbrev pub AllWork : Device → List Op → Type 0
AllWork d [] = Unit
AllWork d (op ∷ ops) = Works d op × AllWork (step d op).0 ops

abbrev pub overlays : List Generation → File → File
overlays [] file = file
overlays (g ∷ gs) file = overlays gs (overlay g.blocks file)

pub overlays-append :
    (gs hs : List Generation) (file : File)
    → overlays (gs ++ hs) file ≡ overlays hs (overlays gs file)
overlays-append [] hs file = refl
overlays-append (g ∷ gs) hs file = overlays-append gs hs (overlay g.blocks file)

AllFit-append :
    (size : ℕ) (gs hs : List Generation)
    → All (λ (g : Generation). Fits size g.blocks) gs
    → All (λ (g : Generation). Fits size g.blocks) hs
    → All (λ (g : Generation). Fits size g.blocks) (gs ++ hs)
AllFit-append size [] hs h k = k
AllFit-append size (g ∷ gs) hs h k = (h.0, AllFit-append size gs hs h.1 k)

-- After a call the image is mirrored over what was sealed by it.
pub record Sealed (size : ℕ) (shadow : File) (r : Device × List Generation) : Type 0 where
  pub mirrors : Mirrors (overlays r.1 shadow) r.0
  pub fit : All (λ (g : Generation). Fits size g.blocks) r.1
  pub same_size : r.0.size ≡ size

seal-Sealed :
    (shadow : File) (d : Device) → Mirrors shadow d → Sealed d.size shadow (sealed (seal d))
unfolding seal lookup
seal-Sealed shadow d m = elim (Bool-cases (length d.active == 0)) [
  | inl e ↦ rw e (record { mirrors = m; fit = tt; same_size = refl })
  | inr e ↦ rw e (record {
    mirrors = record {
      held = λ b buf h. absurd cc;
      kept = λ i h. Mirrors-overlay shadow d i m;
      inside = λ b buf h. absurd cc;
      unique = tt;
    };
    fit = (
      record { whole = λ b buf h. (m.held b buf h).whole; inside = m.inside; unique = m.unique },
      tt,
    );
    same_size = refl;
  })
]

record HasSize (n : ℕ) (d : Device) : Type 0 where
  size_is : d.size ≡ n

notify_dirty-HasSize : (n : ℕ) (d : Device) → HasSize n d → HasSize n (notify_dirty d)
unfolding notify_dirty
notify_dirty-HasSize n d h = ground arith

write_at-HasSize :
    (fresh : ℕ → Block) (fails : ℕ → Bool) (d : Device) (p : List ℕ) (off n : ℕ) (failed : Bool)
    → HasSize d.size (write_at fresh fails d p off n failed).0
unfolding write_at stored
write_at-HasSize fresh fails d p off n failed =
    let same : HasSize d.size d = record { size_is = refl } in
    let r = stored fresh fails d (take n p) off in
    branch (HasSize d.size) d.closed (d, device_closed) _ same
      λ _.
        branch (HasSize d.size) (ltb d.size (off + length p)) (d, out_of_range) _ same
          λ _.
            branch (HasSize d.size)
              (must_wait d (block_range off (length p)).0 (block_range off (length p)).1) (d, wait)
              _ same
              λ _.
                branch (HasSize d.size) (length (take n p) == 0) (d, done 0 failed) _ same
                  λ _.
                    branch (HasSize d.size) r.1 (r.0, read_failed (length (take n p))) _
                      (record { size_is = refl })
                      λ _. notify_dirty-HasSize d.size r.0 (record { size_is = refl })

zeroed-HasSize :
    (d : Device) (broken : Option ℕ) (off len : ℕ) (rest : Device × Outcome)
    → HasSize d.size rest.0
    → HasSize d.size (zeroed broken d off len rest).0
zeroed-HasSize d none off len rest h = h
zeroed-HasSize d (some m) off len rest h =
    branch (HasSize d.size) (len == 0) rest
      (record d { file = punch d.file off (min m len) }, write_failed) h
      λ _. record { size_is = refl }

trim-HasSize :
    (fresh : ℕ → Block) (fails : ℕ → Bool) (broken : Option ℕ) (d : Device) (off len : ℕ)
    → HasSize d.size (trim fresh fails broken d off len).0
unfolding trim trimmed
trim-HasSize fresh fails broken d off len =
    let same : HasSize d.size d = record { size_is = refl } in
    let r = trimmed fresh fails d off len in
    branch (HasSize d.size) d.closed (d, device_closed) _ same
      λ _.
        branch (HasSize d.size) (ltb d.size (off + len)) (d, out_of_range) _ same
          λ _.
            branch (HasSize d.size) (must_wait d (block_range off len).0 (block_range off len).1)
              (d, wait) _ same
              λ _. zeroed-HasSize d broken off len _ (
                branch (HasSize d.size) r.1 (r.0, read_failed 0) _ (record { size_is = refl })
                  λ _. notify_dirty-HasSize d.size r.0 (record { size_is = refl }))

pub start-Mirrors : (d : Device) → d.active ≡ [] → Mirrors d.file d
unfolding lookup
start-Mirrors d e = record {
  held = λ b buf h. absurd (none≢some (rw e at h));
  kept = λ i h. refl;
  inside = λ b buf h. absurd (none≢some (rw e at h));
  unique = subst (λ m. Unique m) (sym e) tt;
}
  where
    none≢some : {x : Block} → ◌≡◌ {A = Option Block} none (some x) → ⊥
    none≢some h = cc

step-Sealed :
    (shadow : File) (d : Device) (op : Op)
    → Mirrors shadow d
    → d.size % block_size ≡ 0
    → Works d op
    → Sealed d.size shadow (step d op)
unfolding step release
step-Sealed shadow d (store fresh whole fails p off n failed) m a works = record {
  mirrors = write_at-Mirrors shadow d m a fresh fails p off n failed whole works;
  fit = tt;
  same_size = (write_at-HasSize fresh fails d p off n failed).size_is;
}
step-Sealed shadow d (cut fresh fails broken off len) m a works = record {
  mirrors = trim-Mirrors shadow d m a fresh fails broken off len works;
  fit = tt;
  same_size = (trim-HasSize fresh fails broken d off len).size_is;
}
step-Sealed shadow d seal_now m a works = seal-Sealed shadow d m
step-Sealed shadow d (published g) m a works = record {
  mirrors = record { held = m.held; kept = m.kept; inside = m.inside; unique = m.unique };
  fit = tt;
  same_size = refl;
}

run-Sealed :
    (shadow : File) (d : Device) (ops : List Op)
    → Mirrors shadow d
    → d.size % block_size ≡ 0
    → AllWork d ops
    → Sealed d.size shadow (run d ops)
unfolding run
run-Sealed shadow d [] m a works = record { mirrors = m; fit = tt; same_size = refl }
run-Sealed shadow d (op ∷ ops) m a works =
    let (d', gs) = step d op in
    let here = step-Sealed shadow d op m a works.0 in
    let later =
      run-Sealed (overlays gs shadow) d' ops here.mirrors
        (ap (λ s. s % block_size) here.same_size ∙ a) works.1 in
    let gs' = (run d' ops).1 in
    record {
      mirrors =
          subst (λ f. Mirrors f (run d' ops).0) (sym (overlays-append gs gs' shadow)) later.mirrors;
      fit =
          AllFit-append d.size gs gs' here.fit
            (subst (λ s. All (λ (g : Generation). Fits s g.blocks) gs') here.same_size later.fit);
      same_size = later.same_size ∙ here.same_size;
    }

replay_from_lem :
    (fails : ℕ → ℕ → Option ℕ) (d : Device) (gs : List Generation)
    → ((i b : ℕ) → fails i b ≡ none)
    → All (λ (g : Generation). Fits d.size g.blocks) gs
    → ((replay_from fails d gs).1 ≡ true) × ((replay_from fails d gs).0.file ≡ overlays gs d.file)
unfolding replay_from
replay_from_lem fails d [] q f = (refl, refl)
replay_from_lem fails d (g ∷ gs) q f =
    let (good, at) = replay_blocks_lem (fails 0) d.size d.file g.blocks (q 0) f.0 in
    let next : Device = record d {
      file = (replay_blocks (fails 0) d.size d.file g.blocks).0;
      dirty = d.dirty + generation_bytes (some g);
    } in
    let (good', same) = replay_from_lem (λ i. fails (suc i)) next gs (λ i. q (suc i)) f.1 in
    rw good (good', same ∙ ap (overlays gs) (fun_ext at))

replay-open :
    (fails : ℕ → ℕ → Option ℕ) (r : Device) (gs : List Generation)
    → r.closed ≡ false
    → replay fails r gs ≡ replay_from fails r gs
unfolding replay
replay-open fails r gs o = ap (λ t. if t then (r, false) else replay_from fails r gs) o

-- From a device with an empty active generation, any writes, trims, seals and releases that do not end
-- with a failure to read a block or to write zeros: copies of what they seal can be replayed, when no
-- write fails, without an error on a device with the image they began with, and give the image they
-- end with, but for the blocks that are still in the active generation.
pub replay-run :
    (d r : Device) (ops : List Op) (fails : ℕ → ℕ → Option ℕ)
    → d.active ≡ []
    → d.size % block_size ≡ 0
    → AllWork d ops
    → r.closed ≡ false
    → r.size ≡ d.size
    → r.file ≡ d.file
    → ((i b : ℕ) → fails i b ≡ none)
    → let (d', gs) = run d ops in
      ((replay fails r gs).1 ≡ true)
      × ((i : ℕ) → overlay d'.active (replay fails r gs).0.file i ≡ d'.file i)
replay-run d r ops fails e a works o s f q =
    let s0 = run-Sealed d.file d ops (start-Mirrors d e) a works in
    let gs = (run d ops).1 in
    let (good', same) =
      replay_from_lem fails r gs q
        (subst (λ n. All (λ (g : Generation). Fits n g.blocks) gs) (sym s) s0.fit) in
    let opened = replay-open fails r gs o in
    (
      ap (λ x. x.1) opened ∙ good',
      λ i.
          ap (λ x. overlay (run d ops).0.active x.0.file i) opened
          ∙ ap (λ h. overlay (run d ops).0.active h i) (same ∙ ap (overlays gs) f)
          ∙ sym (Mirrors-overlay (overlays gs d.file) (run d ops).0 i s0.mirrors),
    )
