-- ===== src/Device/Dirty.antt =====
-- The count of dirty bytes.
use satchel.Base.{
  ◌≤◌, min, not, ◌&&◌, true, false, Option, none, ℕ, zero, suc, ◌+◌, ◌-◌, ◌*◌, ◌≡◌, refl, Bool,
  List, [], ◌∷◌, arith, ltb, ◌==◌, if◌then◌else◌, length, take, some, Bool-cases, inl, inr,
}
use satchel.Base.Assoc.{lookup, insert, is_some, length-insert}
use satchel.Device.{
  Outcome, missed, covers_block, block_captured, block_read, write_failed, read_failed, zeroed,
  block_size, Block, File, Device, Captured, Generation, device_closed, out_of_range, wait, done,
  generation_bytes, capture_block, capture_write, capture, notify_dirty, must_wait, block_range,
  stored, trimmed, write_at, trim, seal, release, write_file, punch, read_block,
}
use satchel.Device.Mirror.{branch}
use satchel.Device.Replay.Trace.{Op, store, cut, seal_now, published, sealed, step, run}

-- What was dirty before with what has become active is what is dirty now with what was active.
abbrev Counts : ℕ → ℕ → ℕ → ℕ → Type 0
Counts dirty active dirty' active' = dirty' + active * block_size ≡ dirty + active' * block_size

Counts-trans :
    (d a d' a' d'' a'' : ℕ) → Counts d a d' a' → Counts d' a' d'' a'' → Counts d a d'' a''
Counts-trans d a d' a' d'' a'' h k = omega arith

insert-Counts :
    (b : ℕ) (buf : Block) (c : Captured)
    → Counts c.dirty
        (length c.blocks)
        (if is_some (lookup b c.blocks) then c.dirty else c.dirty + block_size)
        (length (insert b buf c.blocks))
insert-Counts b buf c = ground (arith, length-insert b buf c.blocks)

missed-Counts :
    (fresh : ℕ → Block) (b : ℕ) (c : Captured)
    → Counts c.dirty (length c.blocks) (missed fresh b c).dirty (length (missed fresh b c).blocks)
unfolding missed
missed-Counts fresh b c = insert-Counts b (fresh b) c

block_captured-Counts :
    (fresh : ℕ → Block) (file : File) (p : List ℕ) (off b : ℕ) (c : Captured)
    → let c' = block_captured fresh file p off b c in
      Counts c.dirty (length c.blocks) c'.dirty (length c'.blocks)
unfolding block_captured
block_captured-Counts fresh file p off b c = insert-Counts b _ c

block_read-Counts :
    (file : File) (b : ℕ) (c : Captured)
    → Counts c.dirty
        (length c.blocks)
        (block_read file b c).dirty
        (length (block_read file b c).blocks)
unfolding block_read
block_read-Counts file b c = insert-Counts b (read_block file b) c

round-Counts :
    (t : Bool) (c m w : Captured) (f : Captured → Captured × Bool)
    → Counts c.dirty (length c.blocks) m.dirty (length m.blocks)
    → Counts c.dirty (length c.blocks) w.dirty (length w.blocks)
    → Counts w.dirty (length w.blocks) (f w).0.dirty (length (f w).0.blocks)
    → let here : Captured × Bool = if t then (m, true) else (w, false) in
      let c' = (if here.1 then here else f here.0).0 in
      Counts c.dirty (length c.blocks) c'.dirty (length c'.blocks)
round-Counts true c m w f h k l = h
round-Counts false c m w f h k l =
    Counts-trans c.dirty (length c.blocks) w.dirty (length w.blocks) (f w).0.dirty
      (length (f w).0.blocks) k l

choice-Counts :
    (t : Bool) (c m : Captured) (r : Captured × Bool)
    → Counts c.dirty (length c.blocks) m.dirty (length m.blocks)
    → Counts c.dirty (length c.blocks) r.0.dirty (length r.0.blocks)
    → let c' = (if t then (m, true) else r).0 in
      Counts c.dirty (length c.blocks) c'.dirty (length c'.blocks)
choice-Counts true c m r h k = h
choice-Counts false c m r h k = k

-- The loops, wherever they end.
capture_write-Counts :
    (fresh : ℕ → Block) (fails : ℕ → Bool) (file : File) (p : List ℕ) (off block n : ℕ)
    (c : Captured)
    → let c' = (capture_write fresh fails file p off block n c).0 in
      Counts c.dirty (length c.blocks) c'.dirty (length c'.blocks)
unfolding capture_write capture_block
capture_write-Counts fresh fails file p off block zero c = refl
capture_write-Counts fresh fails file p off block (suc n) c =
    round-Counts
      (not (is_some (lookup block c.blocks)) && not (covers_block p off block) && fails block) c
      (missed fresh block c) (block_captured fresh file p off block c)
      (λ x. capture_write fresh fails file p off (block + 1) n x) (missed-Counts fresh block c)
      (block_captured-Counts fresh file p off block c)
      (capture_write-Counts fresh fails file p off (block + 1) n
        (block_captured fresh file p off block c))

capture-Counts :
    (fresh : ℕ → Block) (fails : ℕ → Bool) (file : File) (block n : ℕ) (c : Captured)
    → let c' = (capture fresh fails file block n c).0 in
      Counts c.dirty (length c.blocks) c'.dirty (length c'.blocks)
unfolding capture
capture-Counts fresh fails file block zero c = refl
capture-Counts fresh fails file block (suc n) c =
    choice-Counts (fails block) c (missed fresh block c)
      (capture fresh fails file (block + 1) n (block_read file block c))
      (missed-Counts fresh block c)
      (let c1 = block_read file block c in
        let c2 = (capture fresh fails file (block + 1) n c1).0 in
        Counts-trans c.dirty (length c.blocks) c1.dirty (length c1.blocks) c2.dirty
          (length c2.blocks) (block_read-Counts file block c)
          (capture-Counts fresh fails file (block + 1) n c1))

-- The bytes of the generations.
abbrev pub all_bytes : List Generation → ℕ
all_bytes [] = 0
all_bytes (g ∷ gs) = generation_bytes (some g) + all_bytes gs

-- The dirty count accounts for the active generation and for what was sealed.
record Accounts (d d' : Device) (gs : List Generation) : Type 0 where
  balanced :
      d'.dirty + length d.active * block_size
      ≡ d.dirty + (length d'.active * block_size + all_bytes gs)

notify_dirty-Accounts : (d d' : Device) → Accounts d d' [] → Accounts d (notify_dirty d') []
unfolding notify_dirty
notify_dirty-Accounts d d' h = ground arith

write_at-Accounts :
    (fresh : ℕ → Block) (fails : ℕ → Bool) (d : Device) (p : List ℕ) (off n : ℕ) (failed : Bool)
    → Accounts d (write_at fresh fails d p off n failed).0 []
unfolding write_at stored
write_at-Accounts fresh fails d p off n failed =
    let P = λ (x : Device). Accounts d x [] in
    let same : Accounts d d [] = record { balanced = omega arith } in
    let r = stored fresh fails d (take n p) off in
    let counted : Accounts d r.0 [] = record {
      balanced = omega (
        arith,
        capture_write-Counts fresh fails (write_file d.file off (take n p)) (take n p) off
            (block_range off (length (take n p))).0
            ((block_range off (length (take n p))).1 - (block_range off (length (take n p))).0)
            (record { blocks = d.active; dirty = d.dirty }),
      );
    } in
    branch P d.closed (d, device_closed) _ same
      λ _.
        branch P (ltb d.size (off + length p)) (d, out_of_range) _ same
          λ _.
            branch P (must_wait d (block_range off (length p)).0 (block_range off (length p)).1)
              (d, wait) _ same
              λ _.
                branch P (length (take n p) == 0) (d, done 0 failed) _ same
                  λ _.
                    branch P r.1 (r.0, read_failed (length (take n p))) _ counted
                      λ _. notify_dirty-Accounts d r.0 counted

zeroed-Accounts :
    (d : Device) (broken : Option ℕ) (off len : ℕ) (rest : Device × Outcome)
    → Accounts d rest.0 []
    → Accounts d (zeroed broken d off len rest).0 []
zeroed-Accounts d none off len rest h = h
zeroed-Accounts d (some m) off len rest h =
    branch (λ (x : Device). Accounts d x []) (len == 0) rest
      (record d { file = punch d.file off (min m len) }, write_failed) h
      λ _. record { balanced = omega arith }

trim-Accounts :
    (fresh : ℕ → Block) (fails : ℕ → Bool) (broken : Option ℕ) (d : Device) (off len : ℕ)
    → Accounts d (trim fresh fails broken d off len).0 []
unfolding trim trimmed
trim-Accounts fresh fails broken d off len =
    let P = λ (x : Device). Accounts d x [] in
    let same : Accounts d d [] = record { balanced = omega arith } in
    let r = trimmed fresh fails d off len in
    let counted : Accounts d r.0 [] = record {
      balanced = omega (
        arith,
        capture-Counts fresh fails (punch d.file off len) (block_range off len).0
            ((block_range off len).1 - (block_range off len).0)
            (record { blocks = d.active; dirty = d.dirty }),
      );
    } in
    branch P d.closed (d, device_closed) _ same
      λ _.
        branch P (ltb d.size (off + len)) (d, out_of_range) _ same
          λ _.
            branch P (must_wait d (block_range off len).0 (block_range off len).1) (d, wait) _ same
              λ _. zeroed-Accounts d broken off len _ (
                branch P r.1 (r.0, read_failed 0) _ counted
                  (λ _. notify_dirty-Accounts d r.0 counted))

seal-Accounts : (d : Device) → let (d', gs) = sealed (seal d) in Accounts d d' gs
unfolding seal generation_bytes
seal-Accounts d = elim (Bool-cases (length d.active == 0)) [
  | inl e ↦ rw e (record { balanced = omega arith })
  | inr e ↦ rw e (record { balanced = ground arith })
]

-- The bytes of generations that are sealed and not released, after a call and after calls.
abbrev pub still_held : ℕ → Device → Op → ℕ
still_held n d (store fresh whole fails p off k failed) = n
still_held n d (cut fresh fails broken off len) = n
still_held n d seal_now = n + all_bytes (sealed (seal d)).1
still_held n d (published g) = n - generation_bytes (some g)

abbrev pub outstanding : ℕ → Device → List Op → ℕ
outstanding n d [] = n
outstanding n d (op ∷ ops) = outstanding (still_held n d op) (step d op).0 ops

-- A generation is released only once it is sealed: its bytes are some that are held.
abbrev pub Backed : ℕ → Op → Type 0
Backed n (store fresh whole fails p off k failed) = Unit
Backed n (cut fresh fails broken off len) = Unit
Backed n seal_now = Unit
Backed n (published g) = generation_bytes (some g) ≤ n

abbrev pub AllBacked : ℕ → Device → List Op → Type 0
AllBacked n d [] = Unit
AllBacked n d (op ∷ ops) = Backed n op × AllBacked (still_held n d op) (step d op).0 ops

step-balance :
    (n : ℕ) (d : Device) (op : Op)
    → d.dirty ≡ length d.active * block_size + n
    → Backed n op
    → (step d op).0.dirty ≡ length (step d op).0.active * block_size + still_held n d op
unfolding step release
step-balance n d (store fresh whole fails p off k failed) e b =
    omega (arith, e, (write_at-Accounts fresh fails d p off k failed).balanced)
step-balance n d (cut fresh fails broken off len) e b =
    omega (arith, e, (trim-Accounts fresh fails broken d off len).balanced)
step-balance n d seal_now e b = omega (arith, e, (seal-Accounts d).balanced)
step-balance n d (published g) e b = omega (arith, e, b)

-- From a device that accounts for `n` bytes besides its active blocks, any writes, trims, seals and
-- releases, also those that fail: the dirty count is 4096 for each active block and the bytes of the
-- generations sealed and not released, the `n` bytes among them. A release is of bytes that are held.
pub dirty-run :
    (n : ℕ) (d : Device) (ops : List Op)
    → d.dirty ≡ length d.active * block_size + n
    → AllBacked n d ops
    → (run d ops).0.dirty ≡ length (run d ops).0.active * block_size + outstanding n d ops
unfolding run
dirty-run n d [] e b = e
dirty-run n d (op ∷ ops) e b =
    dirty-run (still_held n d op) (step d op).0 ops (step-balance n d op e b.0) b.1
