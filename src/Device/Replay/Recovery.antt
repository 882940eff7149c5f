-- ===== src/Device/Replay/Recovery.antt =====
-- The inner loop of `Device.Replay`, and a generation's blocks laid over an image.
use satchel.Base.{
  ℕ, ◌+◌, ◌-◌, ◌*◌, ◌/◌, ◌%◌, ◌≤◌, ◌≡◌, refl, sym, ap, subst, ◌∙◌, true, false, not, ◌||◌, [], ◌∷◌,
  arith, leb, ◌==◌, ==_iff, if◌then◌else◌, length, Option, none, some, Bool-cases, Option-cases,
  inl, inr,
}
use satchel.Base.Bytes.{get_or}
use satchel.Base.Assoc.{lookup, Unique}
use satchel.Device.{block_size, Block, Blocks, File, Device, write_file}
use satchel.Device.Mirror.{Mirrors}
use satchel.Device.Replay.{replay_blocks}

-- A file with the buffers of a generation over it.
abbrev pub byte_of : Option Block → ℕ → ℕ → ℕ
byte_of none byte i = byte
byte_of (some buf) byte i = get_or buf i 0

abbrev pub overlay : Blocks → File → File
overlay m file i = byte_of (lookup (i / block_size) m) (file i) (i % block_size)

-- Whole blocks inside the device, none twice.
pub record Fits (size : ℕ) (m : Blocks) : Type 0 where
  pub whole : (b : ℕ) (buf : Block) → lookup b m ≡ some buf → length buf ≡ block_size
  pub inside : (b : ℕ) (buf : Block) → lookup b m ≡ some buf → b * block_size + block_size ≤ size
  pub unique : Unique m

lookup-cons :
    (k b : ℕ) (buf : Block) (m : Blocks)
    → lookup k ((b, buf) ∷ m) ≡ (if b == k then some buf else lookup k m)
unfolding lookup
lookup-cons k b buf m = refl

Fits-tail : (size b : ℕ) (buf : Block) (m : Blocks) → Fits size ((b, buf) ∷ m) → Fits size m
Fits-tail size b buf m f = record {
  whole = λ k x e. f.whole k x (later k x e);
  inside = λ k x e. f.inside k x (later k x e);
  unique = f.unique.1;
}
  where
    later : (k : ℕ) (x : Block) → lookup k m ≡ some x → lookup k ((b, buf) ∷ m) ≡ some x
    later k x e = ground (arith, lookup-cons k b buf m, f.unique.0)

overlay-cons :
    (file : File) (b : ℕ) (buf : Block) (m : Blocks) (i : ℕ)
    → length buf ≡ block_size
    → lookup b m ≡ none
    → overlay m (write_file file (b * block_size) buf) i ≡ overlay ((b, buf) ∷ m) file i
overlay-cons file b buf m i w u = elim (Bool-cases (b == i / block_size)) [
  | inl e ↦
      let q : b ≡ i / block_size = (==_iff b (i / block_size)).0 e in
      let r : i - b * block_size ≡ i % block_size = omega arith in
      let gone : lookup (i / block_size) m ≡ none = subst (λ t. lookup t m ≡ none) q u in
      let at = ap (λ t. get_or buf t 0) r in rw (lookup-cons, e, gone) (written q at)
  | inr e ↦
      rw (lookup-cons, e)
        (ap (λ t. byte_of (lookup (i / block_size) m) t (i % block_size)) (apart e))
]
  where
    written :
        b ≡ i / block_size
        → get_or buf (i - b * block_size) 0 ≡ get_or buf (i % block_size) 0
        → write_file file (b * block_size) buf i ≡ get_or buf (i % block_size) 0
    written q at = ground arith

    apart : (b == i / block_size) ≡ false → write_file file (b * block_size) buf i ≡ file i
    apart e = ground arith

-- Replaying the blocks of a generation that fits succeeds when no write fails, and lays them over the file.
pub replay_blocks_lem :
    (fails : ℕ → Option ℕ) (size : ℕ) (file : File) (m : Blocks)
    → ((b : ℕ) → fails b ≡ none)
    → Fits size m
    → ((replay_blocks fails size file m).1 ≡ true)
      × ((i : ℕ) → (replay_blocks fails size file m).0 i ≡ overlay m file i)
unfolding replay_blocks lookup
replay_blocks_lem fails size file [] q f = (refl, λ i. refl)
replay_blocks_lem fails size file ((b, buf) ∷ m) q f =
    let w : length buf ≡ block_size = f.whole b buf (first b) in
    let l = f.inside b buf (first b) in
    let good : (not (length buf == block_size) || leb (size / block_size) b) ≡ false = guard w l in
    let (ok, at) =
      replay_blocks_lem fails size (write_file file (b * block_size) buf) m q
        (Fits-tail size b buf m f) in
    rw (good, q b) (ok, λ i. at i ∙ overlay-cons file b buf m i w f.unique.0)
  where
    first : (b : ℕ) → lookup b ((b, buf) ∷ m) ≡ some buf
    first b = ground arith

    guard :
        length buf ≡ block_size
        → b * block_size + block_size ≤ size
        → (not (length buf == block_size) || leb (size / block_size) b) ≡ false
    guard w l = ground arith

pub Mirrors-overlay :
    (shadow : File) (d : Device) (i : ℕ) → Mirrors shadow d → d.file i ≡ overlay d.active shadow i
Mirrors-overlay shadow d i m = elim (Option-cases (lookup (i / block_size) d.active)) [
  | inl e ↦ rw e (m.kept i e)
  | inr (buf, e) ↦
      let q : i / block_size * block_size + i % block_size ≡ i = omega arith in
      rw e (sym ((m.held (i / block_size) buf e).same (i % block_size) (omega arith) ∙ ap d.file q))
]
