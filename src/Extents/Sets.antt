-- ===== src/Extents/Sets.antt =====
-- The set of blocks that a list of extents stands for, and the well-formed lists.
use satchel.Base.{
  ℕ, ◌+◌, ◌≤◌, ◌<◌, ◌≡◌, refl, Bool, true, false, ◌&&◌, ◌||◌, List, [], ◌∷◌, ◌++◌, arith, ltb, leb,
}
use mathlib.Core.Bool.{false≢true}
use satchel.Extents.{Extent}

-- The block `b` lies in the extent.
abbrev pub has : Extent → ℕ → Bool
has e b = leb e.start b && ltb b (e.start + e.blocks)

abbrev pub covers : List Extent → ℕ → Bool
covers [] b = false
covers (e ∷ es) b = has e b || covers es b

-- Sorted, disjoint and nonempty extents from `lo` to `hi`.
abbrev pub Ordered : ℕ → ℕ → List Extent → Type 0
Ordered lo hi [] = Unit
Ordered lo hi (e ∷ es) =
    (lo ≤ e.start) × (0 < e.blocks) × (e.start + e.blocks ≤ hi) × Ordered (e.start + e.blocks) hi es

-- Ordered, with a gap before each extent but the first: no two extents touch.
abbrev pub Separated : ℕ → ℕ → List Extent → Type 0
Separated lo hi [] = Unit
Separated lo hi (e ∷ es) =
    (lo ≤ e.start)
    × (0 < e.blocks)
    × (e.start + e.blocks ≤ hi)
    × Separated (e.start + e.blocks + 1) hi es

-- Extents whose end does not pass `hi`, in any order.
abbrev pub Within : ℕ → List Extent → Type 0
Within hi [] = Unit
Within hi (e ∷ es) = (e.start + e.blocks ≤ hi) × Within hi es

-- Sorted by their start.
abbrev pub Sorted : ℕ → List Extent → Type 0
Sorted lo [] = Unit
Sorted lo (e ∷ es) = (lo ≤ e.start) × Sorted e.start es

abbrev pub total_blocks : List Extent → ℕ
total_blocks [] = 0
total_blocks (e ∷ es) = e.blocks + total_blocks es

pub or_assoc : (a b c : Bool) → ((a || b) || c) ≡ (a || (b || c))
or_assoc true b c = refl
or_assoc false b c = refl

pub covers-append :
    (xs ys : List Extent) (b : ℕ) → covers (xs ++ ys) b ≡ (covers xs b || covers ys b)
covers-append [] ys b = refl
covers-append (x ∷ xs) ys b = ground (arith, covers-append xs ys b)

pub Ordered-lower :
    (lo lo' hi : ℕ) (es : List Extent) → lo' ≤ lo → Ordered lo hi es → Ordered lo' hi es
Ordered-lower lo lo' hi [] l h = tt
Ordered-lower lo lo' hi (e ∷ es) l h = (omega arith, h.1, h.2, h.3)

pub Ordered-upper :
    (lo hi hi' : ℕ) (es : List Extent) → hi ≤ hi' → Ordered lo hi es → Ordered lo hi' es
Ordered-upper lo hi hi' [] l h = tt
Ordered-upper lo hi hi' (e ∷ es) l h =
    (h.0, h.1, omega arith, Ordered-upper (e.start + e.blocks) hi hi' es l h.3)

pub Separated-Ordered : (lo hi : ℕ) (es : List Extent) → Separated lo hi es → Ordered lo hi es
Separated-Ordered lo hi [] h = tt
Separated-Ordered lo hi (e ∷ es) h = (
  h.0,
  h.1,
  h.2,
  Ordered-lower _ _ hi es (omega arith) (Separated-Ordered (e.start + e.blocks + 1) hi es h.3),
)

pub Ordered-Within : (lo hi : ℕ) (es : List Extent) → Ordered lo hi es → Within hi es
Ordered-Within lo hi [] h = tt
Ordered-Within lo hi (e ∷ es) h = (h.2, Ordered-Within (e.start + e.blocks) hi es h.3)

pub Sorted-lower : (lo lo' : ℕ) (es : List Extent) → lo' ≤ lo → Sorted lo es → Sorted lo' es
Sorted-lower lo lo' [] l h = tt
Sorted-lower lo lo' (e ∷ es) l h = (omega arith, h.1)

pub Ordered-Sorted : (lo hi : ℕ) (es : List Extent) → Ordered lo hi es → Sorted lo es
Ordered-Sorted lo hi [] h = tt
Ordered-Sorted lo hi (e ∷ es) h = (
  h.0,
  Sorted-lower (e.start + e.blocks) e.start es (omega arith)
      (Ordered-Sorted (e.start + e.blocks) hi es h.3),
)

-- No block below the first extent is covered, and none from `hi` on.
pub covers-below :
    (lo hi : ℕ) (es : List Extent) (b : ℕ) → Ordered lo hi es → b < lo → covers es b ≡ false
covers-below lo hi [] b h l = refl
covers-below lo hi (e ∷ es) b h l = ground (arith, covers-below (e.start + e.blocks) hi es b h.3)

pub covers-ge :
    (lo hi : ℕ) (es : List Extent) (b : ℕ) → Ordered lo hi es → covers es b ≡ true → lo ≤ b
covers-ge lo hi [] b h c = absurd (false≢true c)
covers-ge lo hi (e ∷ es) b h c = ground (arith, covers-ge (e.start + e.blocks) hi es b h.3)

pub covers-above : (hi : ℕ) (es : List Extent) (b : ℕ) → Within hi es → hi ≤ b → covers es b ≡ false
covers-above hi [] b h l = refl
covers-above hi (e ∷ es) b h l = ground (arith, covers-above hi es b h.1 l)

-- The blocks that an ordered list covers are counted by its lengths.
pub total-le :
    (lo hi : ℕ) (es : List Extent) → Ordered lo hi es → lo ≤ hi → lo + total_blocks es ≤ hi
total-le lo hi [] h l = omega arith
total-le lo hi (e ∷ es) h l = omega (arith, total-le (e.start + e.blocks) hi es h.3 h.2)

pub Ordered-append :
    (lo mid hi : ℕ) (xs ys : List Extent)
    → lo ≤ mid
    → mid ≤ hi
    → Ordered lo mid xs
    → Ordered mid hi ys
    → Ordered lo hi (xs ++ ys)
Ordered-append lo mid hi [] ys l m h k = Ordered-lower mid lo hi ys l k
Ordered-append lo mid hi (x ∷ xs) ys l m h k =
    (h.0, h.1, omega arith, Ordered-append (x.start + x.blocks) mid hi xs ys h.2 m h.3 k)
