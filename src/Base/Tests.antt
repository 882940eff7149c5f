-- ===== src/Base/Tests.antt =====
-- Boolean tests on the native numbers, the conditional, and case splits that keep the equation.
use Prim.Native.Nat.{ℕ, ◌+◌, ◌%◌, ◌^◌, ◌≤◌, ◌<◌, compare, Ordering}
use mathlib.Core.Path.{◌≡◌, refl}
use mathlib.Core.Logic.{◌↔◌, ◌⊎◌, inl, inr}
use mathlib.Core.Bool.{Bool, true, false}
use mathlib.Core.Option.{Option, none, some}
use native.Mathlib.Omega.{arith}

abbrev pub ltb : ℕ → ℕ → Bool
ltb a b = elim (compare a b) [ Ordering.lt ↦ true | _ ↦ false ]

abbrev pub leb : ℕ → ℕ → Bool
leb a b = elim (compare a b) [ Ordering.gt ↦ false | _ ↦ true ]

infix 50 ◌==◌
abbrev pub ◌==◌ : ℕ → ℕ → Bool
a == b = elim (compare a b) [ Ordering.eq ↦ true | _ ↦ false ]

infix 1 if◌then◌else◌
abbrev pub if◌then◌else◌ {ℓ} : {A : Type ℓ} → Bool → A → A → A
if true then x else y = x
if false then x else y = y

pub ltb→lt : (a b : ℕ) → ltb a b ≡ true → a < b
ltb→lt a b h = ground arith

pub lt→ltb : (a b : ℕ) → a < b → ltb a b ≡ true
lt→ltb a b h = ground arith

pub leb→le : (a b : ℕ) → leb a b ≡ true → a ≤ b
leb→le a b h = ground arith

pub ==_iff : (a b : ℕ) → ((a == b) ≡ true) ↔ (a ≡ b)
==_iff a b = ground arith

pub Bool-cases : (b : Bool) → (b ≡ true) ⊎ (b ≡ false)
Bool-cases true = inl refl
Bool-cases false = inr refl

pub Option-cases {ℓ} : {A : Type ℓ} (o : Option A) → (o ≡ none) ⊎ ((a : A) × (o ≡ some a))
Option-cases none = inl refl
Option-cases (some a) = inr (a, refl)

-- What a conditional result says of the branch that is taken.
pub taken {ℓ} :
    {A : Type ℓ} (t : Bool) (x z : A) (y : Option A)
    → t ≡ true
    → (if t then some x else y) ≡ some z
    → x ≡ z
taken t x z y h e = cc (rw h at e)

pub not_taken {ℓ} :
    {A : Type ℓ} (t : Bool) (x z : A) (y : Option A)
    → t ≡ false
    → (if t then some x else y) ≡ some z
    → y ≡ some z
not_taken t x z y h e = rw h at e

pub lt_or_ge : (k n : ℕ) → (k < n) ⊎ (n ≤ k)
lt_or_ge k n = ground arith

pub ltb_irrefl : (k : ℕ) → ltb k k ≡ false
ltb_irrefl k = ground arith

pub ltb-suc_of_ne : (k b : ℕ) → (k == b) ≡ false → ltb b (k + 1) ≡ ltb b k
ltb-suc_of_ne k b h = ground arith

-- A number of type uint64, and arithmetic on such numbers.
abbrev pub u64_mod : ℕ
u64_mod = 2 ^ 64

abbrev pub u64 : ℕ → ℕ
u64 n = n % u64_mod
