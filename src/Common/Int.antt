-- ===== src/Common/Int.antt =====
-- The C type `int`: signed integers over the native numbers, with the 32-bit wrap written out.
-- ISO C leaves a signed overflow undefined; what is written here is the two's complement result.
use Prim.Native.Nat.{ℕ, suc, ◌+◌, ◌-◌, ◌*◌, ◌%◌, ◌^◌, ◌≤◌, ◌<◌}
use mathlib.Core.Path.{◌≡◌}
use mathlib.Core.Logic.{◌⊎◌, ◌↔◌}
use mathlib.Core.Bool.{Bool, true}
use native.Mathlib.Omega.{arith}
use transaction_models_minin.Common.Tests.{ltb, leb, ◌==◌, if◌then◌else◌}

-- `negsuc n` is -(n + 1).
pub data ℤ : Type 0 where
  pos : ℕ → ℤ
  negsuc : ℕ → ℤ

abbrev pub pos_part : ℤ → ℕ
pos_part (pos n) = n
pos_part (negsuc n) = 0

abbrev pub neg_part : ℤ → ℕ
neg_part (pos n) = 0
neg_part (negsuc n) = suc n

abbrev pub sub_ℕ : ℕ → ℕ → ℤ
sub_ℕ a b = if leb b a then pos (a - b) else negsuc (b - a - 1)

infixl 65 ◌+ℤ◌ ◌-ℤ◌
infixl 70 ◌*ℤ◌
infix 50 ◌≤ℤ◌ ◌<ℤ◌
unfoldable pub ◌+ℤ◌ : ℤ → ℤ → ℤ
a +ℤ b = sub_ℕ (pos_part a + pos_part b) (neg_part a + neg_part b)

unfoldable pub ◌-ℤ◌ : ℤ → ℤ → ℤ
a -ℤ b = sub_ℕ (pos_part a + neg_part b) (neg_part a + pos_part b)

unfoldable pub ◌*ℤ◌ : ℤ → ℤ → ℤ
a *ℤ b =
    sub_ℕ (pos_part a * pos_part b + neg_part a * neg_part b)
      (pos_part a * neg_part b + neg_part a * pos_part b)

abbrev pub ◌≤ℤ◌ : ℤ → ℤ → Type 0
a ≤ℤ b = pos_part a + neg_part b ≤ pos_part b + neg_part a

abbrev pub ◌<ℤ◌ : ℤ → ℤ → Type 0
a <ℤ b = pos_part a + neg_part b < pos_part b + neg_part a

abbrev pub ltb_ℤ : ℤ → ℤ → Bool
ltb_ℤ a b = ltb (pos_part a + neg_part b) (pos_part b + neg_part a)

abbrev pub leb_ℤ : ℤ → ℤ → Bool
leb_ℤ a b = leb (pos_part a + neg_part b) (pos_part b + neg_part a)

abbrev pub eqb_ℤ : ℤ → ℤ → Bool
eqb_ℤ a b = pos_part a + neg_part b == pos_part b + neg_part a

abbrev pub int_max : ℕ
int_max = 2147483647

-- The values of `int`.
abbrev pub FitsInt : ℤ → Type 0
FitsInt z = (pos_part z ≤ int_max) × (neg_part z ≤ int_max + 1)

-- The number that the low 32 bits of `z` stand for.
unfoldable pub wrap32 : ℤ → ℤ
wrap32 (pos n) =
    let low = n % 2 ^ 32 in if leb low int_max then pos low else negsuc (2 ^ 32 - low - 1)
wrap32 (negsuc n) =
    let low = n % 2 ^ 32 in if leb low int_max then negsuc low else pos (2 ^ 32 - low - 1)

unfoldable pub add_int : ℤ → ℤ → ℤ
unfolding wrap32 ◌+ℤ◌
add_int a b = wrap32 (a +ℤ b)

unfoldable pub sub_int : ℤ → ℤ → ℤ
unfolding wrap32 ◌-ℤ◌
sub_int a b = wrap32 (a -ℤ b)

unfoldable pub mul_int : ℤ → ℤ → ℤ
unfolding wrap32 ◌*ℤ◌
mul_int a b = wrap32 (a *ℤ b)

pub wrap32-FitsInt : (z : ℤ) → FitsInt (wrap32 z)
unfolding wrap32
wrap32-FitsInt (pos n) = ground arith
wrap32-FitsInt (negsuc n) = ground arith

pub wrap32_of_FitsInt : (z : ℤ) → FitsInt z → wrap32 z ≡ z
unfolding wrap32
wrap32_of_FitsInt (pos n) h = ground arith
wrap32_of_FitsInt (negsuc n) h = ground arith

pub +ℤ_parts :
    (a b : ℤ)
    → pos_part (a +ℤ b) + neg_part a + neg_part b ≡ neg_part (a +ℤ b) + pos_part a + pos_part b
unfolding ◌+ℤ◌
+ℤ_parts a b = ground arith

pub -ℤ_parts :
    (a b : ℤ)
    → pos_part (a -ℤ b) + neg_part a + pos_part b ≡ neg_part (a -ℤ b) + pos_part a + neg_part b
unfolding ◌-ℤ◌
-ℤ_parts a b = ground arith

-- The parts of an integer are never both positive.
pub parts_disjoint : (a : ℤ) → (pos_part a ≡ 0) ⊎ (neg_part a ≡ 0)
parts_disjoint a = ground arith

pub eq_of_parts : (a b : ℤ) → pos_part a + neg_part b ≡ pos_part b + neg_part a → a ≡ b
eq_of_parts a b h = ground arith

pub ruleset int_laws = (arith, +ℤ_parts, -ℤ_parts, eq_of_parts)

pub add_int_fits : (a b : ℤ) → FitsInt (a +ℤ b) → add_int a b ≡ a +ℤ b
unfolding add_int
add_int_fits a b h = wrap32_of_FitsInt (a +ℤ b) h

pub sub_int_fits : (a b : ℤ) → FitsInt (a -ℤ b) → sub_int a b ≡ a -ℤ b
unfolding sub_int
sub_int_fits a b h = wrap32_of_FitsInt (a -ℤ b) h

pub add_int-FitsInt : (a b : ℤ) → FitsInt (add_int a b)
unfolding add_int
add_int-FitsInt a b = wrap32-FitsInt (a +ℤ b)

-- An increment never keeps its argument, even where it wraps.
pub add_int_one_ne : (a : ℤ) → FitsInt a → add_int a (pos 1) ≡ a → ⊥
unfolding add_int
add_int_one_ne (pos n) h e = ground arith
add_int_one_ne (negsuc n) h e = ground arith

pub eqb_ℤ_iff : (a b : ℤ) → (eqb_ℤ a b ≡ true) ↔ (a ≡ b)
eqb_ℤ_iff a b = ground arith

pub FitsInt-of_bounds : (a : ℤ) → a ≤ℤ pos int_max → negsuc int_max ≤ℤ a → FitsInt a
FitsInt-of_bounds (pos n) h k = omega arith
FitsInt-of_bounds (negsuc n) h k = omega arith

pub add_int_bounds :
    (a b : ℤ) → a +ℤ b ≤ℤ pos int_max → negsuc int_max ≤ℤ a +ℤ b → add_int a b ≡ a +ℤ b
add_int_bounds a b h k = add_int_fits a b (FitsInt-of_bounds (a +ℤ b) h k)

pub sub_int_bounds :
    (a b : ℤ) → a -ℤ b ≤ℤ pos int_max → negsuc int_max ≤ℤ a -ℤ b → sub_int a b ≡ a -ℤ b
sub_int_bounds a b h k = sub_int_fits a b (FitsInt-of_bounds (a -ℤ b) h k)

-- An equation of integers, as `omega` reads it.
pub parts_of_eq : {a b : ℤ} → a ≡ b → pos_part a + neg_part b ≡ pos_part b + neg_part a
parts_of_eq {a} {b} h = ground arith
