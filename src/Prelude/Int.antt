-- ===== src/Prelude/Int.antt =====
-- Signed integers over the native numbers, and Go's `int32` as a wrap of them.
use Prim.Native.Nat.{ℕ, suc, ◌+◌, ◌-◌, ◌≤◌, ◌<◌, ◌%◌}
use mathlib.Core.Path.{◌≡◌}
use mathlib.Core.Bool.{Bool}
use native.Mathlib.Omega.{arith}
use nearby_backend.Prelude.Tests.{ltb, leb, if◌then◌else◌}

-- `negsuc n` is -(n + 1).
pub data ℤ : Type 0 where
  pos : ℕ → ℤ
  negsuc : ℕ → ℤ

abbrev pub pos_part : ℤ → ℕ
pos_part (pos n) = n
pos_part (negsuc n) = 0

abbrev pub neg_part : ℤ → ℕ
neg_part (pos n) = 0
neg_part (negsuc n) = suc n

abbrev pub sub_ℕ : ℕ → ℕ → ℤ
sub_ℕ a b = if leb b a then pos (a - b) else negsuc (b - a - 1)

infixl 65 ◌+ℤ◌
infix 50 ◌≤ℤ◌ ◌<ℤ◌
unfoldable pub ◌+ℤ◌ : ℤ → ℤ → ℤ
a +ℤ b = sub_ℕ (pos_part a + pos_part b) (neg_part a + neg_part b)

abbrev pub ◌≤ℤ◌ : ℤ → ℤ → Type 0
a ≤ℤ b = pos_part a + neg_part b ≤ pos_part b + neg_part a

abbrev pub ◌<ℤ◌ : ℤ → ℤ → Type 0
a <ℤ b = pos_part a + neg_part b < pos_part b + neg_part a

abbrev pub ltb_ℤ : ℤ → ℤ → Bool
ltb_ℤ a b = ltb (pos_part a + neg_part b) (pos_part b + neg_part a)

abbrev pub leb_ℤ : ℤ → ℤ → Bool
leb_ℤ a b = leb (pos_part a + neg_part b) (pos_part b + neg_part a)

pub +ℤ_parts :
    (a b : ℤ)
    → pos_part (a +ℤ b) + neg_part a + neg_part b ≡ neg_part (a +ℤ b) + pos_part a + pos_part b
unfolding ◌+ℤ◌
+ℤ_parts a b = ground arith

pub eq_of_parts : (a b : ℤ) → pos_part a + neg_part b ≡ pos_part b + neg_part a → a ≡ b
eq_of_parts a b h = ground arith

-- 2³¹, the number of values of `int32` on either side of 0.
abbrev pub half32 : ℕ
half32 = 2147483648

abbrev pub size32 : ℕ
size32 = 4294967296

-- The 32-bit pattern of an integer, as a number below 2³².
abbrev pub word32 : ℤ → ℕ
word32 (pos n) = n % size32
word32 (negsuc n) = size32 - 1 - n % size32

-- The `int32` of a pattern.
abbrev pub signed32 : ℕ → ℤ
signed32 w = if ltb w half32 then pos w else negsuc (size32 - 1 - w)

-- The value that an `int32` variable holds after an integer is stored in it.
unfoldable pub wrap32 : ℤ → ℤ
wrap32 a = signed32 (word32 a)

-- The integer is a value of `int32`.
abbrev pub IsInt32 : ℤ → Type 0
IsInt32 a = (pos_part a < half32) × (neg_part a ≤ half32)

pub wrap32_id : (a : ℤ) → IsInt32 a → wrap32 a ≡ a
unfolding wrap32
wrap32_id (pos n) h = ground arith
wrap32_id (negsuc n) h = ground arith

pub wrap32-IsInt32 : (a : ℤ) → IsInt32 (wrap32 a)
unfolding wrap32
wrap32-IsInt32 (pos n) = ground arith
wrap32-IsInt32 (negsuc n) = ground arith

wrap32_add_pos : (n : ℕ) (b : ℤ) → wrap32 (wrap32 (pos n) +ℤ b) ≡ wrap32 (pos n +ℤ b)
unfolding wrap32 ◌+ℤ◌
wrap32_add_pos n (pos m) = ground arith
wrap32_add_pos n (negsuc m) = ground arith

wrap32_add_negsuc : (n : ℕ) (b : ℤ) → wrap32 (wrap32 (negsuc n) +ℤ b) ≡ wrap32 (negsuc n +ℤ b)
unfolding wrap32 ◌+ℤ◌
wrap32_add_negsuc n (pos m) = ground arith
wrap32_add_negsuc n (negsuc m) = ground arith

-- Wrapping in between changes nothing in the end.
pub wrap32_add : (a b : ℤ) → wrap32 (wrap32 a +ℤ b) ≡ wrap32 (a +ℤ b)
wrap32_add (pos n) b = wrap32_add_pos n b
wrap32_add (negsuc n) b = wrap32_add_negsuc n b

pub +ℤ_assoc : (a b c : ℤ) → a +ℤ b +ℤ c ≡ a +ℤ (b +ℤ c)
+ℤ_assoc a b c = omega (arith, +ℤ_parts, eq_of_parts)

pub +ℤ_left_comm : (a b c : ℤ) → a +ℤ (b +ℤ c) ≡ b +ℤ (a +ℤ c)
+ℤ_left_comm a b c = omega (arith, +ℤ_parts, eq_of_parts)

pub +ℤ_zero : (a : ℤ) → a +ℤ pos 0 ≡ a
+ℤ_zero a = omega (arith, +ℤ_parts, eq_of_parts)
