-- ===== src/Base/Ints.antt =====
-- Signed integers over the native numbers, under the library's names, and Go's 64-bit `int`.
use goread.Base.Tests.{ltb, leb, nat_eq, if◌then◌else◌}
use goread.Base.Eq.{Eq}
use Prim.Native.Nat.{ℕ, suc, ◌+◌, ◌-◌, ◌/◌, ◌*◌, min, ◌*◌, ◌%◌, ◌≤◌, ◌<◌}
use mathlib.Core.Path.{◌≡◌}
use mathlib.Core.Logic.{◌↔◌}
use mathlib.Core.Bool.{Bool, true, false}
use native.Mathlib.Omega.{arith}

-- `negsuc n` is -(n + 1).
pub data ℤ : Type 0 where
  pos : ℕ → ℤ
  negsuc : ℕ → ℤ

abbrev pub pos_part : ℤ → ℕ
pos_part (pos n) = n
pos_part (negsuc n) = 0

abbrev pub neg_part : ℤ → ℕ
neg_part (pos n) = 0
neg_part (negsuc n) = suc n

-- a - b, as an integer.
abbrev pub sub_ℕ : ℕ → ℕ → ℤ
sub_ℕ a b = if leb b a then pos (a - b) else negsuc (b - a - 1)

infixl 65 ◌+ℤ◌ ◌-ℤ◌
infix 50 ◌≤ℤ◌ ◌<ℤ◌
unfoldable pub ◌+ℤ◌ : ℤ → ℤ → ℤ
a +ℤ b = sub_ℕ (pos_part a + pos_part b) (neg_part a + neg_part b)

unfoldable pub ◌-ℤ◌ : ℤ → ℤ → ℤ
a -ℤ b = sub_ℕ (pos_part a + neg_part b) (neg_part a + pos_part b)

abbrev pub ◌≤ℤ◌ : ℤ → ℤ → Type 0
a ≤ℤ b = pos_part a + neg_part b ≤ pos_part b + neg_part a

abbrev pub ◌<ℤ◌ : ℤ → ℤ → Type 0
a <ℤ b = pos_part a + neg_part b < pos_part b + neg_part a

abbrev pub ltb_ℤ : ℤ → ℤ → Bool
ltb_ℤ a b = ltb (pos_part a + neg_part b) (pos_part b + neg_part a)

abbrev pub leb_ℤ : ℤ → ℤ → Bool
leb_ℤ a b = leb (pos_part a + neg_part b) (pos_part b + neg_part a)

abbrev pub int_eq : ℤ → ℤ → Bool
int_eq (pos a) (pos b) = nat_eq a b
int_eq (negsuc a) (negsuc b) = nat_eq a b
int_eq _ _ = false

pub int_eq_iff : (a b : ℤ) → (int_eq a b ≡ true) ↔ (a ≡ b)
int_eq_iff (pos a) (pos b) = ground arith
int_eq_iff (pos a) (negsuc b) = ground arith
int_eq_iff (negsuc a) (pos b) = ground arith
int_eq_iff (negsuc a) (negsuc b) = ground arith

instance abbrev pub int_Eq : Eq ℤ
int_Eq = record { beq = int_eq; beq_iff = int_eq_iff }

pub +ℤ_parts :
    (a b : ℤ)
    → pos_part (a +ℤ b) + neg_part a + neg_part b ≡ neg_part (a +ℤ b) + pos_part a + pos_part b
unfolding ◌+ℤ◌
+ℤ_parts a b = ground arith

pub -ℤ_parts :
    (a b : ℤ)
    → pos_part (a -ℤ b) + neg_part a + pos_part b ≡ neg_part (a -ℤ b) + pos_part a + neg_part b
unfolding ◌-ℤ◌
-ℤ_parts a b = ground arith

pub eq_of_parts : (a b : ℤ) → pos_part a + neg_part b ≡ pos_part b + neg_part a → a ≡ b
eq_of_parts a b h = ground arith

pub ruleset int_laws = (arith, +ℤ_parts, -ℤ_parts, eq_of_parts)

-- The value of a 64-bit pattern, and the wrap-around of Go's `int` and `int64`.
abbrev pub int_max : ℕ
int_max = 9223372036854775807

abbrev pub of_word : ℕ → ℤ
of_word w = if leb w int_max then pos w else negsuc (18446744073709551615 - w)

abbrev pub to_word : ℤ → ℕ
to_word (pos n) = n % 18446744073709551616
to_word (negsuc n) = 18446744073709551615 - n % 18446744073709551616

unfoldable pub wrap : ℤ → ℤ
wrap z = of_word (to_word z)

-- The values that an `int` can have.
abbrev pub InRange : ℤ → Type 0
InRange (pos n) = n ≤ int_max
InRange (negsuc n) = n ≤ int_max

pub wrap_of_InRange : (z : ℤ) → InRange z → wrap z ≡ z
unfolding wrap
wrap_of_InRange (pos n) h = ground arith
wrap_of_InRange (negsuc n) h = ground arith

pub wrap-InRange : (z : ℤ) → InRange (wrap z)
unfolding wrap
wrap-InRange (pos n) = ground arith
wrap-InRange (negsuc n) = ground arith

-- Go's division truncates towards zero.
unfoldable pub div_ℕ : ℤ → ℕ → ℤ
div_ℕ (pos n) d = pos (n / d)
div_ℕ (negsuc n) d = sub_ℕ 0 (suc n / d)

-- `a * d` before it wraps.
unfoldable pub mul_ℕ : ℤ → ℕ → ℤ
mul_ℕ (pos n) d = pos (n * d)
mul_ℕ (negsuc n) d = sub_ℕ 0 (suc n * d)

-- `t.Sub(u)`, in nanoseconds, which stops at the ends of the durations.
unfoldable pub since : ℕ → ℕ → ℤ
since t u = if leb u t then pos (min (t - u) int_max) else negsuc (min (u - t - 1) int_max)
