-- ===== src/Common/Int.antt =====
-- Signed integers over the native numbers, and Go's int64 and int32 as those that fit.
use Prim.Native.Nat.{ℕ, suc, ◌+◌, ◌-◌, ◌%◌, ◌^◌, ◌<◌}
use mathlib.Core.Path.{◌≡◌}
use mathlib.Core.Bool.{Bool}
use native.Mathlib.Omega.{arith}
use eiyaro.Common.Tests.{ltb, leb, ◌==◌, if◌then◌else◌}

-- `negsuc n` is -(n + 1).
pub data ℤ : Type 0 where
  pos : ℕ → ℤ
  negsuc : ℕ → ℤ

abbrev pub pos_part : ℤ → ℕ
pos_part (pos n) = n
pos_part (negsuc n) = 0

abbrev pub neg_part : ℤ → ℕ
neg_part (pos n) = 0
neg_part (negsuc n) = suc n

-- a - b, as an integer.
abbrev pub sub_ℕ : ℕ → ℕ → ℤ
sub_ℕ a b = if leb b a then pos (a - b) else negsuc (b - a - 1)

infixl 65 ◌+ℤ◌ ◌-ℤ◌
abbrev pub ◌+ℤ◌ : ℤ → ℤ → ℤ
a +ℤ b = sub_ℕ (pos_part a + pos_part b) (neg_part a + neg_part b)

abbrev pub ◌-ℤ◌ : ℤ → ℤ → ℤ
a -ℤ b = sub_ℕ (pos_part a + neg_part b) (neg_part a + pos_part b)

abbrev pub neg : ℤ → ℤ
neg a = sub_ℕ (neg_part a) (pos_part a)

abbrev pub ltb_ℤ : ℤ → ℤ → Bool
ltb_ℤ a b = ltb (pos_part a + neg_part b) (pos_part b + neg_part a)

abbrev pub leb_ℤ : ℤ → ℤ → Bool
leb_ℤ a b = leb (pos_part a + neg_part b) (pos_part b + neg_part a)

abbrev pub eqb_ℤ : ℤ → ℤ → Bool
eqb_ℤ a b = (pos_part a + neg_part b) == (pos_part b + neg_part a)

abbrev pub abs_ℕ : ℤ → ℕ
abs_ℕ (pos n) = n
abs_ℕ (negsuc n) = suc n

-- The signed number that the low bits of an integer stand for: how Go's int64 and int32 wrap.
abbrev pub signed : ℕ → ℕ → ℤ
signed half w = if ltb w half then pos w else negsuc (half + half - w - 1)

abbrev pub wrap : ℕ → ℤ → ℤ
wrap half (pos n) = signed half (n % (half + half))
wrap half (negsuc n) = signed half (half + half - n % (half + half) - 1)

abbrev pub wrap64 : ℤ → ℤ
wrap64 = wrap (2 ^ 63)

abbrev pub wrap32 : ℤ → ℤ
wrap32 = wrap (2 ^ 31)

-- Where the number fits, nothing wraps.
pub wrap64_id : (z : ℤ) → abs_ℕ z < 2 ^ 63 → wrap64 z ≡ z
wrap64_id (pos n) h = ground arith
wrap64_id (negsuc n) h = ground arith

pub wrap32_id : (z : ℤ) → abs_ℕ z < 2 ^ 31 → wrap32 z ≡ z
wrap32_id (pos n) h = ground arith
wrap32_id (negsuc n) h = ground arith
