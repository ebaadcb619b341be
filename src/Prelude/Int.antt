-- ===== src/Prelude/Int.antt =====
-- Signed integers over the native numbers, C's truncated division on them, and the two's
-- complement wrap-around of `Int32` and `Int64` (base/defines.hh).
use Prim.Native.Nat.{ℕ, suc, ◌+◌, ◌-◌, ◌*◌, ◌/◌, ◌%◌, ◌^◌, ◌≤◌, ◌<◌}
use mathlib.Core.Path.{◌≡◌}
use mathlib.Core.Bool.{Bool}
use native.Mathlib.Omega.{arith}
use prot.Prelude.Tests.{ltb, leb, if◌then◌else◌, ◌==◌}

-- `negsuc n` is -(n + 1).
pub data ℤ : Type 0 where
  pos : ℕ → ℤ
  negsuc : ℕ → ℤ

abbrev pub pos_part : ℤ → ℕ
pos_part (pos n) = n
pos_part (negsuc n) = 0

abbrev pub neg_part : ℤ → ℕ
neg_part (pos n) = 0
neg_part (negsuc n) = suc n

-- a - b, as an integer.
abbrev pub sub_ℕ : ℕ → ℕ → ℤ
sub_ℕ a b = if leb b a then pos (a - b) else negsuc (b - a - 1)

infixl 65 ◌+ℤ◌ ◌-ℤ◌
infixl 70 ◌*ℤ◌
infix 50 ◌≤ℤ◌ ◌==ℤ◌
abbrev pub ◌+ℤ◌ : ℤ → ℤ → ℤ
a +ℤ b = sub_ℕ (pos_part a + pos_part b) (neg_part a + neg_part b)

abbrev pub ◌-ℤ◌ : ℤ → ℤ → ℤ
a -ℤ b = sub_ℕ (pos_part a + neg_part b) (neg_part a + pos_part b)

-- A product with a constant of the source, which is a number.
abbrev pub ◌*ℤ◌ : ℤ → ℕ → ℤ
a *ℤ k = sub_ℕ (pos_part a * k) (neg_part a * k)

abbrev pub ◌≤ℤ◌ : ℤ → ℤ → Type 0
a ≤ℤ b = pos_part a + neg_part b ≤ pos_part b + neg_part a

abbrev pub ltb_ℤ : ℤ → ℤ → Bool
ltb_ℤ a b = ltb (pos_part a + neg_part b) (pos_part b + neg_part a)

abbrev pub leb_ℤ : ℤ → ℤ → Bool
leb_ℤ a b = leb (pos_part a + neg_part b) (pos_part b + neg_part a)

abbrev pub ◌==ℤ◌ : ℤ → ℤ → Bool
a ==ℤ b = pos_part a + neg_part b == pos_part b + neg_part a

-- C's `/` and `%` by a positive constant round towards zero.
abbrev pub quot : ℤ → ℕ → ℤ
quot a k = sub_ℕ (pos_part a / k) (neg_part a / k)

abbrev pub rem : ℤ → ℕ → ℤ
rem a k = sub_ℕ (pos_part a % k) (neg_part a % k)

-- The signed value of a two's complement word of which `half` is half the modulus.
abbrev pub signed : (half : ℕ) → ℕ → ℤ
signed half w = if ltb w half then pos w else sub_ℕ w (half + half)

-- An integer cut to 32 or 64 bits, without and with a sign.
abbrev pub to_u32 : ℤ → ℕ
to_u32 z = (pos_part z % 2 ^ 32 + 2 ^ 32 - neg_part z % 2 ^ 32) % 2 ^ 32

abbrev pub to_u64 : ℤ → ℕ
to_u64 z = (pos_part z % 2 ^ 64 + 2 ^ 64 - neg_part z % 2 ^ 64) % 2 ^ 64

abbrev pub to_i32 : ℤ → ℤ
to_i32 z = signed (2 ^ 31) (to_u32 z)

abbrev pub to_i64 : ℤ → ℤ
to_i64 z = signed (2 ^ 63) (to_u64 z)

-- The ranges of `Int32` and `Int64`.
pub record IsInt32 (z : ℤ) : Type 0 where
  pub above : neg_part z ≤ 2 ^ 31
  pub below : pos_part z < 2 ^ 31

pub record IsInt64 (z : ℤ) : Type 0 where
  pub above : neg_part z ≤ 2 ^ 63
  pub below : pos_part z < 2 ^ 63

-- In range, the cut changes nothing.
pub to_i32_self : (z : ℤ) → IsInt32 z → to_i32 z ≡ z
to_i32_self (pos n) h = ground arith
to_i32_self (negsuc n) h = ground arith

pub to_i64_self : (z : ℤ) → IsInt64 z → to_i64 z ≡ z
to_i64_self (pos n) h = ground arith
to_i64_self (negsuc n) h = ground arith
