-- ===== src/Base/Bitops.antt =====
-- base/bitops.hh at `Size` of a 64-bit build: the alignment functions.
use Prim.Native.Nat.{bit_and, bit_or}
use prot.Prelude.{ℕ, ◌+◌, ◌-◌, ◌*◌, ◌/◌, ◌%◌, ◌^◌, ◌≤◌, ◌<◌, ◌≡◌, refl, arith}
use prot.Base.Bits.{or_three, and_not_four}

-- `Bits::AlignUp`, `Bits::AlignDown` and `Bits::Align_1`; sums and differences wrap.
unfoldable pub align_up : (number bound : ℕ) → ℕ
align_up number bound =
    (bit_or ((number + 2 ^ 64 - 1) % 2 ^ 64) ((bound + 2 ^ 64 - 1) % 2 ^ 64) + 1) % 2 ^ 64

unfoldable pub align_down : (number bound : ℕ) → ℕ
align_down number bound = bit_and number (2 ^ 64 - 1 - bound)

unfoldable pub align_1 : (number bound : ℕ) → ℕ
align_1 number bound = bit_or number ((bound + 2 ^ 64 - 1) % 2 ^ 64)

-- Up to the last multiple of 4 in a word, `AlignUp` to 4 is the least multiple of 4 that is not
-- below the number, zero included.
pub align_up_four :
    (n : ℕ) → n ≤ 2 ^ 64 - 4 → (align_up n 4 % 4 ≡ 0) × (n ≤ align_up n 4) × (align_up n 4 < n + 4)
unfolding align_up
align_up_four n h = omega (arith, or_three ((n + 2 ^ 64 - 1) % 2 ^ 64))

pub align_up_zero : align_up 0 4 ≡ 0
unfolding align_up
align_up_zero = refl

-- `Align_1` to 4 is the greatest number of the block of four that holds the number.
pub align_1_four : (n : ℕ) → (align_1 n 4 % 4 ≡ 3) × (n ≤ align_1 n 4) × (align_1 n 4 / 4 ≡ n / 4)
unfolding align_1
align_1_four n = omega (arith, or_three n)

-- `AlignDown` to 4 takes out the bit of value 4 and keeps all the others, so it is no alignment: the
-- result is a multiple of 4 only if the number was one.
pub align_down_four :
    (n : ℕ) → n < 2 ^ 64 → (align_down n 4 ≡ n - n / 4 % 2 * 4) × (align_down n 4 % 4 ≡ n % 4)
unfolding align_down
align_down_four n h = omega (arith, and_not_four n h)
