-- ===== src/Base/Bits.antt =====
-- The native `bit_or` and `bit_and` a digit at a time, and what they do with the masks of
-- base/bitops.hh and struct/buffer.hh.
use Prim.Native.Nat.{bit_and, bit_or, digits, bit_or-bitwise, bit_and-bitwise}
use prot.Prelude.{ℕ, zero, suc, ◌+◌, ◌-◌, ◌*◌, ◌/◌, ◌%◌, ◌^◌, ◌≤◌, ◌<◌, min, max, ◌≡◌, refl, arith}

-- Fuel beyond the first number adds nothing.
fuel_irrelevant :
    (last : ℕ → ℕ) (op : ℕ → ℕ → ℕ) (j k x y : ℕ)
    → x ≤ j
    → x ≤ k
    → digits last op j x y ≡ digits last op k x y
fuel_irrelevant last op zero zero x y p q = refl
fuel_irrelevant last op zero (suc k) zero y p q = refl
fuel_irrelevant last op zero (suc k) (suc x) y p q = absurd (omega arith)
fuel_irrelevant last op (suc j) zero zero y p q = refl
fuel_irrelevant last op (suc j) zero (suc x) y p q = absurd (omega arith)
fuel_irrelevant last op (suc j) (suc k) zero y p q = refl
fuel_irrelevant last op (suc j) (suc k) (suc x) y p q =
    omega (arith, fuel_irrelevant last op j k (suc x / 2) (y / 2) (omega arith) (omega arith))

pub or_digit : (x y : ℕ) → bit_or x y ≡ max (x % 2) (y % 2) + bit_or (x / 2) (y / 2) * 2
or_digit zero y = omega (arith, bit_or-bitwise 0 y, bit_or-bitwise 0 (y / 2))
or_digit (suc x) y = omega (
  arith,
  bit_or-bitwise (suc x) y,
  bit_or-bitwise (suc x / 2) (y / 2),
  fuel_irrelevant (λ b. b) max x (suc x / 2) (suc x / 2) (y / 2) (omega arith) (omega arith),
)

pub and_digit : (x y : ℕ) → bit_and x y ≡ min (x % 2) (y % 2) + bit_and (x / 2) (y / 2) * 2
and_digit zero y = omega (arith, bit_and-bitwise 0 y, bit_and-bitwise 0 (y / 2))
and_digit (suc x) y = omega (
  arith,
  bit_and-bitwise (suc x) y,
  bit_and-bitwise (suc x / 2) (y / 2),
  fuel_irrelevant (λ _. 0) min x (suc x / 2) (suc x / 2) (y / 2) (omega arith) (omega arith),
)

or-zero_fuel : (k x : ℕ) → x ≤ k → bit_or x 0 ≡ x
or-zero_fuel k zero h = refl
or-zero_fuel zero (suc x) h = absurd (omega arith)
or-zero_fuel (suc k) (suc x) h =
    omega (arith, or_digit (suc x) 0, or-zero_fuel k (suc x / 2) (omega arith))

pub or-zero : (x : ℕ) → bit_or x 0 ≡ x
or-zero x = or-zero_fuel x x (omega arith)

-- `x | 3` sets the two low bits.
pub or_three : (x : ℕ) → bit_or x 3 ≡ x / 4 * 4 + 3
or_three x = omega (arith, or_digit x 3, or_digit (x / 2) 1, or-zero (x / 2 / 2))

-- The number with `k` binary ones.
abbrev pub ones : ℕ → ℕ
ones zero = 0
ones (suc k) = ones k * 2 + 1

half_odd : (a : ℕ) → (a * 2 + 1) / 2 ≡ a
half_odd a = omega arith

-- A mask of ones keeps every number that fits it.
pub and_ones : (k x : ℕ) → x ≤ ones k → bit_and x (ones k) ≡ x
and_ones zero zero h = refl
and_ones zero (suc x) h = absurd (omega arith)
and_ones (suc k) x h =
    rw (and_digit x (ones k * 2 + 1), half_odd (ones k), and_ones k (x / 2) (omega arith))
      (omega arith)

-- The bit of value 4 taken out of a word, as `& ~4` does.
pub and_not_four : (x : ℕ) → x < 2 ^ 64 → bit_and x (2 ^ 64 - 1 - 4) ≡ x - x / 4 % 2 * 4
and_not_four x h = omega (
  arith,
  and_digit x (2 ^ 64 - 1 - 4),
  and_digit (x / 2) ((2 ^ 64 - 1 - 4) / 2),
  and_digit (x / 2 / 2) ((2 ^ 64 - 1 - 4) / 2 / 2),
  and_ones 61 (x / 2 / 2 / 2) (omega arith),
)
