-- ===== src/Pool/Calc/Sums.antt =====
-- The sums of TestPoolParallelCalc, against the sum of all numbers below one.
use prot.Prelude.{
  ℕ, zero, suc, ◌+◌, ◌-◌, ◌*◌, ◌/◌, ◌%◌, ◌^◌, ◌≤◌, ◌≡◌, inl, inr, Bool-cases, ◌==◌, if◌then◌else◌,
  ap, arith,
}
use prot.Pool.Calc.{add_range, expected_sum}

-- 0 + 1 + … + (n - 1)
abbrev pub sum_below : ℕ → ℕ
sum_below zero = 0
sum_below (suc n) = n + sum_below n

sum_below-next : (i : ℕ) → sum_below (i + 1) ≡ i + sum_below i
sum_below-next i = let e : i + 1 ≡ suc i = omega arith in ap sum_below e

pub add_range_lem :
    (k i r : ℕ) → (add_range k i r + sum_below i) % 2 ^ 64 ≡ (r + sum_below (i + k)) % 2 ^ 64
unfolding add_range
add_range_lem zero i r = let e : i ≡ i + 0 = omega arith in ap (λ j. (r + sum_below j) % 2 ^ 64) e
add_range_lem (suc k) i r =
    let e : i + 1 + k ≡ i + suc k = omega arith in
    omega (arith, add_range_lem k (i + 1) ((r + i) % 2 ^ 64), sum_below-next i, ap sum_below e)

pub twice_sum_below :
    (i k : ℕ) → 2 * sum_below (i + suc k) ≡ 2 * sum_below i + (k + 1) * (2 * i + k)
twice_sum_below i zero = let e : i + 1 ≡ suc i = omega arith in omega (arith, ap sum_below e)
twice_sum_below i (suc k) =
    let e : i + suc (suc k) ≡ suc (i + suc k) = omega arith in
    omega (arith, twice_sum_below i k, ap sum_below e)

-- One of two factors is even, and half of it is taken.
half :
    (p q a b : ℕ)
    → (p % 2 ≡ 1 → q % 2 ≡ 0)
    → 2 * b ≡ 2 * a + q * p
    → ((if p % 2 == 1 then p * (q / 2) % 2 ^ 64 else p / 2 * q % 2 ^ 64) + a) % 2 ^ 64 ≡ b % 2 ^ 64
half p q a b odd e = elim (Bool-cases (p % 2 == 1)) [
  | inl t ↦
      let even : 2 * (q / 2) ≡ q = omega (arith, odd (ground (arith, t))) in
      rw t (omega (arith, e, ap (λ (n : ℕ). n * p) even))
  | inr t ↦
      let even : 2 * (p / 2) ≡ p = ground (arith, t) in
      rw t (omega (arith, e, ap (λ (n : ℕ). n * q) even))
]

-- The number that the test expects is the sum of all numbers from `sum_from` to `sum_end`, cut to 64
-- bits.
pub expected_sum_lem :
    (from end : ℕ)
    → from ≤ end
    → (expected_sum from end + sum_below from) % 2 ^ 64 ≡ sum_below (end + 1) % 2 ^ 64
unfolding expected_sum
expected_sum_lem from end h =
    let k = end - from in
    let e : from + suc k ≡ end + 1 = omega (arith, h) in
    let twice : 2 * sum_below (end + 1) ≡ 2 * sum_below from + (k + 1) * (2 * from + k) =
      omega (arith, twice_sum_below from k, ap sum_below e) in
    let first : from + end ≡ 2 * from + k = omega (arith, h) in
    let second : end + 1 - from ≡ k + 1 = omega (arith, h) in
    rw (first, second)
      (half (2 * from + k) (k + 1) (sum_below from) (sum_below (end + 1)) (λ o. omega (arith, o))
        twice)
