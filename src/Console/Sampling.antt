-- ===== src/Console/Sampling.antt =====
-- How late a stream notices that its terminal has begun or ceased to show colours.
use Prim.Native.Nat.{bit_and}
use prot.Prelude.{
  ℕ, zero, suc, ◌+◌, ◌-◌, ◌*◌, ◌/◌, ◌%◌, ◌^◌, ◌≤◌, ◌<◌, max, ◌≡◌, ◌⊎◌, inl, inr, refl, ap, ◌∙◌,
  Bool, true, false, dec_lt, arith,
}
use prot.Base.Bits.{and_digit}
use prot.Console.{Probe, is_sampled, probe}

-- The probe behind `k` calls that meet the same answer.
abbrev pub calls : (answer : Bool) → (k : ℕ) → Probe → Probe
calls answer zero p = p
calls answer (suc k) p = calls answer k (probe answer p)

-- 2 ^ k
abbrev power : ℕ → ℕ
power zero = 1
power (suc k) = 2 * power k

power_positive : (k : ℕ) → 0 < power k
power_positive zero = omega arith
power_positive (suc k) = omega (arith, power_positive k)

and-zero : (k x : ℕ) → x ≤ k → bit_and x 0 ≡ 0
and-zero k zero h = refl
and-zero zero (suc x) h = absurd (omega arith)
and-zero (suc k) (suc x) h =
    omega (arith, and_digit (suc x) 0, and-zero k (suc x / 2) (omega arith))

and-power : (k : ℕ) → bit_and (power k) (power k - 1) ≡ 0
and-power zero = refl
and-power (suc k) =
    let pos = power_positive k in
    let e : 2 * power k / 2 ≡ power k = omega arith in
    let f : (2 * power k - 1) / 2 ≡ power k - 1 = omega arith in
    and_digit (2 * power k) (2 * power k - 1) ∙ rw (e, f, and-power k) (omega arith)

sampled-power : (k : ℕ) → power k < 2 ^ 32 → is_sampled (power k) ≡ true
unfolding is_sampled
sampled-power k h =
    let pos = power_positive k in
    let e : (power k + 2 ^ 32 - 1) % 2 ^ 32 ≡ power k - 1 = omega arith in rw (e, and-power k) refl

sampled_zero : is_sampled 0 ≡ true
unfolding is_sampled
sampled_zero = refl

-- There is a power of two from `n` to below its double.
next_power : (n : ℕ) → 0 < n → (k : ℕ) × (n ≤ power k) × (power k < 2 * n)
next_power zero h = absurd (omega arith)
next_power (suc zero) h = (0, omega arith, omega arith)
next_power (suc (suc n)) h =
    let (k, l, u) = next_power (suc n) (omega arith) in
    elim (dec_lt (suc n) (power k)) [
      | yes p ↦ (k, omega arith, omega arith)
      | no p ↦ (suc k, omega arith, omega arith)
    ]

-- One call: the answer is noticed, or the count goes up by one, which it does not at a power of two.
probe-cases :
    (answer : Bool) (p : Probe)
    → p.count < 2 ^ 31
    → ((probe answer p).supports ≡ answer)
      ⊎ (((probe answer p).count ≡ p.count + 1) × (is_sampled p.count ≡ false))
unfolding probe
probe-cases true p h = ground arith
probe-cases false p h = ground arith

probe_stays : (answer : Bool) (p : Probe) → p.supports ≡ answer → (probe answer p).supports ≡ answer
unfolding probe
probe_stays true p e = ground (arith, e)
probe_stays false p e = ground (arith, e)

calls_stay :
    (answer : Bool) (k : ℕ) (p : Probe) → p.supports ≡ answer → (calls answer k p).supports ≡ answer
calls_stay answer zero p e = e
calls_stay answer (suc k) p e = calls_stay answer k (probe answer p) (probe_stays answer p e)

-- By the time that the count has come to a power of two, the answer is noticed.
noticed_at :
    (answer : Bool) (k d : ℕ) (p : Probe)
    → p.count + d ≡ power k
    → power k < 2 ^ 31
    → (calls answer (suc d) p).supports ≡ answer
noticed_at answer k zero p e h = elim (probe-cases answer p (omega arith)) [
  | inl n ↦ n
  | inr (c, s) ↦
      let f : p.count ≡ power k = omega arith in
      absurd (ground (arith, s, ap is_sampled f, sampled-power k (omega arith)))
]
noticed_at answer k (suc d) p e h = elim (probe-cases answer p (omega arith)) [
  | inl n ↦ calls_stay answer (suc d) (probe answer p) n
  | inr (c, s) ↦ noticed_at answer k d (probe answer p) (omega (arith, c)) h
]

zero-cases : (n : ℕ) → (n ≡ 0) ⊎ (0 < n)
zero-cases n = ground arith

zero_noticed : (answer : Bool) (p : Probe) → p.count ≡ 0 → (probe answer p).supports ≡ answer
zero_noticed answer p z = elim (probe-cases answer p (omega arith)) [
  | inl n ↦ n
  | inr (c, s) ↦ absurd (ground (arith, s, ap is_sampled z, sampled_zero))
]

-- If a terminal has changed its answer and then keeps it, the stream notices it within as many
-- coloured prints as the count says, or with the next one if the count is 0, and does not forget it.
-- (The count is below 2 ^ 30.)
pub notices :
    (answer : Bool) (p : Probe)
    → p.count < 2 ^ 30
    → (k : ℕ) × (k ≤ max 1 p.count)
      × ((j : ℕ) → (calls answer j (calls answer k p)).supports ≡ answer)
notices answer p h = elim (zero-cases p.count) [
  | inl z ↦ (1, omega arith, λ j. calls_stay answer j (probe answer p) (zero_noticed answer p z))
  | inr n ↦
      let (k, l, u) = next_power p.count n in
      let d : ℕ = power k - p.count in
      (
        suc d,
        omega arith,
        λ j.
            calls_stay answer j (calls answer (suc d) p)
              (noticed_at answer k d p (omega arith) (omega arith)),
      )
]
