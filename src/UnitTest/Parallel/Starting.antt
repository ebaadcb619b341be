-- ===== src/UnitTest/Parallel/Starting.antt =====
-- How many threads `MultiThreadTest` starts, and for how many it waits.
use prot.Prelude.{
  ℕ, zero, suc, ◌+◌, ◌-◌, ◌≤◌, ◌<◌, ◌≡◌, inl, inr, Bool, true, false, Bool-cases, ltb,
  if◌then◌else◌, some, refl, ◌∙◌, arith,
}
use prot.UnitTest.Parallel.{start_threads}

-- How many of k calls of `Run`, from the i-th on, fail.
abbrev pub failures : (starts : ℕ → Bool) → (i k : ℕ) → ℕ
failures starts i zero = 0
failures starts i (suc k) = (if starts i then 0 else 1) + failures starts (i + 1) k

-- What the loop leaves, with the calls of `Run` that it has made: each failed one is missing among the
-- started threads and among the waits, but has used up a turn.
pub record Started (starts : ℕ → Bool) (i n s : ℕ) (r : ℕ × ℕ) : Type 0 where
  pub turns : ℕ
  pub started : r.0 + failures starts i turns ≡ s + turns
  pub waited : r.1 + failures starts i turns ≡ n
  pub reached : r.1 ≤ i + turns
  pub within : i + turns ≤ n + (i - n)

ended : (starts : ℕ → Bool) (i n s : ℕ) → n ≤ i → Started starts i n s (s, n)
ended starts i n s h = record {
  turns = 0;
  started = omega arith;
  waited = omega arith;
  reached = omega arith;
  within = omega arith;
}

start_threads-Started :
    (fuel : ℕ) (starts : ℕ → Bool) (i n s : ℕ)
    → n ≤ i + fuel
    → (r : ℕ × ℕ) × (start_threads fuel starts i n s ≡ some r) × Started starts i n s r
unfolding start_threads
start_threads-Started zero starts i n s h = ((s, n), ground arith, ended starts i n s (omega arith))
start_threads-Started (suc fuel) starts i n s h = elim (Bool-cases (ltb i n)) [
  | inr past ↦ ((s, n), ground (arith, past), ended starts i n s (ground (arith, past)))
  | inl below ↦
      let more : i < n = ground (arith, below) in
      elim (Bool-cases (starts i)) [
        | inl ran ↦
            let (r, e, t) = start_threads-Started fuel starts (i + 1) n (s + 1) (omega arith) in
            (
              r,
              ground (arith, below, ran, e),
              record {
                turns = suc t.turns;
                started = ground (arith, ran, t.started);
                waited = ground (arith, ran, t.waited);
                reached = omega (arith, t.reached);
                within = omega (arith, t.within);
              },
            )
        | inr fails ↦
            let (r, e, t) = start_threads-Started fuel starts (i + 1) (n - 1) s (omega arith) in
            (
              r,
              ground (arith, below, fails, e),
              record {
                turns = suc t.turns;
                started = ground (arith, fails, t.started);
                waited = ground (arith, fails, t.waited);
                reached = omega (arith, t.reached);
                within = omega (arith, t.within);
              },
            )
      ]
]

-- If the first `Run` of two or more fails, the loop ends with fewer threads started than the code then
-- waits for.
pub fewer_than_waited :
    (starts : ℕ → Bool) (n : ℕ)
    → 2 ≤ n
    → starts 0 ≡ false
    → (r : ℕ × ℕ) × (start_threads n starts 0 n 0 ≡ some r) × (r.0 < r.1)
unfolding start_threads
fewer_than_waited starts zero two first = absurd (omega arith)
fewer_than_waited starts (suc n) two first =
    let (r, e, t) = start_threads-Started n starts 1 n 0 (omega arith) in
    (r, ground (arith, first, e), omega (arith, t.started, t.waited, t.within))

failures_none :
    (starts : ℕ → Bool) → ((i : ℕ) → starts i ≡ true) → (i k : ℕ) → failures starts i k ≡ 0
failures_none starts h i zero = refl
failures_none starts h i (suc k) = ground (arith, h i, failures_none starts h (i + 1) k)

-- If no `Run` fails, the code waits once for each of the n threads.
one_wait_each :
    (starts : ℕ → Bool) (n : ℕ)
    → ((i : ℕ) → starts i ≡ true)
    → start_threads n starts 0 n 0 ≡ some (n, n)
one_wait_each starts n h =
    let (r, e, t) = start_threads-Started n starts 0 n 0 (omega arith) in
    let none_failed = failures_none starts h 0 t.turns in
    let ran : r.0 ≡ n = omega (arith, none_failed, t.started, t.waited, t.reached, t.within) in
    let waits : r.1 ≡ n = omega (arith, none_failed, t.waited) in e ∙ (λ i. some (ran i, waits i))
