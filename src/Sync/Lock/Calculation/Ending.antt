-- ===== src/Sync/Lock/Calculation/Ending.antt =====
-- With an exclusive lock the threads of TestCalculation come to their ends.
use prot.Prelude.{
  Steps, stay, onward, weigh, weigh-le, find-weigh, zero-or-more, moved, ℕ, zero, suc, ◌+◌, ◌*◌,
  ◌≤◌, ◌<◌, ◌≡◌, ◌⊎◌, inl, inr, Bool, true, false, List, [], ◌∷◌, ◌++◌, length, refl, ap, ◌∙◌,
  arith,
}
use prot.Sync.Lock.{ILock, LockType, Attempt, returns, waits, exclusive}
use prot.Sync.Lock.Implements.{Implements, view_attempt}
use prot.Sync.Lock.Calculation.{
  Adder, outside, reading, writing, ended, World, Step, get_returns, read, write, frees, exit,
  Reach, next,
}
use prot.Sync.Lock.Calculation.Exact.{inside, is_ended, ExactWorld, Reach-Exact}

-- The steps of a thread to its end, but for its waits.
abbrev pub steps_left : (inner : ℕ) → Adder → ℕ
steps_left i (outside k) = k * (2 * i + 2) + 1
steps_left i (reading k m) = k * (2 * i + 2) + 2 * m + 2
steps_left i (writing k m d) = k * (2 * i + 2) + 2 * m + 3
steps_left i ended = 0

-- A thread that has not taken the lock and is not at its end.
abbrev before_get : Adder → ℕ
before_get (outside k) = 1
before_get (reading k m) = 0
before_get (writing k m d) = 0
before_get ended = 0

three_ways :
    (ls : List Adder)
    → weigh (λ a. 1) ls ≤ weigh is_ended ls + weigh inside ls + weigh before_get ls
three_ways [] = omega arith
three_ways (outside k ∷ ls) = omega (arith, three_ways ls)
three_ways (reading k m ∷ ls) = omega (arith, three_ways ls)
three_ways (writing k m d ∷ ls) = omega (arith, three_ways ls)
three_ways (ended ∷ ls) = omega (arith, three_ways ls)

ended_le : (a : Adder) → is_ended a ≤ 1
ended_le a = ground arith

module _ {S : Type 0} {lock : ILock S} {type : LockType} {view : S → Bool}
    (i : Implements lock (exclusive type) view) (inner : ℕ) where
  -- A step after which less is left.
  Progress : World S → Type 0
  Progress w =
      (v : World S) × Step lock true inner w v
      × (weigh (steps_left inner) v.threads < weigh (steps_left inner) w.threads)

  holder_step :
      (w : World S) (before after : List Adder) (l : Adder)
      → w.threads ≡ before ++ (l ∷ after)
      → 1 ≤ inside l
      → Progress w
  unfolding Progress
  holder_step w b a (outside k) e h = absurd (omega (arith, h))
  holder_step w b a (reading k zero) e h = (
    _,
    frees b a k refl e,
    omega (arith, moved (steps_left inner) b a (reading k 0) (outside k) e),
  )
  holder_step w b a (reading k (suc m)) e h = (
    _,
    read b a k m e,
    omega (arith, moved (steps_left inner) b a (reading k (suc m)) (writing k m w.calc_data) e),
  )
  holder_step w b a (writing k m d) e h = (
    _,
    write b a k m d e,
    omega (arith, moved (steps_left inner) b a (writing k m d) (reading k m) e),
  )
  holder_step w b a ended e h = absurd (omega (arith, h))

  -- The lock is given to a thread if it is free.
  get_step :
      (w : World S) (before after : List Adder) (k : ℕ) (a : Attempt S)
      → w.threads ≡ before ++ (outside (suc k) ∷ after)
      → lock.get (length before) w.lock_state ≡ a
      → view_attempt view a ≡ returns true true
      → Progress w
  unfolding Progress
  get_step w b a k (returns r s) e g t = (
    _,
    get_returns b a k r s refl e g,
    omega (arith, moved (steps_left inner) b a (outside (suc k)) (reading k inner) e),
  )
  get_step w b a k (waits s) e g t = absurd (ground (arith, t))

  free_step :
      (w : World S) (before after : List Adder) (l : Adder)
      → w.threads ≡ before ++ (l ∷ after)
      → view w.lock_state ≡ false
      → 1 ≤ before_get l
      → Progress w
  unfolding Progress
  free_step w b a (outside zero) e f h =
      (_, exit b a e, omega (arith, moved (steps_left inner) b a (outside 0) ended e))
  free_step w b a (outside (suc k)) e f h =
      get_step w b a k (lock.get (length b) w.lock_state) e refl
        (i.same_get (length b) w.lock_state ∙ ap ((exclusive type).get (length b)) f)
  free_step w b a (reading k m) e f h = absurd (omega (arith, h))
  free_step w b a (writing k m d) e f h = absurd (omega (arith, h))
  free_step w b a ended e f h = absurd (omega (arith, h))

  not_stuck :
      {n total : ℕ} (w : World S) → ExactWorld view inner n total w → (w.end_count ≡ n) ⊎ Progress w
  not_stuck w x = elim (zero-or-more (weigh inside w.threads)) [
    | inr some_inside ↦
        let (b, l, a, e, h) = find-weigh inside w.threads some_inside in
        inr (holder_step w b a l e h)
    | inl none_inside ↦
        let free : view w.lock_state ≡ false = ground (arith, none_inside, x.owner) in
        elim (zero-or-more (weigh before_get w.threads)) [
          | inr some_before ↦
              let (b, l, a, e, h) = find-weigh before_get w.threads some_before in
              inr (free_step w b a l e free h)
          | inl none_before ↦ inl (
              omega (
                arith,
                x.ends,
                x.size,
                none_inside,
                none_before,
                three_ways w.threads,
                weigh-le is_ended (λ a. 1) ended_le w.threads,
              ))
        ]
  ]

  ends_with :
      {s : S} {n rounds : ℕ} (fuel : ℕ) {w : World S}
      → view s ≡ false
      → weigh (steps_left inner) w.threads ≤ fuel
      → Reach lock true inner s n rounds w
      → (v : World S) × Steps (Step lock true inner) w v × (v.end_count ≡ n)
  unfolding Progress
  ends_with zero {w = w} free h r = elim (not_stuck w (Reach-Exact i free r)) [
    | inl over ↦ (w, stay, over)
    | inr (v, t, less) ↦ absurd (omega (arith, h, less))
  ]
  ends_with (suc fuel) {w = w} free h r = elim (not_stuck w (Reach-Exact i free r)) [
    | inl over ↦ (w, stay, over)
    | inr (u, t, less) ↦
        let (v, ts, over) = ends_with fuel free (omega (arith, h, less)) (next r t) in
        (v, onward t ts, over)
  ]

-- With a lock that can be held once, and is free at first, no thread gets stuck: from every world that the
-- test can come to there are steps to one in which all n threads have ended.
pub calculation_ends :
    {S : Type 0} {lock : ILock S} {type : LockType} {view : S → Bool} {s : S} {inner n rounds : ℕ}
    {w : World S}
    → Implements lock (exclusive type) view
    → view s ≡ false
    → Reach lock true inner s n rounds w
    → (v : World S) × Steps (Step lock true inner) w v × (v.end_count ≡ n)
calculation_ends {inner = inner} {w = w} i free r =
    ends_with i inner (weigh (steps_left inner) w.threads) free (omega arith) r
