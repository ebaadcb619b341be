-- ===== src/Sync/Lock/Calculation/Tests.antt =====
-- Runs of TestCalculation with two threads, and the theorems about it at concrete inputs.
use prot.Prelude.{Steps, ℕ, ◌*◌, ◌≤◌, ◌≡◌, refl, Bool, true, false, [], ◌∷◌}
use prot.Sync.Lock.Spin.{spin_lock, spin_round, spin_free}
use prot.Sync.Lock.Implements.{spin_lock-Implements}
use prot.Sync.Lock.Calculation.{
  World, Step, begin, get_returns, get_waits, no_get, read, write, frees, exit, Reach, start, next,
}
use prot.Sync.Lock.Calculation.Exact.{calculation_exact}
use prot.Sync.Lock.Calculation.Bound.{calculation_bound}
use prot.Sync.Lock.Calculation.Ending.{calculation_ends}

abbrev Two : (use_lock : Bool) → World ℕ → Type 0
Two use_lock w = Reach spin_lock use_lock 1 0 2 1 w

-- The second thread waits for the first, and then takes the lock.
abbrev second_waits : (w : World ℕ) × Two true w
unfolding begin spin_lock spin_round spin_free
second_waits = (
  _,
  next
      (next (next start (get_returns [] (_ ∷ []) 0 true 1 refl refl refl))
        (get_waits (_ ∷ []) [] 0 1 refl refl refl))
      (read [] (_ ∷ []) 0 0 refl),
)

abbrev both_ended : (w : World ℕ) × Two true w
unfolding second_waits
both_ended = (
  _,
  next
      (next
        (next
          (next
            (next
              (next
                (next (next second_waits.1 (write [] (_ ∷ []) 0 0 0 refl))
                  (frees [] (_ ∷ []) 0 refl refl))
                (get_returns (_ ∷ []) [] 0 true 1 refl refl refl))
              (read (_ ∷ []) [] 0 0 refl))
            (write (_ ∷ []) [] 0 0 1 refl))
          (frees (_ ∷ []) [] 0 refl refl))
        (exit [] (_ ∷ []) refl))
      (exit (_ ∷ []) [] refl),
)

calculation_exact_example : both_ended.0.calc_data ≡ 2 * (1 * 1)
unfolding both_ended
calculation_exact_example = calculation_exact spin_lock-Implements refl both_ended.1 refl

calculation_ends_example :
    (v : World ℕ) × Steps (Step spin_lock true 1) second_waits.0 v × (v.end_count ≡ 2)
calculation_ends_example = calculation_ends spin_lock-Implements refl second_waits.1

-- Without the lock both threads read 0, and one addition is lost.
abbrev lost : (w : World ℕ) × Two false w
unfolding begin
lost = (
  _,
  next
      (next
        (next
          (next
            (next (next start (no_get [] (_ ∷ []) 0 refl refl)) (no_get (_ ∷ []) [] 0 refl refl))
            (read [] (_ ∷ []) 0 0 refl))
          (read (_ ∷ []) [] 0 0 refl))
        (write [] (_ ∷ []) 0 0 0 refl))
      (write (_ ∷ []) [] 0 0 0 refl),
)

one_lost : lost.0.calc_data ≡ 1
unfolding lost
one_lost = refl

-- But the threads can also run one after the other, and then none is lost.
abbrev in_turn : (w : World ℕ) × Two false w
unfolding begin
in_turn = (
  _,
  next
      (next
        (next
          (next (next (next start (no_get [] (_ ∷ []) 0 refl refl)) (read [] (_ ∷ []) 0 0 refl))
            (write [] (_ ∷ []) 0 0 0 refl))
          (no_get (_ ∷ []) [] 0 refl refl))
        (read (_ ∷ []) [] 0 0 refl))
      (write (_ ∷ []) [] 0 0 1 refl),
)

none_lost : in_turn.0.calc_data ≡ 2
unfolding in_turn
none_lost = refl

calculation_bound_example : lost.0.calc_data ≤ 2 * (1 * 1)
calculation_bound_example = calculation_bound lost.1
