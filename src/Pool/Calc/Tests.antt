-- ===== src/Pool/Calc/Tests.antt =====
-- Runs of TestPoolParallelCalc, and the theorems about it at concrete inputs.
use prot.Prelude.{
  Steps, stay, onward, ◌≡◌, ◌<◌, ◌⊎◌, refl, false, Bool, Option, none, some, List, [], ◌∷◌, arith,
}
use prot.Pool.Calc.{
  Line, got, took, World, partial_sum, add_range, next_piece, post_one, expected_sum, prepared,
  Step, wait_unit, pop_link, fill_in, run, wait_last, pop_last, add_up, add_result, append_link,
  set_idle, post_unit, Fail, run_fails, Reach, start, next,
}
use prot.Pool.Calc.Placed.{Placed}
use prot.Pool.Calc.Invariant.{Counted, Reach-Sound_calc}
use prot.Pool.Calc.Ending.{calc_work, step-calc_work, calc_not_stuck, calc_ends}
use prot.Pool.Calc.Failing.{failed_run_hangs}
use prot.Pool.Calc.Result.{calc_sum}

-- One thread, for the numbers from 1 to 2.
abbrev Alone : World → Type 0
Alone w = Reach 1 1 5 3 w

abbrev alone_running : (w : World) × Alone w
unfolding prepared next_piece
alone_running = (
  _,
  next
      (next
        (next (next start (wait_unit 0 refl (omega arith) refl))
          (pop_link [] [] _ [] refl (omega arith) refl refl))
        (fill_in [] [] _ refl (omega arith) refl refl))
      (run [] [] _ refl refl refl refl),
)

abbrev alone_over : (w : World) × Alone w
unfolding alone_running partial_sum add_range post_one
alone_over = (
  _,
  next
      (next
        (next
          (next
            (next
              (next (next alone_running.1 (add_up [] [] _ refl refl))
                (add_result [] [] _ 3 refl refl))
              (append_link [] [] _ refl refl))
            (set_idle [] [] _ refl refl))
          (post_unit [] [] _ refl refl))
        (wait_last 0 refl (omega arith) (omega arith) refl))
      (pop_last [] [] _ [] refl (omega arith) refl refl),
)

three : alone_over.0.result ≡ 3
unfolding alone_over
three = refl

calc_sum_example : alone_over.0.result ≡ expected_sum 1 2
unfolding alone_over
calc_sum_example = calc_sum (omega arith) (omega arith) alone_over.1 refl

-- Two threads, one number for each piece: both run.
abbrev Both : World → Type 0
Both w = Reach 2 1 1 9 w

abbrev both_running : (w : World) × Both w
unfolding prepared next_piece
both_running = (
  _,
  next
      (next
        (next
          (next
            (next
              (next
                (next (next start (wait_unit 1 refl (omega arith) refl))
                  (pop_link [] (_ ∷ []) _ (1 ∷ []) refl (omega arith) refl refl))
                (fill_in [] (_ ∷ []) _ refl (omega arith) refl refl))
              (run [] (_ ∷ []) _ refl refl refl refl))
            (wait_unit 0 refl (omega arith) refl))
          (pop_link (_ ∷ []) [] _ [] refl (omega arith) refl refl))
        (fill_in (_ ∷ []) [] _ refl (omega arith) refl refl))
      (run (_ ∷ []) [] _ refl refl refl refl),
)

-- The first is behind the list but has not yet set `idle_now`; the second has posted.
abbrev first_late : (w : World) × Both w
unfolding both_running partial_sum add_range post_one
first_late = (
  _,
  next
      (next
        (next
          (next
            (next
              (next
                (next (next both_running.1 (add_up [] (_ ∷ []) _ refl refl))
                  (add_result [] (_ ∷ []) _ 1 refl refl))
                (append_link [] (_ ∷ []) _ refl refl))
              (add_up (_ ∷ []) [] _ refl refl))
            (add_result (_ ∷ []) [] _ 2 refl refl))
          (append_link (_ ∷ []) [] _ refl refl))
        (set_idle (_ ∷ []) [] _ refl refl))
      (post_unit (_ ∷ []) [] _ refl refl),
)

abbrev popped_late : (w : World) × Both w
unfolding first_late
popped_late = (
  _,
  next (next first_late.1 (wait_unit 0 refl (omega arith) refl))
      (pop_link [] (_ ∷ []) _ (1 ∷ []) refl (omega arith) refl refl),
)

abbrev idle_of_got : List Line → Option Bool
idle_of_got [] = none
idle_of_got (l ∷ ls) = elim l.hold [ got ↦ some l.idle_now | _ ↦ idle_of_got ls ]

-- The unit of the second thread lets the main thread have the data of the first, which is not idle.
not_idle : idle_of_got popped_late.0.lines ≡ some false
unfolding popped_late
not_idle = refl

Reach-Sound_calc_example :
    Placed 2 popped_late.0.queue popped_late.0.lines × Counted 2 popped_late.0
Reach-Sound_calc_example = Reach-Sound_calc popped_late.1

abbrev a_unit_taken : World
unfolding first_late
a_unit_taken = record first_late.0 { main = took; sem = 0 }

step-calc_work_example : calc_work 9 a_unit_taken < calc_work 9 first_late.0
unfolding a_unit_taken
step-calc_work_example =
    step-calc_work {n = 2} {step = 1} {endp = 9} {w = first_late.0} (omega arith)
      (wait_unit 0 refl (omega arith) refl)

calc_not_stuck_example : (popped_late.0.ended ≡ 2) ⊎ ((v : World) × Step 2 1 9 popped_late.0 v)
calc_not_stuck_example = calc_not_stuck (omega arith) popped_late.1

-- The first thread has its piece, but cannot be started.
abbrev not_started : (w : World) × Both w
unfolding prepared next_piece
not_started = (
  _,
  next
      (next (next start (wait_unit 1 refl (omega arith) refl))
        (pop_link [] (_ ∷ []) _ (1 ∷ []) refl (omega arith) refl refl))
      (fill_in [] (_ ∷ []) _ refl (omega arith) refl refl),
)

abbrev start_failed : (v : World) × Fail 9 not_started.0 v
unfolding not_started
start_failed = (_, run_fails [] (_ ∷ []) _ refl refl refl refl)

-- The main thread has then had the data of the other one, and goes on waiting.
abbrev waits_on : (u : World) × Steps (Step 2 1 9) start_failed.0 u
unfolding start_failed
waits_on = (
  _,
  onward (wait_last 0 refl (omega arith) (omega arith) refl)
      (onward (pop_last (_ ∷ []) [] _ [] refl (omega arith) refl refl) stay),
)

failed_run_hangs_example : waits_on.0.ended < 2
failed_run_hangs_example = failed_run_hangs not_started.1 start_failed.1 waits_on.1

calc_ends_example : (v : World) × Steps (Step 2 1 9) popped_late.0 v × (v.ended ≡ 2)
calc_ends_example = calc_ends (omega arith) (omega arith) popped_late.1
