-- ===== src/Sync/CondVar/WakeOneTest/Tests.antt =====
-- Runs of TestWakeOne with two threads, and the theorems about it at concrete inputs.
use prot.Prelude.{weigh, ◌*◌, ◌/◌, ◌-◌, ◌≡◌, refl, ℕ, List, [], ◌∷◌, Option, some, arith}
use prot.Sync.CondVar.WakeOneTest.{
  Item, World, opening, wake_main, take_number, begin_wait, take, spurious, wait_again, gather,
  gathered, hand_out, spurious_main, sleep_again, next_round, finish, filled, Reach, start, next,
}
use prot.Sync.CondVar.WakeOneTest.Counts.{has_number}
use prot.Sync.CondVar.WakeOneTest.Sound.{wake_one_sum}

abbrev Two : World → Type 0
Two w = Reach 2 w

-- Both threads wait, and the main thread has not yet handed out a number.
abbrev both_waiting : (w : World) × Two w
unfolding opening
both_waiting = (
  _,
  next
      (next
        (next
          (next (next start (begin_wait [] (_ ∷ []) _ refl refl refl))
            (begin_wait (_ ∷ []) [] _ refl refl refl))
          (gather 0 1 refl (omega arith) refl))
        (gather 1 0 refl (omega arith) refl))
      (gathered 2 refl (omega arith)),
)

-- The first thread has woken up without a call and waits again; the second gets the number 0.
abbrev second_taken : (w : World) × Two w
unfolding both_waiting wake_main take_number
second_taken = (
  _,
  next
      (next
        (next
          (next
            (next
              (next (next both_waiting.1 (spurious [] (_ ∷ []) _ refl refl))
                (wait_again [] (_ ∷ []) _ refl refl refl))
              (hand_out 0 (_ ∷ []) [] _ refl (omega arith) refl refl))
            (spurious_main 0 refl))
          (sleep_again 0 0 refl refl))
        (take (_ ∷ []) [] _ 0 refl refl refl))
      (next_round 0 refl refl),
)

abbrev both_over : (w : World) × Two w
unfolding second_taken wake_main take_number
both_over = (
  _,
  next
      (next
        (next (next second_taken.1 (hand_out 1 [] (_ ∷ []) _ refl (omega arith) refl refl))
          (take [] (_ ∷ []) _ 1 refl refl refl))
        (next_round 1 refl refl))
      (finish 2 refl (omega arith)),
)

abbrev fill_vals : List Item → List (Option ℕ)
fill_vals [] = []
fill_vals (t ∷ ts) = t.fill_val ∷ fill_vals ts

taken_numbers : fill_vals both_over.0.items ≡ some 1 ∷ some 0 ∷ []
unfolding both_over
taken_numbers = refl

wake_one_sum_example :
    (both_over.0.n_exitd ≡ 2)
    × (weigh has_number both_over.0.items ≡ 2)
    × (weigh filled both_over.0.items ≡ 2 * (2 - 1) / 2)
unfolding both_over
wake_one_sum_example = wake_one_sum both_over.1 refl
