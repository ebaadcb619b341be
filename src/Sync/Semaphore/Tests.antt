-- ===== src/Sync/Semaphore/Tests.antt =====
-- Tests of the POSIX `Semaphore`, and its theorems at concrete inputs.
use prot.Prelude.{◌≡◌, refl, true, false, none, some, [], ◌∷◌, arith}
use prot.Prelude.Int.{pos}
use prot.Time.Unit.{infinite, empty, infinitely}
use prot.Time.Deadline.{tick_deadline, carry}
use prot.Sync.Cond.{deadline, WaitEnv}
use prot.Sync.Semaphore.Windows
use prot.Sync.Semaphore.{Sem, try_wait, wait_loop, wait, timed_wait, post}
use prot.Sync.Semaphore.Init.{InitEnv, construct, IsValid}
use prot.Sync.Semaphore.Waiting.{Ends, wait-Ends}
use prot.Sync.Semaphore.System.{Balance, start, next, post_step, wait_step, Reach-Balance}

abbrev healthy : InitEnv
healthy = record { memory = some false; set_clock = 0; cond_init = 0; mutex_init = 0 }

abbrev two_of_five : Sem
two_of_five = record { current = pos 2; maximum = pos 5; tick_clock = true }

abbrev drained : Sem
drained = record { current = pos 0; maximum = pos 5; tick_clock = true }

-- Another thread posts one unit before the second return of the wait.
abbrev quiet : WaitEnv Sem
quiet = record {
  monotonic = some (record { tv_sec = pos 5; tv_nsec = pos 0 });
  wall = none;
  wakes =
      record { code = 0; seen = drained }
      ∷ record { code = 0; seen = record drained { current = pos 1 } }
      ∷ [];
  timed_wakes = λ _. record { code = 110; seen = drained } ∷ [];
  polls = [];
}

abbrev clockless : WaitEnv Sem
clockless = record quiet { monotonic = none }

construct_two : (construct healthy (pos 2) (pos 5)).0 ≡ some two_of_five
unfolding construct
construct_two = refl

-- The header accepts an empty semaphore of maximum 0, the code does not.
construct_zero : (construct healthy (pos 0) (pos 0)).0 ≡ none
unfolding construct
construct_zero = refl

wait-infinite : wait quiet infinite drained ≡ some (true, drained)
unfolding wait wait_loop empty infinitely
wait-infinite = refl

wait_times_out : wait quiet (record { utc = pos 5 }) drained ≡ some (false, drained)
unfolding wait wait_loop timed_wait deadline tick_deadline carry empty infinitely
wait_times_out = refl

two_of_five-IsValid : IsValid two_of_five
two_of_five-IsValid = omega arith

-- The mutex cannot be made: what was acquired before is given back.
abbrev no_mutex : InitEnv
no_mutex = record healthy { mutex_init = 11 }

abbrev nearly_full : Sem
nearly_full = record { current = pos 2000000000; maximum = pos 2109876543; tick_clock = true }

wait-Ends_example : Ends IsValid (true, drained)
wait-Ends_example =
    wait-Ends IsValid (λ _ v. v) quiet infinite drained (omega arith)
      (record { wakes = omega arith; timed = λ _. omega arith; polls = tt }) wait-infinite

Reach-Balance_example :
    Balance 2 (record { sem = record two_of_five { current = pos 4 }; posted = 3; taken = 1 })
unfolding post try_wait
Reach-Balance_example =
    Reach-Balance healthy (pos 2) (pos 5) construct_two
      (next (next start (post_step (λ _. 0) drained (pos 3) (omega arith) (omega arith))) wait_step)

-- One unit of two is taken, and three units are posted to a maximum of four.
abbrev handed_out : (w : Windows.World) × Windows.Reach true (pos 2) (pos 4) w
unfolding Windows.win_sem_construct Windows.win_post_refused Windows.win_post_add
    Windows.win_post_goes_on Windows.win_sem_take
handed_out = (
  _,
  Windows.next
      (Windows.next
        (Windows.next (Windows.next (Windows.start refl) (Windows.wait_in (omega arith)))
          (Windows.wait_end (omega arith)))
        (Windows.post_add (record { current = pos 1; maximum = pos 4 }) 3 refl (omega arith) refl))
      (Windows.release 3 [] [] refl),
)

Reach-Sound_windows_example : Windows.Sound 2 handed_out.0
Reach-Sound_windows_example = Windows.Reach-Sound_windows handed_out.1
