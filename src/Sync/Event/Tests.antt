-- ===== src/Sync/Event/Tests.antt =====
-- Tests of the POSIX `IEvent`, and its theorems at concrete inputs.
use prot.Prelude.{◌≡◌, refl, true, false, none, some, [], ◌∷◌}
use prot.Prelude.Int.{pos}
use prot.Time.Unit.{infinite, empty, infinitely}
use prot.Sync.Cond.{WaitEnv, deadline}
use prot.Sync.Event.{
  Event, InitEnv, construct, CallEnv, done, set, wait, finish, infinite_loop, timed_wait,
  timed_loop,
}
use prot.Sync.Event.System.{Paid, start, next, set_step, wait_step, Reach-Paid}

abbrev healthy : InitEnv
healthy = record { memory_ok = true; mutex_init = 0; set_clock = 0; cond_init = 0 }

abbrev working : CallEnv
working = record { lock = 0; notify = λ _. 0; unlock = 0 }

abbrev down : Event
down = record { manual_reset = false; tick_clock = true; state = false }

abbrev raised : Event
raised = record down { state = true }

-- A spurious return, then one after another thread's `Set`.
abbrev busy : WaitEnv Event
busy = record {
  monotonic = some (record { tv_sec = pos 5; tv_nsec = pos 0 });
  wall = none;
  wakes = record { code = 0; seen = down } ∷ record { code = 0; seen = raised } ∷ [];
  timed_wakes = λ _. record { code = 110; seen = raised } ∷ [];
  polls = [];
}

wait_spurious : wait working busy infinite down ≡ done (true, down)
unfolding wait infinite_loop empty infinitely
wait_spurious = refl

-- The time is up, but the flag went up meanwhile.
wait_late : wait working busy (record { utc = pos 9 }) down ≡ done (true, down)
unfolding wait timed_wait timed_loop deadline empty infinitely
wait_late = refl

Reach-Paid_example : Paid false (record { event = down; sets = 1; waits = 1 })
unfolding construct set finish
Reach-Paid_example =
    Reach-Paid healthy false {e = down} refl
      (next (next start (set_step working raised refl)) (wait_step working true down refl))
