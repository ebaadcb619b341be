-- ===== src/Sync/CondVar.antt =====
-- system/synchronization/condvar.cc: `ConditionVariable`, over a `Semaphore` and a
-- `ManualResetEvent`. Each function is one critical section of the mutexes `mtxd` and `mtxi`.
pub mod System
pub mod WakeAll
pub mod WakeOneTest
mod Tests
use prot.Prelude.{
  ℕ, ◌+◌, ◌-◌, Bool, true, false, not, ◌&&◌, ◌==◌, if◌then◌else◌, Option, none, some,
}
use prot.Prelude.Int.{ℤ, pos}
use prot.Time.Unit.{TimeUnit, infinite, zero_time}
use prot.Sync.Cond.{Code, Notify, WaitEnv}
use prot.Sync.Semaphore.{Sem, maximum_count, post}
use prot.Sync.Semaphore
use prot.Sync.Event.{Event}

-- `CONDITION_VARIABLE_DATA` without the lock and the two mutexes. `wait_count` counts threads, so it
-- is far from the end of `Int32`; `wake_all` is the bit CVFLAG_WAKE_ALL.
pub record CondVar : Type 0 where
  pub semap : Sem
  pub mrend : Event
  pub wait_count : ℕ
  pub wake_all : Bool

-- The constructor, with the clock bits that those of the members have set.
unfoldable pub construct : (sem_clock event_clock : Bool) → CondVar
construct sem_clock event_clock = record {
  semap = record { current = pos 0; maximum = maximum_count; tick_clock = sem_clock };
  mrend = record { manual_reset = true; tick_clock = event_clock; state = false };
  wait_count = 0;
  wake_all = false;
}

-- `Wait` before it frees the lock, under both mutexes.
unfoldable pub wait_enter : CondVar → CondVar
wait_enter v = record v { wait_count = v.wait_count + 1 }

-- `Wait` behind the wait on the semaphore, under `mtxd`: `rn`, whether it has to set the event.
unfoldable pub wait_leave : CondVar → Bool × CondVar
wait_leave v = (v.wait_count - 1 == 0 && v.wake_all, record v { wait_count = v.wait_count - 1 })

-- The test of `WakeOne`, under `mtxi`.
unfoldable pub wake_one_test : CondVar → Bool
wake_one_test v = not (v.wait_count == 0)

-- The `Post` of `WakeOne` or `WakeAll`; `seen` is the semaphore at its first test.
unfoldable pub post_units : (Notify → Code) → (seen : Sem) → ℕ → CondVar → CondVar
unfolding post
post_units notify seen n v = record v { semap = (post notify seen (pos n) v.semap).1 }

-- `WakeAll` up to its wait, under both mutexes: the number of waiting threads.
unfoldable pub wake_all_begin : (Notify → Code) → (seen : Sem) → CondVar → ℕ × CondVar
unfolding post_units
wake_all_begin notify seen v =
    if v.wait_count == 0
    then (0, v)
    else (v.wait_count, post_units notify seen v.wait_count (record v { wake_all = true }))

-- `WakeAll` behind its wait, once the event has been reset.
unfoldable pub wake_all_end : CondVar → CondVar
wake_all_end v = record v { wake_all = false }
