-- ===== src/Pool/Tests.antt =====
-- The theorems about `PoolThread` at concrete inputs.
use prot.Prelude.{Steps, ◌≡◌, ◌≢◌, ◌≤◌, ◌<◌, ◌⊎◌, refl, true, false, [], ◌∷◌, none, some, arith}
use prot.Prelude.Int.{pos}
use prot.Sync.Cond.{WaitEnv, deadline}
use prot.Sync.Event.{Event, CallEnv, done, set, reset, infinite_loop}
use prot.Pool.{pool_wait, pool_construct, run_path}
use prot.Pool.System.{
  absent, looping, running, gone, idle, nulling, World, Work, Own, Step, loop_on, wake, load, call,
  return, clear_read, clear_write, signal_out, run_start, created, not_created, reset_out, pass,
  raise_read, raise_write, post, detach_begin, detach_read, detach_write, null_func, wake_in, kill,
  work, own, Reach, start, next,
}
use prot.Pool.Works.{Works}
use prot.Pool.Jobs.{to_call, to_end, jobs_in_order, job_progress, thread_ends, wait_when_idle}
use prot.Pool.Deletes.{deleted_once}
use prot.Pool.Faults.{posted, early_signal, use_after_delete, killed_job_again}
use prot.Pool.Failed.{failed_start_hangs}

abbrev sure : CallEnv
sure = record { lock = 0; notify = λ n. 0; unlock = 0 }

sure-Works : Works sure
sure-Works = record { locks = refl; unlocks = refl; notifies = λ n. refl }

-- The function is at address 9.
abbrev Reached : World → Type 0
Reached w = Reach sure false false 9 w

-- The thread has been created, and the owner has posted the job 5.
abbrev posted_5 : (w : World) × Reached w
unfolding run_path pool_construct set reset
posted_5 = (
  _,
  next
      (next
        (next
          (next
            (next (next (next start (own (run_start 5 refl refl))) (own (created 5 refl)))
              (own (reset_out 5 _ refl refl)))
            (own (pass 5 refl)))
          (own (raise_read 5 refl)))
        (own (raise_write 5 _ refl)))
      (own (post 5 _ refl refl)),
)

-- The thread is in the function with the job 5.
abbrev in_job : (w : World) × Reached w
unfolding posted_5 infinite_loop
in_job = (
  _,
  next
      (next (next (next posted_5.1 (work (loop_on refl refl))) (work (wake _ refl refl)))
        (work (load refl (omega arith))))
      (work (call refl)),
)

-- It has cleared ACTIVING behind the job.
abbrev job_over : (w : World) × Reached w
unfolding in_job reset
job_over = (
  _,
  next (next (next in_job.1 (work (return _ refl refl))) (work (clear_read refl)))
      (work (clear_write _ refl)),
)

jobs_in_order_example :
    (posted_5.0.accepted ≡ posted_5.0.executed)
    ⊎ (posted_5.0.accepted ≡ posted_5.0.shared.args ∷ posted_5.0.executed)
unfolding posted_5
jobs_in_order_example = jobs_in_order (omega arith) posted_5.1 refl refl

job_progress_example :
    (v : World) × Work sure posted_5.0 v
    × ((v.executed ≡ posted_5.0.accepted) ⊎ (to_call v.worker < to_call posted_5.0.worker))
unfolding posted_5
job_progress_example =
    job_progress (omega arith) posted_5.1 refl sure-Works refl (ground arith) (ground arith)

running_there : running ≢ absent
running_there = ground arith

-- The thread has been killed in its job and started again.
abbrev restarted : (w : World) × Reached w
unfolding in_job run_path set
restarted = (
  _,
  next (next (next in_job.1 (own (kill _ refl running_there refl))) (own (run_start 6 refl refl)))
      (own (created 6 refl)),
)

deleted_once_example :
    (restarted.0.deletes ≤ 1)
    × (restarted.0.deletes ≡ 1 → (restarted.0.worker ≡ gone) ⊎ (restarted.0.worker ≡ absent))
deleted_once_example = deleted_once (omega arith) restarted.1

running_on : running ≢ gone
running_on = ground arith

looping_there : looping ≢ absent
looping_there = ground arith

looping_on : looping ≢ gone
looping_on = ground arith

-- The destructor runs while the thread is in the job.
abbrev let_go : (w : World) × Reached w
unfolding in_job set
let_go = (
  _,
  next
      (next
        (next
          (next (next in_job.1 (own (detach_begin refl running_there running_on)))
            (own (detach_read refl)))
          (own (detach_write _ refl)))
        (own (null_func refl)))
      (own (wake_in _ refl refl)),
)

thread_ends_example :
    ((let_go.0.worker ≡ gone) × (let_go.0.deletes ≡ 1))
    ⊎ (((v : World) × Work sure let_go.0 v)
        × ((v : World) → Work sure let_go.0 v → to_end v.worker < to_end let_go.0.worker)
        × (to_end let_go.0.worker ≤ 9))
unfolding let_go
thread_ends_example = thread_ends (omega arith) let_go.1 refl sure-Works refl (ground arith)

-- The job is over, and the thread has signalled it.
abbrev signalled_5 : (w : World) × Reached w
unfolding job_over set
signalled_5 = (_, next job_over.1 (work (signal_out _ refl refl)))

abbrev no_clock : WaitEnv Event
no_clock = record {
  monotonic = none;
  wall = some (record { tv_sec = pos 7; tv_usec = pos 0 });
  wakes = [];
  timed_wakes = λ d. [];
  polls = [];
}

clock_known : deadline false no_clock (record { utc = pos 3 }) ≢ none
unfolding deadline
clock_known = ground arith

wait_when_idle_example :
    (e : Event) × (pool_wait sure no_clock (record { utc = pos 3 }) signalled_5.0.shared
      ≡ done (true, e))
unfolding signalled_5
wait_when_idle_example =
    wait_when_idle (omega arith) signalled_5.1 refl no_clock (record { utc = pos 3 }) sure-Works
      refl refl refl clock_known

early_signal_example :
    Steps (Own sure) job_over.0 (posted 6 job_over.0)
    × ((v : World) × Work sure (posted 6 job_over.0) v)
    × ((v : World)
        → Work sure (posted 6 job_over.0) v
        → (v.owner ≡ idle)
          × (v.shared.sig_out.state ≡ true)
          × (v.accepted ≡ 6 ∷ v.executed)
          × (v.killed ≡ false))
unfolding job_over
early_signal_example =
    early_signal 6 job_over.0 sure-Works (omega arith) job_over.1 refl refl refl refl

-- The destructor has written DETACHED while the thread is about to test it.
abbrev detached_late : (w : World) × Reached w
unfolding signalled_5
detached_late = (
  _,
  next
      (next (next signalled_5.1 (own (detach_begin refl looping_there looping_on)))
        (own (detach_read refl)))
      (own (detach_write _ refl)),
)

use_after_delete_example :
    (v : World) × Reach sure false false 9 v × (v.owner ≡ nulling) × (v.deletes ≡ 1)
unfolding detached_late
use_after_delete_example =
    use_after_delete detached_late.0 (omega arith) detached_late.1 refl refl refl refl

killed_job_again_example :
    (v : World) × Reach sure false false 9 v × (v.accepted ≡ 5 ∷ []) × (v.executed ≡ 5 ∷ 5 ∷ [])
unfolding in_job
killed_job_again_example =
    killed_job_again 6 in_job.0 sure-Works (omega arith) in_job.1 refl refl refl

-- The thread could not be created.
abbrev failed : (w : World) × Reached w
unfolding run_path pool_construct
failed = (_, next (next start (own (run_start 5 refl refl))) (own (not_created 5 refl)))

failed_start_hangs_example :
    Steps (Own sure) failed.0 (posted 6 failed.0)
    × ((posted 6 failed.0).accepted ≡ 6 ∷ failed.0.accepted)
    × ((u : World)
        → Steps (Step sure) (posted 6 failed.0) u
        → (u.shared.sig_out.state ≡ false) × (u.executed ≡ failed.0.executed))
unfolding failed
failed_start_hangs_example = failed_start_hangs 6 failed.0 sure-Works refl refl refl refl
