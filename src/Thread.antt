-- ===== src/Thread.antt =====
-- system/thread_posix.cpp: `Thread`, a thread and the data that its owner and it share, and
-- `ThisThread`.
pub mod Ids
pub mod Waiting
pub mod Life
pub mod Sleeping
pub mod Windows
pub mod WinSleep
mod Tests
use prot.Prelude.{
  ℕ, ◌+◌, ◌-◌, ◌%◌, ◌^◌, Bool, true, false, not, ◌&&◌, ◌||◌, ◌==◌, if◌then◌else◌, Option, none,
  some, List, [], ◌∷◌,
}
use prot.Time.Unit.{TimeUnit, empty, infinitely}
use prot.Time.Deadline.{TimeSpec}
use prot.Sync.Cond.{Code, ok, timed_out, Wake, WaitEnv, deadline}

-- `THREAD_DATA` without the mutex and the condition variable: `handle` is its `thread`, 0 for none,
-- and the last three fields are the bits TDFLAG_HAS_EXIT, TDFLAG_DETACHED and TDFLAG_TICKLOCK.
pub record ThreadData : Type 0 where
  pub args : ℕ
  pub tid : ℕ
  pub handle : ℕ
  pub has_exit : Bool
  pub is_detached : Bool
  pub tick_lock : Bool

-- `Thread::Thread` for a function that is not null; the memory is zeroed first.
unfoldable pub construct : (set_clock : Code) → ThreadData
construct set_clock = record {
  args = 0;
  tid = 0;
  handle = 0;
  has_exit = false;
  is_detached = false;
  tick_lock = ok set_clock;
}

-- `Thread::~Thread`: the data after it, and whether it frees them.
unfoldable pub destroy : ThreadData → ThreadData × Bool
destroy d = (record d { is_detached = true }, d.has_exit)

-- `tls_keydest_callback_func`, which the exiting thread runs: the data, and whether it frees them.
unfoldable pub exit_callback : ThreadData → ThreadData × Bool
exit_callback d = (record d { has_exit = true }, d.is_detached)

-- `_TidRollGenNext`: the identifier, and the next value of `tid_max`, a `UInt32`.
unfoldable pub tid_roll_gen_next : (tid_max : ℕ) → ℕ × ℕ
tid_roll_gen_next m = (m, (m + 3) % 2 ^ 32)

-- `Run` up to `pthread_create`; `none` if it returns 0 there. (The function is never null.)
unfoldable pub run_prepare : (args : ℕ) → ThreadData → Option ThreadData
run_prepare args d =
    if not (d.tid == 0)
    then (if not d.has_exit
        then none
        else some
            (record d { args = args; tid = 0; handle = 0; has_exit = false; is_detached = false }))
    else some (record d { args = args })

-- `pthread_create`: its result, and what it leaves in the handle.
pub record Create : Type 0 where
  pub code : Code
  pub handle : ℕ

unfoldable pub run_create : Create → ThreadData → ThreadData
run_create c d = record d { handle = c.handle }

-- The rest of `Run`, when the new thread may already be running: the result and the data.
unfoldable pub run_finish : Create → (tid : ℕ) → ThreadData → ℕ × ThreadData
run_finish c tid d = if ok c.code then (tid, record d { tid = tid }) else (d.tid, d)

-- `thread && !(flag & TDFLAG_HAS_EXIT)`, the test of `Wait`, `Kill` and `Status`.
unfoldable pub is_running : ThreadData → Bool
is_running d = not (d.handle == 0) && not d.has_exit

-- `Thread::Status`: true is `Running`.
unfoldable pub status : ThreadData → Bool
unfolding is_running
status d = is_running d

-- The return of one condition wait, and the data by then. An empty list: the thread still waits.
unfoldable pub one_wake : List (Wake ThreadData) → Option (Code × ThreadData)
one_wake [] = none
one_wake (w ∷ ws) = some (w.code, w.seen)

-- `~ETIMEDOUT`, which is neither 0 nor ETIMEDOUT; as an `int` it is -111.
abbrev pub not_timed_out : Code
not_timed_out = 2 ^ 32 - 111

-- The value of `ret` in `Wait`.
unfoldable pub wait_code : WaitEnv ThreadData → TimeUnit → ThreadData → Option (Code × ThreadData)
unfolding one_wake deadline
wait_code env t d =
    if infinitely t
    then one_wake env.wakes
    else if empty t
    then some (not_timed_out, d)
    else elim (deadline d.tick_lock env t) [
      | none ↦ some (0, d)
      | some ts ↦ one_wake (env.timed_wakes ts)
    ]

-- `_GetThreadState` is `Offline`: `pthread_kill` says ESRCH or EINVAL.
unfoldable pub is_offline : Code → Bool
is_offline kill = kill == 3 || kill == 22

-- The result for a value of `ret`; `kill` is what `pthread_kill` returns.
unfoldable pub wait_result : (kill : Code) → Code × ThreadData → Bool × ThreadData
unfolding is_offline
wait_result kill (ret, d) =
    (if ret == timed_out then false else if not (ok ret) then is_offline kill else true, d)

-- `Thread::Wait`; `none` while it waits.
unfoldable pub wait :
    (kill : Code) → WaitEnv ThreadData → TimeUnit → ThreadData → Option (Bool × ThreadData)
unfolding is_running wait_code wait_result
wait kill env t d =
    if is_running d
    then elim (wait_code env t d) [ none ↦ none | some r ↦ some (wait_result kill r) ]
    else some (true, d)

-- `Thread::Kill`: one return of the condition wait is enough for it.
unfoldable pub kill : List (Wake ThreadData) → ThreadData → Option (Bool × ThreadData)
unfolding is_running one_wake
kill ws d =
    if is_running d
    then elim (one_wake ws) [ none ↦ none | some (code, d') ↦ some (true, d') ]
    else some (false, d)

-- `ThisThread::GetID` from the data that `pthread_getspecific` finds, or from `pthread_self`.
unfoldable pub this_id : Option ThreadData → (self : ℕ) → ℕ
this_id none self = self
this_id (some d) self = d.tid
