-- ===== src/Pool.antt =====
-- system/pthread.cc: `PoolThread`, a thread that takes one job after another from its owner, by two
-- manual reset events and a word of flags.
pub mod System
pub mod Invariant
pub mod Sound
pub mod Works
pub mod Deletes
pub mod Jobs
pub mod Faults
pub mod Failed
pub mod Calc
mod Tests
use prot.Prelude.{ℕ, Bool, true, false, not, ◌==◌, if◌then◌else◌}
use prot.Sync.Event.{Event, CallEnv, Ret, wait}
use prot.Sync.Cond.{WaitEnv}
use prot.Time.Unit.{TimeUnit}

-- The bits of `flag`: PTDFLAG_STARTING, HAS_EXIT, DETACHED and ACTIVING.
pub record Flag : Type 0 where
  pub starting : Bool
  pub has_exit : Bool
  pub detached : Bool
  pub activing : Bool

-- `PoolThreadData`; `func` is 0 for the null pointer.
pub record PoolData : Type 0 where
  pub sig_in : Event
  pub sig_out : Event
  pub func : ℕ
  pub args : ℕ
  pub flag : Flag

-- The events as the constructor makes them, each with the clock that it got.
abbrev pub manual_event : (tick_clock state : Bool) → Event
manual_event tick_clock state = record {
  manual_reset = true;
  tick_clock = tick_clock;
  state = state;
}

-- `PoolThread::PoolThread`
unfoldable pub pool_construct : (clock_in clock_out : Bool) → (func : ℕ) → PoolData
pool_construct clock_in clock_out func = record {
  sig_in = manual_event clock_in false;
  sig_out = manual_event clock_out true;
  func = func;
  args = 0;
  flag = record { starting = false; has_exit = false; detached = false; activing = false };
}

-- What `Run` finds in the flags: the thread has to be started, it is busy, or it is ready.
pub data RunPath : Type 0 where
  starts busy ready : RunPath

unfoldable pub run_path : Flag → RunPath
run_path f = if not f.starting then starts else if f.activing then busy else ready

-- `ptd->flag = PTDFLAG_STARTING`
abbrev pub only_starting : Flag
only_starting = record { starting = true; has_exit = false; detached = false; activing = false }

-- `ptd->flag = PTDFLAG_HAS_EXIT`
abbrev pub only_has_exit : Flag
only_has_exit = record { starting = false; has_exit = true; detached = false; activing = false }

abbrev pub with_flag : Flag → PoolData → PoolData
with_flag f d = record d { flag = f }

-- The words that `flag |= PTDFLAG_ACTIVING`, `flag &= ~PTDFLAG_ACTIVING` and
-- `flag |= PTDFLAG_DETACHED` store, from the word that they have read.
abbrev pub raise : Flag → Flag
raise f = record f { activing = true }

abbrev pub lower : Flag → Flag
lower f = record f { activing = false }

abbrev pub detach : Flag → Flag
detach f = record f { detached = true }

-- `PoolThread::ThreadState`
pub data PoolState : Type 0 where
  offline running holding : PoolState

-- `PoolThread::Status`, from what `Thread::Status` says.
unfoldable pub pool_status : (thread_runs : Bool) → PoolData → PoolState
pool_status thread_runs d =
    if not thread_runs then offline else if d.flag.activing then running else holding

-- `PoolThread::Wait`
unfoldable pub pool_wait : CallEnv → WaitEnv Event → TimeUnit → PoolData → Ret (Bool × Event)
unfolding wait
pool_wait c env t d = wait c env t d.sig_out
