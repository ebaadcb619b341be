-- ===== src/Sync/Lock/Calls.antt =====
-- lock_posix.cpp and lock_win32.cpp: the mutexes, over the calls of the system.
use prot.Prelude.{ℕ, ◌==◌, Bool, true, not, Option, none, some}
use prot.Sync.Lock.{ILock, Attempt, returns, waits, singlenter, recursive}

-- `pthread_mutex_lock`, `pthread_mutex_trylock` and `pthread_mutex_unlock` by a thread, on a mutex
-- with the state `M`: their code, or `none` while `pthread_mutex_lock` waits.
pub record MutexCalls (M : Type 0) : Type 0 where
  pub lock : (t : ℕ) → M → Option (ℕ × M)
  pub try_lock : (t : ℕ) → M → ℕ × M
  pub unlock : (t : ℕ) → M → M

abbrev answered : {M : Type 0} → Option (ℕ × M) → M → Attempt M
answered none m = waits m
answered (some (code, m')) m = returns (0 == code) m'

abbrev tested : {M : Type 0} → ℕ × M → Bool × M
tested (code, m) = (0 == code, m)

-- The type that an attribute gives to a mutex: PTHREAD_MUTEX_NORMAL or PTHREAD_MUTEX_RECURSIVE.
pub data MutexKind : Type 0 where
  mutex_normal mutex_recursive : MutexKind

-- The constructors of `SinglenterLock` and `RecursiveLock` of lock_posix.cpp, over `pthread_mutex_init`
-- with an attribute of a type, for which the calls below are then documented to behave differently.
module _ {M : Type 0} (mutex_init : MutexKind → M) where
  unfoldable pub singlenter_construct : M
  singlenter_construct = mutex_init mutex_normal

  unfoldable pub recursive_construct : M
  recursive_construct = mutex_init mutex_recursive

module _ {M : Type 0} (calls : MutexCalls M) where
  -- `SinglenterLock` of lock_posix.cpp
  unfoldable pub singlenter_lock : ILock M
  singlenter_lock = record {
    lock_type = singlenter;
    get = λ t m. answered (calls.lock t m) m;
    free = calls.unlock;
    try_get = λ t m. tested (calls.try_lock t m);
  }

  -- `RecursiveLock` of lock_posix.cpp
  unfoldable pub recursive_lock : ILock M
  recursive_lock = record {
    lock_type = recursive;
    get = λ t m. answered (calls.lock t m) m;
    free = calls.unlock;
    try_get = λ t m. tested (calls.try_lock t m);
  }

-- `WaitForSingleObject` without a limit (`none` while it waits) and with the limit 0, and
-- `SetEvent`, on an event with the state `H`.
pub record EventCalls (H : Type 0) : Type 0 where
  pub wait_infinite : H → Option (ℕ × H)
  pub wait_zero : H → ℕ × H
  pub set_event : H → H

-- `SinglenterLock` of lock_win32.cpp
unfoldable pub win_singlenter_lock : {H : Type 0} → EventCalls H → ILock H
win_singlenter_lock calls = record {
  lock_type = singlenter;
  get = λ t h. answered (calls.wait_infinite h) h;
  free = λ t h. calls.set_event h;
  try_get = λ t h. tested (calls.wait_zero h);
}

-- `EnterCriticalSection` (`none` while it waits), `TryEnterCriticalSection` and
-- `LeaveCriticalSection` by a thread.
pub record SectionCalls (C : Type 0) : Type 0 where
  pub enter : (t : ℕ) → C → Option C
  pub try_enter : (t : ℕ) → C → ℕ × C
  pub leave : (t : ℕ) → C → C

abbrev entered : {C : Type 0} → Option C → C → Attempt C
entered none c = waits c
entered (some c') c = returns true c'

-- `RecursiveLock` of lock_win32.cpp
unfoldable pub win_recursive_lock : {C : Type 0} → SectionCalls C → ILock C
win_recursive_lock calls = record {
  lock_type = recursive;
  get = λ t c. entered (calls.enter t c) c;
  free = calls.leave;
  try_get = λ t c. let (b, c') = calls.try_enter t c in (not (0 == b), c');
}
