-- ===== src/Sync/Lock.antt =====
-- system/synchronization/lock.hh, lock_posix.cpp and lock_win32.cpp: the interface `ILock`, what a
-- lock promises, and the locks of both systems.
pub mod Calls
pub mod Spin
pub mod Implements
pub mod UnitTests
pub mod Results
pub mod Recursive
pub mod Exclusion
pub mod Counting
pub mod Adapters
pub mod Cases
pub mod Calculation
mod Tests
use prot.Prelude.{ℕ, ◌+◌, ◌-◌, Bool, true, false, ◌==◌, ltb, if◌then◌else◌, Option, none, some}

pub data LockType : Type 0 where
  invalid spinning recursive singlenter semaphore : LockType
  auto_reset_event manual_reset_event condition_variable : LockType

-- How far a call of `Get` comes in one attempt: it returns, or it waits and tries again later.
pub data Attempt (S : Type 0) : Type 0 where
  returns : (result : Bool) → S → Attempt S
  waits : S → Attempt S

-- `ILock`, for a lock with the state `S` and calls by the thread `t`.
pub record ILock (S : Type 0) : Type 0 where
  pub lock_type : LockType
  pub get : (t : ℕ) → S → Attempt S
  pub free : (t : ℕ) → S → S
  pub try_get : (t : ℕ) → S → Bool × S

-- `NoLock`
unfoldable pub no_lock : ILock Unit
no_lock = record {
  lock_type = invalid;
  get = λ t s. returns true s;
  free = λ t s. s;
  try_get = λ t s. (true, s);
}

-- What a lock of the given type promises that one owner holds at most once; the state tells whether
-- it is held.
abbrev pub exclusive : LockType → ILock Bool
exclusive type = record {
  lock_type = type;
  get = λ t held. if held then waits true else returns true true;
  free = λ t held. false;
  try_get = λ t held. if held then (false, true) else (true, true);
}

-- One call by `t` on a lock that its owner may take `limit` times: the result, if there is one now.
abbrev pub retake : (limit t : ℕ) → Option (ℕ × ℕ) → Option (Bool × Option (ℕ × ℕ))
retake limit t none = some (true, some (t, 1))
retake limit t (some (owner, depth)) =
    if owner == t
    then some (if ltb depth limit then (true, some (t, depth + 1)) else (false, some (t, depth)))
    else none

-- One release by `t`.
abbrev pub give_back : (t : ℕ) → Option (ℕ × ℕ) → Option (ℕ × ℕ)
give_back t none = none
give_back t (some (owner, depth)) =
    if owner == t then if depth == 1 then none else some (owner, depth - 1) else some (owner, depth)

abbrev pub attempt : {S : Type 0} → Option (Bool × S) → S → Attempt S
attempt none s = waits s
attempt (some (b, s')) s = returns b s'

abbrev pub or_refuse : {S : Type 0} → Option (Bool × S) → S → Bool × S
or_refuse none s = (false, s)
or_refuse (some r) s = r

-- What a recursive lock promises; the state is the owner and how often it has taken the lock.
abbrev pub reentrant : (limit : ℕ) → ILock (Option (ℕ × ℕ))
reentrant limit = record {
  lock_type = recursive;
  get = λ t s. attempt (retake limit t s) s;
  free = give_back;
  try_get = λ t s. or_refuse (retake limit t s) s;
}
