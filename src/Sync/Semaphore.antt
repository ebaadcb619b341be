-- ===== src/Sync/Semaphore.antt =====
-- system/synchronization/semaphore.cc, the POSIX `Semaphore`: a bounded counter under a mutex with
-- a condition variable. `Int32` sums keep their wrap-around, `to_i32`.
pub mod Init
pub mod Count
pub mod Waiting
pub mod System
pub mod Windows
mod Tests
use prot.Prelude.{
  ℕ, zero, suc, ◌≡◌, Bool, true, false, not, ◌&&◌, ◌||◌, if◌then◌else◌, Option, none, some, List,
  [], ◌∷◌,
}
use prot.Prelude.Int.{ℤ, pos, pos_part, ◌+ℤ◌, ◌-ℤ◌, ◌==ℤ◌, leb_ℤ, ltb_ℤ, to_i32}
use prot.Time.Unit.{TimeUnit, empty, infinitely, in_seconds, infinite, zero_time}
use prot.Time.Deadline.{TimeSpec, TimeVal, tick_deadline, wall_deadline}
use prot.Sync.Cond.{deadline, Code, ok, Wake, WaitEnv, Notify, signal, broadcast}

-- `SEMAPHORE_DATA` without the two pthread objects; `tick_clock` is the bit SDFLAG_TICKCLOCK.
pub record Sem : Type 0 where
  pub current : ℤ
  pub maximum : ℤ
  pub tick_clock : Bool

abbrev pub maximum_count : ℤ
maximum_count = pos 2109876543

-- `_TryWaitSemaphore`
unfoldable pub try_wait : Sem → Bool × Sem
try_wait s =
    if not (s.current ==ℤ pos 0)
    then (true, record s { current = to_i32 (s.current -ℤ pos 1) })
    else (false, s)

-- The loop of `Wait` round a condition wait, from the moment that the mutex is held. `none`: the
-- returns are used up and the thread still waits.
unfoldable pub wait_loop : Sem → List (Wake Sem) → Option (Bool × Sem)
wait_loop s [] =
    if not (s.current ==ℤ pos 0)
    then some (true, record s { current = to_i32 (s.current -ℤ pos 1) })
    else none
wait_loop s (w ∷ ws) =
    let rest = wait_loop w.seen ws in
    if not (s.current ==ℤ pos 0)
    then some (true, record s { current = to_i32 (s.current -ℤ pos 1) })
    else if ok w.code
    then rest
    else some (false, w.seen)

-- What the other threads have made of the semaphore during `sleep(1)`.
abbrev pub after_sleep : Sem → List Sem → Sem
after_sleep s [] = s
after_sleep _ (u ∷ _) = u

abbrev pub later : List Sem → List Sem
later [] = []
later (_ ∷ us) = us

-- The loop of `Wait` without a clock: one attempt and one second of sleep, `tsec` times.
unfoldable pub poll : (tsec : ℕ) → Sem → List Sem → Bool × Sem
unfolding try_wait
poll zero s us = (false, s)
poll (suc n) s us =
    let (got, s') = try_wait s in
    let rest = poll n (after_sleep s' us) (later us) in if got then (true, s') else rest

-- The part of `Wait` behind its tests for an empty and an infinite duration.
unfoldable pub timed_wait : Option TimeSpec → WaitEnv Sem → TimeUnit → Sem → Option (Bool × Sem)
timed_wait none env t s = some (poll (pos_part (in_seconds t)) s env.polls)
timed_wait (some d) env t s = wait_loop s (env.timed_wakes d)

-- `Semaphore::Wait`
unfoldable pub wait : WaitEnv Sem → TimeUnit → Sem → Option (Bool × Sem)
wait env t s =
    if empty t
    then some (try_wait s)
    else if infinitely t
    then wait_loop s env.wakes
    else timed_wait (deadline s.tick_clock env t) env t s

-- `Semaphore::Get` and `Semaphore::TryGet`
unfoldable pub get : WaitEnv Sem → Sem → Option (Bool × Sem)
unfolding wait
get env s = wait env infinite s

unfoldable pub try_get : WaitEnv Sem → Sem → Option (Bool × Sem)
unfolding wait
try_get env s = wait env zero_time s

-- The test of `Post` before it takes the mutex, on the values that it reads then.
unfoldable pub post_refused : Sem → ℤ → Bool
post_refused s i_num = leb_ℤ i_num (pos 0) || ltb_ℤ s.maximum (to_i32 (s.current +ℤ i_num))

abbrev pub post_notify : ℤ → Notify
post_notify i_num = if i_num ==ℤ pos 1 then signal else broadcast

-- `Post` from the moment that it holds the mutex; `notify` is what the wake-up calls return.
unfoldable pub post_locked : (Notify → Code) → ℤ → Sem → Bool × Sem
post_locked notify i_num s =
    if leb_ℤ (to_i32 (s.current +ℤ i_num)) s.maximum
    then (if ok (notify (post_notify i_num))
        then (true, record s { current = to_i32 (s.current +ℤ i_num) })
        else (false, record s { current = to_i32 (to_i32 (s.current +ℤ i_num) -ℤ i_num) }))
    else (false, s)

-- `Semaphore::Post`: `seen` is the semaphore at the first test, `s` once the mutex is held.
unfoldable pub post : (Notify → Code) → (seen : Sem) → ℤ → Sem → Bool × Sem
unfolding post_refused post_locked
post notify seen i_num s =
    if post_refused seen i_num then (false, s) else post_locked notify i_num s

-- `Semaphore::Free`
unfoldable pub free : (Notify → Code) → (seen : Sem) → Sem → Sem
unfolding post
free notify seen s = (post notify seen (pos 1) s).1

-- `Semaphore::SetMax`, which does not take the mutex.
unfoldable pub set_max : ℤ → Sem → Bool × Sem
set_max i_max s =
    if ltb_ℤ (pos 0) i_max && leb_ℤ i_max maximum_count
    then (true, record s { maximum = i_max })
    else (false, s)
