-- ===== src/Thread/Sleeping.antt =====
-- `ThisThread::Sleep` (system/thread_posix.cpp), as the list of the calls that it makes.
use prot.Prelude.{
  ℕ, ◌+◌, ◌*◌, ◌/◌, ◌%◌, ◌^◌, ◌<◌, ◌≡◌, ◌==◌, if◌then◌else◌, List, [], ◌∷◌, ◌++◌, arith,
}
use prot.Prelude.Int.{pos, to_u32, to_u64}
use prot.Time.Unit.{TimeUnit, empty, in_seconds, in_macroseconds}

-- `sched_yield()`, `sleep(s)` and `usleep(us)`; the arguments are 32-bit and unsigned.
pub data Pause : Type 0 where
  yield_cpu : Pause
  seconds micros : ℕ → Pause

-- The two calls that the overloads end with.
unfoldable pub pauses : (i_sec u_sec : ℕ) → List Pause
pauses i_sec u_sec =
    (if i_sec == 0 then [] else seconds (i_sec % 2 ^ 32) ∷ [])
    ++ (if u_sec == 0 then [] else micros (u_sec % 2 ^ 32) ∷ [])

-- `ThisThread::Sleep(Time::TimeUnit t)`
unfoldable pub sleep_unit : TimeUnit → List Pause
unfolding pauses empty in_seconds in_macroseconds
sleep_unit t =
    if empty t
    then yield_cpu ∷ []
    else pauses (to_u64 (in_seconds t)) (to_u32 (in_macroseconds t) % 1000000)

-- `ThisThread::Sleep(Int32 msec)`, which the header leaves undefined below 0.
unfoldable pub sleep_msec : ℕ → List Pause
unfolding pauses
sleep_msec msec = if msec == 0 then yield_cpu ∷ [] else pauses (msec / 1000) (msec % 1000 * 1000)

-- How long the calls sleep, in microseconds.
abbrev pub total : List Pause → ℕ
total [] = 0
total (yield_cpu ∷ ps) = total ps
total (seconds s ∷ ps) = s * 1000000 + total ps
total (micros us ∷ ps) = us + total ps

-- A sleep of some milliseconds lasts that long.
pub sleep_msec_lem : (msec : ℕ) → msec < 2 ^ 31 → total (sleep_msec msec) ≡ msec * 1000
unfolding sleep_msec
sleep_msec_lem msec h = ground arith

-- A `TimeUnit` below 2 ^ 32 seconds is slept to the microsecond as long as its microseconds fit in
-- 32 bits; from there on (some 71 minutes) the part below a second is that of the cut number.
pub sleep_unit_lem :
    (n : ℕ)
    → n / 10000000 < 2 ^ 32
    → total (sleep_unit (record { utc = pos n }))
      ≡ n / 10000000 * 1000000 + n / 10 % 2 ^ 32 % 1000000
unfolding sleep_unit
sleep_unit_lem n h = ground arith

pub sleep_unit_exact :
    (n : ℕ) → n / 10 < 2 ^ 32 → total (sleep_unit (record { utc = pos n })) ≡ n / 10
sleep_unit_exact n h = omega (arith, sleep_unit_lem n (omega arith))
