-- ===== src/Time/Clock.antt =====
-- system/time/tickcount.cc and system/time/timestamp.cc: the two clocks in milliseconds.
-- A clock reading is an argument; `none` is a failed call of the system, after which the code jumps
-- through a null function pointer, which is `none` here too.
use prot.Prelude.{ℕ, ◌+◌, ◌*◌, ◌/◌, ◌%◌, ◌^◌, ◌≤◌, ◌<◌, ◌≡◌, Option, none, some, arith}
use prot.Prelude.Int.{ℤ, pos, pos_part, quot, ◌+ℤ◌, ◌*ℤ◌, to_u64, to_i64}
use prot.Time.Unit.{in_milliseconds, one_millisecond}
use prot.Time.Deadline.{TimeSpec, TimeVal, IsInstant, IsReading, nanos, wall_nanos}

-- `ts.tv_sec*(UInt64)1000 + ts.tv_nsec / 1000000`, in unsigned 64-bit arithmetic.
unfoldable pub tick_millis : TimeSpec → ℕ
tick_millis ts = (to_u64 ts.tv_sec * 1000 % 2 ^ 64 + to_u64 (quot ts.tv_nsec 1000000)) % 2 ^ 64

unfoldable pub tick_now_milliseconds : Option TimeSpec → Option ℕ
tick_now_milliseconds none = none
tick_now_milliseconds (some ts) = some (tick_millis ts)

-- `PT_BASE_TS_UTC_PREFIX` of the two systems.
abbrev pub posix_prefix : ℕ
posix_prefix = 621259200000000000

abbrev pub windows_prefix : ℕ
windows_prefix = 504891360000000000

unfoldable pub posix_stamp : TimeVal → ℤ
posix_stamp tv = to_i64 (
    to_i64 (to_i64 (tv.tv_sec *ℤ 1000) +ℤ quot tv.tv_usec 1000)
    +ℤ pos (posix_prefix / one_millisecond))

unfoldable pub stamp_now_milliseconds : Option TimeVal → Option ℤ
stamp_now_milliseconds none = none
stamp_now_milliseconds (some tv) = some (posix_stamp tv)

-- `FILETIME`: two unsigned 32-bit halves of a count of 100 nanoseconds from 1601.
unfoldable pub windows_stamp : (high low : ℕ) → ℤ
unfolding in_milliseconds
windows_stamp high low = in_milliseconds (record {
  utc = to_i64 (to_i64 (to_i64 (pos (high * 2 ^ 32)) +ℤ pos low) +ℤ pos windows_prefix);
})

tick_millis-parts :
    (s n : ℤ)
    → IsInstant (record { tv_sec = s; tv_nsec = n })
    → pos_part s < 2 ^ 53
    → tick_millis (record { tv_sec = s; tv_nsec = n })
      ≡ nanos (record { tv_sec = s; tv_nsec = n }) / 1000000
unfolding tick_millis
tick_millis-parts s n i h = ground arith

-- The tick count is the reading in whole milliseconds, for as long as the machine's uptime is below
-- 2 ^ 53 seconds; so a later reading never gives a smaller count.
pub tick_now_mono :
    (a b : TimeSpec) {m n : ℕ}
    → IsInstant a
    → IsInstant b
    → pos_part b.tv_sec < 2 ^ 53
    → nanos a ≤ nanos b
    → tick_now_milliseconds (some a) ≡ some m
    → tick_now_milliseconds (some b) ≡ some n
    → (m ≡ nanos a / 1000000) × (n ≡ nanos b / 1000000) × (m ≤ n)
unfolding tick_now_milliseconds
tick_now_mono a b i j h le e f = ground (
  arith,
  tick_millis-parts a.tv_sec a.tv_nsec i (omega arith),
  tick_millis-parts b.tv_sec b.tv_nsec j h,
)

posix_stamp-parts :
    (s us : ℤ)
    → IsReading (record { tv_sec = s; tv_usec = us })
    → pos_part s < 2 ^ 52
    → posix_stamp (record { tv_sec = s; tv_usec = us })
      ≡ pos (wall_nanos (record { tv_sec = s; tv_usec = us }) / 1000000 + 62125920000000)
unfolding posix_stamp
posix_stamp-parts s us i h = ground arith

windows_stamp-pos :
    (high low : ℕ)
    → low < 2 ^ 32
    → high * 2 ^ 32 + low < 2 ^ 62
    → windows_stamp high low ≡ pos ((high * 2 ^ 32 + low + windows_prefix) / 10000)
unfolding windows_stamp
windows_stamp-pos high low h k = ground arith

-- The two systems disagree on one and the same instant: a `FILETIME` counts from 1601, that is
-- 11644473600 seconds before the start of `gettimeofday`, and the stamp that Windows makes of it is
-- 7689600000 milliseconds, 89 days, above the stamp of the other systems.
pub windows_stamp-eq-posix_stamp :
    (tv : TimeVal) (high low : ℕ) {s : ℤ}
    → IsReading tv
    → pos_part tv.tv_sec < 2 ^ 38
    → low < 2 ^ 32
    → high * 2 ^ 32 + low ≡ (pos_part tv.tv_sec + 11644473600) * 10000000 + pos_part tv.tv_usec * 10
    → stamp_now_milliseconds (some tv) ≡ some s
    → windows_stamp high low ≡ s +ℤ pos 7689600000
unfolding stamp_now_milliseconds
windows_stamp-eq-posix_stamp tv high low i h k same e = ground (
  arith,
  windows_stamp-pos high low k (omega arith),
  posix_stamp-parts tv.tv_sec tv.tv_usec i (omega arith),
)
