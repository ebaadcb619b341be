-- ===== src/Time/Deadline.antt =====
-- The absolute deadline of a timed wait, the same code in system/synchronization/semaphore.cc,
-- system/synchronization/event.cc and system/thread_posix.cpp: a clock reading plus a `TimeUnit`.
use prot.Prelude.{ℕ, ◌+◌, ◌-◌, ◌*◌, ◌/◌, ◌%◌, ◌^◌, ◌≤◌, ◌<◌, ◌≡◌, if◌then◌else◌, arith}
use prot.Prelude.Int.{
  ℤ, pos, negsuc, pos_part, neg_part, sub_ℕ, ◌+ℤ◌, ◌-ℤ◌, ◌*ℤ◌, leb_ℤ, rem, to_i64,
}
use prot.Time.Unit.{TimeUnit, IsShort, in_nanoseconds, in_seconds}

-- `struct timespec` and `struct timeval`: both fields are 64-bit and signed.
pub record TimeSpec : Type 0 where
  pub tv_sec : ℤ
  pub tv_nsec : ℤ

pub record TimeVal : Type 0 where
  pub tv_sec : ℤ
  pub tv_usec : ℤ

abbrev pub nanos_per_sec : ℕ
nanos_per_sec = 1000000000

-- `if (ts.tv_nsec >= 1000000000) { ts.tv_nsec -= 1000000000; ts.tv_sec ++; }`
unfoldable pub carry : TimeSpec → TimeSpec
carry ts =
    if leb_ℤ (pos nanos_per_sec) ts.tv_nsec
    then record { tv_sec = to_i64 (ts.tv_sec +ℤ pos 1); tv_nsec = ts.tv_nsec -ℤ pos nanos_per_sec }
    else ts

-- From `clock_gettime(CLOCK_MONOTONIC)`.
unfoldable pub tick_deadline : TimeSpec → TimeUnit → TimeSpec
unfolding in_nanoseconds in_seconds
tick_deadline ts t = carry (record {
  tv_sec = to_i64 (ts.tv_sec +ℤ in_seconds t);
  tv_nsec = to_i64 (ts.tv_nsec +ℤ rem (in_nanoseconds t) nanos_per_sec);
})

-- From `gettimeofday`.
unfoldable pub wall_deadline : TimeVal → TimeUnit → TimeSpec
unfolding in_nanoseconds in_seconds
wall_deadline tv t = carry (record {
  tv_sec = to_i64 (tv.tv_sec +ℤ in_seconds t);
  tv_nsec = to_i64 (to_i64 (tv.tv_usec *ℤ 1000) +ℤ rem (in_nanoseconds t) nanos_per_sec);
})

-- What the kernel gives and what `pthread_cond_timedwait` accepts: seconds since the clock's start,
-- far from the end of `time_t`, and less than a second of nanoseconds.
pub record IsInstant (ts : TimeSpec) : Type 0 where
  pub sec_nonneg : neg_part ts.tv_sec ≡ 0
  pub sec_below : pos_part ts.tv_sec < 2 ^ 62
  pub nsec_nonneg : neg_part ts.tv_nsec ≡ 0
  pub nsec_below : pos_part ts.tv_nsec < nanos_per_sec

-- The instant as a number of nanoseconds.
abbrev pub nanos : TimeSpec → ℕ
nanos ts = pos_part ts.tv_sec * nanos_per_sec + pos_part ts.tv_nsec

-- A deadline in range that is the instant `n`.
abbrev pub IsDeadline : TimeSpec → ℕ → Type 0
IsDeadline ts n =
    (neg_part ts.tv_sec ≡ 0)
    × (neg_part ts.tv_nsec ≡ 0)
    × (pos_part ts.tv_nsec < nanos_per_sec)
    × (nanos ts ≡ n)

carry-IsDeadline :
    (s n : ℕ)
    → s < 2 ^ 63 - 1
    → n < 2 * nanos_per_sec
    → IsDeadline (carry (record { tv_sec = pos s; tv_nsec = pos n })) (s * nanos_per_sec + n)
unfolding carry
carry-IsDeadline s n hs hn = ground arith

-- A sum that stays below 2 ^ 63 does not wrap.
to_i64-sum : (a b : ℕ) → a + b < 2 ^ 63 → to_i64 (pos a +ℤ pos b) ≡ pos (a + b)
to_i64-sum a b h = ground arith

in_seconds-pos : (u : ℕ) → in_seconds (record { utc = pos u }) ≡ pos (u / 10000000)
unfolding in_seconds
in_seconds-pos u = ground arith

rem_nanos-pos :
    (u : ℕ)
    → u < 2 ^ 63 / 100
    → rem (in_nanoseconds (record { utc = pos u })) nanos_per_sec ≡ pos (u * 100 % nanos_per_sec)
unfolding in_nanoseconds
rem_nanos-pos u h = ground arith

tick_deadline-pos :
    (s n u : ℕ)
    → s < 2 ^ 62
    → n < nanos_per_sec
    → u < 2 ^ 63 / 100
    → IsDeadline
        (tick_deadline (record { tv_sec = pos s; tv_nsec = pos n }) (record { utc = pos u }))
        (s * nanos_per_sec + n + u * 100)
unfolding tick_deadline
tick_deadline-pos s n u hs hn hu =
    rw
      (
        in_seconds-pos u,
        rem_nanos-pos u hu,
        to_i64-sum s (u / 10000000) (omega arith),
        to_i64-sum n (u * 100 % nanos_per_sec) (omega arith),
      )
      (omega (
        arith,
        carry-IsDeadline (s + u / 10000000) (n + u * 100 % nanos_per_sec) (omega arith)
            (omega arith),
      ))

tick_deadline-parts :
    (s n u : ℤ)
    → IsInstant (record { tv_sec = s; tv_nsec = n })
    → IsShort (record { utc = u })
    → IsDeadline
        (tick_deadline (record { tv_sec = s; tv_nsec = n }) (record { utc = u }))
        (nanos (record { tv_sec = s; tv_nsec = n }) + pos_part u * 100)
tick_deadline-parts (pos s) (pos n) (pos u) i h =
    tick_deadline-pos s n u i.sec_below i.nsec_below h.fits
tick_deadline-parts (pos s) (pos n) (negsuc u) i h = absurd (omega arith)
tick_deadline-parts (pos s) (negsuc n) u i h = absurd (omega arith)
tick_deadline-parts (negsuc s) n u i h = absurd (omega arith)

-- From a reading of the monotonic clock and a duration that is not negative and shorter than some
-- 292 years, the deadline is exactly the reading plus the duration, and its nanoseconds are less
-- than a second and not negative, as `pthread_cond_timedwait` asks.
pub tick_deadline_lem :
    (ts : TimeSpec) (t : TimeUnit)
    → IsInstant ts
    → IsShort t
    → IsDeadline (tick_deadline ts t) (nanos ts + pos_part t.utc * 100)
tick_deadline_lem ts t i h = tick_deadline-parts ts.tv_sec ts.tv_nsec t.utc i h

us_scaled : (us : ℕ) → us < 1000000 → to_i64 (pos us *ℤ 1000) ≡ pos (us * 1000)
us_scaled us h = ground arith

wall-eq_tick :
    (s : ℤ) (us : ℕ) (t : TimeUnit)
    → us < 1000000
    → wall_deadline (record { tv_sec = s; tv_usec = pos us }) t
      ≡ tick_deadline (record { tv_sec = s; tv_nsec = pos (us * 1000) }) t
unfolding wall_deadline tick_deadline
wall-eq_tick s us t h = rw (us_scaled us h)

-- What `gettimeofday` gives.
pub record IsReading (tv : TimeVal) : Type 0 where
  pub sec_nonneg : neg_part tv.tv_sec ≡ 0
  pub sec_below : pos_part tv.tv_sec < 2 ^ 62
  pub usec_nonneg : neg_part tv.tv_usec ≡ 0
  pub usec_below : pos_part tv.tv_usec < 1000000

abbrev pub wall_nanos : TimeVal → ℕ
wall_nanos tv = pos_part tv.tv_sec * nanos_per_sec + pos_part tv.tv_usec * 1000

wall_deadline-parts :
    (s us : ℤ) (t : TimeUnit)
    → IsReading (record { tv_sec = s; tv_usec = us })
    → IsShort t
    → IsDeadline
        (wall_deadline (record { tv_sec = s; tv_usec = us }) t)
        (wall_nanos (record { tv_sec = s; tv_usec = us }) + pos_part t.utc * 100)
wall_deadline-parts s (pos us) t i h =
    rw (wall-eq_tick s us t i.usec_below)
      (tick_deadline_lem (record { tv_sec = s; tv_nsec = pos (us * 1000) }) t (omega arith) h)
wall_deadline-parts s (negsuc us) t i h = absurd (omega arith)

-- The branch for a system without the monotonic clock computes the same: the deadline is exactly
-- the reading of `gettimeofday` plus the duration, with its nanoseconds in range.
pub wall_deadline_lem :
    (tv : TimeVal) (t : TimeUnit)
    → IsReading tv
    → IsShort t
    → IsDeadline (wall_deadline tv t) (wall_nanos tv + pos_part t.utc * 100)
wall_deadline_lem tv t i h = wall_deadline-parts tv.tv_sec tv.tv_usec t i h

in_nanoseconds-parts :
    (u : ℤ)
    → 2 ^ 63 ≤ pos_part u * 100
    → pos_part u * 100 < 2 ^ 64
    → in_nanoseconds (record { utc = u }) ≡ sub_ℕ 0 (2 ^ 64 - pos_part u * 100)
unfolding in_nanoseconds
in_nanoseconds-parts (pos u) h k = ground arith
in_nanoseconds-parts (negsuc u) h k = absurd (omega arith)

-- A duration from some 292 years up to 584 years, far below the 29247 years that a `TimeUnit` can
-- hold, has a negative number of nanoseconds: the product wraps round.
pub in_nanoseconds_wraps :
    (t : TimeUnit)
    → 2 ^ 63 ≤ pos_part t.utc * 100
    → pos_part t.utc * 100 < 2 ^ 64
    → in_nanoseconds t ≡ sub_ℕ 0 (2 ^ 64 - pos_part t.utc * 100)
in_nanoseconds_wraps t h k = in_nanoseconds-parts t.utc h k
