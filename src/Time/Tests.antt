-- ===== src/Time/Tests.antt =====
-- Tests of system/time, and its theorems at concrete inputs.
use prot.Prelude.{◌≡◌, refl, arith}
use prot.Prelude.Int.{pos}
use prot.Time.Unit.{TimeUnit}
use prot.Time.Deadline.{TimeSpec, TimeVal, carry, tick_deadline, IsDeadline, tick_deadline_lem}

-- 5.9 seconds after the start of the clock.
abbrev reading : TimeSpec
reading = record { tv_sec = pos 5; tv_nsec = pos 900000000 }

abbrev wall : TimeVal
wall = record { tv_sec = pos 5; tv_usec = pos 900000 }

abbrev fifth : TimeUnit
fifth = record { utc = pos 2000000 }

-- The carry is taken: 5.9 + 0.2 = 6.1.
carried : tick_deadline reading fifth ≡ record { tv_sec = pos 6; tv_nsec = pos 100000000 }
unfolding tick_deadline carry
carried = refl

tick_deadline_lem_example : IsDeadline (tick_deadline reading fifth) 6100000000
tick_deadline_lem_example = tick_deadline_lem reading fifth (omega arith) (omega arith)

-- Some 317 years.
abbrev centuries : TimeUnit
centuries = record { utc = pos 100000000000000000 }
