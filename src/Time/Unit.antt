-- ===== src/Time/Unit.antt =====
-- system/time/timeunit.hh: `TimeUnit`, a signed 64-bit count of 100 nanoseconds.
-- An `Int64` product keeps its wrap-around, `to_i64`.
use prot.Prelude.{ℕ, ◌/◌, ◌^◌, ◌<◌, ◌≡◌, Bool, arith}
use prot.Prelude.Int.{
  ℤ, pos, negsuc, pos_part, neg_part, ◌+ℤ◌, ◌*ℤ◌, ◌==ℤ◌, quot, rem, to_i64, IsInt64,
}

pub record TimeUnit : Type 0 where
  pub utc : ℤ

abbrev pub has_nonoseconds : ℕ
has_nonoseconds = 100

abbrev pub one_macrosecond : ℕ
one_macrosecond = 10

abbrev pub one_millisecond : ℕ
one_millisecond = 10000

abbrev pub one_second : ℕ
one_second = 10000000

abbrev pub infinite_units : ℤ
infinite_units = pos 0x7fffffffffffffff

unfoldable pub from_nanoseconds : ℤ → TimeUnit
from_nanoseconds n = record { utc = quot n has_nonoseconds }

unfoldable pub from_macroseconds : ℤ → TimeUnit
from_macroseconds n = record { utc = to_i64 (n *ℤ one_macrosecond) }

unfoldable pub from_milliseconds : ℤ → TimeUnit
from_milliseconds n = record { utc = to_i64 (n *ℤ one_millisecond) }

unfoldable pub from_seconds : ℤ → TimeUnit
from_seconds n = record { utc = to_i64 (n *ℤ one_second) }

abbrev pub infinite : TimeUnit
infinite = record { utc = infinite_units }

abbrev pub zero_time : TimeUnit
zero_time = record { utc = pos 0 }

unfoldable pub in_milliseconds : TimeUnit → ℤ
in_milliseconds t = quot t.utc one_millisecond

unfoldable pub in_nanoseconds : TimeUnit → ℤ
in_nanoseconds t = to_i64 (t.utc *ℤ has_nonoseconds)

unfoldable pub in_macroseconds : TimeUnit → ℤ
in_macroseconds t = quot t.utc one_macrosecond

unfoldable pub in_seconds : TimeUnit → ℤ
in_seconds t = quot t.utc one_second

unfoldable pub infinitely : TimeUnit → Bool
infinitely t = t.utc ==ℤ infinite_units

unfoldable pub empty : TimeUnit → Bool
empty t = t.utc ==ℤ pos 0

-- A duration that is not negative and whose count of nanoseconds fits `Int64` (some 292 years).
pub record IsShort (t : TimeUnit) : Type 0 where
  pub nonneg : neg_part t.utc ≡ 0
  pub fits : pos_part t.utc < 2 ^ 63 / 100

-- A number of milliseconds, macroseconds or seconds whose count of units fits `Int64` comes back
-- unchanged from the conversion to a `TimeUnit` and back, whatever its sign.
pub in-from :
    (n : ℤ)
    → IsInt64 (n *ℤ one_second)
    → (in_milliseconds (from_milliseconds n) ≡ n)
      × (in_macroseconds (from_macroseconds n) ≡ n)
      × (in_seconds (from_seconds n) ≡ n)
unfolding from_milliseconds from_macroseconds from_seconds in_milliseconds in_macroseconds
    in_seconds
in-from (pos n) h = (ground arith, ground arith, ground arith)
in-from (negsuc n) h = (ground arith, ground arith, ground arith)

-- Nanoseconds lose the remainder by 100, which is the resolution, and nothing else.
pub in-from_nanoseconds :
    (n : ℤ) → IsInt64 n → in_nanoseconds (from_nanoseconds n) +ℤ rem n has_nonoseconds ≡ n
unfolding from_nanoseconds in_nanoseconds
in-from_nanoseconds (pos n) h = ground arith
in-from_nanoseconds (negsuc n) h = ground arith
