-- ===== src/Sync/Lock/UnitTests.antt =====
-- system/synchronization/lock_unittest.cpp: `TestReturnValue` and `TestSinglenter` as functions of
-- the lock that is tested. The thread under test runs until it returns or waits in `Get` before the
-- test looks at it, as the limits of the waits intend; a call of `Get` that waits is tried again
-- after the lock has changed.
use prot.Prelude.{
  ℕ, zero, suc, ◌+◌, Bool, true, false, not, ◌==◌, if◌then◌else◌, List, [], ◌∷◌, ◌++◌,
}
use prot.Sync.Lock.{
  LockType, invalid, spinning, recursive, singlenter, semaphore, auto_reset_event,
  manual_reset_event, condition_variable, ILock, Attempt, returns, waits,
}

-- The numbers of the types.
unfoldable pub type_code : LockType → ℕ
type_code invalid = 0
type_code spinning = 1
type_code recursive = 2
type_code singlenter = 3
type_code semaphore = 4
type_code auto_reset_event = 5
type_code manual_reset_event = 6
type_code condition_variable = 7

abbrev pub same_bool : Bool → Bool → Bool
same_bool a b = if a then b else not b

-- `MyTestReturnValueData` without the lock.
pub record Report : Type 0 where
  pub get_return : Bool
  pub try_get_return : Bool
  pub finished : Bool

-- What the thread has done if it runs to its end; the limited wait for it returns true.
abbrev pub expect_end : (again : Bool) → Report → List Bool
expect_end again r = r.finished ∷ r.finished ∷ r.get_return ∷ same_bool r.try_get_return again ∷ []

-- The same while it waits in its first call.
abbrev pub expect_waiting : Report → List Bool
expect_waiting r = not r.finished ∷ not r.finished ∷ not r.get_return ∷ not r.try_get_return ∷ []

module _ {S : Type 0} (lock : ILock S) where
  abbrev pub free_if : (t : ℕ) → Bool → S → S
  free_if t b s = if b then lock.free t s else s

  abbrev pub after_try : (t : ℕ) → Bool → Bool × S → Report × S
  after_try t b (c, s) =
      (record { get_return = b; try_get_return = c; finished = true }, free_if t c (free_if t b s))

  abbrev pub after_get : (t : ℕ) → Attempt S → Report × S
  after_get t (waits s) =
      (record { get_return = false; try_get_return = false; finished = false }, s)
  after_get t (returns b s) = after_try t b (lock.try_get t s)

  -- `MyTestReturnValueFunc` run by the thread `t`.
  unfoldable pub my_test_return_value_func : (t : ℕ) → S → Report × S
  my_test_return_value_func t s = after_get t (lock.get t s)

  -- The thread waits while the main thread, 0, holds the lock, until that gives it back.
  abbrev pub third_part : (again first second : Bool) → Report × S → List Bool
  unfolding my_test_return_value_func
  third_part again first second (r, s) =
      let freed = free_if 0 second (free_if 0 first s) in
      expect_waiting r ++ expect_end again (my_test_return_value_func 1 freed).0

  abbrev pub second_part : (again first : Bool) → Bool × S → List Bool
  unfolding my_test_return_value_func
  second_part again first (second, s) =
      first ∷ same_bool second again ∷ third_part again first second (my_test_return_value_func 1 s)

  abbrev pub first_part : (again : Bool) → Bool × S → List Bool
  first_part again (first, s) = second_part again first (lock.try_get 0 s)

  -- `TestReturnValue` for a lock of the type `type` that its owner can take `again`, or cannot: what
  -- each `EXPECT` finds.
  unfoldable pub test_return_value : (type : LockType) → (again : Bool) → S → List Bool
  unfolding type_code my_test_return_value_func
  test_return_value type again s =
      let (r, s') = my_test_return_value_func 1 s in
      (type_code type == type_code lock.lock_type) ∷ expect_end again r
      ++ first_part again (lock.try_get 0 s')

  -- `MyTestSinglenterFunc` run by the thread `t` with `test_start = n + 1`: whether it returns, and
  -- `test_result`.
  unfoldable pub my_test_singlenter_func : (t n test_result : ℕ) → S → Bool × ℕ × S
  my_test_singlenter_func t zero test_result s = elim (lock.get t s) [
    | waits s' ↦ (false, test_result, s')
    | returns b s' ↦ (true, test_result + 1, lock.free t s')
  ]
  my_test_singlenter_func t (suc n) test_result s = elim (lock.get t s) [
    | waits s' ↦ (false, test_result, s')
    | returns b s' ↦
        let (back, result, s'') = my_test_singlenter_func t n (test_result + (n + 2)) s' in
        (back, result, free_if t back s'')
  ]

  -- `TestSinglenter` and `TestRecursively`, with what they expect of the wait and of `test_result`.
  unfoldable pub test_singlenter : (back : Bool) → (result : ℕ) → S → List Bool
  unfolding my_test_singlenter_func
  test_singlenter back result s =
      let (b, r, s') = my_test_singlenter_func 1 3 0 s in same_bool b back ∷ (result == r) ∷ []
