-- ===== src/Sync/Lock/Results.antt =====
-- What the tests of lock_unittest.cpp find for any lock that does what it promises.
use prot.Prelude.{
  ℕ, ◌<◌, ◌≡◌, refl, ap, ◌∙◌, Bool, true, false, ◌&&◌, ◌==◌, Option, none, List, [], ◌∷◌, ◌++◌,
  arith,
}
use prot.Sync.Lock.{LockType, recursive, ILock, Attempt, returns, waits, exclusive, reentrant}
use prot.Sync.Lock.Implements.{Implements, view_attempt}
use prot.Sync.Lock.UnitTests.{
  type_code, Report, expect_end, expect_waiting, free_if, after_try, after_get,
  my_test_return_value_func, third_part, second_part, first_part, test_return_value, same_bool,
}

abbrev pub all_true : List Bool → Bool
all_true [] = true
all_true (b ∷ bs) = b && all_true bs

-- A result and a state, the state viewed.
abbrev over : {S A R : Type 0} → (S → A) → R × S → R × A
over view (r, s) = (r, view s)

module _ {S A : Type 0} {lock : ILock S} {promise : ILock A} {view : S → A}
    (i : Implements lock promise view) where
  free_if-view :
      (t : ℕ) (b : Bool) (s : S) → view (free_if lock t b s) ≡ free_if promise t b (view s)
  free_if-view t true s = i.same_free t s
  free_if-view t false s = refl

  after_try-view :
      (t : ℕ) (b : Bool) (r : Bool × S)
      → over view (after_try lock t b r) ≡ after_try promise t b (over view r)
  after_try-view t b (c, s) =
      ap (λ a. (record { get_return = b; try_get_return = c; finished = true }, a))
        (free_if-view t c (free_if lock t b s) ∙ ap (free_if promise t c) (free_if-view t b s))

  after_get-view :
      (t : ℕ) (a : Attempt S)
      → over view (after_get lock t a) ≡ after_get promise t (view_attempt view a)
  after_get-view t (waits s) = refl
  after_get-view t (returns b s) =
      after_try-view t b (lock.try_get t s) ∙ ap (after_try promise t b) (i.same_try t s)

  func-view :
      (t : ℕ) (s : S)
      → over view (my_test_return_value_func lock t s)
        ≡ my_test_return_value_func promise t (view s)
  unfolding my_test_return_value_func
  func-view t s = after_get-view t (lock.get t s) ∙ ap (after_get promise t) (i.same_get t s)

  third_part-view :
      (again first second : Bool) (r : Report × S)
      → third_part lock again first second r ≡ third_part promise again first second (over view r)
  unfolding my_test_return_value_func
  third_part-view again first second (r, s) =
      let freed = free_if lock 0 second (free_if lock 0 first s) in
      ap (λ p. expect_waiting r ++ expect_end again p.0)
        (func-view 1 freed
          ∙ ap (my_test_return_value_func promise 1) (
              free_if-view 0 second (free_if lock 0 first s)
              ∙ ap (free_if promise 0 second) (free_if-view 0 first s)))

  second_part-view :
      (again first : Bool) (r : Bool × S)
      → second_part lock again first r ≡ second_part promise again first (over view r)
  unfolding my_test_return_value_func
  second_part-view again first (second, s) =
      ap (λ bs. first ∷ same_bool second again ∷ bs)
        (third_part-view again first second (my_test_return_value_func lock 1 s)
          ∙ ap (third_part promise again first second) (func-view 1 s))

  first_part-view :
      (again : Bool) (r : Bool × S)
      → first_part lock again r ≡ first_part promise again (over view r)
  first_part-view again (first, s) =
      second_part-view again first (lock.try_get 0 s)
      ∙ ap (second_part promise again first) (i.same_try 0 s)

  -- Every `EXPECT` of `TestReturnValue` finds for a lock what it finds for the lock's promise.
  pub test_return_value-view :
      (type : LockType) (again : Bool) (s : S)
      → test_return_value lock type again s ≡ test_return_value promise type again (view s)
  unfolding test_return_value
  test_return_value-view type again s =
      let (r, s') = my_test_return_value_func lock 1 s in
      ap
        (λ ty.
          (type_code type == type_code ty) ∷ expect_end again r
          ++ first_part lock again (lock.try_get 0 s'))
        i.same_type
      ∙ ap (λ bs. (type_code type == type_code promise.lock_type) ∷ expect_end again r ++ bs)
          (first_part-view again (lock.try_get 0 s')
            ∙ ap (first_part promise again) (i.same_try 0 s'))
      ∙ ap
          (λ p.
            (type_code type == type_code promise.lock_type) ∷ expect_end again p.0
            ++ first_part promise again (promise.try_get 0 p.1))
          (func-view 1 s)

-- `TestReturnValue` succeeds for every lock that can be held once and starts free.
pub exclusive-test_return_value :
    {S : Type 0} {lock : ILock S} {type : LockType} {view : S → Bool} (s : S)
    → Implements lock (exclusive type) view
    → view s ≡ false
    → all_true (test_return_value lock type false s) ≡ true
unfolding test_return_value my_test_return_value_func type_code
exclusive-test_return_value {lock = lock} {type = type} {view = view} s i free =
    ap all_true (test_return_value-view i type false s)
    ∙ ap (λ held. all_true (test_return_value (exclusive type) type false held)) free
    ∙ ground arith

-- `TestReturnValue` succeeds for every recursive lock that can be taken twice at least and starts
-- free.
pub reentrant-test_return_value :
    {S : Type 0} {lock : ILock S} {limit : ℕ} {view : S → Option (ℕ × ℕ)} (s : S)
    → Implements lock (reentrant limit) view
    → view s ≡ none
    → 1 < limit
    → all_true (test_return_value lock recursive true s) ≡ true
unfolding test_return_value my_test_return_value_func type_code
reentrant-test_return_value {lock = lock} {limit = limit} {view = view} s i free twice =
    ap all_true (test_return_value-view i recursive true s)
    ∙ ap (λ o. all_true (test_return_value (reentrant limit) recursive true o)) free
    ∙ ground (arith, twice)
