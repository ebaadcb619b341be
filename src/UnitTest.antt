-- ===== src/UnitTest.antt =====
-- test/unittest.h and test/unittest.cpp: test cases and their counters, the checks, the registration
-- of cases and the single-threaded runner.
pub mod Checks
pub mod Texts
pub mod Registration
pub mod Runner
pub mod Parallel
pub mod RunTest
pub mod FailMem
mod Tests
use prot.Prelude.{
  ℕ, ◌+◌, Bool, true, false, not, ◌&&◌, ◌||◌, if◌then◌else◌, ltb, ◌==◌, Option, none, some, List,
  [], ◌∷◌, ◌++◌,
}
use prot.Prelude.Int.{ℤ, pos, ◌==ℤ◌, leb_ℤ, ltb_ℤ}

-- What a test function does with one value: the check passes or fails, as a plain check (T_…) or as
-- an assertion (A_…).
pub record Step : Type 0 where
  pub asserted : Bool
  pub passed : Bool

-- `PTU_TEST_CASE`: the counters, the bits BREAK, FAILURE and IGNORE of `TestResult`, and what the
-- test function does. (Nothing reads IGNORE before the test function returns, so a case has it here
-- from the start if the function calls `T_IGNORE`.)
pub record Case : Type 0 where
  pub steps : List Step
  pub succeed : ℕ
  pub failure : ℕ
  pub total : ℕ
  pub is_break : Bool
  pub is_failure : Bool
  pub is_ignore : Bool

-- The tests behind the names: TestEqual, TestNoteq, TestGreat, TestLesst, TestGrtEq, TestLesEq,
-- TestTrue and TestFalse, at integers.
pub data Check : Type 0 where
  equal noteq great lesst grt_eq les_eq : (expval actval : ℤ) → Check
  is_true is_false : (expval : ℤ) → Check

unfoldable pub holds : Check → Bool
holds (equal x y) = x ==ℤ y
holds (noteq x y) = not (x ==ℤ y)
holds (great x y) = ltb_ℤ y x
holds (lesst x y) = ltb_ℤ x y
holds (grt_eq x y) = leb_ℤ y x
holds (les_eq x y) = leb_ℤ x y
holds (is_true x) = not (x ==ℤ pos 0)
holds (is_false x) = x ==ℤ pos 0

-- The body that all the checks share: count, do no more after a break, and count the result. (The
-- counters are `int`, and a test has fewer than 2 ^ 31 checks.)
unfoldable pub check : (r : Bool) → Case → Bool × Case
check r c =
    if c.is_break
    then (true, record c { total = c.total + 1 })
    else if r
    then (true, record c { total = c.total + 1; succeed = c.succeed + 1 })
    else (false, record c { total = c.total + 1; failure = c.failure + 1 })

-- A step: an assertion that fails sets the break.
unfoldable pub step : Step → Case → Case
unfolding check
step s c =
    let (r, c') = check s.passed c in
    if s.asserted && not r then record c' { is_break = true } else c'

-- A test function runs to its end: a failed assertion does not leave it.
unfoldable pub run_steps : List Step → Case → Case
run_steps [] c = c
run_steps (s ∷ ss) c = run_steps ss (step s c)

-- What follows the test function of a case in `SingleThreadTest`.
unfoldable pub judge : Case → Case
judge c = if not c.is_ignore && ltb 0 c.failure then record c { is_failure = true } else c

-- One case of `SingleThreadTest`.
unfoldable pub run_case : Case → Case
unfolding judge
run_case c = judge (run_steps c.steps c)

abbrev pub count_failed : Case → ℕ → ℕ
count_failed c n = if c.is_failure then n + 1 else n

-- The loop of `SingleThreadTest`: the cases as it leaves them, and the count of failed ones. It
-- stops at a case with a break once a case has failed.
unfoldable pub single_thread_test : List Case → (failed : ℕ) → List Case × ℕ
single_thread_test [] n = ([], n)
single_thread_test (c ∷ cs) n =
    let c' = run_case c in
    let n' = count_failed c' n in
    let (cs', m) = single_thread_test cs n' in
    if c'.is_break && not (n' == 0) then (c' ∷ cs, n') else (c' ∷ cs', m)

-- A call of `AddTestCase`: the bits of its flags, and the names, which stand for the function too.
pub record Entry : Type 0 where
  pub module_name : List ℕ
  pub test_name : List ℕ
  pub me_only : Bool
  pub is_init : Bool
  pub is_done : Bool

-- The registered cases (`_tr_`), `_tr_.TestCount`, `_nc_`, the two other lists and the static flag.
pub record Registry : Type 0 where
  pub cases : List Entry
  pub test_count : ℕ
  pub nc : ℕ
  pub inits : List Entry
  pub dones : List Entry
  pub me_only_enabled : Bool

module _ (strcmp_eq : List ℕ → List ℕ → Bool) where
  -- The search of the list of init or done cases, and the new one at its end.
  unfoldable pub append_new : Entry → List Entry → List Entry
  append_new e [] = e ∷ []
  append_new e (x ∷ xs) =
      if strcmp_eq x.module_name e.module_name && strcmp_eq x.test_name e.test_name
      then x ∷ xs
      else x ∷ append_new e xs

  -- The cases registered before the first TESTMEONLY are dropped.
  unfoldable pub enable : Entry → Registry → Registry
  enable e g =
      if not g.me_only_enabled && e.me_only
      then record g { cases = []; nc = 0; me_only_enabled = true }
      else g

  unfoldable pub append_case : Entry → Registry → Registry
  append_case e g = record g {
    cases = g.cases ++ e ∷ [];
    test_count = g.test_count + 1;
    nc = g.nc + 1;
  }

  -- `UnitTest::AddTestCase`
  unfoldable pub add_test_case : Entry → Registry → Registry
  unfolding append_new enable append_case
  add_test_case e g =
      if e.is_init || e.is_done
      then (if e.is_init
          then record g { inits = append_new e g.inits }
          else record g { dones = append_new e g.dones })
      else if g.me_only_enabled && not e.me_only
      then g
      else append_case e (enable e g)

  unfoldable pub add_all : List Entry → Registry → Registry
  add_all [] g = g
  add_all (e ∷ es) g = add_all es (add_test_case e g)
