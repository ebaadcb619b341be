-- ===== src/UnitTest/RunTest.antt =====
-- `UnitTest::RunTest` (test/unittest.cpp).
pub mod Summary
use prot.Prelude.{
  weigh, ℕ, zero, suc, ◌+◌, ◌≡◌, Bool, true, false, ◌&&◌, ◌||◌, ◌==◌, ltb, if◌then◌else◌, List, [],
  ◌∷◌,
}
use prot.Prelude.Int.{ℤ, sub_ℕ}
use prot.UnitTest.{Case, single_thread_test}
use prot.UnitTest.Parallel.{Job, World, Reach, cases_of, finish}
use prot.UnitTest.Parallel.Conservation.{is_over}

-- Whether `RunTest` takes the runner with one thread: by the option `Threads`, or with fewer than two cases.
unfoldable pub is_single : (single_thread : Bool) → (nc : ℕ) → Bool
is_single s nc = s || ltb nc 2

-- What a runner may return: the list of cases and the count of failed ones. The other runner has at least one
-- thread, and returns when all have ended.
pub data Ran (single_thread : Bool) (nc : ℕ) (jobs : List Job) : List Case × ℕ → Type 0 where
  by_one :
      is_single single_thread nc ≡ true
      → Ran single_thread nc jobs (single_thread_test (cases_of jobs) 0)
  by_many :
      {w : World} (k : ℕ)
      → is_single single_thread nc ≡ false
      → Reach jobs (suc k) w
      → weigh is_over w.hands ≡ suc k
      → Ran single_thread nc jobs (finish w)

-- The loop that prints the failed cases, each with its number.
unfoldable pub failed_list : (i : ℕ) → List Case → List (ℕ × Case)
failed_list i [] = []
failed_list i (c ∷ cs) =
    let rest = failed_list (if c.is_failure then i + 1 else i) cs in
    if c.is_failure then (i + 1, c) ∷ rest else rest

-- The summary and the result of `RunTest`, from what the runner has returned.
unfoldable pub run_test_result : List Case × ℕ → List (ℕ × Case) × ℤ
unfolding failed_list
run_test_result (cs, rv) = (if rv == 0 then [] else failed_list 0 cs, sub_ℕ 0 rv)
