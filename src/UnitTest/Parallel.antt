-- ===== src/UnitTest/Parallel.antt =====
-- `PtRunTestThreadProc` and `MultiThreadTest` (test/unittest.cpp): any number of threads that take
-- cases from one list. Each step of a thread is one of its critical sections, or the test of a flag
-- between two of them.
pub mod Starting
pub mod Conservation
pub mod Agreement
pub mod Ending
use prot.Prelude.{
  ℕ, zero, suc, ◌+◌, ◌-◌, ◌≡◌, Bool, true, false, not, ◌&&◌, ◌||◌, ◌==◌, ltb, if◌then◌else◌, Option,
  none, some, List, [], ◌∷◌, ◌++◌, map,
}
use prot.UnitTest.{Case, run_case, run_steps, count_failed, single_thread_test}

-- A case with the bit STANDALONE of its `TestResult`.
pub record Job : Type 0 where
  pub of_case : Case
  pub standalone : Bool

-- Where a thread is: before it takes a case, with a case that it has taken, with a case whose function
-- has returned, or at its end.
pub data Hand : Type 0 where
  ready over : Hand
  holding judging : (job : Job) → Hand

-- `PTUMTTDATA`: `ptest_case`, `ptest_left` and `ptest_fail`, the count of failures and the flag
-- BREAKOUT; and the threads, the cases whose functions have run to the count, and those thrown away.
pub record World : Type 0 where
  pub queue : List Job
  pub left : List Job
  pub fail : List Case
  pub count : ℕ
  pub breakout : Bool
  pub hands : List Hand
  pub tested : List Job
  pub dropped : List Job

-- Whether the case goes to the list of failed ones.
unfoldable pub is_failed : Case → Bool
is_failed c = not c.is_ignore && ltb 0 c.failure

-- The second critical section of a thread, behind the test function: `c` is the case as `run_case`
-- leaves it.
unfoldable pub report : Case → World → World
unfolding is_failed
report c w = record w {
  fail = if is_failed c then c ∷ w.fail else w.fail;
  count = count_failed c w.count;
  breakout = w.breakout || (c.is_break && not (count_failed c w.count == 0));
}

-- The world with the threads' places and what else a step changes.
pub data Step (w : World) : World → Type 0 where
  take_case :
      (before after : List Hand) (job : Job) (rest : List Job)
      → w.hands ≡ before ++ (ready ∷ after)
      → w.queue ≡ job ∷ rest
      → Step w (record w { queue = rest; hands = before ++ (holding job ∷ after) })
  take_none :
      (before after : List Hand)
      → w.hands ≡ before ++ (ready ∷ after)
      → w.queue ≡ []
      → Step w (record w { hands = before ++ (over ∷ after) })
  drop_case :
      (before after : List Hand) (job : Job)
      → w.hands ≡ before ++ (holding job ∷ after)
      → w.breakout ≡ true
      → Step w (record w { hands = before ++ (over ∷ after); dropped = job ∷ w.dropped })
  put_aside :
      (before after : List Hand) (job : Job)
      → w.hands ≡ before ++ (holding job ∷ after)
      → w.breakout ≡ false
      → job.standalone ≡ true
      → Step w (record w { hands = before ++ (ready ∷ after); left = job ∷ w.left })
  run_test :
      (before after : List Hand) (job : Job)
      → w.hands ≡ before ++ (holding job ∷ after)
      → w.breakout ≡ false
      → job.standalone ≡ false
      → Step w (record w { hands = before ++ (judging job ∷ after) })
  report_test :
      (before after : List Hand) (job : Job)
      → w.hands ≡ before ++ (judging job ∷ after)
      → Step w (
          report
            (run_case job.of_case)
            record w { hands = before ++ (ready ∷ after); tested = job ∷ w.tested })

abbrev pub all_ready : (threads : ℕ) → List Hand
all_ready zero = []
all_ready (suc k) = ready ∷ all_ready k

-- From the start of the threads on.
pub data Reach (cases : List Job) (threads : ℕ) : World → Type 0 where
  start : Reach cases threads record {
    queue = cases;
    left = [];
    fail = [];
    count = 0;
    breakout = false;
    hands = all_ready threads;
    tested = [];
    dropped = [];
  }
  next : {v w : World} → Reach cases threads v → Step v w → Reach cases threads w

-- The loops of `MultiThreadTest` that put one list before another, each element in turn.
unfoldable pub put_before : {A : Type 0} → List A → List A → List A
put_before [] ys = ys
put_before (x ∷ xs) ys = put_before xs (x ∷ ys)

abbrev pub cases_of : List Job → List Case
cases_of [] = []
cases_of (j ∷ js) = j.of_case ∷ cases_of js

-- The end of `MultiThreadTest`, when all threads are over: the cases that it returns, and the count.
unfoldable pub finish : World → List Case × ℕ
unfolding put_before
finish w =
    if w.breakout
    then (put_before w.fail [], w.count)
    else let (cs, n) = single_thread_test (put_before (cases_of w.left) []) w.count in
      (put_before w.fail cs, n)

-- The loop that starts the threads: `starts i` is whether the i-th `Run` succeeds. The result is how
-- many have been started, and how often the code then waits for the semaphore.
unfoldable pub start_threads :
    (fuel : ℕ) → (starts : ℕ → Bool) → (i ncore_lines started : ℕ) → Option (ℕ × ℕ)
start_threads zero starts i n s = if ltb i n then none else some (s, n)
start_threads (suc fuel) starts i n s =
    let rest =
      start_threads fuel starts (i + 1) (if starts i then n else n - 1)
        (if starts i then s + 1 else s) in
    if ltb i n then rest else some (s, n)
