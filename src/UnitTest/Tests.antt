-- ===== src/UnitTest/Tests.antt =====
-- Tests of the unit test framework, and its theorems at concrete inputs.
use prot.Prelude.{
  weigh, ℕ, ◌≡◌, ◌<◌, refl, Bool, true, false, not, ◌&&◌, List, [], ◌∷◌, map, ◌==◌, ◌+◌, Option,
  none, some, ◌/◌, ◌%◌, ltb, if◌then◌else◌, length, replicate, take, arith,
}
use prot.Prelude.Int.{pos, ◌+ℤ◌}
use prot.UnitTest.{
  Case, Entry, step, run_steps, run_case, single_thread_test, add_test_case, add_all,
}
use prot.UnitTest.Registration.{empty}
use prot.UnitTest.Parallel.{
  Job, ready, over, World, report, take_case, take_none, put_aside, run_test, report_test, Reach,
  start, next, cases_of, finish, start_threads,
}
use prot.UnitTest.RunTest.{is_single, by_many, run_test_result}
use prot.UnitTest.RunTest.Summary.{numbers, line_number, run_test_result_lem}
use prot.UnitTest.FailMem.{Formats, writes, short_line, print_failmem}
use prot.UnitTest.FailMem.Bounds.{Prints, print_failmem_lem}
use prot.Base.Allocate.{Block, write}
use prot.UnitTest.Parallel.Starting.{fewer_than_waited}
use prot.UnitTest.Parallel.Conservation.{everywhere, fails, no_case_lost}
use prot.UnitTest.Parallel.Agreement.{same_count}

abbrev failing : Case
failing = record {
  steps =
      record { asserted = false; passed = true }
      ∷ record { asserted = true; passed = false }
      ∷ record { asserted = false; passed = true }
      ∷ [];
  succeed = 0;
  failure = 0;
  total = 0;
  is_break = false;
  is_failure = false;
  is_ignore = false;
}

abbrev good : Case
good = record failing { steps = record { asserted = true; passed = true } ∷ [] }

-- The break stops the runner, so the second case is not run.
stopped : (single_thread_test (failing ∷ good ∷ []) 0).0 ≡ run_case failing ∷ good ∷ []
unfolding single_thread_test run_case run_steps step
stopped = refl

passed_all : (single_thread_test (good ∷ good ∷ []) 0).1 ≡ 0
unfolding single_thread_test run_case run_steps step
passed_all = refl

abbrev first_entry : Entry
first_entry = record {
  module_name = [];
  test_name = 1 ∷ [];
  me_only = false;
  is_init = false;
  is_done = false;
}

abbrev only_entry : Entry
only_entry = record first_entry { test_name = 2 ∷ []; me_only = true }

abbrev names_eq : List ℕ → List ℕ → Bool
names_eq [] [] = true
names_eq [] (_ ∷ _) = false
names_eq (_ ∷ _) [] = false
names_eq (a ∷ xs) (b ∷ ys) = a == b && names_eq xs ys

abbrev calls : List Entry
calls = first_entry ∷ only_entry ∷ first_entry ∷ []

-- `_tr_.TestCount` still counts the case that TESTMEONLY has dropped.
stale_count : (add_all names_eq calls empty).test_count ≡ 2
unfolding add_all add_test_case
stale_count = refl

-- A case that fails without a break, and a good one that no other may run beside.
abbrev wrong : Case
wrong = record failing { steps = record { asserted = false; passed = false } ∷ [] }

abbrev jobs : List Job
jobs =
    record { of_case = wrong; standalone = false }
    ∷ record { of_case = good; standalone = true }
    ∷ []

abbrev Reached : World → Type 0
Reached w = Reach jobs 2 w

-- One of two threads has taken a case, and then each of them.
abbrev one_taken : (w : World) × Reached w
one_taken = (_, next start (take_case [] (ready ∷ []) _ _ refl refl))

abbrev both_taken : (w : World) × Reached w
both_taken = (_, next one_taken.1 (take_case (_ ∷ []) [] _ _ refl refl))

-- The one has run its case, the other has put its own aside.
abbrev both_done : (w : World) × Reached w
unfolding run_case run_steps step
both_done = (
  _,
  next
      (next (next both_taken.1 (put_aside (_ ∷ []) [] _ refl refl refl))
        (run_test [] (ready ∷ []) _ refl refl refl))
      (report_test [] (ready ∷ []) _ refl),
)

abbrev all_over : (w : World) × Reached w
unfolding report both_done
all_over = (
  _,
  next (next both_done.1 (take_none [] (ready ∷ []) refl refl))
      (take_none (over ∷ []) [] refl refl),
)

no_case_lost_example : everywhere fails both_taken.0 ≡ weigh fails jobs
no_case_lost_example = no_case_lost fails both_taken.1

same_count_example : (finish all_over.0).1 ≡ (single_thread_test (cases_of jobs) 0).1
unfolding all_over run_case run_steps step
same_count_example = same_count all_over.1 refl refl

fewer_than_waited_example :
    (r : ℕ × ℕ) × (start_threads 4 (λ i. not (i == 0)) 0 4 0 ≡ some r) × (r.0 < r.1)
fewer_than_waited_example = fewer_than_waited (λ i. not (i == 0)) 4 (omega arith) refl

run_test_result_lem_example :
    (map line_number (run_test_result (finish all_over.0)).0 ≡ numbers 1 (finish all_over.0).1)
    × ((run_test_result (finish all_over.0)).1 +ℤ pos (finish all_over.0).1 ≡ pos 0)
unfolding all_over is_single
run_test_result_lem_example =
    run_test_result_lem {single_thread = false} {nc = 2} {jobs = jobs} refl
      (by_many 1 refl all_over.1 refl)

abbrev digit : ℕ → ℕ
digit n = if ltb n 10 then 48 + n else 55 + n

abbrev hex : Formats
hex = record {
  hex_byte = λ v. digit (v / 16) ∷ digit (v % 16) ∷ [];
  hex_offset = λ n.
      digit (n / 268435456 % 16)
      ∷ digit (n / 16777216 % 16)
      ∷ digit (n / 1048576 % 16)
      ∷ digit (n / 65536 % 16)
      ∷ digit (n / 4096 % 16)
      ∷ digit (n / 256 % 16)
      ∷ digit (n / 16 % 16)
      ∷ digit (n % 16)
      ∷ [];
}

hex-Prints : Prints hex
hex-Prints = record { two = λ v h. refl; eight = λ n h. refl }

abbrev first_bytes : Option (List Block) → Option (List ℕ)
first_bytes (some (b ∷ bs)) = some (take 9 b)
first_bytes _ = none

-- Three bytes are shown as `41 42 43` and the zero byte.
three_bytes :
    first_bytes (print_failmem hex [] (65 ∷ 66 ∷ 67 ∷ []) (replicate 80 0))
    ≡ some (52 ∷ 49 ∷ 32 ∷ 52 ∷ 50 ∷ 32 ∷ 52 ∷ 51 ∷ 0 ∷ [])
unfolding print_failmem writes short_line write
three_bytes = refl

abbrev memory : List ℕ
memory = replicate 35 65

abbrev buffer : Block
buffer = replicate 80 0

print_failmem_lem_example :
    (ls : List Block) × (print_failmem hex (120 ∷ []) memory buffer ≡ some ls)
    × (length ls ≡ (if ltb (length memory) 16 then 1 else 1 + (length memory + 15) / 16))
print_failmem_lem_example =
    print_failmem_lem hex hex-Prints (120 ∷ []) memory buffer refl (omega arith)
