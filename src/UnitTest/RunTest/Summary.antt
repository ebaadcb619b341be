-- ===== src/UnitTest/RunTest/Summary.antt =====
-- The summary of `RunTest` and its result, for both runners.
use prot.Prelude.{
  weigh, weigh-++, ℕ, zero, suc, ◌+◌, ◌≤◌, ◌≡◌, inl, inr, Bool, false, ◌==◌, Bool-cases, List, [],
  ◌∷◌, ◌++◌, map, refl, ◌∙◌, ap, sym, arith,
}
use prot.Prelude.Int.{pos, sub_ℕ, ◌+ℤ◌}
use prot.UnitTest.{
  Case, run_case, run_steps, judge, Step, step, check, count_failed, single_thread_test,
}
use prot.UnitTest.Runner.{marked, marked-single_thread_test}
use prot.UnitTest.Parallel.{
  Job, Hand, judging, World, is_failed, report, take_case, take_none, drop_case, put_aside,
  run_test, report_test, Reach, start, next, put_before, cases_of, finish,
}
use prot.UnitTest.Parallel.Conservation.{at_hand, no_case_lost}
use prot.UnitTest.RunTest.{Ran, by_one, by_many, failed_list, run_test_result}

-- The marks that cases have before they are tested.
abbrev pub mark : Job → ℕ
mark j = count_failed j.of_case 0

marked-cases_of : (js : List Job) → marked (cases_of js) ≡ weigh mark js
marked-cases_of [] = refl
marked-cases_of (j ∷ js) = ground (arith, marked-cases_of js)

marked-put_before : (xs ys : List Case) → marked (put_before xs ys) ≡ marked xs + marked ys
unfolding put_before
marked-put_before [] ys = omega arith
marked-put_before (x ∷ xs) ys = ground (arith, marked-put_before xs (x ∷ ys))

step-is_failure : (s : Step) (c : Case) → (step s c).is_failure ≡ c.is_failure
unfolding step check
step-is_failure s c = ground arith

-- The test of a case does not mark it.
run_steps-is_failure : (ss : List Step) (c : Case) → (run_steps ss c).is_failure ≡ c.is_failure
unfolding run_steps
run_steps-is_failure [] c = refl
run_steps-is_failure (s ∷ ss) c = run_steps-is_failure ss (step s c) ∙ step-is_failure s c

judge-is_failure : (c : Case) → c.is_failure ≡ false → (judge c).is_failure ≡ is_failed (judge c)
unfolding judge is_failed
judge-is_failure c h = ground (arith, h)

run_case-is_failure :
    (c : Case) → c.is_failure ≡ false → (run_case c).is_failure ≡ is_failed (run_case c)
unfolding run_case
run_case-is_failure c h =
    judge-is_failure (run_steps c.steps c) (run_steps-is_failure c.steps c ∙ h)

-- The case that a thread reports has no mark before its test.
reported_mark :
    {hands : List Hand} (before after : List Hand) (job : Job)
    → hands ≡ before ++ (judging job ∷ after)
    → mark job ≤ weigh (at_hand mark) hands
reported_mark before after job e =
    omega (arith, ap (weigh (at_hand mark)) e, weigh-++ (at_hand mark) before (judging job ∷ after))

-- The count is that of the marked cases among the failed ones.
count-fail :
    {cases : List Job} {k : ℕ} {w : World}
    → weigh mark cases ≡ 0
    → Reach cases k w
    → w.count ≡ marked w.fail
unfolding report
count-fail u start = refl
count-fail u (next r (take_case b a j rest e q)) = count-fail u r
count-fail u (next r (take_none b a e q)) = count-fail u r
count-fail u (next r (drop_case b a j e t)) = count-fail u r
count-fail u (next r (put_aside b a j e t s)) = count-fail u r
count-fail u (next r (run_test b a j e t s)) = count-fail u r
count-fail u (next r (report_test b a j e)) =
    let none_marked : mark j ≡ 0 = omega (arith, reported_mark b a j e, no_case_lost mark r, u) in
    let unmarked : j.of_case.is_failure ≡ false = ground (arith, none_marked) in
    ground (arith, run_case-is_failure j.of_case unmarked, count-fail u r)

-- n numbers from the i-th on.
abbrev pub numbers : (i n : ℕ) → List ℕ
numbers i zero = []
numbers i (suc n) = i ∷ numbers (i + 1) n

abbrev pub line_number : ℕ × Case → ℕ
line_number l = l.0

failed_list-numbers :
    (i : ℕ) (cs : List Case) → map line_number (failed_list i cs) ≡ numbers (i + 1) (marked cs)
unfolding failed_list
failed_list-numbers i [] = refl
failed_list-numbers i (c ∷ cs) = elim (Bool-cases c.is_failure) [
  | inl m ↦
      let one_more : suc (marked cs) ≡ marked cs + 1 = omega arith in
      rw m (ap ((i + 1) ∷◌) (failed_list-numbers (i + 1) cs) ∙ ap (numbers (i + 1)) one_more)
  | inr m ↦ rw m (failed_list-numbers i cs)
]

count-Ran :
    {single_thread : Bool} {nc : ℕ} {jobs : List Job} {r : List Case × ℕ}
    → weigh mark jobs ≡ 0
    → Ran single_thread nc jobs r
    → r.1 ≡ marked r.0
unfolding finish
count-Ran {jobs = js} u (by_one s) =
    omega (arith, marked-single_thread_test (cases_of js) 0 (marked-cases_of js ∙ u))
count-Ran {jobs = js} u (by_many {w = w} k s r e) =
    let left = put_before (cases_of w.left) [] in
    let none_marked : marked left ≡ 0 = omega (
      arith,
      marked-put_before (cases_of w.left) [],
      marked-cases_of w.left,
      no_case_lost mark r,
      u,
    ) in
    elim (Bool-cases w.breakout) [
      | inl stop ↦ rw stop (omega (arith, marked-put_before w.fail [], count-fail u r))
      | inr go ↦ rw go (
          omega (
            arith,
            marked-put_before w.fail (single_thread_test left w.count).0,
            marked-single_thread_test left w.count none_marked,
            count-fail u r,
          ))
    ]

sub-cancel : (n : ℕ) → sub_ℕ 0 n +ℤ pos n ≡ pos 0
sub-cancel n = ground arith

-- With either runner, if no case is marked as failed from the start, the summary has exactly as many lines as
-- the result says, numbered from 1 on, and the result is the negative of their number.
pub run_test_result_lem :
    {single_thread : Bool} {nc : ℕ} {jobs : List Job} {r : List Case × ℕ}
    → weigh mark jobs ≡ 0
    → Ran single_thread nc jobs r
    → (map line_number (run_test_result r).0 ≡ numbers 1 r.1)
      × ((run_test_result r).1 +ℤ pos r.1 ≡ pos 0)
unfolding run_test_result
run_test_result_lem {r = r} u t =
    let lines = failed_list-numbers 0 r.0 in
    let e = count-Ran u t in
    elim (Bool-cases (r.1 == 0)) [
      | inl none_failed ↦
          let z : 0 ≡ r.1 = ground (arith, none_failed) in
          (rw none_failed (ap (numbers 1) z), sub-cancel r.1)
      | inr some_failed ↦ (rw some_failed (lines ∙ ap (numbers 1) (sym e)), sub-cancel r.1)
    ]
