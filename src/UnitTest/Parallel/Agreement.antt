-- ===== src/UnitTest/Parallel/Agreement.antt =====
-- `MultiThreadTest` against `SingleThreadTest`.
use prot.Prelude.{
  weigh, ℕ, suc, ◌+◌, ◌≤◌, ◌≡◌, inl, inr, false, if◌then◌else◌, Bool-cases, List, [], ◌∷◌, refl,
  ◌∙◌, ap, sym, arith,
}
use prot.UnitTest.{Case, run_case, count_failed, single_thread_test}
use prot.UnitTest.Parallel.{
  Job, Hand, ready, over, holding, judging, World, Reach, put_before, cases_of, finish,
}
use prot.UnitTest.Parallel.Conservation.{
  at_hand, fails, breaks, is_over, no_case_lost, Reach-Sound_cases,
}

-- `fails` and `breaks` of a case without its bit STANDALONE.
abbrev fails_alone : Case → ℕ
fails_alone c = count_failed (run_case c) 0

abbrev breaks_alone : Case → ℕ
breaks_alone c = if (run_case c).is_break then 1 else 0

weigh-cases_of :
    (f : Case → ℕ) (js : List Job) → weigh f (cases_of js) ≡ weigh (λ j. f j.of_case) js
weigh-cases_of f [] = refl
weigh-cases_of f (j ∷ js) = ap (f j.of_case +◌) (weigh-cases_of f js)

weigh-put_before :
    (f : Case → ℕ) (xs ys : List Case) → weigh f (put_before xs ys) ≡ weigh f xs + weigh f ys
unfolding put_before
weigh-put_before f [] ys = omega arith
weigh-put_before f (x ∷ xs) ys = omega (arith, weigh-put_before f xs (x ∷ ys))

count-single_thread_test :
    (cs : List Case) (n : ℕ)
    → weigh breaks_alone cs ≡ 0
    → (single_thread_test cs n).1 ≡ n + weigh fails_alone cs
unfolding single_thread_test
count-single_thread_test [] n h = omega arith
count-single_thread_test (c ∷ cs) n h =
    let go : (run_case c).is_break ≡ false = ground (arith, h) in
    let rest = count-single_thread_test cs (count_failed (run_case c) n) (omega (arith, h)) in
    ground (arith, go, rest)

over_le : (hands : List Hand) → weigh is_over hands ≤ weigh (λ h. 1) hands
over_le [] = omega arith
over_le (h ∷ hs) = ground (arith, over_le hs)

all_over-empty :
    (f : Job → ℕ) (hands : List Hand)
    → weigh is_over hands ≡ weigh (λ h. 1) hands
    → weigh (at_hand f) hands ≡ 0
all_over-empty f [] e = refl
all_over-empty f (over ∷ hs) e = omega (arith, all_over-empty f hs (omega (arith, e)))
all_over-empty f (ready ∷ hs) e = absurd (omega (arith, e, over_le hs))
all_over-empty f (holding j ∷ hs) e = absurd (omega (arith, e, over_le hs))
all_over-empty f (judging j ∷ hs) e = absurd (omega (arith, e, over_le hs))

module _ {cases : List Job} {k : ℕ} {w : World} (r : Reach cases (suc k) w)
    (ended : weigh is_over w.hands ≡ suc k) (on : weigh breaks cases ≡ 0) where
  not_broken : w.breakout ≡ false
  not_broken = elim (Bool-cases w.breakout) [
    | inl stop ↦
        absurd (omega (arith, (Reach-Sound_cases r).broken stop, no_case_lost breaks r, on))
    | inr go ↦ go
  ]

  all_tested : weigh fails w.left + weigh fails w.tested ≡ weigh fails cases
  all_tested =
      let s = Reach-Sound_cases r in
      let no_hand = all_over-empty fails w.hands (ended ∙ sym s.crew) in
      elim (s.ended (omega (arith, ended))) [
        | inl empty ↦ omega (
          arith,
          no_case_lost fails r,
          no_hand,
          ap (weigh fails) empty,
          ap (weigh fails) (s.unbroken not_broken),
        )
        | inr stop ↦ ground (arith, stop, not_broken)
      ]

  left_on : weigh breaks_alone (put_before (cases_of w.left) []) ≡ 0
  left_on = omega (
    arith,
    weigh-put_before breaks_alone (cases_of w.left) [],
    weigh-cases_of breaks_alone w.left,
    no_case_lost breaks r,
    on,
  )

  count-finish : (finish w).1 ≡ weigh fails cases
  unfolding finish
  count-finish =
      let left = put_before (cases_of w.left) [] in
      rw not_broken (
        omega (
          arith,
          count-single_thread_test left w.count left_on,
          weigh-put_before fails_alone (cases_of w.left) [],
          weigh-cases_of fails_alone w.left,
          (Reach-Sound_cases r).counted,
          all_tested,
        ))

  -- When all of at least one thread have ended and the test of no case breaks, `MultiThreadTest` counts
  -- the same failures as `SingleThreadTest`, however the threads took turns.
  pub same_count : (finish w).1 ≡ (single_thread_test (cases_of cases) 0).1
  same_count = omega (
    arith,
    count-finish,
    count-single_thread_test (cases_of cases) 0 (weigh-cases_of breaks_alone cases ∙ on),
    weigh-cases_of fails_alone cases,
  )
