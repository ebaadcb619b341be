-- ===== src/UnitTest/Runner.antt =====
-- `SingleThreadTest` (test/unittest.cpp).
use prot.Prelude.{
  ℕ, ◌+◌, ◌≡◌, refl, true, false, not, ◌&&◌, ◌==◌, List, [], ◌∷◌, map, Bool-cases, inl, inr, ap,
  sym, subst, ◌≤◌, ◌∙◌, arith,
}
use prot.UnitTest.{Case, run_case, count_failed, single_thread_test}

abbrev pub marked : List Case → ℕ
marked [] = 0
marked (c ∷ cs) = count_failed c (marked cs)

test_stop :
    (c : Case) (cs : List Case) (n : ℕ)
    → ((run_case c).is_break && not (count_failed (run_case c) n == 0)) ≡ true
    → single_thread_test (c ∷ cs) n ≡ (run_case c ∷ cs, count_failed (run_case c) n)
unfolding single_thread_test
test_stop c cs n h = rw h

test_on :
    (c : Case) (cs : List Case) (n : ℕ)
    → ((run_case c).is_break && not (count_failed (run_case c) n == 0)) ≡ false
    → single_thread_test (c ∷ cs) n ≡ (
        let (cs', m) = single_thread_test cs (count_failed (run_case c) n) in (run_case c ∷ cs', m))
unfolding single_thread_test
test_on c cs n h = rw h

marked-tail : (c : Case) (cs : List Case) → marked (c ∷ cs) ≡ 0 → marked cs ≡ 0
marked-tail c cs h = ground arith

-- The count that `SingleThreadTest` returns, the exit code of the tests up to its sign, is the
-- number of cases marked as failed when it ends, if no case was marked before.
pub marked-single_thread_test :
    (cs : List Case) (n : ℕ)
    → marked cs ≡ 0
    → (single_thread_test cs n).1 ≡ n + marked (single_thread_test cs n).0
unfolding single_thread_test
marked-single_thread_test [] n h = ground arith
marked-single_thread_test (c ∷ cs) n h =
    let t = marked-tail c cs h in
    let ih = marked-single_thread_test cs (count_failed (run_case c) n) t in
    elim (Bool-cases ((run_case c).is_break && not (count_failed (run_case c) n == 0))) [
      | inl b ↦ rw (test_stop c cs n b) (ground (arith, t))
      | inr b ↦ rw (test_on c cs n b) (ground (arith, ih))
    ]

le-single_thread_test : (cs : List Case) (n : ℕ) → n ≤ (single_thread_test cs n).1
unfolding single_thread_test
le-single_thread_test [] n = omega arith
le-single_thread_test (c ∷ cs) n =
    let ih = le-single_thread_test cs (count_failed (run_case c) n) in
    elim (Bool-cases ((run_case c).is_break && not (count_failed (run_case c) n == 0))) [
      | inl b ↦ rw (test_stop c cs n b) (ground arith)
      | inr b ↦ rw (test_on c cs n b) (ground (arith, ih))
    ]

-- If it returns 0, every case has been run to its end: none was left out by a break.
pub single_thread_test-eq-map :
    (cs : List Case)
    → (single_thread_test cs 0).1 ≡ 0
    → (single_thread_test cs 0).0 ≡ map run_case cs
unfolding single_thread_test
single_thread_test-eq-map [] h = refl
single_thread_test-eq-map (c ∷ cs) h =
    let n = count_failed (run_case c) 0 in
    elim (Bool-cases ((run_case c).is_break && not (n == 0))) [
      | inl b ↦ ground (arith, b, ap (λ p. p.1) (test_stop c cs 0 b))
      | inr b ↦
          let e = sym (ap (λ p. p.1) (test_on c cs 0 b)) ∙ h in
          let z : n ≡ 0 = ground (arith, e, le-single_thread_test cs n) in
          let ih =
            single_thread_test-eq-map cs (subst (λ k. (single_thread_test cs k).1 ≡ 0) z e) in
          ap (λ p. p.0) (test_on c cs 0 b)
          ∙ ap (λ k. run_case c ∷ (single_thread_test cs k).0) z
          ∙ ap (run_case c ∷◌) ih
    ]
