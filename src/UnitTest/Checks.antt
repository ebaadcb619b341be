-- ===== src/UnitTest/Checks.antt =====
-- The counters of a test case (test/unittest.h, the Test… functions and the A_… macros).
use prot.Prelude.{
  ℕ, ◌+◌, ◌≡◌, ◌↔◌, Bool, true, false, not, ◌&&◌, ◌||◌, if◌then◌else◌, List, [], ◌∷◌, length,
  Bool-cases, inl, inr, ap, ◌∙◌, arith,
}
use prot.Prelude.Int.{ℤ}
use prot.UnitTest.{Step, Case, equal, noteq, great, lesst, grt_eq, les_eq, holds, step, run_steps}

-- A failed assertion.
abbrev pub breaks : Step → Bool
breaks s = s.asserted && not s.passed

-- The steps up to the first failed assertion, that one included.
abbrev pub active : List Step → List Step
active [] = []
active (s ∷ ss) = s ∷ (if breaks s then [] else active ss)

abbrev pub passes : List Step → ℕ
passes [] = 0
passes (s ∷ ss) = (if s.passed then 1 else 0) + passes ss

abbrev pub fails : List Step → ℕ
fails [] = 0
fails (s ∷ ss) = (if s.passed then 0 else 1) + fails ss

abbrev pub any_break : List Step → Bool
any_break [] = false
any_break (s ∷ ss) = breaks s || any_break ss

step-broken :
    (s : Step) (c : Case) → c.is_break ≡ true → step s c ≡ record c { total = c.total + 1 }
unfolding step
step-broken s c h = ground arith

run_steps-broken :
    (ss : List Step) (c : Case)
    → c.is_break ≡ true
    → run_steps ss c ≡ record c { total = c.total + length ss }
unfolding run_steps
run_steps-broken [] c h = ground arith
run_steps-broken (s ∷ ss) c h =
    ground (arith, step-broken s c h, run_steps-broken ss (record c { total = c.total + 1 }) h)

step-active :
    (s : Step) (c : Case)
    → c.is_break ≡ false
    → step s c ≡ record c {
      total = c.total + 1;
      succeed = c.succeed + (if s.passed then 1 else 0);
      failure = c.failure + (if s.passed then 0 else 1);
      is_break = breaks s;
    }
unfolding step
step-active s c h = ground arith

-- A test function that begins with no break: every check is counted in the total, the checks up to
-- the first failed assertion are counted as succeeded or failed, the later ones as neither, and the
-- break is set exactly if an assertion failed. Nothing else of the case changes.
pub run_steps_lem :
    (ss : List Step) (c : Case)
    → c.is_break ≡ false
    → run_steps ss c ≡ record c {
      total = c.total + length ss;
      succeed = c.succeed + passes (active ss);
      failure = c.failure + fails (active ss);
      is_break = any_break ss;
    }
unfolding run_steps
run_steps_lem [] c h = ground arith
run_steps_lem (s ∷ ss) c h = elim (Bool-cases (breaks s)) [
  | inl b ↦ ground (
    arith,
    b,
    step-active s c h,
    run_steps-broken ss (step s c) (ap (λ d. d.is_break) (step-active s c h) ∙ b),
  )
  | inr b ↦ ground (
    arith,
    b,
    step-active s c h,
    run_steps_lem ss (step s c) (ap (λ d. d.is_break) (step-active s c h) ∙ b),
  )
]

-- The six comparisons are those of the integers: each is the negation of its opposite.
pub holds_opposite :
    (x y : ℤ)
    → (holds (noteq x y) ≡ not (holds (equal x y)))
      × (holds (les_eq x y) ≡ not (holds (great x y)))
      × (holds (grt_eq x y) ≡ not (holds (lesst x y)))
      × ((holds (equal x y) ≡ true) ↔ (x ≡ y))
unfolding holds
holds_opposite x y =
    (ground arith, ground arith, ground arith, (λ e. ground arith, λ e. ground arith))
