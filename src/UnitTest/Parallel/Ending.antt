-- ===== src/UnitTest/Parallel/Ending.antt =====
-- The threads of `MultiThreadTest` come to their ends.
use prot.Prelude.{
  weigh, moved, ℕ, ◌+◌, ◌<◌, ◌≡◌, ◌⊎◌, inl, inr, Bool-cases, List, [], ◌∷◌, ◌++◌, refl, ◌∙◌, ap,
  arith,
}
use prot.UnitTest.Parallel.{
  Job, Hand, ready, over, holding, judging, World, report, Step, take_case, take_none, drop_case,
  put_aside, run_test, report_test, Reach,
}
use prot.UnitTest.Parallel.Conservation.{is_over, Reach-Sound_cases}

abbrev pub work_of : Hand → ℕ
work_of ready = 1
work_of over = 0
work_of (holding j) = 3
work_of (judging j) = 2

-- The steps that are left at most.
abbrev pub work : World → ℕ
work w = weigh (λ j. 4) w.queue + weigh work_of w.hands

-- Every step of a thread uses up some of the work that is left: four for each case in the list, three
-- for one that a thread has taken, two once it has run, and one for a thread that is ready.
pub step-work : {w v : World} → Step w v → work v < work w
unfolding report
step-work (take_case b a j rest e q) =
    omega (arith, moved work_of b a ready (holding j) e, ap (weigh (λ j. 4)) q)
step-work (take_none b a e q) = omega (arith, moved work_of b a ready over e)
step-work (drop_case b a j e t) = omega (arith, moved work_of b a (holding j) over e)
step-work (put_aside b a j e t s) = omega (arith, moved work_of b a (holding j) ready e)
step-work (run_test b a j e t s) = omega (arith, moved work_of b a (holding j) (judging j) e)
step-work (report_test b a j e) = omega (arith, moved work_of b a (judging j) ready e)

-- A thread that is not at its end, between the others.
record Going (hands : List Hand) : Type 0 where
  before : List Hand
  hand : Hand
  after : List Hand
  split : hands ≡ before ++ (hand ∷ after)
  going : is_over hand ≡ 0

here : (h : Hand) (hs : List Hand) → is_over h ≡ 0 → Going (h ∷ hs)
here h hs e = record { before = []; hand = h; after = hs; split = refl; going = e }

over-or-Going : (hands : List Hand) → (weigh is_over hands ≡ weigh (λ h. 1) hands) ⊎ Going hands
over-or-Going [] = inl refl
over-or-Going (ready ∷ hs) = inr (here ready hs refl)
over-or-Going (holding j ∷ hs) = inr (here (holding j) hs refl)
over-or-Going (judging j ∷ hs) = inr (here (judging j) hs refl)
over-or-Going (over ∷ hs) = elim (over-or-Going hs) [
  | inl all ↦ inl (ap (1 +◌) all)
  | inr g ↦ inr record {
    before = over ∷ g.before;
    hand = g.hand;
    after = g.after;
    split = ap (over ∷◌) g.split;
    going = g.going;
  }
]

queue-cases : (js : List Job) → (js ≡ []) ⊎ ((j : Job) × (rest : List Job) × (js ≡ j ∷ rest))
queue-cases [] = inl refl
queue-cases (j ∷ js) = inr (j, js, refl)

step_of :
    (w : World) (before : List Hand) (h : Hand) (after : List Hand)
    → w.hands ≡ before ++ (h ∷ after)
    → is_over h ≡ 0
    → (v : World) × Step w v
step_of w b ready a e g = elim (queue-cases w.queue) [
  | inl empty ↦ (_, take_none b a e empty)
  | inr (j, rest, q) ↦ (_, take_case b a j rest e q)
]
step_of w b over a e g = absurd (omega (arith, g))
step_of w b (holding j) a e g = elim (Bool-cases w.breakout) [
  | inl stop ↦ (_, drop_case b a j e stop)
  | inr go ↦ elim (Bool-cases j.standalone) [
    | inl aside ↦ (_, put_aside b a j e go aside)
    | inr run ↦ (_, run_test b a j e go run)
  ]
]
step_of w b (judging j) a e g = (_, report_test b a j e)

-- No thread gets stuck: as long as one of them has not ended, some thread can make a step.
pub not_stuck :
    {cases : List Job} {k : ℕ} {w : World}
    → Reach cases k w
    → (weigh is_over w.hands ≡ k) ⊎ ((v : World) × Step w v)
not_stuck {w = w} r = elim (over-or-Going w.hands) [
  | inl all ↦ inl (all ∙ (Reach-Sound_cases r).crew)
  | inr g ↦ inr (step_of w g.before g.hand g.after g.split g.going)
]
