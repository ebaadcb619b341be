-- ===== src/UnitTest/Parallel/Conservation.antt =====
-- The cases on their way through the threads of `MultiThreadTest`.
use prot.Prelude.{
  weigh, moved, ℕ, zero, suc, ◌+◌, ◌≤◌, ◌≡◌, ◌⊎◌, inl, inr, true, false, if◌then◌else◌, List, [],
  refl, ◌∙◌, ap, arith,
}
use prot.UnitTest.{run_case, count_failed}
use prot.UnitTest.Parallel.{
  Job, Hand, ready, over, holding, judging, World, report, Step, take_case, take_none, drop_case,
  put_aside, run_test, report_test, all_ready, Reach, start, next,
}

abbrev pub at_hand : (Job → ℕ) → Hand → ℕ
at_hand f ready = 0
at_hand f over = 0
at_hand f (holding j) = f j
at_hand f (judging j) = f j

-- The cases with the threads, and everywhere.
abbrev pub everywhere : (Job → ℕ) → World → ℕ
everywhere f w =
    weigh f w.queue
    + weigh f w.left
    + weigh (at_hand f) w.hands
    + weigh f w.tested
    + weigh f w.dropped

-- Whether the test of a case counts as a failure, and whether it breaks.
abbrev pub fails : Job → ℕ
fails j = count_failed (run_case j.of_case) 0

abbrev pub breaks : Job → ℕ
breaks j = if (run_case j.of_case).is_break then 1 else 0

abbrev pub is_over : Hand → ℕ
is_over over = 1
is_over _ = 0

everywhere-Step : {w v : World} (f : Job → ℕ) → Step w v → everywhere f v ≡ everywhere f w
unfolding report
everywhere-Step {w = w} f (take_case b a j rest e q) =
    omega (arith, moved (at_hand f) b a ready (holding j) e, ap (weigh f) q)
everywhere-Step f (take_none b a e q) = omega (arith, moved (at_hand f) b a ready over e)
everywhere-Step f (drop_case b a j e t) = omega (arith, moved (at_hand f) b a (holding j) over e)
everywhere-Step f (put_aside b a j e t s) = omega (arith, moved (at_hand f) b a (holding j) ready e)
everywhere-Step f (run_test b a j e t s) =
    omega (arith, moved (at_hand f) b a (holding j) (judging j) e)
everywhere-Step f (report_test b a j e) = omega (arith, moved (at_hand f) b a (judging j) ready e)

all_ready-empty : (f : Job → ℕ) (k : ℕ) → weigh (at_hand f) (all_ready k) ≡ 0
all_ready-empty f zero = refl
all_ready-empty f (suc k) = ground (arith, all_ready-empty f k)

-- However the threads take turns, no case is lost and none is taken twice: each sum over the cases is
-- that over the list still to do, the standalone cases put aside, the cases with the threads, the
-- tested ones and the ones dropped after a break.
pub no_case_lost :
    {cases : List Job} {k : ℕ} {w : World} (f : Job → ℕ)
    → Reach cases k w
    → everywhere f w ≡ weigh f cases
no_case_lost {k = k} f start = omega (arith, all_ready-empty f k)
no_case_lost f (next r s) = everywhere-Step f s ∙ no_case_lost f r

-- What holds of the count and the flag, and between a thread's end and the list.
pub record Sound (k : ℕ) (w : World) : Type 0 where
  pub counted : w.count ≡ weigh fails w.tested
  pub broken : w.breakout ≡ true → 1 ≤ weigh breaks w.tested
  pub unbroken : w.breakout ≡ false → w.dropped ≡ []
  pub ended : 1 ≤ weigh is_over w.hands → (w.queue ≡ []) ⊎ (w.breakout ≡ true)
  pub crew : weigh (λ h. 1) w.hands ≡ k

Sound-Step : {k : ℕ} {w v : World} → Step w v → Sound k w → Sound k v
unfolding report
Sound-Step (take_case b a j rest e q) g = record {
  counted = g.counted;
  broken = g.broken;
  unbroken = g.unbroken;
  ended = λ o. elim (g.ended (omega (arith, o, moved is_over b a ready (holding j) e))) [
    | inl none_left ↦ ground (arith, none_left, q)
    | inr stop ↦ inr stop
  ];
  crew = omega (arith, moved (λ h. 1) b a ready (holding j) e, g.crew);
}
Sound-Step (take_none b a e q) g = record {
  counted = g.counted;
  broken = g.broken;
  unbroken = g.unbroken;
  ended = λ t. inl q;
  crew = omega (arith, moved (λ h. 1) b a ready over e, g.crew);
}
Sound-Step (drop_case b a j e t) g = record {
  counted = g.counted;
  broken = g.broken;
  unbroken = ground (arith, t);
  ended = λ o. inr t;
  crew = omega (arith, moved (λ h. 1) b a (holding j) over e, g.crew);
}
Sound-Step (put_aside b a j e t s) g = record {
  counted = g.counted;
  broken = g.broken;
  unbroken = g.unbroken;
  ended = λ o. g.ended (omega (arith, moved is_over b a (holding j) ready e));
  crew = omega (arith, moved (λ h. 1) b a (holding j) ready e, g.crew);
}
Sound-Step (run_test b a j e t s) g = record {
  counted = g.counted;
  broken = g.broken;
  unbroken = g.unbroken;
  ended = λ o. g.ended (omega (arith, moved is_over b a (holding j) (judging j) e));
  crew = omega (arith, moved (λ h. 1) b a (holding j) (judging j) e, g.crew);
}
Sound-Step (report_test b a j e) g = record {
  counted = ground (arith, g.counted);
  broken = λ t. ground (arith, t, g.broken);
  unbroken = λ t. ground (arith, t, g.unbroken);
  ended = λ o. elim (g.ended (omega (arith, o, moved is_over b a (judging j) ready e))) [
    | inl none_left ↦ inl none_left
    | inr stop ↦ inr (ground (arith, stop))
  ];
  crew = omega (arith, moved (λ h. 1) b a (judging j) ready e, g.crew);
}

all_ready-crew : (k : ℕ) → weigh (λ h. 1) (all_ready k) ≡ k
all_ready-crew zero = refl
all_ready-crew (suc k) = ground (arith, all_ready-crew k)

all_ready-going : (k : ℕ) → weigh is_over (all_ready k) ≡ 0
all_ready-going zero = refl
all_ready-going (suc k) = ground (arith, all_ready-going k)

pub Reach-Sound_cases : {cases : List Job} {k : ℕ} {w : World} → Reach cases k w → Sound k w
Reach-Sound_cases {k = k} start = record {
  counted = refl;
  broken = ground arith;
  unbroken = λ t. refl;
  ended = λ o. absurd (omega (arith, o, all_ready-going k));
  crew = all_ready-crew k;
}
Reach-Sound_cases (next r s) = Sound-Step s (Reach-Sound_cases r)
