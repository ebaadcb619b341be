-- ===== src/Pool/Calc/Ending.antt =====
-- TestPoolParallelCalc comes to its end.
use prot.Prelude.{
  Steps, stay, onward, weigh, weigh-++, moved, find-weigh, zero-or-more, ℕ, zero, suc, ◌+◌, ◌-◌,
  ◌*◌, ◌≤◌, ◌<◌, ◌≡◌, ◌⊎◌, inl, inr, ltb, true, false, Bool-cases, List, [], ◌∷◌, ◌++◌, length,
  refl, ap, sym, subst, ◌∙◌, arith,
}
use prot.Pool.Calc.{
  Line, Place, resting, looping, adding, linking, flagging, posting, Hold, free, got, given,
  deleted, Main, waiting, took, having, World, next_piece, post_one, partial_sum, Step, wait_unit,
  pop_link, fill_in, run, wait_last, pop_last, add_up, add_result, append_link, set_idle, post_unit,
  Reach, next,
}
use prot.Pool.Calc.Tokens.{is_busy, is_ending, is_held, Below}
use prot.Pool.Calc.Placed.{Placed}
use prot.Pool.Calc.Invariant.{Counted, is_took, is_having, busy, ending, held, Reach-Sound_calc}
use prot.Pool.Calc.Result.{gotten, picked, Reach-Summed}

abbrev place_work : Place → ℕ
place_work resting = 0
place_work looping = 10
place_work (adding r) = 9
place_work linking = 8
place_work flagging = 7
place_work posting = 6

abbrev hold_work : Hold → ℕ
hold_work free = 0
hold_work got = 1
hold_work given = 12
hold_work deleted = 0

abbrev line_work : Line → ℕ
line_work l = place_work l.place + hold_work l.hold

abbrev main_work : Main → ℕ
main_work waiting = 0
main_work took = 2
main_work having = 0

-- The steps that are left at most.
abbrev pub calc_work : (sum_endp : ℕ) → World → ℕ
calc_work endp w = 12 * (endp - w.sum_pt) + 3 * w.sem + main_work w.main + weigh line_work w.lines

next_more : (step endp pt : ℕ) → 1 ≤ step → pt < endp → pt < next_piece step endp pt
unfolding next_piece
next_more step endp pt s h = ground (arith, s, h)

post_le : (n s : ℕ) → post_one n s ≤ s + 1
unfolding post_one
post_le n s = ground arith

-- Every step, a `Run` that gets no thread aside, uses up some of the work that is left: twelve for each number that is not yet given to a
-- thread, and less for what has begun. (The pieces are not empty.)
pub step-calc_work :
    {n step endp : ℕ} {w v : World}
    → 1 ≤ step
    → Step n step endp w v
    → calc_work endp v < calc_work endp w
step-calc_work i (wait_unit s m h e) = omega (arith, e, ap main_work m)
step-calc_work i (pop_link b a l rest m h e q) =
    omega (arith, ap main_work m, moved line_work b a l (record l { hold = got }) e)
step-calc_work {step = step} {endp = endp} {w = w} i (fill_in b a l m h e g) =
    let piece = next_piece step endp w.sum_pt in
    let l' = record l { hold = given; idle_now = false; num_start = w.sum_pt; num_end = piece } in
    omega (arith, ap hold_work g, moved line_work b a l l' e, next_more step endp w.sum_pt i h)
step-calc_work i (run b a l m e g r) = omega (
  arith,
  ap main_work m,
  ap hold_work g,
  ap place_work r,
  moved line_work b a l (record l { hold = free; place = looping }) e,
)
step-calc_work i (wait_last s m h k e) = omega (arith, e, ap main_work m)
step-calc_work i (pop_last b a l rest m h e q) =
    omega (
      arith,
      ap main_work m,
      moved line_work b a l (record l { hold = deleted; idle_now = false }) e,
    )
step-calc_work i (add_up b a l e k) =
    omega (
      arith,
      ap place_work k,
      moved line_work b a l (record l { place = adding (partial_sum l) }) e,
    )
step-calc_work i (add_result b a l r e k) =
    omega (arith, ap place_work k, moved line_work b a l (record l { place = linking }) e)
step-calc_work i (append_link b a l e k) =
    omega (arith, ap place_work k, moved line_work b a l (record l { place = flagging }) e)
step-calc_work i (set_idle b a l e k) = omega (
  arith,
  ap place_work k,
  moved line_work b a l (record l { place = posting; idle_now = true }) e,
)
step-calc_work {n = n} {w = w} i (post_unit b a l e k) = omega (
  arith,
  ap place_work k,
  moved line_work b a l (record l { place = resting }) e,
  post_le n w.sem,
)

split-at :
    (i : ℕ) (ls : List Line)
    → i < length ls
    → (before : List Line) × (l : Line) × (after : List Line) × (ls ≡ before ++ (l ∷ after))
      × (length before ≡ i)
split-at i [] h = absurd (omega (arith, h))
split-at zero (l ∷ ls) h = ([], l, ls, refl, refl)
split-at (suc i) (l ∷ ls) h =
    let (b, m, a, e, k) = split-at i ls (omega (arith, h)) in (l ∷ b, m, a, ap (l ∷◌) e, ap suc k)

module _ {n step endp : ℕ} {w : World} where
  -- A thread whose function has not returned can make its next step.
  thread_step :
      (before after : List Line) (l : Line) (p : Place)
      → w.lines ≡ before ++ (l ∷ after)
      → l.place ≡ p
      → 1 ≤ is_busy p + is_ending p
      → (v : World) × Step n step endp w v
  thread_step b a l resting e k h = absurd (omega (arith, h))
  thread_step b a l looping e k h = (_, add_up b a l e k)
  thread_step b a l (adding r) e k h = (_, add_result b a l r e k)
  thread_step b a l linking e k h = (_, append_link b a l e k)
  thread_step b a l flagging e k h = (_, set_idle b a l e k)
  thread_step b a l posting e k h = (_, post_unit b a l e k)

  -- The main thread fills in the data that it has, or runs its thread when it is ready.
  data_step :
      (before after : List Line) (l : Line) (p : Place) (t : Hold)
      → w.main ≡ having
      → w.lines ≡ before ++ (l ∷ after)
      → l.place ≡ p
      → l.hold ≡ t
      → 1 ≤ is_held t
      → (1 ≤ picked t → w.sum_pt < endp)
      → (v : World) × Step n step endp w v
  data_step b a l p free m e k g h o = absurd (omega (arith, h))
  data_step b a l p deleted m e k g h o = absurd (omega (arith, h))
  data_step b a l p got m e k g h o = (_, fill_in b a l m (o (omega arith)) e g)
  data_step b a l resting given m e k g h o = (_, run b a l m e g k)
  data_step b a l looping given m e k g h o = thread_step b a l looping e k (omega arith)
  data_step b a l (adding r) given m e k g h o = thread_step b a l (adding r) e k (omega arith)
  data_step b a l linking given m e k g h o = thread_step b a l linking e k (omega arith)
  data_step b a l flagging given m e k g h o = thread_step b a l flagging e k (omega arith)
  data_step b a l posting given m e k g h o = thread_step b a l posting e k (omega arith)

  -- The main thread takes the first data of the list.
  list_step :
      w.main ≡ took
      → (q : List ℕ) → w.queue ≡ q
      → 1 ≤ length q
      → Below (length w.lines) q
      → (v : World) × Step n step endp w v
  list_step m [] e h below = absurd (omega (arith, h))
  list_step m (i ∷ rest) e h (inside, below) =
      let (b, l, a, e', k) = split-at i w.lines inside in
      let first : w.queue ≡ length b ∷ rest = e ∙ ap (λ j. j ∷ rest) (sym k) in
      elim (Bool-cases (ltb w.sum_pt endp)) [
        | inl before ↦ (_, pop_link b a l rest m (ground (arith, before)) e' first)
        | inr behind ↦ (_, pop_last b a l rest m (ground (arith, behind)) e' first)
      ]

  -- A thread can make its next step if one has not returned.
  some_thread_step :
      1 ≤ weigh busy w.lines + weigh ending w.lines → (v : World) × Step n step endp w v
  some_thread_step h = elim (zero-or-more (weigh busy w.lines)) [
    | inr some_busy ↦
        let (b, l, a, e, k) = find-weigh busy w.lines some_busy in
        thread_step b a l l.place e refl (omega (arith, k))
    | inl none_busy ↦
        let (b, l, a, e, k) = find-weigh ending w.lines (omega (arith, h, none_busy)) in
        thread_step b a l l.place e refl (omega (arith, k))
  ]

  main_step :
      Placed n w.queue w.lines
      → Counted n w
      → (1 ≤ weigh gotten w.lines → w.sum_pt < endp)
      → (m : Main) → w.main ≡ m
      → (w.ended ≡ n) ⊎ ((v : World) × Step n step endp w v)
  main_step p c o waiting m = elim (zero-or-more w.sem) [
    | inr unit ↦
        let one_less : w.sem ≡ suc (w.sem - 1) = omega (arith, unit) in
        elim (Bool-cases (ltb w.sum_pt endp)) [
          | inl before ↦ inr (_, wait_unit (w.sem - 1) m (ground (arith, before)) one_less)
          | inr behind ↦ elim (Bool-cases (ltb w.ended n)) [
            | inl more ↦ inr (
              _,
              wait_last (w.sem - 1) m (ground (arith, behind)) (ground (arith, more)) one_less,
            )
            | inr all ↦
                let enough : n ≤ w.ended = ground (arith, all) in
                inl (omega (arith, enough, c.count))
          ]
        ]
    | inl no_unit ↦ elim (zero-or-more (weigh busy w.lines + weigh ending w.lines)) [
      | inr some_left ↦ inr (some_thread_step some_left)
      | inl none_left ↦ inl (
          omega
            (arith, c.count, c.units, c.with_d, no_unit, none_left, ap is_took m, ap is_having m))
    ]
  ]
  main_step p c o took m = inr (
      list_step m w.queue refl (omega (arith, c.units, ap is_took m))
        (subst (λ k. Below k w.queue) (sym p.size) p.below))
  main_step p c o having m =
      let (b, l, a, e, k) = find-weigh held w.lines (omega (arith, c.with_d, ap is_having m)) in
      inr (
        data_step b a l l.place l.hold m e refl refl k
          (λ g. o (omega (arith, g, ap (weigh gotten) e, weigh-++ gotten b (l ∷ a)))))

-- No thread gets stuck: until the second loop has ended, one of them can make a step. The main thread finds the
-- list of data not empty whenever the semaphore lets it.
pub calc_not_stuck :
    {n from step endp : ℕ} {w : World}
    → from ≤ endp
    → Reach n from step endp w
    → (w.ended ≡ n) ⊎ ((v : World) × Step n step endp w v)
calc_not_stuck {w = w} h r =
    let (p, c) = Reach-Sound_calc r in main_step p c (Reach-Summed h r).more_left w.main refl

calc_ends_with :
    {n from step endp : ℕ} (fuel : ℕ) {w : World}
    → 1 ≤ step
    → from ≤ endp
    → calc_work endp w ≤ fuel
    → Reach n from step endp w
    → (v : World) × Steps (Step n step endp) w v × (v.ended ≡ n)
calc_ends_with zero {w = w} i h k r = elim (calc_not_stuck h r) [
  | inl over ↦ (w, stay, over)
  | inr (v, s) ↦ absurd (omega (arith, k, step-calc_work i s))
]
calc_ends_with (suc fuel) {w = w} i h k r = elim (calc_not_stuck h r) [
  | inl over ↦ (w, stay, over)
  | inr (u, s) ↦
      let (v, t, over) =
        calc_ends_with fuel i h (omega (arith, k, step-calc_work i s)) (next r s) in
      (v, onward s t, over)
]

-- From every world that the test can come to while each `Run` gets its thread, there are such steps to
-- its end. (The pieces are not empty, and the range does not begin behind its end.)
pub calc_ends :
    {n from step endp : ℕ} {w : World}
    → 1 ≤ step
    → from ≤ endp
    → Reach n from step endp w
    → (v : World) × Steps (Step n step endp) w v × (v.ended ≡ n)
calc_ends {endp = endp} {w = w} i h r = calc_ends_with (calc_work endp w) i h (omega arith) r
