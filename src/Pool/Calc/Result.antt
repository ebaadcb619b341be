-- ===== src/Pool/Calc/Result.antt =====
-- What TestPoolParallelCalc adds up.
use prot.Prelude.{
  weigh, weigh-le, moved, ℕ, ◌+◌, ◌-◌, ◌%◌, ◌^◌, ◌≤◌, ◌<◌, ◌≡◌, true, false, List, [], ◌∷◌, ◌++◌,
  refl, ap, subst, arith,
}
use prot.Pool.Calc.{
  Line, Place, resting, looping, adding, linking, flagging, posting, Hold, free, got, given,
  deleted, Main, World, add_range, next_piece, partial_sum, expected_sum, prepared, Step, wait_unit,
  pop_link, fill_in, run, wait_last, pop_last, add_up, add_result, append_link, set_idle, post_unit,
  Reach, start, next,
}
use prot.Pool.Calc.Tokens.{is_busy, is_held, is_away}
use prot.Pool.Calc.Placed.{Placed, token-at, first-token}
use prot.Pool.Calc.Invariant.{Counted, is_having, busy, held, new-weigh, Reach-Sound_calc}
use prot.Pool.Calc.Sums.{sum_below, add_range_lem, expected_sum_lem}

-- Of the sum s of a piece, what is on its way to the result.
abbrev given_part : Hold → ℕ → ℕ
given_part free s = 0
given_part got s = 0
given_part given s = s
given_part deleted s = 0

abbrev place_part : Place → ℕ → ℕ
place_part resting s = 0
place_part looping s = s
place_part (adding r) s = r
place_part linking s = 0
place_part flagging s = 0
place_part posting s = 0

abbrev pend : Line → ℕ
pend l = given_part l.hold (partial_sum l) + place_part l.place (partial_sum l)

free_part : (h : Hold) (s : ℕ) → is_away h ≡ 0 → given_part h s ≡ 0
free_part h s e = ground (arith, e)

unheld_part : (h : Hold) (s : ℕ) → is_held h ≡ 0 → given_part h s ≡ 0
unheld_part h s e = ground (arith, e)

idle_part : (p : Place) (s : ℕ) → is_busy p ≡ 0 → place_part p s ≡ 0
idle_part p s e = ground (arith, e)

abbrev pub picked : Hold → ℕ
picked free = 0
picked got = 1
picked given = 0
picked deleted = 0

abbrev pub gotten : Line → ℕ
gotten l = picked l.hold

picked_le : (l : Line) → gotten l ≤ held l
picked_le l = ground arith

-- The numbers below `sum_pt` are in the result or on their way to it.
pub record Summed (from endp : ℕ) (w : World) : Type 0 where
  sum : (w.result + weigh pend w.lines + sum_below from) % 2 ^ 64 ≡ sum_below w.sum_pt % 2 ^ 64
  first : from ≤ w.sum_pt
  pub top : w.sum_pt ≤ endp
  pub last : 1 ≤ w.ended → endp ≤ w.sum_pt
  cut : w.result < 2 ^ 64
  pub more_left : 1 ≤ weigh gotten w.lines → w.sum_pt < endp

pub next_bounds :
    (step endp pt : ℕ)
    → pt ≤ endp
    → (pt ≤ next_piece step endp pt) × (next_piece step endp pt ≤ endp)
unfolding next_piece
next_bounds step endp pt h = ground (arith, h)

-- The sum of a piece.
piece-sum :
    (pt end : ℕ)
    → pt ≤ end
    → (add_range (end - pt) pt 0 + sum_below pt) % 2 ^ 64 ≡ sum_below end % 2 ^ 64
piece-sum pt end h =
    let e : pt + (end - pt) ≡ end = omega (arith, h) in
    omega (arith, add_range_lem (end - pt) pt 0, ap sum_below e)

-- The data has changed at one place, and nothing else.
pend-Summed :
    {from endp : ℕ} (w : World) (before after : List Line) (l l' : Line) (main : Main) (sem : ℕ)
    (queue : List ℕ)
    → w.lines ≡ before ++ (l ∷ after)
    → pend l' ≡ pend l
    → (1 ≤ weigh gotten (before ++ (l' ∷ after)) → w.sum_pt < endp)
    → Summed from endp w
    → Summed from endp
        (record w { main = main; sem = sem; queue = queue; lines = before ++ (l' ∷ after) })
pend-Summed w b a l l' m s q e same o c = record {
  sum = omega (arith, c.sum, moved pend b a l l' e, same);
  first = c.first;
  top = c.top;
  last = c.last;
  cut = c.cut;
  more_left = o;
}

Step-Summed :
    {n from step endp : ℕ} {w v : World}
    → Step n step endp w v
    → Placed n w.queue w.lines
    → Counted n w
    → Summed from endp w
    → Summed from endp v
unfolding partial_sum
Step-Summed (wait_unit s m h e) p d c = record {
  sum = c.sum;
  first = c.first;
  top = c.top;
  last = c.last;
  cut = c.cut;
  more_left = c.more_left;
}
Step-Summed {n = n} {w = w} (pop_link b a l rest m h e q) p d c =
    let none_at = first-token b a l rest e (subst (λ q'. Placed n q' w.lines) q p) in
    let none_given = free_part l.hold (partial_sum l) (omega (arith, none_at.1)) in
    pend-Summed w b a l (record l { hold = got }) _ _ _ e (omega (arith, none_given)) (λ o. h) c
Step-Summed {step = step} {endp = endp} {w = w} (fill_in b a l m h e g) p d c =
    let piece = next_piece step endp w.sum_pt in
    let l' = record l { hold = given; idle_now = false; num_start = w.sum_pt; num_end = piece } in
    let t = token-at b a l e p in
    let idle : is_busy l.place ≡ 0 = omega (arith, t, ap is_away g) in
    let bounds = next_bounds step endp w.sum_pt c.top in
    record {
      sum = omega (
        arith,
        c.sum,
        moved pend b a l l' e,
        ap (λ x. given_part x (partial_sum l)) g,
        idle_part l.place (partial_sum l) idle,
        idle_part l.place (partial_sum l') idle,
        piece-sum w.sum_pt piece bounds.0,
      );
      first = omega (arith, c.first, bounds.0);
      top = bounds.1;
      last = λ o. omega (arith, o, c.last o, h);
      cut = c.cut;
      more_left = λ o. absurd (
          omega (
            arith,
            o,
            d.with_d,
            ap is_having m,
            ap picked g,
            moved gotten b a l l' e,
            weigh-le gotten held picked_le w.lines,
          ));
    }
Step-Summed {w = w} (run b a l m e g r) p d c =
    let s = partial_sum l in
    pend-Summed w b a l (record l { hold = free; place = looping }) _ _ _ e
      (omega (arith, ap (λ x. given_part x s) g, ap (λ x. place_part x s) r))
      (λ o. c.more_left (
        omega (
          arith,
          o,
          ap picked g,
          moved gotten b a l (record l { hold = free; place = looping }) e,
        )))
      c
Step-Summed (wait_last s m h k e) p d c = record {
  sum = c.sum;
  first = c.first;
  top = c.top;
  last = c.last;
  cut = c.cut;
  more_left = c.more_left;
}
Step-Summed {n = n} {w = w} (pop_last b a l rest m h e q) p d c =
    let none_at = first-token b a l rest e (subst (λ q'. Placed n q' w.lines) q p) in
    let none_given = free_part l.hold (partial_sum l) (omega (arith, none_at.1)) in
    let l' = record l { hold = deleted; idle_now = false } in
    record {
      sum = omega (arith, c.sum, none_given, moved pend b a l l' e);
      first = c.first;
      top = c.top;
      last = λ o. h;
      cut = c.cut;
      more_left = λ o. c.more_left (omega (arith, o, moved gotten b a l l' e));
    }
Step-Summed {w = w} (add_up b a l e k) p d c =
    pend-Summed w b a l (record l { place = adding (partial_sum l) }) _ _ _ e
      (omega (arith, ap (λ x. place_part x (partial_sum l)) k))
      (λ o.
        c.more_left
          (omega (arith, o, moved gotten b a l (record l { place = adding (partial_sum l) }) e)))
      c
Step-Summed (add_result b a l r e k) p d c =
    let l' = record l { place = linking } in
    record {
      sum = omega (arith, c.sum, ap (λ x. place_part x (partial_sum l)) k, moved pend b a l l' e);
      first = c.first;
      top = c.top;
      last = c.last;
      cut = omega arith;
      more_left = λ o. c.more_left (omega (arith, o, moved gotten b a l l' e));
    }
Step-Summed {w = w} (append_link b a l e k) p d c =
    pend-Summed w b a l (record l { place = flagging }) _ _ _ e
      (omega (arith, ap (λ x. place_part x (partial_sum l)) k))
      (λ o. c.more_left (omega (arith, o, moved gotten b a l (record l { place = flagging }) e))) c
Step-Summed {w = w} (set_idle b a l e k) p d c =
    pend-Summed w b a l (record l { place = posting; idle_now = true }) _ _ _ e
      (omega (arith, ap (λ x. place_part x (partial_sum l)) k))
      (λ o.
        c.more_left
          (omega (arith, o, moved gotten b a l (record l { place = posting; idle_now = true }) e)))
      c
Step-Summed {w = w} (post_unit b a l e k) p d c =
    pend-Summed w b a l (record l { place = resting }) _ _ _ e
      (omega (arith, ap (λ x. place_part x (partial_sum l)) k))
      (λ o. c.more_left (omega (arith, o, moved gotten b a l (record l { place = resting }) e))) c

pub Reach-Summed :
    {n from step endp : ℕ} {w : World} → from ≤ endp → Reach n from step endp w → Summed from endp w
unfolding prepared partial_sum add_range
Reach-Summed {n = n} h start = record {
  sum = omega (arith, new-weigh pend n refl);
  first = omega arith;
  top = h;
  last = λ o. absurd (omega (arith, o));
  cut = omega arith;
  more_left = λ o. absurd (omega (arith, o, new-weigh gotten n refl));
}
Reach-Summed h (next r s) =
    Step-Summed s (Reach-Sound_calc r).0 (Reach-Sound_calc r).1 (Reach-Summed h r)

no_pend : (ls : List Line) → weigh busy ls ≡ 0 → weigh held ls ≡ 0 → weigh pend ls ≡ 0
no_pend [] b t = refl
no_pend (l ∷ ls) b t = omega (
  arith,
  idle_part l.place (partial_sum l) (omega (arith, b)),
  unheld_part l.hold (partial_sum l) (omega (arith, t)),
  no_pend ls (omega (arith, b)) (omega (arith, t)),
)

expected_cut : (from end : ℕ) → expected_sum from end < 2 ^ 64
unfolding expected_sum
expected_cut from end = ground arith

-- When the test with at least one thread has ended with all of them, the result is the sum that it
-- expects, cut to 64 bits, however the threads took turns.
pub calc_sum :
    {n from end step : ℕ} {w : World}
    → 1 ≤ n
    → from ≤ end
    → Reach n from step (end + 1) w
    → w.ended ≡ n
    → w.result ≡ expected_sum from end
calc_sum {from = from} {end = end} {w = w} some_lines h r e =
    let s = Reach-Summed (omega (arith, h)) r in
    let c = (Reach-Sound_calc r).1 in
    let over : w.sum_pt ≡ end + 1 = omega (arith, s.top, s.last (omega (arith, e, some_lines))) in
    omega (
      arith,
      s.sum,
      s.cut,
      expected_cut from end,
      no_pend w.lines (omega (arith, c.count, e)) (omega (arith, c.count, e)),
      ap sum_below over,
      expected_sum_lem from end h,
    )
