-- ===== src/Pool/Calc/Invariant.antt =====
-- What holds of the list, the semaphore and the data in every world of TestPoolParallelCalc.
use prot.Prelude.{
  weigh, moved, ℕ, zero, suc, ◌+◌, ◌≤◌, ◌<◌, ◌≡◌, true, false, if◌then◌else◌, List, [], ◌∷◌, length,
  length-append, length-replicate, ltb, leb, ◌&&◌, refl, ap, subst, arith,
}
use prot.Pool.Calc.{
  Line, resting, looping, adding, linking, flagging, posting, free, got, given, deleted, Main,
  waiting, took, having, World, next_piece, partial_sum, post_one, new_lines, ids_from, prepared,
  Step, wait_unit, pop_link, fill_in, run, wait_last, pop_last, add_up, add_result, append_link,
  set_idle, post_unit, Reach, start, next,
}
use prot.Pool.Calc.Tokens.{is_busy, is_ending, is_held, token, occ, Tokens, Below}
use prot.Pool.Calc.Placed.{Placed, first-token, Step-Placed}

abbrev pub busy : Line → ℕ
busy l = is_busy l.place

abbrev pub ending : Line → ℕ
ending l = is_ending l.place

abbrev pub held : Line → ℕ
held l = is_held l.hold

abbrev pub is_took : Main → ℕ
is_took waiting = 0
is_took took = 1
is_took having = 0

abbrev pub is_having : Main → ℕ
is_having waiting = 0
is_having took = 0
is_having having = 1

-- All data but that of failed starts, k of them, is in the list, with a thread, with the main thread or
-- deleted in the second loop, and the list has what the semaphore counts, what is still to be posted, and what the main thread has waited for.
pub record Counted (k : ℕ) (w : World) : Type 0 where
  pub count : length w.queue + weigh busy w.lines + weigh held w.lines + w.ended ≡ k
  pub units : length w.queue ≡ w.sem + weigh ending w.lines + is_took w.main
  pub with_d : weigh held w.lines ≡ is_having w.main

post_room : (n s : ℕ) → s < n → post_one n s ≡ s + 1
unfolding post_one
post_room n s h = ground (arith, h)

held-le-token : (l : Line) → held l ≤ token l
held-le-token l = ground arith

pub Step-Counted :
    {n k step endp : ℕ} {w v : World}
    → k ≤ n
    → Step n step endp w v
    → Placed n w.queue w.lines
    → Counted k w
    → Counted k v
Step-Counted le (wait_unit s m h e) p c = record {
  count = c.count;
  units = omega (arith, c.units, e, ap is_took m);
  with_d = omega (arith, c.with_d, ap is_having m);
}
Step-Counted {n = n} {w = w} le (pop_link b a l rest m h e q) p c =
    let none_at = first-token b a l rest e (subst (λ q'. Placed n q' w.lines) q p) in
    let free_at : held l ≡ 0 = omega (arith, none_at.1, held-le-token l) in
    let l' = record l { hold = got } in
    record {
      count =
          omega
            (arith, c.count, ap length q, free_at, moved busy b a l l' e, moved held b a l l' e);
      units = omega (arith, c.units, ap length q, ap is_took m, moved ending b a l l' e);
      with_d = omega (arith, c.with_d, ap is_having m, free_at, moved held b a l l' e);
    }
Step-Counted {step = step} {endp = endp} {w = w} le (fill_in b a l m h e g) p c =
    let piece = next_piece step endp w.sum_pt in
    let l' = record l { hold = given; idle_now = false; num_start = w.sum_pt; num_end = piece } in
    record {
      count = omega (arith, c.count, ap is_held g, moved busy b a l l' e, moved held b a l l' e);
      units = omega (arith, c.units, moved ending b a l l' e);
      with_d = omega (arith, c.with_d, ap is_held g, moved held b a l l' e);
    }
Step-Counted le (run b a l m e g r) p c =
    let l' = record l { hold = free; place = looping } in
    record {
      count = omega (
        arith,
        c.count,
        ap is_held g,
        ap is_busy r,
        moved busy b a l l' e,
        moved held b a l l' e,
      );
      units = omega (arith, c.units, ap is_took m, ap is_ending r, moved ending b a l l' e);
      with_d = omega (arith, c.with_d, ap is_having m, ap is_held g, moved held b a l l' e);
    }
Step-Counted le (wait_last s m h k e) p c = record {
  count = c.count;
  units = omega (arith, c.units, e, ap is_took m);
  with_d = omega (arith, c.with_d, ap is_having m);
}
Step-Counted {n = n} {w = w} le (pop_last b a l rest m h e q) p c =
    let none_at = first-token b a l rest e (subst (λ q'. Placed n q' w.lines) q p) in
    let free_at : held l ≡ 0 = omega (arith, none_at.1, held-le-token l) in
    let l' = record l { hold = deleted; idle_now = false } in
    record {
      count =
          omega
            (arith, c.count, ap length q, free_at, moved busy b a l l' e, moved held b a l l' e);
      units = omega (arith, c.units, ap length q, ap is_took m, moved ending b a l l' e);
      with_d = omega (arith, c.with_d, ap is_having m, free_at, moved held b a l l' e);
    }
Step-Counted {w = w} le (add_up b a l e k) p c =
    let l' = record l { place = adding (partial_sum l) } in
    record {
      count = omega (arith, c.count, ap is_busy k, moved busy b a l l' e, moved held b a l l' e);
      units = omega (arith, c.units, ap is_ending k, moved ending b a l l' e);
      with_d = omega (arith, c.with_d, moved held b a l l' e);
    }
Step-Counted le (add_result b a l r e k) p c =
    let l' = record l { place = linking } in
    record {
      count = omega (arith, c.count, ap is_busy k, moved busy b a l l' e, moved held b a l l' e);
      units = omega (arith, c.units, ap is_ending k, moved ending b a l l' e);
      with_d = omega (arith, c.with_d, moved held b a l l' e);
    }
Step-Counted {w = w} le (append_link b a l e k) p c =
    let l' = record l { place = flagging } in
    record {
      count = omega (
        arith,
        c.count,
        ap is_busy k,
        moved busy b a l l' e,
        moved held b a l l' e,
        length-append w.queue (length b ∷ []),
      );
      units = omega (
        arith,
        c.units,
        ap is_ending k,
        moved ending b a l l' e,
        length-append w.queue (length b ∷ []),
      );
      with_d = omega (arith, c.with_d, moved held b a l l' e);
    }
Step-Counted le (set_idle b a l e k) p c =
    let l' = record l { place = posting; idle_now = true } in
    record {
      count = omega (arith, c.count, ap is_busy k, moved busy b a l l' e, moved held b a l l' e);
      units = omega (arith, c.units, ap is_ending k, moved ending b a l l' e);
      with_d = omega (arith, c.with_d, moved held b a l l' e);
    }
Step-Counted {n = n} {w = w} le (post_unit b a l e j) p c =
    let l' = record l { place = resting } in
    let busy_same = moved busy b a l l' e in
    let ending_less = moved ending b a l l' e in
    let room : w.sem < n = omega (arith, le, c.units, c.count, ending_less, ap is_ending j) in
    record {
      count = omega (arith, c.count, ap is_busy j, busy_same, moved held b a l l' e);
      units = omega (arith, c.units, ending_less, ap is_ending j, post_room n w.sem room);
      with_d = omega (arith, c.with_d, moved held b a l l' e);
    }

Below-ids_from : (i k n : ℕ) → i + k ≤ n → Below n (ids_from i k)
Below-ids_from i zero n h = tt
Below-ids_from i (suc k) n h = (omega (arith, h), Below-ids_from (i + 1) k n (omega (arith, h)))

length-ids_from : (i k : ℕ) → length (ids_from i k) ≡ k
length-ids_from i zero = refl
length-ids_from i (suc k) = ap suc (length-ids_from (i + 1) k)

Tokens-new :
    (q : List ℕ) (i k : ℕ) → ((j : ℕ) → i ≤ j → j < i + k → occ j q ≡ 1) → Tokens q i (new_lines k)
Tokens-new q i zero h = tt
Tokens-new q i (suc k) h = (
  omega (arith, h i (omega arith) (omega arith)),
  Tokens-new q (suc i) k (λ j a b. h j (omega (arith, a)) (omega (arith, b))),
)

occ-ids_from : (i k j : ℕ) → occ j (ids_from i k) ≡ (if leb i j && ltb j (i + k) then 1 else 0)
occ-ids_from i zero j = ground arith
occ-ids_from i (suc k) j = ground (arith, occ-ids_from (i + 1) k j)

pub new-weigh : (f : Line → ℕ) (k : ℕ) → weigh f (new_lines 1) ≡ 0 → weigh f (new_lines k) ≡ 0
new-weigh f zero h = refl
new-weigh f (suc k) h = omega (arith, h, new-weigh f k h)

-- In every world that the test can come to while each `Run` gets its thread, the data of each of the n threads is at exactly one place:
-- once in the list, with its thread, with the main thread or deleted. The list is as long as the count of
-- the semaphore, the units still to be posted and the one that the main thread has waited for together.
pub Reach-Sound_calc :
    {n from step endp : ℕ} {w : World}
    → Reach n from step endp w
    → Placed n w.queue w.lines × Counted n w
unfolding prepared
Reach-Sound_calc {n = n} start = (
  record {
    tokens = Tokens-new (ids_from 0 n) 0 n (λ j a b. ground (arith, a, b, occ-ids_from 0 n j));
    below = Below-ids_from 0 n n (omega arith);
    size = length-replicate n _;
  },
  record {
    count = omega (arith, length-ids_from 0 n, new-weigh busy n refl, new-weigh held n refl);
    units = omega (arith, length-ids_from 0 n, new-weigh ending n refl);
    with_d = new-weigh held n refl;
  },
)
Reach-Sound_calc (next r s) =
    let (p, c) = Reach-Sound_calc r in (Step-Placed s p, Step-Counted (omega arith) s p c)
