-- ===== src/Pool/Calc.antt =====
-- The test TestPoolParallelCalc (system/threads_unittest.cpp): a loop hands out pieces of a sum to
-- pool threads, which it gets from a list under a lock, with a semaphore that counts what is in it.
-- `Int64` values are natural numbers; the sums are cut to 64 bits.
pub mod Sums
pub mod Tokens
pub mod Placed
pub mod Invariant
pub mod Ending
pub mod Result
pub mod Failing
mod Tests
use prot.Prelude.{
  ℕ, zero, suc, ◌+◌, ◌-◌, ◌*◌, ◌/◌, ◌%◌, ◌^◌, ◌<◌, ◌≤◌, ◌≡◌, Bool, true, false, ltb, ◌==◌,
  if◌then◌else◌, List, [], ◌∷◌, ◌++◌, length, replicate,
}

-- The loop over `i` with k rounds to go.
unfoldable pub add_range : (k i result : ℕ) → ℕ
add_range zero i r = r
add_range (suc k) i r = add_range k (i + 1) ((r + i) % 2 ^ 64)

-- Where the function of a thread is: not called or returned, in its loop, before the sum lock with its
-- `result`, before the queue lock, before `idle_now = True`, before `Post`.
pub data Place : Type 0 where
  resting : Place
  looping : Place
  adding : (result : ℕ) → Place
  linking : Place
  flagging : Place
  posting : Place

-- Whether the main thread's `d` points to the data: not at all, before and behind the lines that fill
-- it in, or for the last time, in the second loop or behind a failed `Run`.
pub data Hold : Type 0 where
  free : Hold
  got : Hold
  given : Hold
  deleted : Hold

-- `MyTestPoolParallelCalcData`, with the place of its thread and that of `d`.
pub record Line : Type 0 where
  pub place : Place
  pub hold : Hold
  pub idle_now : Bool
  pub num_start : ℕ
  pub num_end : ℕ

-- Where the main thread is: before a `Wait` for the semaphore, behind it, or with `d`.
pub data Main : Type 0 where
  waiting : Main
  took : Main
  having : Main

-- The list holds the places of the data in `pdata`; `ended` is the `n` of the second loop.
pub record World : Type 0 where
  pub main : Main
  pub sum_pt : ℕ
  pub ended : ℕ
  pub sem : ℕ
  pub queue : List ℕ
  pub lines : List Line
  pub result : ℕ

-- What the function adds up.
unfoldable pub partial_sum : Line → ℕ
partial_sum l = add_range (l.num_end - l.num_start) l.num_start 0

-- The end of the next piece.
unfoldable pub next_piece : (sum_step sum_endp sum_pt : ℕ) → ℕ
next_piece step endp pt = if ltb (pt + step) endp then pt + step else endp

-- `Post` of one unit, at a semaphore for n.
unfoldable pub post_one : (n sem : ℕ) → ℕ
post_one n s = if ltb s n then s + 1 else s

-- The number that the test expects.
unfoldable pub expected_sum : (sum_from sum_end : ℕ) → ℕ
expected_sum from end =
    let pair1 = from + end in
    let pair2 = end + 1 - from in
    if pair1 % 2 == 1 then pair1 * (pair2 / 2) % 2 ^ 64 else pair1 / 2 * pair2 % 2 ^ 64

abbrev pub new_lines : ℕ → List Line
new_lines n =
    replicate n record { place = resting; hold = free; idle_now = true; num_start = 0; num_end = 0 }

abbrev pub ids_from : (i k : ℕ) → List ℕ
ids_from i zero = []
ids_from i (suc k) = i ∷ ids_from (i + 1) k

-- What the first loop has made.
unfoldable pub prepared : (n sum_from : ℕ) → World
prepared n from = record {
  main = waiting;
  sum_pt = from;
  ended = 0;
  sem = n;
  queue = ids_from 0 n;
  lines = new_lines n;
  result = 0;
}

-- A step of a thread, or of the main thread between two of its critical sections. `Run` is reached
-- behind the `Wait` for the thread, and gives it the piece; a `Run` that gets no thread is no step here,
-- but `Fail` below.
pub data Step (n sum_step sum_endp : ℕ) (w : World) : World → Type 0 where
  wait_unit :
      (s : ℕ)
      → w.main ≡ waiting
      → w.sum_pt < sum_endp
      → w.sem ≡ suc s
      → Step n sum_step sum_endp w (record w { main = took; sem = s })
  pop_link :
      (before after : List Line) (l : Line) (rest : List ℕ)
      → w.main ≡ took
      → w.sum_pt < sum_endp
      → w.lines ≡ before ++ (l ∷ after)
      → w.queue ≡ length before ∷ rest
      → Step n sum_step sum_endp w (record w {
        main = having;
        queue = rest;
        lines = before ++ (record l { hold = got } ∷ after);
      })
  fill_in :
      (before after : List Line) (l : Line)
      → w.main ≡ having
      → w.sum_pt < sum_endp
      → w.lines ≡ before ++ (l ∷ after)
      → l.hold ≡ got
      → Step n sum_step sum_endp w (record w {
        sum_pt = next_piece sum_step sum_endp w.sum_pt;
        lines =
            before
            ++ (record l {
              hold = given;
              idle_now = false;
              num_start = w.sum_pt;
              num_end = next_piece sum_step sum_endp w.sum_pt;
            }
                ∷ after);
      })
  run :
      (before after : List Line) (l : Line)
      → w.main ≡ having
      → w.lines ≡ before ++ (l ∷ after)
      → l.hold ≡ given
      → l.place ≡ resting
      → Step n sum_step sum_endp w (record w {
        main = waiting;
        lines = before ++ (record l { hold = free; place = looping } ∷ after);
      })
  wait_last :
      (s : ℕ)
      → w.main ≡ waiting
      → sum_endp ≤ w.sum_pt
      → w.ended < n
      → w.sem ≡ suc s
      → Step n sum_step sum_endp w (record w { main = took; sem = s })
  pop_last :
      (before after : List Line) (l : Line) (rest : List ℕ)
      → w.main ≡ took
      → sum_endp ≤ w.sum_pt
      → w.lines ≡ before ++ (l ∷ after)
      → w.queue ≡ length before ∷ rest
      → Step n sum_step sum_endp w (record w {
        main = waiting;
        ended = w.ended + 1;
        queue = rest;
        lines = before ++ (record l { hold = deleted; idle_now = false } ∷ after);
      })
  add_up :
      (before after : List Line) (l : Line)
      → w.lines ≡ before ++ (l ∷ after)
      → l.place ≡ looping
      → Step n sum_step sum_endp w
          (record w { lines = before ++ (record l { place = adding (partial_sum l) } ∷ after) })
  add_result :
      (before after : List Line) (l : Line) (r : ℕ)
      → w.lines ≡ before ++ (l ∷ after)
      → l.place ≡ adding r
      → Step n sum_step sum_endp w (record w {
        result = (w.result + r) % 2 ^ 64;
        lines = before ++ (record l { place = linking } ∷ after);
      })
  append_link :
      (before after : List Line) (l : Line)
      → w.lines ≡ before ++ (l ∷ after)
      → l.place ≡ linking
      → Step n sum_step sum_endp w (record w {
        queue = w.queue ++ (length before ∷ []);
        lines = before ++ (record l { place = flagging } ∷ after);
      })
  set_idle :
      (before after : List Line) (l : Line)
      → w.lines ≡ before ++ (l ∷ after)
      → l.place ≡ flagging
      → Step n sum_step sum_endp w
          (record w { lines = before ++ (record l { place = posting; idle_now = true } ∷ after) })
  post_unit :
      (before after : List Line) (l : Line)
      → w.lines ≡ before ++ (l ∷ after)
      → l.place ≡ posting
      → Step n sum_step sum_endp w (record w {
        sem = post_one n w.sem;
        lines = before ++ (record l { place = resting } ∷ after);
      })

-- The `break` behind a `Run` that gets no thread. The main thread goes to its second loop with the data
-- in no list; `sum_pt` is not read behind the first loop and is put at the end, which ends that loop.
pub data Fail (sum_endp : ℕ) (w : World) : World → Type 0 where
  run_fails :
      (before after : List Line) (l : Line)
      → w.main ≡ having
      → w.lines ≡ before ++ (l ∷ after)
      → l.hold ≡ given
      → l.place ≡ resting
      → Fail sum_endp w (record w {
        main = waiting;
        sum_pt = sum_endp;
        lines = before ++ (record l { hold = deleted } ∷ after);
      })

-- The runs in which each `Run` has got its thread.
pub data Reach (n sum_from sum_step sum_endp : ℕ) : World → Type 0 where
  start : Reach n sum_from sum_step sum_endp (prepared n sum_from)
  next :
      {v w : World}
      → Reach n sum_from sum_step sum_endp v
      → Step n sum_step sum_endp v w
      → Reach n sum_from sum_step sum_endp w
