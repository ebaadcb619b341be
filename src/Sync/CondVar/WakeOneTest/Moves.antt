-- ===== src/Sync/CondVar/WakeOneTest/Moves.antt =====
-- What the threads of TestWakeOne do, apart from the step that they make.
use prot.Prelude.{
  weigh, weigh-++, find-weigh, moved, ℕ, ◌+◌, ◌-◌, ◌≤◌, ◌<◌, ◌≡◌, ◌≢◌, Option, none, some, List,
  ◌∷◌, ◌++◌, refl, ap, arith,
}
use prot.Sync.CondVar.WakeOneTest.{
  waiting, woken, Item, Main, handing, World, wake_main, take_number, filled,
}
use prot.Sync.CondVar.WakeOneTest.Counts.{
  is_beginning, is_left, in_loop, begins, loops, has_number, gathered_by, handed_by, is_open,
  is_out, is_sleeping, is_woken, wakes, early, Sound, early-eq, filled-none, wake_main-same,
  sum_below-next,
}

-- A thread goes to another place, with the number that it has.
pub move-Sound :
    {n : ℕ} {w : World} (b a : List Item) (t t' : Item) (sem : ℕ)
    → w.items ≡ b ++ (t ∷ a)
    → (has_number t' ≡ has_number t) × (filled t' ≡ filled t) × (early t' ≡ early t)
    → sem + begins t' ≡ w.sem + begins t
    → begins t' + loops t' ≡ begins t + loops t
    → wakes t ≤ wakes t' + (1 - is_open w.recv_cmd)
    → Sound n w
    → Sound n (record w { sem = sem; items = b ++ (t' ∷ a) })
move-Sound {n = n} {w = w} b a t t' sem e same posted place d x =
    let m0 = moved begins b a t t' e in
    let m1 = moved loops b a t t' e in
    let m2 = moved wakes b a t t' e in
    let m3 = moved has_number b a t t' e in
    let m4 = moved filled b a t t' e in
    let m5 = moved early b a t t' e in
    record {
      begun = omega arith;
      seats = omega arith;
      numbers = omega arith;
      rounds = omega arith;
      out = omega arith;
      asleep = omega arith;
      woke = omega arith;
      count = omega arith;
      sum = omega arith;
      none_early = omega arith;
      newest = x.newest;
    }

-- A thread takes the number that is there.
pub take-Sound :
    {n : ℕ} {w : World} (b a : List Item) (t : Item) (v sem : ℕ)
    → w.items ≡ b ++ (t ∷ a)
    → is_left t.seat ≡ 0
    → sem ≡ w.sem + begins t
    → begins t + loops t ≡ 1
    → w.recv_cmd ≡ some v
    → Sound n w
    → Sound n (record w {
      main = wake_main w.main;
      sem = sem;
      n_exitd = w.n_exitd + 1;
      recv_cmd = none;
      items = b ++ (take_number t v ∷ a);
    })
unfolding take_number
take-Sound {n = n} {w = w} b a t v sem e g posted place c x =
    let t' = take_number t v in
    let m0 = moved begins b a t t' e in
    let m1 = moved loops b a t t' e in
    let m2 = moved wakes b a t t' e in
    let m3 = moved has_number b a t t' e in
    let m4 = moved filled b a t t' e in
    let m5 = moved early b a t t' e in
    let r = ap is_open c in
    let same = x.newest v c in
    let y = early-eq t g in
    let z = filled-none t (omega arith) in
    let (k0, k1, k2, k3) = wake_main-same n w.main in
    let more = sum_below-next w.n_exitd in
    record {
      begun = omega arith;
      seats = omega arith;
      numbers = omega arith;
      rounds = omega arith;
      out = omega arith;
      asleep = omega arith;
      woke = omega arith;
      count = omega arith;
      sum = omega arith;
      none_early = omega arith;
      newest = λ u d. absurd (ground (arith, d));
    }

-- The main thread goes on; the threads stay where they are.
pub main-Sound :
    {n : ℕ} {w : World} (m : Main) (sem : ℕ) (recv : Option ℕ)
    → sem + gathered_by n m ≡ w.sem + gathered_by n w.main
    → (w.n_exitd + is_open recv ≡ handed_by n m) × (handed_by n m ≤ n)
    → (is_open recv ≤ is_out m)
      × (is_sleeping m ≤ is_open recv)
      × (is_open recv ≤ weigh wakes w.items)
    → ((v : ℕ) → recv ≡ some v → v ≡ w.n_exitd)
    → Sound n w
    → Sound n (record w { main = m; sem = sem; recv_cmd = recv })
main-Sound m sem recv gathers hands waits new x = record {
  begun = omega arith;
  seats = omega arith;
  numbers = omega arith;
  rounds = omega arith;
  out = omega arith;
  asleep = omega arith;
  woke = omega arith;
  count = omega arith;
  sum = omega arith;
  none_early = omega arith;
  newest = new;
}

-- When the main thread hands out a number, all threads have begun, and one of them is still in its loop.
pub round_lem :
    {n : ℕ} {w : World} (i : ℕ)
    → w.main ≡ handing i
    → i < n
    → Sound n w
    → (w.n_exitd ≡ i) × (is_open w.recv_cmd ≡ 0) × (1 ≤ weigh loops w.items)
round_lem {n = n} i m h x =
    let k0 = ap (gathered_by n) m in
    let k1 = ap (handed_by n) m in let k2 = ap is_out m in (omega arith, omega arith, omega arith)

-- A thread in its loop that does not wait is awake.
pub some_woken :
    (items : List Item)
    → 1 ≤ weigh loops items
    → ((b a : List Item) (t : Item) → items ≡ b ++ (t ∷ a) → t.seat ≢ waiting)
    → 1 ≤ weigh wakes items
some_woken items h none_waits =
    let (b, t, a, e, l) = find-weigh loops items h in
    let awake_here : 1 ≤ wakes t = ground (arith, l, none_waits b a t e) in
    omega (arith, ap (weigh wakes) e, weigh-++ wakes b (t ∷ a))

pub same_number : {i v k : ℕ} → i ≡ k → some i ≡ some v → v ≡ k
same_number e d = ground (arith, e, d)

-- A waiting thread wakes up.
pub wake-Sound :
    {n : ℕ} {w : World} (b a : List Item) (t : Item)
    → w.items ≡ b ++ (t ∷ a)
    → t.seat ≡ waiting
    → Sound n w
    → Sound n (record w { items = b ++ (record t { seat = woken } ∷ a) })
wake-Sound {w = w} b a t e g x =
    let t' = record t { seat = woken } in
    let y = early-eq t (omega (arith, ap is_left g)) in
    let p = ap is_beginning g in
    let q = ap in_loop g in
    let u = ap is_woken g in
    move-Sound b a t t' w.sem e (refl, refl, omega arith) (omega arith) (omega arith) (omega arith)
      x
