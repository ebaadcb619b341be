-- ===== src/Sync/CondVar/WakeOneTest/Sound.antt =====
-- Which numbers TestWakeOne has handed out.
use prot.Prelude.{
  weigh, moved, ℕ, zero, suc, ◌+◌, ◌-◌, ◌*◌, ◌/◌, ◌≡◌, none, some, replicate, refl, ap, sym, arith,
}
use prot.Sync.CondVar.WakeOneTest.{
  beginning, waiting, woken, Item, gathering, handing, sleeping, awake, over, World, opening,
  filled, Step, begin_wait, begin_take, spurious, wait_again, take, gather, gathered, hand_out,
  hand_out_none, spurious_main, sleep_again, next_round, finish, Reach, start, next,
}
use prot.Sync.CondVar.WakeOneTest.Counts.{
  is_beginning, is_left, in_loop, begins, loops, has_number, sum_below, gathered_by, handed_by,
  is_open, is_out, is_sleeping, is_woken, wakes, early, Sound, early-eq,
}
use prot.Sync.CondVar.WakeOneTest.Moves.{
  move-Sound, take-Sound, main-Sound, round_lem, some_woken, same_number, wake-Sound,
}

twice_sum : (n : ℕ) → 2 * sum_below n + n ≡ n * n
twice_sum zero = refl
twice_sum (suc n) = omega (arith, twice_sum n)

half_lem : (n : ℕ) → sum_below n ≡ n * (n - 1) / 2
half_lem zero = refl
half_lem (suc n) = let e : suc n - 1 ≡ n = omega arith in rw e (omega (arith, twice_sum (suc n)))

Step-Sound : {n : ℕ} {w v : World} → Step n w v → Sound n w → Sound n v
Step-Sound {w = w} (begin_wait b a t e g c) x =
    let t' = record t { seat = waiting } in
    let y = early-eq t (omega (arith, ap is_left g)) in
    let p = ap is_beginning g in
    let q = ap in_loop g in
    let u = ap is_woken g in
    move-Sound b a t t' (w.sem + 1) e (refl, refl, omega arith) (omega arith) (omega arith)
      (omega arith) x
Step-Sound {w = w} (begin_take b a t v e g c) x =
    let p = ap is_beginning g in
    let q = ap in_loop g in
    take-Sound b a t v (w.sem + 1) e (omega (arith, ap is_left g)) (omega arith) (omega arith) c x
Step-Sound (spurious b a t e g) x = wake-Sound b a t e g x
Step-Sound {w = w} (wait_again b a t e g c) x =
    let t' = record t { seat = waiting } in
    let y = early-eq t (omega (arith, ap is_left g)) in
    let p = ap is_beginning g in
    let q = ap in_loop g in
    let u = ap is_woken g in
    let r = ap is_open c in
    move-Sound b a t t' w.sem e (refl, refl, omega arith) (omega arith) (omega arith) (omega arith)
      x
Step-Sound {w = w} (take b a t v e g c) x =
    let p = ap is_beginning g in
    let q = ap in_loop g in
    take-Sound b a t v w.sem e (omega (arith, ap is_left g)) (omega arith) (omega arith) c x
Step-Sound {n = n} {w = w} (gather i s m h e) x =
    let k0 = ap (gathered_by n) m in
    let k1 = ap (handed_by n) m in
    let k2 = ap is_out m in
    let k3 = ap is_sleeping m in
    main-Sound (gathering (i + 1)) s w.recv_cmd (omega arith) (omega arith, omega arith)
      (omega arith, omega arith, omega arith) x.newest x
Step-Sound {n = n} {w = w} (gathered i m h) x =
    let k0 = ap (gathered_by n) m in
    let k1 = ap (handed_by n) m in
    let k2 = ap is_out m in
    let k3 = ap is_sleeping m in
    main-Sound (handing 0) w.sem w.recv_cmd (omega arith) (omega arith, omega arith)
      (omega arith, omega arith, omega arith) x.newest x
Step-Sound {n = n} {w = w} (hand_out i b a t m h e g) x =
    let woken_first = wake-Sound b a t e g x in
    let (now, free, some_left) = round_lem i m h x in
    let u = ap is_woken g in
    let w0 = moved wakes b a t (record t { seat = woken }) e in
    let k0 = ap (gathered_by n) m in
    main-Sound (sleeping i) w.sem (some i) (omega arith) (omega arith, omega arith)
      (omega arith, omega arith, omega arith) (λ v d. same_number (sym now) d) woken_first
Step-Sound {n = n} {w = w} (hand_out_none i m h none_waits) x =
    let (now, free, some_left) = round_lem i m h x in
    let k0 = ap (gathered_by n) m in
    let awake_one = some_woken w.items some_left none_waits in
    main-Sound (sleeping i) w.sem (some i) (omega arith) (omega arith, omega arith)
      (omega arith, omega arith, omega arith) (λ v d. same_number (sym now) d) x
Step-Sound {n = n} {w = w} (spurious_main i m) x =
    let k0 = ap (gathered_by n) m in
    let k1 = ap (handed_by n) m in
    let k2 = ap is_out m in
    let k3 = ap is_sleeping m in
    main-Sound (awake i) w.sem w.recv_cmd (omega arith) (omega arith, omega arith)
      (omega arith, omega arith, omega arith) x.newest x
Step-Sound {n = n} {w = w} (sleep_again i v m c) x =
    let k0 = ap (gathered_by n) m in
    let k1 = ap (handed_by n) m in
    let k2 = ap is_out m in
    let k3 = ap is_sleeping m in
    let r = ap is_open c in
    main-Sound (sleeping i) w.sem w.recv_cmd (omega arith) (omega arith, omega arith)
      (omega arith, omega arith, omega arith) x.newest x
Step-Sound {n = n} {w = w} (next_round i m c) x =
    let k0 = ap (gathered_by n) m in
    let k1 = ap (handed_by n) m in
    let k2 = ap is_out m in
    let k3 = ap is_sleeping m in
    let r = ap is_open c in
    main-Sound (handing (i + 1)) w.sem w.recv_cmd (omega arith) (omega arith, omega arith)
      (omega arith, omega arith, omega arith) x.newest x
Step-Sound {n = n} {w = w} (finish i m h) x =
    let k0 = ap (gathered_by n) m in
    let k1 = ap (handed_by n) m in
    let k2 = ap is_out m in
    let k3 = ap is_sleeping m in
    main-Sound over w.sem w.recv_cmd (omega arith) (omega arith, omega arith)
      (omega arith, omega arith, omega arith) x.newest x

weigh-opening :
    (f : Item → ℕ) (n : ℕ)
    → weigh f (replicate n record { seat = beginning; fill_val = none })
      ≡ n * f record { seat = beginning; fill_val = none }
weigh-opening f zero = omega arith
weigh-opening f (suc n) = omega (arith, weigh-opening f n)

pub Reach-Sound_wake_one : {n : ℕ} {w : World} → Reach n w → Sound n w
unfolding opening
Reach-Sound_wake_one {n = n} start =
    let m0 = weigh-opening begins n in
    let m1 = weigh-opening loops n in
    let m2 = weigh-opening wakes n in
    let m3 = weigh-opening has_number n in
    let m4 = weigh-opening filled n in
    let m5 = weigh-opening early n in
    record {
      begun = omega arith;
      seats = omega arith;
      numbers = omega arith;
      rounds = omega arith;
      out = omega arith;
      asleep = omega arith;
      woke = omega arith;
      count = omega arith;
      sum = omega arith;
      none_early = omega arith;
      newest = λ v d. absurd (ground (arith, d));
    }
Reach-Sound_wake_one (next r s) = Step-Sound s (Reach-Sound_wake_one r)

-- When the test has ended, the main thread finds what it expects: as many threads are counted as ended
-- as there are, as many items have a number, and the sum of the numbers is n * (n - 1) / 2.
pub wake_one_sum :
    {n : ℕ} {w : World}
    → Reach n w
    → w.main ≡ over
    → (w.n_exitd ≡ n) × (weigh has_number w.items ≡ n) × (weigh filled w.items ≡ n * (n - 1) / 2)
wake_one_sum {n = n} {w = w} r m =
    let x = Reach-Sound_wake_one r in
    let k1 = ap (handed_by n) m in
    let k2 = ap is_out m in
    let all : w.n_exitd ≡ n = omega arith in
    (all, omega arith, omega (arith, ap sum_below all, half_lem n))
