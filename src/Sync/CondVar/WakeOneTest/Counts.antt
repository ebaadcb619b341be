-- ===== src/Sync/CondVar/WakeOneTest/Counts.antt =====
-- What is counted of the threads of TestWakeOne and of the numbers that they take.
use prot.Prelude.{weigh, ℕ, zero, suc, ◌+◌, ◌≤◌, ◌≡◌, Option, none, some, ap, arith}
use prot.Sync.CondVar.WakeOneTest.{
  Seat, beginning, waiting, woken, left, Item, Main, gathering, handing, sleeping, awake, over,
  World, wake_main, filled,
}

abbrev pub is_beginning : Seat → ℕ
is_beginning beginning = 1
is_beginning waiting = 0
is_beginning woken = 0
is_beginning left = 0

abbrev pub is_left : Seat → ℕ
is_left beginning = 0
is_left waiting = 0
is_left woken = 0
is_left left = 1

-- A thread of the loop around `Wait`.
abbrev pub in_loop : Seat → ℕ
in_loop beginning = 0
in_loop waiting = 1
in_loop woken = 1
in_loop left = 0

abbrev pub begins : Item → ℕ
begins t = is_beginning t.seat

abbrev pub leaves : Item → ℕ
leaves t = is_left t.seat

abbrev pub loops : Item → ℕ
loops t = in_loop t.seat

-- Whether `fill_val` is not -1 any more.
abbrev pub has_number : Item → ℕ
has_number t = elim t.fill_val [ none ↦ 0 | some v ↦ 1 ]

-- 0 + 1 + … + (n - 1)
abbrev pub sum_below : ℕ → ℕ
sum_below zero = 0
sum_below (suc n) = n + sum_below n

-- What the main thread has gathered, and the numbers that it has handed out.
abbrev pub gathered_by : (n : ℕ) → Main → ℕ
gathered_by n (gathering i) = i
gathered_by n (handing i) = n
gathered_by n (sleeping i) = n
gathered_by n (awake i) = n
gathered_by n over = n

abbrev pub handed_by : (n : ℕ) → Main → ℕ
handed_by n (gathering i) = 0
handed_by n (handing i) = i
handed_by n (sleeping i) = i + 1
handed_by n (awake i) = i + 1
handed_by n over = n

abbrev pub is_open : Option ℕ → ℕ
is_open none = 0
is_open (some v) = 1

abbrev pub is_out : Main → ℕ
is_out (gathering i) = 0
is_out (handing i) = 0
is_out (sleeping i) = 1
is_out (awake i) = 1
is_out over = 0

abbrev pub is_sleeping : Main → ℕ
is_sleeping (gathering i) = 0
is_sleeping (handing i) = 0
is_sleeping (sleeping i) = 1
is_sleeping (awake i) = 0
is_sleeping over = 0

abbrev pub is_woken : Seat → ℕ
is_woken beginning = 0
is_woken waiting = 0
is_woken woken = 1
is_woken left = 0

abbrev pub wakes : Item → ℕ
wakes t = is_woken t.seat

-- A number of a thread that is not at its end.
abbrev pub early : Item → ℕ
early t = elim t.seat [ left ↦ 0 | _ ↦ has_number t ]

-- The threads: each has posted once, and is in its loop or at its end. The numbers: what has been handed
-- out has been taken, but for one that is still there while the main thread waits for it and for which
-- some thread is awake; and they are in the items.
pub record Sound (n : ℕ) (w : World) : Type 0 where
  pub begun : w.sem + gathered_by n w.main + weigh begins w.items ≡ n
  pub seats : weigh begins w.items + weigh loops w.items + w.n_exitd ≡ n
  pub numbers : w.n_exitd + is_open w.recv_cmd ≡ handed_by n w.main
  pub rounds : handed_by n w.main ≤ n
  pub out : is_open w.recv_cmd ≤ is_out w.main
  pub asleep : is_sleeping w.main ≤ is_open w.recv_cmd
  pub woke : is_open w.recv_cmd ≤ weigh wakes w.items
  pub count : weigh has_number w.items ≡ w.n_exitd
  pub sum : weigh filled w.items ≡ sum_below w.n_exitd
  pub none_early : weigh early w.items ≡ 0
  pub newest : (v : ℕ) → w.recv_cmd ≡ some v → v ≡ w.n_exitd

pub sum_below-next : (i : ℕ) → sum_below (i + 1) ≡ i + sum_below i
sum_below-next i = let e : i + 1 ≡ suc i = omega arith in ap sum_below e

pub early-eq : (t : Item) → is_left t.seat ≡ 0 → early t ≡ has_number t
early-eq t h = ground (arith, h)

pub filled-none : (t : Item) → has_number t ≡ 0 → filled t ≡ 0
filled-none t h = ground (arith, h)

pub wake_main-same :
    (n : ℕ) (m : Main)
    → (gathered_by n (wake_main m) ≡ gathered_by n m)
      × (handed_by n (wake_main m) ≡ handed_by n m)
      × (is_out (wake_main m) ≡ is_out m)
      × (is_sleeping (wake_main m) ≡ 0)
unfolding wake_main
wake_main-same n m = ground arith
