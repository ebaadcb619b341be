-- ===== src/Sync/CondVar/WakeOneTest/Ending.antt =====
-- TestWakeOne comes to its end.
use prot.Prelude.{weigh, ℕ, ◌+◌, ◌-◌, ◌*◌, ◌<◌}
use prot.Sync.CondVar.WakeOneTest.{
  Seat, beginning, waiting, woken, left, Item, Main, gathering, handing, sleeping, awake, over,
  World, Step,
}
use prot.Sync.CondVar.WakeOneTest.Counts.{Sound}

abbrev seat_work : Seat → ℕ
seat_work beginning = 3
seat_work waiting = 2
seat_work woken = 1
seat_work left = 0

abbrev item_work : Item → ℕ
item_work t = seat_work t.seat

abbrev main_work : (n : ℕ) → Main → ℕ
main_work n (gathering i) = 3 * n + 2 + (n - i)
main_work n (handing i) = 3 * (n - i) + 1
main_work n (sleeping i) = 3 * (n - i)
main_work n (awake i) = 3 * (n - i) - 1
main_work n over = 0

-- The steps that are left when no thread wakes up without a call.
abbrev wake_one_work : (n : ℕ) → World → ℕ
wake_one_work n w = main_work n w.main + weigh item_work w.items

abbrev waits : Item → ℕ
waits t = elim t.seat [ waiting ↦ 1 | _ ↦ 0 ]

module _ {n : ℕ} {w : World} (x : Sound n w) where
  -- A step that uses up some of the work that is left.
  abbrev Onward : Type 0
  Onward = (v : World) × Step n w v × (wake_one_work n v < wake_one_work n w)
