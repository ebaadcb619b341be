-- ===== src/Sync/CondVar/WakeOneTest.antt =====
-- The test TestWakeOne (system/synchronization/condvar_unittest.cpp): the main thread hands one number
-- after the other to threads that wait at a condition variable, and waits at another one until the number
-- has been taken. A step is what a thread does from the time that it has the lock to the time that it
-- frees it or waits. A wait may also end without a call of `WakeOne`.
pub mod Counts
pub mod Moves
pub mod Sound
pub mod Ending
mod Tests
use prot.Prelude.{
  ℕ, zero, suc, ◌+◌, ◌<◌, ◌≤◌, ◌≡◌, ◌≢◌, Option, none, some, List, [], ◌∷◌, ◌++◌, replicate,
}

-- Where a thread is: before `Get`, in `Wait`, behind the wait but without the lock, or at its end.
pub data Seat : Type 0 where
  beginning waiting woken left : Seat

-- `MCVTWDITEM`; `none` is the -1 of `fill_val`.
pub record Item : Type 0 where
  pub seat : Seat
  pub fill_val : Option ℕ

-- The main thread: in the loop that waits for the semaphore, before the `Get` of a round, in the wait at
-- the other condition variable, behind that wait, and behind the loop.
pub data Main : Type 0 where
  gathering : (i : ℕ) → Main
  handing : (i : ℕ) → Main
  sleeping : (i : ℕ) → Main
  awake : (i : ℕ) → Main
  over : Main

-- `MyCondVarTestWakeData`; `none` is the -1 of `recv_cmd`.
pub record World : Type 0 where
  pub main : Main
  pub sem : ℕ
  pub n_exitd : ℕ
  pub recv_cmd : Option ℕ
  pub items : List Item

unfoldable pub opening : (n_items : ℕ) → World
opening n = record {
  main = gathering 0;
  sem = 0;
  n_exitd = 0;
  recv_cmd = none;
  items = replicate n record { seat = beginning; fill_val = none };
}

-- `WakeAll` at the condition variable of the main thread.
unfoldable pub wake_main : Main → Main
wake_main (gathering i) = gathering i
wake_main (handing i) = handing i
wake_main (sleeping i) = awake i
wake_main (awake i) = awake i
wake_main over = over

-- What a thread does once it has a number.
unfoldable pub take_number : Item → (recv_cmd : ℕ) → Item
take_number t v = record { seat = left; fill_val = some v }

pub data Step (n_items : ℕ) (w : World) : World → Type 0 where
  begin_wait :
      (before after : List Item) (t : Item)
      → w.items ≡ before ++ (t ∷ after)
      → t.seat ≡ beginning
      → w.recv_cmd ≡ none
      → Step n_items w
          (record w { sem = w.sem + 1; items = before ++ (record t { seat = waiting } ∷ after) })
  begin_take :
      (before after : List Item) (t : Item) (v : ℕ)
      → w.items ≡ before ++ (t ∷ after)
      → t.seat ≡ beginning
      → w.recv_cmd ≡ some v
      → Step n_items w (record w {
        main = wake_main w.main;
        sem = w.sem + 1;
        n_exitd = w.n_exitd + 1;
        recv_cmd = none;
        items = before ++ (take_number t v ∷ after);
      })
  spurious :
      (before after : List Item) (t : Item)
      → w.items ≡ before ++ (t ∷ after)
      → t.seat ≡ waiting
      → Step n_items w (record w { items = before ++ (record t { seat = woken } ∷ after) })
  wait_again :
      (before after : List Item) (t : Item)
      → w.items ≡ before ++ (t ∷ after)
      → t.seat ≡ woken
      → w.recv_cmd ≡ none
      → Step n_items w (record w { items = before ++ (record t { seat = waiting } ∷ after) })
  take :
      (before after : List Item) (t : Item) (v : ℕ)
      → w.items ≡ before ++ (t ∷ after)
      → t.seat ≡ woken
      → w.recv_cmd ≡ some v
      → Step n_items w (record w {
        main = wake_main w.main;
        n_exitd = w.n_exitd + 1;
        recv_cmd = none;
        items = before ++ (take_number t v ∷ after);
      })
  gather :
      (i s : ℕ)
      → w.main ≡ gathering i
      → i < n_items
      → w.sem ≡ suc s
      → Step n_items w (record w { main = gathering (i + 1); sem = s })
  gathered :
      (i : ℕ) → w.main ≡ gathering i → n_items ≤ i → Step n_items w (record w { main = handing 0 })
  hand_out :
      (i : ℕ) (before after : List Item) (t : Item)
      → w.main ≡ handing i
      → i < n_items
      → w.items ≡ before ++ (t ∷ after)
      → t.seat ≡ waiting
      → Step n_items w (record w {
        main = sleeping i;
        recv_cmd = some i;
        items = before ++ (record t { seat = woken } ∷ after);
      })
  hand_out_none :
      (i : ℕ)
      → w.main ≡ handing i
      → i < n_items
      → ((before after : List Item) (t : Item) → w.items ≡ before ++ (t ∷ after) → t.seat ≢ waiting)
      → Step n_items w (record w { main = sleeping i; recv_cmd = some i })
  spurious_main : (i : ℕ) → w.main ≡ sleeping i → Step n_items w (record w { main = awake i })
  sleep_again :
      (i v : ℕ)
      → w.main ≡ awake i
      → w.recv_cmd ≡ some v
      → Step n_items w (record w { main = sleeping i })
  next_round :
      (i : ℕ)
      → w.main ≡ awake i
      → w.recv_cmd ≡ none
      → Step n_items w (record w { main = handing (i + 1) })
  finish : (i : ℕ) → w.main ≡ handing i → n_items ≤ i → Step n_items w (record w { main = over })

pub data Reach (n_items : ℕ) : World → Type 0 where
  start : Reach n_items (opening n_items)
  next : {v w : World} → Reach n_items v → Step n_items v w → Reach n_items w

-- `fill_val` in the sum of the main thread.
abbrev pub filled : Item → ℕ
filled t = elim t.fill_val [ none ↦ 0 | some v ↦ v ]
