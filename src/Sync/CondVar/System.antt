-- ===== src/Sync/CondVar/System.antt =====
-- Any number of threads at one `ConditionVariable`, with timed waits and untimed ones: each step is
-- one critical section, one call on the semaphore or one on the event, in any order that the mutexes
-- allow. `mtxi` is held all through `WakeOne` and `WakeAll`, and a wait begins under it.
use prot.Prelude.{
  ℕ, ◌+◌, ◌-◌, ◌≤◌, ◌<◌, ◌≡◌, Bool, true, false, not, ◌&&◌, ◌||◌, ◌==◌, if◌then◌else◌, arith,
}
use prot.Prelude.Int.{pos}
use prot.Sync.Cond.{Code, ok, Notify}
use prot.Sync.Semaphore.{Sem, maximum_count, try_wait, post, post_refused, post_locked, post_notify}
use prot.Sync.Event.{Event, CallEnv, done, set, reset}
use prot.Sync.CondVar.{
  CondVar, construct, wait_enter, wait_leave, wake_one_test, post_units, wake_all_begin,
  wake_all_end,
}

abbrev pub weight : Bool → ℕ
weight b = if b then 1 else 0

-- A semaphore with `c` units and the greatest maximum.
abbrev pub units : ℕ → Bool → Sem
units c clock = record { current = pos c; maximum = maximum_count; tick_clock = clock }

-- `blocked` threads are in the wait on the semaphore, `leaving` ones have come back from it and have
-- not yet counted themselves out, and `setting` ones are about to set the event. A thread is in
-- `WakeOne` (`in_one`) or in `WakeAll` (`in_all`), or `mtxi` is free. `tokens` is the semaphore's
-- count, and `posted` all that has ever been posted.
pub record World : Type 0 where
  pub object : CondVar
  pub blocked : ℕ
  pub leaving : ℕ
  pub setting : ℕ
  pub in_one : Bool
  pub in_all : Bool
  pub tokens : ℕ
  pub posted : ℕ

abbrev pub MtxiFree : World → Type 0
MtxiFree w = (w.in_one || w.in_all) ≡ false

-- What `Post` can have read at its first test: units that have been posted before.
abbrev pub Seen : World → Sem → Type 0
Seen w s = (c : ℕ) × (clock : Bool) × (s ≡ units c clock) × (c ≤ w.posted)

module _ (notify : Notify → Code) where
  pub data Step (w : World) : World → Type 0 where
    enter : MtxiFree w → Step w (record w { object = wait_enter w.object; blocked = w.blocked + 1 })
    take :
        (s : Sem)
        → 0 < w.blocked
        → try_wait w.object.semap ≡ (true, s)
        → Step w record w {
          object = record w.object { semap = s };
          blocked = w.blocked - 1;
          leaving = w.leaving + 1;
          tokens = w.tokens - 1;
        }
    time_out :
        0 < w.blocked → Step w (record w { blocked = w.blocked - 1; leaving = w.leaving + 1 })
    leave :
        0 < w.leaving
        → Step w record w {
          object = (wait_leave w.object).1;
          leaving = w.leaving - 1;
          setting = w.setting + weight (wait_leave w.object).0;
        }
    set_end :
        (c : CallEnv) (e : Event)
        → 0 < w.setting
        → set c w.object.mrend ≡ done e
        → Step w (record w { object = record w.object { mrend = e }; setting = w.setting - 1 })
    one_begin : MtxiFree w → Step w (record w { in_one = wake_one_test w.object })
    one_end :
        (seen : Sem)
        → w.in_one ≡ true
        → Seen w seen
        → Step w record w {
          object = post_units notify seen 1 w.object;
          in_one = false;
          tokens = w.tokens + 1;
          posted = w.posted + 1;
        }
    all_begin :
        (seen : Sem)
        → MtxiFree w
        → Seen w seen
        → Step w record w {
          object = (wake_all_begin notify seen w.object).1;
          in_all = not ((wake_all_begin notify seen w.object).0 == 0);
          tokens = w.tokens + (wake_all_begin notify seen w.object).0;
          posted = w.posted + (wake_all_begin notify seen w.object).0;
        }
    all_end :
        (c : CallEnv) (e : Event)
        → w.in_all ≡ true
        → w.object.mrend.state ≡ true
        → reset c w.object.mrend ≡ done e
        → Step w record w { object = wake_all_end (record w.object { mrend = e }); in_all = false }

  abbrev pub fresh : (sem_clock event_clock : Bool) → World
  fresh sem_clock event_clock = record {
    object = construct sem_clock event_clock;
    blocked = 0;
    leaving = 0;
    setting = 0;
    in_one = false;
    in_all = false;
    tokens = 0;
    posted = 0;
  }

  pub data Reach (sem_clock event_clock : Bool) : World → Type 0 where
    start : Reach sem_clock event_clock (fresh sem_clock event_clock)
    next : {v w : World} → Reach sem_clock event_clock v → Step v w → Reach sem_clock event_clock w

-- The object counts the waiting threads, the event is up or about to be set exactly if `WakeAll` runs
-- and no thread is left to wait for, and while `WakeAll` runs there is a unit for each thread.
pub record Sound (w : World) : Type 0 where
  pub counted : w.object.wait_count ≡ w.blocked + w.leaving
  pub semaphore : w.object.semap ≡ units w.tokens w.object.semap.tick_clock
  pub within : w.tokens ≤ w.posted
  pub flagged : w.object.wake_all ≡ w.in_all
  pub signalled :
      weight w.object.mrend.state + w.setting ≡ weight (w.in_all && w.object.wait_count == 0)
  pub covered : w.in_all ≡ true → w.blocked ≤ w.tokens
  pub manual : w.object.mrend.manual_reset ≡ true
  pub alone : (w.in_one && w.in_all) ≡ false

abbrev pub limit : ℕ
limit = 2109876543

accepted :
    (c m : ℕ) (clock : Bool) → 0 < m → c + m ≤ limit → post_refused (units c clock) (pos m) ≡ false
unfolding post_refused
accepted c m clock h p = ground arith

module _ (notify : Notify → Code) (works : (k : Notify) → ok (notify k) ≡ true) where
  added :
      (t m : ℕ) (clock : Bool)
      → 0 < m
      → t + m ≤ limit
      → (post_locked notify (pos m) (units t clock)).1 ≡ units (t + m) clock
  unfolding post_locked
  added t m clock h q = rw (works (post_notify (pos m))) (ground arith)

  -- A `Post` of units that fit.
  pub post-units :
      (c t m : ℕ) (clock clock' : Bool)
      → 0 < m
      → c + m ≤ limit
      → t + m ≤ limit
      → (post notify (units c clock) (pos m) (units t clock')).1 ≡ units (t + m) clock'
  unfolding post
  post-units c t m clock clock' h p q = rw (accepted c m clock h p) (added t m clock' h q)

  -- The units after a `Post` in a sound world.
  posted_units :
      (v : World) (seen : Sem) (m : ℕ)
      → Sound v
      → Seen v seen
      → 0 < m
      → v.posted + m ≤ limit
      → (post notify seen (pos m) v.object.semap).1 ≡ units (v.tokens + m) v.object.semap.tick_clock
  posted_units v seen m s (c, clock, e, q) h p =
      rw (e, s.semaphore)
        (post-units c v.tokens m clock v.object.semap.tick_clock h (omega arith)
          (omega (arith, s.within)))

  take_one :
      (t : ℕ) (clock : Bool) (s : Sem)
      → t ≤ limit
      → try_wait (units t clock) ≡ (true, s)
      → (0 < t) × (s ≡ units (t - 1) clock)
  unfolding try_wait
  take_one t clock s h e = ground arith

  Step-Sound : {v w : World} → Step notify v w → w.posted ≤ limit → Sound v → Sound w
  unfolding wait_enter wait_leave wake_one_test wake_all_begin wake_all_end post_units set reset
  Step-Sound {v} (enter f) h s = ground (arith, s.covered)
  Step-Sound {v} (take t b e) h s =
      let taken =
        take_one v.tokens v.object.semap.tick_clock t (omega (arith, s.within))
          (rw (← s.semaphore) e) in
      ground (arith, s.covered, taken)
  Step-Sound {v} (time_out b) h s = ground (arith, s.covered)
  Step-Sound {v} (leave b) h s = ground (arith, s.covered)
  Step-Sound {v} (set_end c e b q) h s = ground (arith, s.covered)
  Step-Sound {v} (one_begin f) h s = ground (arith, s.covered)
  Step-Sound {v} (one_end seen b q) h s =
      ground (arith, s.covered, posted_units v seen 1 s q (omega arith) h)
  Step-Sound {v} (all_begin seen f q) h s =
      ground (arith, s.covered, posted_units v seen v.object.wait_count s q)
  Step-Sound {v} (all_end c e b u q) h s = ground (arith, s.covered)

  posted_mono : {v w : World} → Step notify v w → v.posted ≤ w.posted
  posted_mono (enter f) = omega arith
  posted_mono (take t b e) = omega arith
  posted_mono (time_out b) = omega arith
  posted_mono (leave b) = omega arith
  posted_mono (set_end c e b q) = omega arith
  posted_mono (one_begin f) = omega arith
  posted_mono (one_end seen b q) = omega arith
  posted_mono (all_begin seen f q) = omega arith
  posted_mono (all_end c e b u q) = omega arith

  -- However the threads interleave, as long as at most `MAXIMUM_COUNT` units have been posted in all
  -- and the wake-up calls of the semaphore succeed: the object counts exactly the threads that wait,
  -- the event is up or about to be set exactly if `WakeAll` runs and no thread waits any more, and
  -- while `WakeAll` runs there is a unit in the semaphore for each thread that is still blocked.
  pub Reach-Sound_condvar :
      {sem_clock event_clock : Bool} {w : World}
      → Reach notify sem_clock event_clock w
      → w.posted ≤ limit
      → Sound w
  unfolding construct
  Reach-Sound_condvar start h = ground arith
  Reach-Sound_condvar (next {v} r st) h =
      Step-Sound st h (Reach-Sound_condvar r (omega (arith, posted_mono st)))
