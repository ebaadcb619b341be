-- ===== src/Sync/CondVar/WakeAll.antt =====
-- `ConditionVariable::WakeAll` comes back: its wait is never in vain, and it ends.
use prot.Prelude.{
  ℕ, ◌+◌, ◌*◌, ◌≤◌, ◌<◌, ◌≡◌, ◌⊎◌, inl, inr, Bool-cases, Bool, true, false, ◌==◌, arith,
}
use prot.Sync.Cond.{ok, Code, Notify}
use prot.Sync.Semaphore.{try_wait}
use prot.Sync.CondVar.{wait_leave, wake_all_end}
use prot.Sync.CondVar.System.{
  World, Step, enter, take, time_out, leave, set_end, one_begin, one_end, all_begin, all_end, Reach,
  Sound, Reach-Sound_condvar, units, limit,
}

-- How much the waiting threads still have to do.
abbrev pub pending : World → ℕ
pending w = 3 * w.blocked + 2 * w.leaving + w.setting

can_take : (t : ℕ) (clock : Bool) → 0 < t → t ≤ limit → (try_wait (units t clock)).0 ≡ true
unfolding try_wait
can_take t clock h k = ground arith

some_pending :
    (w : World)
    → Sound w
    → w.posted ≤ limit
    → w.in_all ≡ true
    → (w.object.mrend.state ≡ true)
      ⊎ (0 < w.setting)
      ⊎ (0 < w.leaving)
      ⊎ ((0 < w.blocked) × ((try_wait w.object.semap).0 ≡ true))
some_pending w s h a = elim (Bool-cases (w.blocked == 0)) [
  | inl z ↦ ground (arith, s.covered)
  | inr p ↦
      let le = s.covered a in
      inr (
        inr (
          inr (
            ground arith,
            rw s.semaphore (
                can_take w.tokens w.object.semap.tick_clock (ground arith)
                  (omega (arith, s.within))),
          )))
]

module _ (notify : Notify → Code) (works : (k : Notify) → ok (notify k) ≡ true) where
  less_pending :
      {v w : World}
      → Step notify v w
      → Sound v
      → v.in_all ≡ true
      → ((w.in_all ≡ true) × (pending w < pending v))
        ⊎ ((w.in_all ≡ false) × (w.blocked + w.leaving ≡ 0))
  unfolding wait_leave wake_all_end
  less_pending (enter f) s a = ground arith
  less_pending (take t b e) s a = ground arith
  less_pending (time_out b) s a = ground arith
  less_pending (leave b) s a = ground arith
  less_pending (set_end c e b q) s a = ground arith
  less_pending (one_begin f) s a = ground arith
  less_pending (one_end seen b q) s a = ground (arith, s.alone)
  less_pending (all_begin seen f q) s a = ground arith
  less_pending (all_end c e b u q) s a = ground (arith, s.signalled, s.counted)

  -- While a thread is in `WakeAll`, the event that it waits for is up, or some thread can go on: to
  -- set the event, to count itself out, or to take a unit from the semaphore. (Under the conditions
  -- of the invariant.)
  pub wake_all_progress :
      {sem_clock event_clock : Bool} {w : World}
      → Reach notify sem_clock event_clock w
      → w.posted ≤ limit
      → w.in_all ≡ true
      → (w.object.mrend.state ≡ true)
        ⊎ (0 < w.setting)
        ⊎ (0 < w.leaving)
        ⊎ ((0 < w.blocked) × ((try_wait w.object.semap).0 ≡ true))
  wake_all_progress {w} r h a = some_pending w (Reach-Sound_condvar notify works r h) h a

  -- Every step of another thread during `WakeAll` leaves less to do, so `WakeAll` ends after at most
  -- `pending` of them, three for each waiting thread; no new wait and no other wake-up comes between.
  pub wake_all_terminates :
      {sem_clock event_clock : Bool} {v w : World}
      → Reach notify sem_clock event_clock v
      → v.posted ≤ limit
      → v.in_all ≡ true
      → Step notify v w
      → ((w.in_all ≡ true) × (pending w < pending v))
        ⊎ ((w.in_all ≡ false) × (w.blocked + w.leaving ≡ 0))
  wake_all_terminates r h a st = less_pending st (Reach-Sound_condvar notify works r h) a
