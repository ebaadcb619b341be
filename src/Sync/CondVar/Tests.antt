-- ===== src/Sync/CondVar/Tests.antt =====
-- The theorems about `ConditionVariable` at concrete inputs: a thread waits, and another one calls
-- `WakeAll`.
use prot.Prelude.{◌+◌, ◌-◌, ◌<◌, ◌≤◌, ◌≡◌, refl, ◌⊎◌, true, false, not, ◌==◌, arith}
use prot.Sync.Cond.{Code, ok, Notify}
use prot.Sync.Semaphore.{try_wait}
use prot.Sync.CondVar.{construct, wait_enter, wake_all_begin}
use prot.Sync.CondVar.System.{
  World, enter, time_out, all_begin, Reach, start, next, fresh, units, Sound, Reach-Sound_condvar,
  limit,
}
use prot.Sync.CondVar.WakeAll.{pending, wake_all_progress, wake_all_terminates}

abbrev calls_work : Notify → Code
calls_work _ = 0

calls_work-ok : (k : Notify) → ok (calls_work k) ≡ true
calls_work-ok k = refl

abbrev one_waiter : World
one_waiter = record (fresh calls_work true true) {
  object = wait_enter (construct true true);
  blocked = 0 + 1;
}

abbrev woken : World
woken = record one_waiter {
  object = (wake_all_begin calls_work (units 0 true) one_waiter.object).1;
  in_all = not ((wake_all_begin calls_work (units 0 true) one_waiter.object).0 == 0);
  tokens = 0 + (wake_all_begin calls_work (units 0 true) one_waiter.object).0;
  posted = 0 + (wake_all_begin calls_work (units 0 true) one_waiter.object).0;
}

woken-Reach : Reach calls_work true true woken
woken-Reach =
    next (next start (enter refl)) (all_begin (units 0 true) refl (0, true, refl, omega arith))

posted_one : woken.posted ≤ limit
unfolding wake_all_begin wait_enter construct
posted_one = omega arith

woken-in_all : woken.in_all ≡ true
unfolding wake_all_begin wait_enter construct
woken-in_all = refl

Reach-Sound_condvar_example : Sound woken
Reach-Sound_condvar_example = Reach-Sound_condvar calls_work calls_work-ok woken-Reach posted_one

wake_all_progress_example :
    (woken.object.mrend.state ≡ true)
    ⊎ (0 < woken.setting)
    ⊎ (0 < woken.leaving)
    ⊎ ((0 < woken.blocked) × ((try_wait woken.object.semap).0 ≡ true))
wake_all_progress_example =
    wake_all_progress calls_work calls_work-ok woken-Reach posted_one woken-in_all

abbrev gone : World
gone = record woken { blocked = woken.blocked - 1; leaving = woken.leaving + 1 }

wake_all_terminates_example :
    ((gone.in_all ≡ true) × (pending gone < pending woken))
    ⊎ ((gone.in_all ≡ false) × (gone.blocked + gone.leaving ≡ 0))
wake_all_terminates_example =
    wake_all_terminates calls_work calls_work-ok woken-Reach posted_one woken-in_all
      (time_out (omega arith))
