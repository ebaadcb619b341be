-- ===== src/Sync/Lock/Adapters.antt =====
-- The semaphore and the events (semaphore.cc, event.cc) as `ILock`, called while nobody else uses
-- them.
use prot.Prelude.{Bool, false, none, [], if◌then◌else◌}
use prot.Sync.Cond.{Code, WaitEnv, Notify}
use prot.Sync.Semaphore
use prot.Sync.Semaphore.{Sem}
use prot.Sync.Event.{Event, CallEnv, Ret, broke, waiting, done, get, try_get, free}
use prot.Sync.Lock.{
  ILock, Attempt, returns, waits, attempt, or_refuse, semaphore, auto_reset_event,
  manual_reset_event,
}

-- No clock, and nothing happens during a wait.
abbrev pub still : {S : Type 0} → WaitEnv S
still = record { monotonic = none; wall = none; wakes = []; timed_wakes = λ d. []; polls = [] }

-- `Semaphore` as an `ILock`.
unfoldable pub semaphore_lock : (Notify → Code) → ILock Sem
unfolding Semaphore.get Semaphore.try_get Semaphore.free
semaphore_lock notify = record {
  lock_type = semaphore;
  get = λ t s. attempt (Semaphore.get still s) s;
  free = λ t s. Semaphore.free notify s s;
  try_get = λ t s. or_refuse (Semaphore.try_get still s) s;
}

abbrev event_attempt : Ret (Bool × Event) → Event → Attempt Event
event_attempt broke e = waits e
event_attempt waiting e = waits e
event_attempt (done (b, e')) e = returns b e'

abbrev event_tried : Ret (Bool × Event) → Event → Bool × Event
event_tried broke e = (false, e)
event_tried waiting e = (false, e)
event_tried (done r) e = r

abbrev pub event_freed : Ret Event → Event → Event
event_freed broke e = e
event_freed waiting e = e
event_freed (done e') e = e'

-- `Event<_Type>` as an `ILock`. A call that breaks into the debugger never comes back.
unfoldable pub event_lock : CallEnv → (manual_reset : Bool) → ILock Event
unfolding get try_get free
event_lock c manual_reset = record {
  lock_type = if manual_reset then manual_reset_event else auto_reset_event;
  get = λ t e. event_attempt (get c still e) e;
  free = λ t e. event_freed (free c e) e;
  try_get = λ t e. event_tried (try_get c still e) e;
}
