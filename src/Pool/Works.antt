-- ===== src/Pool/Works.antt =====
-- The calls of a `PoolThread` on its two events (system/synchronization/event.cc) when those succeed.
use prot.Prelude.{◌≡◌, true, false, if◌then◌else◌, [], arith}
use prot.Sync.Cond.{ok, Notify, signal, broadcast}
use prot.Sync.Event.{Event, CallEnv, done, set, reset, infinite_loop}

-- The calls on the mutex and the condition variable of an event succeed.
pub record Works (c : CallEnv) : Type 0 where
  pub locks : ok c.lock ≡ true
  pub unlocks : ok c.unlock ≡ true
  pub notifies : (n : Notify) → ok (c.notify n) ≡ true

pub set_done : {c : CallEnv} → Works c → (e : Event) → set c e ≡ done (record e { state = true })
unfolding set
set_done {c} k e = ground (arith, k, k.notifies (if e.manual_reset then broadcast else signal))

pub reset_done :
    {c : CallEnv} → Works c → (e : Event) → reset c e ≡ done (record e { state = false })
unfolding reset
reset_done {c} k e = ground (arith, k)

pub wait_done :
    {c : CallEnv}
    → Works c
    → (e : Event) → e.state ≡ true
    → e.manual_reset ≡ true
    → infinite_loop c e [] ≡ done (true, e)
unfolding infinite_loop
wait_done {c} k e up m = ground (arith, k, up, m)
