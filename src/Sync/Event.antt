-- ===== src/Sync/Event.antt =====
-- system/synchronization/event.cc and event.hh, the POSIX `IEvent` and `Event<_Type>`: a flag under
-- a mutex with a condition variable.
pub mod Init
pub mod Waiting
pub mod System
mod Tests
use prot.Prelude.{
  ℕ, Bool, true, false, not, ◌&&◌, ◌==◌, if◌then◌else◌, Option, none, some, List, [], ◌∷◌,
}
use prot.Time.Unit.{TimeUnit, empty, infinitely, infinite, zero_time}
use prot.Time.Deadline.{TimeSpec}
use prot.Sync.Cond.{
  Code, ok, timed_out, Wake, WaitEnv, Notify, signal, broadcast, deadline, Call, acquire, release,
  memory, cond_attr, cond, mutex,
}

-- `EVENT_DATA` without the two pthread objects; the first two fields are the bits EDFLAG_MANURESET
-- and EDFLAG_TICKCLOCK of `flag`.
pub record Event : Type 0 where
  pub manual_reset : Bool
  pub tick_clock : Bool
  pub state : Bool

pub data EventType : Type 0 where
  auto manual : EventType

-- What the calls of the system return while an event is made.
pub record InitEnv : Type 0 where
  pub memory_ok : Bool
  pub mutex_init : Code
  pub set_clock : Code
  pub cond_init : Code

abbrev is_manual : EventType → Bool
is_manual auto = false
is_manual manual = true

-- `IEvent::IEvent`, with the calls that took or gave back something.
unfoldable pub construct : InitEnv → EventType → (init_state : Bool) → Option Event × List Call
construct env event_type init_state =
    if not env.memory_ok
    then (none, [])
    else if not (ok env.mutex_init)
    then (none, acquire memory ∷ release memory ∷ [])
    else if ok env.cond_init
    then (
      some (record {
        manual_reset = is_manual event_type;
        tick_clock = ok env.set_clock;
        state = init_state;
      }),
      acquire memory ∷ acquire mutex ∷ acquire cond_attr ∷ acquire cond ∷ release cond_attr ∷ [],
    )
    else (
      none,
      acquire memory
          ∷ acquire mutex
          ∷ acquire cond_attr
          ∷ release cond_attr
          ∷ release mutex
          ∷ release memory
          ∷ [],
    )

-- `IEvent::~IEvent`
unfoldable pub destroy : Option Event → List Call
destroy none = []
destroy (some e) = release cond ∷ release mutex ∷ release memory ∷ []

-- What the calls on the mutex and the condition variable return; a failure is a `Debug::Break`.
pub record CallEnv : Type 0 where
  pub lock : Code
  pub notify : Notify → Code
  pub unlock : Code

-- How a call ends: it breaks into the debugger, it still waits when the given returns of the
-- condition variable are used up, or it returns.
pub data Ret {ℓ} (A : Type ℓ) : Type ℓ where
  broke : Ret A
  waiting : Ret A
  done : A → Ret A

-- `IEvent::Set`
unfoldable pub set : CallEnv → Event → Ret Event
set c e =
    if ok c.lock && ok (c.notify (if e.manual_reset then broadcast else signal)) && ok c.unlock
    then done (record e { state = true })
    else broke

-- `IEvent::Reset`
unfoldable pub reset : CallEnv → Event → Ret Event
reset c e = if ok c.lock && ok c.unlock then done (record e { state = false }) else broke

-- The end of `Wait`: the automatic reset, and the unlock.
unfoldable pub finish : CallEnv → (stat_ok : Bool) → Event → Ret (Bool × Event)
finish c stat_ok e =
    if ok c.unlock
    then done (stat_ok, (if stat_ok && not e.manual_reset then record e { state = false } else e))
    else broke

-- The loop for an infinite duration, up to the return; an error of the wait returns at once.
unfoldable pub infinite_loop : CallEnv → Event → List (Wake Event) → Ret (Bool × Event)
unfolding finish
infinite_loop c e [] = if e.state then finish c true e else waiting
infinite_loop c e (w ∷ ws) =
    let rest = infinite_loop c w.seen ws in
    if e.state then finish c true e else if ok w.code then rest else done (false, w.seen)

-- The loop with a deadline.
unfoldable pub timed_loop : CallEnv → Event → List (Wake Event) → Ret (Bool × Event)
unfolding finish
timed_loop c e [] = if e.state then finish c true e else waiting
timed_loop c e (w ∷ ws) =
    let rest = timed_loop c w.seen ws in
    if e.state
    then finish c true e
    else if w.code == timed_out
    then finish c w.seen.state w.seen
    else if ok w.code
    then rest
    else done (false, w.seen)

-- The branch for any other duration; without a clock reading the state is not looked at.
unfoldable pub timed_wait : Option TimeSpec → CallEnv → WaitEnv Event → Event → Ret (Bool × Event)
unfolding finish
timed_wait none c env e = finish c false e
timed_wait (some d) c env e = timed_loop c e (env.timed_wakes d)

-- `IEvent::Wait`
unfoldable pub wait : CallEnv → WaitEnv Event → TimeUnit → Event → Ret (Bool × Event)
wait c env t e =
    if not (ok c.lock)
    then broke
    else if empty t
    then finish c e.state e
    else if infinitely t
    then infinite_loop c e env.wakes
    else timed_wait (deadline e.tick_clock env t) c env e

-- `IEvent::Get`, `IEvent::TryGet` and `IEvent::Free`
unfoldable pub get : CallEnv → WaitEnv Event → Event → Ret (Bool × Event)
unfolding wait
get c env e = wait c env infinite e

unfoldable pub try_get : CallEnv → WaitEnv Event → Event → Ret (Bool × Event)
unfolding wait
try_get c env e = wait c env zero_time e

unfoldable pub free : CallEnv → Event → Ret Event
unfolding set
free c e = set c e
