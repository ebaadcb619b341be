-- ===== src/Sync/Event/System.antt =====
-- Any number of threads at one POSIX `IEvent`: each step is one critical section of its mutex, in
-- any order. Of a `Wait` that is one look at the flag, with what follows up to the unlock.
use prot.Prelude.{ℕ, ◌+◌, ◌≤◌, ◌≡◌, Bool, false, if◌then◌else◌, some, arith}
use prot.Sync.Event.{Event, auto, InitEnv, construct, CallEnv, done, set, reset, finish}

-- The event, and how many calls so far have set it and have waited with success.
pub record System : Type 0 where
  pub event : Event
  pub sets : ℕ
  pub waits : ℕ

pub data Step (g : System) : System → Type 0 where
  set_step :
      (c : CallEnv) (e : Event)
      → set c g.event ≡ done e
      → Step g (record { event = e; sets = g.sets + 1; waits = g.waits })
  reset_step :
      (c : CallEnv) (e : Event)
      → reset c g.event ≡ done e
      → Step g (record { event = e; sets = g.sets; waits = g.waits })
  wait_step :
      (c : CallEnv) (r : Bool) (e : Event)
      → finish c g.event.state g.event ≡ done (r, e)
      → Step g (record { event = e; sets = g.sets; waits = if r then g.waits + 1 else g.waits })

pub data Reach (e : Event) : System → Type 0 where
  start : Reach e (record { event = e; sets = 0; waits = 0 })
  next : {g h : System} → Reach e g → Step g h → Reach e h

abbrev pub weight : Bool → ℕ
weight b = if b then 1 else 0

-- An event of automatic reset pays for each successful wait with one call of `Set`.
pub record Paid (initial : Bool) (g : System) : Type 0 where
  pub automatic : g.event.manual_reset ≡ false
  pub paid : weight g.event.state + g.waits ≤ weight initial + g.sets

Step-Paid : {i : Bool} {g h : System} → Step g h → Paid i g → Paid i h
unfolding set reset finish
Step-Paid {i} {g} (set_step c e q) p = ground arith
Step-Paid {i} {g} (reset_step c e q) p = ground arith
Step-Paid {i} {g} (wait_step c r e q) p = ground arith

-- From an event of automatic reset as the constructor makes it, after any number of calls by any
-- threads, however they interleave: no more waits have succeeded than there were calls of `Set`,
-- plus one if the event began with its flag up; if the flag is up now, one less.
pub Reach-Paid :
    (env : InitEnv) (init_state : Bool) {e : Event} {g : System}
    → (construct env auto init_state).0 ≡ some e
    → Reach e g
    → Paid init_state g
unfolding construct
Reach-Paid env i q start = ground arith
Reach-Paid env i q (next r st) = Step-Paid st (Reach-Paid env i q r)
