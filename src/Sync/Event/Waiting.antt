-- ===== src/Sync/Event/Waiting.antt =====
-- What `Wait` of the POSIX `IEvent` does to the flag, whatever the other threads do meanwhile.
use prot.Prelude.{
  ◌≡◌, ◌≢◌, refl, ◌⊎◌, inl, inr, Bool, true, false, not, ◌&&◌, if◌then◌else◌, Option, none, some,
  List, [], ◌∷◌, arith,
}
use prot.Time.Unit.{TimeUnit, empty, infinitely}
use prot.Time.Deadline.{TimeSpec}
use prot.Sync.Cond.{Wake, WaitEnv, deadline, AllWakes, Shows}
use prot.Sync.Event.{Event, CallEnv, done, finish, infinite_loop, timed_loop, timed_wait, wait, set}

-- The return of a wait whose last look at the event found `u`: it returns true only if the flag was
-- up, and then an event of automatic reset has its flag taken down; nothing else has changed.
abbrev pub Outcome : Event → Bool × Event → Type 0
Outcome u (r, e') =
    (e' ≡ (if r && not u.manual_reset then record u { state = false } else u))
    × ((r ≡ false) ⊎ (u.state ≡ true))

finish-Outcome :
    (c : CallEnv) (b : Bool) (e : Event) {out : Bool × Event}
    → (b ≡ false) ⊎ (e.state ≡ true)
    → finish c b e ≡ done out
    → Outcome e out
unfolding finish
finish-Outcome c b e h q = ground arith

infinite_loop-nil :
    (c : CallEnv) (e : Event) {out : Bool × Event}
    → infinite_loop c e [] ≡ done out
    → (e.state ≡ true) × (finish c true e ≡ done out)
unfolding infinite_loop
infinite_loop-nil c e q = ground arith

infinite_loop-cons :
    (c : CallEnv) (e : Event) (w : Wake Event) (ws : List (Wake Event)) {out : Bool × Event}
    → infinite_loop c e (w ∷ ws) ≡ done out
    → ((e.state ≡ true) × (finish c true e ≡ done out))
      ⊎ (infinite_loop c w.seen ws ≡ done out)
      ⊎ (out ≡ (false, w.seen))
unfolding infinite_loop
infinite_loop-cons c e w ws q = ground arith

timed_loop-cons :
    (c : CallEnv) (e : Event) (w : Wake Event) (ws : List (Wake Event)) {out : Bool × Event}
    → timed_loop c e (w ∷ ws) ≡ done out
    → ((e.state ≡ true) × (finish c true e ≡ done out))
      ⊎ (timed_loop c w.seen ws ≡ done out)
      ⊎ (out ≡ (false, w.seen))
      ⊎ (finish c w.seen.state w.seen ≡ done out)
unfolding timed_loop
timed_loop-cons c e w ws q = ground arith

timed_loop-nil :
    (c : CallEnv) (e : Event) {out : Bool × Event}
    → timed_loop c e [] ≡ done out
    → (e.state ≡ true) × (finish c true e ≡ done out)
unfolding timed_loop
timed_loop-nil c e q = ground arith

wait-cases :
    (c : CallEnv) (env : WaitEnv Event) (t : TimeUnit) (e : Event) {out : Bool × Event}
    → wait c env t e ≡ done out
    → (finish c e.state e ≡ done out)
      ⊎ (infinite_loop c e env.wakes ≡ done out)
      ⊎ (timed_wait (deadline e.tick_clock env t) c env e ≡ done out)
unfolding wait
wait-cases c env t e q = ground arith

at_flag : (u : Event) → (u.state ≡ false) ⊎ (u.state ≡ true)
at_flag u = ground arith

module _ (P : Event → Type 0) where
  abbrev pub Ends : Bool × Event → Type 0
  Ends out = (u : Event) × P u × Outcome u out

  up :
      (c : CallEnv) (e : Event) {out : Bool × Event}
      → P e
      → (e.state ≡ true) × (finish c true e ≡ done out)
      → Ends out
  up c e p q = (e, p, finish-Outcome c true e (inr q.0) q.1)

  error : (u : Event) {out : Bool × Event} → P u → out ≡ (false, u) → Ends out
  error u p q = rw q (u, p, (refl, inl refl))

  infinite_loop-Ends :
      (c : CallEnv) (e : Event) (ws : List (Wake Event)) {out : Bool × Event}
      → P e
      → AllWakes P ws
      → infinite_loop c e ws ≡ done out
      → Ends out
  infinite_loop-Ends c e [] p all q = up c e p (infinite_loop-nil c e q)
  infinite_loop-Ends c e (w ∷ ws) p all q = elim (infinite_loop-cons c e w ws q) [
    | inl a ↦ up c e p a
    | inr (inl a) ↦ infinite_loop-Ends c w.seen ws all.0 all.1 a
    | inr (inr a) ↦ error w.seen all.0 a
  ]

  timed_loop-Ends :
      (c : CallEnv) (e : Event) (ws : List (Wake Event)) {out : Bool × Event}
      → P e
      → AllWakes P ws
      → timed_loop c e ws ≡ done out
      → Ends out
  timed_loop-Ends c e [] p all q = up c e p (timed_loop-nil c e q)
  timed_loop-Ends c e (w ∷ ws) p all q = elim (timed_loop-cons c e w ws q) [
    | inl a ↦ up c e p a
    | inr (inl a) ↦ timed_loop-Ends c w.seen ws all.0 all.1 a
    | inr (inr (inl a)) ↦ error w.seen all.0 a
    | inr (inr (inr a)) ↦ (w.seen, all.0, finish-Outcome c w.seen.state w.seen (at_flag w.seen) a)
  ]

  timed_wait-Outcome :
      (d : Option TimeSpec) (c : CallEnv) (env : WaitEnv Event) (e : Event) {out : Bool × Event}
      → P e
      → Shows P env
      → timed_wait d c env e ≡ done out
      → Ends out
  unfolding timed_wait
  timed_wait-Outcome none c env e p h q = (e, p, finish-Outcome c false e (inl refl) q)
  timed_wait-Outcome (some d) c env e p h q =
      timed_loop-Ends c e (env.timed_wakes d) p (h.timed d) q

  -- `Wait` with any duration, on any of its paths: when it returns, there is a state `u` of the
  -- event, one that it found itself, from which it goes: it returns true only if the flag was up in
  -- `u`, and takes it down if the event resets itself; it changes nothing else, and nothing at all
  -- if it returns false.
  pub wait-Outcome :
      (c : CallEnv) (env : WaitEnv Event) (t : TimeUnit) (e : Event) {out : Bool × Event}
      → P e
      → Shows P env
      → wait c env t e ≡ done out
      → Ends out
  wait-Outcome c env t e p h q = elim (wait-cases c env t e q) [
    | inl a ↦ (e, p, finish-Outcome c e.state e (at_flag e) a)
    | inr (inl a) ↦ infinite_loop-Ends c e env.wakes p h.wakes a
    | inr (inr a) ↦ timed_wait-Outcome (deadline e.tick_clock env t) c env e p h a
  ]

-- What an event is after a successful wait that found its flag up.
abbrev pub taken : Event → Event
taken e = if e.manual_reset then e else record e { state = false }

finish-up : (c : CallEnv) (e : Event) → c.unlock ≡ 0 → finish c true e ≡ done (true, taken e)
unfolding finish
finish-up c e h = ground arith

infinite_loop-up :
    (c : CallEnv) (e : Event) (ws : List (Wake Event))
    → e.state ≡ true
    → infinite_loop c e ws ≡ finish c true e
unfolding infinite_loop
infinite_loop-up c e [] h = ground arith
infinite_loop-up c e (w ∷ ws) h = ground arith

timed_loop-up :
    (c : CallEnv) (e : Event) (ws : List (Wake Event))
    → e.state ≡ true
    → timed_loop c e ws ≡ finish c true e
unfolding timed_loop
timed_loop-up c e [] h = ground arith
timed_loop-up c e (w ∷ ws) h = ground arith

timed_wait-up :
    (d : Option TimeSpec) (c : CallEnv) (env : WaitEnv Event) (e : Event)
    → d ≢ none
    → e.state ≡ true
    → timed_wait d c env e ≡ finish c true e
unfolding timed_wait
timed_wait-up none c env e n h = absurd (n refl)
timed_wait-up (some d) c env e n h = timed_loop-up c e (env.timed_wakes d) h

set_parts :
    (c : CallEnv) (e : Event) {e' : Event}
    → set c e ≡ done e'
    → (c.lock ≡ 0) × (c.unlock ≡ 0) × (e' ≡ record e { state = true })
unfolding set
set_parts c e q = ground arith

-- A wait that finds the flag up returns at once.
pub wait-up :
    (c : CallEnv) (env : WaitEnv Event) (t : TimeUnit) (e : Event)
    → c.lock ≡ 0
    → c.unlock ≡ 0
    → e.state ≡ true
    → deadline e.tick_clock env t ≢ none
    → wait c env t e ≡ done (true, taken e)
unfolding wait
wait-up c env t e l u h n = ground (
  arith,
  finish-up c e u,
  infinite_loop-up c e env.wakes h,
  timed_wait-up (deadline e.tick_clock env t) c env e n h,
)

-- `Set`, then `Wait` with any duration and no other thread between: the wait succeeds at once, if the
-- mutex works and the clock of the event answers; an event of automatic reset is down afterwards,
-- one of manual reset stays up.
pub wait-set :
    (c : CallEnv) (env : WaitEnv Event) (t : TimeUnit) (e : Event) {e' : Event}
    → set c e ≡ done e'
    → deadline e.tick_clock env t ≢ none
    → wait c env t e' ≡ done (true, record e { state = e.manual_reset })
wait-set c env t e q n =
    let (l, u, p) = set_parts c e q in
    rw (p, wait-up c env t (record e { state = true }) l u refl n) (ground arith)

-- If the clock fails, a wait that is neither empty nor infinite returns false though the flag is up,
-- and leaves the event alone.
pub wait_with_no_clock :
    (c : CallEnv) (env : WaitEnv Event) (t : TimeUnit) (e : Event)
    → c.lock ≡ 0
    → c.unlock ≡ 0
    → empty t ≡ false
    → infinitely t ≡ false
    → deadline e.tick_clock env t ≡ none
    → wait c env t e ≡ done (false, e)
unfolding wait timed_wait finish
wait_with_no_clock c env t e l u m i d = rw (m, i, d) (ground arith)
