-- ===== src/Sync/Semaphore/Waiting.antt =====
-- What `Wait` of the POSIX `Semaphore` does to the count, whatever the other threads do meanwhile.
use prot.Prelude.{
  ℕ, zero, suc, ◌/◌, ◌<◌, ◌≡◌, ◌≢◌, refl, subst, ◌⊎◌, inl, inr, Bool-cases, Bool, true, false,
  if◌then◌else◌, Option, none, some, List, [], ◌∷◌, arith,
}
use mathlib.Core.Option.{some-injective}
use prot.Prelude.Int.{ℤ, pos, negsuc, pos_part, ◌-ℤ◌}
use prot.Time.Unit.{TimeUnit, empty, infinitely, in_seconds}
use prot.Time.Deadline.{TimeSpec}
use prot.Sync.Cond.{AllWakes, AllStates, Shows, deadline, Wake, WaitEnv}
use prot.Sync.Semaphore.{Sem, try_wait, wait_loop, poll, timed_wait, wait, after_sleep, later}
use prot.Sync.Semaphore.Init.{IsValid}
use prot.Sync.Semaphore.Count.{sem}

-- The return of a wait whose last look at the semaphore found `u`: with success it has taken one
-- unit from a count that was positive, otherwise it has changed nothing.
abbrev pub Outcome : Sem → Bool × Sem → Type 0
Outcome u (r, s') =
    (s' ≡ (if r then record u { current = u.current -ℤ pos 1 } else u))
    × ((r ≡ false) ⊎ (0 < pos_part u.current))

module _ (P : Sem → Type 0) where
  abbrev pub Ends : Bool × Sem → Type 0
  Ends out = (u : Sem) × P u × Outcome u out

try_wait-parts : (c m : ℤ) (b : Bool) → let s = sem c m b in IsValid s → Outcome s (try_wait s)
unfolding try_wait
try_wait-parts (pos c) m b v = ground arith
try_wait-parts (negsuc c) m b v = absurd (omega arith)

pub try_wait_lem : (s : Sem) → IsValid s → Outcome s (try_wait s)
try_wait_lem s v = try_wait-parts s.current s.maximum s.tick_clock v

-- The loop takes its unit exactly as `_TryWaitSemaphore` does.
wait_loop-nil :
    (s : Sem) {r : Bool} {s' : Sem} → wait_loop s [] ≡ some (r, s') → try_wait s ≡ (r, s')
unfolding wait_loop try_wait
wait_loop-nil s e = ground arith

wait_loop-cons :
    (s : Sem) (w : Wake Sem) (ws : List (Wake Sem)) {r : Bool} {s' : Sem}
    → wait_loop s (w ∷ ws) ≡ some (r, s')
    → (try_wait s ≡ (r, s')) ⊎ (wait_loop w.seen ws ≡ some (r, s')) ⊎ ((r ≡ false) × (s' ≡ w.seen))
unfolding wait_loop try_wait
wait_loop-cons s w ws e = ground arith

poll_got :
    (n : ℕ) (s : Sem) (us : List Sem) → (try_wait s).0 ≡ true → poll (suc n) s us ≡ try_wait s
unfolding poll
poll_got n s us e = ground arith

poll_next :
    (n : ℕ) (s : Sem) (us : List Sem)
    → (try_wait s).0 ≡ false
    → poll (suc n) s us ≡ poll n (after_sleep s us) (later us)
unfolding poll
poll_next n s us e = ground arith

timed_wait-none :
    (env : WaitEnv Sem) (t : TimeUnit) (s : Sem) {out : Bool × Sem}
    → timed_wait none env t s ≡ some out
    → poll (pos_part (in_seconds t)) s env.polls ≡ out
unfolding timed_wait
timed_wait-none env t s e = some-injective {A = Bool × Sem} _ _ e

module _ (P : Sem → Type 0) (sound : (u : Sem) → P u → IsValid u) where
  wait_loop-Ends :
      (s : Sem) (ws : List (Wake Sem)) {r : Bool} {s' : Sem}
      → P s
      → AllWakes P ws
      → wait_loop s ws ≡ some (r, s')
      → Ends P (r, s')
  wait_loop-Ends s [] p all e =
      (s, p, subst (Outcome s) (wait_loop-nil s e) (try_wait_lem s (sound s p)))
  wait_loop-Ends s (w ∷ ws) {r} {s'} p all e =
      onward (wait_loop-Ends w.seen ws all.0 all.1) (wait_loop-cons s w ws e)
    where
      onward :
          (wait_loop w.seen ws ≡ some (r, s') → Ends P (r, s'))
          → (try_wait s ≡ (r, s'))
            ⊎ (wait_loop w.seen ws ≡ some (r, s'))
            ⊎ ((r ≡ false) × (s' ≡ w.seen))
          → Ends P (r, s')
      onward ih (inl q) = (s, p, subst (Outcome s) q (try_wait_lem s (sound s p)))
      onward ih (inr (inl q)) = ih q
      onward ih (inr (inr q)) = (w.seen, all.0, rw (q.0, q.1) (refl, inl refl))

  after_sleep-P : (s : Sem) (us : List Sem) → P s → AllStates P us → P (after_sleep s us)
  after_sleep-P s [] p all = p
  after_sleep-P s (u ∷ us) p all = all.0

  later-AllStates : (us : List Sem) → AllStates P us → AllStates P (later us)
  later-AllStates [] all = tt
  later-AllStates (u ∷ us) all = all.1

  poll-Ends : (n : ℕ) (s : Sem) (us : List Sem) → P s → AllStates P us → Ends P (poll n s us)
  poll-Ends zero s us p all = unfold poll in (s, p, (refl, inl refl))
  poll-Ends (suc n) s us p all = elim (Bool-cases (try_wait s).0) [
    | inl t ↦ rw (poll_got n s us t) (s, p, try_wait_lem s (sound s p))
    | inr f ↦ rw (poll_next n s us f) (
        poll-Ends n (after_sleep s us) (later us) (after_sleep-P s us p all)
          (later-AllStates us all))
  ]

  timed_wait-Ends :
      (d : Option TimeSpec) (env : WaitEnv Sem) (t : TimeUnit) (s : Sem) {r : Bool} {s' : Sem}
      → P s
      → Shows P env
      → timed_wait d env t s ≡ some (r, s')
      → Ends P (r, s')
  timed_wait-Ends none env t s p h e =
      subst (Ends P) (timed_wait-none env t s e)
        (poll-Ends (pos_part (in_seconds t)) s env.polls p h.polls)
  timed_wait-Ends (some d) env t s p h e =
      wait_loop-Ends s (env.timed_wakes d) p (h.timed d) (unfold timed_wait in e)

  -- `Wait` with any duration, on any of its paths: when it returns, there is a state `u` of the
  -- semaphore, one that it found itself, from which it has taken exactly one unit if it returns
  -- true, and from which it has changed nothing if it returns false.
  pub wait-Ends :
      (env : WaitEnv Sem) (t : TimeUnit) (s : Sem) {r : Bool} {s' : Sem}
      → P s
      → Shows P env
      → wait env t s ≡ some (r, s')
      → Ends P (r, s')
  unfolding wait
  wait-Ends env t s p h e = elim (Bool-cases (empty t)) [
    | inl y ↦
        subst (Ends P) (some-injective {A = Bool × Sem} _ _ (rw y at e))
          (s, p, try_wait_lem s (sound s p))
    | inr n ↦ elim (Bool-cases (infinitely t)) [
      | inl y ↦ wait_loop-Ends s env.wakes p h.wakes (rw (n, y) at e)
      | inr m ↦ timed_wait-Ends (deadline s.tick_clock env t) env t s p h (rw (n, m) at e)
    ]
  ]

wait_loop-pos :
    (s : Sem) (ws : List (Wake Sem))
    → 0 < pos_part s.current
    → wait_loop s ws ≡ some (true, (try_wait s).1)
unfolding wait_loop try_wait
wait_loop-pos s [] h = ground arith
wait_loop-pos s (w ∷ ws) h = ground arith

timed_wait-pos :
    (d : Option TimeSpec) (env : WaitEnv Sem) (t : TimeUnit) (s : Sem)
    → d ≢ none
    → 0 < pos_part s.current
    → timed_wait d env t s ≡ some (true, (try_wait s).1)
unfolding timed_wait
timed_wait-pos none env t s n h = absurd (n refl)
timed_wait-pos (some d) env t s n h = wait_loop-pos s (env.timed_wakes d) h

try_wait-pos : (s : Sem) → 0 < pos_part s.current → try_wait s ≡ (true, (try_wait s).1)
unfolding try_wait
try_wait-pos s h = ground arith

div-eq_zero : (u : ℕ) → u < 10000000 → u / 10000000 ≡ 0
div-eq_zero u h = omega arith

taken-parts :
    (c m : ℤ) (b : Bool)
    → let s = sem c m b in
      IsValid s → 0 < pos_part c → (try_wait s).1 ≡ record s { current = c -ℤ pos 1 }
unfolding try_wait
taken-parts (pos c) m b v h = ground arith
taken-parts (negsuc c) m b v h = absurd (omega arith)

-- A positive count is taken at once, without a wait, for any duration, if the clock of the
-- semaphore answers.
pub wait_at_once :
    (env : WaitEnv Sem) (t : TimeUnit) (s : Sem)
    → IsValid s
    → 0 < pos_part s.current
    → deadline s.tick_clock env t ≢ none
    → (s' : Sem) × (wait env t s ≡ some (true, s'))
      × (s' ≡ record s { current = s.current -ℤ pos 1 })
unfolding wait
wait_at_once env t s v h n = (
  (try_wait s).1,
  ground (
    arith,
    try_wait-pos s h,
    wait_loop-pos s env.wakes h,
    timed_wait-pos (deadline s.tick_clock env t) env t s n h,
  ),
  taken-parts s.current s.maximum s.tick_clock v h,
)

timed_wait_short :
    (env : WaitEnv Sem) (u : ℕ) (s : Sem)
    → u < 10000000
    → timed_wait none env (record { utc = pos u }) s ≡ some (false, s)
unfolding timed_wait in_seconds poll
timed_wait_short env u s h = rw (div-eq_zero u h)

-- If the clock fails and the duration is positive but shorter than a second, `Wait` makes no attempt
-- at all: it returns false whatever the count is.
pub wait_without_clock :
    (env : WaitEnv Sem) (u : ℕ) (s : Sem)
    → 0 < u
    → u < 10000000
    → deadline s.tick_clock env (record { utc = pos u }) ≡ none
    → wait env (record { utc = pos u }) s ≡ some (false, s)
unfolding wait empty infinitely
wait_without_clock env u s h k e = rw e (ground (arith, timed_wait_short env u s k))
