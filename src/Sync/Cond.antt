-- ===== src/Sync/Cond.antt =====
-- What the synchronization objects use of POSIX: return codes, and the returns of
-- `pthread_cond_wait` and `pthread_cond_timedwait`, which the environment chooses.
use prot.Prelude.{ℕ, ◌+◌, ◌-◌, ◌==◌, Bool, true, false, Option, none, some, List, [], ◌∷◌}
use prot.Time.Unit.{TimeUnit}
use prot.Time.Deadline.{TimeSpec, TimeVal, tick_deadline, wall_deadline}

-- A call returns 0 or an error number.
abbrev pub Code : Type 0
Code = ℕ

abbrev pub ok : Code → Bool
ok rc = rc == 0

-- `ETIMEDOUT` of Linux.
abbrev pub timed_out : Code
timed_out = 110

-- One return of a wait: its code, and the object as the other threads have left it by the time that
-- the mutex is held again. A spurious wake-up is one more return with code 0.
pub record Wake {ℓ} (S : Type ℓ) : Type ℓ where
  pub code : Code
  pub seen : S

-- Which wake-up call is made.
pub data Notify : Type 0 where
  signal broadcast : Notify

-- What one call of a `Wait` meets: the two clocks (`none` if the call fails), the returns of the
-- untimed wait, those of a wait with a deadline, and the states that a polling loop finds.
pub record WaitEnv {ℓ} (S : Type ℓ) : Type ℓ where
  pub monotonic : Option TimeSpec
  pub wall : Option TimeVal
  pub wakes : List (Wake S)
  pub timed_wakes : TimeSpec → List (Wake S)
  pub polls : List S

-- The deadline of a wait by the clock that the object's flag names, `none` if that clock fails.
unfoldable pub deadline {ℓ} : {S : Type ℓ} → Bool → WaitEnv S → TimeUnit → Option TimeSpec
deadline true env t = elim env.monotonic [ none ↦ none | some ts ↦ some (tick_deadline ts t) ]
deadline false env t = elim env.wall [ none ↦ none | some tv ↦ some (wall_deadline tv t) ]

-- What the constructors acquire and the destructors give back.
pub data Resource : Type 0 where
  memory cond_attr cond mutex : Resource

pub data Call : Type 0 where
  acquire release : Resource → Call

-- How many of each are held after some calls.
pub record Held : Type 0 where
  pub memories : ℕ
  pub cond_attrs : ℕ
  pub conds : ℕ
  pub mutexes : ℕ

abbrev step : Held → Call → Held
step h (acquire memory) = record h { memories = h.memories + 1 }
step h (acquire cond_attr) = record h { cond_attrs = h.cond_attrs + 1 }
step h (acquire cond) = record h { conds = h.conds + 1 }
step h (acquire mutex) = record h { mutexes = h.mutexes + 1 }
step h (release memory) = record h { memories = h.memories - 1 }
step h (release cond_attr) = record h { cond_attrs = h.cond_attrs - 1 }
step h (release cond) = record h { conds = h.conds - 1 }
step h (release mutex) = record h { mutexes = h.mutexes - 1 }

abbrev pub held : Held → List Call → Held
held h [] = h
held h (c ∷ cs) = held (step h c) cs

abbrev pub nothing : Held
nothing = record { memories = 0; cond_attrs = 0; conds = 0; mutexes = 0 }

-- Every state that the other threads show to the waiting one is in `P`.
module _ {S : Type 0} (P : S → Type 0) where
  abbrev pub AllWakes : List (Wake S) → Type 0
  AllWakes [] = Unit
  AllWakes (w ∷ ws) = P w.seen × AllWakes ws

  abbrev pub AllStates : List S → Type 0
  AllStates [] = Unit
  AllStates (u ∷ us) = P u × AllStates us

  pub record Shows (env : WaitEnv S) : Type 0 where
    pub wakes : AllWakes env.wakes
    pub timed : (d : TimeSpec) → AllWakes (env.timed_wakes d)
    pub polls : AllStates env.polls
