-- ===== src/Sync/Lock/Tests.antt =====
-- The theorems about the locks at concrete inputs, with mutexes that behave as documented.
use prot.Prelude.{
  ℕ, ◌+◌, ◌-◌, ◌≡◌, ◌⊎◌, refl, inl, inr, Bool, true, false, ◌==◌, ltb, if◌then◌else◌, Option, none,
  some, [], ◌∷◌, arith,
}
use prot.Sync.Lock.Calls.{MutexCalls, EventCalls}
use prot.Sync.Lock.Spin.{spin_lock}
use prot.Sync.Lock.Implements.{IsNormal, IsAutoReset}
use prot.Sync.Lock.Recursive.{IsRecursive, Takes}
use prot.Sync.Lock.Exclusion.{
  World, Reach, start, next, get_returns, get_waits, frees, try_fails, Single, spin_lock-Single,
}

-- A mutex of the normal kind: whether it is held.
abbrev normal : MutexCalls Bool
normal = record {
  lock = λ t held. if held then none else some (0, true);
  try_lock = λ t held. if held then (16, true) else (0, true);
  unlock = λ t held. false;
}

normal-IsNormal : IsNormal normal (λ held. held)
normal-IsNormal = record {
  lock_free = λ t m e. (true, ground (arith, e), refl);
  lock_held = λ t m e. ground (arith, e);
  try_free = λ t m e. (true, ground (arith, e), refl);
  try_held = λ t m e. ground (arith, e);
  unlock_frees = λ t m. refl;
}

-- An auto-reset event: whether it is signaled.
abbrev auto_event : EventCalls Bool
auto_event = record {
  wait_infinite = λ signaled. if signaled then some (0, false) else none;
  wait_zero = λ signaled. if signaled then (0, false) else (258, false);
  set_event = λ signaled. true;
}

auto_event-IsAutoReset : IsAutoReset auto_event (λ signaled. signaled)
auto_event-IsAutoReset = record {
  wait_signaled = λ h e. (false, ground (arith, e), refl);
  wait_unsignaled = λ h e. ground (arith, e);
  test_signaled = λ h e. (false, ground (arith, e), refl);
  test_unsignaled = λ h e. ground (arith, e);
  set_signals = λ h. refl;
}

-- A recursive mutex that its owner can take four times.
abbrev four_times : (t : ℕ) → Option (ℕ × ℕ) → Option (ℕ × Option (ℕ × ℕ))
four_times t none = some (0, some (t, 1))
four_times t (some (u, d)) =
    if u == t then some (if ltb d 4 then (0, some (t, d + 1)) else (11, some (t, d))) else none

abbrev or_busy : Option (ℕ × Option (ℕ × ℕ)) → Option (ℕ × ℕ) → ℕ × Option (ℕ × ℕ)
or_busy none m = (16, m)
or_busy (some r) m = r

abbrev give_one : (t : ℕ) → Option (ℕ × ℕ) → Option (ℕ × ℕ)
give_one t none = none
give_one t (some (u, d)) = if u == t then if d == 1 then none else some (u, d - 1) else some (u, d)

abbrev nested : MutexCalls (Option (ℕ × ℕ))
nested = record {
  lock = four_times;
  try_lock = λ t m. or_busy (four_times t m) m;
  unlock = give_one;
}

nested-Takes :
    (t : ℕ) (m : Option (ℕ × ℕ)) (r : ℕ × Option (ℕ × ℕ))
    → four_times t m ≡ some r
    → Takes 4 t (λ m. m) m r
nested-Takes t m r e = record {
  from_free = λ f. ground (arith, e, f);
  from_own = λ d o below. ground (arith, e, o, below);
  at_limit = λ d o full. ground (arith, e, o, full);
}

nested_takes :
    (t : ℕ) (m : Option (ℕ × ℕ))
    → (m ≡ none) ⊎ ((d : ℕ) × (m ≡ some (t, d)))
    → (r : ℕ × Option (ℕ × ℕ)) × (four_times t m ≡ some r)
nested_takes t m (inl free) = ((0, some (t, 1)), ground (arith, free))
nested_takes t m (inr (d, own)) =
    (if ltb d 4 then (0, some (t, d + 1)) else (11, some (t, d)), ground (arith, own))

nested-IsRecursive : IsRecursive 4 nested (λ m. m)
nested-IsRecursive = record {
  lock_other = λ t u d m o n. ground (arith, o, n);
  lock_takes = λ t m o. let (r, e) = nested_takes t m o in (r, e, nested-Takes t m r e);
  try_other = λ t u d m o n. ground (arith, o, n);
  try_takes = λ t m o.
      let (r, e) = nested_takes t m o in
      nested-Takes t m (or_busy (four_times t m) m) (ground (arith, e));
  unlock_free = λ t m e. ground (arith, e);
  unlock_other = λ t u d m o n. ground (arith, o, n);
  unlock_last = λ t m e. ground (arith, e);
  unlock_more = λ t d m e n. ground (arith, e, n);
}

-- Threads 7 and 8 at a spin lock: 7 gets it, 8 waits and fails to get it, 7 frees it, 8 gets it.
abbrev handed_over : World ℕ
handed_over = record { state = 1; holders = 8 ∷ [] }

handed_over-Reach : Reach spin_lock 0 handed_over
unfolding spin_lock
handed_over-Reach =
    next
      (next
        (next (next (next start (get_returns 7 1 refl)) (get_waits 8 1 refl)) (try_fails 8 1 refl))
        (frees 7 [] [] refl))
      (get_returns 8 1 refl)

spin_lock-Single_example : Single true (8 ∷ [])
spin_lock-Single_example = spin_lock-Single handed_over-Reach
