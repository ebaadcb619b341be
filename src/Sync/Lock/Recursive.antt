-- ===== src/Sync/Lock/Recursive.antt =====
-- That `RecursiveLock` of lock_posix.cpp does what a recursive lock promises.
use prot.Prelude.{
  ℕ, ◌+◌, ◌-◌, ◌<◌, ◌≤◌, ◌≡◌, ◌≢◌, refl, inl, inr, ◌⊎◌, Option, none, some, Option-cases,
  Bool-cases, ◌==◌, ltb, arith,
}
use prot.Sync.Lock.{reentrant, retake, give_back}
use prot.Sync.Lock.Calls.{MutexCalls, recursive_lock}
use prot.Sync.Lock.Implements.{Implements, view_attempt}

-- What both calls return when they do not wait: 0 with a mutex that `t` has taken once more, or 11,
-- EAGAIN, at the limit.
pub record Takes {M : Type 0} (limit t : ℕ) (owner : M → Option (ℕ × ℕ)) (m : M) (r : ℕ × M)
    : Type 0 where
  pub from_free : owner m ≡ none → (r.0 ≡ 0) × (owner r.1 ≡ some (t, 1))
  pub from_own :
      (d : ℕ) → owner m ≡ some (t, d) → d < limit → (r.0 ≡ 0) × (owner r.1 ≡ some (t, d + 1))
  pub at_limit :
      (d : ℕ) → owner m ≡ some (t, d) → limit ≤ d → (r.0 ≡ 11) × (owner r.1 ≡ some (t, d))

-- Of a mutex of the kind PTHREAD_MUTEX_RECURSIVE, the documentation says when a call waits, succeeds
-- or fails, and that the last unlock by the owner makes it free; `owner` tells from its state its
-- owner and how often that has taken it. 16 is EBUSY.
pub record IsRecursive {M : Type 0} (limit : ℕ) (calls : MutexCalls M) (owner : M → Option (ℕ × ℕ))
    : Type 0 where
  pub lock_other : (t u d : ℕ) (m : M) → owner m ≡ some (u, d) → u ≢ t → calls.lock t m ≡ none
  pub lock_takes :
      (t : ℕ) (m : M)
      → (owner m ≡ none) ⊎ ((d : ℕ) × (owner m ≡ some (t, d)))
      → (r : ℕ × M) × (calls.lock t m ≡ some r) × Takes limit t owner m r
  pub try_other : (t u d : ℕ) (m : M) → owner m ≡ some (u, d) → u ≢ t → calls.try_lock t m ≡ (16, m)
  pub try_takes :
      (t : ℕ) (m : M)
      → (owner m ≡ none) ⊎ ((d : ℕ) × (owner m ≡ some (t, d)))
      → Takes limit t owner m (calls.try_lock t m)
  pub unlock_free : (t : ℕ) (m : M) → owner m ≡ none → owner (calls.unlock t m) ≡ none
  pub unlock_other :
      (t u d : ℕ) (m : M) → owner m ≡ some (u, d) → u ≢ t → owner (calls.unlock t m) ≡ some (u, d)
  pub unlock_last : (t : ℕ) (m : M) → owner m ≡ some (t, 1) → owner (calls.unlock t m) ≡ none
  pub unlock_more :
      (t d : ℕ) (m : M) → owner m ≡ some (t, d) → d ≢ 1 → owner (calls.unlock t m) ≡ some (t, d - 1)

module _ {M : Type 0} {limit : ℕ} {calls : MutexCalls M} {owner : M → Option (ℕ × ℕ)}
    (n : IsRecursive limit calls owner) where
  -- What both calls give to the thread that can take the mutex.
  retake_of :
      {t : ℕ} {m : M} {r : ℕ × M}
      → (owner m ≡ none) ⊎ ((d : ℕ) × (owner m ≡ some (t, d)))
      → Takes limit t owner m r
      → some (0 == r.0, owner r.1) ≡ retake limit t (owner m)
  retake_of (inl free) k = ground (arith, free, k.from_free free)
  retake_of {t = t} (inr (d, own)) k = elim (Bool-cases (ltb d limit)) [
    | inl below ↦ ground (arith, own, k.from_own d own (ground arith))
    | inr full ↦ ground (arith, own, k.at_limit d own (ground arith))
  ]

  -- The mutex is free or the thread's own, or another one's.
  mine-cases :
      (t : ℕ) (m : M)
      → ((owner m ≡ none) ⊎ ((d : ℕ) × (owner m ≡ some (t, d))))
        ⊎ ((u : ℕ) × (d : ℕ) × (owner m ≡ some (u, d)) × (u ≢ t))
  mine-cases t m = elim (Option-cases (owner m)) [
    | inl free ↦ inl (inl free)
    | inr ((u, d), own) ↦ elim (Bool-cases (u == t)) [
      | inl same ↦ inl (inr (d, ground (arith, own, same)))
      | inr other ↦ inr (u, d, own, ground (arith, other))
    ]
  ]

  same_get_lem :
      (t : ℕ) (m : M)
      → view_attempt owner ((recursive_lock calls).get t m) ≡ (reentrant limit).get t (owner m)
  unfolding recursive_lock
  same_get_lem t m = elim (mine-cases t m) [
    | inl mine ↦ let (r, e, k) = n.lock_takes t m mine in ground (arith, e, retake_of mine k)
    | inr (u, d, own, other) ↦ ground (arith, own, other, n.lock_other t u d m own other)
  ]

  same_try_lem :
      (t : ℕ) (m : M)
      → (((recursive_lock calls).try_get t m).0, owner ((recursive_lock calls).try_get t m).1)
        ≡ (reentrant limit).try_get t (owner m)
  unfolding recursive_lock
  same_try_lem t m = elim (mine-cases t m) [
    | inl mine ↦ ground (arith, retake_of mine (n.try_takes t m mine))
    | inr (u, d, own, other) ↦ ground (arith, own, other, n.try_other t u d m own other)
  ]

  same_free_lem : (t : ℕ) (m : M) → owner (calls.unlock t m) ≡ give_back t (owner m)
  same_free_lem t m = elim (mine-cases t m) [
    | inl (inl free) ↦ ground (arith, free, n.unlock_free t m free)
    | inl (inr (d, own)) ↦ elim (Bool-cases (d == 1)) [
      | inl one ↦ ground (arith, own, one, n.unlock_last t m (ground (arith, own, one)))
      | inr more ↦ ground (arith, own, more, n.unlock_more t d m own (ground (arith, more)))
    ]
    | inr (u, d, own, other) ↦ ground (arith, own, other, n.unlock_other t u d m own other)
  ]

  -- `RecursiveLock` over such mutexes is a recursive lock with the mutexes' limit.
  pub recursive_lock-Implements : Implements (recursive_lock calls) (reentrant limit) owner
  unfolding recursive_lock
  recursive_lock-Implements = record {
    same_type = refl;
    same_get = same_get_lem;
    same_try = same_try_lem;
    same_free = same_free_lem;
  }
