-- ===== src/Sync/Lock/Implements.antt =====
-- That the locks do what is promised: a view of the lock's state as the state of the promise, with
-- which every call agrees.
use prot.Prelude.{
  ℕ, ◌≡◌, refl, inl, inr, Bool-cases, Bool, true, false, not, ◌==◌, none, some, arith,
}
use prot.Sync.Lock.{ILock, Attempt, returns, waits, exclusive, spinning, singlenter}
use prot.Sync.Lock.Calls.{MutexCalls, EventCalls, singlenter_lock, win_singlenter_lock}
use prot.Sync.Lock.Spin.{spin_lock}

abbrev pub view_attempt : {S A : Type 0} → (S → A) → Attempt S → Attempt A
view_attempt view (returns b s) = returns b (view s)
view_attempt view (waits s) = waits (view s)

pub record Implements {S A : Type 0} (lock : ILock S) (promise : ILock A) (view : S → A)
    : Type 0 where
  pub same_type : lock.lock_type ≡ promise.lock_type
  pub same_get : (t : ℕ) (s : S) → view_attempt view (lock.get t s) ≡ promise.get t (view s)
  pub same_try :
      (t : ℕ) (s : S)
      → ((lock.try_get t s).0, view (lock.try_get t s).1) ≡ promise.try_get t (view s)
  pub same_free : (t : ℕ) (s : S) → view (lock.free t s) ≡ promise.free t (view s)

abbrev pub is_taken : ℕ → Bool
is_taken word = not (word == 0)

-- The spin lock is exclusive: its word is not 0 exactly while it is held.
pub spin_lock-Implements : Implements spin_lock (exclusive spinning) is_taken
unfolding spin_lock
spin_lock-Implements = record {
  same_type = refl;
  same_get = λ t s. ground arith;
  same_try = λ t s. ground arith;
  same_free = λ t s. refl;
}

-- Of a mutex of the kind PTHREAD_MUTEX_NORMAL, the documentation says when a call succeeds, and that
-- an unlock always makes it free; `held` tells from its state whether it is held. 16 is EBUSY.
pub record IsNormal {M : Type 0} (calls : MutexCalls M) (held : M → Bool) : Type 0 where
  pub lock_free :
      (t : ℕ) (m : M)
      → held m ≡ false
      → (m' : M) × (calls.lock t m ≡ some (0, m')) × (held m' ≡ true)
  pub lock_held : (t : ℕ) (m : M) → held m ≡ true → calls.lock t m ≡ none
  pub try_free :
      (t : ℕ) (m : M)
      → held m ≡ false
      → (m' : M) × (calls.try_lock t m ≡ (0, m')) × (held m' ≡ true)
  pub try_held : (t : ℕ) (m : M) → held m ≡ true → calls.try_lock t m ≡ (16, m)
  pub unlock_frees : (t : ℕ) (m : M) → held (calls.unlock t m) ≡ false

-- `SinglenterLock` over such mutexes is exclusive.
pub singlenter_lock-Implements :
    {M : Type 0} {calls : MutexCalls M} {held : M → Bool}
    → IsNormal calls held
    → Implements (singlenter_lock calls) (exclusive singlenter) held
unfolding singlenter_lock
singlenter_lock-Implements {calls = calls} {held = held} n = record {
  same_type = refl;
  same_get = λ t s. elim (Bool-cases (held s)) [
    | inl is ↦ ground (arith, is, n.lock_held t s is)
    | inr isnt ↦ let (m', e, h) = n.lock_free t s isnt in ground (arith, isnt, e, h)
  ];
  same_try = λ t s. elim (Bool-cases (held s)) [
    | inl is ↦ ground (arith, is, n.try_held t s is)
    | inr isnt ↦ let (m', e, h) = n.try_free t s isnt in ground (arith, isnt, e, h)
  ];
  same_free = n.unlock_frees;
}

-- Of an auto-reset event, the documentation says that a wait ends when it is signaled and resets it,
-- and that `SetEvent` signals it. 258 is WAIT_TIMEOUT.
pub record IsAutoReset {H : Type 0} (calls : EventCalls H) (signaled : H → Bool) : Type 0 where
  pub wait_signaled :
      (h : H)
      → signaled h ≡ true
      → (h' : H) × (calls.wait_infinite h ≡ some (0, h')) × (signaled h' ≡ false)
  pub wait_unsignaled : (h : H) → signaled h ≡ false → calls.wait_infinite h ≡ none
  pub test_signaled :
      (h : H) → signaled h ≡ true → (h' : H) × (calls.wait_zero h ≡ (0, h')) × (signaled h' ≡ false)
  pub test_unsignaled : (h : H) → signaled h ≡ false → calls.wait_zero h ≡ (258, h)
  pub set_signals : (h : H) → signaled (calls.set_event h) ≡ true

-- `SinglenterLock` of Windows over such events is exclusive.
pub win_singlenter_lock-Implements :
    {H : Type 0} {calls : EventCalls H} {signaled : H → Bool}
    → IsAutoReset calls signaled
    → Implements (win_singlenter_lock calls) (exclusive singlenter) (λ h. not (signaled h))
unfolding win_singlenter_lock
win_singlenter_lock-Implements {calls = calls} {signaled = signaled} n = record {
  same_type = refl;
  same_get = λ t s. elim (Bool-cases (signaled s)) [
    | inr is ↦ ground (arith, is, n.wait_unsignaled s is)
    | inl isnt ↦ let (h', e, h) = n.wait_signaled s isnt in ground (arith, isnt, e, h)
  ];
  same_try = λ t s. elim (Bool-cases (signaled s)) [
    | inr is ↦ ground (arith, is, n.test_unsignaled s is)
    | inl isnt ↦ let (h', e, h) = n.test_signaled s isnt in ground (arith, isnt, e, h)
  ];
  same_free = λ t s. ground (arith, n.set_signals s);
}
