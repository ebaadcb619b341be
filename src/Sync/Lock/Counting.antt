-- ===== src/Sync/Lock/Counting.antt =====
-- How far `MyTestSinglenterFunc` of lock_unittest.cpp, which takes the lock again and again, comes
-- with a lock that can be held once, and with a recursive lock.
use prot.Prelude.{
  ℕ, zero, suc, ◌+◌, ◌<◌, ◌≡◌, refl, ap, ◌∙◌, Bool, true, false, Option, none, some, arith,
}
use prot.Sync.Lock.{
  LockType, ILock, Attempt, returns, waits, exclusive, reentrant, retake, give_back, attempt,
}
use prot.Sync.Lock.Implements.{Implements, view_attempt}
use prot.Sync.Lock.UnitTests.{my_test_singlenter_func}

-- An attempt whose view returns has returned, and so for one that waits.
returns-view :
    {S A : Type 0} {view : S → A} {b : Bool} {x : A} (a : Attempt S)
    → view_attempt view a ≡ returns b x
    → (s : S) × (a ≡ returns b s) × (view s ≡ x)
returns-view (returns c s) e = (s, ground (arith, e), ground (arith, e))
returns-view (waits s) e = absurd (ground (arith, e))

waits-view :
    {S A : Type 0} (view : S → A) {x : A} (a : Attempt S)
    → view_attempt view a ≡ waits x
    → (s : S) × (a ≡ waits s)
waits-view view (returns c s) e = absurd (ground (arith, e))
waits-view view (waits s) e = (s, refl)

module _ {S : Type 0} {lock : ILock S} {type : LockType} {view : S → Bool}
    (i : Implements lock (exclusive type) view) where
  held_waits :
      (t n r : ℕ) (s : S)
      → view s ≡ true
      → (s' : S) × (my_test_singlenter_func lock t n r s ≡ (false, r, s'))
  unfolding my_test_singlenter_func
  held_waits t zero r s h =
      let (s', e) =
        waits-view view (lock.get t s) (i.same_get t s ∙ ap ((exclusive type).get t) h) in
      (s', ground (arith, e))
  held_waits t (suc n) r s h =
      let (s', e) =
        waits-view view (lock.get t s) (i.same_get t s ∙ ap ((exclusive type).get t) h) in
      (s', ground (arith, e))

  -- A thread that takes a free lock twice or more without a release, where the lock can be held once,
  -- waits for itself in the second call, with nothing but the first number in the sum.
  pub exclusive-singlenter_func :
      (t n : ℕ) (s : S)
      → view s ≡ false
      → (s' : S) × (my_test_singlenter_func lock t (n + 1) 0 s ≡ (false, n + 2, s'))
  unfolding my_test_singlenter_func
  exclusive-singlenter_func t n s h =
      let (s1, e, h1) =
        returns-view (lock.get t s) (i.same_get t s ∙ ap ((exclusive type).get t) h) in
      let (s2, e2) = held_waits t n (n + 2) s1 h1 in (s2, ground (arith, e, e2))

-- The state of a recursive lock that `t` has taken `d` times.
abbrev pub mine : (t d : ℕ) → Option (ℕ × ℕ)
mine t zero = none
mine t (suc d) = some (t, d + 1)

-- 1 + ... + (n + 1)
abbrev pub sum_to : (n : ℕ) → ℕ
sum_to zero = 1
sum_to (suc n) = n + 2 + sum_to n

retake-mine : (limit t d : ℕ) → d < limit → retake limit t (mine t d) ≡ some (true, mine t (d + 1))
retake-mine limit t zero h = refl
retake-mine limit t (suc d) h = ground (arith, h)

give_back-mine : (t d : ℕ) → give_back t (mine t (d + 1)) ≡ mine t d
give_back-mine t zero = ground arith
give_back-mine t (suc d) = ground arith

module _ {S : Type 0} {lock : ILock S} (limit : ℕ) {view : S → Option (ℕ × ℕ)}
    (i : Implements lock (reentrant limit) view) where
  get-mine :
      (t d : ℕ) (s : S)
      → view s ≡ mine t d
      → d < limit
      → (s' : S) × (lock.get t s ≡ returns true s') × (view s' ≡ mine t (d + 1))
  get-mine t d s e h = returns-view (lock.get t s) (
      i.same_get t s
      ∙ ap (λ o. attempt (retake limit t o) o) e
      ∙ ap (λ r. attempt r (mine t d)) (retake-mine limit t d h))

  free-mine : (t d : ℕ) (s : S) → view s ≡ mine t (d + 1) → view (lock.free t s) ≡ mine t d
  free-mine t d s e = i.same_free t s ∙ ap (give_back t) e ∙ give_back-mine t d

  func-mine :
      (t n d r : ℕ) (s : S)
      → view s ≡ mine t d
      → d + n < limit
      → (s' : S) × (my_test_singlenter_func lock t n r s ≡ (true, r + sum_to n, s'))
        × (view s' ≡ mine t d)
  unfolding my_test_singlenter_func
  func-mine t zero d r s e h =
      let (s1, g, e1) = get-mine t d s e (omega arith) in
      (lock.free t s1, ground (arith, g), free-mine t d s1 e1)
  func-mine t (suc n) d r s e h =
      let (s1, g, e1) = get-mine t d s e (omega arith) in
      let (s2, f, e2) = func-mine t n (d + 1) (r + (n + 2)) s1 e1 (omega arith) in
      (lock.free t s2, ground (arith, g, f), free-mine t d s2 e2)

  -- A thread that takes a free recursive lock up to as often as it allows comes back with the whole
  -- sum, and the lock is free again.
  pub reentrant-singlenter_func :
      (t n : ℕ) (s : S)
      → view s ≡ none
      → n < limit
      → (s' : S) × (my_test_singlenter_func lock t n 0 s ≡ (true, sum_to n, s')) × (view s' ≡ none)
  reentrant-singlenter_func t n s e h =
      let (s', f, e') = func-mine t n 0 0 s e (omega arith) in (s', ground (arith, f), e')
