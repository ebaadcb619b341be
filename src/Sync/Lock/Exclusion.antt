-- ===== src/Sync/Lock/Exclusion.antt =====
-- Any number of threads at one lock, in any order of their calls, each of which may wait: at most one
-- thread holds the lock at a time.
use prot.Prelude.{ℕ, ◌≡◌, refl, sym, ap, subst, ◌∙◌, Bool, true, false, List, [], ◌∷◌, ◌++◌, arith}
use prot.Sync.Lock.{ILock, LockType, Attempt, returns, waits, exclusive}
use prot.Sync.Lock.Spin.{spin_lock}
use prot.Sync.Lock.Implements.{Implements, view_attempt, is_taken, spin_lock-Implements}

-- `holders` has a thread for each call that has given it the lock and that it has not yet freed.
pub record World (S : Type 0) : Type 0 where
  pub state : S
  pub holders : List ℕ

module _ {S : Type 0} (lock : ILock S) where
  pub data Step (w : World S) : World S → Type 0 where
    get_returns :
        (t : ℕ) (s : S)
        → lock.get t w.state ≡ returns true s
        → Step w (record { state = s; holders = t ∷ w.holders })
    get_fails :
        (t : ℕ) (s : S) → lock.get t w.state ≡ returns false s → Step w (record w { state = s })
    get_waits : (t : ℕ) (s : S) → lock.get t w.state ≡ waits s → Step w (record w { state = s })
    try_gets :
        (t : ℕ) (s : S)
        → lock.try_get t w.state ≡ (true, s)
        → Step w (record { state = s; holders = t ∷ w.holders })
    try_fails :
        (t : ℕ) (s : S) → lock.try_get t w.state ≡ (false, s) → Step w (record w { state = s })
    frees :
        (t : ℕ) (before after : List ℕ)
        → w.holders ≡ before ++ (t ∷ after)
        → Step w (record { state = lock.free t w.state; holders = before ++ after })

  pub data Reach (s : S) : World S → Type 0 where
    start : Reach s (record { state = s; holders = [] })
    next : {w w' : World S} → Reach s w → Step w w' → Reach s w'

-- One holder while the lock is held, none while it is free.
abbrev pub Single : (held : Bool) → List ℕ → Type 0
Single true ts = (t : ℕ) × (ts ≡ t ∷ [])
Single false ts = ts ≡ []

split_one :
    (held : Bool) (t : ℕ) (before after : List ℕ)
    → Single held (before ++ (t ∷ after))
    → before ++ after ≡ []
split_one true t [] after (u, e) = ground (arith, e)
split_one true t (b ∷ []) after (u, e) = absurd (ground (arith, e))
split_one true t (b ∷ c ∷ before) after (u, e) = absurd (ground (arith, e))
split_one false t [] after e = absurd (ground (arith, e))
split_one false t (b ∷ before) after e = absurd (ground (arith, e))

taken-Single :
    {held held' : Bool} (t : ℕ) (ts : List ℕ)
    → Single held ts
    → (held ≡ false) × (held' ≡ true)
    → Single held' (t ∷ ts)
taken-Single {held} {held'} t ts h (free, now) =
    subst (λ b. Single b (t ∷ ts)) (sym now)
      (t, ap (λ ts. t ∷ ts) (subst (λ b. Single b ts) free h))

kept-Single : {held held' : Bool} (ts : List ℕ) → Single held ts → held ≡ held' → Single held' ts
kept-Single ts h e = subst (λ b. Single b ts) e h

-- What an answer of an exclusive lock says of its state before and after it.
pub get-true :
    (type : LockType) (t : ℕ) (held : Bool) {held' : Bool}
    → returns true held' ≡ (exclusive type).get t held
    → (held ≡ false) × (held' ≡ true)
get-true type t true e = absurd (ground (arith, e))
get-true type t false e = (refl, ground (arith, e))

pub get-false :
    (type : LockType) (t : ℕ) (held : Bool) {held' : Bool}
    → returns false held' ≡ (exclusive type).get t held
    → held ≡ held'
get-false type t true e = absurd (ground (arith, e))
get-false type t false e = absurd (ground (arith, e))

pub get-waits :
    (type : LockType) (t : ℕ) (held : Bool) {held' : Bool}
    → waits held' ≡ (exclusive type).get t held
    → held ≡ held'
get-waits type t true e = ground (arith, e)
get-waits type t false e = absurd (ground (arith, e))

module _ {S : Type 0} {lock : ILock S} {type : LockType} {view : S → Bool}
    (i : Implements lock (exclusive type) view) where
  viewed :
      {t : ℕ} {s : S} {a : Attempt S}
      → lock.get t s ≡ a
      → view_attempt view a ≡ (exclusive type).get t (view s)
  viewed {t} {s} e = ap (view_attempt view) (sym e) ∙ i.same_get t s

  step-Single :
      {w w' : World S}
      → Single (view w.state) w.holders
      → Step lock w w'
      → Single (view w'.state) w'.holders
  step-Single {w} h (get_returns t s e) =
      taken-Single t w.holders h (get-true type t (view w.state) (viewed e))
  step-Single {w} h (get_fails t s e) =
      kept-Single w.holders h (get-false type t (view w.state) (viewed e))
  step-Single {w} h (get_waits t s e) =
      kept-Single w.holders h (get-waits type t (view w.state) (viewed e))
  step-Single {w} h (try_gets t s e) =
      taken-Single t w.holders h (ground (arith, e, i.same_try t w.state))
  step-Single {w} h (try_fails t s e) =
      kept-Single w.holders h (ground (arith, e, i.same_try t w.state))
  step-Single {w} h (frees t before after e) =
      kept-Single {held = false} (before ++ after)
        (split_one (view w.state) t before after (subst (Single (view w.state)) e h))
        (sym (i.same_free t w.state))

  -- In whatever order any number of threads call a lock that can be held once, which starts free, and
  -- free it when they hold it: one thread holds it while its state says that it is held, and none
  -- otherwise.
  pub Reach-Single :
      {s : S} {w : World S} → view s ≡ false → Reach lock s w → Single (view w.state) w.holders
  Reach-Single free start = kept-Single {held = false} [] refl (sym free)
  Reach-Single free (next r e) = step-Single (Reach-Single free r) e

-- In whatever order any number of threads call a spin lock, wait at it and free it when they hold it,
-- at most one of them holds it: one while its word is not 0, and none while it is 0.
pub spin_lock-Single : {w : World ℕ} → Reach spin_lock 0 w → Single (is_taken w.state) w.holders
spin_lock-Single r = Reach-Single spin_lock-Implements refl r
