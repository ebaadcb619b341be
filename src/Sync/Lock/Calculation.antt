-- ===== src/Sync/Lock/Calculation.antt =====
-- The tests TestCalculation (system/synchronization/lock_unittest.cpp): threads that each add one to a
-- number many times, in two steps, with a lock around every `inner` of them, or without.
pub mod Exact
pub mod Bound
pub mod Ending
mod Tests
use prot.Prelude.{ℕ, zero, suc, ◌+◌, ◌≡◌, Bool, true, false, List, [], ◌∷◌, ◌++◌, length, replicate}
use prot.Sync.Lock.{ILock, Attempt, returns, waits}
use prot.Sync.Lock.Spin.{spin_lock}
use prot.Sync.Lock.Calls.{MutexCalls, MutexKind, singlenter_construct, singlenter_lock}

-- Where a thread is: before `Get` or behind the loop, with rounds to go; before a round of the inner
-- loop; before the line that stores `data`; behind `end_count++`.
pub data Adder : Type 0 where
  outside : (rounds : ℕ) → Adder
  reading : (rounds inner : ℕ) → Adder
  writing : (rounds inner data_read : ℕ) → Adder
  ended : Adder

-- `MyTestCalculationData`, with the lock's state and the threads.
pub record World (S : Type 0) : Type 0 where
  pub lock_state : S
  pub calc_data : ℕ
  pub end_count : ℕ
  pub threads : List Adder

-- What the test has when it has started its threads, each with `rounds` rounds.
unfoldable pub begin : {S : Type 0} → S → (n rounds : ℕ) → World S
begin s n rounds = record {
  lock_state = s;
  calc_data = 0;
  end_count = 0;
  threads = replicate n (outside rounds);
}

module _ {S : Type 0} (lock : ILock S) (use_lock : Bool) (inner : ℕ) where
  pub data Step (w : World S) : World S → Type 0 where
    get_returns :
        (before after : List Adder) (k : ℕ) (b : Bool) (s : S)
        → use_lock ≡ true
        → w.threads ≡ before ++ (outside (suc k) ∷ after)
        → lock.get (length before) w.lock_state ≡ returns b s
        → Step w (record w { lock_state = s; threads = before ++ (reading k inner ∷ after) })
    get_waits :
        (before after : List Adder) (k : ℕ) (s : S)
        → use_lock ≡ true
        → w.threads ≡ before ++ (outside (suc k) ∷ after)
        → lock.get (length before) w.lock_state ≡ waits s
        → Step w (record w { lock_state = s })
    no_get :
        (before after : List Adder) (k : ℕ)
        → use_lock ≡ false
        → w.threads ≡ before ++ (outside (suc k) ∷ after)
        → Step w (record w { threads = before ++ (reading k inner ∷ after) })
    read :
        (before after : List Adder) (k m : ℕ)
        → w.threads ≡ before ++ (reading k (suc m) ∷ after)
        → Step w (record w { threads = before ++ (writing k m w.calc_data ∷ after) })
    write :
        (before after : List Adder) (k m d : ℕ)
        → w.threads ≡ before ++ (writing k m d ∷ after)
        → Step w (record w { calc_data = d + 1; threads = before ++ (reading k m ∷ after) })
    frees :
        (before after : List Adder) (k : ℕ)
        → use_lock ≡ true
        → w.threads ≡ before ++ (reading k 0 ∷ after)
        → Step w (record w {
          lock_state = lock.free (length before) w.lock_state;
          threads = before ++ (outside k ∷ after);
        })
    no_free :
        (before after : List Adder) (k : ℕ)
        → use_lock ≡ false
        → w.threads ≡ before ++ (reading k 0 ∷ after)
        → Step w (record w { threads = before ++ (outside k ∷ after) })
    exit :
        (before after : List Adder)
        → w.threads ≡ before ++ (outside 0 ∷ after)
        → Step w (record w { end_count = w.end_count + 1; threads = before ++ (ended ∷ after) })

  pub data Reach (s : S) (n rounds : ℕ) : World S → Type 0 where
    start : Reach s n rounds (begin s n rounds)
    next : {v w : World S} → Reach s n rounds v → Step v w → Reach s n rounds w

-- What each test runs, first without its lock and then with it.
abbrev pub Run : {S : Type 0} → ILock S → S → (use_lock : Bool) → World S → Type 0
Run lock s use_lock w = Reach lock use_lock 100 s 10 3000 w

abbrev pub SpinCalculation : (use_lock : Bool) → World ℕ → Type 0
SpinCalculation = Run spin_lock 0

abbrev pub SinglenterCalculation :
    {M : Type 0}
    → MutexCalls M
    → (mutex_init : MutexKind → M) → (use_lock : Bool) → World M
    → Type 0
unfolding singlenter_construct
SinglenterCalculation calls mutex_init =
    Run (singlenter_lock calls) (singlenter_construct mutex_init)
