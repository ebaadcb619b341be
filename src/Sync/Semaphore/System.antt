-- ===== src/Sync/Semaphore/System.antt =====
-- Any number of threads at one POSIX `Semaphore`: each step is one critical section of its mutex,
-- in any order. Of a `Wait` that is one round of its loop, of a `Post` all behind its first test,
-- which may have read any semaphore at all.
use prot.Prelude.{
  ℕ, ◌+◌, ◌-◌, ◌<◌, ◌≡◌, ◌⊎◌, inl, inr, Bool, true, false, if◌then◌else◌, some, arith,
}
use prot.Prelude.Int.{ℤ, pos, negsuc, pos_part, neg_part, ◌+ℤ◌, ◌-ℤ◌, ◌≤ℤ◌, IsInt32}
use prot.Sync.Cond.{Code, Notify}
use prot.Sync.Semaphore.{Sem, try_wait, post}
use prot.Sync.Semaphore.Init.{InitEnv, construct, IsValid, construct-IsValid}
use prot.Sync.Semaphore.Count.{Fits, post_lem}
use prot.Sync.Semaphore.Waiting.{Outcome, try_wait_lem}

-- The semaphore, and how many units the calls so far have added and taken.
pub record System : Type 0 where
  pub sem : Sem
  pub posted : ℕ
  pub taken : ℕ

abbrev pub after_post : System → ℤ → Bool × Sem → System
after_post g n (r, s') = record {
  sem = s';
  posted = if r then g.posted + pos_part n else g.posted;
  taken = g.taken;
}

abbrev pub after_wait : System → Bool × Sem → System
after_wait g (r, s') = record {
  sem = s';
  posted = g.posted;
  taken = if r then g.taken + 1 else g.taken;
}

pub data Step (g : System) : System → Type 0 where
  post_step :
      (notify : Notify → Code) (seen : Sem) (n : ℤ)
      → IsInt32 n
      → Fits g.sem n
      → Step g (after_post g n (post notify seen n g.sem))
  wait_step : Step g (after_wait g (try_wait g.sem))

pub data Reach (s : Sem) : System → Type 0 where
  start : Reach s (record { sem = s; posted = 0; taken = 0 })
  next : {g h : System} → Reach s g → Step g h → Reach s h

-- Nothing is lost or made up: what has been taken and what is left are what was there at the start
-- and what has been posted.
pub record Balance (initial : ℕ) (g : System) : Type 0 where
  pub valid : IsValid g.sem
  pub balance : pos_part g.sem.current + g.taken ≡ initial + g.posted

post_sum : (c n : ℤ) → neg_part c ≡ 0 → pos 1 ≤ℤ n → pos_part (c +ℤ n) ≡ pos_part c + pos_part n
post_sum (pos c) (pos n) h k = ground arith
post_sum (pos c) (negsuc n) h k = absurd (omega arith)
post_sum (negsuc c) n h k = absurd (omega arith)

after_post-Balance :
    (i : ℕ) (g : System) (n : ℤ) (r : Bool) (s' : Sem)
    → Balance i g
    → (s' ≡ (if r then record g.sem { current = g.sem.current +ℤ n } else g.sem))
      × IsValid s'
      × ((r ≡ false) ⊎ (pos 1 ≤ℤ n))
    → Balance i (after_post g n (r, s'))
after_post-Balance i g n true s' b (e, v, inl q) = cc
after_post-Balance i g n true s' b (e, v, inr q) = record {
  valid = v;
  balance = rw e (omega (arith, post_sum g.sem.current n b.valid.nonneg q));
}
after_post-Balance i g n false s' b (e, v, q) = record { valid = v; balance = rw e b.balance }

minus_one : (c : ℤ) → neg_part c ≡ 0 → 0 < pos_part c → c -ℤ pos 1 ≡ pos (pos_part c - 1)
minus_one (pos c) h k = ground arith
minus_one (negsuc c) h k = absurd (omega arith)

after_wait-Balance :
    (i : ℕ) (g : System) (r : Bool) (s' : Sem)
    → Balance i g
    → Outcome g.sem (r, s')
    → Balance i (after_wait g (r, s'))
after_wait-Balance i g true s' b (e, inl q) = cc
after_wait-Balance i g true s' b (e, inr q) =
    rw (e, minus_one g.sem.current b.valid.nonneg q) (omega arith)
after_wait-Balance i g false s' b (e, q) = rw e (omega arith)

Step-Balance : {i : ℕ} {g h : System} → Step g h → Balance i g → Balance i h
Step-Balance {i} {g} (post_step notify seen n w f) b =
    after_post-Balance i g n (post notify seen n g.sem).0 (post notify seen n g.sem).1 b
      (post_lem notify seen n g.sem b.valid w f)
Step-Balance {i} {g} wait_step b =
    after_wait-Balance i g (try_wait g.sem).0 (try_wait g.sem).1 b (try_wait_lem g.sem b.valid)

-- From a semaphore as the constructor makes it, after any number of calls by any threads, however
-- they interleave, the semaphore is valid, and the units left and the units taken are together the
-- initial ones and the posted ones. (No `SetMax`, and no sum beyond `Int32`.)
pub Reach-Balance :
    (env : InitEnv) (i_set i_max : ℤ) {s : Sem} {g : System}
    → (construct env i_set i_max).0 ≡ some s
    → Reach s g
    → Balance (pos_part i_set) g
Reach-Balance env i_set i_max e start =
    let (v, p, _, _) = construct-IsValid env i_set i_max e in
    record { valid = v; balance = rw p (omega arith) }
Reach-Balance env i_set i_max e (next r st) = Step-Balance st (Reach-Balance env i_set i_max e r)
