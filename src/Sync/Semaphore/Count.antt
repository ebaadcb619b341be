-- ===== src/Sync/Semaphore/Count.antt =====
-- What `Post`, `Wait` and `SetMax` of the POSIX `Semaphore` do to the count.
use prot.Prelude.{
  ℕ, ◌+◌, ◌^◌, ◌≤◌, ◌<◌, ◌≡◌, refl, ◌↔◌, ◌⊎◌, inl, inr, Bool-cases, Bool, true, false,
  if◌then◌else◌, arith,
}
use prot.Prelude.Int.{ℤ, pos, negsuc, pos_part, sub_ℕ, ◌+ℤ◌, ◌≤ℤ◌, IsInt32}
use prot.Sync.Cond.{Code, Notify}
use prot.Sync.Semaphore.{Sem, post_refused, post_locked, post}
use prot.Sync.Semaphore.Init.{IsValid}

-- `current + i_num` fits `Int32`.
abbrev pub Fits : Sem → ℤ → Type 0
Fits s i_num = pos_part s.current + pos_part i_num < 2 ^ 31

abbrev pub sem : ℤ → ℤ → Bool → Sem
sem c m b = record { current = c; maximum = m; tick_clock = b }

post_locked_lem :
    (notify : Notify → Code) (n c m : ℤ) (b : Bool)
    → let s = sem c m b in
      IsValid s
      → IsInt32 n
      → pos 1 ≤ℤ n
      → Fits s n
      → let (r, s') = post_locked notify n s in
        (s' ≡ (if r then record s { current = c +ℤ n } else s)) × IsValid s'
unfolding post_locked
post_locked_lem notify (pos n) (pos c) (pos m) b v i p f = ground arith
post_locked_lem notify (pos n) (pos c) (negsuc m) b v i p f = absurd (omega arith)
post_locked_lem notify (pos n) (negsuc c) m b v i p f = absurd (omega arith)
post_locked_lem notify (negsuc n) c m b v i p f = absurd (omega arith)

-- The first test lets nothing through that is not positive.
post_refused_lem : (s : Sem) (n : ℤ) → post_refused s n ≡ false → pos 1 ≤ℤ n
unfolding post_refused
post_refused_lem s n e = ground arith

-- `Post`, whatever the semaphore was at its first test: a valid semaphore stays valid; on success
-- the count has grown by exactly `i_num`, a positive number, and on failure nothing has changed.
-- (The sum of the count and `i_num` is taken to fit `Int32`.)
pub post_lem :
    (notify : Notify → Code) (seen : Sem) (n : ℤ) (s : Sem)
    → IsValid s
    → IsInt32 n
    → Fits s n
    → let (r, s') = post notify seen n s in
      (s' ≡ (if r then record s { current = s.current +ℤ n } else s))
      × IsValid s'
      × ((r ≡ false) ⊎ (pos 1 ≤ℤ n))
unfolding post
post_lem notify seen n s v i f = elim (Bool-cases (post_refused seen n)) [
  | inl t ↦ rw t (refl, v, inl refl)
  | inr e ↦
      let p = post_refused_lem seen n e in
      let (q, w) = post_locked_lem notify n s.current s.maximum s.tick_clock v i p f in
      rw e (q, w, inr p)
]

post_iff-parts :
    (n c m : ℤ) (b : Bool)
    → IsValid (sem c m b)
    → IsInt32 n
    → Fits (sem c m b) n
    → ((post (λ _. 0) (sem c m b) n (sem c m b)).0 ≡ true) ↔ ((pos 1 ≤ℤ n) × (c +ℤ n ≤ℤ m))
unfolding post
post_iff-parts (pos n) (pos c) (pos m) b v i f = (λ e. ground arith, λ e. ground arith)
post_iff-parts (pos n) (pos c) (negsuc m) b v i f = absurd (omega arith)
post_iff-parts (pos n) (negsuc c) m b v i f = absurd (omega arith)
post_iff-parts (negsuc n) c m b v i f = (λ e. ground arith, λ e. absurd (omega (arith, e.0)))

-- With no other thread between its two tests and with wake-up calls that succeed, `Post` succeeds
-- exactly if `i_num` is positive and the new count is within the maximum.
pub post_iff :
    (n : ℤ) (s : Sem)
    → IsValid s
    → IsInt32 n
    → Fits s n
    → ((post (λ _. 0) s n s).0 ≡ true) ↔ ((pos 1 ≤ℤ n) × (s.current +ℤ n ≤ℤ s.maximum))
post_iff n s v i f = post_iff-parts n s.current s.maximum s.tick_clock v i f

post_overflow-parts :
    (n : ℕ) (c m : ℤ) (b : Bool)
    → IsValid (sem c m b)
    → n < 2 ^ 31
    → 2 ^ 31 ≤ pos_part c + n
    → post (λ _. 0) (sem c m b) (pos n) (sem c m b)
      ≡ (true, sem (sub_ℕ (pos_part c + n) (2 ^ 32)) m b)
unfolding post
post_overflow-parts n (pos c) (pos m) b v h k = ground arith
post_overflow-parts n (pos c) (negsuc m) b v h k = absurd (omega arith)
post_overflow-parts n (negsuc c) m b v h k = absurd (omega arith)

-- Where that sum does not fit, `Post` succeeds all the same, and leaves a negative count.
pub post_overflow :
    (n : ℕ) (s : Sem)
    → IsValid s
    → n < 2 ^ 31
    → 2 ^ 31 ≤ pos_part s.current + n
    → post (λ _. 0) s (pos n) s
      ≡ (true, record s { current = sub_ℕ (pos_part s.current + n) (2 ^ 32) })
post_overflow n s v h k = post_overflow-parts n s.current s.maximum s.tick_clock v h k
