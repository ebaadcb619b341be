-- ===== src/Sync/Lock/Calculation/Exact.antt =====
-- With an exclusive lock the threads of TestCalculation lose no addition; without one they never have
-- too many.
use prot.Prelude.{
  weigh, weigh-++, weigh-le, moved, ℕ, zero, suc, ◌+◌, ◌*◌, ◌≤◌, ◌≡◌, Bool, true, false, ◌==◌,
  if◌then◌else◌, List, [], ◌∷◌, ◌++◌, length, replicate, refl, ap, sym, ◌∙◌, arith,
}
use prot.Sync.Lock.{ILock, LockType, Attempt, returns, exclusive}
use prot.Sync.Lock.Implements.{Implements, view_attempt}
use prot.Sync.Lock.Exclusion.{get-true, get-waits}
use prot.Sync.Lock.Calculation.{
  Adder, outside, reading, writing, ended, World, begin, Step, get_returns, get_waits, no_get, read,
  write, frees, no_free, exit, Reach, start, next,
}

-- A thread that holds the lock.
abbrev pub inside : Adder → ℕ
inside (outside k) = 0
inside (reading k m) = 1
inside (writing k m d) = 1
inside ended = 0

-- A thread that would store something else than one more.
abbrev stale : ℕ → Adder → ℕ
stale c (outside k) = 0
stale c (reading k m) = 0
stale c (writing k m d) = if d == c then 0 else 1
stale c ended = 0

abbrev pub is_ended : Adder → ℕ
is_ended (outside k) = 0
is_ended (reading k m) = 0
is_ended (writing k m d) = 0
is_ended ended = 1

-- The additions that a thread has left.
abbrev pub left : (inner : ℕ) → Adder → ℕ
left i (outside k) = k * i
left i (reading k m) = k * i + m
left i (writing k m d) = k * i + m + 1
left i ended = 0

stale_le : (c : ℕ) (a : Adder) → stale c a ≤ inside a
stale_le c a = ground arith

abbrev pub flag : Bool → ℕ
flag b = if b then 1 else 0

pub record Exact (inner n total : ℕ) (held : Bool) (calc_data end_count : ℕ) (threads : List Adder)
    : Type 0 where
  pub owner : weigh inside threads ≡ flag held
  pub fresh : weigh (stale calc_data) threads ≡ 0
  pub sum : calc_data + weigh (left inner) threads ≡ total
  pub ends : end_count ≡ weigh is_ended threads
  pub size : weigh (λ a. 1) threads ≡ n

abbrev pub ExactWorld : {S : Type 0} → (S → Bool) → (inner n total : ℕ) → World S → Type 0
ExactWorld view inner n total w =
    Exact inner n total (view w.lock_state) w.calc_data w.end_count w.threads

pub weigh-begin :
    (f : Adder → ℕ) (n rounds : ℕ) → weigh f (replicate n (outside rounds)) ≡ n * f (outside rounds)
weigh-begin f zero r = omega arith
weigh-begin f (suc n) r = omega (arith, weigh-begin f n r)

-- While one thread is inside, no other is, and so none has read.
others-fresh :
    (c : ℕ) (held : Bool) (before after : List Adder) (l : Adder)
    → weigh inside (before ++ (l ∷ after)) ≡ flag held
    → inside l ≡ 1
    → weigh (stale c) before + weigh (stale c) after ≡ 0
others-fresh c held before after l e one =
    let few : flag held ≤ 1 = ground arith in
    omega (
      arith,
      e,
      one,
      few,
      weigh-++ inside before (l ∷ after),
      weigh-le (stale c) inside (stale_le c) before,
      weigh-le (stale c) inside (stale_le c) after,
    )

module _ {S : Type 0} {lock : ILock S} {type : LockType} {view : S → Bool}
    (i : Implements lock (exclusive type) view) where
  viewed :
      {t : ℕ} {s : S} {a : Attempt S}
      → lock.get t s ≡ a
      → view_attempt view a ≡ (exclusive type).get t (view s)
  viewed {t} {s} e = ap (view_attempt view) (sym e) ∙ i.same_get t s

  never : {held' : Bool} (held : Bool) → returns false held' ≡ (exclusive type).get 0 held → ⊥
  never true e = ground (arith, e)
  never false e = ground (arith, e)

  -- Whatever `Get` returns, it has taken the lock.
  taken :
      (t : ℕ) (s s' : S) (b : Bool)
      → lock.get t s ≡ returns b s'
      → (view s ≡ false) × (view s' ≡ true)
  taken t s s' true e = get-true type t (view s) (viewed e)
  taken t s s' false e = absurd (never (view s) (viewed e))

  Step-Exact :
      {inner n total : ℕ} {w v : World S}
      → Step lock true inner w v
      → ExactWorld view inner n total w
      → ExactWorld view inner n total v
  Step-Exact {inner = inner} {w = w} (get_returns b a k r s u e g) x =
      let (free, now) = taken (length b) w.lock_state s r g in
      let l = outside (suc k) in
      let l' = reading k inner in
      record {
        owner = omega (arith, x.owner, moved inside b a l l' e, ap flag free, ap flag now);
        fresh = omega (arith, x.fresh, moved (stale w.calc_data) b a l l' e);
        sum = omega (arith, x.sum, moved (left inner) b a l l' e);
        ends = omega (arith, x.ends, moved is_ended b a l l' e);
        size = omega (arith, x.size, moved (λ a. 1) b a l l' e);
      }
  Step-Exact {inner = inner} {w = w} (get_waits b a k s u e g) x =
      let same = get-waits type (length b) (view w.lock_state) (viewed g) in
      record {
        owner = omega (arith, x.owner, ap flag same);
        fresh = x.fresh;
        sum = x.sum;
        ends = x.ends;
        size = x.size;
      }
  Step-Exact (no_get b a k u e) x = absurd (ground (arith, u))
  Step-Exact {inner = inner} {w = w} (read b a k m e) x =
      let l = reading k (suc m) in
      let l' = writing k m w.calc_data in
      record {
        owner = omega (arith, x.owner, moved inside b a l l' e);
        fresh = ground (arith, x.fresh, moved (stale w.calc_data) b a l l' e);
        sum = omega (arith, x.sum, moved (left inner) b a l l' e);
        ends = omega (arith, x.ends, moved is_ended b a l l' e);
        size = omega (arith, x.size, moved (λ a. 1) b a l l' e);
      }
  Step-Exact {inner = inner} {w = w} (write b a k m d e) x =
      let l = writing k m d in
      let l' = reading k m in
      let before_write : weigh inside (b ++ (l ∷ a)) ≡ flag (view w.lock_state) =
        sym (ap (weigh inside) e) ∙ x.owner in
      let current : stale w.calc_data l ≡ 0 = omega (
        arith,
        x.fresh,
        ap (weigh (stale w.calc_data)) e,
        weigh-++ (stale w.calc_data) b (l ∷ a),
      ) in
      let same : d ≡ w.calc_data = ground (arith, current) in
      record {
        owner = omega (arith, x.owner, moved inside b a l l' e);
        fresh = omega (
          arith,
          weigh-++ (stale (d + 1)) b (l' ∷ a),
          others-fresh (d + 1) (view w.lock_state) b a l before_write refl,
        );
        sum = omega (arith, x.sum, same, moved (left inner) b a l l' e);
        ends = omega (arith, x.ends, moved is_ended b a l l' e);
        size = omega (arith, x.size, moved (λ a. 1) b a l l' e);
      }
  Step-Exact {inner = inner} {w = w} (frees b a k u e) x =
      let l = reading k 0 in
      let l' = outside k in
      let few : flag (view w.lock_state) ≤ 1 = ground arith in
      record {
        owner = omega (
          arith,
          x.owner,
          few,
          moved inside b a l l' e,
          ap flag (i.same_free (length b) w.lock_state),
        );
        fresh = omega (arith, x.fresh, moved (stale w.calc_data) b a l l' e);
        sum = omega (arith, x.sum, moved (left inner) b a l l' e);
        ends = omega (arith, x.ends, moved is_ended b a l l' e);
        size = omega (arith, x.size, moved (λ a. 1) b a l l' e);
      }
  Step-Exact (no_free b a k u e) x = absurd (ground (arith, u))
  Step-Exact {inner = inner} {w = w} (exit b a e) x =
      let l = outside 0 in
      record {
        owner = omega (arith, x.owner, moved inside b a l ended e);
        fresh = omega (arith, x.fresh, moved (stale w.calc_data) b a l ended e);
        sum = omega (arith, x.sum, moved (left inner) b a l ended e);
        ends = omega (arith, x.ends, moved is_ended b a l ended e);
        size = omega (arith, x.size, moved (λ a. 1) b a l ended e);
      }

  pub Reach-Exact :
      {s : S} {inner n rounds : ℕ} {w : World S}
      → view s ≡ false
      → Reach lock true inner s n rounds w
      → ExactWorld view inner n (n * (rounds * inner)) w
  unfolding begin
  Reach-Exact {inner = inner} {n = n} {rounds = r} free start = record {
    owner = omega (arith, weigh-begin inside n r, ap flag free);
    fresh = omega (arith, weigh-begin (stale 0) n r);
    sum = omega (arith, weigh-begin (left inner) n r);
    ends = omega (arith, weigh-begin is_ended n r);
    size = omega (arith, weigh-begin (λ a. 1) n r);
  }
  Reach-Exact free (next r s) = Step-Exact s (Reach-Exact free r)

one_each : (a : Adder) → is_ended a ≤ 1
one_each a = ground arith

all_ended :
    (i : ℕ) (ls : List Adder) → weigh is_ended ls ≡ weigh (λ a. 1) ls → weigh (left i) ls ≡ 0
all_ended i [] e = refl
all_ended i (ended ∷ ls) e = omega (arith, all_ended i ls (omega (arith, e)))
all_ended i (outside k ∷ ls) e = absurd (omega (arith, e, weigh-le is_ended (λ a. 1) one_each ls))
all_ended i (reading k m ∷ ls) e = absurd (omega (arith, e, weigh-le is_ended (λ a. 1) one_each ls))
all_ended i (writing k m d ∷ ls) e =
    absurd (omega (arith, e, weigh-le is_ended (λ a. 1) one_each ls))

-- With a lock that can be held once, and is free at first, no addition is lost: when all n threads have
-- ended, the number is n times the rounds times the inner loop's, however they took turns.
pub calculation_exact :
    {S : Type 0} {lock : ILock S} {type : LockType} {view : S → Bool} {s : S} {inner n rounds : ℕ}
    {w : World S}
    → Implements lock (exclusive type) view
    → view s ≡ false
    → Reach lock true inner s n rounds w
    → w.end_count ≡ n
    → w.calc_data ≡ n * (rounds * inner)
calculation_exact {inner = inner} {w = w} i free r e =
    let x = Reach-Exact i free r in
    omega (arith, x.sum, all_ended inner w.threads (omega (arith, x.ends, x.size, e)))
