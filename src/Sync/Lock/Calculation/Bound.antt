-- ===== src/Sync/Lock/Calculation/Bound.antt =====
-- With or without a lock the threads of TestCalculation never have too many additions.
use prot.Prelude.{
  weigh, weigh-++, weigh-le, moved, ℕ, suc, ◌+◌, ◌-◌, ◌*◌, ◌≤◌, ◌≡◌, Bool, leb, if◌then◌else◌, List,
  ◌∷◌, ◌++◌, replicate, refl, ap, sym, ◌∙◌, arith,
}
use prot.Sync.Lock.{ILock}
use prot.Sync.Lock.Calculation.{
  Adder, outside, reading, writing, ended, World, begin, Step, get_returns, get_waits, no_get, read,
  write, frees, no_free, exit, Reach, start, next,
}
use prot.Sync.Lock.Calculation.Exact.{left, weigh-begin}

-- A thread that has read more than `most`.
abbrev over : ℕ → Adder → ℕ
over most (outside k) = 0
over most (reading k m) = 0
over most (writing k m d) = if leb d most then 0 else 1
over most ended = 0

over_le : (a b : ℕ) (t : Adder) → a ≤ b → over b t ≤ over a t
over_le a b t h = ground (arith, h)

-- What a thread has read, and the number itself, leave room for what is left to be added.
record Bounded (inner total : ℕ) (calc_data : ℕ) (threads : List Adder) : Type 0 where
  sum : calc_data + weigh (left inner) threads ≤ total
  reads : weigh (over (total - weigh (left inner) threads)) threads ≡ 0

-- A thread moves on without an addition.
moves :
    {inner total c : ℕ} {ts : List Adder} (before after : List Adder) (l l' : Adder)
    → ts ≡ before ++ (l ∷ after)
    → left inner l' ≡ left inner l
    → over (total - weigh (left inner) ts) l' ≡ 0
    → Bounded inner total c ts
    → Bounded inner total c (before ++ (l' ∷ after))
moves {inner = inner} {total = total} {ts = ts} b a l l' e same within x =
    let all = moved (left inner) b a l l' e in
    let kept : total - weigh (left inner) ts ≡ total - weigh (left inner) (b ++ (l' ∷ a)) =
      omega (arith, all, same) in
    record {
      sum = omega (arith, x.sum, all, same);
      reads =
          ap (λ n. weigh (over n) (b ++ (l' ∷ a))) (sym kept)
          ∙ omega (arith, within, x.reads, moved (over (total - weigh (left inner) ts)) b a l l' e);
    }

module _ {S : Type 0} {lock : ILock S} {use_lock : Bool} {inner total : ℕ} where
  Step-Bounded :
      {w v : World S}
      → Step lock use_lock inner w v
      → Bounded inner total w.calc_data w.threads
      → Bounded inner total v.calc_data v.threads
  Step-Bounded (get_returns b a k r s u e g) x =
      moves b a (outside (suc k)) (reading k inner) e (omega arith) refl x
  Step-Bounded (get_waits b a k s u e g) x = record { sum = x.sum; reads = x.reads }
  Step-Bounded (no_get b a k u e) x =
      moves b a (outside (suc k)) (reading k inner) e (omega arith) refl x
  Step-Bounded {w = w} (read b a k m e) x =
      moves b a (reading k (suc m)) (writing k m w.calc_data) e (omega arith)
        (ground (arith, x.sum)) x
  Step-Bounded {w = w} (write b a k m d e) x =
      let l = writing k m d in
      let l' = reading k m in
      let before_write = total - weigh (left inner) w.threads in
      let all = moved (left inner) b a l l' e in
      let others = moved (over before_write) b a l l' e in
      let read_before : over before_write l ≡ 0 = omega (
        arith,
        x.reads,
        ap (weigh (over before_write)) e,
        weigh-++ (over before_write) b (l ∷ a),
      ) in
      let low : d ≤ before_write = ground (arith, read_before) in
      let more : before_write ≤ total - weigh (left inner) (b ++ (l' ∷ a)) = omega (arith, all) in
      record {
        sum = omega (arith, x.sum, low, all);
        reads = omega (
          arith,
          x.reads,
          others,
          weigh-le (over (total - weigh (left inner) (b ++ (l' ∷ a)))) (over before_write)
              (λ t. over_le before_write (total - weigh (left inner) (b ++ (l' ∷ a))) t more)
              (b ++ (l' ∷ a)),
        );
      }
  Step-Bounded (frees b a k u e) x = moves b a (reading k 0) (outside k) e (omega arith) refl x
  Step-Bounded (no_free b a k u e) x = moves b a (reading k 0) (outside k) e (omega arith) refl x
  Step-Bounded (exit b a e) x = moves b a (outside 0) ended e (omega arith) refl x

  Reach-Bounded :
      {s : S} {n rounds : ℕ} {w : World S}
      → Reach lock use_lock inner s n rounds w
      → total ≡ n * (rounds * inner)
      → Bounded inner total w.calc_data w.threads
  unfolding begin
  Reach-Bounded {n = n} {rounds = r} start e = record {
    sum = omega (arith, e, weigh-begin (left inner) n r);
    reads =
        omega
          (arith, weigh-begin (over (total - weigh (left inner) (replicate n (outside r)))) n r);
  }
  Reach-Bounded (next r s) e = Step-Bounded s (Reach-Bounded r e)

-- With any lock, or with none, the number is at no moment more than n times the rounds times the inner
-- loop's.
pub calculation_bound :
    {S : Type 0} {lock : ILock S} {use_lock : Bool} {s : S} {inner n rounds : ℕ} {w : World S}
    → Reach lock use_lock inner s n rounds w
    → w.calc_data ≤ n * (rounds * inner)
calculation_bound r = let x = Reach-Bounded r refl in omega (arith, x.sum)
