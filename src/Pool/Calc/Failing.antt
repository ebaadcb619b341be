-- ===== src/Pool/Calc/Failing.antt =====
-- TestPoolParallelCalc when a `Run` gets no thread.
use prot.Prelude.{Steps, stay, onward, ◌-◌, moved, ℕ, ◌+◌, ◌≤◌, ◌<◌, ◌≡◌, ap, arith}
use prot.Pool.Calc.{deleted, World, Step, Fail, run_fails, Reach}
use prot.Pool.Calc.Tokens.{is_held, is_away}
use prot.Pool.Calc.Placed.{Placed, keep-Placed, Step-Placed}
use prot.Pool.Calc.Invariant.{
  Counted, Step-Counted, is_took, is_having, busy, ending, held, Reach-Sound_calc,
}

-- The data of the failed start is missing from then on.
Fail-Counted :
    {n endp : ℕ} {w v : World} → Fail endp w v → Counted n w → (k : ℕ) × (k + 1 ≡ n) × Counted k v
Fail-Counted {n = n} (run_fails b a l m e g r) c =
    let l' = record l { hold = deleted } in
    let m0 = moved busy b a l l' e in
    let m1 = moved ending b a l l' e in
    let m2 = moved held b a l l' e in
    let one = ap is_held g in
    (
      n - 1,
      omega (arith, c.count, c.with_d, ap is_having m),
      record {
        count = omega (arith, c.count, one, m0, m2, ap is_having m, c.with_d);
        units = omega (arith, c.units, m1, ap is_took m);
        with_d = omega (arith, c.with_d, one, m2, ap is_having m);
      },
    )

Fail-Placed :
    {n endp : ℕ} {w v : World} → Fail endp w v → Placed n w.queue w.lines → Placed n v.queue v.lines
Fail-Placed (run_fails b a l m e g r) p = keep-Placed b a l e p _ (omega (arith, ap is_away g))

Steps-Counted :
    {n k step endp : ℕ} {w v : World}
    → k ≤ n
    → Steps (Step n step endp) w v
    → Placed n w.queue w.lines
    → Counted k w
    → Counted k v
Steps-Counted le stay p c = c
Steps-Counted le (onward s t) p c = Steps-Counted le t (Step-Placed s p) (Step-Counted le s p c)

-- When a `Run` has got no thread, the test never ends: whatever steps follow, the second loop has not had
-- the data of all n threads, for which it waits.
pub failed_run_hangs :
    {n from step endp : ℕ} {w v u : World}
    → Reach n from step endp w
    → Fail endp w v
    → Steps (Step n step endp) v u
    → u.ended < n
failed_run_hangs r f t =
    let (p, c) = Reach-Sound_calc r in
    let (k, e, missing) = Fail-Counted f c in
    let d = Steps-Counted (omega (arith, e)) t (Fail-Placed f p) missing in
    omega (arith, e, d.count)
