-- ===== src/Pool/Failed.antt =====
-- A `PoolThread` whose thread could not be created.
use prot.Prelude.{Steps, stay, onward, ℕ, ◌≡◌, ◌⊎◌, inl, refl, ◌∙◌, true, false, ◌∷◌, arith}
use prot.Sync.Event.{CallEnv}
use prot.Pool.{run_path}
use prot.Pool.System.{
  absent, idle, destroyed, World, Work, loop_on, loop_end, wake, load, load_null, call, return,
  clear_read, clear_write, signal_out, leave, Own, run_start, run_busy, run_ready, created,
  not_created, reset_out, pass, raise_read, raise_write, post, delete_offline, detach_begin,
  detach_read, detach_write, null_func, wake_in, kill, Step, work, own,
}
use prot.Pool.Works.{Works}
use prot.Pool.Faults.{posted, run_whole}

-- A job is posted, `sig_out` is down, and no thread is there to take the job or will be.
pub record Stuck (w : World) : Type 0 where
  pub no_thread : w.worker ≡ absent
  pub at_rest : (w.owner ≡ idle) ⊎ (w.owner ≡ destroyed)
  pub started : w.shared.flag.starting ≡ true
  pub active : w.shared.flag.activing ≡ true
  pub out_down : w.shared.sig_out.state ≡ false

no_work : {c : CallEnv} {w v : World} → w.worker ≡ absent → ¬ Work c w v
no_work a (loop_on p q) = absurd (ground (arith, a, p))
no_work a (loop_end p q) = absurd (ground (arith, a, p))
no_work a (wake e p q) = absurd (ground (arith, a, p))
no_work a (load p q) = absurd (ground (arith, a, p))
no_work a (load_null p q) = absurd (ground (arith, a, p))
no_work a (call p) = absurd (ground (arith, a, p))
no_work a (return e p q) = absurd (ground (arith, a, p))
no_work a (clear_read p) = absurd (ground (arith, a, p))
no_work a (clear_write f p) = absurd (ground (arith, a, p))
no_work a (signal_out e p q) = absurd (ground (arith, a, p))
no_work a (leave p) = absurd (ground (arith, a, p))

own-Stuck : {c : CallEnv} {w v : World} → Stuck w → Own c w v → Stuck v
unfolding run_path
own-Stuck s (run_busy p q) = s
own-Stuck s (delete_offline p q) = ground (arith, s)
own-Stuck s (run_start job p q) = absurd (ground (arith, s, p, q))
own-Stuck s (run_ready job p q) = absurd (ground (arith, s, p, q))
own-Stuck s (created job p) = absurd (ground (arith, s, p))
own-Stuck s (not_created job p) = absurd (ground (arith, s, p))
own-Stuck s (reset_out job e p q) = absurd (ground (arith, s, p, q))
own-Stuck s (pass job p) = absurd (ground (arith, s, p))
own-Stuck s (raise_read job p) = absurd (ground (arith, s, p))
own-Stuck s (raise_write job f p) = absurd (ground (arith, s, p))
own-Stuck s (post job e p q) = absurd (ground (arith, s, p, q))
own-Stuck s (detach_begin p q r) = absurd (ground (arith, s, p, q))
own-Stuck s (detach_read p) = absurd (ground (arith, s, p))
own-Stuck s (detach_write f p) = absurd (ground (arith, s, p))
own-Stuck s (null_func p) = absurd (ground (arith, s, p))
own-Stuck s (wake_in e p q) = absurd (ground (arith, s, p, q))
own-Stuck s (kill e p q r) = absurd (ground (arith, s, p, q))

own_executed : {c : CallEnv} {w v : World} → Own c w v → v.executed ≡ w.executed
own_executed (run_busy p q) = refl
own_executed (delete_offline p q) = refl
own_executed (run_start job p q) = refl
own_executed (run_ready job p q) = refl
own_executed (created job p) = refl
own_executed (not_created job p) = refl
own_executed (reset_out job e p q) = refl
own_executed (pass job p) = refl
own_executed (raise_read job p) = refl
own_executed (raise_write job f p) = refl
own_executed (post job e p q) = refl
own_executed (detach_begin p q r) = refl
own_executed (detach_read p) = refl
own_executed (detach_write f p) = refl
own_executed (null_func p) = refl
own_executed (wake_in e p q) = refl
own_executed (kill e p q r) = refl

Steps-Stuck :
    {c : CallEnv} {w v : World} → Stuck w → Steps (Step c) w v → Stuck v × (v.executed ≡ w.executed)
Steps-Stuck s stay = (s, refl)
Steps-Stuck s (onward (work st) r) = absurd (no_work s.no_thread st)
Steps-Stuck s (onward (own st) r) =
    let (t, e) = Steps-Stuck (own-Stuck s st) r in (t, e ∙ own_executed st)

-- If a `Run` could not create the thread (there is none, and STARTING is set), the next `Run` takes its
-- job all the same: its steps lead from that world to one in which the job is accepted. Whatever steps
-- follow then, `sig_out`, which `Wait` waits for, stays down, and no job is executed any more. (The
-- calls on the events succeed.)
pub failed_start_hangs :
    {c : CallEnv} (job : ℕ) (w : World)
    → Works c
    → w.owner ≡ idle
    → w.worker ≡ absent
    → w.shared.flag.starting ≡ true
    → w.shared.flag.activing ≡ false
    → Steps (Own c) w (posted job w)
      × ((posted job w).accepted ≡ job ∷ w.accepted)
      × ((u : World)
          → Steps (Step c) (posted job w) u
          → (u.shared.sig_out.state ≡ false) × (u.executed ≡ w.executed))
failed_start_hangs job w works i a st ac = (
  run_whole job w works i st ac,
  refl,
  λ u t.
      let (k, e) =
        Steps-Stuck
          (record {
            no_thread = a;
            at_rest = inl refl;
            started = st;
            active = refl;
            out_down = refl;
          })
          t in
      (k.out_down, e),
)
