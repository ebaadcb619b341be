-- ===== src/Pool/Faults.antt =====
-- Orders of the steps of a `PoolThread` and its owner that go wrong.
use prot.Prelude.{Steps, stay, onward, ap, ℕ, ◌≡◌, ◌≢◌, refl, Bool, true, false, ◌∷◌, arith}
use prot.Sync.Event.{Event, CallEnv, set}
use prot.Pool.{run_path, raise}
use prot.Pool.System.{
  looping, running, signalling, idle, nulling, World, Work, Own, loop_on, loop_end, wake, load,
  load_null, call, return, clear_read, clear_write, signal_out, leave, run_start, run_ready,
  created, reset_out, pass, raise_read, raise_write, post, kill, work, own, Reach, next,
}
use prot.Pool.Sound.{Reach-Sound_pool}
use prot.Pool.Works.{Works, set_done, reset_done, wait_done}

-- An event up or down.
abbrev pub up : Event → Event
up e = record e { state = true }

abbrev pub down : Event → Event
down e = record e { state = false }

-- The world behind a whole call of `Run` that no step of the thread comes between.
abbrev pub posted : (job : ℕ) → World → World
posted job w = record w {
  owner = idle;
  shared = record w.shared {
    sig_in = up w.shared.sig_in;
    sig_out = down w.shared.sig_out;
    args = job;
    flag = raise w.shared.flag;
  };
  accepted = job ∷ w.accepted;
}

-- A call of `Run`, when no other step comes between its own.
pub run_whole :
    {c : CallEnv} (job : ℕ) (w : World)
    → Works c
    → w.owner ≡ idle
    → w.shared.flag.starting ≡ true
    → w.shared.flag.activing ≡ false
    → Steps (Own c) w (posted job w)
unfolding run_path
run_whole job w works i st ac = onward (run_ready job i (ground (arith, st, ac))) (
    onward (reset_out job _ refl (reset_done works w.shared.sig_out)) (
      onward (pass job refl) (
        onward (raise_read job refl) (
          onward (raise_write job _ refl)
            (onward (post job _ refl (set_done works w.shared.sig_in)) stay)))))

-- What the step of a thread at `sig_out` does behind a call of `Run`.
signals :
    {c : CallEnv} {job : ℕ} (w v : World)
    → w.worker ≡ signalling
    → w.killed ≡ false
    → job ∷ w.accepted ≡ job ∷ w.executed
    → Work c (posted job w) v
    → (v.owner ≡ idle)
      × (v.shared.sig_out.state ≡ true)
      × (v.accepted ≡ job ∷ v.executed)
      × (v.killed ≡ false)
unfolding set
signals w _ k alive f (loop_on p q) = absurd (ground (arith, k, p))
signals w _ k alive f (loop_end p q) = absurd (ground (arith, k, p))
signals w _ k alive f (wake e p q) = absurd (ground (arith, k, p))
signals w _ k alive f (load p q) = absurd (ground (arith, k, p))
signals w _ k alive f (load_null p q) = absurd (ground (arith, k, p))
signals w _ k alive f (call p) = absurd (ground (arith, k, p))
signals w _ k alive f (return e p q) = absurd (ground (arith, k, p))
signals w _ k alive f (clear_read p) = absurd (ground (arith, k, p))
signals w _ k alive f (clear_write g p) = absurd (ground (arith, k, p))
signals w _ k alive f (signal_out e p q) = (refl, ground (arith, q), f, alive)
signals w _ k alive f (leave p) = absurd (ground (arith, k, p))

module _ {c : CallEnv} {clock_in clock_out : Bool} {func : ℕ} where
  -- While nobody has called `Kill`: if the owner calls `Run` after the thread has cleared ACTIVING and
  -- before it sets `sig_out` for the job that it has finished, then the steps of `Run` lead to a world
  -- in which the new job is posted, and the thread's next step, whichever it is, leaves `sig_out` up,
  -- so that `Wait` returns true, though the new job has not been executed. (The calls on the events
  -- succeed.)
  pub early_signal :
      (job : ℕ) (w : World)
      → Works c
      → func ≢ 0
      → Reach c clock_in clock_out func w
      → w.killed ≡ false
      → w.owner ≡ idle
      → w.worker ≡ signalling
      → w.shared.flag.activing ≡ false
      → Steps (Own c) w (posted job w)
        × ((v : World) × Work c (posted job w) v)
        × ((v : World)
            → Work c (posted job w) v
            → (v.owner ≡ idle)
              × (v.shared.sig_out.state ≡ true)
              × (v.accepted ≡ job ∷ v.executed)
              × (v.killed ≡ false))
  early_signal job w works real r alive i k ac =
      let s = Reach-Sound_pool c real r alive in
      let finished : w.accepted ≡ w.executed = ground (arith, s, i, k, ac) in
      (
        run_whole job w works i (ground (arith, s, i, k)) ac,
        (_, signal_out _ k (set_done works (down w.shared.sig_out))),
        λ v st. signals w v k alive (ap (job ∷◌) finished) st,
      )

  -- If the destructor has written DETACHED while the thread was about to test it, the thread can leave
  -- and delete the data, which the destructor then writes to.
  pub use_after_delete :
      (w : World)
      → func ≢ 0
      → Reach c clock_in clock_out func w
      → w.killed ≡ false
      → w.owner ≡ nulling
      → w.worker ≡ looping
      → w.shared.flag.detached ≡ true
      → (v : World) × Reach c clock_in clock_out func v × (v.owner ≡ nulling) × (v.deletes ≡ 1)
  use_after_delete w real r alive o k d =
      let s = Reach-Sound_pool c real r alive in
      (_, next (next r (work (loop_end k d))) (work (leave refl)), o, ground (arith, s, o, k))

  -- If the thread was killed in a job, the next `Run` can find `sig_in` still up, and the new thread
  -- executes the killed job once more before the owner has handed over another one.
  pub killed_job_again :
      (job : ℕ) (w : World)
      → Works c
      → func ≢ 0
      → Reach c clock_in clock_out func w
      → w.killed ≡ false
      → w.owner ≡ idle
      → w.worker ≡ running
      → (v : World) × Reach c clock_in clock_out func v
        × (v.accepted ≡ w.accepted)
        × (v.executed ≡ w.shared.args ∷ w.executed)
  unfolding run_path
  killed_job_again job w works real r alive o k =
      let s = Reach-Sound_pool c real r alive in
      (
        _,
        next
            (next
              (next
                (next
                  (next
                    (next
                      (next r
                        (own (kill _ o (ground (arith, k)) (set_done works w.shared.sig_out))))
                      (own (run_start job o refl)))
                    (own (created job refl)))
                  (work (loop_on refl refl)))
                (work (
                  wake _ refl
                    (wait_done works w.shared.sig_in (ground (arith, s, o, k)) s.manual_in))))
              (work (load refl (s.func_kept (ground (arith, o))))))
            (work (call refl)),
        refl,
        refl,
      )
