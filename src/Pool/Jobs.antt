-- ===== src/Pool/Jobs.antt =====
-- What the owner of a `PoolThread` can rely on: the jobs, `Wait`, and the end of the thread.
use prot.Prelude.{
  ℕ, ◌≡◌, ◌≢◌, ◌≤◌, ◌<◌, ◌⊎◌, inl, inr, refl, Bool-cases, Bool, true, false, ◌∷◌, none, arith,
}
use prot.Sync.Cond.{WaitEnv, deadline}
use prot.Sync.Event.{Event, CallEnv, done}
use prot.Sync.Event.Waiting.{wait-up}
use prot.Time.Unit.{TimeUnit}
use prot.Pool.{pool_wait}
use prot.Pool.System.{
  Worker, absent, looping, waiting, loading, calling, running, clearing, storing, signalling,
  leaving, gone, idle, destroyed, World, Work, loop_on, loop_end, wake, load, load_null, call,
  return, clear_read, clear_write, signal_out, leave, Reach,
}
use prot.Pool.Invariant.{is_live, is_done}
use prot.Pool.Works.{Works, set_done, reset_done, wait_done}
use prot.Pool.Sound.{Reach-Sound_pool}

-- The steps from where a thread is to the call of its function with a posted job.
abbrev pub to_call : Worker → ℕ
to_call absent = 0
to_call gone = 0
to_call leaving = 0
to_call clearing = 7
to_call (storing f) = 6
to_call signalling = 5
to_call looping = 4
to_call waiting = 3
to_call loading = 2
to_call calling = 1
to_call running = 0

-- The steps that a thread has left to its end, when its function is the null pointer.
abbrev pub to_end : Worker → ℕ
to_end absent = 0
to_end calling = 9
to_end running = 8
to_end clearing = 7
to_end (storing f) = 6
to_end signalling = 5
to_end looping = 4
to_end waiting = 3
to_end loading = 2
to_end leaving = 1
to_end gone = 0

to_end_le : (k : Worker) → to_end k ≤ 9
to_end_le k = ground arith

gone-cases : (k : Worker) → (k ≡ gone) ⊎ (k ≢ gone)
gone-cases k = ground arith

module _ {c : CallEnv} {clock_in clock_out : Bool} {func : ℕ} {w : World} (real : func ≢ 0)
    (r : Reach c clock_in clock_out func w) (alive : w.killed ≡ false) where
  -- As long as the owner has not called `Kill`, and until the destructor comes to write DETACHED: the
  -- function, which is not null, has been called with exactly the arguments that `Run` has taken, each
  -- once and in their order, but for the last one, which may still be posted.
  pub jobs_in_order :
      is_live w.owner ≡ true → (w.accepted ≡ w.executed) ⊎ (w.accepted ≡ w.shared.args ∷ w.executed)
  jobs_in_order l =
      let s = Reach-Sound_pool c real r alive in
      ground (arith, l, s.jobs, s.signalled, s.func_kept, s.attached)

  -- A thread that has a job posted can make its next step.
  next_work :
      Works c
      → (k : Worker) → w.worker ≡ k
      → w.owner ≡ idle
      → w.worker ≢ absent
      → w.accepted ≢ w.executed
      → (v : World) × Work c w v
        × ((v.executed ≡ w.accepted) ⊎ (to_call v.worker < to_call w.worker))
  next_work works absent e i a p = absurd (a e)
  next_work works signalling e i a p =
      (_, signal_out _ e (set_done works w.shared.sig_out), inr (ground (arith, e)))
  next_work works looping e i a p =
      let s = Reach-Sound_pool c real r alive in
      (_, loop_on e (ground (arith, i, s.attached)), inr (ground (arith, e)))
  next_work works waiting e i a p =
      let s = Reach-Sound_pool c real r alive in
      (
        _,
        wake _ e (wait_done works w.shared.sig_in (ground (arith, s, e, i, p)) s.manual_in),
        inr (ground (arith, e)),
      )
  next_work works loading e i a p =
      let s = Reach-Sound_pool c real r alive in
      (_, load e (s.func_kept (ground (arith, i))), inr (ground (arith, e)))
  next_work works calling e i a p =
      let s = Reach-Sound_pool c real r alive in (_, call e, inl (ground (arith, s, e, i, p)))
  next_work works running e i a p =
      let s = Reach-Sound_pool c real r alive in absurd (ground (arith, s, e, i, p))
  next_work works clearing e i a p =
      let s = Reach-Sound_pool c real r alive in absurd (ground (arith, s, e, i, p))
  next_work works (storing f) e i a p =
      let s = Reach-Sound_pool c real r alive in absurd (ground (arith, s, e, i, p))
  next_work works leaving e i a p =
      let s = Reach-Sound_pool c real r alive in absurd (ground (arith, s, e, i, p))
  next_work works gone e i a p =
      let s = Reach-Sound_pool c real r alive in absurd (ground (arith, s, e, i, p))

  -- As long as the owner has not called `Kill`, and while no other call is on its way, a job that `Run`
  -- has taken for a thread that is there is about to be executed: the thread can go on, and comes nearer
  -- to the call of its function, which is not null, or makes it. (The calls on the events succeed.)
  pub job_progress :
      Works c
      → w.owner ≡ idle
      → w.worker ≢ absent
      → w.accepted ≢ w.executed
      → (v : World) × Work c w v
        × ((v.executed ≡ w.accepted) ⊎ (to_call v.worker < to_call w.worker))
  job_progress works i a p = next_work works w.worker refl i a p

  -- A thread whose owner is gone, and which has not ended, can make a step.
  next_end :
      Works c
      → (k : Worker) → w.worker ≡ k
      → w.owner ≡ destroyed
      → w.worker ≢ absent
      → w.worker ≢ gone
      → (v : World) × Work c w v
  next_end works absent e o a g = absurd (a e)
  next_end works gone e o a g = absurd (g e)
  next_end works signalling e o a g = (_, signal_out _ e (set_done works w.shared.sig_out))
  next_end works looping e o a g = elim (Bool-cases w.shared.flag.detached) [
    | inl d ↦ (_, loop_end e d)
    | inr d ↦ (_, loop_on e d)
  ]
  next_end works waiting e o a g =
      let s = Reach-Sound_pool c real r alive in
      (_, wake _ e (wait_done works w.shared.sig_in (ground (arith, s, e, o)) s.manual_in))
  next_end works loading e o a g =
      let s = Reach-Sound_pool c real r alive in (_, load_null e (ground (arith, s, e, o)))
  next_end works calling e o a g = (_, call e)
  next_end works running e o a g = (_, return _ e (reset_done works w.shared.sig_in))
  next_end works clearing e o a g = (_, clear_read e)
  next_end works (storing f) e o a g = (_, clear_write f e)
  next_end works leaving e o a g = (_, leave e)

  nearer_end : {v : World} → w.owner ≡ destroyed → Work c w v → to_end v.worker < to_end w.worker
  nearer_end o (loop_on p q) = ground (arith, p)
  nearer_end o (loop_end p q) = ground (arith, p)
  nearer_end o (wake e p q) = ground (arith, p)
  nearer_end o (load p q) =
      let s = Reach-Sound_pool c real r alive in absurd (q (ground (arith, s, o, p)))
  nearer_end o (load_null p q) = ground (arith, p)
  nearer_end o (call p) = ground (arith, p)
  nearer_end o (return e p q) = ground (arith, p)
  nearer_end o (clear_read p) = ground (arith, p)
  nearer_end o (clear_write f p) = ground (arith, p)
  nearer_end o (signal_out e p q) = ground (arith, p)
  nearer_end o (leave p) = ground (arith, p)

  -- Behind the destructor of a `PoolThread` whose thread was there and on which `Kill` has not been
  -- called, the thread can go on until it has ended, and each step brings it nearer to that, so that it
  -- ends within nine steps and deletes the data. (The calls on the events succeed, and the function,
  -- which was not null at first, returns.)
  pub thread_ends :
      Works c
      → w.owner ≡ destroyed
      → w.worker ≢ absent
      → ((w.worker ≡ gone) × (w.deletes ≡ 1))
        ⊎ (((v : World) × Work c w v)
            × ((v : World) → Work c w v → to_end v.worker < to_end w.worker)
            × (to_end w.worker ≤ 9))
  thread_ends works o a =
      let s = Reach-Sound_pool c real r alive in
      elim (gone-cases w.worker) [
        | inl g ↦ inl (g, ground (arith, g, s))
        | inr g ↦
            inr (next_end works w.worker refl o a g, (λ v st. nearer_end o st), to_end_le w.worker)
      ]

  -- As long as the owner has not called `Kill`, `Wait`, for any duration, returns true at once when no call is on its way and the thread has no
  -- job and has signalled the end of the last one. (The calls on the events succeed, and the clock of
  -- the event can be read.)
  pub wait_when_idle :
      (env : WaitEnv Event) (t : TimeUnit)
      → Works c
      → w.owner ≡ idle
      → w.shared.flag.activing ≡ false
      → is_done w.worker ≡ true
      → deadline w.shared.sig_out.tick_clock env t ≢ none
      → (e : Event) × (pool_wait c env t w.shared ≡ done (true, e))
  unfolding pool_wait
  wait_when_idle env t works i n d clock =
      let s = Reach-Sound_pool c real r alive in
      let up : w.shared.sig_out.state ≡ true = ground (arith, s, s.signalled, i, n, d) in
      (_, wait-up c env t w.shared.sig_out (ground (arith, works)) (ground (arith, works)) up clock)
