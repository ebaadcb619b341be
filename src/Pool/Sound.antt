-- ===== src/Pool/Sound.antt =====
-- The invariant of a `PoolThread` holds, whatever the owner calls and however its steps and the
-- thread's interleave.
use prot.Prelude.{ℕ, ◌≡◌, ◌≢◌, ◌∙◌, refl, Bool, false, arith}
use prot.Sync.Event.{CallEnv, set, reset, infinite_loop}
use prot.Pool.{pool_construct, run_path}
use prot.Pool.System.{
  World, Work, loop_on, loop_end, wake, load, load_null, call, return, clear_read, clear_write,
  signal_out, leave, Own, run_start, run_busy, run_ready, created, not_created, reset_out, pass,
  raise_read, raise_write, post, delete_offline, detach_begin, detach_read, detach_write, null_func,
  wake_in, kill, Step, work, own, Reach, start, next,
}
use prot.Pool.Invariant.{Sound}

module _ (c : CallEnv) where
  Work-Sound : {v w : World} → Work c v w → Sound v → Sound w
  unfolding infinite_loop set reset
  Work-Sound {v} (loop_on p q) s = ground (arith, s.signalled, s.func_kept, s.attached)
  Work-Sound {v} (loop_end p q) s = ground (arith, s.signalled, s.func_kept, s.attached)
  Work-Sound {v} (wake e p q) s = ground (arith, s.signalled, s.func_kept, s.attached)
  Work-Sound {v} (load p q) s = ground (arith, s.signalled, s.func_kept, s.attached)
  Work-Sound {v} (load_null p q) s = ground (arith, s.signalled, s.func_kept, s.attached)
  Work-Sound {v} (call p) s = ground (arith, s.signalled, s.func_kept, s.attached)
  Work-Sound {v} (return e p q) s = ground (arith, s.signalled, s.func_kept, s.attached)
  Work-Sound {v} (clear_read p) s = ground (arith, s.signalled, s.func_kept, s.attached)
  Work-Sound {v} (clear_write f p) s = ground (arith, s.signalled, s.func_kept, s.attached)
  Work-Sound {v} (signal_out e p q) s = ground (arith, s.signalled, s.func_kept, s.attached)
  Work-Sound {v} (leave p) s = ground (arith, s.signalled, s.func_kept, s.attached)

  Own-Sound : {v w : World} → Own c v w → w.killed ≡ false → Sound v → Sound w
  unfolding set reset run_path
  Own-Sound {v} (run_start job p q) h s = ground (arith, s.signalled, s.func_kept, s.attached)
  Own-Sound {v} (run_busy p q) h s = ground (arith, s.signalled, s.func_kept, s.attached)
  Own-Sound {v} (run_ready job p q) h s = ground (arith, s.signalled, s.func_kept, s.attached)
  Own-Sound {v} (created job p) h s = ground (arith, s.signalled, s.func_kept, s.attached)
  Own-Sound {v} (not_created job p) h s = ground (arith, s.signalled, s.func_kept, s.attached)
  Own-Sound {v} (reset_out job e p q) h s = ground (arith, s.signalled, s.func_kept, s.attached)
  Own-Sound {v} (pass job p) h s = ground (arith, s.signalled, s.func_kept, s.attached)
  Own-Sound {v} (raise_read job p) h s = ground (arith, s.signalled, s.func_kept, s.attached)
  Own-Sound {v} (raise_write job f p) h s = ground (arith, s.signalled, s.func_kept, s.attached)
  Own-Sound {v} (post job e p q) h s = ground (arith, s.signalled, s.func_kept, s.attached)
  Own-Sound {v} (delete_offline p q) h s = ground (arith, s.signalled, s.func_kept, s.attached)
  Own-Sound {v} (detach_begin p q r) h s = ground (arith, s.signalled, s.func_kept, s.attached)
  Own-Sound {v} (detach_read p) h s = ground (arith, s.signalled, s.func_kept, s.attached)
  Own-Sound {v} (detach_write f p) h s = ground (arith, s.signalled, s.func_kept, s.attached)
  Own-Sound {v} (null_func p) h s = ground (arith, s.signalled, s.func_kept, s.attached)
  Own-Sound {v} (wake_in e p q) h s = ground (arith, s.signalled, s.func_kept, s.attached)
  Own-Sound {v} (kill e p q r) h s = ground (arith, s.signalled, s.func_kept, s.attached)

  Step-Sound : {v w : World} → Step c v w → w.killed ≡ false → Sound v → Sound w
  Step-Sound (work st) h s = Work-Sound st s
  Step-Sound (own st) h s = Own-Sound st h s

  work_killed : {v w : World} → Work c v w → v.killed ≡ w.killed
  work_killed (loop_on p q) = refl
  work_killed (loop_end p q) = refl
  work_killed (wake e p q) = refl
  work_killed (load p q) = refl
  work_killed (load_null p q) = refl
  work_killed (call p) = refl
  work_killed (return e p q) = refl
  work_killed (clear_read p) = refl
  work_killed (clear_write f p) = refl
  work_killed (signal_out e p q) = refl
  work_killed (leave p) = refl

  own_killed : {v w : World} → Own c v w → w.killed ≡ false → v.killed ≡ false
  own_killed (run_start job p q) h = h
  own_killed (run_busy p q) h = h
  own_killed (run_ready job p q) h = h
  own_killed (created job p) h = h
  own_killed (not_created job p) h = h
  own_killed (reset_out job e p q) h = h
  own_killed (pass job p) h = h
  own_killed (raise_read job p) h = h
  own_killed (raise_write job f p) h = h
  own_killed (post job e p q) h = h
  own_killed (delete_offline p q) h = h
  own_killed (detach_begin p q r) h = h
  own_killed (detach_read p) h = h
  own_killed (detach_write f p) h = h
  own_killed (null_func p) h = h
  own_killed (wake_in e p q) h = h
  own_killed (kill e p q r) h = cc

  not_killed : {v w : World} → Step c v w → w.killed ≡ false → v.killed ≡ false
  not_killed (work st) h = work_killed st ∙ h
  not_killed (own st) h = own_killed st h

  -- The invariant.
  pub Reach-Sound_pool :
      {clock_in clock_out : Bool} {func : ℕ} {w : World}
      → func ≢ 0
      → Reach c clock_in clock_out func w
      → w.killed ≡ false
      → Sound w
  unfolding pool_construct
  Reach-Sound_pool f start h = ground (arith, f)
  Reach-Sound_pool f (next r st) h = Step-Sound st h (Reach-Sound_pool f r (not_killed st h))
