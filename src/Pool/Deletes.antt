-- ===== src/Pool/Deletes.antt =====
-- When the data of a `PoolThread` are deleted, also if the owner kills the thread and starts it again.
use prot.Prelude.{ℕ, ◌≡◌, ◌≢◌, ◌≤◌, ◌⊎◌, Bool, true, false, arith}
use prot.Sync.Event.{CallEnv, set, reset, infinite_loop}
use prot.Pool.{pool_construct, run_path}
use prot.Pool.System.{
  Worker, absent, looping, waiting, loading, calling, running, clearing, storing, signalling,
  leaving, gone, Owner, idle, detaching, nulling, waking, destroyed, creating, accepting, passing,
  raising, posting, marking, writing, World, Work, loop_on, loop_end, wake, load, load_null, call,
  return, clear_read, clear_write, signal_out, leave, Own, run_start, run_busy, run_ready, created,
  not_created, reset_out, pass, raise_read, raise_write, post, delete_offline, detach_begin,
  detach_read, detach_write, null_func, wake_in, kill, work, own, Reach, start, next,
}
use prot.Pool.Invariant.{is_live, coming, deleted}

-- The thread is behind its loop.
abbrev is_out : Worker → Bool
is_out leaving = true
is_out gone = true
is_out absent = false
is_out looping = false
is_out waiting = false
is_out loading = false
is_out calling = false
is_out running = false
is_out clearing = false
is_out (storing f) = false
is_out signalling = false

-- The owner is between its calls, or behind the destructor.
abbrev is_settled : Owner → Bool
is_settled idle = true
is_settled destroyed = true
is_settled (creating job) = false
is_settled (accepting job) = false
is_settled (passing job) = false
is_settled (raising job) = false
is_settled (marking job f) = false
is_settled (posting job) = false
is_settled detaching = false
is_settled (writing f) = false
is_settled nulling = false
is_settled waking = false

-- What the destructor and the flags that the owner has read promise.
abbrev Closing : Owner → Worker → Type 0
Closing detaching k = k ≢ absent
Closing (writing f) k = (k ≢ absent) × (f.has_exit ≡ false)
Closing nulling k = k ≢ absent
Closing waking k = k ≢ absent
Closing (marking job f) k = (f.has_exit ≡ false) × (f.detached ≡ false)
Closing idle k = Unit
Closing destroyed k = Unit
Closing (creating job) k = Unit
Closing (accepting job) k = Unit
Closing (passing job) k = Unit
Closing (raising job) k = Unit
Closing (posting job) k = Unit

record Kept (w : World) : Type 0 where
  func_kept : is_live w.owner ≡ true → w.shared.func ≢ 0
  attached : is_live w.owner ≡ true → w.shared.flag.detached ≡ false
  stays : is_live w.owner ≡ true → (coming w.worker w.shared.flag).detached ≡ false
  inside : is_live w.owner ≡ true → is_out w.worker ≡ false
  closing : Closing w.owner w.worker
  exited :
      w.shared.flag.has_exit ≡ true
      → (w.worker ≡ absent) × (w.shared.flag.starting ≡ false) × (is_settled w.owner ≡ true)
  none_comes : w.worker ≢ absent → (coming w.worker w.shared.flag).has_exit ≡ false
  deletes_counted : w.deletes ≡ deleted w.owner w.worker

module _ {c : CallEnv} where
  Work-Kept : {v w : World} → Work c v w → Kept v → Kept w
  unfolding infinite_loop set reset
  Work-Kept {v} (loop_on p q) s =
      ground (arith, s.func_kept, s.attached, s.stays, s.inside, s.exited, s.none_comes)
  Work-Kept {v} (loop_end p q) s =
      ground (arith, s.func_kept, s.attached, s.stays, s.inside, s.exited, s.none_comes)
  Work-Kept {v} (wake e p q) s =
      ground (arith, s.func_kept, s.attached, s.stays, s.inside, s.exited, s.none_comes)
  Work-Kept {v} (load p q) s =
      ground (arith, s.func_kept, s.attached, s.stays, s.inside, s.exited, s.none_comes)
  Work-Kept {v} (load_null p q) s =
      ground (arith, s.func_kept, s.attached, s.stays, s.inside, s.exited, s.none_comes)
  Work-Kept {v} (call p) s =
      ground (arith, s.func_kept, s.attached, s.stays, s.inside, s.exited, s.none_comes)
  Work-Kept {v} (return e p q) s =
      ground (arith, s.func_kept, s.attached, s.stays, s.inside, s.exited, s.none_comes)
  Work-Kept {v} (clear_read p) s =
      ground (arith, s.func_kept, s.attached, s.stays, s.inside, s.exited, s.none_comes)
  Work-Kept {v} (clear_write f p) s =
      ground (arith, s.func_kept, s.attached, s.stays, s.inside, s.exited, s.none_comes)
  Work-Kept {v} (signal_out e p q) s =
      ground (arith, s.func_kept, s.attached, s.stays, s.inside, s.exited, s.none_comes)
  Work-Kept {v} (leave p) s =
      ground (arith, s.func_kept, s.attached, s.stays, s.inside, s.exited, s.none_comes)

  Own-Kept : {v w : World} → Own c v w → Kept v → Kept w
  unfolding set reset run_path
  Own-Kept {v} (run_start job p q) s =
      ground (arith, s.func_kept, s.attached, s.stays, s.inside, s.exited, s.none_comes)
  Own-Kept {v} (run_busy p q) s =
      ground (arith, s.func_kept, s.attached, s.stays, s.inside, s.exited, s.none_comes)
  Own-Kept {v} (run_ready job p q) s =
      ground (arith, s.func_kept, s.attached, s.stays, s.inside, s.exited, s.none_comes)
  Own-Kept {v} (created job p) s =
      ground (arith, s.func_kept, s.attached, s.stays, s.inside, s.exited, s.none_comes)
  Own-Kept {v} (not_created job p) s =
      ground (arith, s.func_kept, s.attached, s.stays, s.inside, s.exited, s.none_comes)
  Own-Kept {v} (reset_out job e p q) s =
      ground (arith, s.func_kept, s.attached, s.stays, s.inside, s.exited, s.none_comes)
  Own-Kept {v} (pass job p) s =
      ground (arith, s.func_kept, s.attached, s.stays, s.inside, s.exited, s.none_comes)
  Own-Kept {v} (raise_read job p) s =
      ground (arith, s.func_kept, s.attached, s.stays, s.inside, s.exited, s.none_comes)
  Own-Kept {v} (raise_write job f p) s =
      ground (arith, s.func_kept, s.attached, s.stays, s.inside, s.exited, s.none_comes)
  Own-Kept {v} (post job e p q) s =
      ground (arith, s.func_kept, s.attached, s.stays, s.inside, s.exited, s.none_comes)
  Own-Kept {v} (delete_offline p q) s =
      ground (arith, s.func_kept, s.attached, s.stays, s.inside, s.exited, s.none_comes)
  Own-Kept {v} (detach_begin p q r) s =
      ground (arith, s.func_kept, s.attached, s.stays, s.inside, s.exited, s.none_comes)
  Own-Kept {v} (detach_read p) s =
      ground (arith, s.func_kept, s.attached, s.stays, s.inside, s.exited, s.none_comes)
  Own-Kept {v} (detach_write f p) s =
      ground (arith, s.func_kept, s.attached, s.stays, s.inside, s.exited, s.none_comes)
  Own-Kept {v} (null_func p) s =
      ground (arith, s.func_kept, s.attached, s.stays, s.inside, s.exited, s.none_comes)
  Own-Kept {v} (wake_in e p q) s =
      ground (arith, s.func_kept, s.attached, s.stays, s.inside, s.exited, s.none_comes)
  Own-Kept {v} (kill e p q r) s =
      ground (arith, s.func_kept, s.attached, s.stays, s.inside, s.exited, s.none_comes)

  Reach-Kept :
      {clock_in clock_out : Bool} {func : ℕ} {w : World}
      → func ≢ 0
      → Reach c clock_in clock_out func w
      → Kept w
  unfolding pool_construct
  Reach-Kept f start = ground (arith, f)
  Reach-Kept f (next r (work st)) = Work-Kept st (Reach-Kept f r)
  Reach-Kept f (next r (own st)) = Own-Kept st (Reach-Kept f r)

  -- The data are deleted at most once, and the thread has ended, or is not there, when they are, whatever
  -- the owner calls, `Kill` and a new `Run` behind it included. (The function of the pool thread is not
  -- null.)
  pub deleted_once :
      {clock_in clock_out : Bool} {func : ℕ} {w : World}
      → func ≢ 0
      → Reach c clock_in clock_out func w
      → (w.deletes ≤ 1) × (w.deletes ≡ 1 → (w.worker ≡ gone) ⊎ (w.worker ≡ absent))
  deleted_once f r = let s = Reach-Kept f r in ground (arith, s.deletes_counted)
