-- ===== src/Thread/Waiting.antt =====
-- `Thread::Wait` (system/thread_posix.cpp).
use prot.Prelude.{◌≡◌, ◌⊎◌, inl, inr, Bool, true, false, none, some, List, ◌∷◌, arith}
use prot.Time.Unit.{TimeUnit, empty, infinitely}
use prot.Sync.Cond.{Code, ok, timed_out, Wake, WaitEnv, deadline}
use prot.Thread.{ThreadData, is_running, wait_code, wait_result, is_offline, wait}

-- What makes an answer of `Wait` right: the condition wait ends without an error only when the thread
-- has exited, and `pthread_kill` knows whether it has.
pub record Exact (kill : Code) (c : Code) (d : ThreadData) : Type 0 where
  pub woken : ok c ≡ true → d.has_exit ≡ true
  pub known : is_offline kill ≡ d.has_exit

-- If the condition wait returns, `Wait` returns; and if it ends without an error only when the thread
-- has exited, and `pthread_kill` knows whether it has, then true means that the thread does not run,
-- and false that it runs or that the time is up.
pub wait_answer :
    (kill : Code) (env : WaitEnv ThreadData) (t : TimeUnit) (d : ThreadData) {c : Code}
    {d' : ThreadData}
    → is_running d ≡ true
    → wait_code env t d ≡ some (c, d')
    → Exact kill c d'
    → (r : Bool) × (wait kill env t d ≡ some (r, d'))
      × (r ≡ true → is_running d' ≡ false)
      × (r ≡ false → (c ≡ timed_out) ⊎ (d'.has_exit ≡ false))
unfolding wait wait_result
wait_answer kill env t d {c} {d'} h e x = (
  (wait_result kill (c, d')).0,
  rw (h, e, wait_result),
  ground (arith, x.woken),
  ground (arith, x.woken),
)

-- A thread that does not run is not waited for.
pub wait_offline :
    (kill : Code) (env : WaitEnv ThreadData) (t : TimeUnit) (d : ThreadData)
    → is_running d ≡ false
    → wait kill env t d ≡ some (true, d)
unfolding wait
wait_offline kill env t d h = rw h

-- `Wait` says that a running thread does not exist any more, after a spurious return of an untimed
-- condition wait, and if the clock of a timed wait cannot be read.
pub wait_spurious :
    (kill : Code) (env : WaitEnv ThreadData) (t : TimeUnit) (d : ThreadData)
    (ws : List (Wake ThreadData))
    → is_running d ≡ true
    → empty t ≡ false
    → ((infinitely t ≡ true) × (env.wakes ≡ record { code = 0; seen = d } ∷ ws))
      ⊎ ((infinitely t ≡ false) × (deadline d.tick_lock env t ≡ none))
    → (wait kill env t d ≡ some (true, d)) × (is_running d ≡ true)
unfolding wait wait_code wait_result
wait_spurious kill env t d ws h z (inl (e, f)) = (rw (h, e, f), h)
wait_spurious kill env t d ws h z (inr (e, f)) = (rw (h, z, e, f), h)
