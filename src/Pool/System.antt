-- ===== src/Pool/System.antt =====
-- The owner of a `PoolThread` and its thread, step by step: each step reads or writes one of the
-- members that they share, or is one call on one of the events. A change of a bit of `flag` is two
-- steps, the read and the write of the word.
use prot.Prelude.{ℕ, ◌+◌, ◌≡◌, ◌≢◌, Bool, true, false, not, List, [], ◌∷◌, if◌then◌else◌}
use prot.Sync.Event.{Event, CallEnv, done, set, reset, infinite_loop}
use prot.Pool.{
  Flag, PoolData, pool_construct, starts, busy, ready, run_path, only_starting, only_has_exit,
  with_flag, raise, lower, detach,
}

-- Where the thread is in `_Prot_WrapPoolThread_Proc_`: it is not there, tests the loop's condition,
-- waits, reads the function, reads the argument, is in the function or resets `sig_in` behind it,
-- reads the flags, writes them, sets `sig_out`, has left the loop, or has ended.
pub data Worker : Type 0 where
  absent looping waiting loading calling running clearing signalling leaving gone : Worker
  storing : (seen : Flag) → Worker

-- Where the owner is: between its calls; in `Run`, starting the thread, resetting `sig_out`, writing
-- the argument, reading the flags, writing them, setting `sig_in`; in the destructor, reading the
-- flags, writing them, writing the function, setting `sig_in`; or behind that.
pub data Owner : Type 0 where
  idle detaching nulling waking destroyed : Owner
  creating accepting passing raising posting : (job : ℕ) → Owner
  marking : (job : ℕ) → (seen : Flag) → Owner
  writing : (seen : Flag) → Owner

-- `accepted` are the arguments that `Run` has taken and `executed` those that the function has been
-- called with, the latest first; `deletes` counts the deletes of the data, and `killed` is set by
-- `Kill`.
pub record World : Type 0 where
  pub shared : PoolData
  pub worker : Worker
  pub owner : Owner
  pub accepted : List ℕ
  pub executed : List ℕ
  pub deletes : ℕ
  pub killed : Bool

module _ (c : CallEnv) where
  -- The steps of the thread.
  pub data Work (w : World) : World → Type 0 where
    loop_on :
        w.worker ≡ looping → w.shared.flag.detached ≡ false → Work w (record w { worker = waiting })
    loop_end :
        w.worker ≡ looping → w.shared.flag.detached ≡ true → Work w (record w { worker = leaving })
    wake :
        (e : Event)
        → w.worker ≡ waiting
        → infinite_loop c w.shared.sig_in [] ≡ done (true, e)
        → Work w (record w { worker = loading; shared = record w.shared { sig_in = e } })
    load : w.worker ≡ loading → w.shared.func ≢ 0 → Work w (record w { worker = calling })
    load_null : w.worker ≡ loading → w.shared.func ≡ 0 → Work w (record w { worker = leaving })
    call :
        w.worker ≡ calling
        → Work w (record w { worker = running; executed = w.shared.args ∷ w.executed })
    return :
        (e : Event)
        → w.worker ≡ running
        → reset c w.shared.sig_in ≡ done e
        → Work w (record w { worker = clearing; shared = record w.shared { sig_in = e } })
    clear_read : w.worker ≡ clearing → Work w (record w { worker = storing w.shared.flag })
    clear_write :
        (f : Flag)
        → w.worker ≡ storing f
        → Work w (record w { worker = signalling; shared = with_flag (lower f) w.shared })
    signal_out :
        (e : Event)
        → w.worker ≡ signalling
        → set c w.shared.sig_out ≡ done e
        → Work w (record w { worker = looping; shared = record w.shared { sig_out = e } })
    leave :
        w.worker ≡ leaving
        → Work w record w {
          worker = gone;
          deletes = w.deletes + (if not w.shared.flag.has_exit then 1 else 0);
        }

  -- The steps of the owner. `Kill` ends the thread where it is, as TerminateThread does.
  pub data Own (w : World) : World → Type 0 where
    run_start :
        (job : ℕ)
        → w.owner ≡ idle
        → run_path w.shared.flag ≡ starts
        → Own w record w { owner = creating job; shared = with_flag only_starting w.shared }
    run_busy : w.owner ≡ idle → run_path w.shared.flag ≡ busy → Own w w
    run_ready :
        (job : ℕ)
        → w.owner ≡ idle
        → run_path w.shared.flag ≡ ready
        → Own w (record w { owner = accepting job })
    created :
        (job : ℕ)
        → w.owner ≡ creating job
        → Own w (record w { owner = accepting job; worker = looping })
    not_created : (job : ℕ) → w.owner ≡ creating job → Own w (record w { owner = idle })
    reset_out :
        (job : ℕ) (e : Event)
        → w.owner ≡ accepting job
        → reset c w.shared.sig_out ≡ done e
        → Own w (record w { owner = passing job; shared = record w.shared { sig_out = e } })
    pass :
        (job : ℕ)
        → w.owner ≡ passing job
        → Own w (record w { owner = raising job; shared = record w.shared { args = job } })
    raise_read :
        (job : ℕ) → w.owner ≡ raising job → Own w (record w { owner = marking job w.shared.flag })
    raise_write :
        (job : ℕ) (f : Flag)
        → w.owner ≡ marking job f
        → Own w (record w { owner = posting job; shared = with_flag (raise f) w.shared })
    post :
        (job : ℕ) (e : Event)
        → w.owner ≡ posting job
        → set c w.shared.sig_in ≡ done e
        → Own w record w {
          owner = idle;
          shared = record w.shared { sig_in = e };
          accepted = job ∷ w.accepted;
        }
    delete_offline :
        w.owner ≡ idle
        → w.worker ≡ absent
        → Own w (record w { owner = destroyed; deletes = w.deletes + 1 })
    detach_begin :
        w.owner ≡ idle
        → w.worker ≢ absent
        → w.worker ≢ gone
        → Own w (record w { owner = detaching })
    detach_read : w.owner ≡ detaching → Own w (record w { owner = writing w.shared.flag })
    detach_write :
        (f : Flag)
        → w.owner ≡ writing f
        → Own w (record w { owner = nulling; shared = with_flag (detach f) w.shared })
    null_func :
        w.owner ≡ nulling
        → Own w (record w { owner = waking; shared = record w.shared { func = 0 } })
    wake_in :
        (e : Event)
        → w.owner ≡ waking
        → set c w.shared.sig_in ≡ done e
        → Own w (record w { owner = destroyed; shared = record w.shared { sig_in = e } })
    kill :
        (e : Event)
        → w.owner ≡ idle
        → w.worker ≢ absent
        → set c w.shared.sig_out ≡ done e
        → Own w record w {
          worker = absent;
          shared = with_flag only_has_exit (record w.shared { sig_out = e });
          killed = true;
        }

  pub data Step (w v : World) : Type 0 where
    work : Work w v → Step w v
    own : Own w v → Step w v

  -- From the constructor on.
  abbrev pub fresh : (clock_in clock_out : Bool) → (func : ℕ) → World
  unfolding pool_construct
  fresh clock_in clock_out func = record {
    shared = pool_construct clock_in clock_out func;
    worker = absent;
    owner = idle;
    accepted = [];
    executed = [];
    deletes = 0;
    killed = false;
  }

  pub data Reach (clock_in clock_out : Bool) (func : ℕ) : World → Type 0 where
    start : Reach clock_in clock_out func (fresh clock_in clock_out func)
    next :
        {v w : World} → Reach clock_in clock_out func v → Step v w → Reach clock_in clock_out func w
