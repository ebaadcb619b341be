-- ===== src/Pool/Invariant.antt =====
-- What holds of a `PoolThread` that nobody kills: where the jobs are, and what the destructor has
-- arranged.
use prot.Prelude.{ℕ, ◌≡◌, ◌≢◌, ◌⊎◌, Bool, true, false, List, ◌∷◌, if◌then◌else◌}
use prot.Pool.{Flag, PoolData}
use prot.Pool.System.{
  Worker, absent, looping, waiting, loading, calling, running, clearing, storing, signalling,
  leaving, gone, Owner, idle, detaching, nulling, waking, destroyed, creating, accepting, passing,
  raising, posting, marking, writing, World,
}

-- Between two calls of `Run`, or before the thread has come to it, a job is posted exactly while
-- ACTIVING is set.
abbrev pub Posted : PoolData → (accepted executed : List ℕ) → Type 0
Posted d a e = (d.sig_in.state ≡ d.flag.activing) × (a ≡ (if d.sig_in.state then d.args ∷ e else e))

-- The jobs while no call of `Run` is on its way, by the place of the thread.
abbrev pub Rest : Worker → PoolData → (accepted executed : List ℕ) → Type 0
Rest absent d a e = Posted d a e × (d.flag.starting ≡ false → d.flag.activing ≡ false)
Rest signalling d a e = Posted d a e × (d.flag.starting ≡ true)
Rest looping d a e = Posted d a e × (d.flag.starting ≡ true)
Rest waiting d a e = Posted d a e × (d.flag.starting ≡ true)
Rest loading d a e =
    (d.sig_in.state ≡ true) × (d.flag.activing ≡ true) × (d.flag.starting ≡ true) × (a ≡ d.args ∷ e)
Rest calling d a e =
    (d.sig_in.state ≡ true) × (d.flag.activing ≡ true) × (d.flag.starting ≡ true) × (a ≡ d.args ∷ e)
Rest running d a e =
    (d.sig_in.state ≡ true) × (d.flag.activing ≡ true) × (d.flag.starting ≡ true) × (a ≡ e)
Rest clearing d a e =
    (d.sig_in.state ≡ false) × (d.flag.activing ≡ true) × (d.flag.starting ≡ true) × (a ≡ e)
Rest (storing f) d a e =
    (d.sig_in.state ≡ false)
    × (d.flag.activing ≡ true)
    × (d.flag.starting ≡ true)
    × (a ≡ e)
    × (f ≡ d.flag)
Rest leaving d a e = ⊥
Rest gone d a e = ⊥

-- Where the thread can be while `Run` prepares a job.
abbrev pub is_quiet : Worker → Bool
is_quiet absent = true
is_quiet signalling = true
is_quiet looping = true
is_quiet waiting = true
is_quiet loading = false
is_quiet calling = false
is_quiet running = false
is_quiet clearing = false
is_quiet (storing f) = false
is_quiet leaving = false
is_quiet gone = false

abbrev pub Prepared : Bool → Worker → PoolData → (accepted executed : List ℕ) → Type 0
Prepared raised k d a e =
    (is_quiet k ≡ true)
    × (d.sig_in.state ≡ false)
    × (d.flag.activing ≡ raised)
    × (d.flag.starting ≡ true)
    × (a ≡ e)

-- The jobs, by the place of the owner.
abbrev pub Jobs : Owner → Worker → PoolData → (accepted executed : List ℕ) → Type 0
Jobs idle k d a e = Rest k d a e
Jobs (creating job) k d a e = (k ≡ absent) × Prepared false k d a e
Jobs (accepting job) k d a e = Prepared false k d a e
Jobs (passing job) k d a e = Prepared false k d a e
Jobs (raising job) k d a e = Prepared false k d a e × (d.args ≡ job)
Jobs (marking job f) k d a e = Prepared false k d a e × (d.args ≡ job) × (f ≡ d.flag)
Jobs (posting job) k d a e = Prepared true k d a e × (d.args ≡ job)
Jobs detaching k d a e = Rest k d a e
Jobs (writing f) k d a e = Rest k d a e × (f.has_exit ≡ false)
Jobs nulling k d a e = Unit
Jobs waking k d a e = Unit
Jobs destroyed k d a e = Unit

-- Where the thread can be when it has overwritten DETACHED with the word that it had read before.
abbrev pub is_late : Worker → Bool
is_late (storing f) = true
is_late signalling = true
is_late looping = true
is_late waiting = true
is_late absent = false
is_late loading = false
is_late calling = false
is_late running = false
is_late clearing = false
is_late leaving = false
is_late gone = false

-- The word that the flags are or that the thread is about to store.
abbrev pub coming : Worker → Flag → Flag
coming (storing f) g = f
coming absent g = g
coming looping g = g
coming waiting g = g
coming loading g = g
coming calling g = g
coming running g = g
coming clearing g = g
coming signalling g = g
coming leaving g = g
coming gone g = g

-- What the destructor has arranged for the thread to end.
abbrev pub Ending : Owner → Worker → PoolData → Type 0
Ending nulling k d =
    (k ≢ absent)
    × (((coming k d.flag).detached ≡ true) ⊎ ((is_late k ≡ true) × (d.sig_in.state ≡ false)))
Ending waking k d =
    (k ≢ absent)
    × (d.func ≡ 0)
    × (((coming k d.flag).detached ≡ true) ⊎ ((is_late k ≡ true) × (d.sig_in.state ≡ false)))
Ending destroyed k d =
    (k ≡ absent)
    ⊎ ((d.func ≡ 0)
        × ((k ≡ gone)
            ⊎ (k ≡ leaving)
            ⊎ (k ≡ loading)
            ⊎ (((coming k d.flag).detached ≡ true) × (k ≢ waiting))
            ⊎ ((is_late k ≡ true) × (d.sig_in.state ≡ true))))
Ending idle k d = Unit
Ending (creating job) k d = Unit
Ending (accepting job) k d = Unit
Ending (passing job) k d = Unit
Ending (raising job) k d = Unit
Ending (marking job f) k d = Unit
Ending (posting job) k d = Unit
Ending detaching k d = k ≢ absent
Ending (writing f) k d = k ≢ absent

-- The owner has not come to write DETACHED.
abbrev pub is_live : Owner → Bool
is_live nulling = false
is_live waking = false
is_live destroyed = false
is_live idle = true
is_live (creating job) = true
is_live (accepting job) = true
is_live (passing job) = true
is_live (raising job) = true
is_live (marking job f) = true
is_live (posting job) = true
is_live detaching = true
is_live (writing f) = true

-- The owner does not hold `sig_out` down for a job.
abbrev pub is_open : Owner → Bool
is_open idle = true
is_open (creating job) = true
is_open (accepting job) = false
is_open (passing job) = false
is_open (raising job) = false
is_open (marking job f) = false
is_open (posting job) = false
is_open detaching = true
is_open (writing f) = true
is_open nulling = false
is_open waking = false
is_open destroyed = false

-- The thread has signalled the end of its last job.
abbrev pub is_done : Worker → Bool
is_done absent = true
is_done looping = true
is_done waiting = true
is_done loading = false
is_done calling = false
is_done running = false
is_done clearing = false
is_done (storing f) = false
is_done signalling = false
is_done leaving = false
is_done gone = false

abbrev pub is_destroyed : Owner → ℕ
is_destroyed idle = 0
is_destroyed (creating job) = 0
is_destroyed (accepting job) = 0
is_destroyed (passing job) = 0
is_destroyed (raising job) = 0
is_destroyed (marking job f) = 0
is_destroyed (posting job) = 0
is_destroyed detaching = 0
is_destroyed (writing f) = 0
is_destroyed nulling = 0
is_destroyed waking = 0
is_destroyed destroyed = 1

-- How often the data have been deleted: by the thread that has ended, or by the destructor.
abbrev pub deleted : Owner → Worker → ℕ
deleted o gone = 1
deleted o absent = is_destroyed o
deleted o signalling = 0
deleted o looping = 0
deleted o waiting = 0
deleted o loading = 0
deleted o calling = 0
deleted o running = 0
deleted o clearing = 0
deleted o (storing f) = 0
deleted o leaving = 0

pub record Sound (w : World) : Type 0 where
  pub jobs : Jobs w.owner w.worker w.shared w.accepted w.executed
  pub ending : Ending w.owner w.worker w.shared
  pub func_kept : is_live w.owner ≡ true → w.shared.func ≢ 0
  pub attached : is_live w.owner ≡ true → w.shared.flag.detached ≡ false
  pub no_exit : w.shared.flag.has_exit ≡ false
  pub none_comes : (coming w.worker w.shared.flag).has_exit ≡ false
  pub manual_in : w.shared.sig_in.manual_reset ≡ true
  pub signalled :
      is_open w.owner ≡ true
      → is_done w.worker ≡ true
      → w.shared.sig_in.state ≡ false
      → w.shared.sig_out.state ≡ true
  pub deletes_counted : w.deletes ≡ deleted w.owner w.worker
