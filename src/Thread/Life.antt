-- ===== src/Thread/Life.antt =====
-- The life of the data that a `Thread` object shares with its thread: the calls of the owner, and
-- the exits of the threads that were created, in any order.
use prot.Prelude.{
  ℕ, ◌+◌, ◌-◌, ◌*◌, ◌%◌, ◌^◌, ◌≤◌, ◌<◌, ◌≡◌, ◌≢◌, refl, Bool, true, false, ◌&&◌, ◌==◌,
  if◌then◌else◌, some, arith,
}
use prot.Sync.Cond.{Code, ok}
use prot.Thread.{
  ThreadData, construct, destroy, exit_callback, tid_roll_gen_next, run_prepare, Create, run_create,
  run_finish, this_id,
}

-- `live` threads have been created and have not run the exit callback; `given` identifiers have been
-- handed out in the process, and `frees` counts the calls of `_FreeThreadData`. While `in_run` is
-- set the owner is in `Run` behind `pthread_create`, with its result and the new identifier.
pub record World : Type 0 where
  pub shared : ThreadData
  pub in_run : Bool
  pub create : Create
  pub new_tid : ℕ
  pub tid_max : ℕ
  pub given : ℕ
  pub live : ℕ
  pub destroyed : Bool
  pub frees : ℕ

abbrev pub weight : Bool → ℕ
weight b = if b then 1 else 0

pub data Step (w : World) : World → Type 0 where
  -- Other `Thread` objects take identifiers too.
  other_run : Step w (record w { tid_max = (tid_roll_gen_next w.tid_max).1; given = w.given + 1 })
  run_begin :
      (args : ℕ) (d : ThreadData) (c : Create)
      → w.in_run ≡ false
      → w.destroyed ≡ false
      → run_prepare args w.shared ≡ some d
      → Step w record w {
        shared = run_create c d;
        in_run = true;
        create = c;
        new_tid = (tid_roll_gen_next w.tid_max).0;
        tid_max = (tid_roll_gen_next w.tid_max).1;
        given = w.given + 1;
        live = w.live + weight (ok c.code);
      }
  run_end :
      w.in_run ≡ true
      → Step w (record w { shared = (run_finish w.create w.new_tid w.shared).1; in_run = false })
  exit_step :
      0 < w.live
      → Step w record w {
        shared = (exit_callback w.shared).0;
        live = w.live - 1;
        frees = w.frees + weight (exit_callback w.shared).1;
      }
  destroy_step :
      w.in_run ≡ false
      → w.destroyed ≡ false
      → Step w record w {
        shared = (destroy w.shared).0;
        destroyed = true;
        frees = w.frees + weight (destroy w.shared).1;
      }

-- From the constructor, in a process that has handed out `given` identifiers.
abbrev pub fresh : (set_clock : Code) (given : ℕ) → World
fresh set_clock given = record {
  shared = construct set_clock;
  in_run = false;
  create = record { code = 0; handle = 0 };
  new_tid = 0;
  tid_max = (1 + 3 * given) % 2 ^ 32;
  given = given;
  live = 0;
  destroyed = false;
  frees = 0;
}

pub data Reach (set_clock : Code) (given : ℕ) : World → Type 0 where
  start : Reach set_clock given (fresh set_clock given)
  next : {v w : World} → Reach set_clock given v → Step v w → Reach set_clock given w

-- How many threads have been created since the data were last made ready.
abbrev pub created : World → ℕ
created w = if w.in_run then weight (ok w.create.code) else if w.shared.tid == 0 then 0 else 1

-- What holds while the owner is in `Run`.
abbrev pub InRun : World → Type 0
InRun w = (w.new_tid ≢ 0) × (w.shared.tid ≡ 0) × (w.destroyed ≡ false)

-- At most one thread uses the data, it is the one that was created last, and the data are freed
-- once, when both the destructor has run and that thread has exited.
pub record Sound (w : World) : Type 0 where
  pub counter : w.tid_max ≡ (1 + 3 * w.given) % 2 ^ 32
  pub one_thread : w.live + weight w.shared.has_exit ≡ created w
  pub run : w.in_run ≡ true → InRun w
  pub detached : w.shared.is_detached ≡ w.destroyed
  pub freed : w.frees ≡ weight (w.destroyed && w.shared.has_exit)

Step-Sound : {v w : World} → Step v w → w.given ≤ 1431655765 → Sound v → Sound w
unfolding tid_roll_gen_next run_prepare run_create run_finish exit_callback destroy
Step-Sound {v} other_run h s = ground (arith, s.run)
Step-Sound {v} (run_begin args d c p q r) h s = ground (arith, s.run)
Step-Sound {v} (run_end p) h s = ground (arith, s.run p)
Step-Sound {v} (exit_step l) h s = ground (arith, s.run)
Step-Sound {v} (destroy_step p q) h s = ground (arith, s.run)

given_mono : {v w : World} → Step v w → v.given ≤ w.given
given_mono other_run = omega arith
given_mono (run_begin args d c p q r) = omega arith
given_mono (run_end p) = omega arith
given_mono (exit_step l) = omega arith
given_mono (destroy_step p q) = omega arith

-- Whatever the owner calls and whenever the threads exit, as long as the process has handed out at
-- most 1431655765 identifiers: at most one thread uses the data; outside `Run` it is there exactly
-- if an identifier is stored and the exit flag is not set; and the data are freed once the destructor
-- has run and that thread has exited, never earlier and never twice.
pub Reach-Sound :
    {set_clock : Code} {given : ℕ} {w : World}
    → Reach set_clock given w
    → w.given ≤ 1431655765
    → Sound w
unfolding construct
Reach-Sound start h = record {
  counter = refl;
  one_thread = ground arith;
  run = λ e. cc;
  detached = refl;
  freed = refl;
}
Reach-Sound (next {v} r st) h =
    let h' : v.given ≤ 1431655765 = omega (arith, given_mono st) in
    Step-Sound st h (Reach-Sound r h')

leak :
    {w x : World}
    → Step w x
    → Sound w
    → w.destroyed ≡ true
    → w.shared.tid ≡ 0
    → (w.frees ≡ 0) × (x.frees ≡ 0) × (x.shared ≡ w.shared)
unfolding destroy exit_callback run_finish
leak {w} other_run s d t = ground (arith, s.run)
leak {w} (run_begin args c e p q r) s d t = cc
leak {w} (run_end p) s d t = ground (arith, s.run p)
leak {w} (exit_step l) s d t = ground (arith, s.run)
leak {w} (destroy_step p q) s d t = cc

-- Where the destructor has run with no identifier stored, because `Run` was never called or
-- failed, nothing has been freed, and nothing that can still happen to the data frees them.
pub unused_leaks :
    {set_clock : Code} {given : ℕ} {w x : World}
    → Reach set_clock given w
    → w.given ≤ 1431655765
    → w.destroyed ≡ true
    → w.shared.tid ≡ 0
    → Step w x
    → (w.frees ≡ 0) × (x.frees ≡ 0) × (x.shared ≡ w.shared)
unused_leaks r h d t st = leak st (Reach-Sound r h) d t

-- Between `pthread_create` and the end of `Run`, the identifier that `ThisThread::GetID` finds in
-- the new thread is 0.
pub this_id-InRun :
    {set_clock : Code} {given : ℕ} {w : World} (self : ℕ)
    → Reach set_clock given w
    → w.given ≤ 1431655765
    → w.in_run ≡ true
    → this_id (some w.shared) self ≡ 0
unfolding this_id
this_id-InRun self r h e = ((Reach-Sound r h).run e).1
