-- ===== src/Thread/Tests.antt =====
-- The theorems about `Thread` and `ThisThread` at concrete inputs.
use prot.Prelude.{
  ◌+◌, ◌++◌, List, ◌*◌, ◌%◌, ◌^◌, ◌≡◌, ◌≢◌, refl, true, false, none, some, [], ◌∷◌, arith,
}
use prot.Time.Unit.{infinite, empty, infinitely}
use prot.Sync.Cond.{ok, WaitEnv}
use prot.Thread.{
  ThreadData, construct, destroy, tid_roll_gen_next, run_prepare, Create, run_create, is_running,
  wait_code, is_offline,
}
use prot.Thread.Ids.{tid_after, tid_distinct}
use prot.Thread.Waiting.{Exact}
use prot.Thread.Life.{
  World, Reach, start, next, run_begin, destroy_step, fresh, weight, Sound, Reach-Sound,
}
use prot.Thread.Windows.{
  WinCreate, WinEvent, run_call, kill_call, start, win_construct, win_steps, win_destroy, closed,
  balance, win_handles,
}

tid_distinct_example : (tid_roll_gen_next (tid_after 0)).0 ≢ (tid_roll_gen_next (tid_after 2)).0
tid_distinct_example = tid_distinct 0 2 (omega arith) (omega arith)

abbrev new_thread : Create
new_thread = record { code = 0; handle = 77 }

abbrev prepared : ThreadData
prepared = record (construct 0) { args = 5 }

prepared_lem : run_prepare 5 (construct 0) ≡ some prepared
unfolding run_prepare construct
prepared_lem = refl

abbrev begun : World
begun = record (fresh 0 0) {
  shared = run_create new_thread prepared;
  in_run = true;
  create = new_thread;
  new_tid = (tid_roll_gen_next ((1 + 3 * 0) % 2 ^ 32)).0;
  tid_max = (tid_roll_gen_next ((1 + 3 * 0) % 2 ^ 32)).1;
  given = 0 + 1;
  live = 0 + weight (ok 0);
}

begun-Reach : Reach 0 0 begun
begun-Reach = next start (run_begin 5 prepared new_thread refl refl prepared_lem)

Reach-Sound_example : Sound begun
Reach-Sound_example = Reach-Sound begun-Reach (omega arith)

abbrev dropped : World
dropped = record (fresh 0 0) {
  shared = (destroy (construct 0)).0;
  destroyed = true;
  frees = 0 + weight (destroy (construct 0)).1;
}

dropped-Reach : Reach 0 0 dropped
dropped-Reach = next start (destroy_step refl refl)

no_tid : dropped.shared.tid ≡ 0
unfolding destroy construct
no_tid = refl

abbrev running : ThreadData
running = record prepared { handle = 77; tid = 1; has_exit = false }

abbrev finished : ThreadData
finished = record running { has_exit = true }

abbrev patient : WaitEnv ThreadData
patient = record {
  monotonic = none;
  wall = none;
  wakes = record { code = 0; seen = finished } ∷ [];
  timed_wakes = λ _. [];
  polls = [];
}

running_lem : is_running running ≡ true
unfolding is_running
running_lem = refl

returns : wait_code patient infinite running ≡ some (0, finished)
unfolding wait_code infinitely
returns = refl

kill_knows : Exact 3 0 finished
unfolding is_offline
kill_knows = record { woken = λ _. refl; known = refl }

abbrev early : WaitEnv ThreadData
early = record patient { wakes = record { code = 0; seen = running } ∷ [] }

not_empty : empty infinite ≡ false
unfolding empty
not_empty = refl

is_infinite : infinitely infinite ≡ true
unfolding infinitely
is_infinite = refl

abbrev made_7 : WinCreate
made_7 = record { handle = 7; new_tid = 42 }

-- A thread is run, killed and run again, then it ends and is run a third time.
abbrev windows_day : List WinEvent
windows_day =
    run_call false 5 made_7
    ∷ start
    ∷ kill_call true
    ∷ run_call false 5 made_7
    ∷ start
    ∷ run_call true 6 made_7
    ∷ run_call false 6 made_7
    ∷ start
    ∷ []

windows_day_end : win_destroy (win_steps windows_day win_construct).0 ≡ some (closed 7 ∷ [])
unfolding win_destroy win_steps win_construct
windows_day_end = refl

win_handles_example :
    balance 0 ((win_steps windows_day win_construct).1 ++ (closed 7 ∷ [])) ≡ some 0
win_handles_example =
    win_handles windows_day
      (
        λ _. omega arith,
        (tt, (tt, (λ _. omega arith, (tt, (λ _. omega arith, (λ _. omega arith, (tt, tt))))))),
      )
      windows_day_end
