-- ===== src/Sync/Semaphore/Windows.antt =====
-- `Semaphore` of Windows (semaphore.cc): a system semaphore, and a count beside it that `Post` takes
-- up before it releases and `Wait` takes down after it has been let through.
use prot.Prelude.{
  ℕ, ◌+◌, ◌-◌, ◌^◌, ◌≤◌, ◌<◌, ◌≡◌, refl, Bool, true, false, ◌&&◌, ◌||◌, if◌then◌else◌, Option, none,
  some, List, [], ◌∷◌, ◌++◌, arith,
}
use prot.Prelude.Int.{ℤ, pos, pos_part, neg_part, ◌+ℤ◌, ◌-ℤ◌, leb_ℤ, ltb_ℤ, to_i32}
use prot.Sync.Semaphore.{maximum_count}

-- `SEMAPHORE_DATA` without the handle.
pub record WinSem : Type 0 where
  pub current : ℤ
  pub maximum : ℤ

-- `Semaphore::Semaphore`; `made` is whether CreateSemaphore gives a handle.
unfoldable pub win_sem_construct : (made : Bool) → (i_set i_max : ℤ) → Option WinSem
win_sem_construct made i_set i_max =
    if leb_ℤ i_set i_max
      && leb_ℤ (pos 0) i_set
      && ltb_ℤ (pos 0) i_max
      && leb_ℤ i_max maximum_count
      && made
    then some (record { current = i_set; maximum = i_max })
    else none

-- The first test of `Post`.
unfoldable pub win_post_refused : (seen : WinSem) → (i_num : ℤ) → Bool
win_post_refused seen i_num =
    leb_ℤ i_num (pos 0) || ltb_ℤ seen.maximum (to_i32 (seen.current +ℤ i_num))

-- The InterlockedAdd of `Post`, with its result `tmp`.
unfoldable pub win_post_add : (i_num : ℤ) → WinSem → ℤ × WinSem
win_post_add i_num s =
    (to_i32 (s.current +ℤ i_num), record s { current = to_i32 (s.current +ℤ i_num) })

-- Whether `Post` goes on to ReleaseSemaphore.
unfoldable pub win_post_goes_on : (tmp : ℤ) → WinSem → Bool
win_post_goes_on tmp s = leb_ℤ tmp s.maximum

-- The InterlockedAdd that takes the units back.
unfoldable pub win_post_undo : (i_num : ℤ) → WinSem → WinSem
win_post_undo i_num s = record s { current = to_i32 (s.current -ℤ i_num) }

-- The InterlockedDecrement of `Wait`, once WaitForSingleObject has returned WAIT_OBJECT_0.
unfoldable pub win_sem_take : WinSem → WinSem
win_sem_take s = record s { current = to_i32 (s.current -ℤ pos 1) }

-- What the destructor posts, for the threads that still wait, before it closes the handle.
unfoldable pub win_sem_last_post : WinSem → ℤ
win_sem_last_post s = to_i32 (s.maximum -ℤ s.current)

abbrev pub sum : List ℕ → ℕ
sum [] = 0
sum (n ∷ ns) = n + sum ns

-- `kernel` is the count of the system's semaphore. `let_in` threads have been let through and have not
-- yet taken the count down; `releasing` are the numbers of the calls of `Post` that are about to
-- release, and `undoing` of those about to take back. `posted` and `taken` are all units so far.
pub record World : Type 0 where
  pub sem : WinSem
  pub kernel : ℕ
  pub let_in : ℕ
  pub releasing : List ℕ
  pub undoing : List ℕ
  pub posted : ℕ
  pub taken : ℕ

-- The units that the count stands for.
abbrev pub total : World → ℕ
total w = w.kernel + w.let_in + sum w.releasing + sum w.undoing

-- WaitForSingleObject lets a thread through while the system's count is not 0, and takes one unit.
-- ReleaseSemaphore adds its units to that count or fails.
pub data Step (w : World) : World → Type 0 where
  wait_in :
      0 < w.kernel
      → Step w (record w { kernel = w.kernel - 1; let_in = w.let_in + 1; taken = w.taken + 1 })
  wait_end : 0 < w.let_in → Step w (record w { sem = win_sem_take w.sem; let_in = w.let_in - 1 })
  post_add :
      (seen : WinSem) (n : ℕ)
      → win_post_refused seen (pos n) ≡ false
      → total w + n < 2 ^ 31
      → win_post_goes_on (win_post_add (pos n) w.sem).0 (win_post_add (pos n) w.sem).1 ≡ true
      → Step w record w { sem = (win_post_add (pos n) w.sem).1; releasing = n ∷ w.releasing }
  post_over :
      (seen : WinSem) (n : ℕ)
      → win_post_refused seen (pos n) ≡ false
      → total w + n < 2 ^ 31
      → win_post_goes_on (win_post_add (pos n) w.sem).0 (win_post_add (pos n) w.sem).1 ≡ false
      → Step w record w { sem = (win_post_add (pos n) w.sem).1; undoing = n ∷ w.undoing }
  release :
      (n : ℕ) (before after : List ℕ)
      → w.releasing ≡ before ++ (n ∷ after)
      → Step w
          record w { kernel = w.kernel + n; releasing = before ++ after; posted = w.posted + n }
  release_fails :
      (n : ℕ) (before after : List ℕ)
      → w.releasing ≡ before ++ (n ∷ after)
      → Step w record w { releasing = before ++ after; undoing = n ∷ w.undoing }
  undo :
      (n : ℕ) (before after : List ℕ)
      → w.undoing ≡ before ++ (n ∷ after)
      → Step w record w { sem = win_post_undo (pos n) w.sem; undoing = before ++ after }

pub data Reach (made : Bool) (i_set i_max : ℤ) : World → Type 0 where
  start :
      {s : WinSem}
      → win_sem_construct made i_set i_max ≡ some s
      → Reach made i_set i_max record {
        sem = s;
        kernel = pos_part i_set;
        let_in = 0;
        releasing = [];
        undoing = [];
        posted = 0;
        taken = 0;
      }
  next : {v w : World} → Reach made i_set i_max v → Step v w → Reach made i_set i_max w

sum-split :
    (n : ℕ) (before after : List ℕ) → sum (before ++ (n ∷ after)) ≡ n + sum (before ++ after)
sum-split n [] after = refl
sum-split n (b ∷ before) after = omega (arith, sum-split n before after)

-- The count is that of the system's semaphore and of all calls on their way; all units that can still
-- be taken are within the maximum, which is within the system's; and nothing is lost or made up.
pub record Sound (initial : ℕ) (w : World) : Type 0 where
  pub counted : w.sem.current ≡ pos (total w)
  pub small : total w < 2 ^ 31
  pub bounded : pos_part w.sem.maximum ≤ 2109876543
  pub natural : neg_part w.sem.maximum ≡ 0
  pub within : w.kernel + w.let_in + sum w.releasing ≤ pos_part w.sem.maximum
  pub balance : w.kernel + w.taken ≡ initial + w.posted

to_i32_pos : (n : ℕ) → n < 2 ^ 31 → to_i32 (pos n) ≡ pos n
to_i32_pos n h = ground arith

Step-Sound : {i : ℕ} {v w : World} → Step v w → Sound i v → Sound i w
unfolding win_post_add win_post_goes_on win_post_undo win_sem_take
Step-Sound {i} {v} (wait_in p) s = ground (arith, s)
Step-Sound {i} {v} (wait_end p) s = ground (arith, s, to_i32_pos (total v - 1))
Step-Sound {i} {v} (post_add seen n p q r) s = ground (arith, s, q, to_i32_pos (total v + n))
Step-Sound {i} {v} (post_over seen n p q r) s = ground (arith, s, q, to_i32_pos (total v + n))
Step-Sound {i} {v} (release n before after p) s = ground (arith, s, sum-split n before after, p)
Step-Sound {i} {v} (release_fails n before after p) s =
    ground (arith, s, sum-split n before after, p)
Step-Sound {i} {v} (undo n before after p) s =
    ground (arith, s, sum-split n before after, p, to_i32_pos (total v - n))

-- From a semaphore as the constructor makes it, however many threads call `Wait` and `Post` and however
-- their steps interleave: the count beside the system's semaphore is the units in that and those of
-- the calls on their way; the units that can be taken or are about to be released stay within the
-- maximum, so that ReleaseSemaphore never meets its own; and the units left and the units taken are
-- together the initial ones and the posted ones. (No `SetMax`, and no sum beyond `Int32`.)
pub Reach-Sound_windows :
    {made : Bool} {i_set i_max : ℤ} {w : World}
    → Reach made i_set i_max w
    → Sound (pos_part i_set) w
unfolding win_sem_construct
Reach-Sound_windows {made} {i_set} {i_max} (start e) = ground (arith, e)
Reach-Sound_windows (next r st) = Step-Sound st (Reach-Sound_windows r)
