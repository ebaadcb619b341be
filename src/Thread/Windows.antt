-- ===== src/Thread/Windows.antt =====
-- system/thread_win32.cpp: `Thread` of Windows, and its handles.
use prot.Prelude.{
  ℕ, ◌≡◌, ◌≢◌, refl, ◌∙◌, Bool, true, false, not, ◌&&◌, ◌==◌, if◌then◌else◌, Option, none, some,
  List, [], ◌∷◌, ◌++◌, arith,
}

-- `THREAD_DATA`; `started` is the bit TDFLAG_STARTING, which the new thread sets.
pub record WinThread : Type 0 where
  pub tid : ℕ
  pub thread : ℕ
  pub args : ℕ
  pub started : Bool

-- What is done with handles.
pub data HandleCall : Type 0 where
  opened closed : (handle : ℕ) → HandleCall

-- `_GetThreadState` is `Running`: GetExitCodeThread succeeds with STILL_ACTIVE.
unfoldable pub is_active : (succeeded : Bool) → (status : ℕ) → Bool
is_active succeeded status = succeeded && status == 259

-- `Thread::Thread`
unfoldable pub win_construct : WinThread
win_construct = record { tid = 0; thread = 0; args = 0; started = false }

-- `CreateThread`: its handle, null if it fails, and the identifier.
pub record WinCreate : Type 0 where
  pub handle : ℕ
  pub new_tid : ℕ

-- `Run` up to `CreateThread`: the data made ready and the handle that it closes, or no more.
unfoldable pub win_prepare : (active : Bool) → WinThread → Option (WinThread × List HandleCall)
win_prepare active d =
    if d.tid == 0
    then some (d, [])
    else if active
    then none
    else some (record d { tid = 0; thread = 0; started = false }, closed d.thread ∷ [])

unfoldable pub win_create : (args : ℕ) → WinCreate → WinThread → WinThread × List HandleCall
win_create args c d =
    if c.handle == 0
    then (record d { args = args; thread = 0 }, [])
    else (record d { args = args; thread = c.handle; tid = c.new_tid }, opened c.handle ∷ [])

-- `Thread::Run`: the result, the data and what it does with handles.
unfoldable pub win_run :
    (active : Bool) → (args : ℕ) → WinCreate → WinThread → ℕ × WinThread × List HandleCall
unfolding win_prepare win_create
win_run active args c d = elim (win_prepare active d) [
  | none ↦ (0, d, [])
  | some (e, hs) ↦ let (f, gs) = win_create args c e in (f.tid, f, hs ++ gs)
]

-- The start of the new thread's procedure.
unfoldable pub win_start : WinThread → WinThread
win_start d = record d { started = true }

-- `Thread::Wait`, from what WaitForSingleObject returns: 0 is WAIT_OBJECT_0, 258 WAIT_TIMEOUT.
unfoldable pub win_wait : (status : ℕ) → (active : Bool) → WinThread → Bool
win_wait status active d =
    if d.thread == 0
    then true
    else if status == 0
    then true
    else if status == 258
    then false
    else not active

-- `Thread::Kill`
unfoldable pub win_kill : (terminated : Bool) → WinThread → Bool × WinThread × List HandleCall
win_kill terminated d =
    if not (d.thread == 0) && terminated
    then (true, record d { tid = 0; thread = 0; started = false }, closed d.thread ∷ [])
    else (false, d, [])

-- `Thread::Status`
unfoldable pub win_status : (active : Bool) → WinThread → Bool
win_status active d = not (d.thread == 0) && active

-- `Thread::~Thread`, behind the loop that waits for the start of the thread; `none` while it waits.
unfoldable pub win_destroy : WinThread → Option (List HandleCall)
win_destroy d =
    if d.thread == 0 then some [] else if d.started then some (closed d.thread ∷ []) else none

-- What happens to an object between its constructor and its destructor.
pub data WinEvent : Type 0 where
  run_call : (active : Bool) → (args : ℕ) → WinCreate → WinEvent
  kill_call : (terminated : Bool) → WinEvent
  start : WinEvent

unfoldable pub win_step : WinEvent → WinThread → WinThread × List HandleCall
unfolding win_run win_kill win_start
win_step (run_call active args c) d = ((win_run active args c d).1, (win_run active args c d).2)
win_step (kill_call terminated) d = ((win_kill terminated d).1, (win_kill terminated d).2)
win_step start d = (win_start d, [])

unfoldable pub win_steps : List WinEvent → WinThread → WinThread × List HandleCall
unfolding win_step
win_steps [] d = (d, [])
win_steps (e ∷ es) d = let (d', hs) = win_step e d in let (f, gs) = win_steps es d' in (f, hs ++ gs)

-- The handle that is open after the calls, starting with `h` (0 for none): `none` if one is closed
-- that is not open, or opened while another one is.
abbrev pub balance : ℕ → List HandleCall → Option ℕ
balance h [] = some h
balance h (opened g ∷ cs) = if h == 0 then balance g cs else none
balance h (closed g ∷ cs) = if h == 0 then none else if g == h then balance 0 cs else none

-- `CreateThread` gives an identifier with a handle.
abbrev pub IsCreate : WinEvent → Type 0
IsCreate (run_call active args c) = c.handle ≢ 0 → c.new_tid ≢ 0
IsCreate (kill_call terminated) = Unit
IsCreate start = Unit

abbrev pub AllCreate : List WinEvent → Type 0
AllCreate [] = Unit
AllCreate (e ∷ es) = IsCreate e × AllCreate es

-- An identifier is stored exactly with a handle.
abbrev Matched : WinThread → Type 0
Matched d = (d.tid == 0) ≡ (d.thread == 0)

balance-append :
    (h : ℕ) (cs ds : List HandleCall) {g : ℕ}
    → balance h cs ≡ some g
    → balance h (cs ++ ds) ≡ balance g ds
balance-append h [] ds e = ground (arith, e)
balance-append h (opened k ∷ cs) ds {g} e = ground (arith, e, balance-append k cs ds {g = g})
balance-append h (closed k ∷ cs) ds {g} e = ground (arith, e, balance-append 0 cs ds {g = g})

win_step_lem :
    (e : WinEvent) (d : WinThread)
    → IsCreate e
    → Matched d
    → Matched (win_step e d).0 × (balance d.thread (win_step e d).1 ≡ some (win_step e d).0.thread)
unfolding win_step
win_step_lem (run_call active args c) d i m = ground (arith, i)
win_step_lem (kill_call terminated) d i m = ground arith
win_step_lem start d i m = ground arith

win_steps_lem :
    (es : List WinEvent) (d : WinThread)
    → AllCreate es
    → Matched d
    → balance d.thread (win_steps es d).1 ≡ some (win_steps es d).0.thread
unfolding win_steps
win_steps_lem [] d i m = refl
win_steps_lem (e ∷ es) d i m =
    let (m', b) = win_step_lem e d i.0 m in
    balance-append d.thread (win_step e d).1 (win_steps es (win_step e d).0).1 b
    ∙ win_steps_lem es (win_step e d).0 i.1 m'

-- Whatever is called between the constructor and the destructor, each handle that `CreateThread`
-- gives is closed exactly once, and only while it is open, and none is left when the destructor
-- returns.
pub win_handles :
    (es : List WinEvent) {hs : List HandleCall}
    → AllCreate es
    → win_destroy (win_steps es win_construct).0 ≡ some hs
    → balance 0 ((win_steps es win_construct).1 ++ hs) ≡ some 0
unfolding win_construct win_destroy
win_handles es {hs} i e =
    balance-append 0 (win_steps es win_construct).1 hs (win_steps_lem es win_construct i refl)
    ∙ ground (arith, e)
