-- ===== src/Sync/Lock/Cases.antt =====
-- The tests of lock_unittest.cpp for each lock.
use prot.Prelude.{ℕ, ◌≡◌, refl, Bool, true, false, not, ◌==◌, List, [], ◌∷◌, ◌++◌}
use prot.Prelude.Int.{pos}
use prot.Time.Unit.{empty, infinitely}
use prot.Sync.Semaphore.{Sem, wait_loop}
use prot.Sync.Event.{Event, CallEnv, set, infinite_loop}
use prot.Sync.Lock.{
  ILock, invalid, spinning, singlenter, recursive, auto_reset_event, manual_reset_event,
}
use prot.Sync.Lock.Calls.{
  MutexCalls, MutexKind, singlenter_construct, recursive_construct, singlenter_lock, recursive_lock,
}
use prot.Sync.Lock.Spin.{spin_lock}
use prot.Sync.Lock.Adapters.{semaphore_lock, event_lock, event_freed}
use prot.Sync.Lock.UnitTests.{
  type_code, expect_end, expect_waiting, my_test_return_value_func, test_return_value,
  test_singlenter,
}
use prot.Sync.Lock.Results.{all_true}

-- `TestNonTypeInvalid`
unfoldable pub test_non_type_invalid : {M : Type 0} → MutexCalls M → List Bool
unfolding type_code singlenter_lock recursive_lock spin_lock
test_non_type_invalid calls =
    not (type_code invalid == type_code (singlenter_lock calls).lock_type)
    ∷ not (type_code invalid == type_code (recursive_lock calls).lock_type)
    ∷ not (type_code invalid == type_code spin_lock.lock_type)
    ∷ []

-- `TestReturnValue` for each lock; the mutexes are over any calls of the system.
unfoldable pub singlenter_return_value : {M : Type 0} → MutexCalls M → (MutexKind → M) → List Bool
unfolding singlenter_lock singlenter_construct test_return_value
singlenter_return_value calls mutex_init =
    test_return_value (singlenter_lock calls) singlenter false (singlenter_construct mutex_init)

unfoldable pub recursive_return_value : {M : Type 0} → MutexCalls M → (MutexKind → M) → List Bool
unfolding recursive_lock recursive_construct test_return_value
recursive_return_value calls mutex_init =
    test_return_value (recursive_lock calls) recursive true (recursive_construct mutex_init)

unfoldable pub spin_return_value : List Bool
unfolding spin_lock test_return_value
spin_return_value = test_return_value spin_lock spinning false 0

-- The calls on the mutex and the condition variable of an event succeed.
abbrev pub working : CallEnv
working = record { lock = 0; notify = λ n. 0; unlock = 0 }

-- An event of the given kind, whose clock is either one.
abbrev pub event : (manual_reset clock state : Bool) → Event
event manual_reset clock state = record {
  manual_reset = manual_reset;
  tick_clock = clock;
  state = state;
}

unfoldable pub auto_set_return_value : (clock : Bool) → List Bool
unfolding event_lock test_return_value
auto_set_return_value clock =
    test_return_value (event_lock working false) auto_reset_event false (event false clock true)

-- The thread waits for the event, which the test then sets.
unfoldable pub auto_reset_return_value : (clock : Bool) → List Bool
unfolding event_lock type_code my_test_return_value_func set
auto_reset_return_value clock =
    let lock = event_lock working false in
    let (r, e) = my_test_return_value_func lock 1 (event false clock false) in
    let (r', e') = my_test_return_value_func lock 1 (event_freed (set working e) e) in
    (type_code auto_reset_event == type_code lock.lock_type) ∷ expect_waiting r
    ++ (r'.finished ∷ r'.get_return ∷ not r'.try_get_return ∷ [])

unfoldable pub manual_set_return_value : (clock : Bool) → List Bool
unfolding event_lock type_code my_test_return_value_func
manual_set_return_value clock =
    let lock = event_lock working true in
    let (r, e) = my_test_return_value_func lock 1 (event true clock true) in
    let (first, e1) = lock.try_get 0 e in
    let (second, e2) = lock.try_get 0 e1 in
    let (r', e3) = my_test_return_value_func lock 1 e2 in
    (type_code manual_reset_event == type_code lock.lock_type) ∷ expect_end true r
    ++ (first ∷ second ∷ expect_end true r')

-- The thread waits for the event; the test sets it, waits for the thread and runs it again.
unfoldable pub manual_reset_return_value : (clock : Bool) → List Bool
unfolding event_lock type_code my_test_return_value_func set
manual_reset_return_value clock =
    let lock = event_lock working true in
    let (r, e) = my_test_return_value_func lock 1 (event true clock false) in
    let e' = (my_test_return_value_func lock 1 (event_freed (set working e) e)).1 in
    let (first, e1) = lock.try_get 0 e' in
    let (second, e2) = lock.try_get 0 e1 in
    (type_code manual_reset_event == type_code lock.lock_type) ∷ expect_waiting r
    ++ (first ∷ second ∷ expect_end true (my_test_return_value_func lock 1 e2).0)

-- Whatever clock the events use, their tests of `TestReturnValue` succeed.
event_return_values :
    (clock : Bool)
    → all_true (
        auto_set_return_value clock
        ++ auto_reset_return_value clock
        ++ manual_set_return_value clock
        ++ manual_reset_return_value clock)
      ≡ true
unfolding auto_set_return_value auto_reset_return_value manual_set_return_value
    manual_reset_return_value empty infinitely infinite_loop
event_return_values true = refl
event_return_values false = refl

-- `TestSinglenter` and `TestRecursively` for each lock.
unfoldable pub singlenter_singlenter : {M : Type 0} → MutexCalls M → (MutexKind → M) → List Bool
unfolding singlenter_lock singlenter_construct test_singlenter
singlenter_singlenter calls mutex_init =
    test_singlenter (singlenter_lock calls) false 4 (singlenter_construct mutex_init)

unfoldable pub recursive_recursively : {M : Type 0} → MutexCalls M → (MutexKind → M) → List Bool
unfolding recursive_lock recursive_construct test_singlenter
recursive_recursively calls mutex_init =
    test_singlenter (recursive_lock calls) true 10 (recursive_construct mutex_init)

unfoldable pub spin_singlenter : List Bool
unfolding spin_lock test_singlenter
spin_singlenter = test_singlenter spin_lock false 4 0

-- `Semaphore lock(i_set, i_max)`, when the wake-up calls succeed.
abbrev pub a_semaphore : (i_set i_max : ℕ) → (clock : Bool) → Sem
a_semaphore i_set i_max clock = record {
  current = pos i_set;
  maximum = pos i_max;
  tick_clock = clock;
}

abbrev pub posting : ILock Sem
unfolding semaphore_lock
posting = semaphore_lock (λ n. 0)

unfoldable pub semaphore_singlenter_11 : (clock : Bool) → List Bool
unfolding test_singlenter
semaphore_singlenter_11 clock = test_singlenter posting false 4 (a_semaphore 1 1 clock)

unfoldable pub semaphore_singlenter_22 : (clock : Bool) → List Bool
unfolding test_singlenter
semaphore_singlenter_22 clock = test_singlenter posting false 7 (a_semaphore 2 2 clock)

unfoldable pub semaphore_singlenter_34 : (clock : Bool) → List Bool
unfolding test_singlenter
semaphore_singlenter_34 clock = test_singlenter posting false 9 (a_semaphore 3 4 clock)

unfoldable pub semaphore_singlenter_44 : (clock : Bool) → List Bool
unfolding test_singlenter
semaphore_singlenter_44 clock = test_singlenter posting true 10 (a_semaphore 4 4 clock)

unfoldable pub auto_singlenter_t : (clock : Bool) → List Bool
unfolding event_lock test_singlenter
auto_singlenter_t clock =
    test_singlenter (event_lock working false) false 4 (event false clock true)

unfoldable pub auto_singlenter_f : (clock : Bool) → List Bool
unfolding event_lock test_singlenter
auto_singlenter_f clock =
    test_singlenter (event_lock working false) false 0 (event false clock false)

unfoldable pub manual_singlenter_t : (clock : Bool) → List Bool
unfolding event_lock test_singlenter
manual_singlenter_t clock =
    test_singlenter (event_lock working true) true 10 (event true clock true)

unfoldable pub manual_singlenter_f : (clock : Bool) → List Bool
unfolding event_lock test_singlenter
manual_singlenter_f clock =
    test_singlenter (event_lock working true) false 0 (event true clock false)

-- Whatever clock the objects use, their tests of `TestSinglenter` succeed.
singlenter_results :
    (clock : Bool)
    → all_true (
        semaphore_singlenter_11 clock
        ++ semaphore_singlenter_22 clock
        ++ semaphore_singlenter_34 clock
        ++ semaphore_singlenter_44 clock
        ++ auto_singlenter_t clock
        ++ auto_singlenter_f clock
        ++ manual_singlenter_t clock
        ++ manual_singlenter_f clock)
      ≡ true
unfolding semaphore_singlenter_11 semaphore_singlenter_22 semaphore_singlenter_34
    semaphore_singlenter_44 auto_singlenter_t auto_singlenter_f manual_singlenter_t
    manual_singlenter_f posting empty infinitely wait_loop infinite_loop
singlenter_results true = refl
singlenter_results false = refl

spin_results : all_true (spin_return_value ++ spin_singlenter) ≡ true
unfolding spin_return_value spin_singlenter
spin_results = refl
