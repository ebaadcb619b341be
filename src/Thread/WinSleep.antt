-- ===== src/Thread/WinSleep.antt =====
-- `ThisThread::Sleep` of Windows (system/thread_win32.cpp), as the list of the milliseconds that it
-- gives to the system's `Sleep`.
use prot.Prelude.{
  ℕ, zero, suc, ◌+◌, ◌-◌, ◌*◌, ◌/◌, ◌%◌, ◌^◌, ◌≤◌, ◌<◌, ◌≡◌, Bool-cases, inl, inr, ltb,
  if◌then◌else◌, Option, none, some, List, [], ◌∷◌, arith,
}

abbrev pub day : ℕ
day = 86400

-- The loop over whole days and the last call, for a duration that is not negative; `msec` is its
-- whole number of milliseconds cut to a `DWORD`. `none`: the fuel ran out.
unfoldable pub sleep_days : (fuel tsec msec : ℕ) → Option (List ℕ)
sleep_days zero tsec msec = none
sleep_days (suc fuel) tsec msec =
    let rest = sleep_days fuel (tsec - day) msec in
    if ltb day tsec
    then elim rest [ none ↦ none | some ms ↦ some (86400000 ∷ ms) ]
    else some ((tsec * 1000 + msec % 1000) % 2 ^ 32 ∷ [])

-- `Sleep(Time::TimeUnit t)` for `n` units of 100 nanoseconds.
unfoldable pub win_sleep : (n : ℕ) → Option (List ℕ)
unfolding sleep_days
win_sleep n = sleep_days (n / 10000000 + 1) (n / 10000000) (n / 10000 % 2 ^ 32)

abbrev pub total_ms : List ℕ → ℕ
total_ms [] = 0
total_ms (m ∷ ms) = m + total_ms ms

sleep_days_lem :
    (fuel tsec msec : ℕ)
    → tsec < fuel
    → (ms : List ℕ) × (sleep_days fuel tsec msec ≡ some ms)
      × (total_ms ms ≡ tsec * 1000 + msec % 1000)
unfolding sleep_days
sleep_days_lem zero tsec msec h = absurd (omega arith)
sleep_days_lem (suc fuel) tsec msec h = elim (Bool-cases (ltb day tsec)) [
  | inl more ↦
      let past : day < tsec = ground arith in
      let (ms, e, s) = sleep_days_lem fuel (tsec - day) msec (omega arith) in
      (86400000 ∷ ms, ground (arith, e), omega (arith, s))
  | inr last ↦
      let below : tsec ≤ day = ground arith in
      ((tsec * 1000 + msec % 1000) % 2 ^ 32 ∷ [], ground arith, omega arith)
]

-- `Sleep` ends, after one round for each whole day, and has slept the whole seconds; the rest below a
-- second is right as long as the milliseconds fit in 32 bits, and that of the cut number otherwise.
pub win_sleep_lem :
    (n : ℕ)
    → (ms : List ℕ) × (win_sleep n ≡ some ms)
      × (total_ms ms ≡ n / 10000000 * 1000 + n / 10000 % 2 ^ 32 % 1000)
unfolding win_sleep
win_sleep_lem n =
    sleep_days_lem (n / 10000000 + 1) (n / 10000000) (n / 10000 % 2 ^ 32) (omega arith)
