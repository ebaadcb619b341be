-- ===== src/Sync/Lock/Spin.antt =====
-- The spin lock of lock_posix.cpp on x86 and of lock_win32.cpp: a word that is 0 while the lock is
-- free.
use prot.Prelude.{ℕ, ◌==◌, Bool, true, if◌then◌else◌}
use prot.Sync.Lock.{ILock, Attempt, returns, waits, spinning}

-- `xchg`, and `InterlockedExchange`: the old word, and the new one.
unfoldable pub xchg : (value word : ℕ) → ℕ × ℕ
xchg value word = (word, value)

-- One round of the loop of `Get`.
unfoldable pub spin_round : (word : ℕ) → Attempt ℕ
unfolding xchg
spin_round word = let (a, word') = xchg 1 word in if a == 0 then returns true word' else waits word'

unfoldable pub spin_try_get : (word : ℕ) → Bool × ℕ
unfolding xchg
spin_try_get word = let (a, word') = xchg 1 word in (a == 0, word')

unfoldable pub spin_free : (word : ℕ) → ℕ
unfolding xchg
spin_free word = (xchg 0 word).1

-- `SpinLock`; `_syo` starts as a null pointer, the word 0.
unfoldable pub spin_lock : ILock ℕ
unfolding spin_round spin_try_get spin_free
spin_lock = record {
  lock_type = spinning;
  get = λ t word. spin_round word;
  free = λ t word. spin_free word;
  try_get = λ t word. spin_try_get word;
}
