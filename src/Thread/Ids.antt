-- ===== src/Thread/Ids.antt =====
-- The thread identifiers (`_TidRollGenNext` in system/thread_posix.cpp).
use prot.Prelude.{ℕ, zero, suc, ◌+◌, ◌*◌, ◌%◌, ◌^◌, ◌<◌, ◌≡◌, ◌≢◌, arith}
use prot.Thread.{tid_roll_gen_next}

-- `tid_max` after n calls, from its initial value 1.
abbrev pub tid_after : ℕ → ℕ
tid_after zero = 1
tid_after (suc n) = (tid_roll_gen_next (tid_after n)).1

pub tid_after_lem : (n : ℕ) → tid_after n ≡ (1 + 3 * n) % 2 ^ 32
unfolding tid_roll_gen_next
tid_after_lem zero = omega arith
tid_after_lem (suc n) = omega (arith, tid_after_lem n)

-- The identifiers of two of any 2 ^ 32 calls in a row are different.
pub tid_distinct :
    (m n : ℕ)
    → m < n
    → n < m + 2 ^ 32
    → (tid_roll_gen_next (tid_after m)).0 ≢ (tid_roll_gen_next (tid_after n)).0
unfolding tid_roll_gen_next
tid_distinct m n h k = λ e. omega (arith, e, tid_after_lem m, tid_after_lem n)

-- The identifier 0, by which `Run` says that it failed, is handed out by call number 1431655765,
-- counted from 0, and by none of the calls before it.
pub tid_zero :
    (n : ℕ)
    → n < 1431655765
    → ((tid_roll_gen_next (tid_after n)).0 ≢ 0) × ((tid_roll_gen_next (tid_after 1431655765)).0 ≡ 0)
unfolding tid_roll_gen_next
tid_zero n h = (λ e. omega (arith, e, tid_after_lem n), tid_after_lem 1431655765)
