-- ===== src/Pool/Calc/Tokens.antt =====
-- The data of each thread is at one place only: in the list, with its thread, or with the main thread.
use prot.Prelude.{
  ℕ, suc, ◌+◌, ◌<◌, ◌≡◌, ◌≢◌, ◌==◌, if◌then◌else◌, List, [], ◌∷◌, ◌++◌, length, subst, ◌∙◌, arith,
}
use prot.Pool.Calc.{
  Line, Place, resting, looping, adding, linking, flagging, posting, Hold, free, got, given,
  deleted,
}

-- A thread that has its data, from the call of its function to the list.
abbrev pub is_busy : Place → ℕ
is_busy resting = 0
is_busy looping = 1
is_busy (adding r) = 1
is_busy linking = 1
is_busy flagging = 0
is_busy posting = 0

-- A thread that is behind the list and before the end of `Post`.
abbrev pub is_ending : Place → ℕ
is_ending resting = 0
is_ending looping = 0
is_ending (adding r) = 0
is_ending linking = 0
is_ending flagging = 1
is_ending posting = 1

-- Data that `d` points to, with or without that of a deleted thread.
abbrev pub is_held : Hold → ℕ
is_held free = 0
is_held got = 1
is_held given = 1
is_held deleted = 0

abbrev pub is_away : Hold → ℕ
is_away free = 0
is_away got = 1
is_away given = 1
is_away deleted = 1

abbrev pub token : Line → ℕ
token l = is_busy l.place + is_away l.hold

-- How often the list has a number.
abbrev pub occ : ℕ → List ℕ → ℕ
occ j [] = 0
occ j (x ∷ xs) = (if x == j then 1 else 0) + occ j xs

-- The data from the i-th on.
abbrev pub Tokens : List ℕ → ℕ → List Line → Type 0
Tokens q i [] = Unit
Tokens q i (l ∷ ls) = (occ i q + token l ≡ 1) × Tokens q (suc i) ls

-- All numbers of the list are below n.
abbrev pub Below : ℕ → List ℕ → Type 0
Below n [] = Unit
Below n (x ∷ xs) = (x < n) × Below n xs

pub occ-append :
    (j x : ℕ) (q : List ℕ) → occ j (q ++ (x ∷ [])) ≡ occ j q + (if x == j then 1 else 0)
occ-append j x [] = omega arith
occ-append j x (y ∷ q) = omega (arith, occ-append j x q)

pub Below-append : (n x : ℕ) (q : List ℕ) → x < n → Below n q → Below n (q ++ (x ∷ []))
Below-append n x [] h b = (h, tt)
Below-append n x (y ∷ q) h (c, b) = (c, Below-append n x q h b)

pub Tokens-at :
    (q : List ℕ) (i : ℕ) (before after : List Line) (l : Line)
    → Tokens q i (before ++ (l ∷ after))
    → occ (i + length before) q + token l ≡ 1
Tokens-at q i [] after l (t, ts) =
    let e : i ≡ i + 0 = omega arith in subst (λ j. occ j q + token l ≡ 1) e t
Tokens-at q i (m ∷ before) after l (t, ts) =
    let e : suc i + length before ≡ i + suc (length before) = omega arith in
    subst (λ j. occ j q + token l ≡ 1) e (Tokens-at q (suc i) before after l ts)

-- Two lists that have the numbers from the k-th on equally often.
Tokens-same :
    (q q' : List ℕ) (i k : ℕ) (ls : List Line)
    → i < k
    → ((j : ℕ) → j ≢ i → occ j q' ≡ occ j q)
    → Tokens q k ls
    → Tokens q' k ls
Tokens-same q q' i k [] h other ts = tt
Tokens-same q q' i k (l ∷ ls) h other (t, ts) = (
  omega (arith, t, other k (λ e. omega (arith, e, h))),
  Tokens-same q q' i (suc k) ls (omega (arith, h)) other ts,
)

-- Only the place that changes may change how often the list has its number.
pub Tokens-set :
    (q q' : List ℕ) (i : ℕ) (before after : List Line) (l l' : Line)
    → Tokens q i (before ++ (l ∷ after))
    → ((j : ℕ) → j ≢ i + length before → occ j q' ≡ occ j q)
    → occ (i + length before) q' + token l' ≡ 1
    → Tokens q' i (before ++ (l' ∷ after))
Tokens-set q q' i [] after l l' (t, ts) other here =
    let e : i + 0 ≡ i = omega arith in
    (
      subst (λ j. occ j q' + token l' ≡ 1) e here,
      Tokens-same q q' i (suc i) after (omega arith) (λ j ne. other j (λ e'. ne (e' ∙ e))) ts,
    )
Tokens-set q q' i (m ∷ before) after l l' (t, ts) other here =
    let e : i + suc (length before) ≡ suc i + length before = omega arith in
    (
      omega (arith, t, other i (λ e'. omega (arith, e'))),
      Tokens-set q q' (suc i) before after l l' ts (λ j ne. other j (λ e'. ne (e' ∙ e)))
          (subst (λ j. occ j q' + token l' ≡ 1) e here),
    )
