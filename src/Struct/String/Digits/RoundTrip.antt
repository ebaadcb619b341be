-- ===== src/Struct/String/Digits/RoundTrip.antt =====
-- What `String::FromInt` (struct/string.hh) writes reads back.
use mathlib.Core.List.{reverse, reverse-cons, reverse-append}
use prot.Prelude.{
  ℕ, zero, suc, ◌+◌, ◌-◌, ◌*◌, ◌/◌, ◌%◌, ◌^◌, ◌≤◌, ◌<◌, ◌≡◌, refl, sym, subst, ap, ◌∙◌, ◌⊎◌, inl,
  inr, Bool-cases, ltb, ◌==◌, if◌then◌else◌, some, List, [], ◌∷◌, ◌++◌, length, length-append,
  arith,
}
use prot.Prelude.Int.{ℤ, pos, negsuc, pos_part, neg_part, sub_ℕ, quot, rem}
use native.Mathlib.Nat.{zero-div, mod-eq_of_lt, mod-add-div, div-mul-le_self, mod-lt}
use prot.Struct.String.Digits.{
  Fault, outside_cmap, ch_cmap, digits, magnitude, from_int_text, digit_value, parse_loop,
  parse_int,
}

-- The number of digits that stand with the last one first.
value : (rdx : ℕ) → List ℕ → ℕ
value rdx [] = 0
value rdx (c ∷ cs) = digit_value c + rdx * value rdx cs

AllDigits : List ℕ → Type 0
AllDigits [] = Unit
AllDigits (c ∷ cs) = (b'0' ≤ c) × AllDigits cs

pow2 : ℕ → ℕ
pow2 zero = 1
pow2 (suc k) = 2 * pow2 k

parse_loop-append :
    (r acc : ℕ) (xs : List ℕ) (c : ℕ)
    → parse_loop r acc (xs ++ c ∷ []) ≡ parse_loop r acc xs * r + digit_value c
parse_loop-append r acc [] c = refl
parse_loop-append r acc (x ∷ xs) c = parse_loop-append r (acc * r + digit_value x) xs c

parse_loop-reverse : (r : ℕ) (ds : List ℕ) → parse_loop r 0 (reverse ds) ≡ value r ds
unfolding value
parse_loop-reverse r [] = refl
parse_loop-reverse r (c ∷ cs) =
    ap (parse_loop r 0) (reverse-cons c cs)
    ∙ parse_loop-append r 0 (reverse cs) c
    ∙ grind (arith, parse_loop-reverse r cs)

quot-pos : (n r : ℕ) → quot (pos n) r ≡ pos (n / r)
quot-pos n r = ground (arith, zero-div r)

zero-mod : (r : ℕ) → 1 < r → 0 % r ≡ 0
zero-mod r h = mod-eq_of_lt {m = r} (omega arith)

rem-pos : (n r : ℕ) → 1 < r → rem (pos n) r ≡ pos (n % r)
rem-pos n r h = ground (arith, zero-mod r h)

-- The character of a digit has its value.
ch_cmap_lem :
    (d : ℕ) → d < 36 → (c : ℕ) × (ch_cmap (pos d) ≡ some c) × (digit_value c ≡ d) × (b'0' ≤ c)
unfolding ch_cmap
ch_cmap_lem d h =
    (if ltb d 10 then d + b'0' else d - 10 + b'A', ground arith, ground arith, ground arith)

double-le : (q r : ℕ) → 1 < r → q * 2 ≤ q * r
double-le q r h = grind arith

half-le : (n r b : ℕ) → 1 < r → n < 2 * b → n / r < b
half-le n r b h k = omega (arith, double-le (n / r) r h, div-mul-le_self n r)

rem_digit : (n r c : ℕ) → 1 < r → ch_cmap (pos (n % r)) ≡ some c → ch_cmap (rem (pos n) r) ≡ some c
rem_digit n r c h e = ap ch_cmap (rem-pos n r h) ∙ e

digits_last :
    (room r n c : ℕ)
    → 1 < r
    → ch_cmap (pos (n % r)) ≡ some c
    → n / r ≡ 0
    → digits (suc room) r (pos n) ≡ inr (c ∷ [])
unfolding digits
digits_last room r n c h e z = ground (arith, rem_digit n r c h e, quot-pos n r, z, zero-div r)

digits_more :
    (room r n c : ℕ) (cs : List ℕ)
    → 1 < r
    → ch_cmap (pos (n % r)) ≡ some c
    → 0 < n / r
    → digits room r (pos (n / r)) ≡ inr cs
    → digits (suc room) r (pos n) ≡ inr (c ∷ cs)
unfolding digits
digits_more room r n c cs h e z f =
    let q = quot-pos n r in ground (arith, rem_digit n r c h e, f, q, z, zero-div r)

positive : {q : ℕ} (k : ℕ) → 0 < q → q < pow2 k → 0 < k
unfolding pow2
positive zero h l = absurd (omega arith)
positive (suc k) h l = omega arith

digits_lem :
    (room k r n : ℕ)
    → 1 < r
    → r < 37
    → n < pow2 k
    → 0 < k
    → k ≤ room
    → (ds : List ℕ) × (digits room r (pos n) ≡ inr ds)
      × (value r ds ≡ n)
      × AllDigits ds
      × (length ds ≤ k)
      × (0 < length ds)
unfolding digits value AllDigits pow2
digits_lem zero k r n a b lt p l = absurd (omega arith)
digits_lem (suc room) zero r n a b lt p l = absurd (omega arith)
digits_lem (suc room) (suc k) r n a b lt p l =
    let (c, e, v, d) = ch_cmap_lem (n % r) (omega (arith, mod-lt n {m = r} (omega arith))) in
    let split = mod-add-div n r in
    elim (Bool-cases (n / r == 0)) [
      | inl z ↦
          let z' : n / r ≡ 0 = ground arith in
          (
            c ∷ [],
            digits_last room r n c a e z',
            grind (arith, split),
            (d, tt),
            omega arith,
            omega arith,
          )
      | inr m ↦
          let m' : 0 < n / r = ground arith in
          let below = half-le n r (pow2 k) a lt in
          let (cs, f, w, ds, le, ne) =
            digits_lem room k r (n / r) a b below (positive k m' below) (omega arith) in
          (
            c ∷ cs,
            digits_more room r n c cs a e m' f,
            rw (v, w) split,
            (d, ds),
            omega arith,
            omega arith,
          )
    ]

-- A number of at most 64 binary digits has at most 64 characters.
wide : (n : ℕ) → n < 2 ^ 64 → n < pow2 64
unfolding pow2
wide n h = omega arith

digits_of :
    (r n : ℕ)
    → 1 < r
    → r < 37
    → n < 2 ^ 64
    → (ds : List ℕ) × (digits 80 r (pos n) ≡ inr ds)
      × (value r ds ≡ n)
      × AllDigits ds
      × (length ds ≤ 64)
      × (0 < length ds)
digits_of r n a b h = digits_lem 80 64 r n a b (wide n h) (omega arith) (omega arith)

-- A text of digits has no sign.
AllDigits-append : (xs ys : List ℕ) → AllDigits xs → AllDigits ys → AllDigits (xs ++ ys)
unfolding AllDigits
AllDigits-append [] ys h k = k
AllDigits-append (x ∷ xs) ys h k = (h.0, AllDigits-append xs ys h.1 k)

AllDigits-reverse : (xs : List ℕ) → AllDigits xs → AllDigits (reverse xs)
unfolding AllDigits
AllDigits-reverse [] h = tt
AllDigits-reverse (x ∷ xs) h =
    subst AllDigits (sym (reverse-cons x xs))
      (AllDigits-append (reverse xs) (x ∷ []) (AllDigits-reverse xs h.1) (h.0, tt))

parse_unsigned : (r : ℕ) (xs : List ℕ) → AllDigits xs → parse_int r xs ≡ pos (parse_loop r 0 xs)
unfolding AllDigits
parse_unsigned r [] h = refl
parse_unsigned r (x ∷ xs) h = ground (arith, h.0)

parse_signed :
    (r : ℕ) (ds : List ℕ) → parse_int r (reverse (ds ++ b'-' ∷ [])) ≡ sub_ℕ 0 (value r ds)
parse_signed r ds =
    ap (parse_int r) (reverse-append ds (b'-' ∷ [])) ∙ ap (sub_ℕ 0) (parse_loop-reverse r ds)

length-reverse : (ds : List ℕ) → length (reverse ds) ≡ length ds
length-reverse [] = refl
length-reverse (c ∷ cs) =
    ap length (reverse-cons c cs)
    ∙ length-append (reverse cs) (c ∷ [])
    ∙ omega (arith, length-reverse cs)

-- The text is a number that reads back, in 65 characters at most.
abbrev pub Reads : ℤ → (rdx : ℕ) → Fault ⊎ List ℕ → Type 0
Reads num rdx r = (s : List ℕ) × (r ≡ inr s) × (parse_int rdx s ≡ num) × (length s ≤ 65)

from_nonneg :
    (n rdx : ℕ) → n < 2 ^ 63 → 1 < rdx → rdx < 37 → Reads (pos n) rdx (from_int_text (pos n) rdx)
unfolding from_int_text
from_nonneg n r h a b =
    let (ds, e, v, d, l, m) = digits_of r n a b (omega arith) in
    (
      reverse ds,
      ground (arith, e),
      parse_unsigned r (reverse ds) (AllDigits-reverse ds d) ∙ ap pos (parse_loop-reverse r ds ∙ v),
      omega (arith, length-reverse ds),
    )

from_negative :
    (n rdx : ℕ)
    → suc n < 2 ^ 63
    → 1 < rdx
    → rdx < 37
    → Reads (negsuc n) rdx (from_int_text (negsuc n) rdx)
unfolding from_int_text
from_negative n r h a b =
    let (ds, e, v, d, l, m) = digits_of r (suc n) a b (omega arith) in
    let mag : magnitude (negsuc n) ≡ pos (suc n) = ground arith in
    (
      reverse (ds ++ b'-' ∷ []),
      ground (arith, ap (digits 80 r) mag ∙ e),
      parse_signed r ds ∙ ap (sub_ℕ 0) v ∙ ground arith,
      omega (arith, length-reverse (ds ++ b'-' ∷ []), length-append ds (b'-' ∷ [])),
    )

-- For every integer of 64 bits but the least one, and every radix from 2 to 36, `FromInt` makes a
-- text of at most 65 characters, so within its buffer of 80, that reads back as the integer.
pub from_int_text-Reads :
    (num : ℤ) (rdx : ℕ)
    → neg_part num < 2 ^ 63
    → pos_part num < 2 ^ 63
    → 1 < rdx
    → rdx < 37
    → Reads num rdx (from_int_text num rdx)
from_int_text-Reads (pos n) r h k a b = from_nonneg n r k a b
from_int_text-Reads (negsuc n) r h k a b = from_negative n r h a b

exact_pos : (r m : ℕ) → 0 < m → m % r ≡ 0 → 0 < m / r
exact_pos r m h z = elim (Bool-cases (m / r == 0)) [
  | inl q ↦
      let e : m / r ≡ 0 = ground arith in
      absurd (omega (arith, mod-add-div m r, ap (λ (t : ℕ). r * t) e))
  | inr p ↦ ground arith
]

-- A number that is still negative ends in an index below the table, before the room is used up.
digits_negative :
    (room k r m : ℕ)
    → 1 < r
    → suc m < pow2 k
    → 0 < k
    → k ≤ room
    → digits room r (negsuc m) ≡ inl outside_cmap
unfolding digits pow2
digits_negative zero k r m h lt p l = absurd (omega arith)
digits_negative (suc room) zero r m h lt p l = absurd (omega arith)
digits_negative (suc room) (suc k) r m h lt p l =
    let split = mod-add-div (suc m) r in
    elim (Bool-cases (suc m % r == 0)) [
      | inl z ↦
          let z' : suc m % r ≡ 0 = ground arith in
          let q : 0 < suc m / r = exact_pos r (suc m) (omega arith) z' in
          let below = half-le (suc m) r (pow2 k) h lt in
          let rest =
            digits_negative room k r (suc m / r - 1) h (omega (arith, q, below))
              (positive k q below) (omega arith) in
          ground (arith, z', q, zero-mod r h, zero-div r, rest)
      | inr n ↦ ground (arith, zero-mod r h, n)
    ]

-- The least integer of 64 bits is its own negation, so at every radix from 2 to 36 the loop reads
-- outside of its table of characters; it has room in `buf` until then.
pub from_int_text_min :
    (rdx : ℕ) → 1 < rdx → rdx < 37 → from_int_text (negsuc (2 ^ 63 - 1)) rdx ≡ inl outside_cmap
unfolding from_int_text
from_int_text_min r a b =
    let mag : magnitude (negsuc (2 ^ 63 - 1)) ≡ negsuc (2 ^ 63 - 1) = refl in
    ground (
      arith,
      digits_negative 80 64 r (2 ^ 63 - 1) a (wide (2 ^ 63) (omega arith)) (omega arith)
          (omega arith),
    )
