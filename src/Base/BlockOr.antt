-- ===== src/Base/BlockOr.antt =====
-- `Bits::Or` of base/bitops.hh: two blocks of bytes are joined a word of eight bytes at a time, lowest
-- byte first, and the rest byte by byte.
use Prim.Native.Nat.{bit_or}
use prot.Prelude.{
  ℕ, zero, suc, ◌+◌, ◌-◌, ◌*◌, ◌/◌, ◌%◌, ◌≤◌, ◌<◌, max, ◌≡◌, refl, ap, ◌∙◌, if◌then◌else◌, leb,
  Option, none, some, List, [], ◌∷◌, ◌++◌, take, drop, length, length-take, length-drop, Bool-cases,
  inl, inr, arith,
}
use prot.Base.Bits.{or_digit}

-- The value of the bytes at a pointer, as a word, and the bytes of a word.
unfoldable pub load_word : List ℕ → ℕ
load_word [] = 0
load_word (b ∷ bs) = b + 256 * load_word bs

unfoldable pub store_word : (k word : ℕ) → List ℕ
store_word zero w = []
store_word (suc k) w = w % 256 ∷ store_word k (w / 256)

-- The loop over the bytes that are left.
unfoldable pub or_tail : (n : ℕ) → (p1 p2 : List ℕ) → List ℕ
or_tail zero p1 p2 = []
or_tail (suc n) [] p2 = []
or_tail (suc n) (a ∷ l) [] = []
or_tail (suc n) (a ∷ l) (b ∷ m) = bit_or a b ∷ or_tail n l m

-- Both loops, on `n` bytes; `none` if the fuel ran out.
unfoldable pub or_block : (fuel n : ℕ) → (p1 p2 : List ℕ) → Option (List ℕ)
unfolding load_word store_word or_tail
or_block zero n p1 p2 = none
or_block (suc fuel) n p1 p2 =
    let rest = or_block fuel (n - 8) (drop 8 p1) (drop 8 p2) in
    if leb 8 n
    then elim rest [
      | none ↦ none
      | some bs ↦ some (store_word 8 (bit_or (load_word (take 8 p1)) (load_word (take 8 p2))) ++ bs)
    ]
    else some (or_tail n p1 p2)

-- All numbers are bytes.
abbrev pub AllBytes : List ℕ → Type 0
AllBytes [] = Unit
AllBytes (b ∷ bs) = (b < 256) × AllBytes bs

or_pair : (a b x y : ℕ) → a < 2 → b < 2 → bit_or (a + 2 * x) (b + 2 * y) ≡ max a b + 2 * bit_or x y
or_pair a b x y h k =
    let ea : (a + 2 * x) % 2 ≡ a = omega arith in
    let eb : (b + 2 * y) % 2 ≡ b = omega arith in
    let ex : (a + 2 * x) / 2 ≡ x = omega arith in
    let ey : (b + 2 * y) / 2 ≡ y = omega arith in
    or_digit (a + 2 * x) (b + 2 * y) ∙ rw (ea, eb, ex, ey) (omega arith)

-- 2 ^ k, and a number times that.
abbrev power : ℕ → ℕ
power zero = 1
power (suc k) = 2 * power k

abbrev shift : ℕ → ℕ → ℕ
shift zero x = x
shift (suc k) x = 2 * shift k x

or_below : (k a b : ℕ) → a < power k → b < power k → bit_or a b < power k
or_below zero a b h l =
    let ea : a ≡ 0 = omega arith in let eb : b ≡ 0 = omega arith in rw (ea, eb) (omega arith)
or_below (suc k) a b h l =
    omega (arith, or_digit a b, or_below k (a / 2) (b / 2) (omega arith) (omega arith))

or_shift :
    (k a b x y : ℕ)
    → a < power k
    → b < power k
    → bit_or (a + shift k x) (b + shift k y) ≡ bit_or a b + shift k (bit_or x y)
or_shift zero a b x y h l =
    let ea : a ≡ 0 = omega arith in
    let eb : b ≡ 0 = omega arith in
    let ex : 0 + x ≡ x = omega arith in
    let ey : 0 + y ≡ y = omega arith in rw (ea, eb, ex, ey) (omega arith)
or_shift (suc k) a b x y h l =
    let ea : a + 2 * shift k x ≡ a % 2 + 2 * (a / 2 + shift k x) = omega arith in
    let eb : b + 2 * shift k y ≡ b % 2 + 2 * (b / 2 + shift k y) = omega arith in
    rw (ea, eb)
      (omega (
        arith,
        or_pair (a % 2) (b % 2) (a / 2 + shift k x) (b / 2 + shift k y) (omega arith) (omega arith),
        or_shift k (a / 2) (b / 2) x y (omega arith) (omega arith),
        or_digit a b,
      ))

or_byte :
    (a b x y : ℕ)
    → a < 256
    → b < 256
    → bit_or (a + 256 * x) (b + 256 * y) ≡ bit_or a b + 256 * bit_or x y
or_byte a b x y h l =
    let ex : 256 * x ≡ shift 8 x = omega arith in
    let ey : 256 * y ≡ shift 8 y = omega arith in
    rw (ex, ey) (omega (arith, or_shift 8 a b x y (omega arith) (omega arith)))

-- The bytes of the joined words are the joined bytes.
store_word-or :
    (k : ℕ) (p1 p2 : List ℕ)
    → length p1 ≡ k
    → length p2 ≡ k
    → AllBytes p1
    → AllBytes p2
    → store_word k (bit_or (load_word p1) (load_word p2)) ≡ or_tail k p1 p2
unfolding store_word load_word or_tail
store_word-or zero p1 p2 h l b c = refl
store_word-or (suc k) [] p2 h l b c = absurd (omega arith)
store_word-or (suc k) (x ∷ p1) [] h l b c = absurd (omega arith)
store_word-or (suc k) (x ∷ p1) (y ∷ p2) h l b c =
    let below : bit_or x y < 256 = omega (arith, or_below 8 x y (omega arith) (omega arith)) in
    let e = or_byte x y (load_word p1) (load_word p2) b.0 c.0 in
    let low : bit_or (x + 256 * load_word p1) (y + 256 * load_word p2) % 256 ≡ bit_or x y =
      omega (arith, e) in
    let high : bit_or (x + 256 * load_word p1) (y + 256 * load_word p2) / 256
        ≡ bit_or (load_word p1) (load_word p2) =
      omega (arith, e) in
    rw (low, high, store_word-or k p1 p2 (omega arith) (omega arith) b.1 c.1) refl

AllBytes-take : (k : ℕ) (p : List ℕ) → AllBytes p → AllBytes (take k p)
AllBytes-take zero p b = tt
AllBytes-take (suc k) [] b = tt
AllBytes-take (suc k) (x ∷ p) b = (b.0, AllBytes-take k p b.1)

AllBytes-drop : (k : ℕ) (p : List ℕ) → AllBytes p → AllBytes (drop k p)
AllBytes-drop zero p b = b
AllBytes-drop (suc k) [] b = tt
AllBytes-drop (suc k) (x ∷ p) b = AllBytes-drop k p b.1

or_tail-split :
    (k m : ℕ) (p1 p2 : List ℕ)
    → k ≤ length p1
    → k ≤ length p2
    → or_tail k (take k p1) (take k p2) ++ or_tail m (drop k p1) (drop k p2) ≡ or_tail (m + k) p1 p2
unfolding or_tail
or_tail-split zero m p1 p2 h l = let e : m + 0 ≡ m = omega arith in rw e refl
or_tail-split (suc k) m [] p2 h l = absurd (omega arith)
or_tail-split (suc k) m (x ∷ p1) [] h l = absurd (omega arith)
or_tail-split (suc k) m (x ∷ p1) (y ∷ p2) h l =
    let e : m + suc k ≡ suc (m + k) = omega arith in
    rw e (ap (λ z. bit_or x y ∷ z) (or_tail-split k m p1 p2 (omega arith) (omega arith)))

-- The word-wise loop joins the two blocks byte by byte, as a loop over the bytes alone would.
pub or_block_lem :
    (fuel n : ℕ) (p1 p2 : List ℕ)
    → n < 8 * fuel
    → n ≤ length p1
    → n ≤ length p2
    → AllBytes p1
    → AllBytes p2
    → or_block fuel n p1 p2 ≡ some (or_tail n p1 p2)
unfolding or_block
or_block_lem zero n p1 p2 f h l b c = absurd (omega arith)
or_block_lem (suc fuel) n p1 p2 f h l b c = elim (Bool-cases (leb 8 n)) [
  | inl more ↦
      let enough : 8 ≤ n = ground (arith, more) in
      let ih =
        or_block_lem fuel (n - 8) (drop 8 p1) (drop 8 p2) (omega arith)
          (omega (arith, length-drop 8 p1)) (omega (arith, length-drop 8 p2)) (AllBytes-drop 8 p1 b)
          (AllBytes-drop 8 p2 c) in
      let word =
        store_word-or 8 (take 8 p1) (take 8 p2) (omega (arith, length-take 8 p1))
          (omega (arith, length-take 8 p2)) (AllBytes-take 8 p1 b) (AllBytes-take 8 p2 c) in
      let e : n - 8 + 8 ≡ n = omega arith in
      let split = or_tail-split 8 (n - 8) p1 p2 (omega arith) (omega arith) in
      rw (more, ih)
        (ap (λ z. some (z ++ or_tail (n - 8) (drop 8 p1) (drop 8 p2))) word
          ∙ ap some split
          ∙ ap (λ m. some (or_tail m p1 p2)) e)
  | inr last ↦ ground (arith, last)
]
