-- ===== src/Base/FindT.antt =====
-- `Memory::FindT` of base/memops.hh, for elements of more than one byte. The memory at the pointer is
-- the list of the elements there.
use prot.Prelude.{
  ℕ, zero, suc, ◌+◌, ◌≤◌, ◌<◌, ◌≡◌, ◌≢◌, refl, sym, ap, subst, ◌==◌, if◌then◌else◌, none, some,
  List, [], ◌∷◌, length, get_elem?, dec_lt, ℕ_discrete, arith,
}

-- What `Memory::FindT` returns: it reads behind the memory, it finds nothing, or the index of an
-- element.
pub data Found : Type 0 where
  outside nothing : Found
  found : (index : ℕ) → Found

-- `Memory::FindT`, from index i on with `left` elements to look at; an element is compared as the
-- number that its bytes are.
unfoldable pub find_t : (left i ele : ℕ) → List ℕ → Found
find_t zero i e m = nothing
find_t (suc k) i e m =
    let rest = find_t k (suc i) e m in
    elim (get_elem? m i) [ none ↦ outside | some x ↦ if x == e then found i else rest ]

-- The first place of the element among those from `i` on, or none.
abbrev pub First : (ele : ℕ) → List ℕ → (i n : ℕ) → Found → Type 0
First e m i n outside = ⊥
First e m i n nothing = (j : ℕ) → i ≤ j → j < n → get_elem? m j ≢ some e
First e m i n (found k) =
    (i ≤ k)
    × (k < n)
    × (get_elem? m k ≡ some e)
    × ((j : ℕ) → i ≤ j → j < k → get_elem? m j ≢ some e)

elem_within : (m : List ℕ) (i : ℕ) → i < length m → (x : ℕ) × (get_elem? m i ≡ some x)
elem_within [] i h = absurd (omega arith)
elem_within (x ∷ m) zero h = (x, refl)
elem_within (x ∷ m) (suc i) h = elem_within m i (omega arith)

-- An element before the first place is another one.
unequal_here :
    (e x : ℕ) (m : List ℕ) (i j : ℕ)
    → get_elem? m i ≡ some x
    → x ≢ e
    → i ≡ j
    → get_elem? m j ≢ some e
unequal_here e x m i j g d same q = d (ground (arith, g, q, ap (get_elem? m) same))

First-later :
    (e x : ℕ) (m : List ℕ) (i n : ℕ) (r : Found)
    → get_elem? m i ≡ some x
    → x ≢ e
    → First e m (suc i) n r
    → First e m i n r
First-later e x m i n outside g d h = h
First-later e x m i n nothing g d h =
    λ j l u. elim (dec_lt i j) [ yes p ↦ h j p u | no p ↦ unequal_here e x m i j g d (omega arith) ]
First-later e x m i n (found k) g d (l, u, q, h) = (
  omega arith,
  u,
  q,
  λ j l u. elim (dec_lt i j) [ yes p ↦ h j p u | no p ↦ unequal_here e x m i j g d (omega arith) ],
)

find_t_next :
    (k i e x : ℕ) (m : List ℕ)
    → get_elem? m i ≡ some x
    → x ≢ e
    → find_t (suc k) i e m ≡ find_t k (suc i) e m
unfolding find_t
find_t_next k i e x m g d = ground (arith, g, d)

find_t_here :
    (k i e x : ℕ) (m : List ℕ) → get_elem? m i ≡ some x → x ≡ e → find_t (suc k) i e m ≡ found i
unfolding find_t
find_t_here k i e x m g d = ground (arith, g, d)

find_t-First : (k i e : ℕ) (m : List ℕ) → i + k ≤ length m → First e m i (i + k) (find_t k i e m)
unfolding find_t
find_t-First zero i e m h = λ j l u. absurd (omega arith)
find_t-First (suc k) i e m h =
    let (x, g) = elem_within m i (omega arith) in
    let s : suc i + k ≡ i + suc k = omega arith in
    elim (ℕ_discrete x e) [
      | yes p ↦
          subst (First e m i (i + suc k)) (sym (find_t_here k i e x m g p))
            (omega arith, omega arith, ground (arith, g, p), λ j l u. absurd (omega arith))
      | no p ↦ subst (First e m i (i + suc k)) (sym (find_t_next k i e x m g p)) (
          First-later e x m i (i + suc k) (find_t k (suc i) e m) g p (
            subst (λ n. First e m (suc i) n (find_t k (suc i) e m)) s
              (find_t-First k (suc i) e m (omega arith))))
    ]

-- Within the memory, `FindT` returns the first place among the first n that holds the element, or
-- finds nothing exactly if none of them does.
pub find_t_lem : (n e : ℕ) (m : List ℕ) → n ≤ length m → First e m 0 n (find_t n 0 e m)
find_t_lem n e m h =
    let s : 0 + n ≡ n = omega arith in
    subst (λ k. First e m 0 k (find_t n 0 e m)) s (find_t-First n 0 e m (omega arith))
