-- ===== src/Struct/String/Count.antt =====
-- The reference counts of `String` (struct/string.hh): each buffer counts the strings that point to
-- it, and is deleted with the last one.
use prot.Prelude.{
  ℕ, zero, suc, ◌+◌, ◌-◌, ◌^◌, ◌≤◌, ◌<◌, ◌≡◌, inl, inr, Bool-cases, Option-cases, ◌==◌,
  if◌then◌else◌, Option, none, some, List, [], ◌∷◌, length, get_elem?, set, arith,
}
use prot.Struct.Buffer.{Buf, add_ref}
use prot.Struct.String.{Heap, update, add_ref_at, release, remove}

abbrev pub count : ℕ → List ℕ → ℕ
count p [] = 0
count p (q ∷ qs) = (if q == p then 1 else 0) + count p qs

pub count-le : (p : ℕ) (qs : List ℕ) → count p qs ≤ length qs
count-le p [] = omega arith
count-le p (q ∷ qs) = ground (arith, count-le p qs)

pub count-remove :
    (p i : ℕ) (qs : List ℕ) {q : ℕ}
    → get_elem? qs i ≡ some q
    → count p qs ≡ (if q == p then 1 else 0) + count p (remove i qs)
count-remove p i [] e = ground arith
count-remove p zero (x ∷ xs) e = ground arith
count-remove p (suc i) (x ∷ xs) {q} e = ground (arith, count-remove p i xs e)

pub count-set :
    (p i r : ℕ) (qs : List ℕ) {q : ℕ}
    → get_elem? qs i ≡ some q
    → count p (set qs i r) + (if q == p then 1 else 0) ≡ count p qs + (if r == p then 1 else 0)
count-set p i r [] e = ground arith
count-set p zero r (x ∷ xs) e = ground arith
count-set p (suc i) r (x ∷ xs) {q} e = ground (arith, count-set p i r xs e)

abbrev pub ref_of : Option Buf → ℕ
ref_of none = 0
ref_of (some b) = b.z_ref

-- The heap holds exactly the buffers that the strings point to, each with the number of its strings.
pub record Counted (hs : List ℕ) (h : Heap) : Type 0 where
  pub refs : (p : ℕ) → ref_of (h.cell p) ≡ count p hs
  pub live : (p : ℕ) (b : Buf) → h.cell p ≡ some b → 0 < b.z_ref
  pub unborn : (p : ℕ) → h.next ≤ p → h.cell p ≡ none

pub add_ref_at_lem :
    (p : ℕ) (h : Heap) {b : Buf}
    → h.cell p ≡ some b
    → add_ref_at p h ≡ some (tt, record h { cell = update h.cell p (some (add_ref b).0) })
unfolding add_ref_at
add_ref_at_lem p h e = ground (arith, e)

pub release_last :
    (p : ℕ) (h : Heap) {b : Buf}
    → h.cell p ≡ some b
    → b.z_ref ≡ 1
    → release p h ≡ some (tt, record h { cell = update h.cell p none })
unfolding release
release_last p h e k = ground (arith, e)

pub release_more :
    (p : ℕ) (h : Heap) {b : Buf}
    → h.cell p ≡ some b
    → 1 < b.z_ref
    → b.z_ref < 2 ^ 64
    → release p h
      ≡ some (tt, record h { cell = update h.cell p (some (record b { z_ref = b.z_ref - 1 })) })
unfolding release
release_more p h e k l = ground (arith, e)

-- A pointer of a string is a buffer of the heap, with its count.
held :
    (p : ℕ) (hs : List ℕ) (h : Heap)
    → Counted hs h
    → 0 < count p hs
    → (b : Buf) × (h.cell p ≡ some b) × (b.z_ref ≡ count p hs) × (p < h.next)
held p hs h c pos = elim (Option-cases (h.cell p)) [
  | inl e ↦ absurd (ground (arith, e, c.refs p))
  | inr (b, e) ↦ (b, e, ground (arith, e, c.refs p), ground (arith, e, c.unborn p))
]

-- One more string at `p`.
pub add-Counted :
    (p : ℕ) (hs hs' : List ℕ) (h : Heap)
    → Counted hs h
    → 0 < count p hs
    → length hs < 2 ^ 64 - 1
    → ((q : ℕ) → count q hs' ≡ count q hs + (if p == q then 1 else 0))
    → (h' : Heap) × (add_ref_at p h ≡ some (tt, h')) × Counted hs' h'
unfolding add_ref
add-Counted p hs hs' h c pos few more =
    let (b, e, r, n) = held p hs h c pos in
    (
      record h { cell = update h.cell p (some (add_ref b).0) },
      add_ref_at_lem p h e,
      record {
        refs = λ q. ground (arith, more q, c.refs q, count-le p hs);
        live = λ q d k. ground (arith, c.live q d, count-le p hs);
        unborn = λ q k. ground (arith, c.unborn q);
      },
    )

-- One string less at `p`.
pub release-Counted :
    (p : ℕ) (hs hs' : List ℕ) (h : Heap)
    → Counted hs h
    → length hs < 2 ^ 64
    → ((q : ℕ) → count q hs ≡ (if p == q then 1 else 0) + count q hs')
    → (h' : Heap) × (release p h ≡ some (tt, h')) × Counted hs' h'
release-Counted p hs hs' h c few less =
    let (b, e, r, n) = held p hs h c (ground (arith, less p)) in
    elim (Bool-cases (b.z_ref == 1)) [
      | inl one ↦ (
        record h { cell = update h.cell p none },
        release_last p h e (ground arith),
        record {
          refs = λ q. ground (arith, less q, c.refs q);
          live = λ q d k. ground (arith, c.live q d);
          unborn = λ q k. ground (arith, c.unborn q);
        },
      )
      | inr many ↦
          let pos = c.live p b e in
          (
            record h { cell = update h.cell p (some (record b { z_ref = b.z_ref - 1 })) },
            release_more p h e (ground arith) (omega (arith, count-le p hs)),
            record {
              refs = λ q. ground (arith, less q, c.refs q);
              live = λ q d k. ground (arith, c.live q d);
              unborn = λ q k. ground (arith, c.unborn q);
            },
          )
    ]

-- A new string at a new buffer.
pub new-Counted :
    (hs : List ℕ) (h h' : Heap) (b : Buf)
    → Counted hs h
    → b.z_ref ≡ 1
    → h'.next ≡ h.next + 1
    → ((q : ℕ) → h'.cell q ≡ (if h.next == q then some b else h.cell q))
    → Counted (h.next ∷ hs) h'
new-Counted hs h h' b c one n at_q = record {
  refs = λ q. ground (arith, at_q q, c.refs q, c.refs h.next, c.unborn h.next);
  live = λ q d k. ground (arith, at_q q, c.live q d);
  unborn = λ q k. ground (arith, at_q q, c.unborn q);
}
