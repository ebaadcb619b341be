-- ===== src/Struct/String/Editing.antt =====
-- `Upper` of `String` (struct/string.hh).
use prot.Prelude.{
  ℕ, suc, ◌+◌, ◌-◌, ◌%◌, ◌^◌, ◌≤◌, ◌<◌, ◌≡◌, refl, ap, ◌∙◌, true, false, ◌==◌, if◌then◌else◌, none,
  some, List, [], ◌∷◌, map, length, take, ltb, arith,
}
use prot.Base.Allocate.{Allocator, Block, IsStandard, HasMemory}
use prot.Struct.Buffer.{Buf, init, add_ref}
use prot.Struct.Buffer.Ready.{IsValid}
use prot.Struct.String.{
  give, Heap, update, block, store_filled, add_ref_at, new_buffer, upper, upper_into, upper_byte,
  release,
}
use prot.Struct.String.Count.{release_last, release_more, add_ref_at_lem}
use prot.Struct.Buffer.Resize.{init_lem}
use prot.Struct.String.Text.{Holds, fill_buf_lem, filled, Holds-filled, init_len}

length-map : (f : ℕ → ℕ) (xs : List ℕ) → length (map f xs) ≡ length xs
length-map f [] = refl
length-map f (x ∷ xs) = ap suc (length-map f xs)

-- A text stored in the buffer at `p`.
store_text :
    (p : ℕ) (s : List ℕ) (h : Heap) (b : Buf) (blk : Block) (n : ℕ)
    → h.cell p ≡ some b
    → IsValid 1 b blk
    → length s ≤ b.y_max
    → store_filled p s b n h
      ≡ some (tt, record h { cell = update h.cell p (some (record (filled s blk b) { len = n })) })
unfolding store_filled
store_text p s h b blk n e v le = ground (arith, e, fill_buf_lem s b blk v le)

gone : (p : ℕ) (h : Heap) → h.cell p ≡ none → add_ref_at p h ≡ none
unfolding add_ref_at
gone p h e = ground (arith, e)

into :
    (q p : ℕ) (h h1 h2 : Heap) (b c : Buf)
    → h.cell q ≡ some c
    → store_filled q (map upper_byte (take b.len (block b.buf))) c b.len h ≡ some (tt, h1)
    → release p h1 ≡ some (tt, h2)
    → upper_into q p b h ≡ elim (add_ref_at q h2) [ none ↦ none | some (_, h3) ↦ some (q, h3) ]
unfolding upper_into
into q p h h1 h2 b c e f g = ground (arith, e, f, g)

-- The bytes that `Upper` writes.
upper_text :
    (s : List ℕ) (b : Buf)
    → Holds s b
    → map upper_byte (take b.len (block b.buf)) ≡ map upper_byte s
upper_text s b d = ap (map upper_byte) (ap (λ n. take n (block b.buf)) d.len ∙ d.text)

-- `Upper` into a new buffer `c` of the right size.
module _ (p : ℕ) (h : Heap) (b c : Buf) (blk : Block) (s : List ℕ) (e : h.cell p ≡ some b)
    (many : 1 < b.z_ref) (few : b.z_ref < 2 ^ 64) (old : p < h.next) (d : Holds s b)
    (v : IsValid 1 c blk) (top : c.y_max ≡ b.len) (r : c.z_ref ≡ 0) where
  abbrev written : Buf
  written = record (filled (map upper_byte s) blk c) { len = b.len }

  abbrev h0 : Heap
  h0 = record { next = h.next + 1; cell = update h.cell h.next (some c) }

  abbrev h1 : Heap
  h1 = record h0 { cell = update h0.cell h.next (some written) }

  abbrev h2 : Heap
  h2 = record h1 { cell = update h1.cell p (some (record b { z_ref = b.z_ref - 1 })) }

  abbrev h3 : Heap
  h3 = record h2 { cell = update h2.cell h.next (some (add_ref written).0) }

  into_new : upper_into h.next p b h0 ≡ some (h.next, h3)
  into_new =
      let t = upper_text s b d in
      let n = length-map upper_byte s in
      let self : (h.next == h.next) ≡ true = ground arith in
      let other : (h.next == p) ≡ false = ground arith in
      let f : store_filled h.next (map upper_byte s) c b.len h0 ≡ some (tt, h1) =
        store_text h.next (map upper_byte s) h0 c blk b.len (rw self refl) v
          (omega (arith, n, top, d.len)) in
      let g : release p h1 ≡ some (tt, h2) = release_more p h1 {b = b} (rw other e) many few in
      let k : add_ref_at h.next h2 ≡ some (tt, h3) =
        add_ref_at_lem h.next h2 {b = written} (ground (arith, e)) in
      into h.next p h0 h1 h2 b c (rw self refl) (rw t f) g ∙ rw k refl

  new-Holds : Holds (map upper_byte s) (add_ref written).0
  unfolding add_ref
  new-Holds =
      Holds-filled (map upper_byte s) c blk b.len ((c.z_ref + 1) % 2 ^ 64) v
        (omega (arith, top, d.len, length-map upper_byte s))
        (omega (arith, d.len, length-map upper_byte s))

  at_cell :
      (q : ℕ)
      → h3.cell q ≡ (
          if h.next == q
          then some (add_ref written).0
          else if p == q
          then some (record b { z_ref = b.z_ref - 1 })
          else h.cell q)
  at_cell q = ground arith

  counted : (add_ref written).0.z_ref ≡ 1
  unfolding add_ref
  counted = ground (arith, r)

module _ (a : Allocator) where
  upper_eq :
      (p q : ℕ) (h g : Heap) (b : Buf)
      → h.cell p ≡ some b
      → (if ltb b.z_ref 2 then give p else new_buffer a b.len) h ≡ some (q, g)
      → upper a p h ≡ upper_into q p b g
  unfolding upper
  upper_eq p q h g b e f = ground (arith, e, f)

  -- `Upper` of a string that shares its buffer with no other one takes that buffer for the new one: it
  -- writes the text into it, and the release that follows deletes it. What is left of `Upper` then is to
  -- count a reference in the buffer, which is not there any more.
  pub upper_unshared :
      (p : ℕ) (h : Heap) (b : Buf) (s : List ℕ)
      → h.cell p ≡ some b
      → b.z_ref ≡ 1
      → Holds s b
      → (h1 h2 : Heap) × (store_filled p (map upper_byte (take b.len (block b.buf))) b b.len h
          ≡ some (tt, h1))
        × (release p h1 ≡ some (tt, h2))
        × (h2.cell p ≡ none)
        × (upper a p h ≡ elim (add_ref_at p h2) [ none ↦ none | some (_, h3) ↦ some (p, h3) ])
        × (add_ref_at p h2 ≡ none)
  upper_unshared p h b s e one d =
      let t = map upper_byte (take b.len (block b.buf)) in
      let le : length t ≤ b.y_max =
        omega (arith, ap length (upper_text s b d), length-map upper_byte s, d.top) in
      let f = store_text p t h b (block b.buf) b.len e d.valid le in
      let b1 = record (filled t (block b.buf) b) { len = b.len } in
      let h1 = record h { cell = update h.cell p (some b1) } in
      let h2 = record h1 { cell = update h1.cell p none } in
      let self : (p == p) ≡ true = ground arith in
      let g : release p h1 ≡ some (tt, h2) = release_last p h1 {b = b1} (rw self refl) one in
      let empty : h2.cell p ≡ none = rw self refl in
      (
        h1,
        h2,
        f,
        g,
        empty,
        upper_eq p p h h b e (ground (arith, one)) ∙ into p p h h1 h2 b b e f g,
        gone p h2 empty,
      )

  new_buffer_eq :
      (n : ℕ) (h : Heap) (c : Buf)
      → init a 1 true n ≡ some c
      → new_buffer a n h
        ≡ some (h.next, record { next = h.next + 1; cell = update h.cell h.next (some c) })
  unfolding new_buffer
  new_buffer_eq n h c e = rw (e, new_buffer) refl

module _ (a : Allocator) (std : IsStandard a) (mem : HasMemory a) where
  -- `Upper` of a string that shares its buffer gives it a new buffer of its own with the lower case
  -- letters replaced, and leaves the old one, less one reference, to the others.
  pub upper_shared :
      (p : ℕ) (h : Heap) (b : Buf) (s : List ℕ)
      → h.cell p ≡ some b
      → 1 < b.z_ref
      → b.z_ref < 2 ^ 64
      → p < h.next
      → Holds s b
      → length s + 4 < 2 ^ 63
      → (h' : Heap) × (c : Buf) × (upper a p h ≡ some (h.next, h'))
        × Holds (map upper_byte s) c
        × (c.z_ref ≡ 1)
        × ((q : ℕ)
            → h'.cell q ≡ (
                if h.next == q
                then some c
                else if p == q
                then some (record b { z_ref = b.z_ref - 1 })
                else h.cell q))
  upper_shared p h b s e many few old d lim =
      let (c, blk, ec, top, v, k) =
        init_lem a std mem 1 (omega arith) b.len (omega (arith, d.len)) in
      let (z, r) = init_len a b.len c ec in
      let fresh = new_buffer_eq a b.len h c ec in
      (
        h3 p h b c blk s e many few old d v top r,
        (add_ref (written p h b c blk s e many few old d v top r)).0,
        upper_eq a p h.next h (h0 p h b c blk s e many few old d v top r) b e
              (ground (arith, fresh))
            ∙ into_new p h b c blk s e many few old d v top r,
        new-Holds p h b c blk s e many few old d v top r,
        counted p h b c blk s e many few old d v top r,
        at_cell p h b c blk s e many few old d v top r,
      )
