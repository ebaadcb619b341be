-- ===== src/Struct/String/Programs.antt =====
-- A program that makes, copies, assigns and destroys strings (struct/string.hh).
use prot.Prelude.{
  ℕ, zero, suc, ◌+◌, ◌-◌, ◌^◌, ◌≤◌, ◌<◌, ◌≡◌, refl, ◌∙◌, inl, inr, Bool-cases, Option-cases, ◌==◌,
  Option, none, some, List, [], ◌∷◌, length, length-set, get_elem?, set, ==_iff, arith,
}
use prot.Base.Allocate.{Allocator, IsStandard, HasMemory}
use prot.Struct.String.{
  ◌>>◌, give, Heap, add_ref_at, release, World, Call, make, copy, destruct, assign, remove,
  assign_at, exec, exec_all,
}
use prot.Struct.String.Count.{
  count, count-remove, count-set, Counted, add-Counted, release-Counted, new-Counted,
}
use prot.Struct.String.Text.{string_of_lem}

-- Texts that fit in memory.
abbrev pub Fits : Call → Type 0
Fits (make s) = length s + 4 < 2 ^ 63
Fits (copy i) = Unit
Fits (destruct i) = Unit
Fits (assign i j) = Unit

abbrev pub AllFit : List Call → Type 0
AllFit [] = Unit
AllFit (c ∷ cs) = Fits c × AllFit cs

length-remove : (i : ℕ) (xs : List ℕ) → length (remove i xs) ≤ length xs
length-remove i [] = omega arith
length-remove zero (x ∷ xs) = omega arith
length-remove (suc i) (x ∷ xs) = omega (arith, length-remove i xs)

count_pos : (p i : ℕ) (hs : List ℕ) → get_elem? hs i ≡ some p → 0 < count p hs
count_pos p i hs e = ground (arith, count-remove p i hs e)

abbrev pub no_strings : World
no_strings = record { strings = []; heap = record { next = 0; cell = λ p. none } }

-- What a call leaves.
abbrev pub After : World → Option World → Type 0
After w r =
    (v : World) × (r ≡ some v)
    × Counted v.strings v.heap
    × (length v.strings ≤ length w.strings + 1)

module _ (a : Allocator) (std : IsStandard a) (mem : HasMemory a) where
  make_lem :
      (s : List ℕ) (w : World)
      → Counted w.strings w.heap
      → length s + 4 < 2 ^ 63
      → After w (exec a (make s) w)
  unfolding exec
  make_lem s w c lim =
      let (h', b, e, m, d) = string_of_lem a std mem s w.heap lim in
      (
        record { strings = w.heap.next ∷ w.strings; heap = h' },
        rw (e, exec) refl,
        new-Counted w.strings w.heap h' b c m.one m.next m.at_cell,
        omega arith,
      )

  copy_lem :
      (i : ℕ) (w : World)
      → Counted w.strings w.heap
      → length w.strings < 2 ^ 64 - 1
      → After w (exec a (copy i) w)
  unfolding exec
  copy_lem i w c few = elim (Option-cases (get_elem? w.strings i)) [
    | inl e ↦ (w, rw (e, exec) refl, c, omega arith)
    | inr (p, e) ↦
        let (h', f, d) =
          add-Counted p w.strings (p ∷ w.strings) w.heap c (count_pos p i w.strings e) few
            (λ q. omega arith) in
        (record { strings = p ∷ w.strings; heap = h' }, rw (e, f, exec) refl, d, omega arith)
  ]

  destruct_lem :
      (i : ℕ) (w : World)
      → Counted w.strings w.heap
      → length w.strings < 2 ^ 64 - 1
      → After w (exec a (destruct i) w)
  unfolding exec
  destruct_lem i w c few = elim (Option-cases (get_elem? w.strings i)) [
    | inl e ↦ (w, rw (e, exec) refl, c, omega arith)
    | inr (p, e) ↦
        let (h', f, d) =
          release-Counted p w.strings (remove i w.strings) w.heap c (omega arith)
            (λ q. count-remove q i w.strings e) in
        (
          record { strings = remove i w.strings; heap = h' },
          rw (e, f, exec) refl,
          d,
          omega (arith, length-remove i w.strings),
        )
  ]

  release_then :
      (p q : ℕ) (h g h' : Heap)
      → release p h ≡ some (tt, g)
      → add_ref_at q g ≡ some (tt, h')
      → (do release p; add_ref_at q; give q) h ≡ some (q, h')
  release_then p q h g h' f k = ground (arith, f, k)

  assign_at_lem :
      (p q i : ℕ) (hs : List ℕ) (h : Heap)
      → Counted hs h
      → length hs < 2 ^ 64 - 1
      → get_elem? hs i ≡ some p
      → 0 < count q hs
      → (h' : Heap) × (assign_at p q h ≡ some (q, h')) × Counted (set hs i q) h'
  unfolding assign_at
  assign_at_lem p q i hs h c few e pos = elim (Bool-cases (p == q)) [
    | inl y ↦
        let pq = (==_iff p q).0 y in
        (
          h,
          rw (y, pq) refl,
          record {
            refs = λ r. c.refs r ∙ ground (arith, count-set r i q hs e);
            live = c.live;
            unborn = c.unborn;
          },
        )
    | inr n ↦
        let (g, f, d) =
          release-Counted p hs (remove i hs) h c (omega arith) (λ r. count-remove r i hs e) in
        let pos' : 0 < count q (remove i hs) = ground (arith, count-remove q i hs e) in
        let (h', k, m) =
          add-Counted q (remove i hs) (set hs i q) g d pos' (omega (arith, length-remove i hs))
            (λ r. ground (arith, count-set r i q hs e, count-remove r i hs e)) in
        (h', rw n (release_then p q h g h' f k), m)
  ]

  assign_lem :
      (i j : ℕ) (w : World)
      → Counted w.strings w.heap
      → length w.strings < 2 ^ 64 - 1
      → After w (exec a (assign i j) w)
  unfolding exec
  assign_lem i j w c few = elim (Option-cases (get_elem? w.strings i)) [
    | inl e ↦ (w, rw (e, exec) refl, c, omega arith)
    | inr (p, e) ↦ elim (Option-cases (get_elem? w.strings j)) [
      | inl f ↦ (w, rw (e, f, exec) refl, c, omega arith)
      | inr (q, f) ↦
          let (h', g, d) =
            assign_at_lem p q i w.strings w.heap c few e (count_pos q j w.strings f) in
          (
            record { strings = set w.strings i q; heap = h' },
            rw (e, f, g, exec) refl,
            d,
            omega (arith, length-set w.strings i q),
          )
    ]
  ]

  call_lem :
      (c : Call) (w : World)
      → Counted w.strings w.heap
      → length w.strings < 2 ^ 64 - 1
      → Fits c
      → After w (exec a c w)
  call_lem (make s) w d few fits = make_lem s w d fits
  call_lem (copy i) w d few fits = copy_lem i w d few
  call_lem (destruct i) w d few fits = destruct_lem i w d few
  call_lem (assign i j) w d few fits = assign_lem i j w d few

  calls_lem :
      (cs : List Call) (w : World)
      → Counted w.strings w.heap
      → length w.strings + length cs < 2 ^ 64 - 1
      → AllFit cs
      → (v : World) × (exec_all a cs w ≡ some v) × Counted v.strings v.heap
  unfolding exec_all
  calls_lem [] w d few fits = (w, refl, d)
  calls_lem (c ∷ cs) w d few fits =
      let (v, e, m, l) = call_lem c w d (omega arith) fits.0 in
      let (u, f, n) = calls_lem cs v m (omega arith) fits.1 in (u, rw (e, exec_all) f, n)

  -- A program that makes strings from bytes, copies, assigns and destroys them in any order, with
  -- memory enough and fewer than 2 ^ 64 - 1 calls, never uses a buffer after its `delete`, never
  -- deletes one twice and never leaves a block: it runs to its end, and then the heap holds exactly
  -- the buffers that a string points to, each with the number of its strings as its count.
  pub exec_all-Counted :
      (cs : List Call)
      → length cs < 2 ^ 64 - 1
      → AllFit cs
      → (v : World) × (exec_all a cs no_strings ≡ some v) × Counted v.strings v.heap
  exec_all-Counted cs few fits =
      calls_lem cs no_strings
        (record { refs = λ p. refl; live = λ p b e. absurd (ground arith); unborn = λ p h. refl })
        (omega arith) fits
