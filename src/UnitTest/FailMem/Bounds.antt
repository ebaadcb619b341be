-- ===== src/UnitTest/FailMem/Bounds.antt =====
-- `PrintFailmem` stays within its buffer.
use prot.Prelude.{
  ℕ, zero, suc, ◌+◌, ◌*◌, ◌/◌, ◌%◌, ◌^◌, ◌≤◌, ◌<◌, ◌≡◌, inl, inr, true, false, Bool-cases, ◌==◌,
  ltb, leb, if◌then◌else◌, some, List, [], ◌∷◌, ◌++◌, length, take, drop, min, length-append,
  length-take, length-drop, length-replicate, refl, ◌∙◌, sym, subst, arith,
}
use prot.Base.Allocate.{Block, write_lem}
use prot.UnitTest.FailMem.{
  Formats, Writes, writes, chars, short_line, hexes, full_line, last_bytes, last_line, head_line,
  lines, print_failmem,
}

-- Each of the writes stays within `size` bytes.
pub data Fits (size : ℕ) : Writes → Type 0 where
  done : Fits size []
  more :
      {off : ℕ} {vs : List ℕ} {ws : Writes}
      → off + length vs ≤ size
      → Fits size ws
      → Fits size ((off, vs) ∷ ws)

writes-Fits :
    (ws : Writes) (b : Block)
    → Fits (length b) ws
    → (c : Block) × (writes ws b ≡ some c) × (length c ≡ length b)
unfolding writes
writes-Fits [] b done = (b, refl, refl)
writes-Fits ((off, vs) ∷ ws) b (more h t) =
    let (c, e, l, _, _) = write_lem b off vs h in
    let (d, e', l') = writes-Fits ws c (subst (λ n. Fits n ws) (sym l) t) in (d, rw e e', l' ∙ l)

chars-Fits : (p : ℕ) (vs : List ℕ) → p + length vs < 80 → Fits 80 (chars p vs)
unfolding chars
chars-Fits p [] h = more (omega (arith, h)) done
chars-Fits p (v ∷ vs) h = more (omega (arith, h)) (chars-Fits (p + 1) vs (omega (arith, h)))

length-columns :
    (a b c d : List ℕ)
    → length (a ++ (58 ∷ (b ++ (32 ∷ (c ++ d))))) ≡ length a + length b + length c + length d + 2
length-columns a b c d = omega (
  arith,
  length-append a (58 ∷ (b ++ (32 ∷ (c ++ d)))),
  length-append b (32 ∷ (c ++ d)),
  length-append c d,
)

-- What the formats are documented to print: two digits of a byte, and eight of an `int` that is not negative.
pub record Prints (f : Formats) : Type 0 where
  pub two : (v : ℕ) → v < 256 → length (f.hex_byte v) ≡ 2
  pub eight : (n : ℕ) → n < 2 ^ 31 → length (f.hex_offset n) ≡ 8

module _ (f : Formats) (p : Prints f) where
  two_digits : (v : ℕ) (vs : List ℕ) → length (f.hex_byte (v % 256) ++ vs) ≡ 2 + length vs
  two_digits v vs =
      omega (arith, length-append (f.hex_byte (v % 256)) vs, p.two (v % 256) (omega arith))

  eight_digits : (n : ℕ) (vs : List ℕ) → n < 2 ^ 31 → length (f.hex_offset n ++ vs) ≡ 8 + length vs
  eight_digits n vs h = omega (arith, length-append (f.hex_offset n) vs, p.eight n h)

  short_line-Fits : (pb : ℕ) (vs : List ℕ) → pb + 3 * length vs < 80 → Fits 80 (short_line f pb vs)
  unfolding short_line
  short_line-Fits pb [] h = elim (Bool-cases (pb == 0)) [
    | inl z ↦ rw z (more (omega (arith, h)) done)
    | inr n ↦ rw n (more (omega (arith, h)) (more (omega (arith, h)) done))
  ]
  short_line-Fits pb (v ∷ vs) h =
      more (omega (arith, h, two_digits v (32 ∷ 0 ∷ [])))
        (short_line-Fits (pb + 3) vs (omega (arith, h)))

  length-hexes : (vs : List ℕ) → length (hexes f vs) ≡ 3 * length vs
  unfolding hexes
  length-hexes [] = refl
  length-hexes (v ∷ vs) = omega (arith, two_digits v (hexes f vs), length-hexes vs)

  full_line-Fits :
      (offset : ℕ) (vs : List ℕ)
      → offset < 2 ^ 31
      → length vs ≡ 16
      → Fits 80 (full_line f offset vs)
  unfolding full_line
  full_line-Fits n vs h e =
      let a = hexes f (take 8 vs) in
      let b = hexes f (drop 8 vs) in
      more
        (omega (
          arith,
          e,
          length-columns (f.hex_offset n) a b (32 ∷ 124 ∷ 32 ∷ 0 ∷ []),
          p.eight n h,
          length-hexes (take 8 vs),
          length-hexes (drop 8 vs),
          length-take 8 vs,
          length-drop 8 vs,
        ))
        (chars-Fits 62 vs (omega (arith, e)))

  last_bytes-Fits :
      (k i q : ℕ) (vs all : List ℕ)
      → length all < 16
      → q + 3 * k + (if ltb 8 i then 0 else 1) ≤ 59
      → Fits 80 (last_bytes f k i q vs all)
  unfolding last_bytes
  last_bytes-Fits zero i q vs all s h =
      more (omega (arith, h)) (chars-Fits (q + 3) all (omega (arith, h, s)))
  last_bytes-Fits (suc k) i q [] all s h = elim (Bool-cases (i == 8)) [
    | inl m ↦ rw m (
        more (ground (arith, h, m)) (
          more (ground (arith, h, m))
            (last_bytes-Fits k (i + 1) (q + 1 + 3) [] all s (ground (arith, h, m)))))
    | inr m ↦ rw m (
        more (ground (arith, h, m))
          (last_bytes-Fits k (i + 1) (q + 3) [] all s (ground (arith, h, m))))
  ]
  last_bytes-Fits (suc k) i q (v ∷ vs) all s h = elim (Bool-cases (i == 8)) [
    | inl m ↦ rw m (
        more (ground (arith, h, m)) (
          more (ground (arith, h, m, two_digits v (0 ∷ [])))
            (last_bytes-Fits k (i + 1) (q + 1 + 3) vs all s (ground (arith, h, m)))))
    | inr m ↦ rw m (
        more (ground (arith, h, m, two_digits v (0 ∷ [])))
          (last_bytes-Fits k (i + 1) (q + 3) vs all s (ground (arith, h, m))))
  ]

  last_line-Fits :
      (offset : ℕ) (vs : List ℕ)
      → offset < 2 ^ 31
      → length vs < 16
      → Fits 80 (last_line f offset vs)
  unfolding last_line
  last_line-Fits n vs h s =
      more (omega (arith, eight_digits n (58 ∷ 0 ∷ []) h))
        (last_bytes-Fits 16 0 10 vs vs s (omega arith))

  head_line-Fits : (exp : List ℕ) → Fits 80 (head_line f exp)
  unfolding head_line
  head_line-Fits exp = more (omega (arith, length-replicate {A = ℕ} 80 61)) (
      more (omega arith) (
        more (omega arith)
          (more (omega arith) (more (omega (arith, length-take (min (length exp) 72) exp)) done))))

  write_line :
      (ws : Writes) (b : Block)
      → length b ≡ 80
      → Fits 80 ws
      → (c : Block) × (writes ws b ≡ some c) × (length c ≡ 80)
  write_line ws b e t =
      let (c, w, l) = writes-Fits ws b (subst (λ n. Fits n ws) (sym e) t) in (c, w, l ∙ e)

  lines_full :
      (fuel n : ℕ) (vs : List ℕ) (b c : Block) (ls : List Block)
      → leb 16 (length vs) ≡ true
      → writes (full_line f n (take 16 vs)) b ≡ some c
      → lines f fuel (n + 16) (drop 16 vs) c ≡ some ls
      → lines f (suc fuel) n vs b ≡ some (c ∷ ls)
  unfolding lines
  lines_full fuel n vs b c ls full w r = rw (full, w, r) refl

  lines_last :
      (fuel n : ℕ) (vs : List ℕ) (b c : Block)
      → leb 16 (length vs) ≡ false
      → (length vs == 0) ≡ false
      → writes (last_line f n vs) b ≡ some c
      → lines f (suc fuel) n vs b ≡ some (c ∷ [])
  unfolding lines
  lines_last fuel n vs b c short some_left w = rw (short, some_left, w) refl

  lines_lem :
      (fuel offset : ℕ) (vs : List ℕ) (b : Block)
      → length b ≡ 80
      → length vs < fuel
      → offset + length vs < 2 ^ 31
      → (ls : List Block) × (lines f fuel offset vs b ≡ some ls)
        × (length ls ≡ (length vs + 15) / 16)
  unfolding lines
  lines_lem zero n vs b e h s = absurd (omega (arith, h))
  lines_lem (suc fuel) n vs b e h s = elim (Bool-cases (leb 16 (length vs))) [
    | inl full ↦
        let many : 16 ≤ length vs = ground (arith, full) in
        let (c, w, l) = write_line (full_line f n (take 16 vs)) b e (
          full_line-Fits n (take 16 vs) (omega (arith, s))
            (omega (arith, many, length-take 16 vs))) in
        let (ls, r, k) =
          lines_lem fuel (n + 16) (drop 16 vs) c l (omega (arith, h, many, length-drop 16 vs))
            (omega (arith, s, many, length-drop 16 vs)) in
        (c ∷ ls, lines_full fuel n vs b c ls full w r, omega (arith, k, many, length-drop 16 vs))
    | inr short ↦
        let few : length vs < 16 = ground (arith, short) in
        elim (Bool-cases (length vs == 0)) [
          | inl z ↦ ([], rw (short, z) refl, ground (arith, z))
          | inr some_left ↦
              let (c, w, l) =
                write_line (last_line f n vs) b e (last_line-Fits n vs (omega (arith, s)) few) in
              (c ∷ [], lines_last fuel n vs b c short some_left w, ground (arith, few, some_left))
        ]
  ]

  short_shown :
      (exp val : List ℕ) (b c : Block)
      → ltb (length val) 16 ≡ true
      → writes (short_line f 0 val) b ≡ some c
      → print_failmem f exp val b ≡ some (c ∷ [])
  unfolding print_failmem
  short_shown exp val b c few w = rw (few, w) refl

  long_shown :
      (exp val : List ℕ) (b c : Block) (ls : List Block)
      → ltb (length val) 16 ≡ false
      → writes (head_line f exp) b ≡ some c
      → lines f (length val + 1) 0 val c ≡ some ls
      → print_failmem f exp val b ≡ some (c ∷ ls)
  unfolding print_failmem
  long_shown exp val b c ls many w r = rw (many, w, r) refl

  -- If `%02X` prints two digits of a byte and `%08X` eight of an offset, then for fewer than 2 ^ 31 bytes
  -- no write of `PrintFailmem` leaves its buffer of 80 bytes, whatever the text and the bytes are; and it
  -- prints one line for fewer than 16 bytes, and else a headline and one for each 16 bytes and the rest.
  pub print_failmem_lem :
      (exp val : List ℕ) (b : Block)
      → length b ≡ 80
      → length val < 2 ^ 31
      → (ls : List Block) × (print_failmem f exp val b ≡ some ls)
        × (length ls ≡ (if ltb (length val) 16 then 1 else 1 + (length val + 15) / 16))
  print_failmem_lem exp val b e s = elim (Bool-cases (ltb (length val) 16)) [
    | inl few ↦
        let (c, w, l) =
          write_line (short_line f 0 val) b e (short_line-Fits 0 val (ground (arith, few))) in
        (c ∷ [], short_shown exp val b c few w, ground (arith, few))
    | inr many ↦
        let (c, w, l) = write_line (head_line f exp) b e (head_line-Fits exp) in
        let (ls, r, k) = lines_lem (length val + 1) 0 val c l (omega arith) (omega (arith, s)) in
        (c ∷ ls, long_shown exp val b c ls many w r, ground (arith, many, k))
  ]
