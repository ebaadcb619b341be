-- ===== src/Struct/Buffer/Resize.antt =====
-- `Resize` of a buffer with a terminator (struct/buffer.hh, bit 0 of `_FLAG`): the typedefs `Buffer`
-- and `WCharBuffer`.
use Prim.Native.Nat.{bit_or}
use prot.Prelude.{
  ℕ, zero, ◌+◌, ◌*◌, ◌^◌, ◌≤◌, ◌<◌, min, ◌≡◌, ◌≢◌, dec_lt, ℕ_discrete, refl, sym, subst, ap, ◌∙◌,
  true, [], Option, some, take, drop, replicate, length, length-replicate, arith,
}
use prot.Base.Allocate.{Allocator, Block, IsStandard, HasMemory, alloc, write_lem}
use prot.Struct.Buffer.{
  Ptr, unset, at, Buf, init, mul_size, zero_at, zend, shrink_terminated, grow_terminated, resize,
}
use prot.Struct.Buffer.Ready.{
  mul_mono, shorter, IsValid, Ready, grow-Ready, shrink-Ready, next, next_lem,
}

-- What `Resize` leaves: a valid buffer of the new size, with the first `k` elements of `old`.
abbrev pub Resized : (size : ℕ) → ℕ → ℕ → Block → Option Buf → Type 0
Resized size n k old r =
    (c : Buf) × (blk : Block) × (r ≡ some c)
    × (c.y_max ≡ n)
    × IsValid size c blk
    × (take (k * size) blk ≡ take (k * size) old)

none_kept : (size : ℕ) (c : Block) → take (0 * size) c ≡ take (0 * size) []
none_kept size c =
    let e : 0 * size ≡ 0 = omega arith in subst (λ k. take k c ≡ take k []) (sym e) refl

module _ (a : Allocator) (std : IsStandard a) (mem : HasMemory a) (size : ℕ) (pos : 0 < size) where
  zero_at_lem :
      (blk : Block) (n : ℕ)
      → n * size + size ≤ length blk
      → (c : Block) × (zero_at a size (at (some blk)) n ≡ some (at (some c)))
        × (length c ≡ length blk)
        × (take (n * size) c ≡ take (n * size) blk)
        × (take size (drop (n * size) c) ≡ replicate size 0)
  unfolding zero_at
  zero_at_lem blk n h =
      let e = length-replicate size (zero) in
      let (c, w, l, t, d) = write_lem blk (n * size) (replicate size 0) (omega (arith, e)) in
      (c, ground (arith, w), l, t, subst (λ k. take k (drop (n * size) c) ≡ replicate size 0) e d)

  zend_eq :
      (b : Buf) (q : Ptr) (n : ℕ)
      → zero_at a size b.buf n ≡ some q
      → zend a size n b ≡ some (record b { buf = q })
  unfolding zend
  zend_eq b q n e = ground (arith, e)

  zend-Resized :
      (c : Buf) (n k : ℕ) (old : Block)
      → k ≤ n
      → Ready size n k old c
      → Resized size n k old (zend a size n c)
  zend-Resized c n k old kn r =
      let km = mul_mono size k n kn in
      let inside = mul_mono size (n + 1) (c.z_max + 1) (omega (arith, r.within)) in
      let (d, e, l, t, z) = zero_at_lem r.blk n (omega (arith, r.whole)) in
      (
        record c { buf = at (some d) },
        d,
        zend_eq c (at (some d)) n
            (subst (λ x. zero_at a size x n ≡ some (at (some d))) (sym r.held) e),
        r.top,
        record {
          held = refl;
          whole = l ∙ r.whole;
          within = omega (arith, r.top, r.within);
          aligned = r.aligned;
          small = r.small;
          ended = subst (λ y. take size (drop (y * size) d) ≡ replicate size 0) (sym r.top) z;
        },
        shorter (k * size) (n * size) r.blk d km t ∙ r.kept,
      )

  resize_same : (n : ℕ) (b : Buf) → n ≤ b.z_max → n ≡ b.y_max → resize a size true n b ≡ some b
  unfolding resize
  resize_same n b h e = ground arith

  resize_within :
      (n : ℕ) (b c : Buf)
      → n ≤ b.z_max
      → n ≢ b.y_max
      → shrink_terminated a size n (record b { y_max = n }) ≡ some c
      → resize a size true n b ≡ zend a size n c
  unfolding resize
  resize_within n b c h ne e = ground (arith, e)

  resize_beyond :
      (n : ℕ) (b c : Buf)
      → b.z_max < n
      → grow_terminated a size n b ≡ some c
      → resize a size true n b ≡ zend a size n c
  unfolding resize
  resize_beyond n b c h e = ground (arith, e)

  alloc_buf-Ready :
      (b : Buf) (c : Block) (n : ℕ)
      → b.z_max ≡ bit_or n 3
      → b.y_max ≡ n
      → (n + 4) * size < 2 ^ 63
      → length c ≡ next n * size
      → Ready size n 0 [] (record b { buf = at (some c) })
  alloc_buf-Ready b c n hz hy lim l =
      let (e, le, m4, sm) = next_lem size pos n lim in
      let f = ap (λ (x : ℕ). x * size) e in
      let g = ap (λ (x : ℕ). (x + 1) * size) hz in
      record {
        blk = c;
        held = refl;
        whole = l ∙ f ∙ sym g;
        top = hy;
        within = omega arith;
        aligned = omega arith;
        small = omega (arith, f, g);
        kept = none_kept size c;
      }

  alloc_lem : (m : ℕ) → 0 < m → (c : Block) × (alloc a m ≡ some c) × (length c ≡ m)
  unfolding alloc
  alloc_lem m p =
      let (c, e) = mem.malloc_some m p in (c, ground (arith, e), std.malloc_length m c e)

  abbrev fresh : ℕ → Ptr → Buf
  fresh n p = record { buf = p; len = 0; tag = 0; y_max = n; z_max = bit_or n 3; z_ref = 0 }

  init_eq :
      (n m : ℕ) (c : Block)
      → mul_size (next n) size ≡ m
      → alloc a m ≡ some c
      → init a size true n ≡ zend a size n (fresh n (at (some c)))
  unfolding init
  init_eq n m c em e = rw (em, e) (ground arith)

  -- `_Init` with a terminator, with memory enough: a valid buffer of the size asked for.
  pub init_lem : (n : ℕ) → (n + 4) * size < 2 ^ 63 → Resized size n 0 [] (init a size true n)
  init_lem n lim =
      let (e, le, m4, sm) = next_lem size pos n lim in
      let one = mul_mono size 1 (next n) (omega (arith, e)) in
      let (c, f, l) = alloc_lem (next n * size) (omega arith) in
      subst (Resized size n 0 []) (sym (init_eq n (next n * size) c (omega arith) f)) (
        zend-Resized (fresh n (at (some c))) n 0 [] (omega arith)
          (alloc_buf-Ready (fresh n unset) c n refl refl lim l))

  -- `Resize` to any size, with memory enough: it never writes out of its block or through a null
  -- pointer, and leaves a valid buffer of the new size, with the terminator behind the data and the
  -- first min(old size, new size) elements unchanged.
  pub resize_lem :
      (n : ℕ) (b : Buf) (blk : Block)
      → IsValid size b blk
      → (n + 4) * size < 2 ^ 63
      → Resized size n (min b.y_max n) blk (resize a size true n b)
  resize_lem n b blk v lim = elim (dec_lt b.z_max n) [
    | yes lt ↦
        let (c, e, r) = grow-Ready a std mem size pos b blk n v lt lim in
        let w = v.within in
        subst (Resized size n (min b.y_max n) blk) (sym (resize_beyond n b c lt e)) (
          subst (λ k. Resized size n k blk (zend a size n c)) (omega arith)
            (zend-Resized c n b.y_max blk (omega arith) r))
    | no ge ↦ elim (ℕ_discrete n b.y_max) [
      | yes e ↦ (b, blk, resize_same n b (omega arith) e, sym e, v, refl)
      | no ne ↦
          let (c, e, r) = shrink-Ready a std mem size pos b blk n v (omega arith) lim in
          let (d, blk', f, t, w, k) = zend-Resized c n n blk (omega arith) r in
          (
            d,
            blk',
            resize_within n b c (omega arith) ne e ∙ f,
            t,
            w,
            shorter (min b.y_max n * size) (n * size) blk blk'
                (mul_mono size (min b.y_max n) n (omega arith)) k,
          )
    ]
  ]
