-- ===== src/Struct/Buffer/Ready.antt =====
-- The reallocations of `Resize` of a buffer with a terminator (struct/buffer.hh, bit 0 of `_FLAG`).
use Prim.Native.Nat.{bit_or}
use prot.Prelude.{
  ℕ, ◌+◌, ◌*◌, ◌%◌, ◌^◌, ◌≤◌, ◌<◌, ◌≡◌, refl, sym, subst, ap, ◌∙◌, ◌⊎◌, inl, inr, some, take, drop,
  replicate, length, take-take, arith,
}
use prot.Base.Bits.{or_three}
use prot.Base.Allocate.{Allocator, Block, IsStandard, HasMemory, reloc, reloc_lem}
use prot.Struct.Buffer.{
  Ptr, at, Buf, mul_size, realloc_at, realloc_buf, shrink_terminated, grow_terminated,
}

pub mul_mono : (s a b : ℕ) → a ≤ b → a * s ≤ b * s
mul_mono s a b h = grind arith

mul_le_self : (n s : ℕ) → 0 < s → n + 4 ≤ (n + 4) * s
mul_le_self n s h = grind arith

-- The buffer holds a block of exactly `z_max + 1` elements, the data end within it, and the element
-- behind the data is zero.
pub record IsValid (size : ℕ) (b : Buf) (blk : Block) : Type 0 where
  pub held : b.buf ≡ at (some blk)
  pub whole : length blk ≡ (b.z_max + 1) * size
  pub within : b.y_max ≤ b.z_max
  pub aligned : b.z_max % 4 ≡ 3
  pub small : (b.z_max + 1) * size < 2 ^ 63
  pub ended : take size (drop (b.y_max * size) blk) ≡ replicate size 0

-- A buffer made ready for `n` elements, with the first `k` of `old` in it; the terminator is not yet
-- written.
pub record Ready (size n k : ℕ) (old : Block) (c : Buf) : Type 0 where
  pub blk : Block
  pub held : c.buf ≡ at (some blk)
  pub whole : length blk ≡ (c.z_max + 1) * size
  pub top : c.y_max ≡ n
  pub within : n ≤ c.z_max
  pub aligned : c.z_max % 4 ≡ 3
  pub small : (c.z_max + 1) * size < 2 ^ 63
  pub kept : take (k * size) blk ≡ take (k * size) old

pub shorter : (k m : ℕ) (b c : Block) → k ≤ m → take m c ≡ take m b → take k c ≡ take k b
shorter k m b c h e = sym (take-take k m c h) ∙ ap (take k) e ∙ take-take k m b h

-- The size of the new block as the code computes it.
abbrev pub next : ℕ → ℕ
next n = (bit_or n 3 + 1) % 2 ^ 64

pub next_lem :
    (size : ℕ) (pos : 0 < size) (n : ℕ)
    → (n + 4) * size < 2 ^ 63
    → (next n ≡ bit_or n 3 + 1) × (n ≤ bit_or n 3) × (bit_or n 3 % 4 ≡ 3) × (next n * size < 2 ^ 63)
next_lem size pos n h =
    let big = mul_le_self n size pos in
    let e : next n ≡ bit_or n 3 + 1 = omega (arith, or_three n) in
    let le : next n ≤ n + 4 = omega (arith, or_three n) in
    (
      e,
      omega (arith, or_three n),
      omega (arith, or_three n),
      omega (arith, mul_mono size (next n) (n + 4) le),
    )

module _ (a : Allocator) (std : IsStandard a) (mem : HasMemory a) (size : ℕ) (pos : 0 < size) where
  realloc_at_eq :
      (blk c : Block) (m k m' k' : ℕ)
      → mul_size m size ≡ m'
      → mul_size k size ≡ k'
      → reloc a (some blk) m' k' ≡ some c
      → realloc_at a size (at (some blk)) m k ≡ some (at (some c))
  unfolding realloc_at
  realloc_at_eq blk c m k m' k' em ek e = rw (em, ek, e) refl

  realloc_at_lem :
      (blk : Block) (m k : ℕ)
      → k * size ≤ length blk
      → k ≤ m
      → 0 < m
      → m * size < 2 ^ 63
      → (c : Block) × (realloc_at a size (at (some blk)) m k ≡ some (at (some c)))
        × (length c ≡ m * size)
        × (take (k * size) c ≡ take (k * size) blk)
  realloc_at_lem blk m k h le p lim =
      let km = mul_mono size k m le in
      let one = mul_mono size 1 m p in
      let (c, e, l, t) = reloc_lem a std mem (some blk) (m * size) (k * size) h km (omega arith) in
      (c, realloc_at_eq blk c m k (m * size) (k * size) (omega arith) (omega arith) e, l, t)

  -- The bounds of `new_size | 3`.
  or_three_bounds : (n : ℕ) → (bit_or n 3 % 4 ≡ 3) × (n ≤ bit_or n 3) × (bit_or n 3 ≤ n + 3)
  or_three_bounds n = omega (arith, or_three n)

  realloc_buf_eq :
      (b : Buf) (q : Ptr) (m k : ℕ)
      → realloc_at a size b.buf m k ≡ some q
      → realloc_buf a size m k b ≡ some (record b { buf = q })
  unfolding realloc_buf
  realloc_buf_eq b q m k e = ground (arith, e)

  -- A new block of `z_max + 1` elements, `z_max` already set.
  realloc_buf-Ready :
      (b : Buf) (blk : Block) (n k m : ℕ)
      → b.buf ≡ at (some blk)
      → m ≡ b.z_max + 1
      → k * size ≤ length blk
      → k ≤ m
      → n ≤ b.z_max
      → b.z_max % 4 ≡ 3
      → m * size < 2 ^ 63
      → (p : Ptr) × (realloc_buf a size m k b ≡ some (record b { buf = p }))
        × Ready size n k blk (record b { buf = p; y_max = n })
  realloc_buf-Ready b blk n k m hb hm hk km hn h4 lim =
      let (c, e, l, t) = realloc_at_lem blk m k hk km (omega arith) lim in
      let em = ap (λ (x : ℕ). x * size) hm in
      (
        at (some c),
        realloc_buf_eq b (at (some c)) m k
            (subst (λ x. realloc_at a size x m k ≡ some (at (some c))) (sym hb) e),
        record {
          blk = c;
          held = refl;
          whole = l ∙ em;
          top = refl;
          within = hn;
          aligned = h4;
          small = omega (arith, em);
          kept = t;
        },
      )

  renew :
      (b : Buf) (blk : Block) (n k : ℕ)
      → b.buf ≡ at (some blk)
      → k * size ≤ length blk
      → k ≤ n
      → (n + 4) * size < 2 ^ 63
      → (p : Ptr) × (realloc_buf a size (next n) k (record b { z_max = bit_or n 3 })
          ≡ some (record b { buf = p; z_max = bit_or n 3 }))
        × Ready size n k blk (record b { buf = p; z_max = bit_or n 3; y_max = n })
  renew b blk n k hb hk kn lim =
      let (e, le, m4, sm) = next_lem size pos n lim in
      realloc_buf-Ready (record b { z_max = bit_or n 3 }) blk n k (next n) hb e hk (omega arith) le
        m4 sm

  grow_eq :
      (b c : Buf) (n : ℕ)
      → realloc_buf a size (next n) b.y_max (record b { z_max = bit_or n 3 }) ≡ some c
      → grow_terminated a size n b ≡ some (record c { y_max = n })
  unfolding grow_terminated
  grow_eq b c n e = rw e

  pub grow-Ready :
      (b : Buf) (blk : Block) (n : ℕ)
      → IsValid size b blk
      → b.z_max < n
      → (n + 4) * size < 2 ^ 63
      → (c : Buf) × (grow_terminated a size n b ≡ some c) × Ready size n b.y_max blk c
  grow-Ready b blk n v lt lim =
      let w : b.y_max ≤ n = omega (arith, v.within) in
      let inside = mul_mono size b.y_max (b.z_max + 1) (omega (arith, v.within)) in
      let (p, e, r) = renew b blk n b.y_max v.held (omega (arith, v.whole)) w lim in
      (
        record b { buf = p; z_max = bit_or n 3; y_max = n },
        grow_eq b (record b { buf = p; z_max = bit_or n 3 }) n e,
        r,
      )

  -- The three ways to go on within the bound.
  shrink-cases :
      (b : Buf) (n : ℕ)
      → (shrink_terminated a size n b ≡ some b)
        ⊎ ((n ≡ 0)
            × (15 < b.z_max)
            × (shrink_terminated a size n b ≡ realloc_buf a size 4 0 (record b { z_max = 3 })))
        ⊎ (shrink_terminated a size n b
            ≡ realloc_buf a size (next n) n (record b { z_max = bit_or n 3 }))
  unfolding shrink_terminated
  shrink-cases b n = ground arith

  keep-Ready :
      (b : Buf) (blk : Block) (n : ℕ)
      → IsValid size b blk
      → n ≤ b.z_max
      → Ready size n n blk (record b { y_max = n })
  keep-Ready b blk n v le = record {
    blk = blk;
    held = v.held;
    whole = v.whole;
    top = refl;
    within = le;
    aligned = v.aligned;
    small = v.small;
    kept = refl;
  }

  pub shrink-Ready :
      (b : Buf) (blk : Block) (n : ℕ)
      → IsValid size b blk
      → n ≤ b.z_max
      → (n + 4) * size < 2 ^ 63
      → (c : Buf) × (shrink_terminated a size n (record b { y_max = n }) ≡ some c)
        × Ready size n n blk c
  shrink-Ready b blk n v le lim = elim (shrink-cases (record b { y_max = n }) n) [
    | inl e ↦ (record b { y_max = n }, e, keep-Ready b blk n v le)
    | inr (inl (z, _, e)) ↦
        let four = mul_mono size 4 (n + 4) (omega arith) in
        let (p, f, r) =
          realloc_buf-Ready (record b { y_max = n; z_max = 3 }) blk n 0 4 v.held refl (omega arith)
            (omega arith) (omega arith) refl (omega arith) in
        (
          record b { buf = p; y_max = n; z_max = 3 },
          e ∙ f,
          subst (λ k. Ready size n k blk (record b { buf = p; y_max = n; z_max = 3 })) (sym z) r,
        )
    | inr (inr e) ↦
        let inside = mul_mono size n (b.z_max + 1) (omega arith) in
        let (p, f, r) =
          renew (record b { y_max = n }) blk n n v.held (omega (arith, v.whole)) (omega arith)
            lim in
        (record b { buf = p; y_max = n; z_max = bit_or n 3 }, e ∙ f, r)
  ]
