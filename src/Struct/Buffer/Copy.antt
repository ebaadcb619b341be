-- ===== src/Struct/Buffer/Copy.antt =====
-- The copy constructor and the assignment of `_PtBuf` (struct/buffer.hh).
use prot.Prelude.{
  ℕ, ◌+◌, ◌*◌, ◌^◌, ◌≤◌, ◌<◌, min, ◌≡◌, refl, sym, subst, ◌∙◌, Bool, true, false, Bool-cases, inl,
  inr, ◌==◌, leb, if◌then◌else◌, Option, none, some, take, length, length-take, arith,
}
use prot.Base.Allocate.{Allocator, Block, IsStandard, HasMemory, write, write_lem}
use prot.Struct.Buffer.{Ptr, unset, at, Buf, init, resize}
use prot.Struct.Buffer.Ready.{IsValid, mul_mono}
use prot.Struct.Buffer.Resize.{init_lem, resize_lem}

-- `Memory::Copy` of `n` bytes, at least one; `none` is an access out of a block or without one.
unfoldable copy_bytes : (dest from : Ptr) → (n : ℕ) → Option Ptr
copy_bytes (at (some d)) (at (some s)) n =
    if leb n (length s)
    then elim (write d 0 (take n s)) [ none ↦ none | some c ↦ some (at (some c)) ]
    else none
copy_bytes (at (some d)) (at none) n = none
copy_bytes (at (some d)) unset n = none
copy_bytes (at none) from n = none
copy_bytes unset from n = none

-- `Memory::Copy` of no byte leaves everything as it is.
unfoldable memory_copy : (dest from : Ptr) → (n : ℕ) → Option Ptr
unfolding copy_bytes
memory_copy dest from n = if n == 0 then some dest else copy_bytes dest from n

module _ (a : Allocator) (size : ℕ) (terminated : Bool) where
  -- `_PtBuf::_PtBuf(const _PtBuf&)`
  unfoldable pub copy_construct : (other : Buf) → Option Buf
  unfolding memory_copy
  copy_construct other = elim (init a size terminated other.y_max) [
    | none ↦ none
    | some b ↦ elim (memory_copy b.buf other.buf other.len) [
      | none ↦ none
      | some p ↦ some (record b { buf = p; len = other.len; tag = other.tag })
    ]
  ]

  -- `operator=`; `same` is whether both are one object.
  unfoldable pub assign : (same : Bool) → (other self : Buf) → Option Buf
  assign same other self =
      if same then some self else elim (resize a size terminated other.y_max self) [
        | none ↦ none
        | some b ↦ some (record b { z_ref = 0; len = other.len; tag = other.tag })
      ]

-- Of `len` bytes within both blocks, `Memory::Copy` copies all.
memory_copy_lem :
    (d s : Block) (n : ℕ)
    → n ≤ length s
    → n ≤ length d
    → (c : Block) × (memory_copy (at (some d)) (at (some s)) n ≡ some (at (some c)))
      × (length c ≡ length d)
      × (take n c ≡ take n s)
unfolding memory_copy
memory_copy_lem d s n hs hd = elim (Bool-cases (n == 0)) [
  | inl e ↦
      let none_left : n ≡ 0 = ground (arith, e) in
      (d, ground (arith, e), refl, subst (λ k. take k d ≡ take k s) (sym none_left) refl)
  | inr ne ↦
      let l : length (take n s) ≡ n = omega (arith, length-take n s) in
      let (c, w, k, t, r) = write_lem d 0 (take n s) (omega (arith, l)) in
      (c, ground (arith, ne, hs, w), k, subst (λ m. take m c ≡ take n s) l r)
]

module _ (a : Allocator) (std : IsStandard a) (mem : HasMemory a) (size : ℕ) (pos : 0 < size) where
  -- A copy of a valid buffer whose `len` is within its size has its own block, of that size, with the
  -- first `len` bytes in it, and no reference.
  pub copy_construct_lem :
      (other : Buf) (blk : Block)
      → IsValid size other blk
      → other.len ≤ other.y_max
      → (other.y_max + 4) * size < 2 ^ 63
      → (c : Buf) × (d : Block) × (copy_construct a size true other ≡ some c)
        × (c.buf ≡ at (some d))
        × (c.len ≡ other.len)
        × (c.y_max ≡ other.y_max)
        × (length d ≡ (c.z_max + 1) * size)
        × (take other.len d ≡ take other.len blk)
  unfolding copy_construct
  copy_construct_lem other blk v h lim =
      let (b, d, e, y, w, _) = init_lem a std mem size pos other.y_max lim in
      let wb = w.within in
      let wo = v.within in
      let fit_d = mul_mono size other.y_max (b.z_max + 1) (omega arith) in
      let fit_s = mul_mono size other.y_max (other.z_max + 1) (omega arith) in
      let big : other.y_max ≤ other.y_max * size = grind arith in
      let (c, f, l, t) =
        memory_copy_lem d blk other.len (omega (arith, v.whole)) (omega (arith, w.whole)) in
      (
        record b { buf = at (some c); len = other.len; tag = other.tag },
        c,
        ground (arith, e, w.held, v.held, f),
        refl,
        refl,
        y,
        l ∙ w.whole,
        t,
      )

  -- An assignment from another buffer takes over its size, `len` and `tag`, but none of its data: the
  -- first elements are those that the buffer had before.
  pub assign_lem :
      (other self : Buf) (blk : Block)
      → IsValid size self blk
      → (other.y_max + 4) * size < 2 ^ 63
      → (c : Buf) × (d : Block) × (assign a size true false other self ≡ some c)
        × (c.buf ≡ at (some d))
        × (c.len ≡ other.len)
        × (c.z_ref ≡ 0)
        × (take (min self.y_max other.y_max * size) d
            ≡ take (min self.y_max other.y_max * size) blk)
  unfolding assign
  assign_lem other self blk v lim =
      let (c, d, e, y, w, t) = resize_lem a std mem size pos other.y_max self blk v lim in
      (
        record c { z_ref = 0; len = other.len; tag = other.tag },
        d,
        ground (arith, e),
        w.held,
        refl,
        refl,
        t,
      )
