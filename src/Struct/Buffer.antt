-- ===== src/Struct/Buffer.antt =====
-- struct/buffer.hh: `_PtBuf<_ELE, _FLAG>`, for elements of `size` bytes. `terminated` is bit 0 of
-- `_FLAG`, the zero element behind the data. An operation returns `none` where the code would write
-- through a null pointer or out of its block, or use a pointer that was never set. Sums and products
-- of `Size` wrap at 2 ^ 64.
pub mod Ready
pub mod Resize
pub mod Copy
mod Tests
use Prim.Native.Nat.{bit_or}
use prot.Prelude.{
  ℕ, ◌+◌, ◌*◌, ◌%◌, ◌^◌, Bool, true, false, if◌then◌else◌, ltb, leb, ◌==◌, Option, none, some,
  replicate, take,
}
use prot.Base.Bitops.{align_up}
use prot.Base.Allocate.{Allocator, Block, alloc, reloc, write, bytes}

-- The member `buf`: a fresh object has it unset until the constructor stores something.
pub data Ptr : Type 0 where
  unset : Ptr
  at : Option Block → Ptr

pub record Buf : Type 0 where
  pub buf : Ptr
  pub len : ℕ
  pub tag : ℕ
  pub y_max : ℕ
  pub z_max : ℕ
  pub z_ref : ℕ

abbrev pub mul_size : ℕ → ℕ → ℕ
mul_size a b = a * b % 2 ^ 64

module _ (a : Allocator) (size : ℕ) where
  -- `_Alloc`, `_ReAlloc` and `_Zend`; `_Free` is a null pointer stored.
  unfoldable pub alloc_buf : ℕ → Buf → Buf
  alloc_buf cnt b = record b { buf = at (alloc a (mul_size cnt size)) }

  -- The realloc of a pointer.
  unfoldable pub realloc_at : Ptr → (new cpy : ℕ) → Option Ptr
  realloc_at unset new cpy = none
  realloc_at (at p) new cpy = some (at (reloc a p (mul_size new size) (mul_size cpy size)))

  unfoldable pub realloc_buf : (new cpy : ℕ) → Buf → Option Buf
  unfolding realloc_at
  realloc_buf new cpy b = elim (realloc_at b.buf new cpy) [
    | none ↦ none
    | some p ↦ some (record b { buf = p })
  ]

  unfoldable pub zero_at : Ptr → ℕ → Option Ptr
  zero_at unset idx = none
  zero_at (at none) idx = none
  zero_at (at (some blk)) idx = elim (write blk (idx * size) (replicate size 0)) [
    | none ↦ none
    | some c ↦ some (at (some c))
  ]

  unfoldable pub zend : ℕ → Buf → Option Buf
  unfolding zero_at
  zend idx b = elim (zero_at b.buf idx) [ none ↦ none | some p ↦ some (record b { buf = p }) ]

  infixl 5 ◌>>=◌
  abbrev ◌>>=◌ : Option Buf → (Buf → Option Buf) → Option Buf
  none >>= f = none
  some b >>= f = f b

  -- `_Init`; `alloc_buf` is not reached for an empty buffer without a terminator.
  unfoldable pub init : (terminated : Bool) → ℕ → Option Buf
  unfolding alloc_buf zend align_up
  init true cnt = do
    b ← zend cnt (
        alloc_buf ((bit_or cnt 3 + 1) % 2 ^ 64)
          (record { buf = unset; len = 0; tag = 0; y_max = 0; z_max = bit_or cnt 3; z_ref = 0 }))
    some (record b { y_max = cnt })
  init false cnt =
      let b : Buf = record {
        buf = unset;
        len = 0;
        tag = 0;
        y_max = cnt;
        z_max = align_up cnt 4;
        z_ref = 0;
      } in
      if align_up cnt 4 == 0 then some b else some (alloc_buf (align_up cnt 4) b)

  -- `Resize` to a size within the bound: the block shrinks if less than half of it is wanted.
  unfoldable pub shrink_terminated : ℕ → Buf → Option Buf
  unfolding realloc_buf
  shrink_terminated new_size b =
      if ltb ((new_size + new_size) % 2 ^ 64) b.z_max
      then (if new_size == 0
          then (if ltb 15 b.z_max then realloc_buf 4 0 (record b { z_max = 3 }) else some b)
          else realloc_buf ((bit_or new_size 3 + 1) % 2 ^ 64) new_size
              (record b { z_max = bit_or new_size 3 }))
      else some b

  unfoldable pub grow_terminated : ℕ → Buf → Option Buf
  unfolding realloc_buf
  grow_terminated new_size b = do
    c ←
        realloc_buf ((bit_or new_size 3 + 1) % 2 ^ 64) b.y_max
          (record b { z_max = bit_or new_size 3 })
    some (record c { y_max = new_size })

  unfoldable pub shrink_plain : ℕ → Buf → Option Buf
  unfolding realloc_buf align_up
  shrink_plain new_size b =
      if ltb ((new_size + new_size) % 2 ^ 64) b.z_max
      then (if new_size == 0
          then (if ltb 8 b.z_max then some (record b { z_max = 0; buf = at none }) else some b)
          else realloc_buf (align_up new_size 4) new_size
              (record b { z_max = align_up new_size 4 }))
      else some b

  unfoldable pub grow_plain : ℕ → Buf → Option Buf
  unfolding realloc_buf align_up
  grow_plain new_size b = do
    c ← realloc_buf (align_up new_size 4) b.y_max (record b { z_max = align_up new_size 4 })
    some (record c { y_max = new_size })

  -- `_PtBuf::Resize`
  unfoldable pub resize : (terminated : Bool) → ℕ → Buf → Option Buf
  resize true new_size b =
      if leb new_size b.z_max
      then (if new_size == b.y_max
          then some b
          else (do c ← shrink_terminated new_size (record b { y_max = new_size }); zend new_size c))
      else (do c ← grow_terminated new_size b; zend new_size c)
  resize false new_size b =
      if leb new_size b.z_max
      then (if new_size == b.y_max
          then some b
          else shrink_plain new_size (record b { y_max = new_size }))
      else grow_plain new_size b

-- `free` of a pointer, which must be null or a block.
unfoldable pub free_at : Ptr → Option Ptr
free_at unset = none
free_at (at p) = some (at none)

-- `Destroy`, also the destructor's.
unfoldable pub destroy : Buf → Option Buf
unfolding free_at
destroy b = elim (free_at b.buf) [
  | none ↦ none
  | some p ↦ some (record b { buf = p; y_max = 0; z_max = 0 })
]

-- `AddRef`, `DecRef` and `Ref`
unfoldable pub add_ref : Buf → Buf × ℕ
add_ref b = (record b { z_ref = (b.z_ref + 1) % 2 ^ 64 }, (b.z_ref + 1) % 2 ^ 64)
