-- ===== src/Base/Allocate.antt =====
-- base/allocate.hh: `Memory::Alloc` and `Memory::Reloc` over the C library's allocator, which is a
-- parameter. A block is the list of its bytes. Writes into a block are those of base/memops.hh.
use prot.Prelude.{
  ℕ, zero, suc, ◌+◌, ◌%◌, ◌^◌, ◌≤◌, ◌<◌, min, ◌≡◌, refl, sym, ap, ◌∙◌, ltb, leb, ◌==◌,
  if◌then◌else◌, Bool, true, false, Option, none, some, List, [], ◌∷◌, ◌++◌, length, take, drop,
  take-take, take-append, length-append, length-take, length-drop, arith,
}

abbrev pub Block : Type 0
Block = List ℕ

-- `malloc` and `realloc`; `none` is the null pointer.
pub record Allocator : Type 0 where
  pub malloc : ℕ → Option Block
  pub realloc : Option Block → ℕ → Option Block

-- The bytes behind a pointer.
abbrev pub bytes : Option Block → Block
bytes none = []
bytes (some b) = b

-- What the C standard says of the two: the new block has the size asked for, and `realloc` keeps the
-- common part. At size 0 `realloc` may return either a null pointer or an empty block.
pub record IsStandard (a : Allocator) : Type 0 where
  pub malloc_length : (n : ℕ) (c : Block) → a.malloc n ≡ some c → length c ≡ n
  pub realloc_length :
      (p : Option Block) (n : ℕ) (c : Block) → a.realloc p n ≡ some c → length c ≡ n
  pub realloc_keeps :
      (p : Option Block) (n : ℕ) (c : Block)
      → a.realloc p n ≡ some c
      → take (min (length (bytes p)) n) c ≡ take (min (length (bytes p)) n) (bytes p)

-- There is memory for every request that is not empty.
pub record HasMemory (a : Allocator) : Type 0 where
  pub malloc_some : (n : ℕ) → 0 < n → (c : Block) × (a.malloc n ≡ some c)
  pub realloc_some : (p : Option Block) (n : ℕ) → 0 < n → (c : Block) × (a.realloc p n ≡ some c)

-- `Memory::Alloc`
unfoldable pub alloc : Allocator → ℕ → Option Block
alloc a nbytes = if nbytes == 0 then none else a.malloc nbytes

-- `Memory::Reloc` with a number of bytes to keep.
unfoldable pub reloc : Allocator → Option Block → (nbytes nb_cpy : ℕ) → Option Block
reloc a ptr nbytes nb_cpy =
    a.realloc (if ltb ((nb_cpy + 1000) % 2 ^ 64) nbytes then a.realloc ptr nb_cpy else ptr) nbytes

-- `memcpy` and `memset` of `vs` to the offset `off`; `none` is a write out of bounds.
unfoldable pub write : Block → (off : ℕ) → List ℕ → Option Block
write b off vs =
    if leb (off + length vs) (length b)
    then some (take off b ++ (vs ++ drop (off + length vs) b))
    else none

-- A pointer that keeps the first `k` bytes of `b`.
abbrev Keeps : ℕ → Block → Option Block → Type 0
Keeps k b p = (k ≤ length (bytes p)) × (take k (bytes p) ≡ take k b)

take_mono : (k m : ℕ) (b c : Block) → k ≤ m → take m c ≡ take m b → take k c ≡ take k b
take_mono k m b c h e = sym (take-take k m c h) ∙ ap (take k) e ∙ take-take k m b h

module _ (a : Allocator) (std : IsStandard a) (mem : HasMemory a) where
  realloc-Keeps :
      (p : Option Block) (n k : ℕ) (b : Block)
      → Keeps k b p
      → k ≤ n
      → 0 < n
      → (c : Block) × (a.realloc p n ≡ some c) × (length c ≡ n) × (take k c ≡ take k b)
  realloc-Keeps p n k b h le pos =
      let (c, e) = mem.realloc_some p n pos in
      (
        c,
        e,
        std.realloc_length p n c e,
        take_mono k (min (length (bytes p)) n) (bytes p) c (omega arith) (std.realloc_keeps p n c e)
            ∙ h.1,
      )

  shrunk-Keeps :
      (p : Option Block) (k : ℕ) → k ≤ length (bytes p) → Keeps k (bytes p) (a.realloc p k)
  shrunk-Keeps p zero h = (omega arith, refl)
  shrunk-Keeps p (suc k) h =
      let (c, e, l, t) =
        realloc-Keeps p (suc k) (suc k) (bytes p) (h, refl) (omega arith) (omega arith) in
      rw e (omega (arith, l), t)

  -- `Reloc` gives a block of the new size, with the first `nb_cpy` bytes of the old one, whether it
  -- goes by way of a smaller block or not.
  pub reloc_lem :
      (p : Option Block) (n k : ℕ)
      → k ≤ length (bytes p)
      → k ≤ n
      → 0 < n
      → (c : Block) × (reloc a p n k ≡ some c) × (length c ≡ n) × (take k c ≡ take k (bytes p))
  unfolding reloc
  reloc_lem p n k h le pos =
      realloc-Keeps (if small then a.realloc p k else p) n k (bytes p) (source-Keeps small) le pos
    where
      small : Bool
      small = ltb ((k + 1000) % 2 ^ 64) n

      source-Keeps : (t : Bool) → Keeps k (bytes p) (if t then a.realloc p k else p)
      source-Keeps true = shrunk-Keeps p k h
      source-Keeps false = (h, refl)

take_all :
    (off : ℕ) (b : Block) (vs : List ℕ) → off ≤ length b → take off (take off b ++ vs) ≡ take off b
take_all zero b vs h = refl
take_all (suc n) [] vs h = absurd (omega arith)
take_all (suc n) (x ∷ b) vs h = ap (◌∷◌ x) (take_all n b vs (omega arith))

drop_all : (off : ℕ) (b : Block) (vs : List ℕ) → off ≤ length b → drop off (take off b ++ vs) ≡ vs
drop_all zero b vs h = refl
drop_all (suc n) [] vs h = absurd (omega arith)
drop_all (suc n) (x ∷ b) vs h = drop_all n b vs (omega arith)

-- A write in bounds puts the bytes at their place, keeps those before it and the size.
pub write_lem :
    (b : Block) (off : ℕ) (vs : List ℕ)
    → off + length vs ≤ length b
    → (c : Block) × (write b off vs ≡ some c)
      × (length c ≡ length b)
      × (take off c ≡ take off b)
      × (take (length vs) (drop off c) ≡ vs)
unfolding write
write_lem b off vs h = (
  take off b ++ (vs ++ drop (off + length vs) b),
  ground arith,
  omega (
    arith,
    length-append (take off b) (vs ++ drop (off + length vs) b),
    length-append vs (drop (off + length vs) b),
    length-take off b,
    length-drop (off + length vs) b,
  ),
  take_all off b (vs ++ drop (off + length vs) b) (omega arith),
  rw (drop_all off b (vs ++ drop (off + length vs) b) (omega arith))
      (take-append vs (drop (off + length vs) b)),
)
