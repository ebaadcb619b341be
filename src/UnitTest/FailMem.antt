-- ===== src/UnitTest/FailMem.antt =====
-- `UnitTest::PrintFailmem` (test/unittest.cpp), which shows the memory of a failed check. What a line writes to
-- the buffer on the stack is a list of writes, in their order; a write behind its 80 bytes is a missing result.
pub mod Bounds
use prot.Prelude.{
  ℕ, zero, suc, Bool, true, false, ◌+◌, ◌-◌, ◌%◌, ◌||◌, ◌==◌, ltb, leb, if◌then◌else◌, Option, none,
  some, List, [], ◌∷◌, ◌++◌, length, take, drop, min, replicate,
}
use prot.Base.Allocate.{Block, write}

-- What `sprintf` puts for `%02X` and for `%08X`.
pub record Formats : Type 0 where
  pub hex_byte : ℕ → List ℕ
  pub hex_offset : ℕ → List ℕ

infixl 5 ◌>>=◌
abbrev pub ◌>>=◌ : {A B : Type 0} → Option A → (A → Option B) → Option B
none >>= k = none
some a >>= k = k a

-- An offset in the buffer, and the bytes that go there.
abbrev pub Writes : Type 0
Writes = List (ℕ × List ℕ)

unfoldable pub writes : Writes → Block → Option Block
writes [] b = some b
writes ((off, vs) ∷ ws) b = do c ← write b off vs; writes ws c

-- A byte in the column of characters.
unfoldable pub shown : ℕ → ℕ
shown v = if ltb v 32 || ltb 127 v then 46 else v

unfoldable pub chars : (p : ℕ) → List ℕ → Writes
chars p [] = (p, 0 ∷ []) ∷ []
chars p (v ∷ vs) = (p, shown (v % 256) ∷ []) ∷ chars (p + 1) vs

module _ (f : Formats) where
  -- Fewer than 16 bytes: `pb` is the offset of the next.
  unfoldable pub short_line : (pb : ℕ) → List ℕ → Writes
  short_line pb [] = (pb, 0 ∷ []) ∷ (if pb == 0 then [] else (pb - 1, 0 ∷ []) ∷ [])
  short_line pb (v ∷ vs) = (pb, f.hex_byte (v % 256) ++ (32 ∷ 0 ∷ [])) ∷ short_line (pb + 3) vs

  -- ` %02X` for each byte.
  unfoldable pub hexes : List ℕ → List ℕ
  hexes [] = []
  hexes (v ∷ vs) = 32 ∷ (f.hex_byte (v % 256) ++ hexes vs)

  -- A line of 16 bytes.
  unfoldable pub full_line : (offset : ℕ) → List ℕ → Writes
  full_line offset vs =
      (
        0,
        32
            ∷ (f.hex_offset offset
                ++ (58
                    ∷ (hexes (take 8 vs)
                        ++ (32 ∷ (hexes (drop 8 vs) ++ (32 ∷ 124 ∷ 32 ∷ 0 ∷ [])))))),
      )
      ∷ chars 62 vs

  -- The last line, from the i-th byte on with k to go: `vs` is what is left of the bytes `all`.
  unfoldable pub last_bytes : (k i p : ℕ) → (vs all : List ℕ) → Writes
  last_bytes zero i p vs all = (p, 32 ∷ 124 ∷ 32 ∷ []) ∷ chars (p + 3) all
  last_bytes (suc k) i p [] all =
      let q = if i == 8 then p + 1 else p in
      let rest = (q, 32 ∷ 32 ∷ 32 ∷ []) ∷ last_bytes k (i + 1) (q + 3) [] all in
      if i == 8 then (p, 32 ∷ []) ∷ rest else rest
  last_bytes (suc k) i p (v ∷ vs) all =
      let q = if i == 8 then p + 1 else p in
      let rest =
        (q, 32 ∷ (f.hex_byte (v % 256) ++ (0 ∷ []))) ∷ last_bytes k (i + 1) (q + 3) vs all in
      if i == 8 then (p, 32 ∷ []) ∷ rest else rest

  unfoldable pub last_line : (offset : ℕ) → List ℕ → Writes
  last_line offset vs = (0, 32 ∷ (f.hex_offset offset ++ (58 ∷ 0 ∷ []))) ∷ last_bytes 16 0 10 vs vs

  -- The headline, with the text of the expression.
  unfoldable pub head_line : (exp : List ℕ) → Writes
  head_line exp =
      let explen = min (length exp) 72 in
      (0, replicate 80 61)
      ∷ (79, 0 ∷ [])
      ∷ (3, 32 ∷ [])
      ∷ (4 + explen, 32 ∷ [])
      ∷ (4, take explen exp)
      ∷ []

  -- The lines below it: the buffer as it is printed each time.
  unfoldable pub lines : (fuel offset : ℕ) → List ℕ → Block → Option (List Block)
  lines zero offset vs b = none
  lines (suc fuel) offset vs b =
      let below = (do
        c ← writes (full_line offset (take 16 vs)) b
        cs ← lines fuel (offset + 16) (drop 16 vs) c
        some (c ∷ cs)) in
      if leb 16 (length vs)
      then below
      else if length vs == 0
      then some []
      else (do c ← writes (last_line offset vs) b; some (c ∷ []))

  -- `PrintFailmem` for a pointer that is not null, with the bytes there and what the buffer holds at first.
  unfoldable pub print_failmem : (exp val : List ℕ) → Block → Option (List Block)
  print_failmem exp val b =
      if ltb (length val) 16
      then (do c ← writes (short_line 0 val) b; some (c ∷ []))
      else (do c ← writes (head_line exp) b; cs ← lines (length val + 1) 0 val c; some (c ∷ cs))
