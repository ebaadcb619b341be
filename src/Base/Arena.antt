-- ===== src/Base/Arena.antt =====
-- An allocator that never fails, for tests: new bytes are 7.
use prot.Prelude.{ℕ, zero, suc, ◌≤◌, min, ◌≡◌, refl, ap, ◌∙◌, some, [], ◌∷◌, length, take, arith}
use prot.Base.Allocate.{Block, Allocator, IsStandard, HasMemory, bytes}

-- The first `n` bytes, filled up with 7.
unfoldable pub fit : ℕ → Block → Block
fit zero b = []
fit (suc n) [] = 7 ∷ fit n []
fit (suc n) (x ∷ b) = x ∷ fit n b

length-fit : (n : ℕ) (b : Block) → length (fit n b) ≡ n
unfolding fit
length-fit zero b = refl
length-fit (suc n) [] = ap suc (length-fit n [])
length-fit (suc n) (x ∷ b) = ap suc (length-fit n b)

take-fit : (k n : ℕ) (b : Block) → k ≤ length b → k ≤ n → take k (fit n b) ≡ take k b
unfolding fit
take-fit zero n b h p = refl
take-fit (suc k) zero b h p = absurd (omega arith)
take-fit (suc k) (suc n) [] h p = absurd (omega arith)
take-fit (suc k) (suc n) (x ∷ b) h p = ap (◌∷◌ x) (take-fit k n b (omega arith) (omega arith))

abbrev pub arena : Allocator
arena = record { malloc = λ n. some (fit n []); realloc = λ p n. some (fit n (bytes p)) }

some_eq : (b c : Block) → some b ≡ some c → c ≡ b
some_eq b c e = cc

pub arena-IsStandard : IsStandard arena
arena-IsStandard = record {
  malloc_length = λ n c e. ap length (some_eq (fit n []) c e) ∙ length-fit n [];
  realloc_length = λ p n c e. ap length (some_eq (fit n (bytes p)) c e) ∙ length-fit n (bytes p);
  realloc_keeps = λ p n c e.
      ap (take (min (length (bytes p)) n)) (some_eq (fit n (bytes p)) c e)
      ∙ take-fit (min (length (bytes p)) n) n (bytes p) (omega arith) (omega arith);
}

pub arena-HasMemory : HasMemory arena
arena-HasMemory = record {
  malloc_some = λ n h. (fit n [], refl);
  realloc_some = λ p n h. (fit n (bytes p), refl);
}
