-- ===== src/Base/Tests.antt =====
-- Tests of base/memops.hh, and its theorem at a concrete input.
use prot.Prelude.{◌≡◌, refl, none, some, List, ℕ, [], ◌∷◌, arith}
use prot.Base.BlockOr.{or_block, or_tail, or_block_lem}
use prot.Base.FindT.{find_t, found}
use prot.Base.Memops.{fill_t}

abbrev cells : List ℕ
cells = 1 ∷ 2 ∷ 3 ∷ []

fill_outside : fill_t 4 0 9 cells ≡ none
unfolding fill_t
fill_outside = refl

or_block_lem_example :
    or_block 2 9 (1 ∷ 2 ∷ 3 ∷ 4 ∷ 5 ∷ 6 ∷ 7 ∷ 8 ∷ 9 ∷ []) (8 ∷ 8 ∷ 8 ∷ 8 ∷ 8 ∷ 8 ∷ 8 ∷ 8 ∷ 8 ∷ [])
    ≡ some (
        or_tail 9 (1 ∷ 2 ∷ 3 ∷ 4 ∷ 5 ∷ 6 ∷ 7 ∷ 8 ∷ 9 ∷ []) (8 ∷ 8 ∷ 8 ∷ 8 ∷ 8 ∷ 8 ∷ 8 ∷ 8 ∷ 8 ∷ []))
or_block_lem_example =
    or_block_lem 2 9 _ _ (omega arith) (omega arith) (omega arith) (ground arith) (ground arith)

find_second : find_t 3 0 2 cells ≡ found 1
unfolding find_t
find_second = refl
