-- ===== src/Struct/Buffer/Tests.antt =====
-- Tests of the buffer and its theorems over an allocator that never fails: new bytes are 7.
use prot.Prelude.{◌≡◌, refl, true, some, [], ◌∷◌, arith}
use prot.Base.Arena.{fit, arena, arena-IsStandard, arena-HasMemory}
use prot.Base.Allocate.{reloc, write}
use prot.Struct.Buffer.{Buf, at, resize, grow_terminated, zend}
use prot.Struct.Buffer.Ready.{IsValid}
use prot.Struct.Buffer.Resize.{Resized, resize_lem}

-- "ab", with its terminator.
abbrev two : Buf
two = record {
  buf = at (some (97 ∷ 98 ∷ 0 ∷ 7 ∷ []));
  len = 2;
  tag = 0;
  y_max = 2;
  z_max = 3;
  z_ref = 1;
}

two-IsValid : IsValid 1 two (97 ∷ 98 ∷ 0 ∷ 7 ∷ [])
two-IsValid = record {
  held = refl;
  whole = refl;
  within = omega arith;
  aligned = refl;
  small = omega arith;
  ended = refl;
}

resize_grows :
    resize arena 1 true 4 two
    ≡ some (record two {
      buf = at (some (97 ∷ 98 ∷ 0 ∷ 7 ∷ 0 ∷ 7 ∷ 7 ∷ 7 ∷ []));
      y_max = 4;
      z_max = 7;
    })
unfolding resize grow_terminated fit zend reloc write
resize_grows = refl

resize_lem_example : Resized 1 4 2 (97 ∷ 98 ∷ 0 ∷ 7 ∷ []) (resize arena 1 true 4 two)
resize_lem_example =
    resize_lem arena arena-IsStandard arena-HasMemory 1 (omega arith) 4 two (97 ∷ 98 ∷ 0 ∷ 7 ∷ [])
      two-IsValid (omega arith)

-- The assignment of "cd" to the buffer that holds "ab" leaves "ab" in it.
abbrev other_two : Buf
other_two = record two { buf = at (some (99 ∷ 100 ∷ 0 ∷ 7 ∷ [])) }
