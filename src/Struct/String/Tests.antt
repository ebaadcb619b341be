-- ===== src/Struct/String/Tests.antt =====
-- Tests of `String` (after struct/string_unittest.cpp), and its theorems at concrete inputs.
use prot.Prelude.{
  map, take, inl, inr, ◌-◌, ◌^◌, ◌≡◌, refl, ◌==◌, if◌then◌else◌, none, some, List, [], ◌∷◌, arith,
}
use prot.Prelude.Int.{pos, negsuc}
use prot.Base.Arena.{arena, arena-IsStandard, arena-HasMemory}
use prot.Struct.Buffer.{Buf, at}
use prot.Struct.String.{
  Heap, World, Call, make, copy, destruct, assign, exec_all, upper, store_filled, release,
  add_ref_at, upper_byte, block,
}
use prot.Struct.String.Count.{Counted}
use prot.Struct.String.Programs.{no_strings, exec_all-Counted}
use prot.Struct.String.Text.{Holds}
use prot.Struct.String.Editing.{upper_unshared}
use prot.Struct.String.Digits.{outside_cmap, digits, from_int_text}
use prot.Struct.String.Digits.RoundTrip.{Reads, from_int_text-Reads, from_int_text_min}

-- "-100" and "186A0".
minus_hundred : from_int_text (negsuc 99) 10 ≡ inr (45 ∷ 49 ∷ 48 ∷ 48 ∷ [])
unfolding from_int_text digits
minus_hundred = refl

hexadecimal : from_int_text (pos 100000) 16 ≡ inr (49 ∷ 56 ∷ 54 ∷ 65 ∷ 48 ∷ [])
unfolding from_int_text digits
hexadecimal = refl

from_int_text-Reads_example : Reads (negsuc 99) 10 (from_int_text (negsuc 99) 10)
from_int_text-Reads_example =
    from_int_text-Reads (negsuc 99) 10 (omega arith) (omega arith) (omega arith) (omega arith)

from_int_text_min_example : from_int_text (negsuc (2 ^ 63 - 1)) 10 ≡ inl outside_cmap
from_int_text_min_example = from_int_text_min 10 (omega arith) (omega arith)

abbrev program : List Call
program = make (97 ∷ 98 ∷ []) ∷ copy 0 ∷ make [] ∷ assign 0 1 ∷ destruct 2 ∷ []

exec_all-Counted_example :
    (v : World) × (exec_all arena program no_strings ≡ some v) × Counted v.strings v.heap
exec_all-Counted_example =
    exec_all-Counted arena arena-IsStandard arena-HasMemory program (omega arith) (omega arith)

-- "ab" with its terminator, in a buffer with one reference, and with two.
abbrev text : Buf
text = record {
  buf = at (some (97 ∷ 98 ∷ 0 ∷ 7 ∷ []));
  len = 2;
  tag = 0;
  y_max = 2;
  z_max = 3;
  z_ref = 1;
}

text-Holds : Holds (97 ∷ 98 ∷ []) text
text-Holds = record {
  len = refl;
  valid = record {
    held = refl;
    whole = refl;
    within = omega arith;
    aligned = refl;
    small = omega arith;
    ended = refl;
  };
  top = refl;
  text = refl;
}

abbrev alone : Heap
alone = record { next = 1; cell = λ p. if p == 0 then some text else none }

upper_unshared_example :
    (h1 h2 : Heap) × (store_filled 0 (map upper_byte (take 2 (block text.buf))) text 2 alone
      ≡ some (tt, h1))
    × (release 0 h1 ≡ some (tt, h2))
    × (h2.cell 0 ≡ none)
    × (upper arena 0 alone ≡ elim (add_ref_at 0 h2) [ none ↦ none | some (_, h3) ↦ some (0, h3) ])
    × (add_ref_at 0 h2 ≡ none)
upper_unshared_example = upper_unshared arena 0 alone text (97 ∷ 98 ∷ []) refl refl text-Holds

abbrev shared_text : Buf
shared_text = record text { z_ref = 2 }

shared-Holds : Holds (97 ∷ 98 ∷ []) shared_text
shared-Holds = record {
  len = refl;
  valid = record {
    held = refl;
    whole = refl;
    within = omega arith;
    aligned = refl;
    small = omega arith;
    ended = refl;
  };
  top = refl;
  text = refl;
}

abbrev together : Heap
together = record { next = 1; cell = λ p. if p == 0 then some shared_text else none }
