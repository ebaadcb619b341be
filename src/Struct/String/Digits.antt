-- ===== src/Struct/String/Digits.antt =====
-- `String::FromInt` (struct/string.hh): the digits of an integer, and a reference for their way back.
pub mod RoundTrip
use mathlib.Core.List.{reverse, reverse-cons, reverse-append}
use prot.Prelude.{
  ℕ, zero, suc, ◌+◌, ◌-◌, ◌*◌, ◌/◌, ◌%◌, ◌^◌, ◌≤◌, ◌<◌, ◌≡◌, refl, sym, subst, ap, ◌∙◌, ◌⊎◌, inl,
  inr, Bool-cases, ◌&&◌, ltb, ◌==◌, if◌then◌else◌, Option, none, some, List, [], ◌∷◌, ◌++◌, length,
  length-append, arith,
}
use prot.Prelude.Int.{
  ℤ, pos, negsuc, pos_part, neg_part, sub_ℕ, ◌-ℤ◌, ◌==ℤ◌, ltb_ℤ, quot, rem, to_i64,
}
use native.Mathlib.Nat.{zero-div, mod-eq_of_lt, mod-add-div, div-mul-le_self, mod-lt}
use prot.Base.Allocate.{Allocator}
use prot.Struct.String.{Act, string_of}

-- `ch_cmap`, without its closing zero; `none` is an index out of it.
unfoldable pub ch_cmap : ℤ → Option ℕ
ch_cmap (negsuc i) = none
ch_cmap (pos i) =
    if ltb i 10 then some (i + b'0') else if ltb i 36 then some (i - 10 + b'A') else none

-- What the loop can do that C++ does not allow: a write behind the end of `buf`, or a read outside of
-- the table.
pub data Fault : Type 0 where
  past_buf outside_cmap : Fault

-- The loop that writes the digits, the last one first, into the room that `buf` still has.
unfoldable pub digits : (room : ℕ) → (rdx : ℕ) → ℤ → Fault ⊎ List ℕ
unfolding ch_cmap
digits zero rdx num = inl past_buf
digits (suc room) rdx num =
    let rest = digits room rdx (quot num rdx) in
    elim (ch_cmap (rem num rdx)) [
      | none ↦ inl outside_cmap
      | some c ↦
          if quot num rdx ==ℤ pos 0
          then inr (c ∷ [])
          else elim rest [ inl fault ↦ inl fault | inr cs ↦ inr (c ∷ cs) ]
    ]

-- `num = -num` in 64 bits.
abbrev pub magnitude : ℤ → ℤ
magnitude num = if ltb_ℤ num (pos 0) then to_i64 (pos 0 -ℤ num) else num

-- The text of `FromInt`: the copy loop turns the digits round.
unfoldable pub from_int_text : ℤ → (rdx : ℕ) → Fault ⊎ List ℕ
from_int_text num rdx =
    if ltb 1 rdx && ltb rdx 37
    then elim (digits 80 rdx (magnitude num)) [
      | inl fault ↦ inl fault
      | inr ds ↦ inr (reverse (if ltb_ℤ num (pos 0) then ds ++ b'-' ∷ [] else ds))
    ]
    else inr []

-- `String::FromInt`
unfoldable pub from_int : Allocator → ℤ → (rdx : ℕ) → Act ℕ
unfolding from_int_text
from_int a num rdx h = elim (from_int_text num rdx) [ inl fault ↦ none | inr s ↦ string_of a s h ]

-- Reading a number, as the reference.
abbrev pub digit_value : ℕ → ℕ
digit_value c = if ltb c b'A' then c - b'0' else c - b'A' + 10

abbrev pub parse_loop : (rdx acc : ℕ) → List ℕ → ℕ
parse_loop rdx acc [] = acc
parse_loop rdx acc (c ∷ cs) = parse_loop rdx (acc * rdx + digit_value c) cs

abbrev pub parse_int : (rdx : ℕ) → List ℕ → ℤ
parse_int rdx [] = pos 0
parse_int rdx (c ∷ cs) =
    if c == b'-' then sub_ℕ 0 (parse_loop rdx 0 cs) else pos (parse_loop rdx 0 (c ∷ cs))
