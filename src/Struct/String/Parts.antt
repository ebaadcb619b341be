-- ===== src/Struct/String/Parts.antt =====
-- `SubStr` of `String` (struct/string.hh).
use prot.Prelude.{
  ℕ, ◌+◌, ◌%◌, ◌^◌, ◌≤◌, ◌<◌, ◌≡◌, refl, sym, ap, ◌∙◌, ◌&&◌, length-take, length-drop, true, false,
  ◌==◌, some, List, length, take, drop, ltb, arith,
}
use prot.Base.Allocate.{Allocator, IsStandard, HasMemory}
use prot.Struct.Buffer.{Buf, init, add_ref}
use prot.Struct.Buffer.Ready.{IsValid}
use prot.Struct.String.{Heap, update, block, fill_buf, sub_copy, sub_str}
use prot.Struct.Buffer.Resize.{init_lem}
use prot.Struct.String.Text.{fill_buf_lem, filled, Holds-filled, init_len}

module _ (a : Allocator) where
  sub_copy_eq :
      (s : List ℕ) (h : Heap) (c d : Buf)
      → init a 1 true (length s) ≡ some c
      → fill_buf s (add_ref c).0 ≡ some d
      → sub_copy a s h
        ≡ some (
          h.next,
          record {
            next = h.next + 1;
            cell =
                update
                  (update (update h.cell h.next (some c)) h.next (some (add_ref c).0))
                  h.next
                  (some (record d { len = (add_ref c).0.len }));
          },
        )
  unfolding sub_copy
  sub_copy_eq s h c d e f = ground (arith, e, f)

module _ (a : Allocator) (std : IsStandard a) (mem : HasMemory a) where
  sub_copy_lem :
      (s : List ℕ) (h : Heap)
      → length s + 4 < 2 ^ 63
      → (h' : Heap) × (c : Buf) × (sub_copy a s h ≡ some (h.next, h'))
        × (h'.cell h.next ≡ some c)
        × (c.len ≡ 0)
        × (c.z_ref ≡ 1)
        × (take (length s) (block c.buf) ≡ s)
  unfolding add_ref
  sub_copy_lem s h lim =
      let (c, blk, e, top, v, k) = init_lem a std mem 1 (omega arith) (length s) (omega arith) in
      let (z, r) = init_len a (length s) c e in
      let c1 = record c { z_ref = (c.z_ref + 1) % 2 ^ 64 } in
      let w : IsValid 1 c1 blk = record {
        held = v.held;
        whole = v.whole;
        within = v.within;
        aligned = v.aligned;
        small = v.small;
        ended = v.ended;
      } in
      let f = fill_buf_lem s c1 blk w (omega (arith, top)) in
      let held = Holds-filled s c blk (length s) 0 v top refl in
      (
        _,
        record (filled s blk c1) { len = c.len },
        sub_copy_eq a s h c (filled s blk c1) e f,
        ground arith,
        z,
        ground (arith, r),
        held.text,
      )

  -- `SubStr` of a part of a string, within its block, makes a new string with the right bytes, but
  -- leaves its length 0.
  pub sub_str_len :
      (start cnt p : ℕ) (h : Heap) (b : Buf)
      → h.cell p ≡ some b
      → (start == 0 && cnt == b.len) ≡ false
      → start + cnt ≤ length (block b.buf)
      → cnt + 4 < 2 ^ 63
      → (h' : Heap) × (c : Buf) × (sub_str a start cnt p h ≡ some (h.next, h'))
        × (h'.cell h.next ≡ some c)
        × (c.len ≡ 0)
        × (c.z_ref ≡ 1)
        × (take cnt (block c.buf) ≡ take cnt (drop start (block b.buf)))
  unfolding sub_str
  sub_str_len start cnt p h b e part inside lim =
      let s = take cnt (drop start (block b.buf)) in
      let n : length s ≡ cnt =
        omega
          (arith, length-take cnt (drop start (block b.buf)), length-drop start (block b.buf)) in
      let (h', c, f, g, z, r, t) = sub_copy_lem s h (omega (arith, n)) in
      let fits : ltb (length (block b.buf)) (start + cnt) ≡ false = ground arith in
      (h', c, ground (arith, e, part, fits, f), g, z, r, ap (λ k. take k (block c.buf)) (sym n) ∙ t)
