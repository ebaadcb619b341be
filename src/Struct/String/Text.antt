-- ===== src/Struct/String/Text.antt =====
-- What the operations of `String` (struct/string.hh) do to the text.
use prot.Prelude.{
  ℕ, zero, suc, ◌+◌, ◌*◌, ◌^◌, ◌≤◌, ◌<◌, ◌≡◌, refl, ap, ◌∙◌, true, ◌==◌, if◌then◌else◌, none, some,
  List, [], ◌∷◌, ◌++◌, length, take, drop, length-drop, length-append, take-append, arith,
}
use prot.Base.Allocate.{Allocator, Block, IsStandard, HasMemory, write}
use prot.Struct.Buffer.{at, Buf, init, add_ref}
use prot.Struct.Buffer.Ready.{IsValid}
use prot.Struct.Buffer.Resize.{init_lem}
use prot.Struct.String.{Heap, update, block, fill_buf, put_text, string_of}

-- The buffer holds the text `s`: its length, its bytes and a zero behind them.
pub record Holds (s : List ℕ) (b : Buf) : Type 0 where
  pub len : b.len ≡ length s
  pub valid : IsValid 1 b (block b.buf)
  pub top : b.y_max ≡ length s
  pub text : take (length s) (block b.buf) ≡ s

pub init_len :
    (a : Allocator) (n : ℕ) (c : Buf) → init a 1 true n ≡ some c → (c.len ≡ 0) × (c.z_ref ≡ 0)
unfolding init
init_len a n c e = ground arith

drop-append {ℓ} : {A : Type ℓ} (xs ys : List A) → drop (length xs) (xs ++ ys) ≡ ys
drop-append [] ys = refl
drop-append (x ∷ xs) ys = drop-append xs ys

length-drop_add {ℓ} :
    {A : Type ℓ} (s : List A) (xs : List A)
    → length s ≤ length xs
    → length (s ++ drop (length s) xs) ≡ length xs
length-drop_add s xs h =
    omega (arith, length-append s (drop (length s) xs), length-drop (length s) xs)

write_start :
    (blk : Block) (s : List ℕ)
    → length s ≤ length blk
    → write blk 0 s ≡ some (s ++ drop (length s) blk)
unfolding write
write_start blk s h = let e : 0 + length s ≡ length s = omega arith in rw e (ground arith)

drop-append_drop {ℓ} :
    {A : Type ℓ} (n : ℕ) (s xs : List A)
    → length s ≤ n
    → length s ≤ length xs
    → drop n (s ++ drop (length s) xs) ≡ drop n xs
drop-append_drop n [] xs h k = refl
drop-append_drop zero (x ∷ s) xs h k = absurd (omega arith)
drop-append_drop (suc n) (x ∷ s) [] h k = absurd (omega arith)
drop-append_drop (suc n) (x ∷ s) (y ∷ ys) h k = drop-append_drop n s ys (omega arith) (omega arith)

-- A text at the start of a block, and a buffer with that block.
abbrev pub over : List ℕ → Block → Block
over s blk = s ++ drop (length s) blk

abbrev pub filled : List ℕ → Block → Buf → Buf
filled s blk b = record b { buf = at (some (over s blk)) }

pub fill_buf_lem :
    (s : List ℕ) (b : Buf) (blk : Block)
    → IsValid 1 b blk
    → length s ≤ b.y_max
    → fill_buf s b ≡ some (filled s blk b)
unfolding fill_buf
fill_buf_lem s b blk v h =
    ground (arith, v.held, write_start blk s (omega (arith, v.whole, v.within)))

filled-IsValid :
    (s : List ℕ) (b : Buf) (blk : Block)
    → IsValid 1 b blk
    → length s ≤ b.y_max
    → IsValid 1 (filled s blk b) (over s blk)
filled-IsValid s b blk v h = record {
  held = refl;
  whole = length-drop_add s blk (omega (arith, v.whole, v.within)) ∙ v.whole;
  within = v.within;
  aligned = v.aligned;
  small = v.small;
  ended =
      ap (take 1)
        (drop-append_drop (b.y_max * 1) s blk (omega arith) (omega (arith, v.whole, v.within)))
      ∙ v.ended;
}

pub Holds-filled :
    (s : List ℕ) (b : Buf) (blk : Block) (n r : ℕ)
    → IsValid 1 b blk
    → b.y_max ≡ length s
    → n ≡ length s
    → Holds s (record (filled s blk b) { len = n; z_ref = r })
Holds-filled s b blk n r v top e =
    let w = filled-IsValid s b blk v (omega (arith, top)) in
    record {
      len = e;
      valid = record {
        held = refl;
        whole = w.whole;
        within = w.within;
        aligned = w.aligned;
        small = w.small;
        ended = w.ended;
      };
      top = top;
      text = take-append s (drop (length s) blk);
    }

-- What a heap is after its cell `p` has become `b`.
pub record Put (p : ℕ) (b : Buf) (h h' : Heap) : Type 0 where
  pub next : h'.next ≡ h.next
  pub at_cell : (q : ℕ) → h'.cell q ≡ (if p == q then some b else h.cell q)

put_text_lem :
    (a : Allocator) (p : ℕ) (s : List ℕ) (h : Heap) (b : Buf) (blk : Block)
    → h.cell p ≡ some b
    → IsValid 1 b blk
    → b.y_max ≡ length s
    → b.len ≡ 0
    → (h' : Heap) × (b' : Buf) × (put_text a p s h ≡ some (tt, h'))
      × Put p b' h h'
      × (b'.z_ref ≡ b.z_ref)
      × Holds s b'
unfolding put_text
put_text_lem a p [] h b blk e v top z = (
  h,
  b,
  refl,
  record { next = refl; at_cell = λ q. ground (arith, e) },
  refl,
  record { len = z; valid = rw (ap block v.held) v; top = top; text = refl },
)
put_text_lem a p (x ∷ s) h b blk e v top z =
    let le : length (x ∷ s) ≤ b.y_max = omega (arith, top) in
    let f = fill_buf_lem (x ∷ s) b blk v le in
    (
      record h {
        cell = update h.cell p (some (record (filled (x ∷ s) blk b) { len = length (x ∷ s) }));
      },
      record (filled (x ∷ s) blk b) { len = length (x ∷ s) },
      ground (arith, e, f),
      record { next = refl; at_cell = λ q. refl },
      refl,
      Holds-filled (x ∷ s) b blk (length (x ∷ s)) b.z_ref v top refl,
    )

-- What a heap is after `new` and the constructor of a string have made `b`.
pub record Made (h h' : Heap) (b : Buf) : Type 0 where
  pub next : h'.next ≡ h.next + 1
  pub at_cell : (q : ℕ) → h'.cell q ≡ (if h.next == q then some b else h.cell q)
  pub one : b.z_ref ≡ 1

module _ (a : Allocator) (std : IsStandard a) (mem : HasMemory a) where
  -- A heap with a new buffer `c` and one reference to it.
  abbrev with_new : Heap → Buf → Heap
  with_new h c = record {
    next = h.next + 1;
    cell = update (update h.cell h.next (some c)) h.next (some (add_ref c).0);
  }

  string_of_eq :
      (s : List ℕ) (h : Heap) (c : Buf)
      → init a 1 true (length s) ≡ some c
      → string_of a s h
        ≡ elim (put_text a h.next s (with_new h c)) [ none ↦ none | some (_, g) ↦ some (h.next, g) ]
  unfolding string_of
  string_of_eq s h c e = ground (arith, e)

  -- A constructor of a string from bytes makes a new buffer with one reference that holds them, and
  -- leaves all other buffers alone.
  pub string_of_lem :
      (s : List ℕ) (h : Heap)
      → length s + 4 < 2 ^ 63
      → (h' : Heap) × (b : Buf) × (string_of a s h ≡ some (h.next, h')) × Made h h' b × Holds s b
  unfolding add_ref
  string_of_lem s h lim =
      let (c, blk, e, top, v, k) = init_lem a std mem 1 (omega arith) (length s) (omega arith) in
      let (z, r) = init_len a (length s) c e in
      let (h', b, f, g, m, d) =
        put_text_lem a h.next s (with_new h c) (add_ref c).0 blk (ground arith)
          (record {
            held = v.held;
            whole = v.whole;
            within = v.within;
            aligned = v.aligned;
            small = v.small;
            ended = v.ended;
          })
          top z in
      (
        h',
        b,
        string_of_eq s h c e ∙ rw f refl,
        record {
          next = g.next;
          at_cell = λ q. ground (arith, g.at_cell q);
          one = ground (arith, m, r);
        },
        d,
      )
