-- ===== src/Struct/String.antt =====
-- struct/string.hh: `String`, a pointer to a counted `Buffer`. The buffers that `new` has made are
-- cells of a heap, and an operation is `none` where the code would use a buffer after its `delete`,
-- or write or read out of a block.
pub mod Count
pub mod Editing
pub mod Parts
pub mod Programs
pub mod Text
pub mod Digits
mod Tests
use prot.Prelude.{
  ℕ, zero, suc, ◌+◌, ◌-◌, ◌%◌, ◌^◌, Bool, true, false, ◌&&◌, ltb, leb, ◌==◌, if◌then◌else◌, Option,
  none, some, List, [], ◌∷◌, map, length, get_elem?, set, take, drop, replicate,
}
use prot.Base.Allocate.{Allocator, Block, write}
use prot.Struct.Buffer.{Ptr, unset, at, Buf, init, destroy, add_ref}

-- `next` is the address of the next `new`; a cell is empty before its `new` and after its `delete`.
pub record Heap : Type 0 where
  pub next : ℕ
  pub cell : ℕ → Option Buf

abbrev pub update : (ℕ → Option Buf) → ℕ → Option Buf → ℕ → Option Buf
update f p v q = if p == q then v else f q

-- Code that uses the heap: its value and the heap behind it, or none at a fault.
abbrev pub Act : Type 0 → Type 0
Act T = Heap → Option (T × Heap)

abbrev pub give : {T : Type 0} → T → Act T
give x heap = some (x, heap)

infixl 5 ◌>>=◌ ◌>>◌
abbrev pub ◌>>=◌ : {S T : Type 0} → Act S → (S → Act T) → Act T
◌>>=◌ first rest heap = elim (first heap) [ some (x, heap') ↦ rest x heap' | none ↦ none ]

abbrev pub ◌>>◌ : {T : Type 0} → Act (Unit {0}) → Act T → Act T
first >> rest = first >>= λ _. rest

abbrev pub load : ℕ → Act Buf
load p h = elim (h.cell p) [ none ↦ none | some b ↦ some (b, h) ]

abbrev pub store : ℕ → Buf → Act (Unit {0})
store p b h = elim (h.cell p) [
  | none ↦ none
  | some _ ↦ some (tt, record h { cell = update h.cell p (some b) })
]

-- `_pb->AddRef()`
unfoldable pub add_ref_at : ℕ → Act (Unit {0})
unfolding add_ref
add_ref_at p = do b ← load p; store p (add_ref b).0

-- `if (!_pb->DecRef()) delete _pb`; the count that `--` leaves wraps as a `Size`.
unfoldable pub dec_ref : Buf → Buf
dec_ref b = record b { z_ref = (b.z_ref + 2 ^ 64 - 1) % 2 ^ 64 }

unfoldable pub delete_at : ℕ → Act (Unit {0})
delete_at p h = elim (h.cell p) [
  | none ↦ none
  | some _ ↦ some (tt, record h { cell = update h.cell p none })
]

unfoldable pub release : ℕ → Act (Unit {0})
unfolding dec_ref delete_at
release p = do b ← load p; (if (dec_ref b).z_ref == 0 then delete_at p else store p (dec_ref b))

-- The bytes of a buffer, and a copy of bytes to its start.
abbrev pub block : Ptr → Block
block unset = []
block (at none) = []
block (at (some blk)) = blk

unfoldable pub fill_buf : List ℕ → Buf → Option Buf
fill_buf vs b = elim (write (block b.buf) 0 vs) [
  | none ↦ none
  | some blk ↦ some (record b { buf = at (some blk) })
]

-- The buffer at `p` filled with `vs`, and its length stored.
unfoldable pub store_filled : ℕ → List ℕ → Buf → (len : ℕ) → Act (Unit {0})
unfolding fill_buf
store_filled p vs b n h = elim (fill_buf vs b) [
  | none ↦ none
  | some c ↦ store p (record c { len = n }) h
]

-- A character of `Upper`'s loop.
unfoldable pub upper_byte : ℕ → ℕ
upper_byte c = if leb b'a' c && leb c b'z' then c - b' ' else c

-- `Upper` once it has chosen the buffer `q` for the result, which may be the string's own: the loop
-- reads each byte before it writes the byte at the same index.
unfoldable pub upper_into : (q p : ℕ) → Buf → Act ℕ
unfolding store_filled release add_ref_at
upper_into q p b = do
  c ← load q
  store_filled q (map upper_byte (take b.len (block b.buf))) c b.len
  release p
  add_ref_at q
  give q

module _ (a : Allocator) where
  -- `new Buffer(n)`
  unfoldable pub new_buffer : ℕ → Act ℕ
  new_buffer n h = elim (init a 1 true n) [
    | none ↦ none
    | some b ↦ some (h.next, record { next = h.next + 1; cell = update h.cell h.next (some b) })
  ]

  -- The buffer that a constructor has filled with `vs`.
  unfoldable pub put_text : ℕ → List ℕ → Act (Unit {0})
  unfolding store_filled
  put_text p [] = give tt
  put_text p (v ∷ vs) = do b ← load p; store_filled p (v ∷ vs) b (length (v ∷ vs))

  -- `String()`, `String(const Byte*, Size)` and `String(Char, Size)`
  unfoldable pub string_empty : Act ℕ
  unfolding new_buffer add_ref_at
  string_empty = do p ← new_buffer 0; add_ref_at p; give p

  unfoldable pub string_of : List ℕ → Act ℕ
  unfolding new_buffer add_ref_at put_text
  string_of s = do p ← new_buffer (length s); add_ref_at p; put_text p s; give p

  unfoldable pub string_fill : ℕ → ℕ → Act ℕ
  unfolding string_of
  string_fill c l = string_of (replicate l c)

  -- The copy that `SubStr` makes: the length of the new string is not set.
  unfoldable pub sub_copy : List ℕ → Act ℕ
  unfolding new_buffer add_ref_at store_filled
  sub_copy s = do
    q ← new_buffer (length s)
    add_ref_at q
    c ← load q
    store_filled q s c c.len
    give q

  -- `SubStr`: the result is one more handle of this string, or a string of its own.
  unfoldable pub sub_str : (start cnt : ℕ) → ℕ → Act ℕ
  unfolding sub_copy add_ref_at
  sub_str start cnt p = do
    b ← load p
    (if start == 0 && cnt == b.len
        then (do add_ref_at p; give p)
        else if ltb (length (block b.buf)) (start + cnt)
        then (λ h. none)
        else sub_copy (take cnt (drop start (block b.buf))))

  -- `Upper`: the pointer that the string has afterwards.
  unfoldable pub upper : ℕ → Act ℕ
  unfolding new_buffer
  upper p = do
    b ← load p
    q ← (if ltb b.z_ref 2 then give p else new_buffer b.len)
    upper_into q p b

-- The string objects of a program, as the pointers they hold, and the calls that it makes on them;
-- a string is named by its place.
pub record World : Type 0 where
  pub strings : List ℕ
  pub heap : Heap

pub data Call : Type 0 where
  make : List ℕ → Call
  copy destruct : ℕ → Call
  assign : (dest other : ℕ) → Call

abbrev pub remove : ℕ → List ℕ → List ℕ
remove i [] = []
remove zero (x ∷ xs) = xs
remove (suc i) (x ∷ xs) = x ∷ remove i xs

-- `operator=` for the pointers of the two strings: the new pointer of the first.
unfoldable pub assign_at : (p other : ℕ) → Act ℕ
unfolding release add_ref_at
assign_at p other = if p == other then give p else (do release p; add_ref_at other; give other)

abbrev pub with_heap : List ℕ → Option (Unit {0} × Heap) → Option World
with_heap hs none = none
with_heap hs (some (_, h)) = some (record { strings = hs; heap = h })

module _ (a : Allocator) where
  -- One call; a place that is not there is no call.
  unfoldable pub exec : Call → World → Option World
  unfolding assign_at
  exec (make s) w = elim (string_of a s w.heap) [
    | none ↦ none
    | some (p, h) ↦ some (record { strings = p ∷ w.strings; heap = h })
  ]
  exec (copy i) w = elim (get_elem? w.strings i) [
    | none ↦ some w
    | some p ↦ with_heap (p ∷ w.strings) (add_ref_at p w.heap)
  ]
  exec (destruct i) w = elim (get_elem? w.strings i) [
    | none ↦ some w
    | some p ↦ with_heap (remove i w.strings) (release p w.heap)
  ]
  exec (assign i j) w = elim (get_elem? w.strings i) [
    | none ↦ some w
    | some p ↦ elim (get_elem? w.strings j) [
      | none ↦ some w
      | some q ↦
          with_heap (set w.strings i q)
            (elim (assign_at p q w.heap) [ none ↦ none | some (_, h) ↦ some (tt, h) ])
    ]
  ]

  unfoldable pub exec_all : List Call → World → Option World
  exec_all [] w = some w
  exec_all (c ∷ cs) w = elim (exec c w) [ none ↦ none | some v ↦ exec_all cs v ]
