-- ===== src/ByteArray/Buffers/Views.antt =====
-- What the views describe, and files.
use xupeng.Prelude.{
  ℕ, zero, suc, ◌+◌, ◌-◌, ◌*◌, ◌/◌, ◌%◌, ◌≤◌, ◌<◌, ◌≡◌, refl, sym, ap, ◌∙◌, some, List, [], ◌∷◌,
  ◌++◌, length, take, drop, length-take, length-drop, gt→==, All-drop, min, arith,
}
use xupeng.Prelude.Slices.{take-append-drop, drop-drop, drop-take, take-take, take-all}
use xupeng.Prelude.Words.{word_sub_le, offset-lt, block_offset}
use xupeng.Prelude.Outcome.{ok}
use xupeng.ByteArray.{Node, ByteArray, add_capacity}
use xupeng.ByteArray.Chain.{flat, flat-drop}
use xupeng.ByteArray.Invariant.{IsValid, unread, length-nodes, cur-some, Grown, add_capacity-Grown}
use xupeng.ByteArray.Writing.{length-unread, Written, write-Writes, none-Written, Written-append}
use native.Mathlib.Decide.{dec_le, dec_lt}
use xupeng.ByteArray.Buffers.{
  Iovec, iovecs, with_size, get_read_buffers, get_read_buffers_at, get_write_buffers, clamp,
  read_from_file,
}
use xupeng.ByteArray.Buffers.Gather.{gather, Gathers, iovecs-Gathers}

abbrev pub concat : List (List ℕ) → List ℕ
concat [] = []
concat (xs ∷ xss) = xs ++ concat xss

clamp-min : (b : ByteArray) (len : ℕ) → IsValid b → clamp b len ≡ min len (b.size - b.position)
unfolding clamp
clamp-min b len v = rw (word_sub_le b.size b.position v.position_le) (ground arith)

mul-lt : (c n m : ℕ) → c * m < n * m → c < n
mul-lt c n m h = elim (dec_lt c n) [ yes lt ↦ lt | no ge ↦ absurd (grind arith) ]

at_block :
    {all : List Node} {c : ℕ} (pre suf : List Node) (r len : ℕ)
    → pre ++ suf ≡ all
    → length pre ≡ c
    → Gathers (pre ++ suf) suf (length pre) r len
    → Gathers all suf c r len
at_block pre suf r len e e' g = rw (e, e') at g

-- The view of a range of the flat array, from block `c` and offset `r` on.
view :
    (b : ByteArray) (c r len : ℕ)
    → IsValid b
    → r < b.base_size
    → 0 < len
    → c * b.base_size + r + len ≤ b.capacity
    → (vs : List Iovec) × (iovecs (drop c b.nodes) c r len ≡ some vs)
      × (gather b.nodes vs ≡ take len (drop (c * b.base_size + r) (flat b.nodes)))
view b c r len v lt some_len fit =
    let in_chain : c < length b.nodes =
      mul-lt c (length b.nodes) b.base_size (omega (arith, v.capacity_eq)) in
    let on : length (take c b.nodes) ≡ c = omega (arith, length-take c b.nodes) in
    let chain = flat-drop b.base_size c (c * b.base_size) b.nodes v.blocks refl in
    let (vs, runs, bytes) =
      at_block (take c b.nodes) (drop c b.nodes) r len (take-append-drop c b.nodes) on (
        iovecs-Gathers b.base_size r len (take c b.nodes) (drop c b.nodes)
          (All-drop _ c b.nodes v.blocks) lt some_len
          (rw chain
            (omega (arith, length-drop (c * b.base_size) (flat b.nodes), length-nodes b v)))) in
    (
      vs,
      runs,
      bytes ∙ rw (chain, drop-drop r (c * b.base_size) (c * b.base_size + r) (flat b.nodes) refl),
    )

-- The view of a range from a position on.
position_view :
    (b : ByteArray) (p len : ℕ)
    → IsValid b
    → 0 < len
    → p + len ≤ b.capacity
    → (vs : List Iovec) × (iovecs
          (drop (p / b.base_size) b.nodes)
          (p / b.base_size)
          (p % b.base_size)
          len
        ≡ some vs)
      × (gather b.nodes vs ≡ take len (drop p (flat b.nodes)))
position_view b p len v some_len fit =
    let place = block_offset p b.base_size v.base_pos in
    let (vs, runs, bytes) =
      view b (p / b.base_size) (p % b.base_size) len v (offset-lt p b.base_size v.base_pos) some_len
        (omega (arith, place)) in
    (vs, runs, bytes ∙ ap (λ (q : ℕ). take len (drop q (flat b.nodes))) (sym place))

read_runs :
    (b : ByteArray) (len n c : ℕ) (vs : List Iovec)
    → clamp b len ≡ n
    → 0 < n
    → b.cur ≡ some c
    → iovecs (drop c b.nodes) c (b.position % b.base_size) n ≡ some vs
    → get_read_buffers b len ≡ ok (vs, n)
unfolding get_read_buffers with_size
read_runs b len n c vs e some_len on runs = simp (e, gt→== n 0 some_len, on, runs)

write_runs :
    (b b' : ByteArray) (len c : ℕ) (vs : List Iovec)
    → add_capacity b len ≡ b'
    → 0 < len
    → b'.cur ≡ some c
    → iovecs (drop c b'.nodes) c (b'.position % b'.base_size) len ≡ some vs
    → get_write_buffers b len ≡ ok ((vs, len), b')
unfolding get_write_buffers with_size
write_runs b b' len c vs e some_len on runs = simp (e, gt→== len 0 some_len, on, runs)

clamped :
    (b : ByteArray) (len n : ℕ)
    → IsValid b
    → clamp b len ≡ n
    → n ≤ b.size - b.position
    → (vs : List Iovec) × (get_read_buffers b len ≡ ok (vs, n))
      × (gather b.nodes vs ≡ take n (unread b))
unfolding get_read_buffers with_size
clamped b len zero v e fits = ([], rw e, refl)
clamped b len (suc n) v e fits =
    let (vs, runs, bytes) =
      position_view b b.position (suc n) v (omega arith) (omega (arith, v.size_le)) in
    (
      vs,
      read_runs b len (suc n) (b.position / b.base_size) vs e (omega arith)
          (cur-some b v (omega (arith, v.size_le))) runs,
      bytes
          ∙ rw (drop-take b.position b.size (flat b.nodes))
              (sym (take-take (suc n) (b.size - b.position) (drop b.position (flat b.nodes)) fits)),
    )

take-min : (n m : ℕ) (xs : List ℕ) → length xs ≡ m → take (min n m) xs ≡ take n xs
take-min n m xs e = elim (dec_le n m) [
  | yes h ↦ let e' : min n m ≡ n = omega arith in rw e'
  | no h ↦
      let e' : min n m ≡ m = omega arith in
      rw (e', take-all m xs (omega arith), take-all n xs (omega arith))
]

-- On a valid byte array `getReadBuffers` describes, in order, the next `len` bytes, or all that are left if there are
-- fewer, and returns their count.
pub get_read_buffers-unread :
    (b : ByteArray) (len : ℕ)
    → IsValid b
    → (vs : List Iovec) × (get_read_buffers b len ≡ ok (vs, min len (b.size - b.position)))
      × (gather b.nodes vs ≡ take len (unread b))
get_read_buffers-unread b len v =
    let (vs, runs, bytes) =
      clamped b len (min len (b.size - b.position)) v (clamp-min b len v) (omega arith) in
    (vs, runs, bytes ∙ take-min len (b.size - b.position) (unread b) (length-unread b v))

mixed :
    (b : ByteArray) (len position : ℕ)
    → IsValid b
    → 0 < len
    → clamp b len ≡ len
    → position / b.base_size * b.base_size + b.position % b.base_size + len ≤ b.capacity
    → (vs : List Iovec) × (get_read_buffers_at b len position ≡ ok (vs, len))
      × (gather b.nodes vs
          ≡ take len (
              drop
                (position / b.base_size * b.base_size + b.position % b.base_size)
                (flat b.nodes)))
unfolding get_read_buffers_at with_size
mixed b len position v some_len e room =
    let (vs, runs, bytes) =
      view b (position / b.base_size) (b.position % b.base_size) len v
        (offset-lt b.position b.base_size v.base_pos) some_len room in
    (vs, rw (e, gt→== len 0 some_len, runs), bytes)

-- On a valid byte array `getReadBuffers` with a position, for a length that is left and that ends
-- within the capacity, takes the node from the position and the offset in it from `m_position`: what
-- it describes begins at the block of the one and the offset of the other.
pub get_read_buffers_at-mixed :
    (b : ByteArray) (len position : ℕ)
    → IsValid b
    → 0 < len
    → len ≤ b.size - b.position
    → position / b.base_size * b.base_size + b.position % b.base_size + len ≤ b.capacity
    → (vs : List Iovec) × (get_read_buffers_at b len position ≡ ok (vs, len))
      × (gather b.nodes vs
          ≡ take len (
              drop
                (position / b.base_size * b.base_size + b.position % b.base_size)
                (flat b.nodes)))
get_read_buffers_at-mixed b len position v some_len fits room =
    mixed b len position v some_len (clamp-min b len v ∙ whole len (b.size - b.position) fits) room
  where
    whole : (n m : ℕ) → n ≤ m → min n m ≡ n
    whole n m h = omega arith

abbrev Room : ByteArray → ℕ → Type 0
Room b len =
    (vs : List Iovec) × (b' : ByteArray) × (get_write_buffers b len ≡ ok ((vs, len), b'))
    × IsValid b'
    × (b'.position ≡ b.position)
    × (b'.size ≡ b.size)
    × (gather b'.nodes vs ≡ take len (drop b.position (flat b'.nodes)))
    × (length (gather b'.nodes vs) ≡ len)

Grown-Room :
    (b b' : ByteArray) (len : ℕ) → 0 < len → add_capacity b len ≡ b' → Grown b len b' → Room b len
unfolding get_write_buffers with_size
Grown-Room b b' len some_len e g =
    let (vs, runs, bytes) = position_view b' b'.position len g.valid some_len g.room in
    (
      vs,
      b',
      write_runs b b' len (b'.position / b'.base_size) vs e some_len g.on_node runs,
      g.valid,
      g.same_position,
      g.same_size,
      bytes ∙ rw g.same_position,
      rw bytes (
          omega (
            arith,
            length-take len (drop b'.position (flat b'.nodes)),
            length-drop b'.position (flat b'.nodes),
            length-nodes b' g.valid,
            g.room,
          )),
    )

-- On a valid byte array `getWriteBuffers` describes, in order, the `len` > 0 bytes from the cursor on, after making room for
-- them; the array stays valid, with the same cursor and size.
pub get_write_buffers-room :
    (b : ByteArray) (len : ℕ)
    → IsValid b
    → 0 < len
    → (vs : List Iovec) × (b' : ByteArray) × (get_write_buffers b len ≡ ok ((vs, len), b'))
      × IsValid b'
      × (b'.position ≡ b.position)
      × (b'.size ≡ b.size)
      × (gather b'.nodes vs ≡ take len (drop b.position (flat b'.nodes)))
      × (length (gather b'.nodes vs) ≡ len)
get_write_buffers-room b len v some_len =
    Grown-Room b (add_capacity b len) len some_len refl (add_capacity-Grown b len v some_len)

-- On a valid byte array `readFromFile` succeeds and puts the file's bytes at the cursor, in however
-- many pieces they come; the cursor stands behind them, the size is the larger of the old size and
-- the cursor, and the array is valid.
pub read_from_file-Written :
    (b : ByteArray) (chunks : List (List ℕ))
    → IsValid b
    → (b' : ByteArray) × (read_from_file b chunks ≡ ok b') × Written b (concat chunks) b'
unfolding read_from_file
read_from_file-Written b [] v = (b, refl, none-Written b v)
read_from_file-Written b (chunk ∷ chunks) v =
    let w = write-Writes b chunk v in
    let (b', runs, w') = read_from_file-Written w.result chunks w.written.valid in
    (b', rw (w.runs, runs), Written-append b chunk (concat chunks) w.result b' v w.written w')
