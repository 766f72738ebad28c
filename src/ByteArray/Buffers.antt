-- ===== src/ByteArray/Buffers.antt =====
-- bytearray.cc's views of the chain for `readv` and `writev` (getReadBuffers, getWriteBuffers), and
-- its files.
pub mod Gather
pub mod Views
use xupeng.Prelude.{
  ℕ, zero, suc, ◌+◌, ◌-◌, ◌*◌, ◌/◌, ◌%◌, ◌≤◌, ◌<◌, ◌≡◌, refl, sym, ap, ◌∙◌, Option, none, some,
  List, [], ◌∷◌, ◌++◌, append-nil, get_elem?, append_assoc, length, take, drop, length-append,
  length-take, length-drop, leb, ltb, ◌==◌, if◌then◌else◌, le→leb, lt→leb, gt→==, eq→==, lt→ltb,
  le→ltb, All, All-drop, min, arith,
}
use xupeng.Prelude.Slices.{take-append_le, drop-append_le, take-append_add, take-all}
use xupeng.Prelude.Words.{word_sub, word_sub_le, offset-lt, block_offset}
use xupeng.Prelude.Outcome.{Outcome, ok, throws, faults, ◌>>=◌}
use xupeng.ByteArray.{Node, ByteArray, add_capacity, get_read_size, write}
use xupeng.ByteArray.Chain.{flat, Blocks, flat-drop, read_spills}
use xupeng.ByteArray.Invariant.{
  IsValid, contents, unread, length-nodes, cur-some, Grown, add_capacity-Grown,
}
use xupeng.ByteArray.Writing.{
  length-unread, room_at, Written, write-Writes, Writes, none-Written, Written-append,
}
use xupeng.ByteArray.Reading.{read_range}
use native.Mathlib.Decide.{dec_le, dec_lt}

-- An `iovec`: `len` bytes from `offset` on in the node `block` steps behind the first one.
pub record Iovec : Type 0 where
  pub block : ℕ
  pub offset : ℕ
  pub len : ℕ

-- `buffers.push_back(iov)` in front of what the later rounds push.
abbrev pub push_iov : Iovec → Option (List Iovec) → Option (List Iovec)
push_iov v none = none
push_iov v (some vs) = some (v ∷ vs)

-- The loop of the three functions, `block` steps behind the first node; `none` is a null
-- dereference.
pub iovecs : List Node → ℕ → ℕ → ℕ → Option (List Iovec)
iovecs [] block npos len = none
iovecs (node ∷ rest) block npos len =
    let ncap = word_sub (length node) npos in
    let more =
      push_iov (record { block = block; offset = npos; len = ncap })
        (iovecs rest (suc block) 0 (len - ncap)) in
    if len == 0
    then some []
    else if leb len ncap
    then some (record { block = block; offset = npos; len = len } ∷ [])
    else more

pub with_size : ℕ → Option (List Iovec) → Outcome (List Iovec × ℕ)
with_size n none = faults
with_size n (some vs) = ok (vs, n)

clamp : ByteArray → ℕ → ℕ
clamp b len = if ltb (get_read_size b) len then get_read_size b else len

-- `getReadBuffers(buffers, len)`.
pub get_read_buffers : ByteArray → ℕ → Outcome (List Iovec × ℕ)
unfolding clamp
get_read_buffers b len = if clamp b len == 0 then ok ([], 0) else elim b.cur [
  | none ↦ faults
  | some c ↦
      with_size (clamp b len) (iovecs (drop c b.nodes) c (b.position % b.base_size) (clamp b len))
]

-- `getReadBuffers(buffers, len, position)`: the node is that of `position`, the offset in it that of
-- `m_position`.
pub get_read_buffers_at : ByteArray → ℕ → ℕ → Outcome (List Iovec × ℕ)
unfolding clamp
get_read_buffers_at b len position =
    let c = position / b.base_size in
    if clamp b len == 0
    then ok ([], 0)
    else with_size (clamp b len)
        (iovecs (drop c b.nodes) c (b.position % b.base_size) (clamp b len))

pub get_write_buffers : ByteArray → ℕ → Outcome ((List Iovec × ℕ) × ByteArray)
get_write_buffers b len =
    let b' = add_capacity b len in
    if len == 0 then ok (([], 0), b) else elim b'.cur [
      | none ↦ faults
      | some c ↦ do
        r ← with_size len (iovecs (drop c b'.nodes) c (b'.position % b'.base_size) len)
        ok (r, b')
    ]

-- The rounds of `readFromFile` on a file that could be opened, as the chunks that `ifs.read` gives.
pub read_from_file : ByteArray → List (List ℕ) → Outcome ByteArray
read_from_file b [] = ok b
read_from_file b (chunk ∷ chunks) = do b' ← write b chunk; read_from_file b' chunks
