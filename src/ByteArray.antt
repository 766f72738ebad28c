-- ===== src/ByteArray.antt =====
-- xupeng/bytearray.h and bytearray.cc: the chunked byte buffer, its cursor and its growth.
-- A node of the linked list is the list of its bytes, so `size` is its length; a node pointer is
-- the node's index from `m_root`, and `none` is the null pointer. Fresh memory (`new char[s]`) is
-- filled with the byte `junk`, of which nothing is assumed. Sizes stay below 2 ^ 53, so the
-- `double` in `addCapacity` is exact.
pub mod Chain
pub mod Invariant
pub mod Writing
pub mod Reading
pub mod RoundTrip
pub mod Fixed
pub mod Serving
pub mod Varint
pub mod Strings
pub mod Buffers
mod Examples
use xupeng.Prelude.{
  ℕ, suc, ◌+◌, ◌-◌, ◌*◌, ◌/◌, ◌%◌, Option, none, some, List, [], ◌∷◌, ◌++◌, length, take, drop,
  replicate, ltb, leb, ◌==◌, if◌then◌else◌,
}
use xupeng.Prelude.Words.{word_sub}
use xupeng.Prelude.Outcome.{Outcome, ok, throws, faults}

abbrev pub Node : Type 0
Node = List ℕ

pub data Endian : Type 0 where
  little big : Endian

pub record ByteArray : Type 0 where
  pub base_size : ℕ
  pub position : ℕ
  pub capacity : ℕ
  pub size : ℕ
  pub endian : Endian
  pub nodes : List Node
  pub cur : Option ℕ
  pub junk : ℕ

-- The pointer to the node of an index; past the last node it is null.
abbrev pub pointer : List Node → ℕ → Option ℕ
pointer nodes i = if ltb i (length nodes) then some i else none

-- `Node(size_t s)`.
abbrev pub new_node : ℕ → ℕ → Node
new_node junk s = replicate s junk

pub init : ℕ → ℕ → ByteArray
init junk base_size = record {
  base_size = base_size;
  position = 0;
  capacity = base_size;
  size = 0;
  endian = big;
  nodes = new_node junk base_size ∷ [];
  cur = some 0;
  junk = junk;
}

abbrev pub get_read_size : ByteArray → ℕ
get_read_size b = word_sub b.size b.position

abbrev pub get_capacity : ByteArray → ℕ
get_capacity b = word_sub b.capacity b.position

pub clear : ByteArray → ByteArray
clear b = record b {
  position = 0;
  size = 0;
  capacity = b.base_size;
  nodes = take 1 b.nodes;
  cur = some 0;
}

-- `ceil(1.0 * size / m_baseSize)`.
abbrev pub ceil_div : ℕ → ℕ → ℕ
ceil_div n m = (n + m - 1) / m

-- The loop that hangs `count` nodes on the last one.
grow : ByteArray → ℕ → ℕ → ByteArray
grow b old_cap count = record b {
  nodes = nodes;
  capacity = b.capacity + count * b.base_size;
  cur = if old_cap == 0 then pointer nodes (length b.nodes) else b.cur;
}
  where
    nodes : List Node
    nodes = b.nodes ++ replicate count (new_node b.junk b.base_size)

pub add_capacity : ByteArray → ℕ → ByteArray
unfolding grow
add_capacity b n =
    if n == 0
    then b
    else if leb n (get_capacity b)
    then b
    else grow b (get_capacity b) (ceil_div (n - get_capacity b) b.base_size)

-- `memcpy(node->ptr + npos, bytes, size)`.
abbrev pub blit : Node → ℕ → List ℕ → Node
blit node npos bytes = take npos node ++ (bytes ++ drop (npos + length bytes) node)

-- What the loops do with a round that ends in `m_cur = m_cur->next`.
abbrev pub advance {ℓ} : {A : Type ℓ} → (A → A) → Option (A × ℕ) → Option (A × ℕ)
advance f none = none
advance f (some (a, k)) = some (f a, suc k)

abbrev pub next_block : Option ℕ → Option ℕ
next_block none = none
next_block (some k) = some (suc k)

-- The loop of `write` from the node `m_cur` on, with the count of steps to `next`; `none` is a
-- null dereference.
pub write_loop : List Node → ℕ → List ℕ → Option (List Node × ℕ)
write_loop [] npos buf = none
write_loop (node ∷ rest) npos buf =
    let ncap = word_sub (length node) npos in
    let more =
      advance (λ nodes. blit node npos (take ncap buf) ∷ nodes)
        (write_loop rest 0 (drop ncap buf)) in
    if leb (length buf) ncap
    then some (blit node npos buf ∷ rest, if length node == npos + length buf then 1 else 0)
    else more

stored : ByteArray → ℕ → List ℕ → Option (List Node × ℕ) → Outcome ByteArray
stored b c buf none = faults
stored b c buf (some (suffix, k)) = ok (record b {
  nodes = take c b.nodes ++ suffix;
  cur = pointer b.nodes (c + k);
  position = b.position + length buf;
  size = if ltb b.size (b.position + length buf) then b.position + length buf else b.size;
})

pub store : ByteArray → List ℕ → Outcome ByteArray
unfolding stored write_loop
store b buf = elim b.cur [
  | none ↦ faults
  | some c ↦ stored b c buf (write_loop (drop c b.nodes) (b.position % b.base_size) buf)
]

pub write : ByteArray → List ℕ → Outcome ByteArray
write b buf = if length buf == 0 then ok b else store (add_capacity b (length buf)) buf

-- The loop of both `read`s: the bytes taken and the count of steps to `next`.
pub read_loop : List Node → ℕ → ℕ → Option (List ℕ × ℕ)
read_loop [] npos n = none
read_loop (node ∷ rest) npos n =
    let ncap = word_sub (length node) npos in
    let more =
      advance (λ bytes. take ncap (drop npos node) ++ bytes) (read_loop rest 0 (n - ncap)) in
    if n == 0
    then some ([], 0)
    else if leb n ncap
    then some (take n (drop npos node), if length node == npos + n then 1 else 0)
    else more

taken : ByteArray → ℕ → ℕ → Option (List ℕ × ℕ) → Outcome (List ℕ × ByteArray)
taken b c n none = faults
taken b c n (some (bytes, k)) =
    ok (bytes, record b { cur = pointer b.nodes (c + k); position = b.position + n })

pub read : ByteArray → ℕ → Outcome (List ℕ × ByteArray)
unfolding taken read_loop
read b n = if ltb (get_read_size b) n then throws else elim b.cur [
  | none ↦ faults
  | some c ↦ taken b c n (read_loop (drop c b.nodes) (b.position % b.base_size) n)
]

bytes_of : Option (List ℕ × ℕ) → Outcome (List ℕ)
bytes_of none = faults
bytes_of (some (bytes, k)) = ok bytes

-- `read(buf, size, position) const`: it starts at the node of `m_position`.
pub read_at : ByteArray → ℕ → ℕ → Outcome (List ℕ)
unfolding bytes_of read_loop
read_at b n position = if ltb (word_sub b.size position) n then throws else elim b.cur [
  | none ↦ faults
  | some c ↦ bytes_of (read_loop (drop c b.nodes) (position % b.base_size) n)
]

-- The walk of `setPosition` from `m_root`.
pub seek : List Node → ℕ → Option ℕ
seek [] v = none
seek (node ∷ rest) v =
    let more = next_block (seek rest (v - length node)) in
    if ltb (length node) v then more else some (if v == length node then 1 else 0)

moved : ByteArray → ℕ → Option ℕ → Outcome ByteArray
moved b v none = faults
moved b v (some k) =
    ok (record b {
      position = v;
      size = if ltb b.size v then v else b.size;
      cur = pointer b.nodes k;
    })

pub set_position : ByteArray → ℕ → Outcome ByteArray
unfolding moved seek
set_position b v = if ltb b.capacity v then throws else moved b v (seek b.nodes v)

pub to_string : ByteArray → Outcome (List ℕ)
to_string b = if get_read_size b == 0 then ok [] else read_at b (get_read_size b) b.position
