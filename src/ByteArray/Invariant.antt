-- ===== src/ByteArray/Invariant.antt =====
-- The well-formedness of a byte array, and the contents that it stands for.
use xupeng.Prelude.{
  ℕ, ◌+◌, ◌-◌, ◌*◌, ◌/◌, ◌≤◌, ◌<◌, ◌≡◌, refl, sym, ap, ◌∙◌, some, List, [], ◌∷◌, ◌++◌, append-nil,
  length, take, drop, replicate, length-append, length-replicate, All-append, All-replicate,
  All-take, gt→==, le→leb, lt→leb, lt→ltb, eq→==, arith,
}
use xupeng.Prelude.Words.{word_sub_le, block_of, block_offset, offset-lt}
use xupeng.ByteArray.{Node, ByteArray, pointer, new_node, init, clear, ceil_div, grow, add_capacity}
use xupeng.ByteArray.Chain.{flat, Blocks, length-flat, flat-append}
use native.Mathlib.Decide.{dec_le}

pub record IsValid (b : ByteArray) : Type 0 where
  pub base_pos : 0 < b.base_size
  pub blocks : Blocks b.base_size b.nodes
  pub root : 0 < length b.nodes
  pub capacity_eq : b.capacity ≡ length b.nodes * b.base_size
  pub position_le : b.position ≤ b.size
  pub size_le : b.size ≤ b.capacity
  pub cursor : b.cur ≡ pointer b.nodes (b.position / b.base_size)

-- The bytes written so far.
abbrev pub contents : ByteArray → List ℕ
contents b = take b.size (flat b.nodes)

-- The bytes from the cursor to the end.
abbrev pub unread : ByteArray → List ℕ
unread b = drop b.position (contents b)

pub length-nodes : (b : ByteArray) → IsValid b → length (flat b.nodes) ≡ b.capacity
length-nodes b v = length-flat b.base_size b.nodes v.blocks ∙ sym v.capacity_eq

pub init-IsValid : (junk n : ℕ) → 0 < n → IsValid (init junk n)
unfolding init
init-IsValid junk n h = record {
  base_pos = h;
  blocks = (length-replicate n junk, tt);
  root = omega arith;
  capacity_eq = omega arith;
  position_le = omega arith;
  size_le = omega arith;
  cursor = rw (block_of 0 0 0 n (omega arith) h);
}

one_node : (nodes : List Node) → 0 < length nodes → length (take 1 nodes) ≡ 1
one_node [] h = absurd (omega arith)
one_node (node ∷ rest) h = refl

pub clear-IsValid : (b : ByteArray) → IsValid b → IsValid (clear b)
unfolding clear
clear-IsValid b v =
    let one : length (take 1 b.nodes) ≡ 1 = one_node b.nodes v.root in
    record {
      base_pos = v.base_pos;
      blocks = All-take _ 1 b.nodes v.blocks;
      root = omega arith;
      capacity_eq = rw one (omega arith);
      position_le = omega arith;
      size_le = omega arith;
      cursor = rw (one, block_of 0 0 0 b.base_size (omega arith) v.base_pos);
    }

-- What `addCapacity` gives: room for `n` bytes at the cursor, on a node that exists, and the same
-- bytes in front.
pub record Grown (b : ByteArray) (n : ℕ) (b' : ByteArray) : Type 0 where
  pub valid : IsValid b'
  pub room : b'.position + n ≤ b'.capacity
  pub same_base : b'.base_size ≡ b.base_size
  pub same_position : b'.position ≡ b.position
  pub same_size : b'.size ≡ b.size
  pub same_endian : b'.endian ≡ b.endian
  pub tail : List ℕ
  pub bytes : flat b'.nodes ≡ flat b.nodes ++ tail
  pub on_node : b'.cur ≡ some (b'.position / b'.base_size)

-- A position below the capacity is on a node.
pub block-lt :
    (b : ByteArray) → IsValid b → (p : ℕ) → p < b.capacity → p / b.base_size < length b.nodes
block-lt b v p h = elim (dec_le (length b.nodes) (p / b.base_size)) [
  | yes over ↦ absurd (grind (arith, block_offset p b.base_size v.base_pos, v.capacity_eq))
  | no under ↦ omega arith
]

pub cur-some :
    (b : ByteArray) → IsValid b → b.position < b.capacity → b.cur ≡ some (b.position / b.base_size)
cur-some b v h = v.cursor ∙ rw (lt→ltb _ _ (block-lt b v b.position h))

kept-Grown : (b : ByteArray) (n : ℕ) → IsValid b → 0 < n → b.position + n ≤ b.capacity → Grown b n b
kept-Grown b n v pos room = record {
  valid = v;
  room = room;
  same_base = refl;
  same_position = refl;
  same_size = refl;
  same_endian = refl;
  tail = [];
  bytes = sym (append-nil _);
  on_node = cur-some b v (omega arith);
}

more_nodes :
    (b : ByteArray) (count : ℕ)
    → length (b.nodes ++ replicate count (new_node b.junk b.base_size)) ≡ length b.nodes + count
more_nodes b count =
    length-append b.nodes _ ∙ ap (λ (t : ℕ). length b.nodes + t) (length-replicate count _)

ceil_div-fits : (n m : ℕ) → 0 < m → n ≤ ceil_div n m * m
ceil_div-fits n m h = omega (arith, block_offset (n + m - 1) m h, offset-lt (n + m - 1) m h)

-- The cursor after growth, on the first fresh node if the old chain was used up.
grow-cur :
    (b : ByteArray) (count : ℕ)
    → IsValid b
    → 0 < count
    → (grow b (b.capacity - b.position) count).cur ≡ some (b.position / b.base_size)
unfolding grow
grow-cur b count v pos = elim (dec_le b.capacity b.position) [
  | yes full ↦ rw (
    eq→== (b.capacity - b.position) 0 (omega arith),
    more_nodes b count,
    lt→ltb (length b.nodes) (length b.nodes + count) (omega arith),
    block_of b.position (length b.nodes) 0 b.base_size
        (omega (arith, v.capacity_eq, v.position_le, v.size_le)) v.base_pos,
  )
  | no left ↦ rw (gt→== (b.capacity - b.position) 0 (omega arith)) (cur-some b v (omega arith))
]

block-le : (b : ByteArray) → IsValid b → b.position / b.base_size ≤ length b.nodes
block-le b v =
    grind (
      arith,
      block_offset b.position b.base_size v.base_pos,
      v.capacity_eq,
      v.position_le,
      v.size_le,
    )

grow-Grown :
    (b : ByteArray) (n : ℕ)
    → IsValid b
    → b.capacity < b.position + n
    → Grown b n
        (grow b (b.capacity - b.position) (ceil_div (n - (b.capacity - b.position)) b.base_size))
unfolding grow
grow-Grown b n v h = record {
  valid = record {
    base_pos = v.base_pos;
    blocks =
        All-append _ b.nodes _ v.blocks (
          All-replicate _ count (new_node b.junk b.base_size)
            (length-replicate b.base_size b.junk));
    root = omega (arith, more, v.root);
    capacity_eq = rw more (omega (arith, v.capacity_eq));
    position_le = v.position_le;
    size_le = omega (arith, v.size_le);
    cursor =
        on
        ∙ sym (
            rw (
              more,
              lt→ltb (b.position / b.base_size) (length b.nodes + count)
                  (omega (arith, block-le b v, some_more)),
            ));
  };
  room = omega (
    arith,
    ceil_div-fits (n - (b.capacity - b.position)) b.base_size v.base_pos,
    v.position_le,
    v.size_le,
  );
  same_base = refl;
  same_position = refl;
  same_size = refl;
  same_endian = refl;
  tail = flat (replicate count (new_node b.junk b.base_size));
  bytes = flat-append b.nodes _;
  on_node = on;
}
  where
    count : ℕ
    count = ceil_div (n - (b.capacity - b.position)) b.base_size

    more :
        length (b.nodes ++ replicate count (new_node b.junk b.base_size)) ≡ length b.nodes + count
    more = more_nodes b count

    some_more : 0 < count
    some_more = grind (
      arith,
      ceil_div-fits (n - (b.capacity - b.position)) b.base_size v.base_pos,
      v.position_le,
      v.size_le,
    )

    on : (grow b (b.capacity - b.position) count).cur ≡ some (b.position / b.base_size)
    on = grow-cur b count v some_more

-- On a valid byte array `addCapacity` of `n` > 0 bytes makes room for them at the cursor, on a node
-- that exists, adds blocks behind those there are, keeps the bytes, the cursor and the size, and
-- leaves the array valid.
pub add_capacity-Grown : (b : ByteArray) (n : ℕ) → IsValid b → 0 < n → Grown b n (add_capacity b n)
unfolding add_capacity
add_capacity-Grown b n v pos = elim (dec_le (b.position + n) b.capacity) [
  | yes fits ↦
      rw
        (
          gt→== n 0 pos,
          word_sub_le b.capacity b.position (omega (arith, v.position_le, v.size_le)),
          le→leb n (b.capacity - b.position) (omega arith),
        )
        (kept-Grown b n v pos fits)
  | no over ↦
      rw
        (
          gt→== n 0 pos,
          word_sub_le b.capacity b.position (omega (arith, v.position_le, v.size_le)),
          lt→leb n (b.capacity - b.position) (omega arith),
        )
        (grow-Grown b n v (omega arith))
]
