-- ===== src/ByteArray/Reading.antt =====
-- `read`, `setPosition` and `toString` against a flat array of bytes with a cursor.
use xupeng.Prelude.{
  ℕ, ◌+◌, ◌-◌, ◌*◌, ◌/◌, ◌%◌, ◌≤◌, ◌<◌, ◌≡◌, refl, sym, length, take, drop, length-drop, All-drop,
  ltb, if◌then◌else◌, lt→ltb, le→ltb, arith,
}
use xupeng.Prelude.Slices.{drop-drop, take-take, drop-take}
use xupeng.Prelude.Words.{word_sub_le, block_of, block_offset, offset-lt}
use xupeng.Prelude.Outcome.{ok, throws, faults}
use xupeng.ByteArray.{ByteArray, pointer, taken, read, moved, set_position}
use xupeng.ByteArray.Chain.{flat, flat-drop, Took, read_loop-Took, seek-eq}
use xupeng.ByteArray.Invariant.{IsValid, contents, unread, length-nodes, block-lt, cur-some}

-- What is left to read after `n` bytes.
pub record Reads (b : ByteArray) (n : ℕ) : Type 0 where
  pub result : ByteArray
  pub runs : read b n ≡ ok (take n (unread b), result)
  pub valid : IsValid result
  pub rest : unread result ≡ drop n (unread b)
  pub position_eq : result.position ≡ b.position + n
  pub same_contents : contents result ≡ contents b
  pub same_capacity : result.capacity ≡ b.capacity
  pub same_base : result.base_size ≡ b.base_size
  pub same_endian : result.endian ≡ b.endian

-- The range of the chain that a read copies is a range of the contents.
pub read_range :
    (b : ByteArray) (p n : ℕ)
    → IsValid b
    → p + n ≤ b.size
    → take n (drop (p % b.base_size) (flat (drop (p / b.base_size) b.nodes)))
      ≡ take n (drop p (contents b))
read_range b p n v fit =
    let k = p / b.base_size * b.base_size in
    rw (
      flat-drop b.base_size (p / b.base_size) k b.nodes v.blocks refl,
      drop-drop (p % b.base_size) k p (flat b.nodes) (block_offset p b.base_size v.base_pos),
      drop-take p b.size (flat b.nodes),
      take-take n (b.size - p) (drop p (flat b.nodes)) (omega arith),
    )

pub read_fits :
    (b : ByteArray) (n p : ℕ)
    → IsValid b
    → p + n ≤ b.size
    → p < b.capacity
    → Took b.base_size (p % b.base_size) n (drop (p / b.base_size) b.nodes)
read_fits b n p v fit on =
    let k = p / b.base_size * b.base_size in
    read_loop-Took b.base_size (p % b.base_size) n _ (All-drop _ (p / b.base_size) b.nodes v.blocks)
      (offset-lt p b.base_size v.base_pos)
      (rw (flat-drop b.base_size (p / b.base_size) k b.nodes v.blocks refl) (
        omega (
          arith,
          length-drop k (flat b.nodes),
          length-nodes b v,
          block_offset p b.base_size v.base_pos,
          v.size_le,
        )))
      (omega (arith, length-drop (p / b.base_size) b.nodes, block-lt b v p on))

-- A read on a cursor that is on a node.
pub read-Reads :
    (b : ByteArray) (n : ℕ)
    → IsValid b
    → b.position + n ≤ b.size
    → b.position < b.capacity
    → Reads b n
unfolding read taken
read-Reads b n v fit on =
    let t = read_fits b n b.position v fit on in
    record {
      result = record b {
        cur = pointer b.nodes (b.position / b.base_size + t.k);
        position = b.position + n;
      };
      runs =
          rw
            (
              word_sub_le b.size b.position v.position_le,
              le→ltb (b.size - b.position) n (omega arith),
              cur-some b v on,
            )
            (rw (t.runs, read_range b b.position n v fit));
      valid = record {
        base_pos = v.base_pos;
        blocks = v.blocks;
        root = v.root;
        capacity_eq = v.capacity_eq;
        position_le = fit;
        size_le = v.size_le;
        cursor = rw (
            block_of (b.position + n) (b.position / b.base_size + t.k) t.r b.base_size
              (omega (arith, block_offset b.position b.base_size v.base_pos, t.steps)) t.offset);
      };
      rest = sym (drop-drop n b.position (b.position + n) (contents b) refl);
      position_eq = refl;
      same_contents = refl;
      same_capacity = refl;
      same_base = refl;
      same_endian = refl;
    }

pub read-throws : (b : ByteArray) (n : ℕ) → IsValid b → b.size < b.position + n → read b n ≡ throws
unfolding read
read-throws b n v h = rw (
  word_sub_le b.size b.position v.position_le,
  lt→ltb (b.size - b.position) n (omega (arith, v.position_le)),
)

-- At the very end of the capacity there is no node, and a read of nothing looks at it.
pub read_zero-faults : (b : ByteArray) → IsValid b → b.position ≡ b.capacity → read b 0 ≡ faults
unfolding read
read_zero-faults b v h = rw (
  word_sub_le b.size b.position v.position_le,
  le→ltb (b.size - b.position) 0 (omega arith),
  v.cursor,
  block_of b.position (length b.nodes) 0 b.base_size (omega (arith, v.capacity_eq)) v.base_pos,
  le→ltb (length b.nodes) (length b.nodes) (omega arith),
)

-- `setPosition` within the capacity.
pub set_position-eq :
    (b : ByteArray) (p : ℕ)
    → IsValid b
    → p ≤ b.capacity
    → set_position b p
      ≡ ok (record b {
        position = p;
        size = if ltb b.size p then p else b.size;
        cur = pointer b.nodes (p / b.base_size);
      })
unfolding set_position moved
set_position-eq b p v h = rw (
  le→ltb b.capacity p h,
  seek-eq b.base_size p (p / b.base_size) (p % b.base_size) b.nodes v.blocks v.base_pos v.root
      (block_offset p b.base_size v.base_pos) (offset-lt p b.base_size v.base_pos)
      (omega (arith, v.capacity_eq)),
)

pub moved-IsValid :
    (b : ByteArray) (p : ℕ)
    → IsValid b
    → p ≤ b.capacity
    → IsValid (record b {
      position = p;
      size = if ltb b.size p then p else b.size;
      cur = pointer b.nodes (p / b.base_size);
    })
moved-IsValid b p v h = record {
  base_pos = v.base_pos;
  blocks = v.blocks;
  root = v.root;
  capacity_eq = v.capacity_eq;
  position_le = ground arith;
  size_le = ground (arith, v.size_le);
  cursor = refl;
}
