-- ===== src/ByteArray/Writing.antt =====
-- `write` against a flat array of bytes with a cursor.
use xupeng.Prelude.{
  ℕ, ◌+◌, ◌-◌, ◌*◌, ◌/◌, ◌%◌, ◌≤◌, ◌<◌, ◌≡◌, refl, sym, ◌∙◌, some, List, [], ◌∷◌, ◌++◌,
  append_assoc, length, take, drop, length-append, length-take, length-drop, All-append, All-take,
  All-drop, ltb, if◌then◌else◌, gt→==, arith, max,
}
use xupeng.Prelude.Slices.{
  take-append-drop, drop-all, take-append_le, drop-append_le, take-append_add, take-append_length,
  drop-append_add, drop-drop, take-take, drop-take, take-add,
}
use xupeng.Prelude.Words.{block_of, block_offset, offset-lt}
use xupeng.Prelude.Outcome.{ok}
use xupeng.ByteArray.{ByteArray, pointer, stored, store, write, add_capacity}
use xupeng.ByteArray.Chain.{
  flat, overwrite, flat-append, flat-take, flat-drop, Wrote, write_loop-Wrote,
}
use xupeng.ByteArray.Invariant.{IsValid, contents, unread, length-nodes, Grown, add_capacity-Grown}
use native.Mathlib.Decide.{dec_le}

-- The abstract write: `bs` in place of what stood from `p` on, the array grown at its end.
abbrev pub splice : List ℕ → ℕ → List ℕ → List ℕ
splice xs p bs = take p xs ++ (bs ++ drop (p + length bs) xs)

-- The result of a write of `bs` on `b`.
pub record Written (b : ByteArray) (bs : List ℕ) (b' : ByteArray) : Type 0 where
  pub valid : IsValid b'
  pub bytes : contents b' ≡ splice (contents b) b.position bs
  pub position_eq : b'.position ≡ b.position + length bs
  pub size_eq : b'.size ≡ max b.size (b.position + length bs)
  pub same_base : b'.base_size ≡ b.base_size
  pub same_endian : b'.endian ≡ b.endian

pub length-contents : (b : ByteArray) → IsValid b → length (contents b) ≡ b.size
length-contents b v = omega (arith, length-take b.size (flat b.nodes), length-nodes b v, v.size_le)

pub length-unread : (b : ByteArray) → IsValid b → length (unread b) ≡ b.size - b.position
length-unread b v = omega (arith, length-drop b.position (contents b), length-contents b v)

-- A prefix that reaches `q` bytes past the range written.
take-overwrite :
    (xs bs : List ℕ) (p q m : ℕ)
    → p ≤ length xs
    → m ≡ p + length bs + q
    → take m (overwrite xs p bs) ≡ take p xs ++ (bs ++ take q (drop (p + length bs) xs))
take-overwrite xs bs p q m h e = rw (
  take-append_add m (length bs + q) (take p xs) (bs ++ drop (p + length bs) xs)
      (omega (arith, length-take p xs)),
  take-append_add (length bs + q) q bs (drop (p + length bs) xs) (omega arith),
)

tail_bytes :
    (xs ys : List ℕ) (k n q : ℕ)
    → n ≤ length xs
    → q ≡ n - k
    → take q (drop k (xs ++ ys)) ≡ drop k (take n xs)
tail_bytes xs ys k n q fit e = elim (dec_le n k) [
  | yes short ↦
      let q0 : q ≡ 0 = omega arith in
      rw (q0, drop-all k (take n xs) (omega (arith, length-take n xs)))
  | no long ↦ rw (
    drop-append_le k xs ys (omega arith),
    take-append_le q (drop k xs) ys (omega (arith, length-drop k xs)),
    drop-take k n xs,
    e,
  )
]

-- The written part of the flat array is the spliced contents.
written_bytes :
    (xs ys bs : List ℕ) (p n m : ℕ)
    → p ≤ n
    → n ≤ length xs
    → m ≡ max n (p + length bs)
    → take m (overwrite (xs ++ ys) p bs) ≡ splice (take n xs) p bs
written_bytes xs ys bs p n m h fit e =
    let q = n - (p + length bs) in
    take-overwrite (xs ++ ys) bs p q m (omega (arith, length-append xs ys)) (omega arith)
    ∙ rw (
      tail_bytes xs ys (p + length bs) n q fit refl,
      take-append_le p xs ys (omega arith),
      take-take p n xs h,
    )

-- A write at block `c` and offset `r` of the chain is a write of the flat array.
overwrite_block :
    (xs bs : List ℕ) (k r p : ℕ)
    → p ≡ k + r
    → take k xs ++ overwrite (drop k xs) r bs ≡ overwrite xs p bs
overwrite_block xs bs k r p e =
    sym (append_assoc (take k xs) (take r (drop k xs)) _)
    ∙ rw (take-add k r p xs e, drop-drop (r + length bs) k (p + length bs) xs (omega arith))

-- What `store` does on a byte array with room for `bs`, whose cursor is on a node.
pub record Stored (b : ByteArray) (bs : List ℕ) : Type 0 where
  pub result : ByteArray
  pub runs : store b bs ≡ ok result
  pub valid : IsValid result
  pub bytes : flat result.nodes ≡ overwrite (flat b.nodes) b.position bs
  pub position_eq : result.position ≡ b.position + length bs
  pub size_eq : result.size ≡ max b.size (b.position + length bs)
  pub same_base : result.base_size ≡ b.base_size
  pub same_endian : result.endian ≡ b.endian

pub room_at :
    (b : ByteArray) (n : ℕ)
    → IsValid b
    → b.position + n ≤ b.capacity
    → b.position % b.base_size + n ≤ length (flat (drop (b.position / b.base_size) b.nodes))
room_at b n v room =
    let c = b.position / b.base_size in
    rw (flat-drop b.base_size c (c * b.base_size) b.nodes v.blocks refl) (
      omega (
        arith,
        length-drop (c * b.base_size) (flat b.nodes),
        length-nodes b v,
        block_offset b.position b.base_size v.base_pos,
      ))

module _ (b : ByteArray) (bs : List ℕ) (v : IsValid b) where
  -- The chain and the cursor, put together from what the loop gives.
  store-Wrote :
      b.cur ≡ some (b.position / b.base_size)
      → b.position + length bs ≤ b.capacity
      → Wrote b.base_size (b.position % b.base_size) (drop (b.position / b.base_size) b.nodes) bs
      → Stored b bs
  unfolding store stored
  store-Wrote on room w = record {
    result = record b {
      nodes = take c b.nodes ++ w.after;
      cur = pointer b.nodes (c + w.k);
      position = b.position + length bs;
      size = if ltb b.size (b.position + length bs) then b.position + length bs else b.size;
    };
    runs = rw (on, store) (rw w.runs);
    valid = record {
      base_pos = v.base_pos;
      blocks = All-append _ (take c b.nodes) w.after (All-take _ c b.nodes v.blocks) w.blocks;
      root = omega (arith, count, v.root);
      capacity_eq = rw count v.capacity_eq;
      position_le = ground arith;
      size_le = ground (arith, v.size_le);
      cursor =
          rw (count, block_of (b.position + length bs) (c + w.k) w.r b.base_size place w.offset);
    };
    bytes =
        flat-append (take c b.nodes) w.after
        ∙ rw
            (
              w.bytes,
              flat-take b.base_size c (c * b.base_size) b.nodes v.blocks refl,
              flat-drop b.base_size c (c * b.base_size) b.nodes v.blocks refl,
            )
            (overwrite_block (flat b.nodes) bs (c * b.base_size) (b.position % b.base_size)
              b.position (block_offset b.position b.base_size v.base_pos));
    position_eq = refl;
    size_eq = ground arith;
    same_base = refl;
    same_endian = refl;
  }
    where
      c : ℕ
      c = b.position / b.base_size

      count : length (take c b.nodes ++ w.after) ≡ length b.nodes
      count = omega (
        arith,
        length-append (take c b.nodes) w.after,
        length-take c b.nodes,
        w.count,
        length-drop c b.nodes,
      )

      place : b.position + length bs ≡ (c + w.k) * b.base_size + w.r
      place = omega (arith, block_offset b.position b.base_size v.base_pos, w.steps)

  pub store-Stored :
      b.cur ≡ some (b.position / b.base_size)
      → 0 < length bs
      → b.position + length bs ≤ b.capacity
      → Stored b bs
  store-Stored on pos room = store-Wrote on room (
      write_loop-Wrote b.base_size (b.position % b.base_size) _ bs
        (All-drop _ (b.position / b.base_size) b.nodes v.blocks)
        (offset-lt b.position b.base_size v.base_pos) pos (room_at b (length bs) v room))

-- What a write gives on every valid byte array: it ends, and the contents are spliced.
pub record Writes (b : ByteArray) (bs : List ℕ) : Type 0 where
  pub result : ByteArray
  pub runs : write b bs ≡ ok result
  pub written : Written b bs result

-- A store after growth is the whole write.
Grown-Written :
    (b b' : ByteArray) (bs : List ℕ) (v : IsValid b) (g : Grown b (length bs) b') (s : Stored b' bs)
    → Written b bs s.result
Grown-Written b b' bs v g s = record {
  valid = s.valid;
  bytes =
      rw (s.bytes, g.bytes, g.same_position)
        (written_bytes (flat b.nodes) g.tail bs b.position b.size s.result.size v.position_le
          (omega (arith, length-nodes b v, v.size_le))
          (omega (arith, s.size_eq, g.same_position, g.same_size)));
  position_eq = omega (arith, s.position_eq, g.same_position);
  size_eq = omega (arith, s.size_eq, g.same_position, g.same_size);
  same_base = s.same_base ∙ g.same_base;
  same_endian = s.same_endian ∙ g.same_endian;
}

-- A write of nothing.
pub none-Written : (b : ByteArray) → IsValid b → Written b [] b
none-Written b v = record {
  valid = v;
  bytes =
      rw (let e : b.position + 0 ≡ b.position = omega arith in e)
        (sym (take-append-drop b.position (contents b)));
  position_eq = omega arith;
  size_eq = omega (arith, v.position_le);
  same_base = refl;
  same_endian = refl;
}

-- Every write on a valid byte array ends, keeps it valid and splices the bytes in at the cursor.
pub write-Writes : (b : ByteArray) (bs : List ℕ) → IsValid b → Writes b bs
unfolding write
write-Writes b [] v = record { result = b; runs = refl; written = none-Written b v }
write-Writes b (x ∷ xs) v =
    let n = length (x ∷ xs) in
    let g = add_capacity-Grown b n v (omega arith) in
    let s = store-Stored (add_capacity b n) (x ∷ xs) g.valid g.on_node (omega arith) g.room in
    record {
      result = s.result;
      runs = rw (gt→== n 0 (omega arith)) s.runs;
      written = Grown-Written b (add_capacity b n) (x ∷ xs) v g s;
    }

-- `write` on a valid byte array always succeeds: the contents become those of the flat array with
-- `bs` in place at the cursor, the cursor stands behind `bs`, the size is the larger of the old
-- size and the cursor, and the result is valid again.
pub write-splice :
    (b : ByteArray) (bs : List ℕ)
    → IsValid b
    → (b' : ByteArray) × (write b bs ≡ ok b')
      × IsValid b'
      × (contents b' ≡ splice (contents b) b.position bs)
      × (b'.position ≡ b.position + length bs)
      × (b'.size ≡ max b.size (b.position + length bs))
write-splice b bs v =
    let w = write-Writes b bs v in
    (w.result, w.runs, w.written.valid, w.written.bytes, w.written.position_eq, w.written.size_eq)

-- Two splices in a row, the second where the first ended.
splice-splice :
    (xs bs cs : List ℕ) (p : ℕ)
    → p ≤ length xs
    → splice (splice xs p bs) (p + length bs) cs ≡ splice xs p (bs ++ cs)
splice-splice xs bs cs p h = rw (
  take-append_add (p + length bs) (length bs) (take p xs) (bs ++ drop (p + length bs) xs)
      (omega (arith, length-take p xs)),
  take-append_length (length bs) bs (drop (p + length bs) xs) refl,
  drop-append_add (p + length bs + length cs) (length bs + length cs) (take p xs)
      (bs ++ drop (p + length bs) xs) (omega (arith, length-take p xs)),
  drop-append_add (length bs + length cs) (length cs) bs (drop (p + length bs) xs) refl,
  drop-drop (length cs) (p + length bs) (p + length (bs ++ cs)) xs
      (omega (arith, length-append bs cs)),
  append_assoc (take p xs) bs,
  append_assoc bs cs,
)

-- Two writes in a row are one write of both.
pub Written-append :
    (b : ByteArray) (bs cs : List ℕ) (b₁ b₂ : ByteArray)
    → IsValid b
    → Written b bs b₁
    → Written b₁ cs b₂
    → Written b (bs ++ cs) b₂
Written-append b bs cs b₁ b₂ v w₁ w₂ = record {
  valid = w₂.valid;
  bytes =
      rw (w₂.bytes, w₁.bytes, w₁.position_eq)
        (splice-splice (contents b) bs cs b.position
          (omega (arith, length-contents b v, v.position_le)));
  position_eq = omega (arith, w₁.position_eq, w₂.position_eq, length-append bs cs);
  size_eq = omega (arith, w₁.size_eq, w₂.size_eq, w₁.position_eq, length-append bs cs);
  same_base = w₂.same_base ∙ w₁.same_base;
  same_endian = w₂.same_endian ∙ w₁.same_endian;
}
