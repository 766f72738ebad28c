-- ===== src/ByteArray/RoundTrip.antt =====
-- The behaviour of `read`, `toString` and `setPosition` as a caller sees it, and reading back what
-- was written.
use xupeng.Prelude.{
  ℕ, ◌+◌, ◌-◌, ◌/◌, ◌≤◌, ◌<◌, ◌≡◌, refl, ap, ◌∙◌, List, ◌++◌, length, take, drop, length-take, ltb,
  ◌==◌, if◌then◌else◌, gt→==, eq→==, lt→==, le→ltb, lt→ltb, arith, max,
}
use xupeng.Prelude.Slices.{take-all, drop-append_length, take-append_length, drop-all}
use xupeng.Prelude.Words.{word_sub_le}
use xupeng.Prelude.Outcome.{ok, ◌>>=◌, ending, done, threw, crashed}
use xupeng.ByteArray.{ByteArray, pointer, write, read, read_at, bytes_of, set_position, to_string}
use xupeng.ByteArray.Invariant.{IsValid, contents, unread, cur-some}
use xupeng.ByteArray.Writing.{Written, length-contents, length-unread, write-Writes}
use xupeng.ByteArray.Reading.{
  read-Reads, read_fits, read_range, read-throws, read_zero-faults, set_position-eq, moved-IsValid,
}
use native.Mathlib.Decide.{dec_lt}

-- On a valid byte array a read of at least one byte that fits returns the next bytes, leaves the contents alone and moves
-- the cursor behind them, and the result is valid.
pub read-take :
    (b : ByteArray) (n : ℕ)
    → IsValid b
    → 0 < n
    → b.position + n ≤ b.size
    → (b' : ByteArray) × (read b n ≡ ok (take n (unread b), b'))
      × IsValid b'
      × (contents b' ≡ contents b)
      × (b'.position ≡ b.position + n)
read-take b n v pos fit =
    let r = read-Reads b n v fit (omega (arith, v.size_le)) in
    (r.result, r.runs, r.valid, r.same_contents, r.position_eq)

-- How `read` ends on a valid byte array, on every branch: it throws if more bytes are asked for
-- than lie between the cursor and the size; else it dereferences null if the cursor is at the end
-- of the capacity (so that nothing was asked for); else it succeeds.
pub ending-read :
    (b : ByteArray) (n : ℕ)
    → IsValid b
    → ending (read b n) ≡ (
        if ltb b.size (b.position + n)
        then threw
        else if b.position == b.capacity
        then crashed
        else done)
ending-read b n v = elim (dec_lt b.size (b.position + n)) [
  | yes more ↦ rw (read-throws b n v more, lt→ltb _ _ more)
  | no fits ↦ elim (dec_lt b.position b.capacity) [
    | yes on ↦ rw (
      (read-Reads b n v (omega arith) on).runs,
      le→ltb b.size (b.position + n) (omega arith),
      lt→== _ _ on,
    )
    | no full ↦
        let end : b.position ≡ b.capacity = omega (arith, v.size_le, v.position_le) in
        let nothing : n ≡ 0 = omega (arith, v.size_le) in
        rw (
          le→ltb b.size (b.position + n) (omega arith),
          eq→== _ _ end,
          nothing,
          read_zero-faults b v end,
        )
  ]
]

read_at-here :
    (b : ByteArray)
    → IsValid b
    → b.position < b.size
    → read_at b (b.size - b.position) b.position ≡ ok (unread b)
unfolding read_at bytes_of
read_at-here b v left =
    let n = b.size - b.position in
    let t = read_fits b n b.position v (omega arith) (omega (arith, v.size_le)) in
    rw (
      word_sub_le b.size b.position v.position_le,
      le→ltb n n (omega arith),
      cur-some b v (omega (arith, v.size_le)),
      t.runs,
      read_range b b.position n v (omega arith),
      take-all n (unread b) (omega (arith, length-unread b v)),
    )

-- `toString` on a valid byte array is the bytes from the cursor to the size.
pub to_string-unread : (b : ByteArray) → IsValid b → to_string b ≡ ok (unread b)
unfolding to_string
to_string-unread b v =
    rw (word_sub_le b.size b.position v.position_le) (elim (dec_lt b.position b.size) [
      | yes left ↦ rw (gt→== (b.size - b.position) 0 (omega arith)) (read_at-here b v left)
      | no end ↦ rw (
        eq→== (b.size - b.position) 0 (omega arith),
        drop-all b.position (contents b) (omega (arith, length-contents b v)),
      )
    ])

-- `setPosition` back to where a write began: what is unread is what was written and what followed.
pub record Backed (b : ByteArray) (bs : List ℕ) (after : ByteArray) : Type 0 where
  pub result : ByteArray
  pub moves : set_position after b.position ≡ ok result
  pub valid : IsValid result
  pub bytes : unread result ≡ bs ++ drop (b.position + length bs) (contents b)
  pub size_eq : result.size ≡ max b.size (b.position + length bs)
  pub position_eq : result.position ≡ b.position
  pub same_endian : result.endian ≡ b.endian

keep_size : (p n : ℕ) → p ≤ n → (if ltb n p then p else n) ≡ n
keep_size p n h = ground arith

pub Written-Backed :
    (b : ByteArray) (bs : List ℕ) (b' : ByteArray) → IsValid b → Written b bs b' → Backed b bs b'
Written-Backed b bs b' v w =
    let at : b.position ≤ b'.capacity = omega (arith, w.size_eq, w.valid.size_le, v.position_le) in
    record {
      result = record b' {
        position = b.position;
        size = if ltb b'.size b.position then b.position else b'.size;
        cur = pointer b'.nodes (b.position / b'.base_size);
      };
      moves = set_position-eq b' b.position w.valid at;
      valid = moved-IsValid b' b.position w.valid at;
      bytes =
          rw (keep_size b.position b'.size (omega (arith, w.size_eq)), w.bytes)
            (drop-append_length b.position (take b.position (contents b)) _ (
              omega
                (arith, length-take b.position (contents b), length-contents b v, v.position_le)));
      size_eq = keep_size b.position b'.size (omega (arith, w.size_eq)) ∙ w.size_eq;
      position_eq = refl;
      same_endian = w.same_endian;
    }

pub record Rewound (b : ByteArray) (bs : List ℕ) : Type 0 where
  pub after : ByteArray
  pub writes : write b bs ≡ ok after
  pub back : Backed b bs after
  pub open back use *

pub write-Rewound : (b : ByteArray) (bs : List ℕ) → IsValid b → Rewound b bs
write-Rewound b bs v =
    let w = write-Writes b bs v in
    record { after = w.result; writes = w.runs; back = Written-Backed b bs w.result v w.written }

-- Reading back what was written on a valid byte array: from the place where a write of one byte or more began, a read of
-- as many bytes returns them, and leaves the cursor where the write had left it.
pub read-write :
    (b : ByteArray) (bs : List ℕ)
    → IsValid b
    → 0 < length bs
    → (b' : ByteArray) × ((write b bs >>= λ b₁.
          set_position b₁ b.position >>= λ b₂. read b₂ (length bs))
        ≡ ok (bs, b'))
      × IsValid b'
      × (b'.position ≡ b.position + length bs)
read-write b bs v pos =
    let w = write-Rewound b bs v in
    let r =
      read-Reads w.result (length bs) w.valid (omega (arith, w.position_eq, w.size_eq))
        (omega (arith, w.position_eq, w.size_eq, w.valid.size_le)) in
    (
      r.result,
      rw (w.writes, w.moves, r.runs, w.bytes, take-append_length (length bs) bs _ refl),
      r.valid,
      r.position_eq ∙ ap (λ (p : ℕ). p + length bs) w.position_eq,
    )
