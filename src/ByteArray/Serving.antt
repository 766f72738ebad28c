-- ===== src/ByteArray/Serving.antt =====
-- A byte array as a source of bytes: what a reader takes when the next bytes are known.
use xupeng.Prelude.{
  ℕ, ◌+◌, ◌≤◌, ◌<◌, ◌≡◌, ◌∙◌, ap, append_assoc, List, [], ◌++◌, length, length-append, arith,
}
use xupeng.Prelude.Slices.{drop-append_length, take-append_length}
use xupeng.Prelude.Outcome.{ok}
use xupeng.ByteArray.{ByteArray, Endian, read}
use xupeng.ByteArray.Invariant.{IsValid, unread}
use xupeng.ByteArray.Writing.{length-unread}
use xupeng.ByteArray.Reading.{Reads, read-Reads}

-- A valid byte array of an endianness whose next bytes are `bs` and then `rest`.
pub record Serves (e : Endian) (bs rest : List ℕ) (b : ByteArray) : Type 0 where
  pub valid : IsValid b
  pub bytes : unread b ≡ bs ++ rest
  pub endian_eq : b.endian ≡ e

-- A read of them all leaves the rest.
pub record Served (e : Endian) (bs rest : List ℕ) (b : ByteArray) : Type 0 where
  pub result : ByteArray
  pub runs : read b (length bs) ≡ ok (bs, result)
  pub left : Serves e [] rest result
  pub position_eq : result.position ≡ b.position + length bs
  pub same_capacity : result.capacity ≡ b.capacity

pub Serves-Served :
    (e : Endian) (bs rest : List ℕ) (b : ByteArray)
    → 0 < length bs
    → Serves e bs rest b
    → Served e bs rest b
Serves-Served e bs rest b pos s = record {
  result = r.result;
  runs = rw (r.runs, s.bytes) (rw (take-append_length (length bs) bs rest refl'));
  left = record {
    valid = r.valid;
    bytes = r.rest ∙ rw s.bytes (drop-append_length (length bs) bs rest refl');
    endian_eq = r.same_endian ∙ s.endian_eq;
  };
  position_eq = r.position_eq;
  same_capacity = r.same_capacity;
}
  where
    refl' : length bs ≡ length bs
    refl' = omega arith

    fits : b.position + length bs ≤ b.size
    fits = omega (
      arith,
      length-unread b s.valid,
      ap length s.bytes,
      length-append bs rest,
      s.valid.position_le,
    )

    r : Reads b (length bs)
    r = read-Reads b (length bs) s.valid fits (omega (arith, fits, s.valid.size_le))

-- The next bytes, cut in two.
pub Serves-cut :
    (e : Endian) (xs ys rest : List ℕ) (b : ByteArray)
    → Serves e (xs ++ ys) rest b
    → Serves e xs (ys ++ rest) b
Serves-cut e xs ys rest b s = record {
  valid = s.valid;
  bytes = s.bytes ∙ append_assoc xs ys rest;
  endian_eq = s.endian_eq;
}

pub Serves-next :
    (e : Endian) (xs rest : List ℕ) (b : ByteArray)
    → Serves e [] (xs ++ rest) b
    → Serves e xs rest b
Serves-next e xs rest b s = record { valid = s.valid; bytes = s.bytes; endian_eq = s.endian_eq }
