-- ===== src/ByteArray/Examples.antt =====
-- Runs of the byte array, and its theorems at an array of two blocks of four bytes with six bytes
-- written and the cursor behind the first.
use xupeng.Prelude.{ℕ, ◌≡◌, refl, List, [], ◌∷◌, some, arith, ◌^◌, ◌↔◌}
use xupeng.Prelude.Int.{pos, negsuc, InRange}
use xupeng.Prelude.Outcome.{ok, ◌>>=◌, ending, threw}
use xupeng.ByteArray.{ByteArray, little, big, write, read, set_position, add_capacity}
use xupeng.ByteArray.Invariant.{IsValid, contents, Grown, add_capacity-Grown}
use xupeng.ByteArray.Writing.{splice, write-splice}
use xupeng.ByteArray.RoundTrip.{ending-read, read-write}
use xupeng.ByteArray.Serving.{Serves}
use xupeng.ByteArray.Fixed.{
  object_bytes, write_fint8, read_fint8, write_fint16, read_fint16, write_fint32, read_fint32,
  write_fint64, read_fint64,
}
use xupeng.ByteArray.Fixed.RoundTrip.{rewind, read_fint-write_fint}
use xupeng.ByteArray.Varint.{write_uint64, read_uint64, write_int64, read_int64}
use xupeng.ByteArray.Varint.RoundTrip.{read_uint64-write_uint64, read_int64-write_int64_iff}
use xupeng.ByteArray.Strings.{
  write_string_f16, read_string_f16, write_string_f32, read_string_f32, write_string_f64,
  read_string_f64, write_string_vint, read_string_vint, read_string-write_string_all,
}

abbrev two_blocks : ByteArray
two_blocks = record {
  base_size = 4;
  position = 1;
  capacity = 8;
  size = 6;
  endian = big;
  nodes = (1 ∷ 2 ∷ 3 ∷ 4 ∷ []) ∷ (5 ∷ 6 ∷ 0 ∷ 0 ∷ []) ∷ [];
  cur = some 0;
  junk = 0;
}

two_blocks-IsValid : IsValid two_blocks
two_blocks-IsValid = record {
  base_pos = ground arith;
  blocks = (refl, (refl, tt));
  root = ground arith;
  capacity_eq = refl;
  position_le = ground arith;
  size_le = ground arith;
  cursor = refl;
}

-- One block of two bytes, both of them zero and unread.
abbrev short_block : ByteArray
short_block = record {
  base_size = 2;
  position = 0;
  capacity = 2;
  size = 2;
  endian = big;
  nodes = (0 ∷ 0 ∷ []) ∷ [];
  cur = some 0;
  junk = 0;
}

short_block-Serves : Serves big (object_bytes big 2 0) [] short_block
unfolding object_bytes
short_block-Serves = record {
  valid = record {
    base_pos = ground arith;
    blocks = (refl, tt);
    root = ground arith;
    capacity_eq = refl;
    position_le = ground arith;
    size_le = ground arith;
    cursor = refl;
  };
  bytes = refl;
  endian_eq = refl;
}

abbrev five : List ℕ
five = 9 ∷ 8 ∷ 7 ∷ 6 ∷ 5 ∷ []

write-splice_example :
    (b' : ByteArray) × (write two_blocks five ≡ ok b')
    × IsValid b'
    × (contents b' ≡ splice (contents two_blocks) 1 five)
    × (b'.position ≡ 6)
    × (b'.size ≡ 6)
write-splice_example = write-splice two_blocks five two_blocks-IsValid

ending-read_example : ending (read two_blocks 6) ≡ threw
ending-read_example = ending-read two_blocks 6 two_blocks-IsValid

read-write_example :
    (b' : ByteArray) × ((write two_blocks five >>= λ b₁. set_position b₁ 1 >>= λ b₂. read b₂ 5)
      ≡ ok (five, b'))
    × IsValid b'
    × (b'.position ≡ 6)
read-write_example = read-write two_blocks five two_blocks-IsValid (ground arith)

add_capacity-Grown_example : Grown two_blocks 9 (add_capacity two_blocks 9)
add_capacity-Grown_example = add_capacity-Grown two_blocks 9 two_blocks-IsValid (ground arith)

read_fint-write_fint_example :
    ((b' : ByteArray) × ((rewind two_blocks (write_fint8 little two_blocks (negsuc 4))
          >>= read_fint8 little)
        ≡ ok (negsuc 4, b')))
    × ((b' : ByteArray) × ((rewind two_blocks (write_fint16 little two_blocks (negsuc 299))
            >>= read_fint16 little)
          ≡ ok (negsuc 299, b')))
    × ((b' : ByteArray) × ((rewind two_blocks (write_fint32 little two_blocks (pos 70000))
            >>= read_fint32 little)
          ≡ ok (pos 70000, b')))
    × ((b' : ByteArray) × ((rewind two_blocks (write_fint64 little two_blocks (negsuc 0))
            >>= read_fint64 little)
          ≡ ok (negsuc 0, b')))
read_fint-write_fint_example =
    read_fint-write_fint little two_blocks (negsuc 4) (negsuc 299) (pos 70000) (negsuc 0)
      two_blocks-IsValid (ground arith) (ground arith) (ground arith) (ground arith)

read_uint64-write_uint64_example :
    (b' : ByteArray) × ((rewind two_blocks (write_uint64 two_blocks (2 ^ 63))
        >>= read_uint64 little)
      ≡ ok (2 ^ 63, b'))
    × IsValid b'
read_uint64-write_uint64_example =
    read_uint64-write_uint64 little two_blocks (2 ^ 63) two_blocks-IsValid (ground arith)

-- An int64 of 33 bits.
read_int64-write_int64_iff_example :
    ((b' : ByteArray) × ((rewind two_blocks (write_int64 two_blocks (pos 4294967296))
          >>= read_int64 little)
        ≡ ok (pos 4294967296, b')))
    ↔ InRange (2 ^ 31) (pos 4294967296)
read_int64-write_int64_iff_example =
    read_int64-write_int64_iff little two_blocks (pos 4294967296) two_blocks-IsValid (ground arith)

read_string-write_string_all_example :
    ((b' : ByteArray) × ((rewind two_blocks (write_string_f16 little two_blocks five)
          >>= read_string_f16 little)
        ≡ ok (five, b')))
    × ((b' : ByteArray) × ((rewind two_blocks (write_string_f32 little two_blocks five)
            >>= read_string_f32 little)
          ≡ ok (five, b')))
    × ((b' : ByteArray) × ((rewind two_blocks (write_string_f64 little two_blocks five)
            >>= read_string_f64 little)
          ≡ ok (five, b')))
    × ((b' : ByteArray) × ((rewind two_blocks (write_string_vint little two_blocks five)
            >>= read_string_vint little)
          ≡ ok (five, b')))
read_string-write_string_all_example =
    read_string-write_string_all little two_blocks five two_blocks-IsValid (ground arith)
      (ground arith)
