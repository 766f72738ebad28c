-- ===== src/ByteArray/Varint/RoundTrip.antt =====
-- Variable-length integers, written and read back, and the zigzag codes.
use xupeng.Prelude.{
  ℕ, ◌+◌, ◌-◌, ◌*◌, ◌/◌, ◌%◌, ◌^◌, ◌≤◌, ◌<◌, ◌≡◌, ◌↔◌, sym, ap, ◌∙◌, bit_and, length, lt→ltb,
  le→ltb, arith,
}
use xupeng.Prelude.Bits.{bit_and-one, bit_xor-zero, bit_xor_ones}
use xupeng.Prelude.Int.{ℤ, pos, negsuc, InRange}
use xupeng.Prelude.Outcome.{Outcome, ok, throws, faults, ◌>>=◌}
use xupeng.ByteArray.{ByteArray, Endian}
use xupeng.ByteArray.Invariant.{IsValid, contents}
use xupeng.ByteArray.RoundTrip.{write-Rewound}
use xupeng.ByteArray.Writing.{splice, write-Writes}
use xupeng.ByteArray.Fixed.RoundTrip.{rewind, Rewound-Serves}
use xupeng.ByteArray.Varint.{
  put_bytes, write_uint32, write_uint64, read_uint32, read_uint64, encode_zigzag32, encode_zigzag64,
  decode_zigzag32, decode_zigzag64, write_int32, write_int64, read_int32, read_int64,
}
use xupeng.ByteArray.Varint.Loops.{groups, put_loop-groups, length-groups, get_loop-groups}
use native.Mathlib.Nat.{mod-eq_of_lt}

-- On a valid byte array `writeUint32` puts at most 5 bytes and `writeUint64` at most 10, so `tmp`
-- never overflows and the write succeeds: the contents have the value's groups of seven bits at the
-- cursor, the array is valid.
pub write_uint-splice :
    (b : ByteArray) (v w : ℕ)
    → IsValid b
    → v < 2 ^ 32
    → w < 2 ^ 64
    → ((b' : ByteArray) × (write_uint32 b v ≡ ok b')
        × IsValid b'
        × (contents b' ≡ splice (contents b) b.position (groups 4 v))
        × (length (groups 4 v) ≤ 5))
      × ((b' : ByteArray) × (write_uint64 b w ≡ ok b')
          × IsValid b'
          × (contents b' ≡ splice (contents b) b.position (groups 9 w))
          × (length (groups 9 w) ≤ 10))
unfolding write_uint32 write_uint64 put_bytes
write_uint-splice b v w valid hv hw =
    let x = write-Writes b (groups 4 v) valid in
    let y = write-Writes b (groups 9 w) valid in
    (
      (
        x.result,
        rw (put_loop-groups 4 v (omega arith)) x.runs,
        x.written.valid,
        x.written.bytes,
        (length-groups 4 v).1,
      ),
      (
        y.result,
        rw (put_loop-groups 9 w (omega arith)) y.runs,
        y.written.valid,
        y.written.bytes,
        (length-groups 9 w).1,
      ),
    )

-- On a valid byte array every uint32 is read back as it was written, once the cursor is back where the
-- write began, and the array is valid after it.
pub read_uint32-write_uint32 :
    (host : Endian) (b : ByteArray) (v : ℕ)
    → IsValid b
    → v < 2 ^ 32
    → (b' : ByteArray) × ((rewind b (write_uint32 b v) >>= read_uint32 host) ≡ ok (v, b'))
      × IsValid b'
unfolding write_uint32 put_bytes read_uint32
read_uint32-write_uint32 host b v valid h =
    let w = write-Rewound b (groups 4 v) valid in
    let (b', runs, s) =
      get_loop-groups host b.endian 32 4 0 v 0 _ w.result (omega arith) (omega arith) (omega arith)
        (Rewound-Serves b (groups 4 v) w) in
    (
      b',
      rw (put_loop-groups 4 v (omega arith), w.writes, w.moves) (rw runs (ground arith)),
      s.valid,
    )

-- On a valid byte array every uint64 is read back as it was written, once the cursor is back where the
-- write began, and the array is valid after it.
pub read_uint64-write_uint64 :
    (host : Endian) (b : ByteArray) (v : ℕ)
    → IsValid b
    → v < 2 ^ 64
    → (b' : ByteArray) × ((rewind b (write_uint64 b v) >>= read_uint64 host) ≡ ok (v, b'))
      × IsValid b'
unfolding write_uint64 put_bytes read_uint64
read_uint64-write_uint64 host b v valid h =
    let w = write-Rewound b (groups 9 v) valid in
    let (b', runs, s) =
      get_loop-groups host b.endian 64 9 0 v 0 _ w.result (omega arith) (omega arith) (omega arith)
        (Rewound-Serves b (groups 9 v) w) in
    (
      b',
      rw (put_loop-groups 9 v (omega arith), w.writes, w.moves) (rw runs (ground arith)),
      s.valid,
    )

encode_zigzag32-lt : (z : ℤ) → encode_zigzag32 z < 2 ^ 32
unfolding encode_zigzag32
encode_zigzag32-lt (pos n) = omega arith
encode_zigzag32-lt (negsuc n) = omega arith

encode_zigzag64-lt : (z : ℤ) → encode_zigzag64 z < 2 ^ 32
unfolding encode_zigzag64
encode_zigzag64-lt (pos n) = omega arith
encode_zigzag64-lt (negsuc n) = omega arith

-- The decoders on an even and on an odd code.
decode64-even : (n : ℕ) → n < 2 ^ 63 → decode_zigzag64 (2 * n) ≡ pos n
unfolding decode_zigzag64
decode64-even n h =
    let half : 2 * n / 2 ≡ n = omega arith in
    let even : (2 ^ 64 - bit_and (2 * n) 1) % 2 ^ 64 ≡ 0 = omega (arith, bit_and-one (2 * n)) in
    rw (half, even, bit_xor-zero n, lt→ltb n (2 ^ 63) h)

decode64-odd : (n : ℕ) → n < 2 ^ 63 → decode_zigzag64 (2 * n + 1) ≡ negsuc n
unfolding decode_zigzag64
decode64-odd n h =
    let half : (2 * n + 1) / 2 ≡ n = omega arith in
    let odd : (2 ^ 64 - bit_and (2 * n + 1) 1) % 2 ^ 64 ≡ 2 ^ 64 - 1 =
      omega (arith, bit_and-one (2 * n + 1)) in
    let back : 2 ^ 64 - 1 - (2 ^ 64 - 1 - n) ≡ n = omega arith in
    rw (
      half,
      odd,
      bit_xor_ones 64 n (omega arith),
      le→ltb (2 ^ 64 - 1 - n) (2 ^ 63) (omega arith),
      back,
    )

decode32-even : (n : ℕ) → n < 2 ^ 31 → decode_zigzag32 (2 * n) ≡ pos n
unfolding decode_zigzag32
decode32-even n h =
    let half : 2 * n / 2 ≡ n = omega arith in
    let even : (2 ^ 32 - bit_and (2 * n) 1) % 2 ^ 32 ≡ 0 = omega (arith, bit_and-one (2 * n)) in
    rw (half, even, bit_xor-zero n, lt→ltb n (2 ^ 31) h)

decode32-odd : (n : ℕ) → n < 2 ^ 31 → decode_zigzag32 (2 * n + 1) ≡ negsuc n
unfolding decode_zigzag32
decode32-odd n h =
    let half : (2 * n + 1) / 2 ≡ n = omega arith in
    let odd : (2 ^ 32 - bit_and (2 * n + 1) 1) % 2 ^ 32 ≡ 2 ^ 32 - 1 =
      omega (arith, bit_and-one (2 * n + 1)) in
    let back : 2 ^ 32 - 1 - (2 ^ 32 - 1 - n) ≡ n = omega arith in
    rw (
      half,
      odd,
      bit_xor_ones 32 n (omega arith),
      le→ltb (2 ^ 32 - 1 - n) (2 ^ 31) (omega arith),
      back,
    )

decode-encode32 : (z : ℤ) → InRange (2 ^ 31) z → decode_zigzag32 (encode_zigzag32 z) ≡ z
unfolding encode_zigzag32
decode-encode32 (pos n) h = let e : n * 2 % 2 ^ 32 ≡ 2 * n = omega arith in rw e (decode32-even n h)
decode-encode32 (negsuc n) h =
    let e : ((n + 1) % 2 ^ 32 * 2 + 2 ^ 32 - 1) % 2 ^ 32 ≡ 2 * n + 1 = omega arith in
    rw e (decode32-odd n h)

abbrev decode : (ℕ → ℤ) → Outcome (ℕ × ByteArray) → Outcome (ℤ × ByteArray)
decode g m = do (v, b) ← m; ok (g v, b)

-- A decoder behind a read that is known.
decoded :
    (m : Outcome ByteArray) (f : ByteArray → Outcome (ℕ × ByteArray)) (g : ℕ → ℤ) (v : ℕ)
    (b' : ByteArray)
    → (m >>= f) ≡ ok (v, b')
    → (m >>= λ b. decode g (f b)) ≡ ok (g v, b')
decoded (ok b) f g v b' h = rw h
decoded throws f g v b' h = cc
decoded faults f g v b' h = cc

-- On a valid byte array every int32 is read back as it was written, once the cursor is back where the
-- write began, and the array is valid after it.
pub read_int32-write_int32 :
    (host : Endian) (b : ByteArray) (z : ℤ)
    → IsValid b
    → InRange (2 ^ 31) z
    → (b' : ByteArray) × ((rewind b (write_int32 b z) >>= read_int32 host) ≡ ok (z, b'))
      × IsValid b'
unfolding write_int32 read_int32
read_int32-write_int32 host b z valid h =
    let (b', runs, v) =
      read_uint32-write_uint32 host b (encode_zigzag32 z) valid (encode_zigzag32-lt z) in
    (
      b',
      decoded _ (read_uint32 host) decode_zigzag32 (encode_zigzag32 z) b' runs
          ∙ rw (decode-encode32 z h),
      v,
    )

abbrev low_half : ℤ → ℤ
low_half (pos n) = pos (n % 2 ^ 31)
low_half (negsuc n) = negsuc (n % 2 ^ 31)

decode-encode64 : (z : ℤ) → InRange (2 ^ 63) z → decode_zigzag64 (encode_zigzag64 z) ≡ low_half z
unfolding encode_zigzag64
decode-encode64 (pos n) h =
    let e : n * 2 % 2 ^ 64 % 2 ^ 32 ≡ 2 * (n % 2 ^ 31) = omega arith in
    rw e (decode64-even (n % 2 ^ 31) (omega arith))
decode-encode64 (negsuc n) h =
    let e : ((n + 1) % 2 ^ 64 * 2 + 2 ^ 64 - 1) % 2 ^ 64 % 2 ^ 32 ≡ 2 * (n % 2 ^ 31) + 1 =
      omega arith in
    rw e (decode64-odd (n % 2 ^ 31) (omega arith))

magnitude : ℤ → ℕ
magnitude (pos n) = n
magnitude (negsuc n) = n

low_half_iff : (z : ℤ) → (low_half z ≡ z) ↔ InRange (2 ^ 31) z
unfolding magnitude
low_half_iff (pos n) = (λ e. omega (arith, ap magnitude e), λ h. ap pos (mod-eq_of_lt h))
low_half_iff (negsuc n) = (λ e. omega (arith, ap magnitude e), λ h. ap negsuc (mod-eq_of_lt h))

-- What an int64 is read back as: the same sign, and 31 bits of its magnitude.
read_int64-eq :
    (host : Endian) (b : ByteArray) (z : ℤ)
    → IsValid b
    → InRange (2 ^ 63) z
    → (b' : ByteArray) × ((rewind b (write_int64 b z) >>= read_int64 host) ≡ ok (low_half z, b'))
unfolding write_int64 read_int64
read_int64-eq host b z valid h =
    let (b', runs, v) =
      read_uint64-write_uint64 host b (encode_zigzag64 z) valid
        (omega (arith, encode_zigzag64-lt z)) in
    (
      b',
      decoded _ (read_uint64 host) decode_zigzag64 (encode_zigzag64 z) b' runs
          ∙ rw (decode-encode64 z h),
    )

value_of : Outcome (ℤ × ByteArray) → ℤ → ℤ
value_of (ok p) z = p.0
value_of throws z = z
value_of faults z = z

-- On a valid byte array an int64 is read back as it was written, once the cursor is back where the
-- write began, exactly when it fits 32 bits: `EncodeZigzag64` returns a uint32_t, so the upper half
-- of the code is lost.
pub read_int64-write_int64_iff :
    (host : Endian) (b : ByteArray) (z : ℤ)
    → IsValid b
    → InRange (2 ^ 63) z
    → ((b' : ByteArray) × ((rewind b (write_int64 b z) >>= read_int64 host) ≡ ok (z, b')))
      ↔ InRange (2 ^ 31) z
unfolding value_of
read_int64-write_int64_iff host b z valid h =
    let (b', runs) = read_int64-eq host b z valid h in
    (
      λ r. (low_half_iff z).0 (ap (λ o. value_of o z) (sym runs ∙ r.1)),
      λ small. (b', runs ∙ rw ((low_half_iff z).1 small)),
    )
