-- ===== src/ByteArray/Varint.antt =====
-- bytearray.cc's variable-length integers (write/read(U)int32, write/read(U)int64) with their
-- zigzag codes. Words are numbers below 2 ^ w; arithmetic on signed integers wraps.
pub mod Loops
pub mod RoundTrip
use xupeng.Prelude.{
  ℕ, zero, suc, ◌+◌, ◌-◌, ◌*◌, ◌/◌, ◌%◌, ◌^◌, bit_and, bit_or, bit_xor, List, [], ◌∷◌, Option, none,
  some, leb, ltb, if◌then◌else◌,
}
use xupeng.Prelude.Int.{ℤ, pos, negsuc}
use xupeng.Prelude.Outcome.{Outcome, ok, faults, ◌>>=◌}
use xupeng.ByteArray.{ByteArray, Endian, write}
use xupeng.ByteArray.Fixed.{read_fuint8, of_word}

abbrev pub push {ℓ} : {A : Type ℓ} → A → Option (List A) → Option (List A)
push x none = none
push x (some xs) = some (x ∷ xs)

-- The bytes put in `tmp` by the loop of `writeUint32` and `writeUint64`; `none` is a write past
-- the end of `tmp`, which has `slots` places.
pub put_loop : ℕ → ℕ → Option (List ℕ)
put_loop zero value = none
put_loop (suc slots) value =
    let more = push (bit_or (bit_and value 0x7f) 0x80) (put_loop slots (value / 128)) in
    if leb 0x80 value then more else some (value % 256 ∷ [])

put_bytes : ByteArray → Option (List ℕ) → Outcome ByteArray
put_bytes b none = faults
put_bytes b (some bytes) = write b bytes

pub write_uint32 : ByteArray → ℕ → Outcome ByteArray
unfolding put_bytes
write_uint32 b value = put_bytes b (put_loop 5 value)

pub write_uint64 : ByteArray → ℕ → Outcome ByteArray
unfolding put_bytes
write_uint64 b value = put_bytes b (put_loop 10 value)

module _ (host : Endian) where
  -- The loop of `readUint32` and `readUint64` on words of `w` bits, `rounds` rounds before its end.
  pub get_loop : ℕ → ℕ → ℕ → ℕ → ByteArray → Outcome (ℕ × ByteArray)
  get_loop w zero i result b = ok (result, b)
  get_loop w (suc rounds) i result b = do
    (x, b') ← read_fuint8 host b
    let more = get_loop w rounds (i + 7) (bit_or result (bit_and x 0x7f * 2 ^ i % 2 ^ w)) b'
    if ltb x 0x80 then ok (bit_or result (x * 2 ^ i % 2 ^ w), b') else more

  -- `for (int i = 0; i < 32; i += 7)` makes 5 rounds, and up to 64 it makes 10.
  pub read_uint32 : ByteArray → Outcome (ℕ × ByteArray)
  read_uint32 b = get_loop 32 5 0 0 b

  pub read_uint64 : ByteArray → Outcome (ℕ × ByteArray)
  read_uint64 b = get_loop 64 10 0 0 b

pub encode_zigzag32 : ℤ → ℕ
encode_zigzag32 (pos n) = n * 2 % 2 ^ 32
encode_zigzag32 (negsuc n) = ((n + 1) % 2 ^ 32 * 2 + 2 ^ 32 - 1) % 2 ^ 32

-- It returns a uint32_t.
pub encode_zigzag64 : ℤ → ℕ
encode_zigzag64 (pos n) = n * 2 % 2 ^ 64 % 2 ^ 32
encode_zigzag64 (negsuc n) = ((n + 1) % 2 ^ 64 * 2 + 2 ^ 64 - 1) % 2 ^ 64 % 2 ^ 32

pub decode_zigzag32 : ℕ → ℤ
decode_zigzag32 v = of_word 32 (bit_xor (v / 2) ((2 ^ 32 - bit_and v 1) % 2 ^ 32))

pub decode_zigzag64 : ℕ → ℤ
decode_zigzag64 v = of_word 64 (bit_xor (v / 2) ((2 ^ 64 - bit_and v 1) % 2 ^ 64))

pub write_int32 : ByteArray → ℤ → Outcome ByteArray
write_int32 b value = write_uint32 b (encode_zigzag32 value)

pub write_int64 : ByteArray → ℤ → Outcome ByteArray
write_int64 b value = write_uint64 b (encode_zigzag64 value)

pub read_int32 : Endian → ByteArray → Outcome (ℤ × ByteArray)
read_int32 host b = do (v, b') ← read_uint32 host b; ok (decode_zigzag32 v, b')

pub read_int64 : Endian → ByteArray → Outcome (ℤ × ByteArray)
read_int64 host b = do (v, b') ← read_uint64 host b; ok (decode_zigzag64 v, b')
