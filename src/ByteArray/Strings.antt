-- ===== src/ByteArray/Strings.antt =====
-- bytearray.cc's strings with a length in front (F16, F32, F64, Vint) and floats. `std::string`
-- is a list of bytes; a float is its bit pattern.
use xupeng.Prelude.{ℕ, ◌+◌, ◌%◌, ◌^◌, ◌<◌, ◌≡◌, List, ◌++◌, length, arith}
use xupeng.Prelude.Outcome.{Outcome, ok, faults, ◌>>=◌}
use xupeng.ByteArray.{ByteArray, Endian, write, read}
use xupeng.ByteArray.Invariant.{IsValid}
use xupeng.ByteArray.Writing.{write-Writes, Written, Written-append}
use xupeng.ByteArray.Reading.{read_zero-faults}
use xupeng.ByteArray.RoundTrip.{Written-Backed}
use xupeng.ByteArray.Serving.{Serves, Serves-Served, Serves-cut, Serves-next}
use xupeng.ByteArray.Fixed.{
  object_bytes, write_fixed, read_fixed, write_fuint16, read_fuint16, write_fuint32, read_fuint32,
  write_fuint64, read_fuint64,
}
use xupeng.ByteArray.Fixed.Bytes.{object_bytes-in_order}
use xupeng.ByteArray.Fixed.RoundTrip.{read_fixed-Serves, rewind, Backed-Serves}

module _ (host : Endian) where
  pub write_float : ByteArray → ℕ → Outcome ByteArray
  write_float = write_fuint32 host

  pub write_double : ByteArray → ℕ → Outcome ByteArray
  write_double = write_fuint64 host

  pub read_float : ByteArray → Outcome (ℕ × ByteArray)
  read_float = read_fuint32 host

  pub read_double : ByteArray → Outcome (ℕ × ByteArray)
  read_double = read_fuint64 host

  -- `value.size()`, cut to the width of the length, and the bytes.
  pub write_string_f16 : ByteArray → List ℕ → Outcome ByteArray
  write_string_f16 b value = do b' ← write_fuint16 host b (length value % 2 ^ 16); write b' value

  pub write_string_f32 : ByteArray → List ℕ → Outcome ByteArray
  write_string_f32 b value = do b' ← write_fuint32 host b (length value % 2 ^ 32); write b' value

  pub write_string_f64 : ByteArray → List ℕ → Outcome ByteArray
  write_string_f64 b value = do b' ← write_fuint64 host b (length value % 2 ^ 64); write b' value

  -- It stores a fixed length too.
  pub write_string_vint : ByteArray → List ℕ → Outcome ByteArray
  write_string_vint b value = do b' ← write_fuint64 host b (length value % 2 ^ 64); write b' value

  pub read_string_f16 : ByteArray → Outcome (List ℕ × ByteArray)
  read_string_f16 b = do (len, b') ← read_fuint16 host b; read b' len

  pub read_string_f32 : ByteArray → Outcome (List ℕ × ByteArray)
  read_string_f32 b = do (len, b') ← read_fuint32 host b; read b' len

  pub read_string_f64 : ByteArray → Outcome (List ℕ × ByteArray)
  read_string_f64 b = do (len, b') ← read_fuint64 host b; read b' len

  pub read_string_vint : ByteArray → Outcome (List ℕ × ByteArray)
  read_string_vint b = do (len, b') ← read_fuint64 host b; read b' len

pub write_string_without_length : ByteArray → List ℕ → Outcome ByteArray
write_string_without_length b value = write b value

-- The general form: a length of `n` bytes, and the string.
write_string : Endian → ℕ → ByteArray → List ℕ → Outcome ByteArray
write_string host n b value = do b' ← write_fixed host n b (length value); write b' value

read_string : Endian → ℕ → ByteArray → Outcome (List ℕ × ByteArray)
read_string host n b = do (len, b') ← read_fixed host n b; read b' len

write_string-Written :
    (host : Endian) (n : ℕ) (b : ByteArray) (value : List ℕ)
    → IsValid b
    → (b' : ByteArray) × (write_string host n b value ≡ ok b')
      × Written b (object_bytes b.endian n (length value) ++ value) b'
unfolding write_string write_fixed
write_string-Written host n b value v =
    let bs = object_bytes b.endian n (length value) in
    let x = write-Writes b bs v in
    let y = write-Writes x.result value x.written.valid in
    (
      y.result,
      rw (object_bytes-in_order host b n (length value), x.runs, y.runs),
      Written-append b bs value x.result y.result v x.written y.written,
    )

read_string-Serves :
    (host e : Endian) (n : ℕ) (value rest : List ℕ) (b : ByteArray)
    → 0 < n
    → 0 < length value
    → length value < 256 ^ n
    → Serves e (object_bytes e n (length value) ++ value) rest b
    → (b' : ByteArray) × (read_string host n b ≡ ok (value, b'))
unfolding read_string
read_string-Serves host e n value rest b some_length some_bytes h s =
    let (b₁, runs, s₁, at, cap) =
      read_fixed-Serves host e n (length value) (value ++ rest) b some_length h
        (Serves-cut e (object_bytes e n (length value)) value rest b s) in
    let t = Serves-Served e value rest b₁ some_bytes (Serves-next e value rest b₁ s₁) in
    (t.result, rw (runs, t.runs))

read_string-write_string :
    (host : Endian) (n : ℕ) (b : ByteArray) (value : List ℕ)
    → IsValid b
    → 0 < n
    → 0 < length value
    → length value < 256 ^ n
    → (b' : ByteArray) × ((rewind b (write_string host n b value) >>= read_string host n)
        ≡ ok (value, b'))
read_string-write_string host n b value v some_length some_bytes h =
    let (b₁, writes, w) = write_string-Written host n b value v in
    let back = Written-Backed b _ b₁ v w in
    let (b', reads) =
      read_string-Serves host b.endian n value _ back.result some_length some_bytes h
        (Backed-Serves b _ b₁ back) in
    (b', rw (writes, back.moves) reads)

-- On a valid byte array every string of 1 to 2 ^ 16 - 1 bytes is read back as it was written, once
-- the cursor is back where the write began, in each of the formats F16, F32, F64 and Vint.
pub read_string-write_string_all :
    (host : Endian) (b : ByteArray) (value : List ℕ)
    → IsValid b
    → 0 < length value
    → length value < 2 ^ 16
    → ((b' : ByteArray) × ((rewind b (write_string_f16 host b value) >>= read_string_f16 host)
          ≡ ok (value, b')))
      × ((b' : ByteArray) × ((rewind b (write_string_f32 host b value) >>= read_string_f32 host)
            ≡ ok (value, b')))
      × ((b' : ByteArray) × ((rewind b (write_string_f64 host b value) >>= read_string_f64 host)
            ≡ ok (value, b')))
      × ((b' : ByteArray) × ((rewind b (write_string_vint host b value) >>= read_string_vint host)
            ≡ ok (value, b')))
unfolding write_string_f16 write_string_f32 write_string_f64 write_string_vint read_string_f16
    read_string_f32 read_string_f64 read_string_vint write_fuint16 write_fuint32 write_fuint64
    read_fuint16 read_fuint32 read_fuint64 write_string read_string
read_string-write_string_all host b value v some_bytes h =
    let size16 : length value % 2 ^ 16 ≡ length value = omega arith in
    let size32 : length value % 2 ^ 32 ≡ length value = omega arith in
    let size64 : length value % 2 ^ 64 ≡ length value = omega arith in
    (
      rw size16 (read_string-write_string host 2 b value v (omega arith) some_bytes (omega arith)),
      rw size32 (read_string-write_string host 4 b value v (omega arith) some_bytes (omega arith)),
      rw size64 (read_string-write_string host 8 b value v (omega arith) some_bytes (omega arith)),
      rw size64 (read_string-write_string host 8 b value v (omega arith) some_bytes (omega arith)),
    )

-- When the next two bytes are the length 0 in the array's order and end exactly at the capacity,
-- `readStringF16` dereferences null: `read` of no bytes looks at the node of the cursor.
pub read_string_f16-faults :
    (host e : Endian) (rest : List ℕ) (b : ByteArray)
    → Serves e (object_bytes e 2 0) rest b
    → b.position + 2 ≡ b.capacity
    → read_string_f16 host b ≡ faults
unfolding read_string_f16 read_fuint16
read_string_f16-faults host e rest b s full =
    let (b₁, runs, s₁, at, cap) =
      read_fixed-Serves host e 2 0 rest b (omega arith) (omega arith) s in
    rw runs (read_zero-faults b₁ s₁.valid (omega (arith, at, cap, full)))
