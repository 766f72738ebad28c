-- ===== src/ByteArray/Fixed.antt =====
-- The fixed-width integers: bytearray.cc's write/readF(u)int8..64, with endian.h's `byteswap`.
-- An unsigned integer is its value; an object is stored as its bytes in the order of the machine
-- that runs the code, `host`.
pub mod Bytes
pub mod RoundTrip
use xupeng.Prelude.{
  ℕ, zero, suc, ◌+◌, ◌-◌, ◌*◌, ◌/◌, ◌%◌, ◌^◌, Bool, true, false, List, [], ◌∷◌, reverse, ltb,
  if◌then◌else◌,
}
use xupeng.Prelude.Outcome.{Outcome, ok, ◌>>=◌}
use xupeng.Prelude.Int.{ℤ, pos, negsuc}
use xupeng.ByteArray.{ByteArray, Endian, little, big, write, read}

-- The bytes of a value, lowest first, and the value of such bytes.
abbrev pub le_bytes : ℕ → ℕ → List ℕ
le_bytes zero v = []
le_bytes (suc n) v = v % 256 ∷ le_bytes n (v / 256)

abbrev pub of_le_bytes : List ℕ → ℕ
of_le_bytes [] = 0
of_le_bytes (b ∷ bs) = b + 256 * of_le_bytes bs

-- The bytes of an object of `n` bytes in memory.
unfoldable pub object_bytes : Endian → ℕ → ℕ → List ℕ
object_bytes little n v = le_bytes n v
object_bytes big n v = reverse (le_bytes n v)

pub of_object_bytes : Endian → List ℕ → ℕ
of_object_bytes little bs = of_le_bytes bs
of_object_bytes big bs = of_le_bytes (reverse bs)

-- `bswap_16`, `bswap_32` and `bswap_64`: the bytes of the value, reversed.
pub byteswap : ℕ → ℕ → ℕ
byteswap n v = of_le_bytes (reverse (le_bytes n v))

abbrev pub same_endian : Endian → Endian → Bool
same_endian little little = true
same_endian big big = true
same_endian _ _ = false

-- `if (m_endian != PENG_BYTE_ORDER) value = byteswap(value)`.
pub in_order : Endian → ByteArray → ℕ → ℕ → ℕ
in_order host b n v = if same_endian b.endian host then v else byteswap n v

module _ (host : Endian) where
  unfoldable pub write_fixed : ℕ → ByteArray → ℕ → Outcome ByteArray
  write_fixed n b v = write b (object_bytes host n (in_order host b n v))

  unfoldable pub read_fixed : ℕ → ByteArray → Outcome (ℕ × ByteArray)
  read_fixed n b = do
    (bytes, b') ← read b n
    ok (in_order host b n (of_object_bytes host bytes), b')

  pub write_fuint8 : ByteArray → ℕ → Outcome ByteArray
  write_fuint8 b v = write b (object_bytes host 1 v)

  pub read_fuint8 : ByteArray → Outcome (ℕ × ByteArray)
  read_fuint8 b = do (bytes, b') ← read b 1; ok (of_object_bytes host bytes, b')

  unfoldable pub write_fuint16 : ByteArray → ℕ → Outcome ByteArray
  write_fuint16 = write_fixed 2

  unfoldable pub write_fuint32 : ByteArray → ℕ → Outcome ByteArray
  write_fuint32 = write_fixed 4

  unfoldable pub write_fuint64 : ByteArray → ℕ → Outcome ByteArray
  write_fuint64 = write_fixed 8

  unfoldable pub read_fuint16 : ByteArray → Outcome (ℕ × ByteArray)
  read_fuint16 = read_fixed 2

  unfoldable pub read_fuint32 : ByteArray → Outcome (ℕ × ByteArray)
  read_fuint32 = read_fixed 4

  unfoldable pub read_fuint64 : ByteArray → Outcome (ℕ × ByteArray)
  read_fuint64 = read_fixed 8

-- The two's complement pattern of a signed integer of `w` bits, and the integer of a pattern.
abbrev pub to_word : ℕ → ℤ → ℕ
to_word w (pos n) = n % 2 ^ w
to_word w (negsuc n) = 2 ^ w - 1 - n % 2 ^ w

abbrev pub of_word : ℕ → ℕ → ℤ
of_word w v = if ltb v (2 ^ (w - 1)) then pos v else negsuc (2 ^ w - 1 - v)

pub signed : ℕ → Outcome (ℕ × ByteArray) → Outcome (ℤ × ByteArray)
signed w m = do (v, b) ← m; ok (of_word w v, b)

module _ (host : Endian) where
  pub write_fint8 : ByteArray → ℤ → Outcome ByteArray
  write_fint8 b v = write_fuint8 host b (to_word 8 v)

  pub write_fint16 : ByteArray → ℤ → Outcome ByteArray
  write_fint16 b v = write_fixed host 2 b (to_word 16 v)

  pub write_fint32 : ByteArray → ℤ → Outcome ByteArray
  write_fint32 b v = write_fixed host 4 b (to_word 32 v)

  pub write_fint64 : ByteArray → ℤ → Outcome ByteArray
  write_fint64 b v = write_fixed host 8 b (to_word 64 v)

  pub read_fint8 : ByteArray → Outcome (ℤ × ByteArray)
  read_fint8 b = signed 8 (read_fuint8 host b)

  pub read_fint16 : ByteArray → Outcome (ℤ × ByteArray)
  read_fint16 b = signed 16 (read_fixed host 2 b)

  pub read_fint32 : ByteArray → Outcome (ℤ × ByteArray)
  read_fint32 b = signed 32 (read_fixed host 4 b)

  pub read_fint64 : ByteArray → Outcome (ℤ × ByteArray)
  read_fint64 b = signed 64 (read_fixed host 8 b)
