-- ===== src/ByteArray/Fixed/RoundTrip.antt =====
-- Fixed-width integers, written and read back.
use xupeng.Prelude.{
  ℕ, suc, ◌+◌, ◌-◌, ◌%◌, ◌^◌, ◌<◌, ◌≡◌, List, [], ◌∷◌, drop, length, lt→ltb, le→ltb, arith,
}
use xupeng.Prelude.Int.{ℤ, pos, negsuc, InRange}
use xupeng.Prelude.Outcome.{Outcome, ok, throws, faults, ◌>>=◌}
use xupeng.ByteArray.{ByteArray, Endian, little, big, read, set_position}
use xupeng.ByteArray.Invariant.{IsValid, contents}
use xupeng.ByteArray.Writing.{splice, write-Writes}
use xupeng.ByteArray.RoundTrip.{Backed, Rewound, write-Rewound}
use xupeng.ByteArray.Serving.{Serves, Serves-Served}
use xupeng.ByteArray.Fixed.{
  object_bytes, of_object_bytes, write_fixed, read_fixed, write_fuint8, read_fuint8, to_word,
  of_word, signed, write_fint8, read_fint8, write_fint16, read_fint16, write_fint32, read_fint32,
  write_fint64, read_fint64,
}
use xupeng.ByteArray.Fixed.Bytes.{
  length-object_bytes, object_bytes-in_order, in_order-of_object_bytes,
}
use native.Mathlib.Nat.{pow-suc, mod-eq_of_lt, mod-lt, one-le-pow}

-- A write after which the cursor is moved back to where it began.
abbrev pub rewind : ByteArray → Outcome ByteArray → Outcome ByteArray
rewind b m = m >>= λ b'. set_position b' b.position

-- On a valid byte array and on every machine, a write of an unsigned integer of `n` bytes stores its bytes in the order of
-- the array, highest first for a big-endian array, at the cursor.
pub write_fixed-splice :
    (host : Endian) (n v : ℕ) (b : ByteArray)
    → IsValid b
    → (b' : ByteArray) × (write_fixed host n b v ≡ ok b')
      × IsValid b'
      × (contents b' ≡ splice (contents b) b.position (object_bytes b.endian n v))
unfolding write_fixed
write_fixed-splice host n v b valid = rw (object_bytes-in_order host b n v) (
    let w = write-Writes b (object_bytes b.endian n v) valid in
    (w.result, w.runs, w.written.valid, w.written.bytes))

-- A source that has the bytes of `v` next gives `v`.
pub read_fixed-Serves :
    (host e : Endian) (n v : ℕ) (rest : List ℕ) (b : ByteArray)
    → 0 < n
    → v < 256 ^ n
    → Serves e (object_bytes e n v) rest b
    → (b' : ByteArray) × (read_fixed host n b ≡ ok (v, b'))
      × Serves e [] rest b'
      × (b'.position ≡ b.position + n)
      × (b'.capacity ≡ b.capacity)
unfolding read_fixed
read_fixed-Serves host e n v rest b some_bytes h s =
    let len = length-object_bytes e n v in
    let t = Serves-Served e (object_bytes e n v) rest b (omega (arith, len)) s in
    let runs : read b n ≡ ok (object_bytes e n v, t.result) = rw len at t.runs in
    (
      t.result,
      rw runs (rw (← s.endian_eq) (rw (in_order-of_object_bytes host b n v h))),
      t.left,
      omega (arith, t.position_eq, len),
      t.same_capacity,
    )

pub Backed-Serves :
    (b : ByteArray) (bs : List ℕ) (b' : ByteArray) (r : Backed b bs b')
    → Serves b.endian bs (drop (b.position + length bs) (contents b)) r.result
Backed-Serves b bs b' r = record { valid = r.valid; bytes = r.bytes; endian_eq = r.same_endian }

pub Rewound-Serves :
    (b : ByteArray) (bs : List ℕ) (r : Rewound b bs)
    → Serves b.endian bs (drop (b.position + length bs) (contents b)) r.result
Rewound-Serves b bs r = record { valid = r.valid; bytes = r.bytes; endian_eq = r.same_endian }

-- On a valid byte array, a value below 256 ^ n written as an unsigned integer of `n` > 0 bytes is
-- read back, with the cursor moved back to where the write began, on a machine of either byte order
-- and for an array of either.
pub read_fixed-write_fixed :
    (host : Endian) (n v : ℕ) (b : ByteArray)
    → IsValid b
    → 0 < n
    → v < 256 ^ n
    → (b' : ByteArray) × ((rewind b (write_fixed host n b v) >>= read_fixed host n) ≡ ok (v, b'))
      × IsValid b'
unfolding write_fixed
read_fixed-write_fixed host n v b valid some_bytes h =
    let bs = object_bytes b.endian n v in
    let w = write-Rewound b bs valid in
    let (b', runs, s, _, _) =
      read_fixed-Serves host b.endian n v _ w.result some_bytes h (Rewound-Serves b bs w) in
    (b', rw (object_bytes-in_order host b n v, w.writes, w.moves) runs, s.valid)

-- One byte.
pub read_fuint8-Serves :
    (host e : Endian) (v : ℕ) (rest : List ℕ) (b : ByteArray)
    → Serves e (v ∷ []) rest b
    → (b' : ByteArray) × (read_fuint8 host b ≡ ok (v, b')) × Serves e [] rest b'
unfolding read_fuint8
read_fuint8-Serves host e v rest b s =
    let t = Serves-Served e (v ∷ []) rest b (omega arith) s in
    (t.result, rw t.runs (by_host host t.result), t.left)
  where
    by_host :
        (h : Endian) (b' : ByteArray)
        → ◌≡◌ {A = Outcome (ℕ × ByteArray)} (ok (of_object_bytes h (v ∷ []), b')) (ok (v, b'))
    by_host little b' = unfold of_object_bytes in ground arith
    by_host big b' = unfold of_object_bytes in ground arith

one_byte : (host : Endian) (v : ℕ) → v < 256 → object_bytes host 1 v ≡ v ∷ []
unfolding object_bytes
one_byte little v h = rw (mod-eq_of_lt h)
one_byte big v h = rw (mod-eq_of_lt h)

pub read_fuint8-write_fuint8 :
    (host : Endian) (v : ℕ) (b : ByteArray)
    → IsValid b
    → v < 256
    → (b' : ByteArray) × ((rewind b (write_fuint8 host b v) >>= read_fuint8 host) ≡ ok (v, b'))
unfolding write_fuint8
read_fuint8-write_fuint8 host v b valid h =
    let w = write-Rewound b (v ∷ []) valid in
    let (b', runs, s) =
      read_fuint8-Serves host b.endian v _ w.result (Rewound-Serves b (v ∷ []) w) in
    (b', rw (one_byte host v h, w.writes, w.moves) runs)

-- A signed integer in the range of its width is the integer of its pattern.
of_word-to_word : (w : ℕ) (z : ℤ) → InRange (2 ^ w) z → of_word (suc w) (to_word (suc w) z) ≡ z
of_word-to_word w (pos n) h =
    let fits : n % 2 ^ suc w ≡ n = mod-eq_of_lt (omega (arith, pow-suc 2 w)) in
    let half : suc w - 1 ≡ w = omega arith in rw (fits, half, lt→ltb n (2 ^ w) h)
of_word-to_word w (negsuc n) h =
    let fits : n % 2 ^ suc w ≡ n = mod-eq_of_lt (omega (arith, pow-suc 2 w)) in
    let half : suc w - 1 ≡ w = omega arith in
    let back : 2 ^ suc w - 1 - (2 ^ suc w - 1 - n) ≡ n = omega (arith, pow-suc 2 w) in
    rw (fits, half, le→ltb (2 ^ suc w - 1 - n) (2 ^ w) (omega (arith, pow-suc 2 w)), back)

to_word-lt : (w : ℕ) (z : ℤ) → to_word w z < 2 ^ w
to_word-lt w (pos n) = mod-lt n (one-le-pow w 2 (omega arith))
to_word-lt w (negsuc n) = omega (arith, one-le-pow w 2 (omega arith))

trip :
    (w : ℕ) (z : ℤ) (m : Outcome ByteArray) (f : ByteArray → Outcome (ℕ × ByteArray))
    (b' : ByteArray)
    → InRange (2 ^ w) z
    → (m >>= f) ≡ ok (to_word (suc w) z, b')
    → (m >>= λ b. signed (suc w) (f b)) ≡ ok (z, b')
unfolding signed
trip w z (ok b) f b' h e = rw (e, of_word-to_word w z h)
trip w z throws f b' h e = cc
trip w z faults f b' h e = cc

-- On a valid byte array every signed integer of 8, 16, 32 and 64 bits is read back as it was
-- written, once the cursor is back where the write began, whatever the machine's byte order and the
-- array's.
pub read_fint-write_fint :
    (host : Endian) (b : ByteArray) (z8 z16 z32 z64 : ℤ)
    → IsValid b
    → InRange (2 ^ 7) z8
    → InRange (2 ^ 15) z16
    → InRange (2 ^ 31) z32
    → InRange (2 ^ 63) z64
    → ((b' : ByteArray) × ((rewind b (write_fint8 host b z8) >>= read_fint8 host) ≡ ok (z8, b')))
      × ((b' : ByteArray) × ((rewind b (write_fint16 host b z16) >>= read_fint16 host)
            ≡ ok (z16, b')))
      × ((b' : ByteArray) × ((rewind b (write_fint32 host b z32) >>= read_fint32 host)
            ≡ ok (z32, b')))
      × ((b' : ByteArray) × ((rewind b (write_fint64 host b z64) >>= read_fint64 host)
            ≡ ok (z64, b')))
unfolding write_fint8 read_fint8 write_fint16 read_fint16 write_fint32 read_fint32 write_fint64
    read_fint64
read_fint-write_fint host b z8 z16 z32 z64 valid h8 h16 h32 h64 = (
  let (b', e) = read_fuint8-write_fuint8 host (to_word 8 z8) b valid (to_word-lt 8 z8) in
      (b', trip 7 z8 _ _ b' h8 e),
  let (b', e, _) =
        read_fixed-write_fixed host 2 (to_word 16 z16) b valid (omega arith) (to_word-lt 16 z16) in
      (b', trip 15 z16 _ _ b' h16 e),
  let (b', e, _) =
        read_fixed-write_fixed host 4 (to_word 32 z32) b valid (omega arith) (to_word-lt 32 z32) in
      (b', trip 31 z32 _ _ b' h32 e),
  let (b', e, _) =
        read_fixed-write_fixed host 8 (to_word 64 z64) b valid (omega arith) (to_word-lt 64 z64) in
      (b', trip 63 z64 _ _ b' h64 e),
)
