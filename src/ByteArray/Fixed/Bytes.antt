-- ===== src/ByteArray/Fixed/Bytes.antt =====
-- Values and their bytes: `le_bytes` and `of_le_bytes` undo each other, and the bytes of an object
-- that `in_order` has prepared do not depend on the machine.
use xupeng.Prelude.{
  ℕ, zero, suc, ◌+◌, ◌*◌, ◌/◌, ◌%◌, ◌^◌, ◌<◌, ◌≡◌, refl, ap, ◌∙◌, List, [], ◌∷◌, reverse, length,
  length-reverse, All, All-append, arith,
}
use xupeng.ByteArray.{ByteArray, Endian, little, big}
use xupeng.ByteArray.Fixed.{
  le_bytes, of_le_bytes, object_bytes, of_object_bytes, byteswap, in_order,
}
use mathlib.Core.List.{reverse-reverse, reverse-cons}
use native.Mathlib.Nat.{pow-suc}

abbrev pub IsByte : ℕ → Type 0
IsByte b = b < 256

pub length-le_bytes : (n v : ℕ) → length (le_bytes n v) ≡ n
length-le_bytes zero v = refl
length-le_bytes (suc n) v = ap suc (length-le_bytes n (v / 256))

pub le_bytes-IsByte : (n v : ℕ) → All IsByte (le_bytes n v)
le_bytes-IsByte zero v = tt
le_bytes-IsByte (suc n) v = (omega arith, le_bytes-IsByte n (v / 256))

pub of_le_bytes-le_bytes : (n v : ℕ) → v < 256 ^ n → of_le_bytes (le_bytes n v) ≡ v
of_le_bytes-le_bytes zero v h = omega arith
of_le_bytes-le_bytes (suc n) v h =
    omega (arith, of_le_bytes-le_bytes n (v / 256) (omega (arith, pow-suc 256 n)))

pub le_bytes-of_le_bytes :
    (n : ℕ) (bs : List ℕ) → length bs ≡ n → All IsByte bs → le_bytes n (of_le_bytes bs) ≡ bs
le_bytes-of_le_bytes zero [] e h = refl
le_bytes-of_le_bytes (suc n) [] e h = absurd (omega arith)
le_bytes-of_le_bytes zero (b ∷ bs) e h = absurd (omega arith)
le_bytes-of_le_bytes (suc n) (b ∷ bs) e h =
    let head : (b + 256 * of_le_bytes bs) % 256 ≡ b = omega (arith, h.0) in
    let tail : (b + 256 * of_le_bytes bs) / 256 ≡ of_le_bytes bs = omega (arith, h.0) in
    rw (head, tail, le_bytes-of_le_bytes n bs (omega arith) h.1)

pub of_le_bytes-lt : (bs : List ℕ) → All IsByte bs → of_le_bytes bs < 256 ^ length bs
of_le_bytes-lt [] h = omega arith
of_le_bytes-lt (b ∷ bs) h = omega (arith, of_le_bytes-lt bs h.1, h.0, pow-suc 256 (length bs))

pub All-reverse : (bs : List ℕ) → All IsByte bs → All IsByte (reverse bs)
All-reverse [] h = tt
All-reverse (b ∷ bs) h =
    rw reverse-cons (All-append IsByte (reverse bs) (b ∷ []) (All-reverse bs h.1) (h.0, tt))

le_bytes-byteswap : (n v : ℕ) → le_bytes n (byteswap n v) ≡ reverse (le_bytes n v)
unfolding byteswap
le_bytes-byteswap n v =
    le_bytes-of_le_bytes n (reverse (le_bytes n v))
      (length-reverse (le_bytes n v) ∙ length-le_bytes n v)
      (All-reverse (le_bytes n v) (le_bytes-IsByte n v))

-- Whatever the machine, the bytes stored are those of the array's endianness.
pub object_bytes-in_order :
    (host : Endian) (b : ByteArray) (n v : ℕ)
    → object_bytes host n (in_order host b n v) ≡ object_bytes b.endian n v
object_bytes-in_order host b n v = by_endian host b.endian refl
  where
    by_endian :
        (h e : Endian) → b.endian ≡ e → object_bytes h n (in_order h b n v) ≡ object_bytes e n v
    by_endian little little eq = unfold in_order object_bytes in rw eq
    by_endian big big eq = unfold in_order object_bytes in rw eq
    by_endian little big eq = unfold in_order object_bytes in rw eq (le_bytes-byteswap n v)
    by_endian big little eq =
        unfold in_order object_bytes in rw (eq, le_bytes-byteswap n v, reverse-reverse)

pub length-object_bytes : (e : Endian) (n v : ℕ) → length (object_bytes e n v) ≡ n
unfolding object_bytes
length-object_bytes little n v = length-le_bytes n v
length-object_bytes big n v = length-reverse (le_bytes n v) ∙ length-le_bytes n v

pub byteswap_bytes : (n v : ℕ) → byteswap n v ≡ of_le_bytes (reverse (le_bytes n v))
unfolding byteswap
byteswap_bytes n v = refl

pub byteswap-lt : (n v : ℕ) → byteswap n v < 256 ^ n
byteswap-lt n v =
    let bs = le_bytes n v in
    let lengths : length (reverse bs) ≡ n = length-reverse bs ∙ length-le_bytes n v in
    let lt = of_le_bytes-lt (reverse bs) (All-reverse bs (le_bytes-IsByte n v)) in
    rw byteswap_bytes (omega (arith, lt, ap (λ (t : ℕ). 256 ^ t) lengths))

pub byteswap-byteswap : (n v : ℕ) → v < 256 ^ n → byteswap n (byteswap n v) ≡ v
byteswap-byteswap n v h =
    byteswap_bytes n (byteswap n v)
    ∙ ap (λ (bs : List ℕ). of_le_bytes (reverse bs)) (le_bytes-byteswap n v)
    ∙ rw reverse-reverse (of_le_bytes-le_bytes n v h)

pub of_object_bytes-object_bytes :
    (host : Endian) (n v : ℕ) → v < 256 ^ n → of_object_bytes host (object_bytes host n v) ≡ v
unfolding object_bytes of_object_bytes
of_object_bytes-object_bytes little n v h = of_le_bytes-le_bytes n v h
of_object_bytes-object_bytes big n v h = rw reverse-reverse (of_le_bytes-le_bytes n v h)

-- And reading puts the value together again.
pub in_order-of_object_bytes :
    (host : Endian) (b : ByteArray) (n v : ℕ)
    → v < 256 ^ n
    → in_order host b n (of_object_bytes host (object_bytes b.endian n v)) ≡ v
in_order-of_object_bytes host b n v h = by_endian host b.endian refl
  where
    by_endian :
        (k e : Endian) → b.endian ≡ e → in_order k b n (of_object_bytes k (object_bytes e n v)) ≡ v
    by_endian little little eq =
        unfold in_order object_bytes of_object_bytes in rw eq (of_le_bytes-le_bytes n v h)
    by_endian big big eq =
        unfold in_order object_bytes of_object_bytes in
        rw (eq, reverse-reverse) (of_le_bytes-le_bytes n v h)
    by_endian little big eq =
        unfold in_order object_bytes of_object_bytes in
        rw eq (unfold byteswap in byteswap-byteswap n v h)
    by_endian big little eq =
        unfold in_order object_bytes of_object_bytes in
        rw eq (unfold byteswap in byteswap-byteswap n v h)
