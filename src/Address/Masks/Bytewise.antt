-- ===== src/Address/Masks/Bytewise.antt =====
-- `|`, `&` and `^` work byte by byte, so they commute with `byteswapOnLittleEndian`.
use xupeng.Prelude.{
  ℕ, zero, suc, ◌+◌, ◌*◌, ◌/◌, ◌%◌, ◌<◌, ◌≡◌, refl, sym, ap, ◌∙◌, List, [], ◌∷◌, ◌++◌, reverse,
  length, length-reverse, All, bit_or, bit_and, bit_xor, arith,
}
use xupeng.Prelude.Masks.{
  bit_or-parts, bit_and-parts, bit_xor-parts, bit_or-lt, bit_and-lt, bit_xor-lt,
}
use xupeng.ByteArray.{Endian, little, big}
use xupeng.ByteArray.Fixed.{le_bytes, of_le_bytes, byteswap}
use xupeng.ByteArray.Fixed.Bytes.{
  IsByte, length-le_bytes, le_bytes-IsByte, All-reverse, byteswap_bytes,
}
use xupeng.Address.{byteswap_on_little_endian}
use mathlib.Core.List.{reverse-cons}

module _ (op : ℕ → ℕ → ℕ)
    (op-parts : (q p r s : ℕ)
      → r < 256
      → s < 256
      → op (q * 256 + r) (p * 256 + s) ≡ op q p * 256 + op r s)
    (op-lt : (r s : ℕ) → r < 256 → s < 256 → op r s < 256) (op-zero : op 0 0 ≡ 0) where
  abbrev each : List ℕ → List ℕ → List ℕ
  each [] ys = []
  each (x ∷ xs) [] = []
  each (x ∷ xs) (y ∷ ys) = op x y ∷ each xs ys

  le_bytes-op : (n x y : ℕ) → le_bytes n (op x y) ≡ each (le_bytes n x) (le_bytes n y)
  le_bytes-op zero x y = refl
  le_bytes-op (suc n) x y =
      let ex : x ≡ x / 256 * 256 + x % 256 = omega arith in
      let ey : y ≡ y / 256 * 256 + y % 256 = omega arith in
      let parts : op x y ≡ op (x / 256) (y / 256) * 256 + op (x % 256) (y % 256) =
        ap (λ (t : ℕ). op t y) ex
        ∙ ap (λ (t : ℕ). op (x / 256 * 256 + x % 256) t) ey
        ∙ op-parts (x / 256) (y / 256) (x % 256) (y % 256) (omega arith) (omega arith) in
      let lt = op-lt (x % 256) (y % 256) (omega arith) (omega arith) in
      let low : op x y % 256 ≡ op (x % 256) (y % 256) = omega (arith, parts, lt) in
      let high : op x y / 256 ≡ op (x / 256) (y / 256) = omega (arith, parts, lt) in
      rw (low, high, le_bytes-op n (x / 256) (y / 256)) refl

  of_le_bytes-each :
      (xs ys : List ℕ)
      → length xs ≡ length ys
      → All IsByte xs
      → All IsByte ys
      → of_le_bytes (each xs ys) ≡ op (of_le_bytes xs) (of_le_bytes ys)
  of_le_bytes-each [] [] e hx hy = sym op-zero
  of_le_bytes-each [] (y ∷ ys) e hx hy = absurd (omega arith)
  of_le_bytes-each (x ∷ xs) [] e hx hy = absurd (omega arith)
  of_le_bytes-each (x ∷ xs) (y ∷ ys) e hx hy =
      let ex : x + 256 * of_le_bytes xs ≡ of_le_bytes xs * 256 + x = omega arith in
      let ey : y + 256 * of_le_bytes ys ≡ of_le_bytes ys * 256 + y = omega arith in
      let ih = of_le_bytes-each xs ys (omega arith) hx.1 hy.1 in
      rw (ih, ex, ey, op-parts (of_le_bytes xs) (of_le_bytes ys) x y hx.0 hy.0) (omega arith)

  each-append :
      (xs ys : List ℕ) (x y : ℕ)
      → length xs ≡ length ys
      → each (xs ++ (x ∷ [])) (ys ++ (y ∷ [])) ≡ each xs ys ++ (op x y ∷ [])
  each-append [] [] x y e = refl
  each-append [] (b ∷ ys) x y e = absurd (omega arith)
  each-append (a ∷ xs) [] x y e = absurd (omega arith)
  each-append (a ∷ xs) (b ∷ ys) x y e =
      ap (λ (t : List ℕ). op a b ∷ t) (each-append xs ys x y (omega arith))

  each-reverse :
      (xs ys : List ℕ)
      → length xs ≡ length ys
      → reverse (each xs ys) ≡ each (reverse xs) (reverse ys)
  each-reverse [] [] e = refl
  each-reverse [] (y ∷ ys) e = absurd (omega arith)
  each-reverse (x ∷ xs) [] e = absurd (omega arith)
  each-reverse (x ∷ xs) (y ∷ ys) e =
      let e' : length xs ≡ length ys = omega arith in
      let lengths : length (reverse xs) ≡ length (reverse ys) =
        length-reverse xs ∙ e' ∙ sym (length-reverse ys) in
      rw
        (
          reverse-cons x xs,
          reverse-cons y ys,
          reverse-cons (op x y) (each xs ys),
          each-reverse xs ys e',
          each-append (reverse xs) (reverse ys) x y lengths,
        )
        refl

  byteswap-op : (n x y : ℕ) → byteswap n (op x y) ≡ op (byteswap n x) (byteswap n y)
  byteswap-op n x y =
      let lengths = length-le_bytes n x ∙ sym (length-le_bytes n y) in
      let lengths' : length (reverse (le_bytes n x)) ≡ length (reverse (le_bytes n y)) =
        length-reverse (le_bytes n x) ∙ lengths ∙ sym (length-reverse (le_bytes n y)) in
      rw
        (
          byteswap_bytes n x,
          byteswap_bytes n y,
          byteswap_bytes n (op x y),
          le_bytes-op n x y,
          each-reverse (le_bytes n x) (le_bytes n y) lengths,
        )
        (of_le_bytes-each (reverse (le_bytes n x)) (reverse (le_bytes n y)) lengths'
          (All-reverse (le_bytes n x) (le_bytes-IsByte n x))
          (All-reverse (le_bytes n y) (le_bytes-IsByte n y)))

  swapped-op :
      (host : Endian) (n x y : ℕ)
      → byteswap_on_little_endian host n (op x y)
        ≡ op (byteswap_on_little_endian host n x) (byteswap_on_little_endian host n y)
  unfolding byteswap_on_little_endian
  swapped-op little n x y = byteswap-op n x y
  swapped-op big n x y = refl

pub swapped-bit_or :
    (host : Endian) (n x y : ℕ)
    → byteswap_on_little_endian host n (bit_or x y)
      ≡ bit_or (byteswap_on_little_endian host n x) (byteswap_on_little_endian host n y)
swapped-bit_or = swapped-op bit_or (bit_or-parts 8) (bit_or-lt 8) refl

pub swapped-bit_and :
    (host : Endian) (n x y : ℕ)
    → byteswap_on_little_endian host n (bit_and x y)
      ≡ bit_and (byteswap_on_little_endian host n x) (byteswap_on_little_endian host n y)
swapped-bit_and = swapped-op bit_and (bit_and-parts 8) (bit_and-lt 8) refl

pub swapped-bit_xor :
    (host : Endian) (n x y : ℕ)
    → byteswap_on_little_endian host n (bit_xor x y)
      ≡ bit_xor (byteswap_on_little_endian host n x) (byteswap_on_little_endian host n y)
swapped-bit_xor = swapped-op bit_xor (bit_xor-parts 8) (bit_xor-lt 8) refl
