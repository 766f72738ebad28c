-- ===== src/Address/Masks/Lengths.antt =====
-- The length of the prefix that CountBytes finds in a mask.
use xupeng.Prelude.{
  ℕ, zero, suc, ◌+◌, ◌-◌, ◌*◌, ◌/◌, ◌%◌, ◌^◌, ◌≤◌, ◌<◌, ◌≡◌, refl, sym, ap, ◌∙◌, some, List, [],
  ◌∷◌, ◌++◌, reverse, length, length-reverse, All, le→ltb, arith,
}
use xupeng.Prelude.Outcome.{Outcome, ok, faults, ◌>>=◌}
use native.Mathlib.Nat.{pow-suc, one-le-pow}
use mathlib.Core.List.{reverse-cons}
use xupeng.ByteArray.{Endian, little, big}
use xupeng.ByteArray.Fixed.{le_bytes, of_le_bytes}
use xupeng.ByteArray.Fixed.Bytes.{
  IsByte, byteswap_bytes, length-le_bytes, le_bytes-IsByte, All-reverse, of_le_bytes-le_bytes,
  byteswap-lt,
}
use xupeng.Address.{SockaddrIn, byteswap_on_little_endian, ipv4_address}
use xupeng.Address.Masks.{subnet_mask, count_bytes}
use xupeng.Address.Masks.Counting.{ones, count_bytes_lem}
use xupeng.Address.Masks.Prefix.{hosts, subnet_mask_lem, by_prefix}

double-pow : (q k m : ℕ) → m ≡ q * 2 ^ suc k → m ≡ 2 * (q * 2 ^ k)
double-pow q k m e = omega (arith, e, ap (λ (t : ℕ). q * t) (pow-suc 2 k))

low_half : (m a r : ℕ) → m ≡ 2 * a → (m + r) / 2 ≡ a + r / 2
low_half m a r e = omega arith

low_digit : (m a r : ℕ) → m ≡ 2 * a → (m + r) % 2 ≡ r % 2
low_digit m a r e = omega arith

ones-parts : (k n q r : ℕ) → r < 2 ^ k → ones (k + n) (q * 2 ^ k + r) ≡ ones k r + ones n q
ones-parts zero n q r h =
    let r0 : r ≡ 0 = omega arith in
    let e : q * 2 ^ 0 + 0 ≡ q = omega arith in
    let e' : 0 + n ≡ n = omega arith in rw (r0, e, e') (omega arith)
ones-parts (suc k) n q r h =
    let m = q * 2 ^ suc k in
    let e : suc k + n ≡ suc (k + n) = omega arith in
    let twice = double-pow q k m refl in
    let ih = ones-parts k n q (r / 2) (omega (arith, pow-suc 2 k)) in
    rw (e, low_half m (q * 2 ^ k) r twice, low_digit m (q * 2 ^ k) r twice, ih) (omega arith)

abbrev total : List ℕ → ℕ
total [] = 0
total (b ∷ bs) = ones 8 b + total bs

total-append : (xs : List ℕ) (b : ℕ) → total (xs ++ (b ∷ [])) ≡ total xs + ones 8 b
total-append [] b = omega arith
total-append (x ∷ xs) b = omega (arith, total-append xs b)

total-reverse : (bs : List ℕ) → total (reverse bs) ≡ total bs
total-reverse [] = refl
total-reverse (b ∷ bs) =
    rw (reverse-cons b bs) (omega (arith, total-append (reverse bs) b, total-reverse bs))

ones-of_le_bytes :
    (n : ℕ) (bs : List ℕ) → length bs ≡ n → All IsByte bs → ones (8 * n) (of_le_bytes bs) ≡ total bs
ones-of_le_bytes zero [] e h = refl
ones-of_le_bytes (suc n) [] e h = absurd (omega arith)
ones-of_le_bytes zero (b ∷ bs) e h = absurd (omega arith)
ones-of_le_bytes (suc n) (b ∷ bs) e h =
    let width : 8 * suc n ≡ 8 + 8 * n = omega arith in
    let order : b + 256 * of_le_bytes bs ≡ of_le_bytes bs * 2 ^ 8 + b = omega arith in
    rw (width, order, ones-parts 8 (8 * n) (of_le_bytes bs) b h.0)
      (ap (λ (t : ℕ). ones 8 b + t) (ones-of_le_bytes n bs (omega arith) h.1))

-- Swapping the bytes keeps the number of digits that are one.
ones-swapped :
    (host : Endian) (v : ℕ) → v < 2 ^ 32 → ones 32 (byteswap_on_little_endian host 4 v) ≡ ones 32 v
unfolding byteswap_on_little_endian
ones-swapped big v h = refl
ones-swapped little v h =
    let bs = le_bytes 4 v in
    let bytes = le_bytes-IsByte 4 v in
    let swapped =
      ones-of_le_bytes 4 (reverse bs) (length-reverse bs ∙ length-le_bytes 4 v)
        (All-reverse bs bytes) in
    let kept = ones-of_le_bytes 4 bs (length-le_bytes 4 v) bytes in
    ap (λ (t : ℕ). ones 32 t) (byteswap_bytes 4 v)
    ∙ swapped
    ∙ total-reverse bs
    ∙ sym kept
    ∙ ap (λ (t : ℕ). ones 32 t) (of_le_bytes-le_bytes 4 v h)

ones-full : (p : ℕ) → ones p (2 ^ p - 1) ≡ p
ones-full zero = refl
ones-full (suc p) =
    let one = one-le-pow p 2 (omega arith) in
    let e : 2 ^ suc p ≡ 2 * 2 ^ p = omega (arith, pow-suc 2 p) in
    let low : (2 ^ suc p - 1) % 2 ≡ 1 = omega (arith, one, e) in
    let high : (2 ^ suc p - 1) / 2 ≡ 2 ^ p - 1 = omega (arith, one, e) in
    rw (low, high, ones-full p) (omega arith)

double_mask : (a b c d : ℕ) → a ≡ 2 * b → c ≡ 2 * d → (a - c) % 2 ≡ 0
double_mask a b c d e f = omega arith

half_mask : (a b c d : ℕ) → a ≡ 2 * b → c ≡ 2 * d → (a - c) / 2 ≡ b - d
half_mask a b c d e f = omega arith

ones_mask : (w p k : ℕ) → w ≡ k + p → ones w (2 ^ w - 2 ^ k) ≡ p
ones_mask zero p k e = omega arith
ones_mask (suc w) p zero e = let p1 : p ≡ suc w = omega arith in rw p1 (ones-full (suc w))
ones_mask (suc w) p (suc k) e =
    rw
      (
        double_mask (2 ^ suc w) (2 ^ w) (2 ^ suc k) (2 ^ k) (pow_twice w) (pow_twice k),
        half_mask (2 ^ suc w) (2 ^ w) (2 ^ suc k) (2 ^ k) (pow_twice w) (pow_twice k),
        ones_mask w p k (omega arith),
      )
      (omega arith)
  where
    pow_twice : (j : ℕ) → 2 ^ suc j ≡ 2 * 2 ^ j
    pow_twice j = omega (arith, pow-suc 2 j)

pub swapped-lt : (host : Endian) (v : ℕ) → v < 2 ^ 32 → byteswap_on_little_endian host 4 v < 2 ^ 32
unfolding byteswap_on_little_endian
swapped-lt big v h = h
swapped-lt little v h = byteswap-lt 4 v

usual_prefix {ℓ} :
    {A : Type ℓ} (p : ℕ) (long short usual : A)
    → 2 ≤ p
    → p ≤ 32
    → by_prefix p long short usual ≡ usual
usual_prefix p long short usual h h' = rw (le→ltb 32 p h', le→ltb p 2 h) refl

pub count_mask :
    (host : Endian) (p : ℕ)
    → 2 ≤ p
    → p ≤ 32
    → count_bytes 32 (ipv4_address host (2 ^ 32 - hosts p) 0).s_addr ≡ some p
unfolding ipv4_address
count_mask host p h h' =
    let mask = 2 ^ 32 - hosts p in
    let fits : mask < 2 ^ 32 = omega (arith, one-le-pow (32 - p) 2 (omega arith)) in
    count_bytes_lem 32 (byteswap_on_little_endian host 4 mask) (swapped-lt host mask fits)
    ∙ ap some (ones-swapped host mask fits ∙ ones_mask 32 p (32 - p) (omega arith))

-- CountBytes of the mask that subnetMask makes for a prefix of 2 to 32 bits is that prefix.
pub count_bytes-subnet_mask :
    (host : Endian) (p : ℕ)
    → 2 ≤ p
    → p ≤ 32
    → (subnet_mask host p >>= λ a. ok (count_bytes 32 a.s_addr)) ≡ ok (some p)
count_bytes-subnet_mask host p h h' =
    let mask = ipv4_address host (2 ^ 32 - hosts p) 0 in
    let made : subnet_mask host p ≡ ok mask =
      subnet_mask_lem host p ∙ usual_prefix p faults faults (ok mask) h h' in
    ap (λ (r : Outcome SockaddrIn). r >>= λ a. ok (count_bytes 32 a.s_addr)) made
    ∙ ap ok (count_mask host p h h')
