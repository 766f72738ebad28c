-- ===== src/Address/Masks/Prefix6.antt =====
-- The broadcast, network and mask addresses of IPv6, byte by byte.
use xupeng.Prelude.{
  ℕ, zero, suc, ◌+◌, ◌-◌, ◌*◌, ◌/◌, ◌%◌, ◌^◌, ◌≤◌, ◌<◌, ◌≡◌, refl, sym, ap, ◌∙◌, some, List, [],
  ◌∷◌, ◌++◌, length, take, drop, set, get_elem?, replicate, length-replicate, bit_or, bit_and,
  bit_xor, le→leb, lt→ltb, ltb, if◌then◌else◌, Bool-cases, inl, inr, arith,
}
use xupeng.Prelude.Outcome.{ok, faults}
use xupeng.Prelude.Bits.{bit_xor_ones}
use xupeng.Prelude.Masks.{bit_or_low, bit_and_low}
use xupeng.Prelude.Lookup.{get_elem?-none}
use native.Mathlib.Nat.{one-le-pow, pow-le-pow_right}
use xupeng.Address.{SockaddrIn6, af_inet6}
use xupeng.Address.Masks.{
  change_at, create_mask, broadcast_address6, netword_address6, subnet_mask6,
}

-- The byte at the end of `xs`, looked up, written, and what stands up to it.
module _ {ℓ} {A : Type ℓ} where
  get_elem?-middle : (xs ys : List A) (v : A) → get_elem? (xs ++ (v ∷ ys)) (length xs) ≡ some v
  get_elem?-middle [] ys v = refl
  get_elem?-middle (x ∷ xs) ys v = get_elem?-middle xs ys v

  set-middle : (xs ys : List A) (v w : A) → set (xs ++ (v ∷ ys)) (length xs) w ≡ xs ++ (w ∷ ys)
  set-middle [] ys v w = refl
  set-middle (x ∷ xs) ys v w = ap (λ (t : List A). x ∷ t) (set-middle xs ys v w)

  take-middle :
      (xs ys zs : List A) (v : A) → take (suc (length xs)) (xs ++ (v ∷ ys)) ++ zs ≡ xs ++ (v ∷ zs)
  take-middle [] ys zs v = refl
  take-middle (x ∷ xs) ys zs v = ap (λ (t : List A). x ∷ t) (take-middle xs ys zs v)

  drop-middle : (xs ys : List A) → drop (length xs) (xs ++ ys) ≡ ys
  drop-middle [] ys = refl
  drop-middle (x ∷ xs) ys = drop-middle xs ys

  replicate-middle :
      (n m : ℕ) (v : A) → replicate (n + suc m) v ≡ replicate n v ++ (v ∷ replicate m v)
  replicate-middle zero m v = let e : 0 + suc m ≡ suc m = omega arith in rw e refl
  replicate-middle (suc n) m v =
      let e : suc n + suc m ≡ suc (n + suc m) = omega arith in rw (e, replicate-middle n m v) refl

change_at-middle :
    (xs ys : List ℕ) (v : ℕ) (f : ℕ → ℕ)
    → change_at (xs ++ (v ∷ ys)) (length xs) f ≡ ok (xs ++ (f v ∷ ys))
change_at-middle xs ys v f = rw (get_elem?-middle xs ys v) (ap ok (set-middle xs ys v (f v)))

-- The same in a list of one value.
change_at-replicate :
    (n i m v : ℕ) (f : ℕ → ℕ)
    → n ≡ i + suc m
    → change_at (replicate n v) i f ≡ ok (replicate i v ++ (f v ∷ replicate m v))
change_at-replicate n i m v f e =
    let split : replicate n v ≡ replicate i v ++ (v ∷ replicate m v) =
      ap (λ (t : ℕ). replicate t v) e ∙ replicate-middle i m v in
    let at_i = change_at-middle (replicate i v) (replicate m v) v f in
    ap (λ (t : List ℕ). change_at t i f) split
    ∙ ap (λ (t : ℕ). change_at (replicate i v ++ (v ∷ replicate m v)) t f)
        (sym (length-replicate i v))
    ∙ at_i

change_at-beyond : (n i v : ℕ) (f : ℕ → ℕ) → n ≤ i → change_at (replicate n v) i f ≡ faults
change_at-beyond n i v f h =
    rw (get_elem?-none (replicate n v) i (omega (arith, length-replicate n v))) refl

drop-middle-replicate :
    (i m v w : ℕ) → drop i (replicate i v ++ (w ∷ replicate m v)) ≡ w ∷ replicate m v
drop-middle-replicate i m v w =
    ap (λ (t : ℕ). drop t (replicate i v ++ (w ∷ replicate m v))) (sym (length-replicate i v))
    ∙ drop-middle (replicate i v) (w ∷ replicate m v)

-- The number of values of the bits of a byte after its first `r`.
abbrev pub rest_of : ℕ → ℕ
rest_of r = 2 ^ (8 - r)

mask_of : (r : ℕ) → r < 8 → create_mask 8 r ≡ ok (rest_of r - 1)
unfolding create_mask
mask_of r h =
    let le = pow-le-pow_right {n = 2} (omega arith) {i = 8 - r} {j = 8} (omega arith) in
    let small : (rest_of r - 1) % 2 ^ 8 ≡ rest_of r - 1 =
      omega (arith, le, one-le-pow (8 - r) 2 (omega arith)) in
    rw (le→leb r 8 (omega arith), lt→ltb (8 - r) 31 (omega arith), small) refl

module _ (i r : ℕ) (h : r < 8) where
  byte_of : (i * 8 + r) / 8 ≡ i
  byte_of = omega arith

  bit_of : (i * 8 + r) % 8 ≡ r
  bit_of = omega arith

  -- The mask of a prefix of `i` bytes and `r` bits, and the first byte behind byte `i`.
  mask_within : create_mask 8 ((i * 8 + r) % 8) ≡ ok (rest_of r - 1)
  mask_within = rw bit_of (mask_of r h)

module _ (a : SockaddrIn6) (before after : List ℕ) (b r : ℕ) (h : r < 8) where
  -- Under a prefix of whole bytes `before` and the first `r` bits of the byte `b`, the broadcast address has
  -- every later bit set. The network address keeps the bytes `before` as they are and of `b` the bits after
  -- the prefix.
  pub broadcast_address6_lem :
      a.s6_addr ≡ before ++ (b ∷ after)
      → length before + suc (length after) ≡ 16
      → (broadcast_address6 a (length before * 8 + r)
          ≡ ok (record a {
            s6_addr =
                before
                ++ ((b / rest_of r * rest_of r + (rest_of r - 1)) ∷ replicate (length after) 255);
          }))
        × (netword_address6 a (length before * 8 + r)
            ≡ ok (record a { s6_addr = before ++ ((b % rest_of r) ∷ replicate (length after) 0) }))
  unfolding broadcast_address6 netword_address6
  broadcast_address6_lem e n =
      let i = length before in
      let step : i + 1 ≡ suc i = omega arith in
      let left : 16 - suc i ≡ length after = omega (arith, n) in
      (
        rw
            (
              mask_within i r h,
              byte_of i r h,
              e,
              change_at-middle before after b (λ t. bit_or t (rest_of r - 1)),
              step,
              left,
              take-middle before after (replicate (length after) 255) (bit_or b (rest_of r - 1)),
              bit_or_low (8 - r) b,
            )
            refl,
        rw
            (
              mask_within i r h,
              byte_of i r h,
              e,
              change_at-middle before after b (λ t. bit_and t (rest_of r - 1)),
              step,
              left,
              take-middle before after (replicate (length after) 0) (bit_and b (rest_of r - 1)),
              bit_and_low (8 - r) b,
            )
            refl,
      )

complement : (r : ℕ) → r < 8 → bit_xor (rest_of r - 1) 255 ≡ 256 - rest_of r
complement r h =
    let le = pow-le-pow_right {n = 2} (omega arith) {i = 8 - r} {j = 8} (omega arith) in
    let one = one-le-pow (8 - r) 2 (omega arith) in
    bit_xor_ones 8 (rest_of r - 1) (omega (arith, le, one)) ∙ omega (arith, le, one)

-- The mask of a prefix of `i` bytes and `r` bits has these and no others set. A prefix of 128 bits or more
-- writes behind the address.
pub subnet_mask6_lem :
    (i r : ℕ)
    → r < 8
    → subnet_mask6 (i * 8 + r) ≡ (
        if ltb i 16
        then ok (record {
          sin6_family = af_inet6;
          sin6_port = 0;
          sin6_flowinfo = 0;
          s6_addr = replicate i 255 ++ ((256 - rest_of r) ∷ replicate (15 - i) 0);
          sin6_scope_id = 0;
        })
        else faults)
unfolding subnet_mask6
subnet_mask6_lem i r h = elim (Bool-cases (ltb i 16)) [
  | inl e ↦
      rw
        (
          mask_within i r h,
          byte_of i r h,
          e,
          change_at-replicate 16 i (15 - i) 0 (λ b. bit_xor (rest_of r - 1) 255)
              (ground (arith, e)),
          drop-middle-replicate i (15 - i) 0 (bit_xor (rest_of r - 1) 255),
          complement r h,
        )
        refl
  | inr e ↦
      rw
        (
          mask_within i r h,
          byte_of i r h,
          e,
          change_at-beyond 16 i 0 (λ b. bit_xor (rest_of r - 1) 255) (ground (arith, e)),
        )
        refl
]
