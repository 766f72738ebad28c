-- ===== src/Address/Masks/Prefix.antt =====
-- The broadcast, network and mask addresses of IPv4 in terms of the number in host order.
use xupeng.Prelude.{
  ℕ, ◌+◌, ◌-◌, ◌*◌, ◌/◌, ◌%◌, ◌^◌, ◌≤◌, ◌<◌, ◌≡◌, refl, sym, ap, ◌∙◌, none, some, bit_xor, ltb,
  if◌then◌else◌, le→leb, lt→leb, lt→ltb, le→ltb, Bool-cases, inl, inr, arith,
}
use xupeng.Prelude.Outcome.{ok, faults}
use xupeng.Prelude.Bits.{bit_xor_ones}
use xupeng.Prelude.Masks.{bit_or_low, bit_and_low}
use native.Mathlib.Nat.{one-le-pow, pow-le-pow_right}
use xupeng.ByteArray.{Endian, little, big}
use xupeng.ByteArray.Fixed.Bytes.{byteswap_bytes}
use xupeng.Address.{byteswap_on_little_endian, ipv4_address}
use xupeng.Address.Masks.{create_mask, net_mask, broadcast_address, netword_address, subnet_mask}
use xupeng.Address.Masks.Bytewise.{swapped-bit_or, swapped-bit_and, swapped-bit_xor}

-- The number of addresses under a prefix.
abbrev pub hosts : ℕ → ℕ
hosts p = 2 ^ (32 - p)

pub hosts-le : (p : ℕ) → 2 ≤ p → hosts p ≤ 2 ^ 30
hosts-le p h = pow-le-pow_right {n = 2} (omega arith) {i = 32 - p} {j = 30} (omega arith)

mask_of : (p : ℕ) → 2 ≤ p → p ≤ 32 → create_mask 32 p ≡ ok (hosts p - 1)
unfolding create_mask
mask_of p h h' =
    let small : (hosts p - 1) % 2 ^ 32 ≡ hosts p - 1 = omega (arith, hosts-le p h) in
    rw (le→leb p 32 h', lt→ltb (32 - p) 31 (omega arith), small) refl

mask_undefined : (p : ℕ) → p < 2 → create_mask 32 p ≡ faults
unfolding create_mask
mask_undefined p h = rw (le→leb p 32 (omega arith), le→ltb (32 - p) 31 (omega arith)) refl

mask_too_long : (p : ℕ) → 32 < p → create_mask 32 p ≡ faults
unfolding create_mask
mask_too_long p h = rw (lt→leb p 32 h) refl

abbrev pub by_prefix {ℓ} : {A : Type ℓ} → ℕ → A → A → A → A
by_prefix p long short usual = if ltb 32 p then long else if ltb p 2 then short else usual

by_prefix-cases {ℓ κ} :
    {A : Type ℓ} (P : A → Type κ) (p : ℕ) (long short usual : A)
    → (32 < p → P long)
    → (p < 2 → P short)
    → (2 ≤ p → p ≤ 32 → P usual)
    → P (by_prefix p long short usual)
by_prefix-cases P p long short usual f g h = elim (Bool-cases (ltb 32 p)) [
  | inl e ↦ rw e (f (ground (arith, e)))
  | inr e ↦ elim (Bool-cases (ltb p 2)) [
    | inl d ↦ rw (e, d) (g (ground (arith, d)))
    | inr d ↦ rw (e, d) (h (ground (arith, d)) (ground (arith, e)))
  ]
]

module _ (host : Endian) (ip port : ℕ) where
  -- The broadcast address of a number under a prefix of 2 to 32 bits is the number with all the bits after
  -- the prefix set, at the same port. A longer prefix gives null, and one of 0 or 1 bits has no defined
  -- behaviour.
  pub broadcast_address_lem :
      (p : ℕ)
      → broadcast_address host (ipv4_address host ip port) p
        ≡ by_prefix p
            (ok none)
            faults
            (ok (some (ipv4_address host (ip / hosts p * hosts p + (hosts p - 1)) port)))
  unfolding broadcast_address net_mask ipv4_address
  broadcast_address_lem p =
      by_prefix-cases (λ r. broadcast_address host (ipv4_address host ip port) p ≡ r) p (ok none)
        faults (ok (some (ipv4_address host (ip / hosts p * hosts p + (hosts p - 1)) port)))
        (λ h. rw (lt→ltb 32 p h) refl)
        (λ h. rw (le→ltb 32 p (omega arith), mask_undefined p h) refl)
        (λ h h'.
          rw
            (
              le→ltb 32 p h',
              mask_of p h h',
              sym (swapped-bit_or host 4 ip (hosts p - 1)),
              bit_or_low (32 - p) ip,
            )
            refl)

  -- The network address of a number under a prefix of 2 to 32 bits is what the number has after the prefix,
  -- the number of the host. A longer prefix gives null, and one of 0 or 1 bits has no defined behaviour.
  pub netword_address_lem :
      (p : ℕ)
      → netword_address host (ipv4_address host ip port) p
        ≡ by_prefix p (ok none) faults (ok (some (ipv4_address host (ip % hosts p) port)))
  unfolding netword_address net_mask ipv4_address
  netword_address_lem p =
      by_prefix-cases (λ r. netword_address host (ipv4_address host ip port) p ≡ r) p (ok none)
        faults (ok (some (ipv4_address host (ip % hosts p) port))) (λ h. rw (lt→ltb 32 p h) refl)
        (λ h. rw (le→ltb 32 p (omega arith), mask_undefined p h) refl)
        (λ h h'.
          rw
            (
              le→ltb 32 p h',
              mask_of p h h',
              sym (swapped-bit_and host 4 ip (hosts p - 1)),
              bit_and_low (32 - p) ip,
            )
            refl)

swapped_ones : (host : Endian) → byteswap_on_little_endian host 4 (2 ^ 32 - 1) ≡ 2 ^ 32 - 1
unfolding byteswap_on_little_endian
swapped_ones little = byteswap_bytes 4 (2 ^ 32 - 1)
swapped_ones big = refl

pub swapped_zero : (host : Endian) → byteswap_on_little_endian host 2 0 ≡ 0
unfolding byteswap_on_little_endian
swapped_zero little = byteswap_bytes 2 0
swapped_zero big = refl

complement :
    (host : Endian) (p : ℕ)
    → 2 ≤ p
    → bit_xor (byteswap_on_little_endian host 4 (hosts p - 1)) (2 ^ 32 - 1)
      ≡ byteswap_on_little_endian host 4 (2 ^ 32 - hosts p)
complement host p h =
    let le = hosts-le p h in
    let one = one-le-pow (32 - p) 2 (omega arith) in
    ap (λ (t : ℕ). bit_xor (byteswap_on_little_endian host 4 (hosts p - 1)) t)
      (sym (swapped_ones host))
    ∙ sym (swapped-bit_xor host 4 (hosts p - 1) (2 ^ 32 - 1))
    ∙ ap (λ (t : ℕ). byteswap_on_little_endian host 4 t)
        (bit_xor_ones 32 (hosts p - 1) (omega (arith, le)) ∙ omega (arith, le, one))

-- The mask of a prefix of 2 to 32 bits is that of the standard, 2 ^ 32 less the number of addresses under
-- the prefix.
pub subnet_mask_lem :
    (host : Endian) (p : ℕ)
    → subnet_mask host p ≡ by_prefix p faults faults (ok (ipv4_address host (2 ^ 32 - hosts p) 0))
unfolding subnet_mask net_mask ipv4_address
subnet_mask_lem host p =
    by_prefix-cases (λ r. subnet_mask host p ≡ r) p faults faults
      (ok (ipv4_address host (2 ^ 32 - hosts p) 0)) (λ h. rw (mask_too_long p h) refl)
      (λ h. rw (mask_undefined p h) refl)
      (λ h h'. rw (mask_of p h h', complement host p h, swapped_zero host) refl)
