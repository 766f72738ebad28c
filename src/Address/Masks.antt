-- ===== src/Address/Masks.antt =====
-- xupeng/address.cc: CreateMask, CountBytes, and the broadcast, network and mask addresses of both
-- families. `T` is given by its number of bits `w`. A shift of the int 1 by 32 or more is undefined, and
-- so is 1 << 31 less 1, which leaves int: an IPv4 prefix of 0 or 1.
pub mod Counting
pub mod Bytewise
pub mod Prefix
pub mod Lengths
pub mod Prefix6
use xupeng.Prelude.{
  ℕ, zero, suc, ◌+◌, ◌-◌, ◌*◌, ◌/◌, ◌%◌, ◌^◌, Bool, true, false, Option, none, some, List, [], ◌∷◌,
  ◌++◌, length, take, drop, set, get_elem?, replicate, bit_and, bit_or, bit_xor, ltb, leb, ◌==◌,
  if◌then◌else◌,
}
use xupeng.Prelude.Outcome.{Outcome, ok, throws, faults, ◌>>=◌}
use xupeng.ByteArray.{Endian}
use xupeng.Address.{SockaddrIn, SockaddrIn6, byteswap_on_little_endian, af_inet, af_inet6}

-- `CreateMask<T>(bits)`, the value of an int converted to `w` bits.
unfoldable pub create_mask : ℕ → ℕ → Outcome ℕ
create_mask w bits =
    if leb bits w
    then if ltb (w - bits) 31 then ok ((2 ^ (w - bits) - 1) % 2 ^ w) else faults
    else faults

-- The loop of `CountBytes`, which clears the lowest bit that is set, on fuel.
unfoldable pub count_from : ℕ → ℕ → ℕ → Option ℕ
count_from fuel result zero = some result
count_from zero result (suc v) = none
count_from (suc fuel) result (suc v) = count_from fuel (suc result) (bit_and (suc v) v)

unfoldable pub count_bytes : ℕ → ℕ → Option ℕ
unfolding count_from
count_bytes w v = count_from w 0 v

module _ (host : Endian) where
  -- The mask of an IPv4 prefix as a field in network order.
  unfoldable pub net_mask : ℕ → Outcome ℕ
  unfolding create_mask
  net_mask prefix_len = do
    mask ← create_mask 32 prefix_len
    ok (byteswap_on_little_endian host 4 mask)

  unfoldable pub broadcast_address : SockaddrIn → ℕ → Outcome (Option SockaddrIn)
  unfolding net_mask
  broadcast_address a prefix_len =
      if ltb 32 prefix_len
      then ok none
      else do mask ← net_mask prefix_len; ok (some (record a { s_addr = bit_or a.s_addr mask }))

  unfoldable pub netword_address : SockaddrIn → ℕ → Outcome (Option SockaddrIn)
  unfolding net_mask
  netword_address a prefix_len =
      if ltb 32 prefix_len
      then ok none
      else do mask ← net_mask prefix_len; ok (some (record a { s_addr = bit_and a.s_addr mask }))

  -- `~` on 32 bits is `^` with ones.
  unfoldable pub subnet_mask : ℕ → Outcome SockaddrIn
  unfolding net_mask
  subnet_mask prefix_len = do
    mask ← net_mask prefix_len
    ok (record {
      sin_family = af_inet;
      sin_port = 0;
      s_addr = bit_xor mask (2 ^ 32 - 1);
      sin_zero = replicate 8 0;
    })

-- A byte of `s6_addr` changed, which has none at 16 and beyond.
abbrev pub written : List ℕ → ℕ → (ℕ → ℕ) → Option ℕ → Outcome (List ℕ)
written bs i f none = faults
written bs i f (some b) = ok (set bs i (f b))

abbrev pub change_at : List ℕ → ℕ → (ℕ → ℕ) → Outcome (List ℕ)
change_at bs i f = written bs i f (get_elem? bs i)

-- The loops `for (i = first; i < 16; ++i)` and `for (i = 0; i < last; ++i)` that set every byte.
abbrev pub fill_from : List ℕ → ℕ → ℕ → List ℕ
fill_from bs first v = take first bs ++ replicate (16 - first) v

abbrev pub fill_to : List ℕ → ℕ → ℕ → List ℕ
fill_to bs last v = replicate last v ++ drop last bs

unfoldable pub broadcast_address6 : SockaddrIn6 → ℕ → Outcome SockaddrIn6
unfolding create_mask
broadcast_address6 a prefix_len = do
  mask ← create_mask 8 (prefix_len % 8)
  bs ← change_at a.s6_addr (prefix_len / 8) (λ b. bit_or b mask)
  ok (record a { s6_addr = fill_from bs (prefix_len / 8 + 1) 255 })

unfoldable pub netword_address6 : SockaddrIn6 → ℕ → Outcome SockaddrIn6
unfolding create_mask
netword_address6 a prefix_len = do
  mask ← create_mask 8 (prefix_len % 8)
  bs ← change_at a.s6_addr (prefix_len / 8) (λ b. bit_and b mask)
  ok (record a { s6_addr = fill_from bs (prefix_len / 8 + 1) 0 })

unfoldable pub subnet_mask6 : ℕ → Outcome SockaddrIn6
unfolding create_mask
subnet_mask6 prefix_len = do
  mask ← create_mask 8 (prefix_len % 8)
  bs ← change_at (replicate 16 0) (prefix_len / 8) (λ b. bit_xor mask 255)
  ok (record {
    sin6_family = af_inet6;
    sin6_port = 0;
    sin6_flowinfo = 0;
    s6_addr = fill_to bs (prefix_len / 8) 255;
    sin6_scope_id = 0;
  })
