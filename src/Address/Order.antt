-- ===== src/Address/Order.antt =====
-- xupeng/address.cc: `operator<`, `operator==` and `operator!=` of Address, which compare the bytes of the
-- objects by memcmp.
pub mod Lexical
pub mod Comparing
use xupeng.Prelude.{
  ℕ, zero, suc, min, Bool, true, false, not, List, [], ◌∷◌, take, ltb, ◌==◌, if◌then◌else◌,
}
use xupeng.Prelude.Outcome.{Outcome, ok, faults, ◌>>=◌}
use xupeng.ByteArray.{Endian}
use xupeng.Address.{Address, get_addr, get_addr_len}

-- The sign of what memcmp returns; to look past the end of an object is undefined.
pub data Comparison : Type 0 where
  below same above : Comparison

unfoldable pub memcmp : ℕ → List ℕ → List ℕ → Outcome Comparison
memcmp zero xs ys = ok same
memcmp (suc n) [] ys = faults
memcmp (suc n) (x ∷ xs) [] = faults
memcmp (suc n) (x ∷ xs) (y ∷ ys) =
    let rest = memcmp n xs ys in if ltb x y then ok below else if ltb y x then ok above else rest

abbrev pub less_by : ℕ → ℕ → Comparison → Bool
less_by n m below = true
less_by n m same = ltb n m
less_by n m above = false

abbrev pub is_same : Comparison → Bool
is_same below = false
is_same same = true
is_same above = false

module _ (host : Endian) where
  unfoldable pub less : Address → Address → Outcome Bool
  unfolding memcmp
  less a b = do
    result ← memcmp (min (get_addr_len a) (get_addr_len b)) (get_addr host a) (get_addr host b)
    ok (less_by (get_addr_len a) (get_addr_len b) result)

  unfoldable pub equal : Address → Address → Outcome Bool
  unfolding memcmp
  equal a b =
      let same_bytes = memcmp (get_addr_len a) (get_addr host a) (get_addr host b) >>= λ result.
      ok (is_same result) in
      if get_addr_len a == get_addr_len b then same_bytes else ok false

  unfoldable pub unequal : Address → Address → Outcome Bool
  unfolding equal
  unequal a b = equal a b >>= λ same_address. ok (not same_address)

  -- The bytes that an address stands for.
  abbrev pub view : Address → List ℕ
  view a = take (get_addr_len a) (get_addr host a)
