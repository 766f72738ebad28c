-- ===== src/Address/Printing.antt =====
-- xupeng/address.cc: `insert` of the addresses, which toString returns.
pub mod Zeros
use xupeng.Prelude.{
  ℕ, zero, suc, ◌+◌, ◌*◌, ◌/◌, ◌%◌, ◌^◌, Bool, true, false, not, ◌&&◌, ◌||◌, Option, none, some,
  List, [], ◌∷◌, ◌++◌, map, ltb, ◌==◌, if◌then◌else◌,
}
use xupeng.Prelude.Text.{bytes, decimal}
use xupeng.Prelude.Outcome.{Outcome, ok, ◌>>=◌}
use xupeng.ByteArray.{Endian}
use xupeng.Address.{
  Address, SockaddrIn, SockaddrIn6, ipv4, ipv6, unix, unknown, byteswap_on_little_endian, field,
}
use xupeng.Address.Unix.{get_path}

-- A number as `std::hex` writes it; one below `fuel` has fewer digits than that.
abbrev pub hex_digit : ℕ → ℕ
hex_digit d = if ltb d 10 then 48 + d else 87 + d

hex_from : ℕ → ℕ → List ℕ → List ℕ
hex_from zero n acc = acc
hex_from (suc fuel) n acc =
    let digits = hex_digit (n % 16) ∷ acc in
    let more = hex_from fuel (n / 16) digits in if ltb n 16 then digits else more

unfoldable pub hex : ℕ → List ℕ
unfolding hex_from
hex n = hex_from (suc n) n []

abbrev pub is_zero : Option ℕ → Bool
is_zero none = false
is_zero (some g) = g == 0

abbrev pub colon_after : Option ℕ → List ℕ
colon_after none = []
colon_after (some g) = bytes ":"

-- The loop over the groups: `prev` is the group before, `used_zeros` as in the code. After the loop a `::`
-- stands for zeros at the end.
unfoldable pub groups_from : Option ℕ → Bool → List ℕ → List ℕ
groups_from prev used_zeros [] = if not used_zeros && is_zero prev then bytes "::" else []
groups_from prev used_zeros (g ∷ gs) =
    let gap = is_zero prev && not used_zeros in
    let skipped = groups_from (some g) used_zeros gs in
    let rest = groups_from (some g) (used_zeros || gap) gs in
    if g == 0 && not used_zeros
    then skipped
    else (if gap then bytes ":" else []) ++ (colon_after prev ++ (hex g ++ rest))

module _ (host : Endian) where
  -- The eight groups, in host order.
  abbrev pub groups_of : SockaddrIn6 → List ℕ
  groups_of a =
      map (λ i. byteswap_on_little_endian host 2 (field host (2 * i) 2 a.s6_addr))
        (0 ∷ 1 ∷ 2 ∷ 3 ∷ 4 ∷ 5 ∷ 6 ∷ 7 ∷ [])

  abbrev pub insert4 : SockaddrIn → List ℕ
  insert4 a =
      let addr = byteswap_on_little_endian host 4 a.s_addr in
      decimal (addr / 2 ^ 24 % 256)
      ++ (bytes "."
          ++ (decimal (addr / 2 ^ 16 % 256)
              ++ (bytes "."
                  ++ (decimal (addr / 2 ^ 8 % 256)
                      ++ (bytes "."
                          ++ (decimal (addr % 256)
                              ++ (bytes ":"
                                  ++ decimal (byteswap_on_little_endian host 2 a.sin_port))))))))

  abbrev pub insert6 : SockaddrIn6 → List ℕ
  insert6 a =
      bytes "["
      ++ (groups_from none false (groups_of a)
          ++ (bytes "]:" ++ decimal (byteswap_on_little_endian host 2 a.sin6_port)))

  unfoldable pub to_string : Address → Outcome (List ℕ)
  unfolding decimal
  to_string (ipv4 a) = ok (insert4 a)
  to_string (ipv6 a) = ok (insert6 a)
  to_string (unix a n) = get_path a n
  to_string (unknown a) = ok (bytes "[UnknownAddress family=" ++ (decimal a.sa_family ++ bytes "]"))
