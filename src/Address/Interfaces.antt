-- ===== src/Address/Interfaces.antt =====
-- xupeng/address.cc: both GetInterfaceAddresses. getifaddrs is an argument; the pointers of its list may be
-- null. The multimap is the list of its entries in its order: by the bytes of their names, and those of
-- one name in the order they are inserted.
pub mod Multimap
pub mod Listing
use xupeng.Prelude.{
  ℕ, zero, suc, ◌+◌, ◌-◌, ◌^◌, Bool, true, false, not, ◌&&◌, ◌||◌, Option, none, some, List, [],
  ◌∷◌, ◌++◌, length, ltb, leb, ◌==◌, if◌then◌else◌,
}
use xupeng.Prelude.Text.{bytes, same_text, no_text}
use xupeng.Prelude.Outcome.{Outcome, ok, faults, ◌>>=◌}
use xupeng.Http.Map.{less_bytes}
use xupeng.ByteArray.{Endian}
use xupeng.Address.{
  Address, ipv4, ipv6, ipv4_address, ipv6_any, create, field, as_sockaddr_in, as_sockaddr_in6,
  af_unspec, af_inet, af_inet6,
}
use xupeng.Address.Masks.{count_bytes}

pub record IfAddr : Type 0 where
  pub ifa_name : List ℕ
  pub ifa_addr : Option (List ℕ)
  pub ifa_netmask : Option (List ℕ)

abbrev pub Entry : Type 0
Entry = List ℕ × (Option Address × ℕ)

-- The sum of CountBytes over the bytes of a mask.
abbrev pub counted : ℕ → Option ℕ → Option ℕ → Option ℕ
counted b (some m) (some n) = some (m + n)
counted b _ _ = none

unfoldable pub count_all : List ℕ → Option ℕ
count_all [] = some 0
count_all (b ∷ bs) = counted b (count_bytes 8 b) (count_all bs)

abbrev pub defined {ℓ} : {A : Type ℓ} → Option A → Outcome A
defined none = faults
defined (some a) = ok a

abbrev pub readable : ℕ → List ℕ → Outcome (List ℕ)
readable n bs = if leb n (length bs) then ok bs else faults

-- `result.insert` of a multimap: behind the entries whose names are not greater.
unfoldable pub insert_entry : Entry → List Entry → List Entry
insert_entry e [] = e ∷ []
insert_entry e (f ∷ es) =
    let rest = f ∷ insert_entry e es in if less_bytes e.0 f.0 then e ∷ f ∷ es else rest

unfoldable pub insert_entries : List Entry → List Entry → List Entry
unfolding insert_entry
insert_entries result [] = result
insert_entries result (e ∷ es) = insert_entries (insert_entry e result) es

-- `equal_range`: from the first entry whose name is not less to the first whose name is greater.
unfoldable pub equal_range : List ℕ → List Entry → List (Option Address × ℕ)
equal_range name [] = []
equal_range name (e ∷ es) =
    let rest = equal_range name es in
    if less_bytes e.0 name then rest else if less_bytes name e.0 then [] else e.1 ∷ rest

abbrev pub any_entry : List Entry → Bool
any_entry [] = false
any_entry (e ∷ es) = true

abbrev pub any_address : List (Option Address × ℕ) → Bool
any_address [] = false
any_address (a ∷ as') = true

module _ (host : Endian) where
  -- The prefix length by the mask of an interface.
  unfoldable pub prefix_in : Option (List ℕ) → Outcome ℕ
  prefix_in netmask = do
    bs ← defined netmask
    mask ← readable 16 bs
    defined (count_bytes 32 (as_sockaddr_in host mask).s_addr)

  unfoldable pub prefix_in6 : Option (List ℕ) → Outcome ℕ
  unfolding count_all
  prefix_in6 netmask = do
    bs ← defined netmask
    mask ← readable 28 bs
    defined (count_all (as_sockaddr_in6 host mask).s6_addr)

  -- The `switch` by the family of the address `bs`.
  unfoldable pub entry_of : List ℕ → List ℕ → Option (List ℕ) → Outcome (List Entry)
  unfolding prefix_in prefix_in6
  entry_of name bs netmask =
      let inet =
        create host (some bs) >>= λ a. prefix_in netmask >>= λ n. ok ((name, (a, n)) ∷ []) in
      let inet6 =
        create host (some bs) >>= λ a. prefix_in6 netmask >>= λ n. ok ((name, (a, n)) ∷ []) in
      if field host 0 2 bs == af_inet
      then inet
      else if field host 0 2 bs == af_inet6
      then inet6
      else ok []

  -- One round of the loop.
  unfoldable pub interface_of : ℕ → IfAddr → Outcome (List Entry)
  unfolding entry_of
  interface_of family i = do
    bs ← defined i.ifa_addr
    let entries = entry_of i.ifa_name bs i.ifa_netmask
    if not (family == af_unspec) && not (family == field host 0 2 bs) then ok [] else entries

  unfoldable pub interfaces_of : ℕ → List IfAddr → Outcome (List Entry)
  unfolding interface_of
  interfaces_of family [] = ok []
  interfaces_of family (i ∷ is) = do
    entries ← interface_of family i
    rest ← interfaces_of family is
    ok (entries ++ rest)

  -- The first, into a multimap; `none` is an error of getifaddrs.
  unfoldable pub get_interface_addresses :
      Option (List IfAddr) → List Entry → ℕ → Outcome (Bool × List Entry)
  unfolding interfaces_of insert_entries
  get_interface_addresses none result family = ok (false, result)
  get_interface_addresses (some is) result family = do
    es ← interfaces_of family is
    ok (any_entry (insert_entries result es), insert_entries result es)

  abbrev pub wildcards : ℕ → List (Option Address × ℕ)
  wildcards family =
      (if family == af_inet || family == af_unspec
        then (some (ipv4 (ipv4_address host 0 0)), 0) ∷ []
        else [])
      ++ (if family == af_inet6 || family == af_unspec then (some (ipv6 ipv6_any), 0) ∷ [] else [])

  abbrev pub of_interface :
      List (Option Address × ℕ) → List ℕ → Bool × List Entry → Bool × List (Option Address × ℕ)
  of_interface result name (false, es) = (false, result)
  of_interface result name (true, es) =
      (any_address (result ++ equal_range name es), result ++ equal_range name es)

  -- The second, of one interface by its name.
  unfoldable pub get_interface_addresses_of :
      Option (List IfAddr)
      → List (Option Address × ℕ)
      → List ℕ
      → ℕ
      → Outcome (Bool × List (Option Address × ℕ))
  unfolding get_interface_addresses equal_range
  get_interface_addresses_of listed result name family =
      let all = get_interface_addresses listed [] family in
      if no_text name || same_text name (bytes "*")
      then ok (true, result ++ wildcards family)
      else all >>= λ found. ok (of_interface result name found)
