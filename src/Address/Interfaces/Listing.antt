-- ===== src/Address/Interfaces/Listing.antt =====
-- The addresses and prefix lengths that GetInterfaceAddresses lists for IPv4 interfaces.
use xupeng.Prelude.{
  ℕ, ◌-◌, ◌^◌, ◌≤◌, ◌≡◌, ◌⊎◌, refl, true, false, ◌||◌, inl, inr, some, Option, if◌then◌else◌, ◌∙◌,
  List, [], ◌∷◌, map, All, arith,
}
use xupeng.Prelude.Text.{bytes, same_text, no_text}
use xupeng.Prelude.Outcome.{ok}
use xupeng.ByteArray.{Endian}
use native.Mathlib.Nat.{one-le-pow}
use xupeng.Address.{Address, SockaddrIn, ipv4, ipv4_address, get_addr, af_unspec, af_inet}
use xupeng.Address.Masks.Prefix.{hosts, swapped_zero}
use xupeng.Address.Masks.Lengths.{count_mask, swapped-lt}
use xupeng.Address.RoundTrip.{IsIp, create-get_addr, length-ipv4, fields4, family4}
use xupeng.Address.Interfaces.Multimap.{
  IsOrdered, entries_of, insert_entries-IsOrdered, equal_range-entries_of,
  entries_of-insert_entries, any_entry-inserted,
}
use xupeng.Address.Interfaces.{
  insert_entries, IfAddr, Entry, prefix_in, entry_of, interface_of, interfaces_of,
  get_interface_addresses, get_interface_addresses_of, any_address,
}

-- An interface with an IPv4 address and a prefix.
pub record Link : Type 0 where
  pub name : List ℕ
  pub address : SockaddrIn
  pub prefix_len : ℕ

abbrev pub IsLink : Link → Type 0
IsLink l = IsIp (ipv4 l.address) × (2 ≤ l.prefix_len) × (l.prefix_len ≤ 32)

abbrev pub entry : Link → Entry
entry l = (l.name, (some (ipv4 l.address), l.prefix_len))

-- The addresses and prefix lengths of the links with a name.
abbrev pub of_name : List ℕ → List Link → List (Option Address × ℕ)
of_name name [] = []
of_name name (l ∷ ls) =
    if same_text name l.name
    then (some (ipv4 l.address), l.prefix_len) ∷ of_name name ls
    else of_name name ls

entries_of-entry :
    (name : List ℕ) (ls : List Link) → entries_of name (map entry ls) ≡ of_name name ls
entries_of-entry name [] = refl
entries_of-entry name (l ∷ ls) = rw (entries_of-entry name ls) refl

module _ (host : Endian) where
  abbrev pub mask : ℕ → SockaddrIn
  mask p = ipv4_address host (2 ^ 32 - hosts p) 0

  abbrev pub listed : Link → IfAddr
  listed l = record {
    ifa_name = l.name;
    ifa_addr = some (get_addr host (ipv4 l.address));
    ifa_netmask = some (get_addr host (ipv4 (mask l.prefix_len)));
  }

  mask-IsIp : (p : ℕ) → IsIp (ipv4 (mask p))
  unfolding ipv4_address
  mask-IsIp p =
      let one = one-le-pow (32 - p) 2 (omega arith) in
      let port = swapped_zero host in
      (refl, omega (arith, port), swapped-lt host (2 ^ 32 - hosts p) (omega (arith, one)), refl)

  prefix_in-mask :
      (p : ℕ) → 2 ≤ p → p ≤ 32 → prefix_in host (some (get_addr host (ipv4 (mask p)))) ≡ ok p
  unfolding prefix_in
  prefix_in-mask p h h' =
      let valid = mask-IsIp p in
      rw (length-ipv4 host (mask p) valid, fields4 host (mask p) valid, count_mask host p h h') refl

  abbrev pub Wanted : ℕ → Type 0
  Wanted family = (family ≡ af_inet) ⊎ (family ≡ af_unspec)

  interface_of-listed :
      (family : ℕ) (l : Link)
      → Wanted family
      → IsLink l
      → interface_of host family (listed l) ≡ ok (entry l ∷ [])
  unfolding interface_of entry_of
  interface_of-listed family l w h =
      let (valid, lower, upper) = h in
      let made = create-get_addr host (ipv4 l.address) valid in
      let prefix = prefix_in-mask l.prefix_len lower upper in
      let kind = family4 host l.address valid in
      elim w [ inl e ↦ rw (e, kind, made, prefix) refl | inr e ↦ rw (e, kind, made, prefix) refl ]

  interfaces_of-listed :
      (family : ℕ) (ls : List Link)
      → Wanted family
      → All IsLink ls
      → interfaces_of host family (map listed ls) ≡ ok (map entry ls)
  unfolding interfaces_of
  interfaces_of-listed family [] w h = refl
  interfaces_of-listed family (l ∷ ls) w h =
      rw (interface_of-listed family l w h.0, interfaces_of-listed family ls w h.1) refl

  -- For one interface or more, all with IPv4 addresses whose masks are those that subnetMask makes for
  -- prefixes of 2 to 32 bits, and the family AF_INET or AF_UNSPEC, GetInterfaceAddresses fills the empty multimap with the address of every interface and the
  -- length of its prefix, in the order of the bytes of the names, and for each name in the order in
  -- which they are listed. The call with the name of an interface returns those of that name in the
  -- listed order, and whether there is one, provided the name is not empty and not "*".
  pub get_interface_addresses_lem :
      (family : ℕ) (l : Link) (ls : List Link) (name : List ℕ)
      → Wanted family
      → All IsLink (l ∷ ls)
      → (no_text name || same_text name (bytes "*")) ≡ false
      → (es : List Entry) × (get_interface_addresses host (some (map listed (l ∷ ls))) [] family
          ≡ ok (true, es))
        × IsOrdered es
        × ((n : List ℕ) → entries_of n es ≡ of_name n (l ∷ ls))
        × (get_interface_addresses_of host (some (map listed (l ∷ ls))) [] name family
            ≡ ok (any_address (of_name name (l ∷ ls)), of_name name (l ∷ ls)))
  unfolding get_interface_addresses get_interface_addresses_of
  get_interface_addresses_lem family l ls name w h e =
      let all = interfaces_of-listed family (l ∷ ls) w h in
      let es = insert_entries [] (map entry (l ∷ ls)) in
      let ordered = insert_entries-IsOrdered [] (map entry (l ∷ ls)) tt in
      let some_entry = any_entry-inserted (entry l) (map entry ls) in
      let found : (n : List ℕ) → entries_of n es ≡ of_name n (l ∷ ls) =
        λ n. entries_of-insert_entries n [] (map entry (l ∷ ls)) tt ∙ entries_of-entry n (l ∷ ls) in
      let range = equal_range-entries_of name es ordered ∙ found name in
      (es, rw (all, some_entry) refl, ordered, found, rw (e, all, some_entry, range) refl)
