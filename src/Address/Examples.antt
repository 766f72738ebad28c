-- ===== src/Address/Examples.antt =====
-- The theorems of addresses at 192.168.1.10, a path and a resolver with one answer.
use xupeng.Prelude.{
  ℕ, ◌+◌, ◌*◌, ◌%◌, ◌≡◌, ◌↔◌, inl, inr, refl, Bool, List, true, false, none, some, [], ◌∷◌, ◌++◌,
  map, replicate, arith, ◌≤◌, length,
}
use xupeng.Prelude.Text.{bytes}
use xupeng.Prelude.Outcome.{ok, throws, faults, ◌>>=◌}
use xupeng.ByteArray.{little, big}
use xupeng.Address.{SockaddrIn, ipv4, ipv6, ipv6_any, ipv4_address, create, get_addr}
use xupeng.Address.Masks.{netword_address, subnet_mask, subnet_mask6, count_bytes}
use xupeng.Address.Masks.Counting.{count_bytes_lem}
use xupeng.Address.Masks.Prefix.{netword_address_lem, hosts}
use xupeng.Address.Masks.Lengths.{count_bytes-subnet_mask}
use xupeng.Address.Masks.Prefix6.{subnet_mask6_lem}
use xupeng.Address.Order.{less, view}
use xupeng.Address.Order.Lexical.{Precedes}
use xupeng.Address.Order.Comparing.{less_lem}
use xupeng.Address.RoundTrip.{IsIp, create-get_addr, length-ipv4, length-ipv6}
use xupeng.Address.Resolve.{Resolver, split_host, lookup, lookup_any_ip_address}
use xupeng.Address.Resolve.Hosts.{split_host_lem, answers_of, lookup_lem}
use xupeng.Address.Interfaces.{Entry, get_interface_addresses, get_interface_addresses_of}
use xupeng.Address.Interfaces.Multimap.{IsOrdered, entries_of}
use xupeng.Address.Interfaces.Listing.{Link, listed, of_name, get_interface_addresses_lem}
use xupeng.Address.Unix.{unix_address, path_of}
use xupeng.Address.Unix.Paths.{unix_address_lem}
use xupeng.Address.Printing.{groups_from}
use xupeng.Address.Printing.Zeros.{groups_from_lem, joined}

count_bytes_lem_example : count_bytes 8 0xb0 ≡ some 3
count_bytes_lem_example = count_bytes_lem 8 0xb0 (omega arith)

-- 192.168.1.10 and its port 80.
abbrev ip : ℕ
ip = 0xc0a8010a

netword_address_lem_example :
    netword_address little (ipv4_address little ip 80) 24
    ≡ ok (some (ipv4_address little (ip % hosts 24) 80))
netword_address_lem_example = netword_address_lem little ip 80 24

count_bytes-subnet_mask_example :
    (subnet_mask little 20 >>= λ a. ok (count_bytes 32 a.s_addr)) ≡ ok (some 20)
count_bytes-subnet_mask_example = count_bytes-subnet_mask little 20 (omega arith) (omega arith)

subnet_mask6_lem_example : subnet_mask6 (16 * 8 + 0) ≡ faults
subnet_mask6_lem_example = subnet_mask6_lem 16 0 (omega arith)

abbrev local : SockaddrIn
local = record { sin_family = 2; sin_port = 80; s_addr = 0x7f000001; sin_zero = replicate 8 0 }

abbrev router : SockaddrIn
router = record { sin_family = 2; sin_port = 80; s_addr = ip; sin_zero = replicate 8 0 }

whole : (a : SockaddrIn) → IsIp (ipv4 a) → 16 ≤ length (get_addr big (ipv4 a))
whole a h = omega (arith, length-ipv4 big a h)

whole6 : 28 ≤ length (get_addr big (ipv6 ipv6_any))
whole6 = omega (arith, length-ipv6 big ipv6_any (refl, omega arith, omega arith, refl, omega arith))

less_lem_example :
    (r : Bool) × (less big (ipv4 local) (ipv6 ipv6_any) ≡ ok r)
    × ((r ≡ true) ↔ Precedes (view big (ipv4 local)) (view big (ipv6 ipv6_any)))
less_lem_example =
    less_lem big (ipv4 local) (ipv6 ipv6_any) (whole local (refl, omega arith, omega arith, refl))
      whole6

create-get_addr_example : create big (some (get_addr big (ipv4 router))) ≡ ok (some (ipv4 router))
create-get_addr_example = create-get_addr big (ipv4 router) (refl, omega arith, omega arith, refl)

split_host_lem_example :
    (split_host (91 ∷ (bytes "::1" ++ (93 ∷ 58 ∷ bytes "80"))) ≡ (bytes "::1", some (bytes "80")))
    × (split_host (bytes "fe" ++ (58 ∷ bytes "80")) ≡ (bytes "fe", some (bytes "80")))
    × (split_host (bytes "fe") ≡ (bytes "fe", none))
    × (split_host (bytes "fe" ++ (58 ∷ (bytes "80" ++ (58 ∷ bytes ":1"))))
        ≡ (bytes "fe:80::1", some (bytes ":80::1")))
split_host_lem_example =
    split_host_lem 102 58 (bytes "e") (bytes ":1") (bytes "80") (bytes ":1")
      (λ e. omega arith, (λ e. omega arith, (λ e. omega arith, tt))) (λ e. omega arith)
      (λ e. omega arith, (λ e. omega arith, tt)) (λ e. omega arith, (λ e. omega arith, tt))

unix_address_lem_example :
    ((unix_address (bytes "/tmp/s") >>= path_of) ≡ ok (bytes "/tmp/s"))
    × ((unix_address (0 ∷ replicate 108 97) >>= path_of) ≡ throws)
unix_address_lem_example =
    unix_address_lem 47 (bytes "tmp/s") (replicate 108 97)
      (
        λ e. omega arith,
        (
          λ e. omega arith,
          (λ e. omega arith, (λ e. omega arith, (λ e. omega arith, (λ e. omega arith, tt)))),
        ),
      )
      (omega arith) (omega arith)

groups_from_lem_example :
    (groups_from none false (0x2001 ∷ 0xdb8 ∷ []) ≡ joined (0x2001 ∷ 0xdb8 ∷ []))
    × (groups_from none false ((0x2001 ∷ 0xdb8 ∷ []) ++ (replicate 5 0 ++ (1 ∷ [])))
        ≡ joined (0x2001 ∷ 0xdb8 ∷ []) ++ (bytes "::" ++ joined (1 ∷ [])))
groups_from_lem_example =
    groups_from_lem (0x2001 ∷ 0xdb8 ∷ []) (1 ∷ []) 4 (λ e. omega arith, (λ e. omega arith, tt))
      (λ e. omega arith)

abbrev resolver : Resolver
resolver node service hints = inr (answers_of big (ipv4 router ∷ []))

lookup_lem_example :
    (lookup big resolver [] (bytes "router:80") 2 1 0 ≡ ok (true, map some (ipv4 router ∷ [])))
    × (lookup_any_ip_address big resolver (bytes "router:80") 2 1 0 ≡ ok (some (ipv4 router)))
lookup_lem_example =
    lookup_lem big resolver (bytes "router:80") 2 1 0 (ipv4 router) []
      ((refl, omega arith, omega arith, refl), tt) refl

abbrev eth0 : Link
eth0 = record { name = bytes "eth0"; address = router; prefix_len = 24 }

abbrev lo : Link
lo = record { name = bytes "lo"; address = router; prefix_len = 8 }

get_interface_addresses_lem_example :
    (es : List Entry) × (get_interface_addresses big
        (some (listed big lo ∷ listed big eth0 ∷ []))
        []
        2
      ≡ ok (true, es))
    × IsOrdered es
    × ((n : List ℕ) → entries_of n es ≡ of_name n (lo ∷ eth0 ∷ []))
    × (get_interface_addresses_of big
          (some (listed big lo ∷ listed big eth0 ∷ []))
          []
          (bytes "eth0")
          2
        ≡ ok (true, (some (ipv4 router), 24) ∷ []))
get_interface_addresses_lem_example =
    get_interface_addresses_lem big 2 lo (eth0 ∷ []) (bytes "eth0") (inl refl)
      (
        ((refl, omega arith, omega arith, refl), omega arith, omega arith),
        (((refl, omega arith, omega arith, refl), omega arith, omega arith), tt),
      )
      refl
