-- ===== src/Address/Resolve/Hosts.antt =====
-- What Lookup takes for the node and the service, and the addresses that it returns.
use xupeng.Prelude.{
  ℕ, ◌≡◌, ◌≢◌, refl, true, inr, Option, none, some, List, [], ◌∷◌, ◌++◌, map, All, eq→==, ne→==,
}
use xupeng.Prelude.Outcome.{ok}
use xupeng.ByteArray.{Endian}
use xupeng.Address.{Address, ipv4, ipv6, unix, unknown, get_addr}
use xupeng.Address.RoundTrip.{IsIp, create-get_addr}
use xupeng.Address.Resolve.{
  cut_at, first_ip, all_printed, split_host, created, lookup, lookup_any_ip_address, Resolver,
  c_text, c_service,
}

abbrev pub Without : ℕ → List ℕ → Type 0
Without c xs = All (λ x. x ≢ c) xs

cut_at-first : (c : ℕ) (xs ys : List ℕ) → Without c xs → cut_at c (xs ++ (c ∷ ys)) ≡ some (xs, ys)
unfolding cut_at
cut_at-first c [] ys h = rw (eq→== c c refl) refl
cut_at-first c (x ∷ xs) ys h = rw (ne→== x c h.0, cut_at-first c xs ys h.1) refl

cut_at-none : (c : ℕ) (xs : List ℕ) → Without c xs → cut_at c xs ≡ none
unfolding cut_at
cut_at-none c [] h = refl
cut_at-none c (x ∷ xs) h = rw (ne→== x c h.0, cut_at-none c xs h.1) refl

-- How Lookup splits a host that is written "[address]:service", and "node:service" or "node" with no other
-- colon and no bracket at the start, where neither the address nor the node is empty. With a second colon
-- and no brackets, as in an IPv6 address alone, the node is the whole text, and the service is not null but
-- the text from the first colon on.
pub split_host_lem :
    (x y : ℕ) (node address service more : List ℕ)
    → Without 93 (y ∷ address)
    → x ≢ 91
    → Without 58 (x ∷ node)
    → Without 58 service
    → (split_host (91 ∷ ((y ∷ address) ++ (93 ∷ 58 ∷ service))) ≡ (y ∷ address, some service))
      × (split_host ((x ∷ node) ++ (58 ∷ service)) ≡ (x ∷ node, some service))
      × (split_host (x ∷ node) ≡ (x ∷ node, none))
      × (split_host ((x ∷ node) ++ (58 ∷ (service ++ (58 ∷ more))))
          ≡ ((x ∷ node) ++ (58 ∷ (service ++ (58 ∷ more))), some (58 ∷ (service ++ (58 ∷ more)))))
unfolding split_host
split_host_lem x y node address service more h b n s = (
  rw (cut_at-first 93 (y ∷ address) (58 ∷ service) h) refl,
  rw (ne→== x 91 b, cut_at-first 58 (x ∷ node) service n, cut_at-none 58 service s) refl,
  rw (ne→== x 91 b, cut_at-none 58 (x ∷ node) n) refl,
  rw
      (
        ne→== x 91 b,
        cut_at-first 58 (x ∷ node) (service ++ (58 ∷ more)) n,
        cut_at-first 58 service more s,
      )
      refl,
)

-- What getaddrinfo answers when it finds the addresses of a list.
abbrev pub answers_of : Endian → List Address → List (Option (List ℕ))
answers_of host as' = map (λ a. some (get_addr host a)) as'

created-answers :
    (host : Endian) (getaddrinfo : Resolver) (as' : List Address)
    → All IsIp as'
    → created host getaddrinfo (answers_of host as') ≡ ok (map some as')
unfolding created
created-answers host getaddrinfo [] h = refl
created-answers host getaddrinfo (a ∷ as') h =
    rw (create-get_addr host a h.0, created-answers host getaddrinfo as' h.1) refl

all_printed-some : (as' : List Address) → all_printed (map some as') ≡ true
all_printed-some [] = refl
all_printed-some (a ∷ as') = all_printed-some as'

first_ip-IsIp :
    (a : Address) (as' : List Address) → IsIp a → first_ip (some a ∷ map some as') ≡ some a
first_ip-IsIp (ipv4 a) as' h = refl
first_ip-IsIp (ipv6 a) as' h = refl
first_ip-IsIp (unix a n) as' h = absurd h
first_ip-IsIp (unknown a) as' h = absurd h

-- Lookup asks for the node and the service that it has split the name into. Given the bytes of a list of
-- IPv4 and IPv6 addresses it succeeds when there is one and returns them in order, and LookupAnyIPAddress
-- returns the first.
pub lookup_lem :
    (host : Endian) (getaddrinfo : Resolver) (name : List ℕ) (family type protocol : ℕ)
    → (a : Address) (as' : List Address) → All IsIp (a ∷ as')
    → getaddrinfo
        (c_text (split_host name).0)
        (c_service (split_host name).1)
        (record { ai_flags = 0; ai_family = family; ai_socktype = type; ai_protocol = protocol })
      ≡ inr (answers_of host (a ∷ as'))
    → (lookup host getaddrinfo [] name family type protocol ≡ ok (true, map some (a ∷ as')))
      × (lookup_any_ip_address host getaddrinfo name family type protocol ≡ ok (some a))
unfolding lookup lookup_any_ip_address
lookup_lem host getaddrinfo name family type protocol a as' h e =
    let made = created-answers host getaddrinfo (a ∷ as') h in
    (rw (e, made) refl, rw (e, made, all_printed-some as', first_ip-IsIp a as' h.0) refl)
