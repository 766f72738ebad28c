-- ===== src/Address/Resolve.antt =====
-- xupeng/address.cc: Lookup and what is built on it. getaddrinfo is an argument; it gets C strings, so a
-- text up to its first NUL.
pub mod Hosts
use xupeng.Prelude.{
  ℕ, Bool, true, false, not, ◌⊎◌, inl, inr, Option, none, some, List, [], ◌∷◌, ◌++◌, ◌==◌,
  if◌then◌else◌,
}
use xupeng.Prelude.Text.{no_text}
use xupeng.Prelude.Outcome.{Outcome, ok, faults, ◌>>=◌}
use xupeng.ByteArray.{Endian}
use mathlib.Core.Option
use xupeng.Address.{
  Address, ipv4, ipv6, ipv4_address, ipv6_address, create, is_ip, set_port, af_unspec,
}

-- `memchr(xs, c, n)` over the whole text: what stands before the first `c`, and after it.
unfoldable pub cut_at : ℕ → List ℕ → Option (List ℕ × List ℕ)
cut_at c [] = none
cut_at c (x ∷ xs) =
    let rest = cut_at c xs in
    if x == c then some ([], xs) else elim rest [ none ↦ none | some p ↦ some (x ∷ p.0, p.1) ]

-- The text after a colon, if it starts with one.
abbrev pub after_colon : List ℕ → Option (List ℕ)
after_colon [] = none
after_colon (x ∷ xs) = if x == 58 then some xs else none

-- "[node]:service".
abbrev pub closed : Option (List ℕ × List ℕ) → List ℕ × Option (List ℕ)
closed none = ([], none)
closed (some p) = (p.0, after_colon p.1)

abbrev pub bracketed : List ℕ → List ℕ × Option (List ℕ)
bracketed [] = ([], none)
bracketed (x ∷ xs) = if x == 91 then closed (cut_at 93 xs) else ([], none)

-- "node:service". When there is a second colon the service stays at the first.
abbrev pub at_second : List ℕ × List ℕ → Option (List ℕ × List ℕ) → List ℕ × Option (List ℕ)
at_second p none = (p.0, some p.1)
at_second p (some q) = ([], some (58 ∷ p.1))

abbrev pub at_colon : Option (List ℕ × List ℕ) → List ℕ × Option (List ℕ)
at_colon none = ([], none)
at_colon (some p) = at_second p (cut_at 58 p.1)

abbrev pub unless_found :
    List ℕ × Option (List ℕ) → List ℕ × Option (List ℕ) → List ℕ × Option (List ℕ)
unless_found ([], service) other = other
unless_found (x ∷ node, service) other = (x ∷ node, service)

-- `node` and `service` as `Lookup` finds them.
unfoldable pub split_host : List ℕ → List ℕ × Option (List ℕ)
unfolding cut_at
split_host host =
    let colon = at_colon (cut_at 58 host) in
    unless_found (bracketed host) (unless_found colon (host, colon.1))

pub record Hints : Type 0 where
  pub ai_flags : ℕ
  pub ai_family : ℕ
  pub ai_socktype : ℕ
  pub ai_protocol : ℕ

abbrev pub ai_numerichost : ℕ
ai_numerichost = 4

-- `c_str()`, as a C function reads it.
unfoldable pub c_text : List ℕ → List ℕ
c_text [] = []
c_text (x ∷ xs) = let rest = x ∷ c_text xs in if x == 0 then [] else rest

abbrev pub c_service : Option (List ℕ) → Option (List ℕ)
c_service none = none
c_service (some xs) = some (c_text xs)

-- An error, or the addresses of the list that it returns.
abbrev pub Resolver : Type 0
Resolver = List ℕ → Option (List ℕ) → Hints → ℕ ⊎ List (Option (List ℕ))

abbrev pub first_ip : List (Option Address) → Option Address
first_ip [] = none
first_ip (none ∷ rs) = first_ip rs
first_ip (some a ∷ rs) = if is_ip a then some a else first_ip rs

-- `i->toString()` of every result, which none may be null for.
abbrev pub all_printed : List (Option Address) → Bool
all_printed [] = true
all_printed (none ∷ rs) = false
all_printed (some a ∷ rs) = all_printed rs

abbrev pub no_results : List (Option Address) → Bool
no_results [] = true
no_results (r ∷ rs) = false

module _ (host : Endian) (getaddrinfo : Resolver) where
  -- The loop over the list.
  unfoldable pub created : List (Option (List ℕ)) → Outcome (List (Option Address))
  created [] = ok []
  created (p ∷ ps) = do a ← create host p; rest ← created ps; ok (a ∷ rest)

  abbrev pub looked_up :
      List (Option Address) → ℕ ⊎ List (Option (List ℕ)) → Outcome (Bool × List (Option Address))
  looked_up result (inl error) = ok (false, result)
  looked_up result (inr answers) = do
    as' ← created answers
    ok (not (no_results (result ++ as')), result ++ as')

  unfoldable pub lookup :
      List (Option Address) → List ℕ → ℕ → ℕ → ℕ → Outcome (Bool × List (Option Address))
  unfolding split_host c_text created
  lookup result name family type protocol =
      let (node, service) = split_host name in
      looked_up result (
        getaddrinfo (c_text node) (c_service service)
          (record { ai_flags = 0; ai_family = family; ai_socktype = type; ai_protocol = protocol }))

  abbrev pub head_of : Bool × List (Option Address) → Option Address
  head_of (false, rs) = none
  head_of (true, []) = none
  head_of (true, r ∷ rs) = r

  pub lookup_any : List ℕ → ℕ → ℕ → ℕ → Outcome (Option Address)
  unfolding lookup
  lookup_any name family type protocol = do
    found ← lookup [] name family type protocol
    ok (head_of found)

  abbrev pub ip_of : Bool × List (Option Address) → Outcome (Option Address)
  ip_of (false, rs) = ok none
  ip_of (true, rs) = if all_printed rs then ok (first_ip rs) else faults

  unfoldable pub lookup_any_ip_address : List ℕ → ℕ → ℕ → ℕ → Outcome (Option Address)
  unfolding lookup
  lookup_any_ip_address name family type protocol = do
    found ← lookup [] name family type protocol
    ip_of found

  -- `IPAddress::Create(address, port)`.
  abbrev pub with_port : Option Address → ℕ → Option Address
  with_port none port = none
  with_port (some a) port = if is_ip a then some (set_port host a port) else none

  abbrev pub first_answer : ℕ → ℕ ⊎ List (Option (List ℕ)) → Outcome (Option Address)
  first_answer port (inl error) = ok none
  first_answer port (inr []) = faults
  first_answer port (inr (p ∷ ps)) = do a ← create host p; ok (with_port a port)

  unfoldable pub create_ip : List ℕ → ℕ → Outcome (Option Address)
  create_ip address port = first_answer port (
      getaddrinfo address none (record {
        ai_flags = ai_numerichost;
        ai_family = af_unspec;
        ai_socktype = 0;
        ai_protocol = 0;
      }))

  -- `IPv4Address::Create` and `IPv6Address::Create`: inet_pton is an argument that gives the address in
  -- network order, or nothing when it returns 0 or less.
  pub create_ipv4 : (List ℕ → Option ℕ) → List ℕ → ℕ → Option Address
  create_ipv4 inet_pton address port =
      Option.map (λ s. ipv4 (record (ipv4_address host 0 port) { s_addr = s })) (inet_pton address)

  pub create_ipv6 : (List ℕ → Option (List ℕ)) → List ℕ → ℕ → Option Address
  create_ipv6 inet_pton address port =
      Option.map (λ bs. ipv6 (record (ipv6_address host [] port) { s6_addr = bs }))
        (inet_pton address)
