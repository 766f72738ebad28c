-- ===== src/Address/RoundTrip.antt =====
-- Address::Create from the bytes of an address.
use xupeng.Prelude.{
  ℕ, ◌+◌, ◌^◌, ◌<◌, ◌≡◌, refl, sym, ap, some, List, ◌++◌, length, length-append, take, drop, arith,
}
use xupeng.Prelude.Outcome.{ok}
use xupeng.Prelude.Slices.{take-all, take-append_length, drop-append_add, drop-append_length}
use xupeng.ByteArray.{Endian}
use xupeng.ByteArray.Fixed.{object_bytes, of_object_bytes}
use xupeng.ByteArray.Fixed.Bytes.{length-object_bytes, of_object_bytes-object_bytes}
use xupeng.Address.{
  Address, SockaddrIn, SockaddrIn6, ipv4, ipv6, unknown, unix, af_inet, af_inet6, field,
  as_sockaddr_in, as_sockaddr_in6, create, get_addr,
}

-- The addresses as the constructors of IPv4Address and IPv6Address and the system leave them.
abbrev pub IsIp : Address → Type 0
IsIp (ipv4 a) =
    (a.sin_family ≡ af_inet) × (a.sin_port < 2 ^ 16) × (a.s_addr < 2 ^ 32) × (length a.sin_zero ≡ 8)
IsIp (ipv6 a) =
    (a.sin6_family ≡ af_inet6)
    × (a.sin6_port < 2 ^ 16)
    × (a.sin6_flowinfo < 2 ^ 32)
    × (length a.s6_addr ≡ 16)
    × (a.sin6_scope_id < 2 ^ 32)
IsIp (unix a n) = ⊥
IsIp (unknown a) = ⊥

module _ (host : Endian) where
  -- A number of `n` bytes and what follows, after a part of `m` bytes.
  field-here :
      (n v : ℕ) (rest : List ℕ)
      → v < 256 ^ n
      → of_object_bytes host (take n (object_bytes host n v ++ rest)) ≡ v
  field-here n v rest h =
      rw (take-append_length n (object_bytes host n v) rest (sym (length-object_bytes host n v)))
        (of_object_bytes-object_bytes host n v h)

  past :
      (k n m v : ℕ) (rest : List ℕ)
      → k ≡ n + m
      → drop k (object_bytes host n v ++ rest) ≡ drop m rest
  past k n m v rest e =
      drop-append_add k m (object_bytes host n v) rest
        (omega (arith, e, length-object_bytes host n v))

  length-part : (n v : ℕ) (rest : List ℕ) → length (object_bytes host n v ++ rest) ≡ n + length rest
  length-part n v rest =
      omega (arith, length-append (object_bytes host n v) rest, length-object_bytes host n v)

  laid4 :
      (a : SockaddrIn)
      → get_addr host (ipv4 a)
        ≡ object_bytes host 2 a.sin_family
          ++ (object_bytes host 2 a.sin_port ++ (object_bytes host 4 a.s_addr ++ a.sin_zero))
  unfolding get_addr
  laid4 a = refl

  pub length-ipv4 : (a : SockaddrIn) → IsIp (ipv4 a) → length (get_addr host (ipv4 a)) ≡ 16
  length-ipv4 a h =
      rw (laid4 a, length-part 2 a.sin_family, length-part 2 a.sin_port, length-part 4 a.s_addr)
        (omega (arith, h.3))

  pub family4 : (a : SockaddrIn) → IsIp (ipv4 a) → field host 0 2 (get_addr host (ipv4 a)) ≡ af_inet
  family4 a h = rw (laid4 a, field-here 2 a.sin_family _ (omega (arith, h.0))) h.0

  pub fields4 : (a : SockaddrIn) → IsIp (ipv4 a) → as_sockaddr_in host (get_addr host (ipv4 a)) ≡ a
  unfolding as_sockaddr_in
  fields4 a h =
      let (family, port, addr, zeros) = h in
      rw
        (
          laid4 a,
          past 8 2 6 a.sin_family _ refl,
          past 6 2 4 a.sin_port _ refl,
          past 4 4 0 a.s_addr _ refl,
          past 4 2 2 a.sin_family _ refl,
          past 2 2 0 a.sin_port _ refl,
          past 2 2 0 a.sin_family _ refl,
          field-here 2 a.sin_family _ (omega (arith, family)),
          field-here 2 a.sin_port _ port,
          field-here 4 a.s_addr _ addr,
          take-all 8 a.sin_zero (omega (arith, zeros)),
        )
        refl

  create-ipv4 :
      (a : SockaddrIn)
      → IsIp (ipv4 a)
      → create host (some (get_addr host (ipv4 a))) ≡ ok (some (ipv4 a))
  unfolding create
  create-ipv4 a h =
      rw (length-ipv4 a h, family4 a h) (ap (λ (t : SockaddrIn). ok (some (ipv4 t))) (fields4 a h))

  laid6 :
      (a : SockaddrIn6)
      → get_addr host (ipv6 a)
        ≡ object_bytes host 2 a.sin6_family
          ++ (object_bytes host 2 a.sin6_port
              ++ (object_bytes host 4 a.sin6_flowinfo
                  ++ (a.s6_addr ++ object_bytes host 4 a.sin6_scope_id)))
  unfolding get_addr
  laid6 a = refl

  pub length-ipv6 : (a : SockaddrIn6) → IsIp (ipv6 a) → length (get_addr host (ipv6 a)) ≡ 28
  length-ipv6 a h =
      rw
        (
          laid6 a,
          length-part 2 a.sin6_family,
          length-part 2 a.sin6_port,
          length-part 4 a.sin6_flowinfo,
          length-append a.s6_addr,
          length-object_bytes host 4 a.sin6_scope_id,
        )
        (omega (arith, h.3))

  family6 : (a : SockaddrIn6) → IsIp (ipv6 a) → field host 0 2 (get_addr host (ipv6 a)) ≡ af_inet6
  family6 a h = rw (laid6 a, field-here 2 a.sin6_family _ (omega (arith, h.0))) h.0

  fields6 : (a : SockaddrIn6) → IsIp (ipv6 a) → as_sockaddr_in6 host (get_addr host (ipv6 a)) ≡ a
  unfolding as_sockaddr_in6
  fields6 a h =
      let (family, port, flow, bytes, scope) = h in
      let tail = object_bytes host 4 a.sin6_scope_id in
      let last : take 4 tail ≡ tail =
        take-all 4 tail (omega (arith, length-object_bytes host 4 a.sin6_scope_id)) in
      rw
        (
          laid6 a,
          past 8 2 6 a.sin6_family _ refl,
          past 6 2 4 a.sin6_port _ refl,
          past 4 4 0 a.sin6_flowinfo _ refl,
          past 4 2 2 a.sin6_family _ refl,
          past 2 2 0 a.sin6_port _ refl,
          past 2 2 0 a.sin6_family _ refl,
          past 24 2 22 a.sin6_family _ refl,
          past 22 2 20 a.sin6_port _ refl,
          past 20 4 16 a.sin6_flowinfo _ refl,
          drop-append_length 16 a.s6_addr tail (sym bytes),
          take-append_length 16 a.s6_addr tail (sym bytes),
          last,
          field-here 2 a.sin6_family _ (omega (arith, family)),
          field-here 2 a.sin6_port _ port,
          field-here 4 a.sin6_flowinfo _ flow,
          of_object_bytes-object_bytes host 4 a.sin6_scope_id scope,
        )
        refl

  create-ipv6 :
      (a : SockaddrIn6)
      → IsIp (ipv6 a)
      → create host (some (get_addr host (ipv6 a))) ≡ ok (some (ipv6 a))
  unfolding create
  create-ipv6 a h =
      rw (length-ipv6 a h, family6 a h) (ap (λ (t : SockaddrIn6). ok (some (ipv6 t))) (fields6 a h))

  -- Create, given what getAddr of an IPv4 or IPv6 address points to, makes that address again.
  pub create-get_addr : (a : Address) → IsIp a → create host (some (get_addr host a)) ≡ ok (some a)
  create-get_addr (ipv4 a) h = create-ipv4 a h
  create-get_addr (ipv6 a) h = create-ipv6 a h
  create-get_addr (unix a n) h = absurd h
  create-get_addr (unknown a) h = absurd h
