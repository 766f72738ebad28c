-- ===== src/Address.antt =====
-- xupeng/address.h and address.cc: the addresses by family, what each holds, its bytes in memory, and
-- the constructors. A field of more than one byte is the number that the machine of byte order `host`
-- reads there, so a field in network order goes through `byteswapOnLittleEndian`; the `sockaddr`
-- behind a pointer is the list of its bytes. The sizes and the numbers of the families are those of
-- Linux. A call of C++ with no defined behaviour (a read outside of an object, a shift by the width)
-- `faults`.
pub mod Masks
pub mod Order
pub mod RoundTrip
pub mod Resolve
pub mod Interfaces
pub mod Unix
pub mod Printing
mod Examples
use xupeng.Prelude.{
  ℕ, ◌+◌, ◌-◌, ◌*◌, ◌%◌, ◌^◌, Bool, true, false, Option, none, some, List, [], ◌∷◌, ◌++◌, length,
  take, drop, replicate, ltb, leb, ◌==◌, if◌then◌else◌,
}
use xupeng.Prelude.Outcome.{Outcome, ok, throws, faults, ◌>>=◌}
use xupeng.ByteArray.{Endian, little, big}
use xupeng.ByteArray.Fixed.{object_bytes, of_object_bytes, byteswap}

pub record SockaddrIn : Type 0 where
  pub sin_family : ℕ
  pub sin_port : ℕ
  pub s_addr : ℕ
  pub sin_zero : List ℕ

pub record SockaddrIn6 : Type 0 where
  pub sin6_family : ℕ
  pub sin6_port : ℕ
  pub sin6_flowinfo : ℕ
  pub s6_addr : List ℕ
  pub sin6_scope_id : ℕ

pub record SockaddrUn : Type 0 where
  pub sun_family : ℕ
  pub sun_path : List ℕ

pub record Sockaddr : Type 0 where
  pub sa_family : ℕ
  pub sa_data : List ℕ

-- IPv4Address, IPv6Address, UnixAddress with `m_length`, and UnknownAddress.
pub data Address : Type 0 where
  ipv4 : SockaddrIn → Address
  ipv6 : SockaddrIn6 → Address
  unix : SockaddrUn → ℕ → Address
  unknown : Sockaddr → Address

abbrev pub af_unspec : ℕ
af_unspec = 0

abbrev pub af_unix : ℕ
af_unix = 1

abbrev pub af_inet : ℕ
af_inet = 2

abbrev pub af_inet6 : ℕ
af_inet6 = 10

-- `getFamily` and `getAddrLen`.
abbrev pub get_family : Address → ℕ
get_family (ipv4 a) = a.sin_family
get_family (ipv6 a) = a.sin6_family
get_family (unix a n) = a.sun_family
get_family (unknown a) = a.sa_family

abbrev pub get_addr_len : Address → ℕ
get_addr_len (ipv4 a) = 16
get_addr_len (ipv6 a) = 28
get_addr_len (unix a n) = n
get_addr_len (unknown a) = 16

-- `dynamic_pointer_cast<IPAddress>` succeeds.
abbrev pub is_ip : Address → Bool
is_ip (ipv4 a) = true
is_ip (ipv6 a) = true
is_ip (unix a n) = false
is_ip (unknown a) = false

-- The bytes of a number of `n` bytes at an offset.
abbrev pub field : Endian → ℕ → ℕ → List ℕ → ℕ
field host offset n bs = of_object_bytes host (take n (drop offset bs))

-- `IPv6Address()`, and `IPv4Address(address, port)` below.
abbrev pub ipv6_any : SockaddrIn6
ipv6_any = record {
  sin6_family = af_inet6;
  sin6_port = 0;
  sin6_flowinfo = 0;
  s6_addr = replicate 16 0;
  sin6_scope_id = 0;
}

-- `UnixAddress()`.
abbrev pub unix_any : Address
unix_any = unix (record { sun_family = af_unix; sun_path = replicate 108 0 }) (2 + 107)

-- `UnknownAddress(family)`.
abbrev pub unknown_address : ℕ → Address
unknown_address family = unknown (record { sa_family = family; sa_data = replicate 14 0 })

-- `UnixAddress::setAddrLen`.
abbrev pub set_addr_len : Address → ℕ → Address
set_addr_len (ipv4 a) v = ipv4 a
set_addr_len (ipv6 a) v = ipv6 a
set_addr_len (unix a n) v = unix a v
set_addr_len (unknown a) v = unknown a

module _ (host : Endian) where
  -- `byteswapOnLittleEndian` of a type of `n` bytes.
  unfoldable pub byteswap_on_little_endian : ℕ → ℕ → ℕ
  byteswap_on_little_endian n v = elim host [ little ↦ byteswap n v | big ↦ v ]

  unfoldable pub ipv4_address : ℕ → ℕ → SockaddrIn
  ipv4_address address port = record {
    sin_family = af_inet;
    sin_port = byteswap_on_little_endian 2 port;
    s_addr = byteswap_on_little_endian 4 address;
    sin_zero = replicate 8 0;
  }

  -- `IPv6Address(address[16], port)`.
  unfoldable pub ipv6_address : List ℕ → ℕ → SockaddrIn6
  ipv6_address address port = record {
    sin6_family = af_inet6;
    sin6_port = byteswap_on_little_endian 2 port;
    sin6_flowinfo = 0;
    s6_addr = take 16 address;
    sin6_scope_id = 0;
  }

  -- The object that `getAddr` points to.
  unfoldable pub get_addr : Address → List ℕ
  get_addr (ipv4 a) =
      object_bytes host 2 a.sin_family
      ++ (object_bytes host 2 a.sin_port ++ (object_bytes host 4 a.s_addr ++ a.sin_zero))
  get_addr (ipv6 a) =
      object_bytes host 2 a.sin6_family
      ++ (object_bytes host 2 a.sin6_port
          ++ (object_bytes host 4 a.sin6_flowinfo
              ++ (a.s6_addr ++ object_bytes host 4 a.sin6_scope_id)))
  get_addr (unix a n) = object_bytes host 2 a.sun_family ++ a.sun_path
  get_addr (unknown a) = object_bytes host 2 a.sa_family ++ a.sa_data

  -- The objects of the bytes that a pointer is cast to.
  unfoldable pub as_sockaddr_in : List ℕ → SockaddrIn
  as_sockaddr_in bs = record {
    sin_family = field host 0 2 bs;
    sin_port = field host 2 2 bs;
    s_addr = field host 4 4 bs;
    sin_zero = take 8 (drop 8 bs);
  }

  unfoldable pub as_sockaddr_in6 : List ℕ → SockaddrIn6
  as_sockaddr_in6 bs = record {
    sin6_family = field host 0 2 bs;
    sin6_port = field host 2 2 bs;
    sin6_flowinfo = field host 4 4 bs;
    s6_addr = take 16 (drop 8 bs);
    sin6_scope_id = field host 24 4 bs;
  }

  unfoldable pub as_sockaddr : List ℕ → Sockaddr
  as_sockaddr bs = record { sa_family = field host 0 2 bs; sa_data = take 14 (drop 2 bs) }

  abbrev pub when_readable : ℕ → List ℕ → Address → Outcome (Option Address)
  when_readable n bs a = if leb n (length bs) then ok (some a) else faults

  -- `Address::Create`: the family chooses what the bytes are read as.
  unfoldable pub create : Option (List ℕ) → Outcome (Option Address)
  create none = ok none
  create (some bs) =
      if ltb (length bs) 2
      then faults
      else if field host 0 2 bs == af_inet
      then when_readable 16 bs (ipv4 (as_sockaddr_in bs))
      else if field host 0 2 bs == af_inet6
      then when_readable 28 bs (ipv6 (as_sockaddr_in6 bs))
      else when_readable 16 bs (unknown (as_sockaddr bs))

  -- `getPort`, and `setPort` of an IPAddress.
  unfoldable pub get_port : Address → Option ℕ
  get_port (ipv4 a) = some (byteswap_on_little_endian 2 a.sin_port)
  get_port (ipv6 a) = some (byteswap_on_little_endian 2 a.sin6_port)
  get_port (unix a n) = none
  get_port (unknown a) = none

  unfoldable pub set_port : Address → ℕ → Address
  set_port (ipv4 a) v = ipv4 (record a { sin_port = byteswap_on_little_endian 2 v })
  set_port (ipv6 a) v = ipv6 (record a { sin6_port = byteswap_on_little_endian 2 v })
  set_port (unix a n) v = unix a n
  set_port (unknown a) v = unknown a
