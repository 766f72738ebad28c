-- ===== src/Address/Unix.antt =====
-- xupeng/address.cc: UnixAddress with a path. `sun_path` has 108 bytes and stands 2 bytes into the object.
pub mod Paths
use xupeng.Prelude.{
  ℕ, zero, suc, ◌+◌, ◌-◌, ◌%◌, ◌^◌, Bool, true, false, ◌&&◌, List, [], ◌∷◌, ◌++◌, length, take,
  drop, replicate, ltb, leb, ◌==◌, if◌then◌else◌,
}
use xupeng.Prelude.Text.{bytes}
use xupeng.Prelude.Outcome.{Outcome, ok, throws, faults, ◌>>=◌}
use xupeng.Address.{Address, SockaddrUn, unix, af_unix}

abbrev pub leads_zero : List ℕ → Bool
leads_zero [] = false
leads_zero (x ∷ xs) = x == 0

-- `m_length` before the offset is added: the path with its NUL, and without it for an abstract path.
unfoldable pub path_length : List ℕ → ℕ
path_length path =
    let n = (length path + 1) % 2 ^ 32 in if leads_zero path then (n + (2 ^ 32 - 1)) % 2 ^ 32 else n

abbrev pub filled : List ℕ → ℕ → SockaddrUn
filled path n = record {
  sun_family = af_unix;
  sun_path = take n (path ++ (0 ∷ [])) ++ replicate (108 - n) 0;
}

-- `UnixAddress(path)`.
unfoldable pub unix_address : List ℕ → Outcome Address
unfolding path_length
unix_address path =
    let n = path_length path in
    if ltb 108 n then throws else ok (unix (filled path n) ((n + 2) % 2 ^ 32))

-- A C string in an array, which must end within it.
unfoldable pub c_string : List ℕ → Outcome (List ℕ)
c_string [] = faults
c_string (x ∷ xs) = let rest = c_string xs >>= λ s. ok (x ∷ s) in if x == 0 then ok [] else rest

-- `std::string(m_addr.sun_path + 1, n)`.
abbrev pub string_at_one : List ℕ → ℕ → Outcome (List ℕ)
string_at_one path n =
    if leb (n + 1) (length path) then ok (bytes "\\0" ++ take n (drop 1 path)) else faults

-- `getPath`, and `insert`, which writes the same.
unfoldable pub get_path : SockaddrUn → ℕ → Outcome (List ℕ)
unfolding c_string
get_path a n =
    let text = c_string a.sun_path in
    if ltb 2 n && leads_zero a.sun_path then string_at_one a.sun_path (n - 2 - 1) else text

abbrev pub path_of : Address → Outcome (List ℕ)
path_of (unix a n) = get_path a n
path_of _ = faults
