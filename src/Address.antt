-- ===== src/Address.antt =====
-- `IPAddress` (include/xio/IPAddress.h, lib/IPAddress.cpp) and `SocketSpec`
-- (include/xio/SocketSpec.h): their equality and their hashes.
pub mod Hashed
pub mod Sockaddr
mod Tests
use Prim.Native.Nat.{bit_xor}
use libxio.Base.{
  ℕ, ◌+◌, ◌*◌, ◌≡◌, Bool, true, false, not, ◌||◌, List, [], ◌∷◌, ◌++◌, Bytes, length, take, drop,
  replicate, Option, none, some, Run, done, fault, Fault, ◌>>=◌, ◌==◌, if◌then◌else◌,
}
use libxio.Base.Int.{ℤ}
use libxio.BufferRef.{mem_eq}

-- `AF_INET` and `AF_INET6` of Linux.
abbrev pub v4 : ℕ
v4 = 2

abbrev pub v6 : ℕ
v6 = 10

-- The fields `family_` and `buf_`, an array of 16 bytes.
pub record IpAddress : Type 0 where
  pub family : ℕ
  pub buf : Bytes

-- `size`.
abbrev pub size : IpAddress → ℕ
size a = if a.family == v4 then 4 else 16

-- `inet_pton`: the bytes that it stores for a family and a text, or `none` where it fails.
abbrev pub Pton : Type 0
Pton = ℕ → Bytes → Option Bytes

-- `set(text, family)`: the family is changed even if the text is refused.
unfoldable pub set : Pton → Bytes → ℕ → IpAddress → Bool × IpAddress
set pton text family a = elim (pton family text) [
  | none ↦ (false, record { family = family; buf = a.buf })
  | some xs ↦ (true, record { family = family; buf = xs ++ drop (length xs) a.buf })
]

-- The constructor without arguments.
abbrev pub unspecified : IpAddress
unspecified = record { family = 0; buf = replicate 16 0 }

-- The family of a text: IPv6 if it has a colon.
unfoldable pub family_of : Bytes → ℕ
family_of [] = v4
family_of (c ∷ text) = let rest = family_of text in if c == b':' then v6 else rest

-- The constructor from a text, where `raw` are the bytes that lie in the array before, and the
-- assignment of a text. That the text is refused is not told.
unfoldable pub from_text : Pton → (raw text : Bytes) → (family : ℕ) → IpAddress
unfolding set family_of
from_text pton raw text family =
    (set pton text (if family == 0 then family_of text else family)
      (record { family = 0; buf = raw })).1

unfoldable pub assign_text : Pton → Bytes → IpAddress → IpAddress
unfolding set family_of
assign_text pton text a = (set pton text (family_of text) a).1

-- `operator=(const IPAddress&)` copies as many bytes as the family has.
unfoldable pub copy_assign : IpAddress → IpAddress → IpAddress
copy_assign v a = record { family = v.family; buf = take (size v) v.buf ++ drop (size v) a.buf }

-- `operator==` of two objects.
unfoldable pub equals : IpAddress → IpAddress → Run Bool
equals a b =
    if not (a.family == b.family)
    then done false
    else if (a.family == v4) || (a.family == v6)
    then mem_eq a.buf b.buf (size a)
    else done false

-- `std::hash<IPAddress>`: the first four bytes as a little-endian `uint32_t`.
unfoldable pub hash_bytes : Bytes → Run ℕ
hash_bytes (w ∷ x ∷ y ∷ z ∷ m) = done (w + 256 * (x + 256 * (y + 256 * z)))
hash_bytes _ = fault Fault.out_of_bounds

unfoldable pub hash : IpAddress → Run ℕ
hash a = hash_bytes a.buf

-- `SocketSpec::Type`.
pub data Kind : Type 0 where
  unknown local inet : Kind

-- The fields that the comparisons read.
pub record SocketSpec : Type 0 where
  pub type : Kind
  pub ipaddr : IpAddress
  pub local : Bytes
  pub port : ℤ

module _ (string_eq : Bytes → Bytes → Bool) (int_eq : ℤ → ℤ → Bool) where
  -- The `switch` of `operator==`, on the types of both; strings and ports are compared by the
  -- library's and the language's equality.
  unfoldable pub equals_as : Kind → Kind → SocketSpec → SocketSpec → Run Bool
  equals_as Kind.local Kind.local a b = done (string_eq a.local b.local)
  equals_as Kind.inet Kind.inet a b =
      if int_eq a.port b.port then equals a.ipaddr b.ipaddr else done false
  equals_as Kind.unknown t a b = done false
  equals_as Kind.local Kind.unknown a b = done false
  equals_as Kind.local Kind.inet a b = done false
  equals_as Kind.inet Kind.unknown a b = done false
  equals_as Kind.inet Kind.local a b = done false

  -- `operator==` of two specifications.
  unfoldable pub spec_equals : SocketSpec → SocketSpec → Run Bool
  spec_equals a b = equals_as a.type b.type a b

module _ (hash_size : ℕ → ℕ) (hash_string : Bytes → ℕ) where
  -- The `switch` of `std::hash<SocketSpec>`, over the hashes of `size_t` and of strings.
  unfoldable pub hash_as : Kind → SocketSpec → Run ℕ
  hash_as Kind.inet v = do h ← hash v.ipaddr; done (bit_xor (hash_size 2) h)
  hash_as Kind.local v = done (bit_xor (hash_size 1) (hash_string v.local))
  hash_as Kind.unknown v = done 0

  -- `std::hash<SocketSpec>`.
  unfoldable pub spec_hash : SocketSpec → Run ℕ
  spec_hash v = hash_as v.type v
