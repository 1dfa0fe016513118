-- ===== src/Address/Sockaddr.antt =====
-- The `sockaddr` structures that `InetServer::bind` of lib/InetServer.cpp and `Socket::open` of
-- lib/Socket.cpp fill.
pub mod Filled
use libxio.Base.{
  Bool, true, false, ℕ, ◌+◌, ◌≡◌, ◌≤◌, Bytes, ap, ◌∙◌, refl, length, take, replicate, length-take,
  Bool-cases, inl, inr, Run, done, Option, none, some, [], ◌∷◌, Returns, Returns-mono, Returns-bind,
  ◌>>=◌, arith, ◌==◌, eq→==, if◌then◌else◌,
}
use libxio.Base.Int.{ℤ, pos, negsuc}
use libxio.Address.{IpAddress, size, v4, v6}
use libxio.System.{overlay, overlay-Returns, port_bytes}

-- 16 zero bytes, the address copied to offset 4 and the port to offset 2. `sin_family` stays 0.
unfoldable pub sockaddr : IpAddress → ℤ → Run Bytes
sockaddr a port = overlay (replicate 16 0) 4 (take (size a) a.buf) >>= λ with_addr.
    overlay with_addr 2 (port_bytes port)

length-port_bytes : (port : ℤ) → length (port_bytes port) ≡ 2
length-port_bytes (pos n) = refl
length-port_bytes (negsuc n) = refl

-- The address of four bytes fits.
pub sockaddr-Returns :
    (a : IpAddress) (port : ℤ) → a.family ≡ v4 → Returns (λ m. length m ≡ 16) (sockaddr a port)
unfolding sockaddr
sockaddr-Returns a port e =
    Returns-bind (λ m. length m ≡ 16) (λ m. length m ≡ 16)
      (overlay (replicate 16 0) 4 (take (size a) a.buf)) (λ m. overlay m 2 (port_bytes port))
      (overlay-Returns (replicate 16 0) 4 (take (size a) a.buf)
        (omega (arith, length-take (size a) a.buf, four)))
      (λ m h.
        Returns-mono (λ m'. length m' ≡ length m) (λ m'. length m' ≡ 16)
          (overlay m 2 (port_bytes port))
          (overlay-Returns m 2 (port_bytes port) (omega (arith, length-port_bytes port, h)))
          (λ m' k. k ∙ h))
  where
    four : size a ≡ 4
    four = ap (λ b. if b then 4 else 16) (eq→== a.family v4 e)

-- The zeroed bytes of a `sockaddr_in6` with family, port and address, of which `connect` gets as many
-- as the family's structure has; `none` for another family.
unfoldable pub filled : (size : ℕ) → (family off : ℕ) → IpAddress → ℤ → Run Bytes
filled n family off a port = overlay (replicate 28 0) 0 (family ∷ (0 ∷ [])) >>= λ m₁.
    overlay m₁ 2 (port_bytes port) >>= λ m₂.
    overlay m₂ off (take (size a) a.buf) >>= λ m₃. done (take n m₃)

unfoldable pub connect_address : IpAddress → ℤ → Option (Run Bytes)
unfolding filled
connect_address a port =
    if a.family == v4
    then some (filled 16 v4 4 a port)
    else if a.family == v6
    then some (filled 28 v6 8 a port)
    else none

filled-Returns :
    (n family off : ℕ) (a : IpAddress) (port : ℤ)
    → n ≤ 28
    → off + size a ≤ 28
    → Returns (λ m. length m ≡ n) (filled n family off a port)
unfolding filled
filled-Returns n family off a port fits inside =
    Returns-bind Whole (λ m. length m ≡ n) (overlay (replicate 28 0) 0 (family ∷ (0 ∷ [])))
      (λ m₁. overlay m₁ 2 (port_bytes port) >>= λ m₂.
        overlay m₂ off (take (size a) a.buf) >>= λ m₃. done (take n m₃))
      (overlay-Returns (replicate 28 0) 0 (family ∷ (0 ∷ [])) (omega arith))
      (λ m₁ w₁.
        Returns-bind Whole (λ m. length m ≡ n) (overlay m₁ 2 (port_bytes port))
          (λ m₂. overlay m₂ off (take (size a) a.buf) >>= λ m₃. done (take n m₃))
          (kept m₁ 2 (port_bytes port) w₁ (omega (arith, length-port_bytes port)))
          (λ m₂ w₂.
            Returns-bind Whole (λ m. length m ≡ n) (overlay m₂ off (take (size a) a.buf))
              (λ m₃. done (take n m₃))
              (kept m₂ off (take (size a) a.buf) w₂
                (omega (arith, length-take (size a) a.buf, inside)))
              (λ m₃ w₃. omega (arith, length-take n m₃, w₃, fits))))
  where
    Whole : Bytes → Type 0
    Whole m = length m ≡ 28

    kept :
        (m : Bytes) (at : ℕ) (xs : Bytes)
        → length m ≡ 28
        → at + length xs ≤ 28
        → Returns (λ m'. length m' ≡ 28) (overlay m at xs)
    kept m at xs w le =
        Returns-mono (λ m'. length m' ≡ length m) (λ m'. length m' ≡ 28) (overlay m at xs)
          (overlay-Returns m at xs (omega arith)) (λ m' k. k ∙ w)

-- Whatever the family, the address that `connect` gets is filled within its bounds.
abbrev pub Fills : Option (Run Bytes) → Type 0
Fills none = Unit
Fills (some r) = Returns (λ _. Unit {0}) r

pub connect_address-Fills : (a : IpAddress) (port : ℤ) → Fills (connect_address a port)
unfolding connect_address
connect_address-Fills a port = through (a.family == v4) (a.family == v6)
  where
    at_most : size a ≤ 16
    at_most = elim (Bool-cases (a.family == v4)) [
      | inl short ↦ rw short (omega arith)
      | inr long ↦ rw long (omega arith)
    ]

    any :
        (n family off : ℕ)
        → n ≤ 28
        → off + size a ≤ 28
        → Returns (λ _. Unit {0}) (filled n family off a port)
    any n family off fits inside =
        Returns-mono (λ m. length m ≡ n) (λ _. Unit) (filled n family off a port)
          (filled-Returns n family off a port fits inside) (λ m e. tt)

    through :
        (b c : Bool)
        → Fills (
            if b
            then some (filled 16 v4 4 a port)
            else if c
            then some (filled 28 v6 8 a port)
            else none)
    through true c = any 16 v4 4 (omega arith) (omega (arith, at_most))
    through false true = any 28 v6 8 (omega arith) (omega (arith, at_most))
    through false false = tt
