-- ===== src/Address/Sockaddr/Filled.antt =====
-- The bytes of the address that `InetServer::bind` hands to the system.
use libxio.Base.{
  ℕ, ◌+◌, ◌≡◌, refl, [], ◌∷◌, ◌++◌, Bytes, length, take, replicate, done, fault, Fault, ◌>>=◌, ◌==◌,
  if◌then◌else◌, Bool-cases, inl, inr, gt→leb, length-take, arith,
}
use libxio.Base.Int.{ℤ, pos, negsuc}
use libxio.System.{overlay, port_bytes}
use libxio.Address.{IpAddress, v4}
use libxio.Address.Sockaddr.{sockaddr}

with_four :
    (xs : Bytes) (port : ℤ)
    → length xs ≡ 4
    → (overlay (replicate 16 0) 4 xs >>= λ m. overlay m 2 (port_bytes port))
      ≡ done (0 ∷ (0 ∷ (port_bytes port ++ (xs ++ replicate 8 0))))
with_four [] port h = absurd (omega arith)
with_four (a ∷ []) port h = absurd (omega arith)
with_four (a ∷ (b ∷ [])) port h = absurd (omega arith)
with_four (a ∷ (b ∷ (c ∷ []))) port h = absurd (omega arith)
with_four (a ∷ (b ∷ (c ∷ (d ∷ [])))) (pos n) h = refl
with_four (a ∷ (b ∷ (c ∷ (d ∷ [])))) (negsuc n) h = refl
with_four (a ∷ (b ∷ (c ∷ (d ∷ (e ∷ xs))))) port h = absurd (omega arith)

with_sixteen :
    (xs : Bytes) (port : ℤ)
    → length xs ≡ 16
    → (overlay (replicate 16 0) 4 xs >>= λ m. overlay m 2 (port_bytes port))
      ≡ fault Fault.out_of_bounds
with_sixteen xs port h = rw (gt→leb (4 + length xs) 16 (omega arith)) refl

-- For an IPv4 address the system gets the port and the four bytes of the address, in network order,
-- behind a family of 0; for any other address the copy runs over the end of the structure.
pub sockaddr_lem :
    (a : IpAddress) (port : ℤ)
    → length a.buf ≡ 16
    → sockaddr a port ≡ (
        if a.family == v4
        then done (0 ∷ (0 ∷ (port_bytes port ++ (take 4 a.buf ++ replicate 8 0))))
        else fault Fault.out_of_bounds)
unfolding sockaddr
sockaddr_lem a port whole = elim (Bool-cases (a.family == v4)) [
  | inl short ↦
      rw short (with_four (take 4 a.buf) port (omega (arith, length-take {A = ℕ} 4 a.buf)))
  | inr long ↦
      rw long (with_sixteen (take 16 a.buf) port (omega (arith, length-take {A = ℕ} 16 a.buf)))
]
