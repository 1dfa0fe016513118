-- ===== src/SocketDriver.antt =====
-- The factory of client sockets, lib/SocketDriver.cpp.
mod Tests
use libxio.Base.{
  ℕ, suc, ◌+◌, ◌≡◌, refl, ap, sym, ◌∙◌, Bool, true, false, Option, none, some, ◌∷◌, Bytes, Run,
  done, fault, Returns, if◌then◌else◌, arith,
}
use libxio.Base.Int.{ℤ, pos}
use libxio.Address.{IpAddress}
use libxio.Address.Sockaddr.{connect_address, connect_address-Fills, Fills}
use libxio.System.{
  Sys, Os, History, Call, Answer, ok, error, ◌>>=◌, ◌>>◌, pure, call, from_run, is_fd,
}
use libxio.System.Call.{socket, connect, close}
use libxio.Server.Rules.{opens, closes, own, closes-own, opens-made, opens-refused}
use libxio.Socket.{Socket, State, operational, new_with}

module _ {Span : Type 0} (zero_span : Span) where
  -- `create(loop, handle, af)`.
  abbrev pub adopt : ℤ → Socket Span
  adopt handle = new_with zero_span handle operational

  -- What `create` does with the result of `connect`.
  abbrev finish : ℤ → Answer → Sys (Option (Socket Span))
  finish fd (ok n) = pure (some (adopt fd))
  finish fd (error e) = call (close fd) >> pure none

  -- The switch over the families; another family has no address and counts as a failure.
  unfoldable pub connect_with : ℤ → Option (Run Bytes) → Sys (Option (Socket Span))
  connect_with fd none = call (close fd) >> pure none
  connect_with fd (some address) = from_run address >>= λ addr. call (connect fd addr) >>= finish fd

  abbrev with_descriptor : IpAddress → ℤ → Answer → Sys (Option (Socket Span))
  with_descriptor a port (error e) = pure none
  with_descriptor a port (ok n) = connect_with (pos n) (connect_address a port)

  -- `create(loop, ipaddr, port)`.
  unfoldable pub create : IpAddress → ℤ → Sys (Option (Socket Span))
  unfolding connect_with connect_address
  create a port = call (socket a.family 1) >>= with_descriptor a port

  -- An operational socket with a valid descriptor, if there is one.
  abbrev pub Ready : Option (Socket Span) → Type 0
  Ready none = Unit
  Ready (some s) = (is_fd s.fd ≡ true) × (s.state ≡ operational)

  abbrev pub kept : ℤ → Option (Socket Span) → ℕ
  kept x none = 0
  kept x (some s) = own x s.fd

  -- The socket is ready, and every descriptor was made as often as it was closed, and once more if it
  -- is that of the socket.
  abbrev pub Created : Os → History → Option (Socket Span) × History → Type 0
  Created os h r =
      Ready r.0 × ((x : ℤ) → opens x os r.1 + closes x h ≡ closes x r.1 + opens x os h + kept x r.0)

  connect_with-Created :
      (os : Os) (h h' : History) (n : ℕ) (address : Option (Run Bytes))
      → Fills address
      → ((x : ℤ) → opens x os h' ≡ opens x os h + own x (pos n))
      → ((x : ℤ) → closes x h' ≡ closes x h)
      → Returns (Created os h) (connect_with (pos n) address os h')
  unfolding connect_with
  connect_with-Created os h h' n none f up same =
      (tt, λ x. omega (arith, up x, same x, closes-own x (pos n) h' refl))
  connect_with-Created os h h' n (some (fault e)) f up same = absurd f
  connect_with-Created os h h' n (some (done addr)) f up same =
      answered (os h' (connect (pos n) addr))
    where
      answered :
          (a : Answer) → Returns (Created os h) (finish (pos n) a os (connect (pos n) addr ∷ h'))
      answered (ok k) = ((refl, refl), λ x. omega (arith, up x, same x))
      answered (error e) = (
        tt,
        λ x. omega (arith, up x, same x, closes-own x (pos n) (connect (pos n) addr ∷ h') refl),
      )

  -- `create` for an address of any family returns: an operational socket with a valid descriptor, or
  -- none. It leaks no descriptor and closes none of others: every descriptor was made as often as it
  -- was closed, and once more if it is that of the socket.
  pub create-Created :
      (os : Os) (h : History) (a : IpAddress) (port : ℤ)
      → Returns (Created os h) (create a port os h)
  unfolding create
  create-Created os h a port = through (os h c) refl
    where
      c : Call
      c = socket a.family 1

      through :
          (r : Answer) → os h c ≡ r → Returns (Created os h) (with_descriptor a port r os (c ∷ h))
      through (ok n) e =
          connect_with-Created os h (c ∷ h) n (connect_address a port)
            (connect_address-Fills a port) (λ x. opens-made x os h a.family 1 n e) (λ x. refl)
      through (error y) e = (tt, λ x. opens-refused x os h a.family 1 y e)
