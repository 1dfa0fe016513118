-- ===== src/InetServer/Open.antt =====
-- What `InetServer::open` leaves behind, whether it returns true or false.
use Prim.Native.Nat.{bit_or}
use libxio.Base.{
  ℕ, ◌+◌, ◌≡◌, ◌≤◌, refl, ap, Bool, true, false, none, ◌∷◌, ◌++◌, Bytes, Returns, Returns-mono,
  arith, Bool-cases, inl, inr, ltb, lt→ltb,
}
use libxio.Base.Int.{ℤ, pos, negsuc}
use libxio.Address.{IpAddress, v4}
use libxio.System.{Os, History, Call, Answer, ok, error, is_fd, attempt, Returns-then}
use libxio.System.Call.{socket, close, is_inet}
use libxio.Listen.Lookup.{socket_inet}
use libxio.Server.{Process, positive, set_flags, finish, give_up, sd_loop, sd_start, complete}
use libxio.Server.Rules.{
  opens, closes, own, opens-made, opens-refused, AllKeep-append, sd_loop-Returns, sd_loop-none,
}
use libxio.Server.Outcome.{
  Flagged, set_flags-Flagged, Outcome, Opened, complete-Finished, complete-Opened,
}
use libxio.InetServer.{
  InetServer, base_of, put_base, flag_steps, tcp_steps, setup_steps, stream, created, matches_inet,
  searched, looked_up, open_new, open_systemd, open_inet, with_fd,
}
use libxio.InetServer.Keep.{Ready, flag_steps-AllKeep, tcp_steps-AllKeep, setup_steps-AllKeep}

module _ (os : Os) (defer : Bool) (p : Process) (a : IpAddress) (port : ℤ) (flags : ℕ) where
  open_new-Opened :
      (s : InetServer) (h : History)
      → a.family ≡ v4
      → s.base.active ≡ false
      → Flagged flags s.base.flags s.base.type_mask
      → Returns (Opened base_of flags) (open_new defer p a port flags s os h)
  unfolding open_new attempt complete finish give_up
  open_new-Opened s h e off flagged = through (os h c)
    where
      c : Call
      c = socket a.family (bit_or stream s.base.type_mask)

      through :
          (r : Answer)
          → Returns (Opened base_of flags) (created defer p a port flags s r os (c ∷ h))
      through (ok n) =
          complete-Opened base_of put_base (λ b s'. refl) os p (setup_steps defer a port flags)
            (with_fd (pos n) s) (c ∷ h)
            (setup_steps-AllKeep os (with_fd (pos n) s) (c ∷ h) defer a port flags e) refl off flags
            flagged
      through (error x) = (refl, off, flagged)

  open_systemd-Opened :
      (str : IpAddress → Bytes) (s : InetServer) (h : History)
      → s.base.active ≡ false
      → Flagged flags s.base.flags s.base.type_mask
      → Returns (Opened base_of flags) (open_systemd defer str p a port flags s os h)
  unfolding open_systemd
  open_systemd-Opened str s h off flagged =
      Returns-then (λ _. Unit) (Opened base_of flags)
        (sd_loop (matches_inet a.family port) p.sd_count sd_start)
        (searched defer str p a port flags s) os h
        (sd_loop-Returns os (matches_inet a.family port) (λ fd h'. tt) p.sd_count sd_start h)
        (λ r u. after r)
    where
      after :
          (r : (Bool × ℕ) × History)
          → Returns (Opened base_of flags) (searched defer str p a port flags s r.0 os r.1)
      after ((true, fd), h') =
          complete-Opened base_of put_base (λ b s'. refl) os p (flag_steps flags ++ tcp_steps defer)
            (with_fd (pos fd) s) h'
            (AllKeep-append os (Ready os (with_fd (pos fd) s) h') (flag_steps flags)
              (tcp_steps defer) (flag_steps-AllKeep os (with_fd (pos fd) s) h' flags)
              (tcp_steps-AllKeep os (with_fd (pos fd) s) h' defer))
            refl off flags flagged
      after ((false, fd), h') = (refl, off, flagged)

  -- If the lookup among the inherited sockets returns, `open` of an IPv4 address on a server that is
  -- not watched returns, on every way that the system's answers lead: the server is open and watched
  -- if it returned true, closed and not watched if it returned false. In both cases `typeMask_`, which
  -- `accept4` puts on clients, has the bits `O_NONBLOCK` and `O_CLOEXEC` that were asked for, and
  -- `flags_`, which clients get where there is no `accept4`, has neither.
  pub open_inet-Opened :
      (str : IpAddress → Bytes) (s : InetServer) (h : History)
      → a.family ≡ v4
      → s.base.active ≡ false
      → Returns (λ _. Unit {0}) (socket_inet p.listen_fds (str a) port os h)
      → Returns (Opened base_of flags) (open_inet defer str p a port flags s os h)
  unfolding open_inet looked_up set_flags
  open_inet-Opened str s h e off found =
      Returns-then (λ _. Unit) (Opened base_of flags) (socket_inet p.listen_fds (str a) port)
        (looked_up defer str p a port flags s') os h found (λ r u. after r)
    where
      s' : InetServer
      s' = record s { base = set_flags flags s.base }

      flagged : Flagged flags (set_flags flags s.base).flags (set_flags flags s.base).type_mask
      flagged = set_flags-Flagged flags s.base

      off' : (set_flags flags s.base).active ≡ false
      off' = off

      after :
          (r : ℤ × History)
          → Returns (Opened base_of flags) (looked_up defer str p a port flags s' r.0 os r.1)
      after r = elim (Bool-cases (is_fd r.0)) [
        | inl up ↦ rw up (
            complete-Opened base_of put_base (λ b s'. refl) os p (flag_steps flags) (with_fd r.0 s')
              r.1 (flag_steps-AllKeep os (with_fd r.0 s') r.1 flags) up off' flags flagged)
        | inr absent ↦ rw absent (elim (Bool-cases (ltb 0 p.sd_count)) [
          | inl passed ↦ rw passed (open_systemd-Opened str (with_fd r.0 s') r.1 off' flagged)
          | inr alone ↦ rw alone (open_new-Opened (with_fd r.0 s') r.1 e off' flagged)
        ])
      ]

  -- The balance of every descriptor, from a server that had none: it was made as often as it was
  -- closed, and once more if the server has it.
  abbrev pub Accounted : History → (Bool × InetServer) × History → Type 0
  Accounted h r =
      (x : ℤ) → opens x os r.1 + closes x h ≡ closes x r.1 + opens x os h + own x r.0.1.base.fd

  open_new-Accounted :
      (s : InetServer) (h : History)
      → a.family ≡ v4
      → s.base.active ≡ false
      → Returns (Accounted h) (open_new defer p a port flags s os h)
  unfolding open_new attempt complete finish give_up
  open_new-Accounted s h e off = through (os h c) refl
    where
      c : Call
      c = socket a.family (bit_or stream s.base.type_mask)

      through :
          (r : Answer)
          → os h c ≡ r
          → Returns (Accounted h) (created defer p a port flags s r os (c ∷ h))
      through (ok n) given =
          Returns-mono (Outcome base_of put_base (λ b s'. refl) os (with_fd (pos n) s) (c ∷ h))
            (Accounted h)
            (complete base_of put_base p (setup_steps defer a port flags) (with_fd (pos n) s) os
              (c ∷ h))
            (complete-Finished base_of put_base (λ b s'. refl) os p (setup_steps defer a port flags)
              (with_fd (pos n) s) (c ∷ h)
              (setup_steps-AllKeep os (with_fd (pos n) s) (c ∷ h) defer a port flags e) refl off)
            (λ r f x. omega (
              arith,
              (f.3 x).0,
              (f.3 x).1,
              opens-made x os h a.family (bit_or stream s.base.type_mask) n given,
            ))
      through (error z) given =
          λ x. opens-refused x os h a.family (bit_or stream s.base.type_mask) z given

  -- In a process that inherited no sockets, `open` of an IPv4 address on a server that is not watched
  -- and has no descriptor leaks none and closes none of others: every descriptor was made as often as
  -- it was closed, and once more if the server has it afterwards.
  pub open_inet-Accounted :
      (str : IpAddress → Bytes) (s : InetServer) (h : History)
      → a.family ≡ v4
      → s.base.active ≡ false
      → is_fd s.base.fd ≡ false
      → p.listen_fds ≡ none
      → p.sd_count ≡ 0
      → Returns (Accounted h) (open_inet defer str p a port flags s os h)
  unfolding open_inet looked_up set_flags socket_inet
  open_inet-Accounted str s h e off shut unset alone =
      rw (unset, alone)
        (open_new-Accounted (with_fd (negsuc 0) (record s { base = set_flags flags s.base })) h e
          off)

  -- Under systemd, where none of its descriptors is a socket for the address, `open` fails and closes
  -- the descriptor behind the last one that systemd passed, which it did not open.
  pub open_inet-unmatched :
      (str : IpAddress → Bytes) (s : InetServer) (h : History)
      → p.listen_fds ≡ none
      → 1 ≤ p.sd_count
      → ((fd : ℤ) (h' : History) → os h' (is_inet fd a.family port) ≡ ok 0)
      → Returns
          (λ r.
            (r.0.0 ≡ false) × ((h' : History) × (r.1 ≡ close (pos (sd_start + p.sd_count)) ∷ h')))
          (open_inet defer str p a port flags s os h)
  unfolding open_inet looked_up set_flags socket_inet open_systemd give_up
  open_inet-unmatched str s h unset some_passed no_match =
      rw (unset, lt→ltb 0 p.sd_count (omega arith))
        (Returns-then (λ r. r.0 ≡ (false, sd_start + p.sd_count)) _
          (sd_loop (matches_inet a.family port) p.sd_count sd_start)
          (searched defer str p a port flags
            (with_fd (negsuc 0) (record s { base = set_flags flags s.base })))
          os h
          (sd_loop-none os (matches_inet a.family port) (λ fd h'. ap positive (no_match fd h'))
            p.sd_count sd_start h)
          (λ r e. rw e (refl, (r.1, refl))))
