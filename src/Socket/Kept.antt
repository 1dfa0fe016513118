-- ===== src/Socket/Kept.antt =====
-- The descriptor of a socket and those of its calls are open: `open`, `close` and the end of a
-- connection attempt.
use Prim.Native.Nat.{bit_or}
use libxio.Base.{
  ℕ, zero, suc, ◌≤◌, ◌<◌, ◌≢◌, ◌⊎◌, arith, ◌+◌, ◌^◌, ◌≡◌, refl, sym, subst, Bool, true, false, not,
  Option, none, some, [], ◌∷◌, ◌++◌, Bytes, Run, done, fault, Fault, Returns, Ensures,
  Returns-Ensures, if◌then◌else◌, Bool-cases, inl, inr, ◌==◌,
}
use libxio.Base.Int.{ℤ, pos, negsuc, same_int, same_int_refl, same_int_sound}
use libxio.Address.{IpAddress}
use libxio.Address.Sockaddr.{connect_address}
use libxio.System.{
  Os, History, Call, Answer, ok, error, ◌>>=◌, pure, is_fd, has_bit, Ensures-then, stop, nonblock,
  cloexec, clear_bit, add_fl,
}
use libxio.Server.Rules.{opens, closes, own, made_as, opens-made}
use libxio.System.Call.{
  read, write, send_file, splice, connect, close, so_error, get_fl, set_fl, socket,
}
use libxio.Socket.{
  Socket, State, closed, connecting, handshake, operational, open_socket, opened, connect_to,
  under_way, refused, connected, apply_flags, on_connect_complete, settle, callback, invoke,
  close_socket, halt, connected_bit,
}

-- The descriptor that a call works on.
abbrev pub target : Call → Option ℤ
target (connect fd a) = some fd
target (close fd) = some fd
target (get_fl fd) = some fd
target (set_fl fd f) = some fd
target (so_error fd) = some fd
target (read fd n) = some fd
target (write fd xs) = some fd
target (send_file dst src n) = some dst
target (splice src dst n) = some dst
target _ = none

module _ (os : Os) (start : ℤ → ℕ) where
  -- A descriptor is open after some calls: it is not negative, and it was closed less often than it was
  -- made or given at the start.
  abbrev pub IsOpen : ℤ → History → Type 0
  IsOpen x h = (is_fd x ≡ true) × (closes x h < opens x os h + start x)

  abbrev pub Works : Option ℤ → History → Type 0
  Works none h = Unit
  Works (some x) h = IsOpen x h

  -- Each call worked on a descriptor that was open then.
  abbrev pub AllOpen : History → Type 0
  AllOpen [] = Unit
  AllOpen (c ∷ h) = Works (target c) h × AllOpen h

  -- No descriptor was closed more often than it was open, and each call worked on an open one.
  abbrev pub Sound : History → Type 0
  Sound h = ((x : ℤ) → closes x h ≤ opens x os h + start x) × AllOpen h

  -- The descriptor of the socket is open unless the socket is closed.
  abbrev pub Live : State → ℤ → History → Type 0
  Live closed fd h = Unit
  Live connecting fd h = IsOpen fd h
  Live handshake fd h = IsOpen fd h
  Live operational fd h = IsOpen fd h

  pub IsOpen-Live : (st : State) (fd : ℤ) (h : History) → IsOpen fd h → Live st fd h
  IsOpen-Live closed fd h o = tt
  IsOpen-Live connecting fd h o = o
  IsOpen-Live handshake fd h o = o
  IsOpen-Live operational fd h o = o

  pub Live-IsOpen : (st : State) (fd : ℤ) (h : History) → st ≢ closed → Live st fd h → IsOpen fd h
  Live-IsOpen closed fd h ne l = absurd (ne refl)
  Live-IsOpen connecting fd h ne l = l
  Live-IsOpen handshake fd h ne l = l
  Live-IsOpen operational fd h ne l = l

  -- A descriptor that is open may be closed.
  close-Sound : (x : ℤ) (h : History) → IsOpen x h → Sound h → Sound (close x ∷ h)
  close-Sound x h o g = (λ y. count y (Bool-cases (same_int x y)), (o, g.1))
    where
      count :
          (y : ℤ)
          → (same_int x y ≡ true) ⊎ (same_int x y ≡ false)
          → closes y (close x ∷ h) ≤ opens y os (close x ∷ h) + start y
      count y (inl e) = rw e (less (same_int_sound x y e))
        where
          less : x ≡ y → suc (closes y h) ≤ opens y os h + start y
          less p =
              let k : closes y h < opens y os h + start y =
                subst (λ z. closes z h < opens z os h + start z) p o.1 in
              omega (arith, k)
      count y (inr e) = rw e (g.0 y)

  -- A call of `socket` opens at most one descriptor.
  socket-Sound : (f t : ℕ) (h : History) → Sound h → Sound (socket f t ∷ h)
  socket-Sound f t h g = (λ x. more x (made_as x (socket f t) (os h (socket f t))), (tt, g.1))
    where
      more :
          (x : ℤ) (b : Bool)
          → closes x h ≤ (if b then suc (opens x os h) else opens x os h) + start x
      more x true = omega (arith, g.0 x)
      more x false = g.0 x

  socket-IsOpen :
      (f t n : ℕ) (h : History)
      → os h (socket f t) ≡ ok n
      → Sound h
      → IsOpen (pos n) (socket f t ∷ h)
  socket-IsOpen f t n h e g =
      (refl, omega (arith, g.0 (pos n), opens-made (pos n) os h f t n e, one))
    where
      one : own (pos n) (pos n) ≡ 1
      one = rw (same_int_refl (pos n)) refl

  -- What `socket` returned is open.
  abbrev Given : Answer → History → Type 0
  Given (ok n) h = IsOpen (pos n) h
  Given (error e) h = Unit

  apply_flags-Sound :
      (n flags : ℕ) (h : History)
      → IsOpen (pos n) h
      → Sound h
      → Returns (λ p. IsOpen (pos n) p.1 × Sound p.1) (apply_flags (pos n) flags os h)
  unfolding apply_flags add_fl
  apply_flags-Sound n flags h o i = through (flags == 0)
    where
      through :
          (b : Bool)
          → Returns
              (λ p. IsOpen (pos n) p.1 × Sound p.1)
              ((if b
                  then pure true
                  else (add_fl (pos n) flags >>= λ res.
                      pure (elim res [ none ↦ true | some e ↦ false ])))
                os h)
      through true = (o, i)
      through false = (o, (i.0, (o, (o, i.1))))

module _ {Span : Type 0} (os : Os) (start : ℤ → ℕ) where
  abbrev pub Inv : Socket Span × History → Type 0
  Inv p = Live os start p.0.state p.0.fd p.1 × Sound os start p.1

  abbrev pub Inv₁ : (State × Socket Span) × History → Type 0
  Inv₁ p = Inv (p.0.1, p.1)

module _ {Span : Type 0} (einprogress : ℕ) (os : Os) (start : ℤ → ℕ) where
  pub close_socket-Inv :
      (s : Socket Span) (h : History)
      → IsOpen os start s.fd h
      → Sound os start h
      → Returns (Inv os start) (close_socket s os h)
  unfolding close_socket
  close_socket-Inv s h o g = rw o.0 (tt, close-Sound os start s.fd h o g)

  connect_to-Inv :
      (address : Option (Run Bytes)) (s : Socket Span) (h : History)
      → IsOpen os start s.fd h
      → Sound os start h
      → s.state ≡ closed
      → Ensures (Inv₁ os start) (connect_to einprogress address s os h)
  unfolding connect_to
  connect_to-Inv none s h o g off = (
    subst (λ st. Live os start st (negsuc 0) (close s.fd ∷ h)) (sym off) tt,
    close-Sound os start s.fd h o g,
  )
  connect_to-Inv (some (fault x)) s h o g off = tt
  connect_to-Inv (some (done addr)) s h o g off = answered (os h (connect s.fd addr))
    where
      h' : History
      h' = connect s.fd addr ∷ h

      g' : Sound os start h'
      g' = (g.0, (o, g.1))

      given : (b : Bool) → Ensures (Inv₁ os start) ((if b then under_way s else refused s) os h')
      given true = (o, g')
      given false = (tt, close-Sound os start s.fd h' o g')

      answered : (r : Answer) → Ensures (Inv₁ os start) (connected einprogress s r os h')
      answered (ok k) = (o, g')
      answered (error x) = given (x == einprogress)

  opened-Inv :
      (a : IpAddress) (port : ℤ) (flags : ℕ) (s : Socket Span) (r : Answer) (h : History)
      → s.state ≡ closed
      → Given os start r h
      → Sound os start h
      → Ensures (Inv₁ os start) (opened einprogress a port flags s r os h)
  unfolding opened
  opened-Inv a port flags s (error e) h off o g =
      (subst (λ st. Live os start st (negsuc 0) h) (sym off) tt, g)
  opened-Inv a port flags s (ok n) h off o g =
      Ensures-then (λ p. IsOpen os start (pos n) p.1 × Sound os start p.1) (Inv₁ os start)
        (apply_flags (pos n) flags)
        (λ applied.
          if not applied
          then pure (closed, s')
          else connect_to einprogress (connect_address a port) s')
        os h
        (Returns-Ensures (λ p. IsOpen os start (pos n) p.1 × Sound os start p.1)
          (apply_flags (pos n) flags os h) (apply_flags-Sound os start n flags h o g))
        (λ r k. after r.0 r.1 k)
    where
      s' : Socket Span
      s' = record s { fd = pos n }

      after :
          (applied : Bool) (h' : History)
          → IsOpen os start (pos n) h' × Sound os start h'
          → Ensures (Inv₁ os start) (
              (if not applied
                  then pure (closed, s')
                  else connect_to einprogress (connect_address a port) s')
                os h')
      after false h' (o', g') = (subst (λ st. Live os start st (pos n) h') (sym off) tt, g')
      after true h' (o', g') = connect_to-Inv (connect_address a port) s' h' o' g' off

  pub open_socket-Inv :
      (a : IpAddress) (port : ℤ) (flags : ℕ) (s : Socket Span) (h : History)
      → s.state ≡ closed
      → Sound os start h
      → Ensures (Inv₁ os start) (open_socket einprogress a port flags s os h)
  unfolding open_socket
  open_socket-Inv a port flags s h off g =
      opened-Inv a port (clear_bit cloexec (clear_bit nonblock flags)) s
        (os h (socket a.family kind)) (socket a.family kind ∷ h) off
        (given (os h (socket a.family kind)) refl) (socket-Sound os start a.family kind h g)
    where
      kind : ℕ
      kind = bit_or 1 (
          (if has_bit nonblock flags then 2 ^ nonblock else 0)
          + (if has_bit cloexec flags then 2 ^ cloexec else 0))

      given :
          (r : Answer)
          → os h (socket a.family kind) ≡ r
          → Given os start r (socket a.family kind ∷ h)
      given (ok n) e = socket-IsOpen os start a.family kind n h e g
      given (error x) e = tt

  pub invoke-Inv :
      (mode : ℕ) (s : Socket Span) (h : History)
      → Inv os start (s, h)
      → Ensures (Inv os start) (invoke mode s os h)
  invoke-Inv mode s h i = through s.handler
    where
      through :
          (b : Bool)
          → Ensures (Inv os start) (
              (if b
                  then pure (record s { calls = s.calls ++ (mode ∷ []) })
                  else stop Fault.bad_call)
                os h)
      through true = i
      through false = tt

  pub callback-Inv :
      (mode : ℕ) (s : Socket Span) (h : History)
      → Inv os start (s, h)
      → Inv os start (callback mode s, h)
  unfolding callback
  callback-Inv mode s h i = through s.handler
    where
      through :
          (b : Bool)
          → Inv os start (if b then record s { calls = s.calls ++ (mode ∷ []) } else s, h)
      through true = i
      through false = i

  pub on_connect_complete-Inv :
      (s : Socket Span) (h : History)
      → IsOpen os start s.fd h
      → Sound os start h
      → Ensures (Inv os start) (on_connect_complete s os h)
  unfolding on_connect_complete halt
  on_connect_complete-Inv s h o g =
      Ensures-then (Inv os start) (Inv os start) (settle s' (os h (so_error s.fd)))
        (λ s''. pure (callback (2 ^ connected_bit) s'')) os h' (settled (os h (so_error s.fd)))
        (λ r k. callback-Inv (2 ^ connected_bit) r.0 r.1 k)
    where
      s' : Socket Span
      s' = record s { timer = none; watcher = none }

      h' : History
      h' = so_error s.fd ∷ h

      g' : Sound os start h'
      g' = (g.0, (o, g.1))

      shut :
          (e : ℕ)
          → Ensures
              (Inv os start)
              ((close_socket s' >>= λ s''. pure (record s'' { errno = e })) os h')
      shut e =
          Ensures-then (Inv os start) (Inv os start) (close_socket s')
            (λ s''. pure (record s'' { errno = e })) os h'
            (Returns-Ensures (Inv os start) (close_socket s' os h') (close_socket-Inv s' h' o g'))
            (λ r k. k)

      settled : (a : Answer) → Ensures (Inv os start) (settle s' a os h')
      settled (ok zero) = (o, g')
      settled (ok (suc e)) = shut (suc e)
      settled (error e) = shut e
