-- ===== src/Socket/Lifecycle.antt =====
-- The life of a connection as an abstract machine on its states, which the steps of a socket follow.
use Prim.Native.Nat.{bit_or}
use libxio.Base.{
  ℕ, zero, suc, ◌+◌, ◌^◌, ◌≡◌, refl, sym, subst, Bool, true, false, not, Option, none, some, ◌∷◌,
  ◌++◌, [], Bytes, Run, done, fault, Fault, Ensures, if◌then◌else◌, Bool-cases, inl, inr, ◌==◌,
}
use libxio.Base.Int.{ℤ, pos}
use libxio.Address.{IpAddress}
use libxio.Address.Sockaddr.{connect_address}
use libxio.System.{
  Sys, Os, History, Call, Answer, ok, error, ◌>>=◌, pure, stop, is_fd, has_bit, clear_bit, nonblock,
  cloexec, Ensures-then,
}
use libxio.System.Call.{connect, so_error, socket}
use libxio.Socket.{
  Socket, State, closed, connecting, handshake, operational, on, watch, watch_for, restart,
  open_socket, opened, connect_to, connected, under_way, refused, apply_flags, io_event,
  timeout_event, on_connect_complete, settle, callback, invoke, close_socket, halt, connected_bit,
  timeout_bit, handshake_bit,
}
use libxio.Socket.Steps.{
  Act, plain, on_for, watch_time, open_to, close_it, stop_it, restart_it, watch_it, io_ready,
  expired, act, Allowed,
}

-- A closed connection may begin or be made at once, one that has begun may be made, and each may be
-- shut; nothing else changes the state.
pub data Moves : State → State → Type 0 where
  stays : {st : State} → Moves st st
  begins : Moves closed connecting
  is_made : Moves closed operational
  completes : Moves connecting operational
  is_shut : {st : State} → Moves st closed

module _ {Span : Type 0} (is_set : Span → Bool) (einprogress : ℕ) (os : Os) where
  -- The state moves from this one, or is kept.
  abbrev From : State → Socket Span × History → Type 0
  From st p = Moves st p.0.state

  abbrev From₁ : State → (State × Socket Span) × History → Type 0
  From₁ st p = Moves st p.0.1.state

  close_socket-From :
      (st : State) (s : Socket Span) (h : History)
      → Moves st s.state
      → Ensures (From st) (close_socket s os h)
  unfolding close_socket
  close_socket-From st s h m = elim (Bool-cases (is_fd s.fd)) [
    | inl up ↦ rw up is_shut
    | inr down ↦ rw down m
  ]

  invoke-From :
      (mode : ℕ) (s : Socket Span) (h : History) → Ensures (From s.state) (invoke mode s os h)
  invoke-From mode s h = through s.handler
    where
      through :
          (b : Bool)
          → Ensures (From s.state) (
              (if b
                  then pure (record s { calls = s.calls ++ (mode ∷ []) })
                  else stop Fault.bad_call)
                os h)
      through true = stays
      through false = tt

  callback-From :
      (st : State) (mode : ℕ) (s : Socket Span)
      → Moves st s.state
      → Moves st (callback mode s).state
  unfolding callback
  callback-From st mode s m = through s.handler
    where
      through :
          (b : Bool) → Moves st (if b then record s { calls = s.calls ++ (mode ∷ []) } else s).state
      through true = m
      through false = m

  connect_to-From :
      (address : Option (Run Bytes)) (s : Socket Span) (h : History)
      → s.state ≡ closed
      → Ensures (From₁ closed) (connect_to einprogress address s os h)
  unfolding connect_to
  connect_to-From none s h off = subst (Moves closed) (sym off) stays
  connect_to-From (some (fault e)) s h off = tt
  connect_to-From (some (done addr)) s h off = answered (os h (connect s.fd addr))
    where
      h' : History
      h' = connect s.fd addr ∷ h

      given : (b : Bool) → Ensures (From₁ closed) ((if b then under_way s else refused s) os h')
      given true = begins
      given false = stays

      answered : (r : Answer) → Ensures (From₁ closed) (connected einprogress s r os h')
      answered (ok k) = is_made
      answered (error x) = given (x == einprogress)

  opened-From :
      (a : IpAddress) (port : ℤ) (flags : ℕ) (s : Socket Span) (r : Answer) (h : History)
      → s.state ≡ closed
      → Ensures (From₁ closed) (opened einprogress a port flags s r os h)
  unfolding opened
  opened-From a port flags s (error e) h off = subst (Moves closed) (sym off) stays
  opened-From a port flags s (ok n) h off =
      Ensures-then (λ _. Unit) (From₁ closed) (apply_flags (pos n) flags)
        (λ applied.
          if not applied
          then pure (closed, s')
          else connect_to einprogress (connect_address a port) s')
        os h (anything (apply_flags (pos n) flags os h)) (λ r k. after r.0 r.1)
    where
      s' : Socket Span
      s' = record s { fd = pos n }

      anything : (r : Run (Bool × History)) → Ensures (λ _. Unit {0}) r
      anything (done x) = tt
      anything (fault e) = tt

      after :
          (applied : Bool) (h' : History)
          → Ensures (From₁ closed) (
              (if not applied
                  then pure (closed, s')
                  else connect_to einprogress (connect_address a port) s')
                os h')
      after false h' = subst (Moves closed) (sym off) stays
      after true h' = connect_to-From (connect_address a port) s' h' off

  open_socket-From :
      (a : IpAddress) (port : ℤ) (flags : ℕ) (s : Socket Span) (h : History)
      → s.state ≡ closed
      → Ensures (From₁ closed) (open_socket einprogress a port flags s os h)
  unfolding open_socket
  open_socket-From a port flags s h off =
      opened-From a port (clear_bit cloexec (clear_bit nonblock flags)) s (os h c) (c ∷ h) off
    where
      c : Call
      c = socket a.family (
          bit_or 1 (
            (if has_bit nonblock flags then 2 ^ nonblock else 0)
            + (if has_bit cloexec flags then 2 ^ cloexec else 0)))

  on_connect_complete-From :
      (s : Socket Span) (h : History)
      → s.state ≡ connecting
      → Ensures (From connecting) (on_connect_complete s os h)
  unfolding on_connect_complete halt
  on_connect_complete-From s h now =
      Ensures-then (From connecting) (From connecting) (settle s' (os h (so_error s.fd)))
        (λ s''. pure (callback (2 ^ connected_bit) s'')) os h' (settled (os h (so_error s.fd)))
        (λ r k. callback-From connecting (2 ^ connected_bit) r.0 k)
    where
      s' : Socket Span
      s' = record s { timer = none; watcher = none }

      h' : History
      h' = so_error s.fd ∷ h

      shut :
          (e : ℕ)
          → Ensures
              (From connecting)
              ((close_socket s' >>= λ s''. pure (record s'' { errno = e })) os h')
      shut e =
          Ensures-then (From connecting) (From connecting) (close_socket s')
            (λ s''. pure (record s'' { errno = e })) os h'
            (close_socket-From connecting s' h' (subst (Moves connecting) (sym now) stays))
            (λ r k. k)

      settled : (a : Answer) → Ensures (From connecting) (settle s' a os h')
      settled (ok zero) = completes
      settled (ok (suc e)) = shut (suc e)
      settled (error e) = shut e

  io_event-From :
      (r : ℕ) (s : Socket Span) (h : History) → Ensures (From s.state) (io_event r s os h)
  unfolding io_event
  io_event-From r s h = through s.state refl
    where
      s' : Socket Span
      s' = record s { timer = none }

      through :
          (st : State)
          → s.state ≡ st
          → Ensures (From s.state) (
              (elim st as (λ _. Sys (Socket Span)) [
                | connecting ↦ on_connect_complete s'
                | handshake ↦ invoke (2 ^ handshake_bit) s'
                | _ ↦ pure (callback r s')
              ])
                os h)
      through connecting e =
          subst (λ st. Ensures (From st) (on_connect_complete s' os h)) (sym e)
            (on_connect_complete-From s' h e)
      through handshake e = invoke-From (2 ^ handshake_bit) s' h
      through closed e = callback-From s.state r s' stays
      through operational e = callback-From s.state r s' stays

  on-From :
      (mode : ℕ) (span : Span) (s : Socket Span) (h : History)
      → Ensures (From s.state) (on mode span s os h)
  unfolding on
  on-From mode span s h = elim (Bool-cases (has_bit timeout_bit mode)) [
    | inl wrong ↦ rw wrong tt
    | inr right ↦ rw right stays
  ]

  -- Every step that is allowed on a socket, whatever the system answers, changes its state only as the
  -- abstract machine does: a closed socket may begin to connect or be operational at once, one that
  -- connects may become operational, each may be closed, and nothing else changes; where `open` is
  -- called on closed sockets only.
  pub act-Moves :
      (a : Act is_set einprogress) (s : Socket Span) (h : History)
      → Allowed is_set einprogress a s
      → Ensures (λ p. Moves s.state p.0.state) (act is_set einprogress a s os h)
  unfolding act halt watch watch_for restart timeout_event
  act-Moves (plain (open_to a port flags)) s h off =
      Ensures-then (From₁ closed) (From s.state) (open_socket einprogress a port flags s)
        (λ r. pure r.1) os h (open_socket-From a port flags s h off)
        (λ r k. subst (λ st. Moves st r.0.1.state) (sym off) k)
  act-Moves (plain close_it) s h allowed = close_socket-From s.state s h stays
  act-Moves (plain stop_it) s h allowed = stays
  act-Moves (plain restart_it) s h allowed = through s.watcher
    where
      through :
          (w : Option (ℤ × ℕ))
          → Moves s.state
              (elim w as (λ _. Socket Span) [
                | none ↦ s
                | some _ ↦ record s { timer = if is_set s.timeout then some s.timeout else none }
              ]).state
      through none = stays
      through (some w) = stays
  act-Moves (plain (watch_it mode)) s h allowed = stays
  act-Moves (plain (io_ready r)) s h allowed = io_event-From r s h
  act-Moves (plain expired) s h allowed =
      invoke-From (2 ^ timeout_bit) (record s { timer = none; watcher = none }) h
  act-Moves (on_for mode span) s h allowed = on-From mode span s h
  act-Moves (watch_time mode span) s h allowed = stays
