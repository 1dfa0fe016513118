-- ===== src/Socket.antt =====
-- The client sockets, lib/Socket.cpp with include/xio/Socket.h: a descriptor, a state, a watcher for
-- input and output, a timer, and a handler that is called with what happened.
--
-- A handler is the last thing that each function calls, so what a handler does to its socket is a
-- later step.
pub mod Connect
pub mod Steps
pub mod Transfer
pub mod Kept
pub mod Reach
pub mod Lifecycle
pub mod Close
mod Tests
use Prim.Native.Nat.{bit_or}
use libxio.Base.{
  ℕ, zero, suc, ◌+◌, ◌^◌, ◌==◌, Bool, true, false, not, Option, none, some, List, [], ◌∷◌, ◌++◌,
  Bytes, Run, Fault, if◌then◌else◌,
}
use libxio.Base.Int.{ℤ, pos, negsuc}
use libxio.Address.{IpAddress}
use libxio.Address.Sockaddr.{connect_address}
use libxio.System.{
  Sys, Answer, ok, error, ◌>>=◌, ◌>>◌, pure, stop, call, from_run, assert, is_fd, has_bit,
  clear_bit, set_bit, nonblock, cloexec, add_fl,
}
use libxio.System.Call.{socket, connect, close, so_error}

pub data State : Type 0 where
  closed connecting handshake operational : State

-- The events as bits: `READ`, `WRITE`, `TIMEOUT`, `HANDSHAKE` and `CONNECTED`.
abbrev pub write_bit : ℕ
write_bit = 1

abbrev pub timeout_bit : ℕ
timeout_bit = 8

abbrev pub handshake_bit : ℕ
handshake_bit = 9

abbrev pub connected_bit : ℕ
connected_bit = 10

-- `Span` stands for a `TimeSpan`. The watcher has the descriptor and the events that it was started
-- with, the timer its time, if they run; `handler` is whether there is one, and `calls` are the modes
-- that it was called with. `errno` is what the functions leave in it.
pub record Socket (Span : Type 0) : Type 0 where
  pub fd : ℤ
  pub state : State
  pub watcher : Option (ℤ × ℕ)
  pub timeout : Span
  pub timer : Option Span
  pub handler : Bool
  pub calls : List ℕ
  pub errno : ℕ

-- The two constructors.
abbrev pub new : {Span : Type 0} → Span → Socket Span
new zero_span = record {
  fd = negsuc 0;
  state = closed;
  watcher = none;
  timeout = zero_span;
  timer = none;
  handler = false;
  calls = [];
  errno = 0;
}

abbrev pub new_with : {Span : Type 0} → Span → ℤ → State → Socket Span
new_with zero_span fd state = record (new zero_span) { fd = fd; state = state }

-- `applyFlags`.
unfoldable pub apply_flags : ℤ → ℕ → Sys Bool
apply_flags fd flags =
    if flags == 0
    then pure true
    else (add_fl fd flags >>= λ res. pure (elim res [ none ↦ true | some e ↦ false ]))

-- The mode that `on` watches for.
abbrev watch_mode : ℕ → ℕ
watch_mode mode =
    if has_bit connected_bit mode then set_bit write_bit (clear_bit connected_bit mode) else mode

module _ {Span : Type 0} where
  -- `close`; the destructor is the same.
  unfoldable pub close_socket : Socket Span → Sys (Socket Span)
  close_socket s =
      if is_fd s.fd then call (close s.fd) >> pure (record s { state = closed }) else pure s

  -- What `open` does with the result of `connect`.
  abbrev pub under_way : Socket Span → Sys (State × Socket Span)
  under_way s = pure (connecting, record s { state = connecting })

  abbrev pub refused : Socket Span → Sys (State × Socket Span)
  refused s = call (close s.fd) >> pure (closed, record s { fd = negsuc 0; state = closed })

  abbrev pub connected : (einprogress : ℕ) → Socket Span → Answer → Sys (State × Socket Span)
  connected einprogress s (ok n) = pure (operational, record s { state = operational })
  connected einprogress s (error e) = if e == einprogress then under_way s else refused s

  -- `open` from the switch over the families on.
  unfoldable pub connect_to :
      (einprogress : ℕ) → Option (Run Bytes) → Socket Span → Sys (State × Socket Span)
  connect_to einprogress none s = call (close s.fd) >> pure (closed, record s { fd = negsuc 0 })
  connect_to einprogress (some address) s =
      from_run address >>= λ addr. call (connect s.fd addr) >>= connected einprogress s

  -- `open` with the result of `socket`, and the flags that are left.
  unfoldable pub opened :
      (einprogress : ℕ) → IpAddress → ℤ → ℕ → Socket Span → Answer → Sys (State × Socket Span)
  unfolding connect_to connect_address
  opened einprogress a port flags s (error e) = pure (closed, record s { fd = negsuc 0 })
  opened einprogress a port flags s (ok n) = apply_flags (pos n) flags >>= λ applied.
      if not applied
      then pure (closed, record s { fd = pos n })
      else connect_to einprogress (connect_address a port) (record s { fd = pos n })

  -- `open`: the state that it returns, and the socket.
  unfoldable pub open_socket :
      (einprogress : ℕ) → IpAddress → ℤ → ℕ → Socket Span → Sys (State × Socket Span)
  unfolding opened
  open_socket einprogress a port flags s =
      let mask =
        (if has_bit nonblock flags then 2 ^ nonblock else 0)
        + (if has_bit cloexec flags then 2 ^ cloexec else 0) in
      call (socket a.family (bit_or 1 mask))
      >>= opened einprogress a port (clear_bit cloexec (clear_bit nonblock flags)) s

  -- `on`.
  unfoldable pub on : ℕ → Span → Socket Span → Sys (Socket Span)
  on mode span s =
      assert (not (has_bit timeout_bit mode))
      >> pure (record s {
        handler = true;
        timeout = span;
        timer = some span;
        watcher = some (s.fd, watch_mode mode);
      })

  -- The two `watch`, `restart` and `stop`; `is_set` is the conversion of a `TimeSpan` to `bool`. The
  -- `std::move` in `stop` moves nothing: the handler stays.
  module _ (is_set : Span → Bool) where
    unfoldable pub watch : ℕ → Socket Span → Socket Span
    watch mode s = record s {
      timer = if is_set s.timeout then some s.timeout else s.timer;
      watcher = some (s.fd, mode);
    }

    unfoldable pub watch_for : ℕ → Span → Socket Span → Socket Span
    unfolding watch
    watch_for mode span s =
        watch mode (record s { timeout = if is_set span then span else s.timeout })

    unfoldable pub restart : Socket Span → Socket Span
    restart s = elim s.watcher [
      | none ↦ s
      | some w ↦ record s { timer = if is_set s.timeout then some s.timeout else none }
    ]

  unfoldable pub halt : Socket Span → Socket Span
  halt s = record s { timer = none; watcher = none }

  -- A call of the handler that is not guarded, and `callback`, which is.
  abbrev pub invoke : ℕ → Socket Span → Sys (Socket Span)
  invoke mode s =
      if s.handler then pure (record s { calls = s.calls ++ (mode ∷ []) }) else stop Fault.bad_call

  unfoldable pub callback : ℕ → Socket Span → Socket Span
  callback mode s = if s.handler then record s { calls = s.calls ++ (mode ∷ []) } else s

  -- `onConnectComplete`, with the result of `getsockopt`: the pending error, or that of the call.
  abbrev pub settle : Socket Span → Answer → Sys (Socket Span)
  settle s (ok zero) = pure (record s { state = operational })
  settle s (ok (suc e)) = close_socket s >>= λ s'. pure (record s' { errno = suc e })
  settle s (error e) = close_socket s >>= λ s'. pure (record s' { errno = e })

  unfoldable pub on_connect_complete : Socket Span → Sys (Socket Span)
  unfolding halt callback
  on_connect_complete s =
      let s' = halt s in
      call (so_error s'.fd) >>= settle s' >>= λ s''. pure (callback (2 ^ connected_bit) s'')

  -- The event handlers `io` and `timeout`.
  unfoldable pub io_event : ℕ → Socket Span → Sys (Socket Span)
  unfolding on_connect_complete callback
  io_event revents s =
      let s' = record s { timer = none } in
      elim s.state [
        | connecting ↦ on_connect_complete s'
        | handshake ↦ invoke (2 ^ handshake_bit) s'
        | _ ↦ pure (callback revents s')
      ]

  unfoldable pub timeout_event : Socket Span → Sys (Socket Span)
  unfolding halt
  timeout_event s = invoke (2 ^ timeout_bit) (halt s)
