-- ===== src/Socket/Steps.antt =====
-- The steps of a client socket from its construction.
use libxio.Base.{Bytes, ℕ, ◌≡◌, ◌≢◌, Bool, true, none, [], done}
use libxio.Base.Int.{ℤ}
use libxio.Address.{IpAddress}
use libxio.Pipe.{Pipe, Mode}
use libxio.Server.Rules.{own}
use libxio.Socket.Transfer.{read_bytes, write_bytes, write_file, write_fd, write_pipe}
use libxio.System.{Answer, Sys, Os, History, ◌>>=◌, pure, is_fd}
use libxio.Socket.{
  Socket, State, closed, new, new_with, on, watch, watch_for, restart, open_socket, io_event,
  timeout_event, close_socket, halt,
}

-- What the owner of a socket and the event loop can do with it.
pub data Step : Type 0 where
  open_to : IpAddress → ℤ → ℕ → Step
  close_it stop_it restart_it : Step
  watch_it : ℕ → Step
  io_ready : ℕ → Step
  expired : Step

module _ {Span : Type 0} (is_set : Span → Bool) (einprogress : ℕ) where
  -- A step on a socket; `on` and `watch` with a time are those with it.
  pub data Act : Type 0 where
    plain : Step → Act
    on_for watch_time : ℕ → Span → Act

  unfoldable pub act : Act → Socket Span → Sys (Socket Span)
  unfolding open_socket close_socket halt restart watch watch_for on io_event timeout_event
  act (plain (open_to a port flags)) s = open_socket einprogress a port flags s >>= λ r. pure r.1
  act (plain close_it) s = close_socket s
  act (plain stop_it) s = pure (halt s)
  act (plain restart_it) s = pure (restart is_set s)
  act (plain (watch_it mode)) s = pure (watch is_set mode s)
  act (plain (io_ready r)) s = io_event r s
  act (plain expired) s = timeout_event s
  act (on_for mode span) s = on mode span s
  act (watch_time mode span) s = pure (watch_for is_set mode span s)

  -- `close` is not called twice for one descriptor.
  abbrev pub Once : Act → Socket Span → Type 0
  Once (plain close_it) s = s.state ≢ closed
  Once _ s = Unit

  -- The reads and writes that are a system call.
  pub data Transfer : Type 0 where
    reads : ℕ → Transfer
    writes : Bytes → Transfer
    writes_file : ℤ → ℕ → Mode → Transfer
    writes_fd : ℤ → ℕ → Transfer
    writes_pipe : Pipe → ℕ → Mode → Transfer

  abbrev pub transfer : Transfer → Socket Span → Sys Answer
  transfer (reads n) s = read_bytes n s
  transfer (writes xs) s = write_bytes xs s
  transfer (writes_file handle n how) s = write_file handle n how s
  transfer (writes_fd fd n) s = write_fd fd n s
  transfer (writes_pipe p n how) s = write_pipe p n how s

  -- `open` is for a socket that is closed, and the loop reports an event only to what runs.
  abbrev pub Allowed : Act → Socket Span → Type 0
  Allowed (plain (open_to a port flags)) s = s.state ≡ closed
  Allowed (plain (io_ready r)) s = s.watcher ≢ none
  Allowed (plain expired) s = s.timer ≢ none
  Allowed _ s = Unit

  module _ (os : Os) (zero_span : Span) where
    -- The sockets, with the calls made, that steps lead to from the two constructors, and how often each
    -- descriptor was open at the start, apart from what the calls have done. Sockets that are closed
    -- are not read, written or closed.
    pub data Reach : (ℤ → ℕ) → Socket Span → History → Type 0 where
      made : Reach (λ x. 0) (new zero_span) []
      adopted :
          (fd : ℤ) (st : State)
          → is_fd fd ≡ true
          → Reach (λ x. own x fd) (new_with zero_span fd st) []
      next :
          {start : ℤ → ℕ} {s s' : Socket Span} {h h' : History}
          → Reach start s h
          → (a : Act) → Allowed a s
          → Once a s
          → act a s os h ≡ done (s', h')
          → Reach start s' h'
      transferred :
          {start : ℤ → ℕ} {s : Socket Span} {h h' : History} {rv : Answer}
          → Reach start s h
          → (t : Transfer) → s.state ≢ closed
          → transfer t s os h ≡ done (rv, h')
          → Reach start s h'
