-- ===== src/ServerSocket.antt =====
-- The base of the listening sockets, lib/ServerSocket.cpp with include/xio/ServerSocket.h: its
-- descriptor, its watcher, and the acceptance of clients.
pub mod Accept
pub mod Close
pub mod Flags
mod Tests
use Prim.Native.Nat.{bit_or}
use libxio.Base.{
  ℕ, zero, suc, ◌==◌, max, Bool, true, false, not, ◌&&◌, Option, none, some, List, [], ◌∷◌, ◌++◌,
  Bytes, Fault, if◌then◌else◌,
}
use libxio.Base.Int.{ℤ, pos, negsuc}
use libxio.System.{
  Sys, Answer, ok, error, ◌>>=◌, ◌>>◌, pure, call, test, stop, assert, is_fd, result, failure,
  add_fl, word, clear_bit, set_bit, has_bit, nonblock,
}
use libxio.System.Call.{accept, accept4, close, get_fl, set_fl, get_fd, set_fd, set_option, listen}

-- The fields, less the loop and the driver. `active` is whether the watcher `io_` runs.
pub record ServerSocket : Type 0 where
  pub fd : ℤ
  pub flags : ℕ
  pub type_mask : ℕ
  pub backlog : ℤ
  pub multi_accept : ℕ
  pub active : Bool
  pub error_text : Bytes

-- The constructor; `somaxconn` is the system's.
abbrev pub new : (somaxconn : ℤ) → ServerSocket
new somaxconn = record {
  fd = negsuc 0;
  flags = 0;
  type_mask = 0;
  backlog = somaxconn;
  multi_accept = 1;
  active = false;
  error_text = [];
}

abbrev pub is_open : ServerSocket → Bool
is_open s = is_fd s.fd

unfoldable pub set_backlog : ℤ → ServerSocket → Sys ServerSocket
set_backlog value s = assert (not (is_open s)) >> pure (record s { backlog = value })

unfoldable pub start : ServerSocket → Sys ServerSocket
start s = assert (is_open s) >> assert (not s.active) >> pure (record s { active = true })

unfoldable pub halt : ServerSocket → ServerSocket
halt s = if not s.active then s else record s { active = false }

-- `ServerSocket::close`; `stop` is `halt` here.
abbrev pub close_open : ServerSocket → Sys ServerSocket
close_open s = call (close s.fd) >> pure (record (halt s) { fd = negsuc 0 })

unfoldable pub close_socket : ServerSocket → Sys ServerSocket
unfolding halt
close_socket s = if not (is_fd s.fd) then pure s else close_open s

-- The destructor, without the deletion of the driver.
unfoldable pub destroy : ServerSocket → Sys ServerSocket
unfolding halt close_socket
destroy s = let stopped = halt s in if is_open stopped then close_socket stopped else pure stopped

unfoldable pub set_multi_accept_count : ℕ → ServerSocket → ServerSocket
set_multi_accept_count value s = record s { multi_accept = max value 1 }

-- `listen`, with its `errno` where it returns false.
abbrev pub listening : ServerSocket → ℤ → Option ℕ → Option ℕ × ServerSocket
listening s size (some e) = (some e, s)
listening s size none = (none, record s { backlog = size })

unfoldable pub listen_with : ℤ → ServerSocket → Sys (Option ℕ × ServerSocket)
listen_with n s =
    let size = if is_fd n then n else s.backlog in
    test (listen s.fd size) >>= λ res. pure (listening s size res)

-- `setCloseOnExec`, `isCloseOnExec`, `setNonBlocking`, `isNonBlocking`: bit 0 is `FD_CLOEXEC`.
unfoldable pub set_close_on_exec : Bool → ServerSocket → Sys Bool
set_close_on_exec enable s = do
  old ← call (get_fd s.fd)
  let flags = if enable then set_bit 0 (word old) else clear_bit 0 (word old)
  res ← test (set_fd s.fd flags)
  pure (elim res [ none ↦ true | some e ↦ false ])

unfoldable pub is_close_on_exec : ServerSocket → Sys Bool
is_close_on_exec s = do flags ← call (get_fd s.fd); pure (has_bit 0 (word flags))

unfoldable pub set_non_blocking : Bool → ServerSocket → Sys Bool
set_non_blocking enable s = do
  old ← call (get_fl s.fd)
  let flags = if enable then set_bit nonblock (word old) else clear_bit nonblock (word old)
  res ← test (set_fl s.fd flags)
  pure (elim res [ none ↦ true | some e ↦ false ])

unfoldable pub is_non_blocking : ServerSocket → Sys Bool
is_non_blocking s = do flags ← call (get_fl s.fd); pure (has_bit nonblock (word flags))

-- The build's `WITH_ACCEPT4` (with `HAVE_ACCEPT4`) and `WITH_MULTI_ACCEPT`.
pub record Build : Type 0 where
  with_accept4 : Bool
  with_multi_accept : Bool

-- The error numbers that the code tells apart.
pub record Errors : Type 0 where
  eintr : ℕ
  eagain : ℕ
  enosys : ℕ

-- A client's descriptor, or the `errno` that is set when there is none.
pub data Accepted : Type 0 where
  client : (fd : ℕ) → Accepted
  failed : (errno : ℕ) → Accepted

-- `accept4`, or `accept` where that is not there, and whether the flags are set.
unfoldable pub accept_fd : Build → Errors → ServerSocket → Sys (Bool × Answer)
accept_fd b codes s =
    if b.with_accept4
    then (call (accept4 s.fd s.type_mask) >>= λ res. elim res [
      | ok n ↦ pure (true, ok n)
      | error e ↦
          if e == codes.enosys
          then (call (accept s.fd) >>= λ again. pure (false, again))
          else pure (true, error e)
    ])
    else (call (accept s.fd) >>= λ res. pure (false, res))

-- `acceptOne` behind `fcntl`, with its `errno` if it failed. A `close` that fails sets `errno` again.
unfoldable pub settled_with : ℕ → Option ℕ → Sys Accepted
settled_with n none = pure (client n)
settled_with n (some e) = call (close (pos n)) >>= λ closed. elim closed [
  | ok _ ↦ pure (failed e)
  | error e' ↦ pure (failed e')
]

-- `acceptOne` behind `accept`, with its result and whether the flags are set.
unfoldable pub settle : ServerSocket → (flagged : Bool) → Answer → Sys Accepted
unfolding settled_with
settle s flagged (error e) = pure (failed e)
settle s flagged (ok n) =
    if not flagged && not (s.flags == 0)
    then add_fl (pos n) s.flags >>= settled_with n
    else pure (client n)

unfoldable pub accept_one : Build → Errors → ServerSocket → Sys Accepted
unfolding accept_fd settle
accept_one b codes s = accept_fd b codes s >>= λ res. settle s res.0 res.1

-- What the callback was called with: a client, or null for an error.
abbrev pub Calls : Type 0
Calls = List (Option ℕ)

-- `handleOne`: whether a client was accepted, and the callbacks so far.
unfoldable pub report : Errors → Calls → Accepted → Sys (Bool × Calls)
report codes log (client n) = pure (true, log ++ (some n ∷ []))
report codes log (failed e) =
    if e == codes.eintr
    then pure (false, log)
    else if e == codes.eagain
    then pure (false, log)
    else pure (false, log ++ (none ∷ []))

unfoldable pub handle_one : Build → Errors → ServerSocket → Calls → Sys (Bool × Calls)
unfolding accept_one report
handle_one b codes s log = accept_one b codes s >>= report codes log

-- The loop of `accept`, with n rounds left; it ends with the first round that accepts no client.
unfoldable pub go_on : (Calls → Sys Calls) → Bool × Calls → Sys Calls
go_on rest (true, log) = rest log
go_on rest (false, log) = pure log

unfoldable pub accept_loop : ℕ → Build → Errors → ServerSocket → Calls → Sys Calls
unfolding handle_one go_on
accept_loop zero b codes s log = pure log
accept_loop (suc n) b codes s log = handle_one b codes s log >>= go_on (accept_loop n b codes s)

-- The event handler `accept`.
unfoldable pub accept_ready : Build → Errors → ServerSocket → Calls → Sys Calls
unfolding accept_loop handle_one
accept_ready b codes s log =
    if b.with_multi_accept
    then accept_loop s.multi_accept b codes s log
    else (handle_one b codes s log >>= λ res. pure res.1)
