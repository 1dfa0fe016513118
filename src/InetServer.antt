-- ===== src/InetServer.antt =====
-- The TCP servers, lib/InetServer.cpp.
pub mod Keep
pub mod Open
pub mod Adopt
mod Tests
use Prim.Native.Nat.{bit_or}
use libxio.Base.{
  ℕ, zero, suc, ◌+◌, ◌^◌, ◌==◌, Bool, true, false, not, Option, none, some, List, [], ◌∷◌, ◌++◌,
  Bytes, replicate, take, drop, length, Run, Fault, if◌then◌else◌, ltb,
}
use libxio.Base.Int.{ℤ, pos, negsuc}
use libxio.Address.{IpAddress, size, v4}
use libxio.Address.Sockaddr.{sockaddr}
use libxio.Decimal.{print_int}
use libxio.Text.{codes}
use libxio.System.{
  Sys, Answer, ok, error, ◌>>=◌, ◌>>◌, pure, call, from_run, test, assert, is_fd, has_bit, nonblock,
  cloexec, add_fl, add_fd, Steps, attempt, port_bytes, overlay,
}
use libxio.System.Call.{socket, bind, set_option, is_inet}
use libxio.ServerSocket.{ServerSocket, new, is_open, set_backlog, listen_with, close_socket}
use libxio.Listen.Lookup.{socket_inet}
use libxio.Server.{Process, set_flags, finish, give_up, sd_loop, sd_start, positive, step, complete}

pub record InetServer : Type 0 where
  pub base : ServerSocket
  pub ipaddr : IpAddress
  pub port : ℤ
  pub reuse_port : Bool

-- The constructor.
abbrev pub new_inet : (somaxconn : ℤ) → InetServer
new_inet somaxconn = record {
  base = new somaxconn;
  ipaddr = record { family = 0; buf = replicate 16 0 };
  port = negsuc 0;
  reuse_port = false;
}

unfoldable pub set_reuse_port : Bool → InetServer → Sys InetServer
set_reuse_port value s = assert (not (is_open s.base)) >> pure (record s { reuse_port = value })

-- `SOCK_STREAM`, and the levels and options of `setsockopt` that Linux defines.
abbrev stream : ℕ
stream = 1

abbrev pub sol_socket : ℕ
sol_socket = 1

abbrev pub so_reuseaddr : ℕ
so_reuseaddr = 2

abbrev pub so_reuseport : ℕ
so_reuseport = 15

abbrev pub sol_tcp : ℕ
sol_tcp = 6

abbrev pub tcp_quickack : ℕ
tcp_quickack = 12

abbrev pub tcp_defer_accept : ℕ
tcp_defer_accept = 9

abbrev base_of : InetServer → ServerSocket
base_of s = s.base

abbrev put_base : ServerSocket → InetServer → InetServer
put_base b s = record s { base = b }

abbrev option : ℕ → ℕ → InetServer → Sys (Option ℕ × InetServer)
option level name = step base_of (λ b. test (set_option b.fd level name))

-- The steps that set the flags which the caller asked for.
abbrev non_block : ℕ → ServerSocket → Sys (Option ℕ)
non_block flags b = if has_bit nonblock flags then add_fl b.fd (2 ^ nonblock) else pure none

abbrev close_exec : ℕ → ServerSocket → Sys (Option ℕ)
close_exec flags b = if has_bit cloexec flags then add_fd b.fd 1 else pure none

unfoldable pub flag_steps : ℕ → Steps InetServer
flag_steps flags = step base_of (non_block flags) ∷ (step base_of (close_exec flags) ∷ [])

-- `TCP_QUICKACK` and, if the build has `WITH_TCP_DEFER_ACCEPT`, `TCP_DEFER_ACCEPT`.
unfoldable pub tcp_steps : (defer : Bool) → Steps InetServer
tcp_steps defer =
    option sol_tcp tcp_quickack ∷ (if defer then option sol_tcp tcp_defer_accept ∷ [] else [])

-- The step for `SO_REUSEPORT`; its failure is no error.
abbrev granted : Answer → Bool
granted (ok zero) = true
granted _ = false

abbrev ask_reuse : InetServer → Sys (Option ℕ × InetServer)
ask_reuse s = call (set_option s.base.fd sol_socket so_reuseport) >>= λ res.
    pure (none, record s { reuse_port = granted res })

unfoldable pub reuse_step : InetServer → Sys (Option ℕ × InetServer)
reuse_step s = if s.reuse_port then ask_reuse s else pure (none, s)

-- `InetServer::bind`, with the `errno` of the call where it returns false.
abbrev bound : IpAddress → ℤ → InetServer → Option ℕ → Option ℕ × InetServer
bound ipaddr port s (some e) = (some e, s)
bound ipaddr port s none = (none, record s { ipaddr = ipaddr; port = port })

unfoldable pub bind_inet : IpAddress → ℤ → InetServer → Sys (Option ℕ × InetServer)
unfolding sockaddr
bind_inet ipaddr port s = from_run (sockaddr ipaddr port) >>= λ sin.
    test (bind s.base.fd sin) >>= λ res. pure (bound ipaddr port s res)

unfoldable pub listen_step : InetServer → Sys (Option ℕ × InetServer)
listen_step s = listen_with s.base.backlog s.base >>= λ res. pure (res.0, record s { base = res.1 })

-- The steps on a socket that `socket` made.
unfoldable pub setup_steps : (defer : Bool) → IpAddress → ℤ → ℕ → Steps InetServer
unfolding flag_steps tcp_steps reuse_step bind_inet listen_step
setup_steps defer ipaddr port flags =
    flag_steps flags
    ++ (option sol_socket so_reuseaddr
        ∷ (reuse_step ∷ (tcp_steps defer ++ (bind_inet ipaddr port ∷ (listen_step ∷ [])))))

abbrev with_fd : ℤ → InetServer → InetServer
with_fd fd s = record s { base = record (s.base) { fd = fd } }

-- `snprintf` into 256 bytes.
abbrev pub no_socket : Bytes → ℤ → Bytes
no_socket address port = take 255 (
    codes "Running under systemd socket unit, but we received no socket for "
    ++ (address ++ (codes " port " ++ (print_int port ++ (b'.' ∷ [])))))

-- The part of `open` for a process that systemd started; `fd_` ends behind the last descriptor where
-- none matches, and `err` follows.
abbrev matches_inet : ℕ → ℤ → ℤ → Sys Bool
matches_inet family port fd = call (is_inet fd family port) >>= λ a. pure (positive a)

abbrev searched :
    (defer : Bool)
    → (str : IpAddress → Bytes) → Process
    → IpAddress
    → ℤ
    → ℕ
    → InetServer
    → Bool × ℕ
    → Sys (Bool × InetServer)
searched defer str p ipaddr port flags s (true, fd) =
    complete base_of put_base p (flag_steps flags ++ tcp_steps defer) (with_fd (pos fd) s)
searched defer str p ipaddr port flags s (false, fd) =
    give_up (record (s.base) { fd = pos fd; error_text = no_socket (str ipaddr) port }) >>= λ fin.
    pure (fin.0, record s { base = fin.1 })

unfoldable pub open_systemd :
    (defer : Bool)
    → (str : IpAddress → Bytes) → Process
    → IpAddress
    → ℤ
    → ℕ
    → InetServer
    → Sys (Bool × InetServer)
unfolding complete flag_steps tcp_steps give_up sd_loop
open_systemd defer str p ipaddr port flags s =
    sd_loop (matches_inet ipaddr.family port) p.sd_count sd_start
    >>= searched defer str p ipaddr port flags s

-- The part that creates the socket.
abbrev created :
    (defer : Bool) → Process → IpAddress → ℤ → ℕ → InetServer → Answer → Sys (Bool × InetServer)
created defer p ipaddr port flags s (ok n) =
    complete base_of put_base p (setup_steps defer ipaddr port flags) (with_fd (pos n) s)
created defer p ipaddr port flags s (error e) =
    complete base_of put_base p ((λ s'. pure (some e, s')) ∷ []) (with_fd (negsuc 0) s)

unfoldable pub open_new :
    (defer : Bool) → Process → IpAddress → ℤ → ℕ → InetServer → Sys (Bool × InetServer)
unfolding complete setup_steps finish give_up
open_new defer p ipaddr port flags s =
    call (socket ipaddr.family (bit_or stream s.base.type_mask))
    >>= created defer p ipaddr port flags s

-- `InetServer::open` behind `getSocketInet`, with its result.
unfoldable pub looked_up :
    (defer : Bool)
    → (str : IpAddress → Bytes) → Process
    → IpAddress
    → ℤ
    → ℕ
    → InetServer
    → ℤ
    → Sys (Bool × InetServer)
unfolding open_systemd open_new complete flag_steps
looked_up defer str p ipaddr port flags s fd =
    if is_fd fd
    then complete base_of put_base p (flag_steps flags) (with_fd fd s)
    else if ltb 0 p.sd_count
    then open_systemd defer str p ipaddr port flags (with_fd fd s)
    else open_new defer p ipaddr port flags (with_fd fd s)

-- `InetServer::open`; `str` is `IPAddress::str`.
unfoldable pub open_inet :
    (defer : Bool)
    → (str : IpAddress → Bytes) → Process
    → IpAddress
    → ℤ
    → ℕ
    → InetServer
    → Sys (Bool × InetServer)
unfolding set_flags looked_up
open_inet defer str p ipaddr port flags s =
    socket_inet p.listen_fds (str ipaddr) port
    >>= looked_up defer str p ipaddr port flags (record s { base = set_flags flags s.base })

-- `InetServer::close`.
unfoldable pub close_inet : InetServer → Sys InetServer
unfolding close_socket
close_inet s = close_socket s.base >>= λ b. pure (record s { base = b; reuse_port = false })

-- `InetServer::clone`: the result of `open` is not looked at.
unfoldable pub clone_inet :
    (defer : Bool)
    → (str : IpAddress → Bytes) → Process
    → (somaxconn : ℤ) → InetServer
    → Sys InetServer
unfolding set_backlog set_reuse_port open_inet
clone_inet defer str p somaxconn s = set_backlog s.base.backlog (new somaxconn) >>= λ b.
    set_reuse_port s.reuse_port (record (new_inet somaxconn) { base = b }) >>= λ c.
    open_inet defer str p s.ipaddr s.port s.base.flags c >>= λ res. pure res.1
