-- ===== src/UnixServer.antt =====
-- The servers on local sockets, lib/UnixServer.cpp.
pub mod Open
pub mod Unlink
mod Tests
use libxio.Base.{
  ℕ, zero, suc, ◌+◌, ◌==◌, Bool, true, false, not, Option, none, some, List, [], ◌∷◌, ◌++◌, Bytes,
  length, ltb, leb, if◌then◌else◌,
}
use libxio.Base.Int.{ℤ, pos, negsuc}
use libxio.Text.{codes}
use libxio.System.{Sys, Answer, ok, error, ◌>>=◌, ◌>>◌, pure, call, test, is_fd, add_fl, Steps}
use libxio.System.Call.{socket, bind, is_unix, chmod, unlink}
use libxio.ServerSocket.{ServerSocket, new, listen_with, close_socket}
use libxio.Listen.Lookup.{socket_unix}
use libxio.Server.{Process, set_flags, finish, give_up, sd_loop, sd_start, positive, step, complete}

pub record UnixServer : Type 0 where
  pub base : ServerSocket
  pub path : Bytes

abbrev pub new_unix : (somaxconn : ℤ) → UnixServer
new_unix somaxconn = record { base = new somaxconn; path = [] }

abbrev base_of : UnixServer → ServerSocket
base_of s = s.base

abbrev put_base : ServerSocket → UnixServer → UnixServer
put_base b s = record s { base = b }

-- `AF_UNIX` and `SOCK_STREAM`, and the bytes of `sun_path`.
abbrev pub af_unix : ℕ
af_unix = 1

abbrev stream : ℕ
stream = 1

abbrev pub path_max : ℕ
path_max = 108

-- All of the caller's flags are put on the descriptor with `F_SETFL`.
abbrev with_flags : ℕ → ServerSocket → Sys (Option ℕ)
with_flags flags b = if not (flags == 0) then add_fl b.fd flags else pure none

-- The string that a C function sees: the bytes before the first zero.
unfoldable pub c_str : Bytes → Bytes
c_str [] = []
c_str (c ∷ s) = let rest = c_str s in if c == 0 then [] else c ∷ rest

-- `UnixServer::bind`, with `errno` where it returns false. The address is the family, in two bytes, and
-- the path without the zero byte behind it.
abbrev bound : Bytes → UnixServer → Option ℕ → Option ℕ × UnixServer
bound path s (some e) = (some e, s)
bound path s none = (none, record s { path = path })

unfoldable pub bind_unix : (name_too_long : ℕ) → Bytes → UnixServer → Sys (Option ℕ × UnixServer)
unfolding c_str
bind_unix name_too_long path s =
    if leb path_max (length path)
    then pure (some name_too_long, s)
    else (test (bind s.base.fd (af_unix ∷ (0 ∷ c_str path))) >>= λ res. pure (bound path s res))

unfoldable pub listen_step : UnixServer → Sys (Option ℕ × UnixServer)
listen_step s = listen_with s.base.backlog s.base >>= λ res. pure (res.0, record s { base = res.1 })

-- `chmod(path, 0666)`, whose failure is only reported.
abbrev chmod_step : Bytes → UnixServer → Sys (Option ℕ × UnixServer)
chmod_step path s = call (chmod (c_str path)) >>= λ _. pure (none, s)

unfoldable pub setup_steps : (name_too_long : ℕ) → Bytes → ℕ → Steps UnixServer
unfolding bind_unix listen_step
setup_steps name_too_long path flags =
    step base_of (with_flags flags)
    ∷ (bind_unix name_too_long path ∷ (listen_step ∷ (chmod_step path ∷ [])))

abbrev with_fd : ℤ → UnixServer → UnixServer
with_fd fd s = record s { base = record (s.base) { fd = fd } }

abbrev pub no_socket : Bytes → Bytes
no_socket path =
    codes "Running under systemd socket unit, but we received no UNIX-socket for \""
    ++ (path ++ codes "\".")

-- The part of `open` for a process that systemd started.
abbrev matches_unix : Bytes → ℤ → Sys Bool
matches_unix path fd = call (is_unix fd path) >>= λ a. pure (positive a)

abbrev searched : Process → Bytes → ℕ → UnixServer → Bool × ℕ → Sys (Bool × UnixServer)
searched p path flags s (true, fd) =
    complete base_of put_base p (step base_of (with_flags flags) ∷ []) (with_fd (pos fd) s)
searched p path flags s (false, fd) =
    give_up (record (s.base) { fd = pos fd; error_text = no_socket path }) >>= λ fin.
    pure (fin.0, record s { base = fin.1 })

unfoldable pub open_systemd : Process → Bytes → ℕ → UnixServer → Sys (Bool × UnixServer)
unfolding complete give_up sd_loop
open_systemd p path flags s =
    sd_loop (matches_unix path) p.sd_count sd_start >>= searched p path flags s

-- The part that creates the socket.
abbrev created :
    (name_too_long : ℕ) → Process → Bytes → ℕ → UnixServer → Answer → Sys (Bool × UnixServer)
created name_too_long p path flags s (ok n) =
    complete base_of put_base p (setup_steps name_too_long path flags) (with_fd (pos n) s)
created name_too_long p path flags s (error e) =
    complete base_of put_base p ((λ s'. pure (some e, s')) ∷ []) (with_fd (negsuc 0) s)

unfoldable pub open_new :
    (name_too_long : ℕ) → Process → Bytes → ℕ → UnixServer → Sys (Bool × UnixServer)
unfolding complete setup_steps
open_new name_too_long p path flags s =
    call (socket af_unix stream) >>= created name_too_long p path flags s

-- `UnixServer::open`, behind `getSocketUnix` and whole.
unfoldable pub looked_up :
    (name_too_long : ℕ) → Process → Bytes → ℕ → UnixServer → ℤ → Sys (Bool × UnixServer)
unfolding open_systemd open_new complete
looked_up name_too_long p path flags s fd =
    if is_fd fd
    then complete base_of put_base p (step base_of (with_flags flags) ∷ []) (with_fd fd s)
    else if ltb 0 p.sd_count
    then open_systemd p path flags (with_fd fd s)
    else open_new name_too_long p path flags (with_fd fd s)

unfoldable pub open_unix :
    (name_too_long : ℕ) → Process → Bytes → ℕ → UnixServer → Sys (Bool × UnixServer)
unfolding set_flags looked_up c_str
open_unix name_too_long p path flags s =
    socket_unix p.listen_fds (c_str path)
    >>= looked_up name_too_long p path flags (record s { base = set_flags flags s.base })

-- `UnixServer::close`: the path is removed whether or not the socket was open.
unfoldable pub close_unix : UnixServer → Sys UnixServer
unfolding close_socket c_str
close_unix s = close_socket s.base >>= λ b.
    let s' = record s { base = b } in
    if length s.path == 0 then pure s' else (call (unlink (c_str s.path)) >> pure s')

-- `UnixServer::clone`: the result of `open` is not looked at.
unfoldable pub clone_unix :
    (name_too_long : ℕ) → Process → (somaxconn : ℤ) → UnixServer → Sys UnixServer
unfolding open_unix
clone_unix name_too_long p somaxconn s =
    open_unix name_too_long p s.path s.base.flags (new_unix somaxconn) >>= λ res. pure res.1
