-- ===== src/Server.antt =====
-- What `InetServer::open` and `UnixServer::open` (lib/InetServer.cpp and lib/UnixServer.cpp) have in
-- common: the flags, the labels `done`, `syserr` and `err`, and the search of the descriptors that
-- systemd passed.
pub mod Rules
pub mod Outcome
use libxio.Base.{
  ℕ, zero, suc, ◌+◌, ◌^◌, ◌-◌, Bool, true, false, not, Option, none, some, List, [], ◌∷◌, Bytes,
  Run, done, fault, Fault, if◌then◌else◌,
}
use libxio.Base.Int.{ℤ, pos, negsuc}
use libxio.System.{
  Sys, Answer, ok, error, ◌>>=◌, ◌>>◌, pure, call, is_fd, has_bit, clear_bit, set_bit, nonblock,
  cloexec, add_fl, add_fd, Steps, attempt,
}
use libxio.System.Call.{close}
use libxio.ServerSocket.{ServerSocket, start}

-- What a process finds around it: the variable `XZERO_LISTEN_FDS`, the result of `sd_listen_fds`, and
-- the C library's texts of error numbers.
pub record Process : Type 0 where
  pub listen_fds : Option Bytes
  pub sd_count : ℕ
  pub strerror : ℕ → Bytes

-- `flags_` and `typeMask_` at the start of `open`; `SOCK_CLOEXEC` and `SOCK_NONBLOCK` are the bits of
-- `O_CLOEXEC` and `O_NONBLOCK`.
unfoldable pub set_flags : ℕ → ServerSocket → ServerSocket
set_flags flags s = record s {
  flags = clear_bit nonblock (clear_bit cloexec flags);
  type_mask =
      (if has_bit cloexec flags then 2 ^ cloexec else 0)
      + (if has_bit nonblock flags then 2 ^ nonblock else 0);
}

-- The label `err`.
unfoldable pub give_up : ServerSocket → Sys (Bool × ServerSocket)
give_up s =
    if is_fd s.fd
    then call (close s.fd) >> pure (false, record s { fd = negsuc 0 })
    else pure (false, s)

-- What runs behind the steps: the label `done`, or `syserr` with the `errno` of the step that failed.
unfoldable pub finish : Process → Option ℕ → ServerSocket → Sys (Bool × ServerSocket)
unfolding give_up
finish p none s = start s >>= λ s'. pure (true, s')
finish p (some e) s = give_up (record s { error_text = p.strerror e })

-- The loop over the descriptors of systemd: `fd_` runs up to the first that `matches` returns a
-- positive number for, or to the end.
abbrev pub sd_next : ℕ → Sys (Bool × ℕ) → Bool → Sys (Bool × ℕ)
sd_next fd rest true = pure (true, fd)
sd_next fd rest false = rest

unfoldable pub sd_loop : (ℤ → Sys Bool) → (left next : ℕ) → Sys (Bool × ℕ)
sd_loop matches zero fd = pure (false, fd)
sd_loop matches (suc n) fd = matches (pos fd) >>= sd_next fd (sd_loop matches n (suc fd))

-- `SD_LISTEN_FDS_START`.
abbrev pub sd_start : ℕ
sd_start = 3

-- A call whose result is tested for being positive.
abbrev pub positive : Answer → Bool
positive (ok zero) = false
positive (ok (suc n)) = true
positive (error e) = false

-- A call that only fails or not, as a step of a server with this base.
abbrev pub step :
    {S : Type 0} → (S → ServerSocket) → (ServerSocket → Sys (Option ℕ)) → S → Sys (Option ℕ × S)
step base f s = f (base s) >>= λ res. pure (res, s)

-- The steps, and then the label that their result leads to.
unfoldable pub complete :
    {S : Type 0}
    → (S → ServerSocket)
    → (ServerSocket → S → S)
    → Process
    → Steps S
    → S
    → Sys (Bool × S)
unfolding finish
complete base put p steps s =
    attempt steps s >>= λ res. finish p res.0 (base res.1) >>= λ fin. pure (fin.0, put fin.1 res.1)
