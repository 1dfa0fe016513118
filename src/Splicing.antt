-- ===== src/Splicing.antt =====
-- The proxy of examples/network-splicing.cpp: bytes go from a client through a pipe to a backend, over
-- `Socket::read(Pipe*, size_t)` and `Socket::write(Pipe*, size_t)` (lib/Socket.cpp).
pub mod Forwarded
mod Tests
use libxio.Base.{ℕ, zero, suc, ◌+◌, Option, none, some}
use libxio.Base.Int.{ℤ}
use libxio.Kernel.{Kernel, Moved}
use libxio.Pipe.{Pipe, Mode, write_socket}

module _ (k : Kernel) where
  open k use {State}

  -- `Socket::read(Pipe*, size_t)` of the socket with a descriptor.
  unfoldable pub read_pipe : (fd : ℤ) → Pipe → (n : ℕ) → State → Moved × Pipe × State
  unfolding write_socket
  read_pipe fd p n s = write_socket k fd n Mode.move p s

  -- `Socket::write(Pipe*, size_t, Mode)`: the count of the pipe is not touched.
  unfoldable pub send_pipe : (fd : ℤ) → Pipe → (n : ℕ) → State → Moved × State
  send_pipe fd p n s = k.splice p.read_fd fd n s

  -- The loop of `proxy_run`, for a number of rounds; `none` is a loop that has not ended by then.
  unfoldable pub go_on :
      (Pipe → State → Option (Pipe × State))
      → (backend : ℤ) → Moved × Pipe × State
      → Option (Pipe × State)
  unfolding send_pipe
  go_on next backend (Moved.failed e, p, s) = some (p, s)
  go_on next backend (Moved.moved zero, p, s) = some (p, s)
  go_on next backend (Moved.moved (suc n), p, s) = next p (send_pipe backend p p.size s).1

  unfoldable pub proxy : (rounds : ℕ) (client backend : ℤ) → Pipe → State → Option (Pipe × State)
  unfolding read_pipe
  proxy zero client backend p s = none
  proxy (suc rounds) client backend p s =
      go_on (proxy rounds client backend) backend (read_pipe client p 1024 s)
