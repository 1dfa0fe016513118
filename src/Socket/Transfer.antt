-- ===== src/Socket/Transfer.antt =====
-- The reads and writes of a client socket that are one system call, with its result: the number of
-- bytes or `errno`.
use libxio.Base.{ℕ, Bytes}
use libxio.Base.Int.{ℤ}
use libxio.System.{Sys, Answer, ok, error, pure, call}
use libxio.System.Call.{read, write, splice, send_file}
use libxio.Pipe.{Pipe, Mode}
use libxio.Socket.{Socket}

module _ {Span : Type 0} where
  -- `read(char*, size_t)`; what it stores is not told.
  unfoldable pub read_bytes : ℕ → Socket Span → Sys Answer
  read_bytes n s = call (read s.fd n)

  -- `read(Socket*, size_t)` and `read(int, size_t)` are not written yet.
  unfoldable pub read_socket : Socket Span → ℕ → Socket Span → Sys Answer
  read_socket other n s = pure (ok 0)

  unfoldable pub read_fd : ℤ → ℕ → Socket Span → Sys Answer
  read_fd fd n s = pure (ok 0)

  -- `write(const char*, size_t)`.
  unfoldable pub write_bytes : Bytes → Socket Span → Sys Answer
  write_bytes xs s = call (write s.fd xs)

  -- `write(FileStream*, size_t, Mode)` and `write(int, size_t)`, from the descriptor of the file.
  unfoldable pub write_file : (handle : ℤ) → ℕ → Mode → Socket Span → Sys Answer
  write_file handle n how s = call (send_file s.fd handle n)

  unfoldable pub write_fd : ℤ → ℕ → Socket Span → Sys Answer
  write_fd fd n s = call (send_file s.fd fd n)

  -- `write(Socket*, size_t, Mode)`: 95 is `ENOTSUP`.
  unfoldable pub write_socket : Socket Span → ℕ → Mode → Socket Span → Sys Answer
  write_socket other n how s = pure (error 95)

  -- `write(Pipe*, size_t, Mode)`; the count of the pipe is not touched.
  unfoldable pub write_pipe : Pipe → ℕ → Mode → Socket Span → Sys Answer
  write_pipe p n how s = call (splice p.read_fd s.fd n)
