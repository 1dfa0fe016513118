-- ===== src/BufferStream/Transfer.antt =====
-- The methods of `BufferStream` (lib/BufferStream.cpp) that move bytes from and to pipes and
-- descriptors.
pub mod Moves
use libxio.Base.{ℕ, ◌+◌, ◌-◌, ◌%◌, min, [], ◌∷◌, size_mod, length, Run, done, ◌>>=◌}
use libxio.Base.Int.{ℤ}
use libxio.Kernel.{Kernel, Moved, Received}
use libxio.Memory.{Realloc}
use libxio.Buffer.{Buffer, Policy, reserve, copy_end}
use libxio.Pipe.{Pipe}
use libxio.Pipe
use libxio.BufferStream.{BufferStream, size, read_block}

-- The bytes that a read stored behind the buffer's own, with the `resize` that counts them; its
-- result as a number or an error.
unfoldable pub store : Received → Buffer → Run (Moved × Buffer)
store (Received.failed e) b = done (Moved.failed e, b)
store (Received.got []) b = done (Moved.moved 0, b)
store (Received.got (x ∷ xs)) b = do
  b' ← copy_end (x ∷ xs) b
  done (Moved.moved (length (x ∷ xs)), b')

-- `if (n > 0) readOffset_ += n;`
abbrev pub advance : Moved → BufferStream → BufferStream
advance (Moved.moved n) st = record st { read_offset = (st.read_offset + n) % size_mod }
advance (Moved.failed e) st = st

module _ (k : Kernel) where
  open k use {State}

  -- `write(int fd, size_t)`; the result of `reserve` is not looked at.
  unfoldable pub write_fd :
      Realloc → ℤ → ℕ → BufferStream → State → Run (Moved × BufferStream × State)
  write_fd r fd n st s = do
    (_, b) ← reserve r Policy.mutable ((st.buffer.size + n) % size_mod) st.buffer
    let count = min ((b.capacity + size_mod - b.size) % size_mod) n
    let (rv, s') = k.read fd count s
    (result, b') ← store rv b
    done (result, record st { buffer = b' }, s')

  -- `write(Pipe*, size_t, Mode)`.
  unfoldable pub write_pipe :
      Realloc → Pipe → ℕ → BufferStream → State → Run (Moved × BufferStream × Pipe × State)
  write_pipe r p n st s = do
    (_, b) ← reserve r Policy.mutable ((st.buffer.size + n) % size_mod) st.buffer
    let count = min ((b.capacity + size_mod - b.size) % size_mod) n
    let (rv, p', s') = Pipe.read k count p s
    (result, b') ← store rv b
    done (result, record st { buffer = b' }, p', s')

  -- `read(int fd, size_t)`: the bytes written start at `data()`.
  unfoldable pub read_fd : ℤ → ℕ → BufferStream → State → Run (Moved × BufferStream × State)
  read_fd fd n st s = do
    xs ← read_block st.buffer.block 0 (min (size st) n)
    let (rv, s') = k.write fd xs s
    done (rv, advance rv st, s')

  -- `read(Pipe*, size_t)`.
  unfoldable pub read_pipe :
      Pipe → ℕ → BufferStream → State → Run (Moved × BufferStream × Pipe × State)
  read_pipe p n st s = do
    xs ← read_block st.buffer.block 0 (min (size st) n)
    let (rv, p', s') = Pipe.write k xs p s
    done (rv, advance rv st, p', s')
