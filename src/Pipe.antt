-- ===== src/Pipe.antt =====
-- `Pipe` (include/xio/Pipe.h, lib/Pipe.cpp): a kernel pipe with a count of the bytes in it. A method
-- that makes system calls takes the kernel's state and returns the new one.
pub mod Synced
pub mod Reach
pub mod Drain
pub mod Tests
use libxio.Base.{
  ℕ, zero, suc, ◌+◌, ◌-◌, ◌*◌, ◌/◌, ◌%◌, min, max, ◌≡◌, refl, Bool, true, false, not, List, [], ◌∷◌,
  Bytes, size_mod, length, Option, none, some, Run, done, fault, Fault, ◌>>=◌, ltb, leb, ◌==◌,
  if◌then◌else◌,
}
use libxio.Base.Int.{ℤ, pos, negsuc}
use libxio.Kernel.{Kernel, Moved, Received}
use libxio.Memory.{Realloc}
use libxio.Buffer.{Buffer, Policy, reserve, resize, copy_end}
use libxio.BufferStream.{char_value}
use libxio.ReadLoop

-- The fields `pipe_[0]`, `pipe_[1]` and `size_`.
pub record Pipe : Type 0 where
  pub read_fd : ℤ
  pub write_fd : ℤ
  pub size : ℕ

-- `Stream::Mode`.
pub data Mode : Type 0 where
  copy move : Mode

-- `Pipe::Pipe` from the result of `pipe2`: the two descriptors, or `errno`.
pub data Opened : Type 0 where
  opened : (r w : ℤ) → Opened
  failed : ℕ → Opened

unfoldable pub create : Opened → Pipe
create (opened r w) = record { read_fd = r; write_fd = w; size = 0 }
create (Opened.failed e) = record {
  read_fd = if e == 0 then pos 0 else negsuc (e - 1);
  write_fd = negsuc 0;
  size = 0;
}

-- `isOpen`, `isEmpty`.
unfoldable pub is_open : Pipe → Bool
is_open p = elim p.read_fd [ pos _ ↦ true | negsuc _ ↦ false ]

abbrev pub is_empty : Pipe → Bool
is_empty p = p.size == 0

-- `if (rv > 0) size_ += rv;` and `if (rv > 0) size_ -= rv;`, in `size_t`.
abbrev pub add_size : ℕ → Pipe → Pipe
add_size n p = record p { size = (p.size + n) % size_mod }

abbrev pub sub_size : ℕ → Pipe → Pipe
sub_size n p = record p { size = (p.size + size_mod - n) % size_mod }

-- The pipe after a call that filled it, or that emptied it.
abbrev pub filled : Moved → Pipe → Pipe
filled (Moved.moved n) p = add_size n p
filled (Moved.failed e) p = p

abbrev pub drained : Moved → Pipe → Pipe
drained (Moved.moved n) p = sub_size n p
drained (Moved.failed e) p = p

module _ (k : Kernel) where
  open k use {State}

  -- `write(const char*, size_t)`.
  unfoldable pub write : Bytes → Pipe → State → Moved × Pipe × State
  write xs p s = let (rv, s') = k.write p.write_fd xs s in (rv, filled rv p, s')

  -- `write(Socket*, size_t, Mode)`: copying is refused with `EINVAL`.
  unfoldable pub write_socket : (handle : ℤ) (n : ℕ) → Mode → Pipe → State → Moved × Pipe × State
  write_socket handle n Mode.copy p s = (Moved.failed 22, p, s)
  write_socket handle n Mode.move p s =
      let (rv, s') = k.splice handle p.write_fd n s in (rv, filled rv p, s')

  -- `write(Pipe*, size_t, Mode)`, from another pipe: the receiver, then the source. Moving asks for
  -- all that the source counts, whatever the size argument says.
  unfoldable pub write_pipe : Pipe → (n : ℕ) → Mode → Pipe → State → Moved × Pipe × Pipe × State
  write_pipe src n Mode.move p s =
      let (rv, s') = k.splice src.read_fd p.write_fd src.size s in
      (rv, filled rv p, drained rv src, s')
  write_pipe src n Mode.copy p s =
      let (rv, s') = k.tee src.read_fd p.write_fd n s in (rv, filled rv p, src, s')

  -- `write(int fd, size_t)`.
  unfoldable pub write_from_fd : (fd : ℤ) (n : ℕ) → Pipe → State → Moved × Pipe × State
  write_from_fd fd n p s = let (rv, s') = k.splice fd p.write_fd n s in (rv, filled rv p, s')

  -- `read(char*, size_t)`.
  unfoldable pub read : (n : ℕ) → Pipe → State → Received × Pipe × State
  read n p s =
      let (rv, s') = k.read p.read_fd n s in
      (rv, elim rv [ Received.got xs ↦ sub_size (length xs) p | Received.failed e ↦ p ], s')

  -- `read(Buffer&, size_t)`: the loop fills the buffer from the read end, and `size_` is not touched.
  unfoldable pub read_into :
      Realloc → Buffer → (n : ℕ) → Pipe → State → Run (Moved × Buffer × Pipe × State)
  read_into r result n p s = do
    (rv, result', s') ← ReadLoop.read_into k r p.read_fd n result s
    done (rv, result', p, s')

  -- `read(int fd, size_t)`.
  unfoldable pub read_to_fd : (fd : ℤ) (n : ℕ) → Pipe → State → Moved × Pipe × State
  read_to_fd fd n p s = let (rv, s') = k.splice p.read_fd fd n s in (rv, drained rv p, s')

  -- `read()`: a byte as an `int`, or -1.
  unfoldable pub read_byte : Pipe → State → ℤ × Pipe × State
  read_byte p s =
      if p.size == 0
      then (negsuc 0, p, s)
      else let (rv, p', s') = read 1 p s in
        (
          elim rv [
            | Received.got xs ↦ elim xs [ [] ↦ negsuc 0 | c ∷ _ ↦ char_value c ]
            | Received.failed e ↦ negsuc 0
          ],
          p',
          s',
        )

  -- `clear()`: reads 4096 bytes at most at a time for as long as bytes are counted. The fuel bounds
  -- the number of calls; `none` is a loop that has not ended by then.
  unfoldable pub clear : (fuel : ℕ) → Pipe → State → Option (Pipe × State)
  clear zero p s = if p.size == 0 then some (p, s) else none
  clear (suc f) p s =
      let (rv, p', s') = read (min p.size 4096) p s in
      let rest = clear f p' s' in if p.size == 0 then some (p, s) else rest
