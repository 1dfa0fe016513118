-- ===== src/ChunkedStream.antt =====
-- `ChunkedStream` (include/xio/ChunkedStream.h, lib/ChunkedStream.cpp): a queue of chunks, each a
-- buffer stream or a pipe. The three reading loops have one body, here `drain`, over the chunk's
-- method that they call.
pub mod Round
pub mod Write
pub mod Read
pub mod Stuck
pub mod Tests
use libxio.Base.{
  ℕ, zero, suc, ◌+◌, ◌-◌, ◌%◌, Bool, true, false, not, ◌&&◌, ◌||◌, List, [], ◌∷◌, ◌++◌, Bytes,
  size_mod, length, drop, Option, none, some, Run, done, fault, Fault, ◌>>=◌, ltb, ◌==◌,
  if◌then◌else◌,
}
use libxio.Base.Int.{ℤ, negsuc}
use libxio.Kernel.{Kernel, Moved, Received}
use libxio.Memory.{Realloc, block_bytes, write_at}
use libxio.Buffer.{Buffer, Policy, reserve, resize}
use libxio.Pipe.{Pipe, Mode, Opened}
use libxio.Pipe
use libxio.BufferStream.{BufferStream}
use libxio.BufferStream
use libxio.BufferStream.Transfer
use libxio.ReadLoop.{result_or}

-- `Stream*`, as far as the chunks are concerned.
pub data Chunk : Type 0 where
  buffer : BufferStream → Chunk
  pipe : Pipe → Chunk

-- `chunk->size()`.
unfoldable pub chunk_size : Chunk → ℕ
chunk_size (buffer st) = BufferStream.size st
chunk_size (pipe p) = p.size

-- The field `chunks_`, the front first.
abbrev pub ChunkedStream : Type 0
ChunkedStream = List Chunk

-- `empty()` looks at the front chunk alone.
unfoldable pub empty : ChunkedStream → Bool
empty [] = true
empty (c ∷ cs) = chunk_size c == 0

-- `size()`.
unfoldable pub size : ChunkedStream → ℕ
size [] = 0
size (c ∷ cs) = (chunk_size c + size cs) % size_mod

-- `pop_front()`.
abbrev pub pop_front : ChunkedStream → ChunkedStream
pop_front [] = []
pop_front (c ∷ cs) = cs

-- The back chunk, with those before it, if it is a buffer stream with unread bytes fewer than its
-- capacity; the test of `buffer(size)`.
unfoldable pub tail_buffer : ChunkedStream → Option (ChunkedStream × BufferStream)
tail_buffer [] = none
tail_buffer (buffer st ∷ []) =
    if ltb (BufferStream.size st) st.buffer.capacity then some ([], st) else none
tail_buffer (pipe p ∷ []) = none
tail_buffer (c ∷ d ∷ cs) = elim (tail_buffer (d ∷ cs)) [
  | none ↦ none
  | some (init, st) ↦ some (c ∷ init, st)
]

-- `buffer(size)`: the chunks before the one that is to be written, and that one.
unfoldable pub buffer_chunk : Realloc → ℕ → ChunkedStream → Run (ChunkedStream × BufferStream)
buffer_chunk r n cs = elim (tail_buffer cs) [
  | some (init, st) ↦ done (init, st)
  | none ↦ do st ← BufferStream.create r n; done (cs, st)
]

-- `pipe(size)`: the same for a pipe; a new one has the descriptors that `pipe2` returned.
unfoldable pub pipe_chunk : Opened → ChunkedStream → ChunkedStream × Pipe
pipe_chunk o [] = ([], Pipe.create o)
pipe_chunk o (pipe p ∷ []) = ([], p)
pipe_chunk o (buffer st ∷ []) = (buffer st ∷ [], Pipe.create o)
pipe_chunk o (c ∷ d ∷ cs) = let (init, p) = pipe_chunk o (d ∷ cs) in (c ∷ init, p)

-- `write(const char*, size_t)`.
unfoldable pub write : Realloc → Bytes → ChunkedStream → Run (ℕ × ChunkedStream)
write r xs cs = do
  (init, st) ← buffer_chunk r (length xs) cs
  (n, st') ← BufferStream.write r xs st
  done (n, init ++ (buffer st' ∷ []))

-- What the caller's array holds after `memcpy(buf, xs, …)` at its start.
abbrev pub overwrite : Bytes → Bytes → Bytes
overwrite out xs = xs ++ drop (length xs) out

module _ (k : Kernel) where
  open k use {State}

  -- `write(Pipe*, size_t, Mode)`: moving goes into a pipe chunk, copying into a buffer chunk, which
  -- reads the source.
  unfoldable pub write_pipe :
      Realloc
      → Opened
      → Pipe
      → ℕ
      → Mode
      → ChunkedStream
      → State
      → Run (Moved × ChunkedStream × Pipe × State)
  write_pipe r o src n Mode.move cs s =
      let (init, p) = pipe_chunk o cs in
      let (rv, p', src', s') = Pipe.write_pipe k src n Mode.move p s in
      done (rv, init ++ (pipe p' ∷ []), src', s')
  write_pipe r o src n Mode.copy cs s = do
    (init, st) ← buffer_chunk r n cs
    (rv, st', src', s') ← Transfer.write_pipe k r src n st s
    done (rv, init ++ (buffer st' ∷ []), src', s')

  -- `write(int fd, size_t)`.
  unfoldable pub write_fd : Opened → ℤ → ℕ → ChunkedStream → State → Moved × ChunkedStream × State
  write_fd o fd n cs s =
      let (init, p) = pipe_chunk o cs in
      let (rv, p', s') = Pipe.write_from_fd k fd n p s in (rv, init ++ (pipe p' ∷ []), s')

  -- `while (!empty() && size > 0) …`. `pull` is the chunk's method; a chunk that it has emptied is
  -- deleted. The fuel bounds the rounds.
  module _ {A : Type 0} (pull : ℕ → Chunk → A → Run (Moved × Chunk × A)) where
    unfoldable pub drain : (fuel n result : ℕ) → ChunkedStream → A → Run (Moved × ChunkedStream × A)
    drain f n result [] a = done (Moved.moved result, [], a)
    drain zero n result (c ∷ cs) a =
        if (chunk_size c == 0) || (n == 0)
        then done (Moved.moved result, c ∷ cs, a)
        else fault Fault.out_of_fuel
    drain (suc f) n result (c ∷ cs) a =
        let next = λ (m : ℕ) (rest : ChunkedStream) (b : A). drain f (n - m) (result + m) rest b in
        if (chunk_size c == 0) || (n == 0)
        then done (Moved.moved result, c ∷ cs, a)
        else pull n c a >>= λ res. elim res.0 [
          | Moved.failed e ↦ done (result_or result (Moved.failed e), res.1 ∷ cs, res.2)
          | Moved.moved m ↦ next m (if chunk_size res.1 == 0 then cs else res.1 ∷ cs) res.2
        ]

  -- `chunk->read(buf, size)`.
  unfoldable pub pull_memory : ℕ → Chunk → Bytes × State → Run (Moved × Chunk × (Bytes × State))
  pull_memory n (buffer st) (out, s) = do
    (xs, st') ← BufferStream.read n st
    done (Moved.moved (length xs), buffer st', (overwrite out xs, s))
  pull_memory n (pipe p) (out, s) =
      let (rv, p', s') = Pipe.read k n p s in
      elim rv [
        | Received.got xs ↦ done (Moved.moved (length xs), pipe p', (overwrite out xs, s'))
        | Received.failed e ↦ done (Moved.failed e, pipe p', (out, s'))
      ]

  -- `chunk->read(pp, size)`; that of a pipe is not implemented and returns 0.
  unfoldable pub pull_pipe : ℕ → Chunk → Pipe × State → Run (Moved × Chunk × (Pipe × State))
  pull_pipe n (buffer st) (pp, s) = do
    (rv, st', pp', s') ← Transfer.read_pipe k pp n st s
    done (rv, buffer st', (pp', s'))
  pull_pipe n (pipe p) (pp, s) = done (Moved.moved 0, pipe p, (pp, s))

  -- `chunk->read(fd, size)`.
  unfoldable pub pull_fd : ℤ → ℕ → Chunk → State → Run (Moved × Chunk × State)
  pull_fd fd n (buffer st) s = do
    (rv, st', s') ← Transfer.read_fd k fd n st s
    done (rv, buffer st', s')
  pull_fd fd n (pipe p) s = let (rv, p', s') = Pipe.read_to_fd k fd n p s in done (rv, pipe p', s')

  -- `read(char*, size_t)`, `read(Pipe*, size_t)` and `read(int fd, size_t)`.
  unfoldable pub read :
      (fuel n : ℕ) → Bytes → ChunkedStream → State → Run (Moved × ChunkedStream × (Bytes × State))
  read f n out cs s = drain pull_memory f n 0 cs (out, s)

  -- `read(Buffer&, size_t)`: `read(char*, size_t)` to the end of the buffer, whatever `reserve`
  -- returned, and `resize` by the number that it returned.
  abbrev grown : Moved → Buffer → Buffer
  grown (Moved.failed e) b = b
  grown (Moved.moved m) b = if m == 0 then b else (resize ((b.size + m) % size_mod) b).1

  unfoldable pub read_into :
      Realloc
      → (fuel n : ℕ) → Buffer
      → ChunkedStream
      → State
      → Run (Moved × Buffer × ChunkedStream × State)
  unfolding read
  read_into r f n result cs s = do
    (_, b) ← reserve r Policy.mutable ((result.size + n) % size_mod) result
    (rv, cs', (out, s')) ← read f n (drop b.size (block_bytes b.block)) cs s
    p ← if length out == 0 then done b.block else write_at b.block b.size out
    done (rv, grown rv (record b { block = p }), cs', s')

  unfoldable pub read_pipe :
      (fuel n : ℕ) → Pipe → ChunkedStream → State → Run (Moved × ChunkedStream × (Pipe × State))
  read_pipe f n pp cs s = drain pull_pipe f n 0 cs (pp, s)

  unfoldable pub read_fd :
      (fuel n : ℕ) → ℤ → ChunkedStream → State → Run (Moved × ChunkedStream × State)
  read_fd f n fd cs s = drain (pull_fd fd) f n 0 cs s

  -- `read()`: a byte of the front chunk as an `int`, or -1.
  unfoldable pub read_byte : ChunkedStream → State → Run (ℤ × ChunkedStream × State)
  read_byte [] s = done (negsuc 0, [], s)
  read_byte (c ∷ cs) s = if chunk_size c == 0 then done (negsuc 0, c ∷ cs, s) else elim c [
    | buffer st ↦ do
      (ch, st') ← BufferStream.read_byte st
      done (ch, if BufferStream.size st' == 0 then cs else buffer st' ∷ cs, s)
    | pipe p ↦
        let (ch, p', s') = Pipe.read_byte k p s in
        done (ch, if p'.size == 0 then cs else pipe p' ∷ cs, s')
  ]
