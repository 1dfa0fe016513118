-- ===== src/Echo.antt =====
-- The client of the echo server, examples/echo-server.cpp: what it reads from its socket goes through a
-- `BufferStream` back to the socket.
pub mod Written
pub mod Faithful
pub mod Chunk
mod Tests
use libxio.Base.{
  ℕ, zero, suc, ◌+◌, ◌-◌, ◌%◌, Bool, true, false, ◌||◌, List, [], ◌∷◌, ◌++◌, Bytes, size_mod,
  length, take, Run, done, fault, Fault, ◌>>=◌, ltb, ◌==◌, if◌then◌else◌,
}
use libxio.Kernel.{Moved, Received}
use libxio.Memory.{Realloc}
use libxio.BufferStream.{BufferStream, empty_stream, size, shift, read_block, write}

-- The fields `writeBuffer_` and `close_`; whether the socket is watched for room to write too, and
-- whether the server was stopped.
pub record Client : Type 0 where
  pub stream : BufferStream
  pub closing : Bool
  pub watch_write : Bool
  pub server_stopped : Bool

-- A new client, whose socket is watched for input.
abbrev pub new_client : Client
new_client = record {
  stream = empty_stream;
  closing = false;
  watch_write = false;
  server_stopped = false;
}

-- What the handler is called with, and what the system answers to its calls: the bytes that a read
-- hands over, and, for the number of bytes that a write offers, how many it takes.
pub record Event : Type 0 where
  pub timeout : Bool
  pub readable : Bool
  pub writable : Bool
  pub received : Received
  pub accepts : ℕ → Moved

-- The client goes on, or has deleted itself.
pub data Life : Type 0 where
  alive : Client → Life
  deleted : (server_stopped : Bool) → Life

-- `strncmp(a, b, n) == 0` of arrays in which a NUL stands.
unfoldable pub same_prefix : Bytes → Bytes → ℕ → Bool
same_prefix a b zero = true
same_prefix [] b (suc n) = false
same_prefix (x ∷ a) [] (suc n) = false
same_prefix (x ∷ a) (y ∷ b) (suc n) =
    let rest = if x == 0 then true else same_prefix a b n in if x == y then rest else false

-- The count `n - 2` of bytes that are compared, as a `size_t`.
abbrev pub compared : ℕ → ℕ
compared n = (n + size_mod - 2) % size_mod

-- What the bytes ask for: to stop the server, to close the client, or nothing.
unfoldable pub obey : Bytes → Client → Client
unfolding same_prefix
obey xs c =
    if same_prefix (xs ++ (0 ∷ [])) (b'.' ∷ (b'.' ∷ (0 ∷ []))) (compared (length xs))
    then record c { closing = true; server_stopped = true }
    else if same_prefix (xs ++ (0 ∷ [])) (b'.' ∷ (0 ∷ [])) (compared (length xs))
    then record c { closing = true }
    else c

-- The branch for `READ`. The array `buf` has 1024 bytes, and a NUL is put behind what was read.
unfoldable pub on_read : Realloc → Received → Client → Run Life
unfolding obey
on_read r (Received.failed e) c = done (deleted c.server_stopped)
on_read r (Received.got []) c = done (deleted c.server_stopped)
on_read r (Received.got (x ∷ xs)) c =
    if ltb (length (x ∷ xs)) 1024
    then (do
      (_, st) ← write r (x ∷ xs) c.stream
      done (alive (obey (x ∷ xs) (record c { stream = st; watch_write = true }))))
    else fault Fault.out_of_bounds

-- The end of the branch for `WRITE`: what happens when all is written.
unfoldable pub when_written : Client → Life
when_written c =
    if size c.stream == 0
    then (if c.closing then deleted c.server_stopped else alive (record c { watch_write = false }))
    else alive c

unfoldable pub passed : Moved → Client → Life
unfolding when_written
passed (Moved.failed e) c = deleted c.server_stopped
passed (Moved.moved zero) c = when_written c
passed (Moved.moved (suc n)) c = when_written (record c { stream = shift (suc n) c.stream })

-- The bytes that a write took.
abbrev pub took : Moved → Bytes → Bytes
took (Moved.moved n) xs = take n xs
took (Moved.failed e) xs = []

-- The branch for `WRITE`, and the bytes that went out.
unfoldable pub on_write : (ℕ → Moved) → Client → Run (Life × Bytes)
unfolding passed
on_write accepts c = do
  xs ← read_block c.stream.buffer.block c.stream.read_offset (size c.stream)
  done (passed (accepts (length xs)) c, took (accepts (length xs)) xs)

-- The handler: a client that deletes itself in the first branch does not come to the second one.
unfoldable pub write_if : Bool → (ℕ → Moved) → Life → Run (Life × Bytes)
write_if false accepts l = done (l, [])
write_if true accepts (alive c) = on_write accepts c
write_if true accepts (deleted b) = done (deleted b, [])

unfoldable pub handle : Realloc → Event → Client → Run (Life × Bytes)
handle r ev c =
    if ev.timeout
    then done (deleted c.server_stopped, [])
    else if ev.readable
    then (do l ← on_read r ev.received c; write_if ev.writable ev.accepts l)
    else write_if ev.writable ev.accepts (alive c)

-- Events one after the other, with all the bytes that went out; a deleted client is called no more.
unfoldable pub serve : Realloc → List Event → Life → Run (Life × Bytes)
serve r [] l = done (l, [])
serve r (ev ∷ evs) (deleted b) = done (deleted b, [])
serve r (ev ∷ evs) (alive c) = do
  (l, sent) ← handle r ev c
  (last, rest) ← serve r evs l
  done (last, sent ++ rest)
