-- ===== src/ChunkedStream/Tests.antt =====
-- The theorems on chunked streams, at one and two buffer chunks and at a pipe chunk.
use libxio.Base.{◌≡◌, refl, [], ◌∷◌, ◌++◌, fault, Fault, Returns, arith, done, replicate}
use libxio.Base.Int.{pos}
use libxio.Memory.{heap, write_at}
use libxio.Kernel.{Moved}
use libxio.Pipe.{Pipe}
use libxio.Buffer.{Buffer, reserve, resize}
use libxio.BufferStream
use libxio.BufferStream.{BufferStream, read_block, shift}
use libxio.BufferStream.Inv.{IsStream}
use libxio.ChunkedStream.{
  buffer, pipe, write, read, read_into, drain, chunk_size, pull_memory, read_pipe,
}
use libxio.ChunkedStream.Read.{read-Drained}
use libxio.ChunkedStream.Round.{stored, Drained}
use libxio.ChunkedStream.Write.{stored-write}
use libxio.ChunkedStream.Stuck.{read_pipe_endless}
use libxio.Concrete.{
  TwoPipes, two_pipes, plain_realloc, plain_realloc-IsRealloc, plain_realloc-grants,
}

abbrev two_bytes : BufferStream
two_bytes = record {
  buffer = record { block = heap (1 ∷ 2 ∷ []); size = 2; capacity = 2 };
  read_offset = 0;
}

two_bytes-IsStream : IsStream two_bytes
two_bytes-IsStream = record {
  valid = record { owned = refl; within = omega arith; bounded = omega arith };
  within = omega arith;
}

abbrev one_byte : BufferStream
one_byte = record {
  buffer = record { block = heap (9 ∷ []); size = 1; capacity = 1 };
  read_offset = 0;
}

one_byte-IsStream : IsStream one_byte
one_byte-IsStream = record {
  valid = record { owned = refl; within = omega arith; bounded = omega arith };
  within = omega arith;
}

abbrev no_bytes : TwoPipes
no_bytes = ([], [])

read-Drained_example :
    Returns
      (Drained two_pipes 3 0 (buffer two_bytes ∷ buffer one_byte ∷ []) (0 ∷ 0 ∷ 0 ∷ []) no_bytes)
      (read two_pipes 2 3 (0 ∷ 0 ∷ 0 ∷ []) (buffer two_bytes ∷ buffer one_byte ∷ []) no_bytes)
read-Drained_example =
    read-Drained two_pipes 2 3 (0 ∷ 0 ∷ 0 ∷ []) (buffer two_bytes ∷ buffer one_byte ∷ []) no_bytes
      (omega arith) (two_bytes-IsStream, (λ e. cc), (one_byte-IsStream, (λ e. cc), tt))

stored-write_example :
    Returns
      (λ (n, cs). (n ≡ 2) × (stored cs ≡ stored (buffer two_bytes ∷ []) ++ (5 ∷ 6 ∷ [])))
      (write plain_realloc (5 ∷ 6 ∷ []) (buffer two_bytes ∷ []))
stored-write_example =
    stored-write plain_realloc (5 ∷ 6 ∷ []) (buffer two_bytes ∷ []) plain_realloc-IsRealloc
      plain_realloc-grants (two_bytes-IsStream, omega arith, tt) (omega arith)

abbrev counted : Pipe
counted = record { read_fd = pos 3; write_fd = pos 4; size = 3 }

read_pipe_endless_example :
    read_pipe two_pipes 4 10 counted (pipe counted ∷ []) no_bytes ≡ fault Fault.out_of_fuel
read_pipe_endless_example =
    read_pipe_endless two_pipes 4 10 counted counted [] no_bytes (omega arith) (omega arith)

abbrev eight_free : Buffer
eight_free = record { block = heap (replicate 8 0); size = 0; capacity = 8 }

-- Three bytes of two chunks, read into a buffer of eight: the second chunk's byte lies over the
-- first's.
three_read :
    read_into two_pipes plain_realloc 2 3 eight_free
      (buffer two_bytes ∷ buffer one_byte ∷ [])
      no_bytes
    ≡ done (
      Moved.moved 3,
      record { block = heap (9 ∷ 2 ∷ replicate 6 0); size = 3; capacity = 8 },
      [],
      no_bytes,
    )
unfolding read_into reserve drain chunk_size BufferStream.size pull_memory BufferStream.read
    read_block shift write_at resize
three_read = refl
