-- ===== src/BufferStream/Tests.antt =====
-- The theorems on buffer streams, at a stream of which one byte was read.
use libxio.Base.{◌≡◌, refl, [], ◌∷◌, done, Returns, arith}
use libxio.Memory.{heap}
use libxio.BufferStream.{BufferStream}
use libxio.BufferStream.Inv.{IsStream}
use libxio.BufferStream.Queue.{put, get, next, run, run_queue, run_refines}
use libxio.Base.Int.{pos}
use libxio.BufferStream.Transfer.{write_fd, read_fd}
use libxio.BufferStream.Transfer.Moves.{Queued, Sent, write_fd-Queued, read_fd-Sent}
use libxio.Concrete.{
  two_pipes, two_pipes-IsKernel, plain_realloc, plain_realloc-IsRealloc, plain_realloc-grants,
}

abbrev two_left : BufferStream
two_left = record {
  buffer = record { block = heap (1 ∷ 2 ∷ 3 ∷ 0 ∷ []); size = 3; capacity = 4 };
  read_offset = 1;
}

two_left-IsStream : IsStream two_left
two_left-IsStream = record {
  valid = record { owned = refl; within = omega arith; bounded = omega arith };
  within = omega arith;
}

run_refines_example :
    run plain_realloc (put (7 ∷ []) ∷ get 2 ∷ next ∷ next ∷ []) two_left
    ≡ done (run_queue (put (7 ∷ []) ∷ get 2 ∷ next ∷ next ∷ []) (2 ∷ 3 ∷ []))
run_refines_example =
    run_refines plain_realloc (put (7 ∷ []) ∷ get 2 ∷ next ∷ next ∷ []) two_left
      plain_realloc-IsRealloc plain_realloc-grants two_left-IsStream (omega arith)

-- A pipe with three bytes, of which two are asked for.
write_fd-Queued_example :
    Returns
      (Queued two_pipes two_pipes-IsKernel (pos 3) 2 two_left (5 ∷ 6 ∷ 7 ∷ [], []))
      (write_fd two_pipes plain_realloc (pos 3) 2 two_left (5 ∷ 6 ∷ 7 ∷ [], []))
write_fd-Queued_example =
    write_fd-Queued two_pipes two_pipes-IsKernel plain_realloc (pos 3) 2 two_left
      (5 ∷ 6 ∷ 7 ∷ [], []) plain_realloc-IsRealloc two_left-IsStream (omega arith) (omega arith)

read_fd-Sent_example :
    Returns
      (Sent two_pipes two_pipes-IsKernel (pos 4) 2 two_left ([], []))
      (read_fd two_pipes (pos 4) 2 two_left ([], []))
read_fd-Sent_example =
    read_fd-Sent two_pipes two_pipes-IsKernel (pos 4) 2 two_left ([], []) two_left-IsStream
