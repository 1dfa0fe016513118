-- ===== src/Echo/Tests.antt =====
-- The echo server with two chunks, of which the first is sent in part.
use libxio.Base.{◌≡◌, refl, true, false, List, [], ◌∷◌, ◌++◌, Bytes, min, Returns, arith}
use libxio.Kernel.{Moved, Received}
use libxio.BufferStream.Inv.{IsStream}
use libxio.Echo.{Life, Event, new_client, serve}
use libxio.Echo.Faithful.{Left, serve-Echoed}
use libxio.Concrete.{plain_realloc, plain_realloc-IsRealloc, plain_realloc-grants}

-- The socket takes two bytes at a time.
abbrev chunk : Bytes → Event
chunk xs = record {
  timeout = false;
  readable = true;
  writable = true;
  received = Received.got xs;
  accepts = λ n. Moved.moved (min 2 n);
}

abbrev events : List Event
events = chunk (5 ∷ 6 ∷ 7 ∷ []) ∷ (chunk (8 ∷ []) ∷ [])

new_client-IsStream : IsStream new_client.stream
new_client-IsStream = record {
  valid = record { owned = refl; within = omega arith; bounded = omega arith };
  within = omega arith;
}

serve-Echoed_example :
    Returns
      (λ p.
        (tail : Bytes) × (5 ∷ 6 ∷ 7 ∷ 8 ∷ [] ≡ p.1 ++ tail)
        × Left plain_realloc plain_realloc-IsRealloc plain_realloc-grants tail p.0)
      (serve plain_realloc events (Life.alive new_client))
serve-Echoed_example =
    serve-Echoed plain_realloc plain_realloc-IsRealloc plain_realloc-grants events new_client
      (
        record { short = omega arith; takes = λ n. omega arith },
        (record { short = omega arith; takes = λ n. omega arith }, tt),
      )
      new_client-IsStream (omega arith)
