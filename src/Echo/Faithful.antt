-- ===== src/Echo/Faithful.antt =====
-- The echo server sends what it received, in order.
use libxio.Base.{
  ℕ, ◌+◌, ◌≤◌, ◌<◌, ◌≡◌, refl, sym, ap, ◌∙◌, Bool, true, false, List, [], ◌∷◌, ◌++◌, append-nil,
  append_assoc, Bytes, size_mod, length, done, Returns, Returns-bind, ◌>>=◌, arith, inl, inr, subst,
  length-append, if◌then◌else◌, lt→ltb,
}
use libxio.Kernel.{Received}
use libxio.Memory.{Realloc, IsRealloc, Refuses}
use libxio.Buffer.{chunk_size}
use libxio.BufferStream.{BufferStream, write}
use libxio.BufferStream.Inv.{IsStream, pending, Written, write_lem}
use libxio.Echo.{Client, Life, alive, deleted, Event, obey, on_read, write_if, handle, serve}
use libxio.Echo.Written.{
  bytes_of, read_if, arrived_if, arrived, IsEvent, Echoed, obey-stream, write_if-Echoed,
}

module _ (r : Realloc) (ok : IsRealloc r) (memory : ¬ Refuses r) where
  on_read-Echoed :
      (rv : Received) (c : Client)
      → IsStream c.stream
      → length (bytes_of rv) < 1024
      → c.stream.buffer.size + length (bytes_of rv) + chunk_size < size_mod
      → Returns
          (λ l.
            Echoed
              (pending c.stream ++ bytes_of rv)
              l
              []
              (c.stream.buffer.size + length (bytes_of rv)))
          (on_read r rv c)
  unfolding on_read
  on_read-Echoed (Received.failed e) c v short h = (pending c.stream ++ [], refl)
  on_read-Echoed (Received.got []) c v short h = (pending c.stream ++ [], refl)
  on_read-Echoed (Received.got (x ∷ xs)) c v short h = rw (lt→ltb _ _ short) (
      Returns-bind (Written c.stream v r (x ∷ xs))
        (λ l. Echoed (pending c.stream ++ (x ∷ xs)) l [] (c.stream.buffer.size + length (x ∷ xs)))
        (write r (x ∷ xs) c.stream) _ (write_lem c.stream v r (x ∷ xs) ok h) λ p w. queued p w)
    where
      queued :
          (p : ℕ × BufferStream)
          → Written c.stream v r (x ∷ xs) p
          → Echoed
              (pending c.stream ++ (x ∷ xs))
              (alive (obey (x ∷ xs) (record c { stream = p.1; watch_write = true })))
              []
              (c.stream.buffer.size + length (x ∷ xs))
      queued (n, st) (v', inr (e, q, refused), small) = absurd (memory refused)
      queued (n, st) (v', inl (e, q), small) =
          rw (obey-stream (x ∷ xs) (record c { stream = st; watch_write = true }))
            (v', sym q, small)

  -- One call of the handler.
  handle-Echoed :
      (ev : Event) (c : Client)
      → IsEvent ev
      → IsStream c.stream
      → c.stream.buffer.size + length (arrived ev) + chunk_size < size_mod
      → Returns
          (λ p.
            Echoed
              (pending c.stream ++ arrived ev)
              p.0
              p.1
              (c.stream.buffer.size + length (arrived ev)))
          (handle r ev c)
  unfolding handle
  handle-Echoed ev c i v h = timed ev.timeout h
    where
      reading :
          (readable : Bool)
          → c.stream.buffer.size + length (read_if readable ev.received) + chunk_size < size_mod
          → Returns
              (λ p.
                Echoed
                  (pending c.stream ++ read_if readable ev.received)
                  p.0
                  p.1
                  (c.stream.buffer.size + length (read_if readable ev.received)))
              (if readable
                then (on_read r ev.received c >>= λ l. write_if ev.writable ev.accepts l)
                else write_if ev.writable ev.accepts (alive c))
      reading false h =
          write_if-Echoed ev.writable ev.accepts (alive c) (pending c.stream ++ [])
            (c.stream.buffer.size + 0) i.takes (v, append-nil (pending c.stream), omega arith)
      reading true h =
          Returns-bind
            (λ l.
              Echoed (pending c.stream ++ bytes_of ev.received) l []
                (c.stream.buffer.size + length (bytes_of ev.received)))
            (λ p.
              Echoed (pending c.stream ++ bytes_of ev.received) p.0 p.1
                (c.stream.buffer.size + length (bytes_of ev.received)))
            (on_read r ev.received c) _ (on_read-Echoed ev.received c v i.short h)
            λ l e.
              write_if-Echoed ev.writable ev.accepts l (pending c.stream ++ bytes_of ev.received)
                (c.stream.buffer.size + length (bytes_of ev.received)) i.takes e

      timed :
          (timeout : Bool)
          → c.stream.buffer.size + length (arrived_if timeout ev.readable ev.received) + chunk_size
            < size_mod
          → Returns
              (λ p.
                Echoed
                  (pending c.stream ++ arrived_if timeout ev.readable ev.received)
                  p.0
                  p.1
                  (c.stream.buffer.size + length (arrived_if timeout ev.readable ev.received)))
              (if timeout
                then done (deleted c.server_stopped, [])
                else if ev.readable
                then (on_read r ev.received c >>= λ l. write_if ev.writable ev.accepts l)
                else write_if ev.writable ev.accepts (alive c))
      timed true h = (pending c.stream ++ [], refl)
      timed false h = reading ev.readable h

  -- What is left stands in the queue of a client that lives.
  abbrev pub Left : Bytes → Life → Type 0
  Left tail (alive c) = tail ≡ pending c.stream
  Left tail (deleted b) = Unit

  -- All the bytes that arrive.
  abbrev pub all_arrived : List Event → Bytes
  all_arrived [] = []
  all_arrived (ev ∷ evs) = arrived ev ++ all_arrived evs

  abbrev pub AllEvents : List Event → Type 0
  AllEvents [] = Unit
  AllEvents (ev ∷ evs) = IsEvent ev × AllEvents evs

  abbrev Served : Bytes → Life × Bytes → Type 0
  Served owed p = (tail : Bytes) × (owed ≡ p.1 ++ tail) × Left tail p.0

  serve-deleted : (evs : List Event) (b : Bool) → serve r evs (deleted b) ≡ done (deleted b, [])
  unfolding serve
  serve-deleted [] b = refl
  serve-deleted (ev ∷ evs) b = refl

  -- One event and those behind it.
  serve_rest :
      (l : Life) (sent owed more : Bytes) (room : ℕ) (evs : List Event)
      → Echoed owed l sent room
      → ((c : Client)
          → IsStream c.stream
          → c.stream.buffer.size ≤ room
          → Returns (Served (pending c.stream ++ more)) (serve r evs (alive c)))
      → Returns (Served (owed ++ more)) (serve r evs l >>= λ p. done (p.0, sent ++ p.1))
  serve_rest (deleted b) sent owed more room evs (lost, q) ih = rw (serve-deleted evs b) (
    lost ++ more,
    ap (λ t. t ++ more) q
        ∙ append_assoc sent lost more
        ∙ ap (λ t. t ++ (lost ++ more)) (sym (append-nil sent)),
    tt,
  )
  serve_rest (alive c) sent owed more room evs (v, q, le) ih =
      Returns-bind (Served (pending c.stream ++ more)) (Served (owed ++ more))
        (serve r evs (alive c)) _ (ih c v le)
        λ p s. (
          s.0,
          ap (λ t. t ++ more) q
              ∙ append_assoc sent (pending c.stream) more
              ∙ ap (λ t. sent ++ t) s.1
              ∙ sym (append_assoc sent p.1 s.0),
          s.2,
        )

  -- Over any events, with reads that do not fill the array and writes that take no more than they are
  -- offered, and while the allocator has memory and the sizes stay far from the end of `size_t`, the handler commits no fault. What has gone out is the
  -- begin of what was unsent before and has arrived since; as long as the client lives, the rest stands
  -- in its queue.
  pub serve-Echoed :
      (evs : List Event) (c : Client)
      → AllEvents evs
      → IsStream c.stream
      → c.stream.buffer.size + length (all_arrived evs) + chunk_size < size_mod
      → Returns
          (λ p.
            (tail : Bytes) × (pending c.stream ++ all_arrived evs ≡ p.1 ++ tail) × Left tail p.0)
          (serve r evs (alive c))
  unfolding serve
  serve-Echoed [] c i v h = (pending c.stream, append-nil (pending c.stream), refl)
  serve-Echoed (ev ∷ evs) c i v h =
      Returns-bind
        (λ p.
          Echoed (pending c.stream ++ arrived ev) p.0 p.1
            (c.stream.buffer.size + length (arrived ev)))
        (Served (pending c.stream ++ (arrived ev ++ all_arrived evs))) (handle r ev c) _
        (handle-Echoed ev c i.0 v (omega (arith, count)))
        λ p e.
          subst (λ owed. Returns (Served owed) (serve r evs p.0 >>= λ q. done (q.0, p.1 ++ q.1)))
            (append_assoc (pending c.stream) (arrived ev) (all_arrived evs))
            (serve_rest p.0 p.1 (pending c.stream ++ arrived ev) (all_arrived evs)
              (c.stream.buffer.size + length (arrived ev)) evs e
              (λ c' v' le. serve-Echoed evs c' i.1 v' (omega (arith, count))))
    where
      count :
          length (arrived ev ++ all_arrived evs) ≡ length (arrived ev) + length (all_arrived evs)
      count = length-append (arrived ev) (all_arrived evs)
