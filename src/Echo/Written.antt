-- ===== src/Echo/Written.antt =====
-- What the handler of the echo server does with an event that it may write at.
use libxio.Base.{
  ℕ, zero, suc, ◌≤◌, ◌<◌, ◌≡◌, refl, ap, ◌∙◌, Bool, true, false, [], ◌++◌, Bytes, length, take,
  take-all, take-append-drop, Returns, Returns-mono, arith, inl, inr, subst, ◌==◌, Bool-cases,
}
use libxio.Kernel.{Moved, Received}
use libxio.BufferStream.{size, shift}
use libxio.BufferStream.Inv.{
  IsStream, pending, length-pending, size_lem, shift-pending, read_block-contents,
}
use libxio.Echo.{
  Client, Life, alive, deleted, Event, obey, on_write, passed, took, when_written, write_if,
}

-- What the handler reads of an event.
abbrev pub bytes_of : Received → Bytes
bytes_of (Received.got xs) = xs
bytes_of (Received.failed e) = []

abbrev pub read_if : Bool → Received → Bytes
read_if true rv = bytes_of rv
read_if false rv = []

abbrev pub arrived_if : (timeout readable : Bool) → Received → Bytes
arrived_if true readable rv = []
arrived_if false readable rv = read_if readable rv

abbrev pub arrived : Event → Bytes
arrived ev = arrived_if ev.timeout ev.readable ev.received

-- A read fills less than the array, and a write takes no more than it is offered.
abbrev Takes : Moved → ℕ → Type 0
Takes (Moved.moved m) n = m ≤ n
Takes (Moved.failed e) n = Unit

pub record IsEvent (ev : Event) : Type 0 where
  pub short : length (bytes_of ev.received) < 1024
  pub takes : (n : ℕ) → Takes (ev.accepts n) n

-- The bytes that were queued, those that were sent, and what is left: nothing is lost, doubled or put
-- out of order. A client that deletes itself loses what it has not sent.
abbrev pub Echoed : Bytes → Life → Bytes → ℕ → Type 0
Echoed owed (alive c) sent room =
    IsStream c.stream × (owed ≡ sent ++ pending c.stream) × (c.stream.buffer.size ≤ room)
Echoed owed (deleted b) sent room = (lost : Bytes) × (owed ≡ sent ++ lost)

pub obey-stream : (xs : Bytes) (c : Client) → (obey xs c).stream ≡ c.stream
unfolding obey
obey-stream xs c = ground arith

when_written-Echoed :
    (c : Client) (sent : Bytes) (room : ℕ)
    → IsStream c.stream
    → c.stream.buffer.size ≤ room
    → Echoed (sent ++ pending c.stream) (when_written c) sent room
unfolding when_written
when_written-Echoed c sent room v le = elim (Bool-cases (size c.stream == 0)) [
  | inr more ↦ rw more (v, refl, le)
  | inl all ↦ rw all (elim (Bool-cases c.closing) [
    | inl e ↦ rw e (pending c.stream, refl)
    | inr e ↦ rw e (v, refl, le)
  ])
]

-- The bytes that a write takes leave the front of the queue.
passed-Echoed :
    (m : Moved) (c : Client)
    → IsStream c.stream
    → Takes m (length (pending c.stream))
    → Echoed (pending c.stream) (passed m c) (took m (pending c.stream)) c.stream.buffer.size
unfolding passed
passed-Echoed (Moved.failed e) c v t = (pending c.stream, refl)
passed-Echoed (Moved.moved zero) c v t =
    when_written-Echoed c [] c.stream.buffer.size v (omega arith)
passed-Echoed (Moved.moved (suc n)) c v t =
    let (v', rest, small) = shift-pending c.stream v (suc n) t in
    subst
      (λ owed.
        Echoed owed (when_written (record c { stream = shift (suc n) c.stream }))
          (take (suc n) (pending c.stream)) c.stream.buffer.size)
      (ap (λ q. take (suc n) (pending c.stream) ++ q) rest
        ∙ take-append-drop (suc n) (pending c.stream))
      (when_written-Echoed (record c { stream = shift (suc n) c.stream })
        (take (suc n) (pending c.stream)) c.stream.buffer.size v' small)

on_write-Echoed :
    (accepts : ℕ → Moved) (c : Client)
    → IsStream c.stream
    → ((n : ℕ) → Takes (accepts n) n)
    → Returns (λ p. Echoed (pending c.stream) p.0 p.1 c.stream.buffer.size) (on_write accepts c)
unfolding on_write
on_write-Echoed accepts c v t =
    rw
      (
        size_lem c.stream v,
        read_block-contents c.stream v c.stream.read_offset (length (pending c.stream))
            (omega (arith, length-pending c.stream v, v.within)),
        take-all (length (pending c.stream)) (pending c.stream) (omega arith),
      )
      (passed-Echoed (accepts (length (pending c.stream))) c v (t (length (pending c.stream))))

pub write_if-Echoed :
    (w : Bool) (accepts : ℕ → Moved) (l : Life) (owed : Bytes) (room : ℕ)
    → ((n : ℕ) → Takes (accepts n) n)
    → Echoed owed l [] room
    → Returns (λ p. Echoed owed p.0 p.1 room) (write_if w accepts l)
unfolding write_if
write_if-Echoed false accepts l owed room t e = e
write_if-Echoed true accepts (deleted b) owed room t e = e
write_if-Echoed true accepts (alive c) owed room t (v, e, le) =
    Returns-mono (λ p. Echoed (pending c.stream) p.0 p.1 c.stream.buffer.size)
      (λ p. Echoed owed p.0 p.1 room) (on_write accepts c) (on_write-Echoed accepts c v t)
      λ p q. wider p.0 p.1 q
  where
    wider :
        (l : Life) (sent : Bytes)
        → Echoed (pending c.stream) l sent c.stream.buffer.size
        → Echoed owed l sent room
    wider (alive c') sent (v', q, le') = (v', e ∙ q, omega arith)
    wider (deleted b) sent (lost, q) = (lost, e ∙ q)
