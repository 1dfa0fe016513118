-- ===== src/Echo/Chunk.antt =====
-- What chunks of certain lengths do to the echo server.
use libxio.Base.{
  ℕ, ◌+◌, ◌≤◌, ◌≡◌, refl, true, [], ◌∷◌, Bytes, length, fault, Fault, Returns, Returns-bind, ge→ltb,
}
use libxio.Kernel.{Received}
use libxio.Memory.{Realloc, IsRealloc}
use libxio.Buffer.{chunk_size}
use libxio.Base.{size_mod, ◌<◌}
use libxio.BufferStream.{write}
use libxio.BufferStream.Inv.{IsStream, Written, write_lem}
use libxio.Echo.{Client, Life, alive, deleted, obey, on_read}

-- A read that fills the array of 1024 bytes puts the NUL behind its end.
pub on_read-full :
    (r : Realloc) (x : ℕ) (xs : Bytes) (c : Client)
    → 1024 ≤ length (x ∷ xs)
    → on_read r (Received.got (x ∷ xs)) c ≡ fault Fault.out_of_bounds
unfolding on_read
on_read-full r x xs c h = rw (ge→ltb (length (x ∷ xs)) 1024 h) refl

-- Any chunk of two bytes, such as an empty line, is taken for the word that stops the server: of two
-- bytes, none is compared.
abbrev pub Stopping : Life → Type 0
Stopping (alive c) = (c.closing ≡ true) × (c.server_stopped ≡ true)
Stopping (deleted b) = b ≡ true

pub on_read-stops :
    (r : Realloc) (x y : ℕ) (c : Client)
    → IsRealloc r
    → IsStream c.stream
    → c.stream.buffer.size + 2 + chunk_size < size_mod
    → Returns Stopping (on_read r (Received.got (x ∷ (y ∷ []))) c)
unfolding on_read obey
on_read-stops r x y c ok v h =
    Returns-bind (Written c.stream v r (x ∷ (y ∷ []))) Stopping (write r (x ∷ (y ∷ [])) c.stream) _
      (write_lem c.stream v r (x ∷ (y ∷ [])) ok h) λ p w. (refl, refl)
