-- ===== src/ReadLoop.antt =====
-- The loop of `Pipe::read(Buffer&, size_t)` (lib/Pipe.cpp) and `Socket::read(Buffer&, size_t)`
-- (lib/Socket.cpp), which have the same body: fill a buffer from a descriptor.
pub mod Room
pub mod Filled
mod Tests
use libxio.Base.{
  ℕ, zero, suc, ◌+◌, ◌-◌, ◌*◌, ◌/◌, ◌%◌, min, max, ◌≡◌, refl, Bool, true, false, not, List, [], ◌∷◌,
  Bytes, size_mod, length, Run, done, fault, Fault, ◌>>=◌, ltb, leb, ◌==◌, if◌then◌else◌,
}
use libxio.Base.Int.{ℤ}
use libxio.Kernel.{Kernel, Moved, Received}
use libxio.Memory.{Realloc}
use libxio.Buffer.{Buffer, Policy, reserve, copy_end}

-- The capacity asked for when fewer than 256 bytes are free.
abbrev pub next_capacity : ℕ → ℕ
next_capacity size = max 4096 (size * 3 / 2)

-- `nread ? nread : rv`.
abbrev pub result_or : ℕ → Moved → Moved
result_or nread rv = if nread == 0 then rv else Moved.moved nread

abbrev pub free_bytes : Buffer → ℕ
free_bytes b = (b.capacity + size_mod - b.size) % size_mod

-- The first part of a round: the buffer with room, or `none` for `ENOMEM`.
unfoldable pub make_room : Realloc → Buffer → Run (Bool × Buffer)
make_room r b =
    if ltb (free_bytes b) 256
    then reserve r Policy.mutable (next_capacity b.size) b
    else done (true, b)

module _ (k : Kernel) (r : Realloc) (fd : ℤ) where
  open k use {State}

  abbrev pub Result : Type 0
  Result = Run (Moved × Buffer × State)

  -- The rest of a round, once `::read` has returned; `next` is the following round.
  unfoldable pub after_read :
      (ℕ → ℕ → Buffer → State → Result) → (n nread nbytes : ℕ) → Buffer → Received → State → Result
  after_read next n nread nbytes b (Received.failed e) s =
      done (result_or nread (Moved.failed e), b, s)
  after_read next n nread nbytes b (Received.got []) s =
      done (result_or nread (Moved.moved 0), b, s)
  after_read next n nread nbytes b (Received.got (x ∷ xs)) s = do
    b' ← copy_end (x ∷ xs) b
    if ltb (length (x ∷ xs)) nbytes
        then done (Moved.moved (nread + length (x ∷ xs)), b', s)
        else next (n - length (x ∷ xs)) (nread + length (x ∷ xs)) b' s

  -- A round reads at most what is free and wanted. The fuel bounds the rounds; each that goes on has
  -- taken bytes, so `n` rounds are enough for `n` bytes.
  unfoldable pub fill : (fuel n nread : ℕ) → Buffer → State → Result
  fill zero zero nread b s = done (Moved.moved nread, b, s)
  fill zero (suc n) nread b s = fault Fault.out_of_fuel
  fill (suc f) zero nread b s = done (Moved.moved nread, b, s)
  fill (suc f) (suc n) nread b s = do
    (room, b') ← make_room r b
    if not room
        then done (result_or nread (Moved.failed 12), b', s)
        else after_read (fill f) (suc n) nread (min (free_bytes b') (suc n)) b'
            (k.read fd (min (free_bytes b') (suc n)) s).0
            (k.read fd (min (free_bytes b') (suc n)) s).1

  -- The method, with its `size` rounds.
  unfoldable pub read_into : (n : ℕ) → Buffer → State → Result
  unfolding fill
  read_into n b s = fill n n 0 b s
