-- ===== src/BufferStream.antt =====
-- `BufferStream` (include/xio/BufferStream.h, lib/BufferStream.cpp): a byte queue in a buffer, with an
-- offset up to which it has been read. The transfers to and from pipes and descriptors are in
-- `Transfer`, the proofs in the other modules below.
pub mod Reads
pub mod Inv
pub mod Queue
pub mod Transfer
pub mod Tests
use libxio.Base.{
  ℕ, ◌+◌, ◌-◌, ◌%◌, min, ◌≡◌, refl, Bool, true, false, not, List, [], ◌∷◌, Bytes, size_mod, length,
  take, drop, get_elem?, Option, none, some, Run, done, fault, Fault, ◌>>=◌, ltb, leb, ◌==◌,
  if◌then◌else◌,
}
use libxio.Base.Int.{ℤ, pos, negsuc}
use libxio.Memory.{Block, null, heap, freed, Realloc}
use libxio.Buffer.{Buffer, Policy, empty_buffer, with_capacity, reserve, push_back, clear}

-- The fields `data_` and `readOffset_`.
pub record BufferStream : Type 0 where
  pub buffer : Buffer
  pub read_offset : ℕ

-- `BufferStream()` and `BufferStream(size_t)`.
abbrev pub empty_stream : BufferStream
empty_stream = record { buffer = empty_buffer; read_offset = 0 }

unfoldable pub create : Realloc → ℕ → Run BufferStream
create r cap = do b ← with_capacity r cap; done (record { buffer = b; read_offset = 0 })

abbrev pub write_offset : BufferStream → ℕ
write_offset st = st.buffer.size

-- `size()`, a `size_t` difference.
unfoldable pub size : BufferStream → ℕ
size st = (write_offset st + size_mod - st.read_offset) % size_mod

-- `shift(n)`: passes `n` bytes, or forgets all of them.
unfoldable pub shift : ℕ → BufferStream → BufferStream
unfolding clear
shift n st =
    if ltb ((st.read_offset + n) % size_mod) (write_offset st)
    then record st { read_offset = st.read_offset + n }
    else record { buffer = clear st.buffer; read_offset = 0 }

-- `memcpy(buf, p + off, n)` from a block: the bytes that are copied.
unfoldable pub read_block : Block → (off n : ℕ) → Run Bytes
read_block null off n = if n == 0 then done [] else fault Fault.out_of_bounds
read_block freed off n = if n == 0 then done [] else fault Fault.use_after_free
read_block (heap m) off n =
    if leb (off + n) (length m) then done (take n (drop off m)) else fault Fault.out_of_bounds

-- `write(const char*, size_t)`: the bytes that the call accepted are counted by the buffer's growth.
unfoldable pub write : Realloc → Bytes → BufferStream → Run (ℕ × BufferStream)
write r xs st = do
  b ← push_back r Policy.mutable xs st.buffer
  done ((b.size + size_mod - st.buffer.size) % size_mod, record st { buffer = b })

-- `read(char*, size_t)`: the bytes stored through the pointer, whose number is returned.
unfoldable pub read : ℕ → BufferStream → Run (Bytes × BufferStream)
read n st = do
  xs ← read_block st.buffer.block st.read_offset (min n (size st))
  done (xs, shift (min n (size st)) st)

-- `read(Buffer&, size_t)`: the buffer it appends to, the number of bytes, and the stream.
unfoldable pub read_into : Realloc → Buffer → ℕ → BufferStream → Run (ℕ × Buffer × BufferStream)
read_into r result n st = do
  let count = min n (size st)
  (_, result') ← reserve r Policy.mutable ((result.size + count) % size_mod) result
  xs ← read_block st.buffer.block st.read_offset count
  result'' ← push_back r Policy.mutable xs result'
  done (count, result'', shift count st)

-- A `char` is signed: this is the `int` that it converts to.
abbrev pub char_value : ℕ → ℤ
char_value c = if ltb c 128 then pos c else negsuc (255 - c)

-- `read()`: the next byte as an `int`, or -1.
unfoldable pub read_byte : BufferStream → Run (ℤ × BufferStream)
read_byte st =
    if not (st.read_offset == write_offset st)
    then (do
      xs ← read_block st.buffer.block st.read_offset 1
      elim xs [
        | [] ↦ fault Fault.out_of_bounds
        | c ∷ _ ↦ done (char_value c, record st { read_offset = (st.read_offset + 1) % size_mod })
      ])
    else done (negsuc 0, st)
