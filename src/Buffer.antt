-- ===== src/Buffer.antt =====
-- `MutableBuffer<ensure>` and `Buffer` (include/xio/Buffer.h, lib/Buffer.cpp). The two instances of
-- the template differ in `ensure` alone, which is the argument `Policy` here. The proofs are in the
-- modules below.
pub mod Valid
pub mod Reserve
pub mod Inv
pub mod Append
pub mod Capacity
pub mod Printf
pub mod Slice
pub mod Dump
pub mod Tests
use libxio.Base.{
  ℕ, ◌+◌, ◌-◌, ◌%◌, ◌≡◌, refl, Bool, true, false, not, ◌&&◌, ◌||◌, Option, none, some, List, [],
  ◌∷◌, Bytes, size_mod, length, take, drop, Run, done, fault, Fault, ◌>>=◌, ◌>>◌, assert, ltb, leb,
  ◌==◌, if◌then◌else◌,
}
use libxio.Base.Int.{ℤ}
use libxio.Decimal.{print_int}
use libxio.Memory.{Block, null, heap, freed, block_bytes, Realloc, free, realloc, write_at}

-- The fields `data_`, `size_` and `capacity_`.
pub record Buffer : Type 0 where
  pub block : Block
  pub size : ℕ
  pub capacity : ℕ

-- `immutableEnsure` and `mutableEnsure`.
pub data Policy : Type 0 where
  immutable mutable : Policy

abbrev pub chunk_size : ℕ
chunk_size = 4096

-- The bytes that a client sees: `data()[0 .. size())`.
abbrev pub contents : Buffer → Bytes
contents b = take b.size (block_bytes b.block)

-- `Buffer::Buffer()`.
abbrev pub empty_buffer : Buffer
empty_buffer = record { block = null; size = 0; capacity = 0 }

-- The padding of a request, made only when the buffer has storage already.
abbrev pub pad : ℕ → ℕ
pad value = (value - 1 + chunk_size - (value - 1) % chunk_size) % size_mod

-- The end of `Buffer::setCapacity`: the call of `realloc`. A NULL result for size 0 has freed the
-- block, as glibc documents.
unfoldable pub reallocate : Realloc → ℕ → Buffer → Run (Bool × Buffer)
unfolding realloc
reallocate r value b = do
  rp ← realloc r b.block value
  elim rp [
    | some p ↦ done (true, record b { block = p; capacity = value })
    | none ↦
        if value == 0
        then done (true, record b { block = freed; capacity = value })
        else done (false, b)
  ]

-- `Buffer::setCapacity`. Freeing the storage leaves `data_` and `size_` as they were.
unfoldable pub set_capacity : Realloc → ℕ → Buffer → Run (Bool × Buffer)
unfolding free
set_capacity r value b =
    if (value == 0) && not (b.capacity == 0)
    then (do p ← free b.block; done (true, record b { block = p; capacity = 0 }))
    else if ltb b.capacity value
    then reallocate r (if not (b.capacity == 0) then pad value else value) b
    else if ltb value b.capacity
    then reallocate r value (if ltb value b.size then record b { size = value } else b)
    else done (true, b)

-- `MutableBuffer::reserve`, that is `ensure(this, value)`.
unfoldable pub reserve : Realloc → Policy → ℕ → Buffer → Run (Bool × Buffer)
reserve r Policy.immutable value b = done (leb value b.capacity, b)
reserve r Policy.mutable value b =
    if ltb b.capacity value || (value == 0) then set_capacity r value b else done (true, b)

-- `MutableBuffer::resize`: it moves `size_` within the capacity and never reallocates.
unfoldable pub resize : ℕ → Buffer → Bool × Buffer
resize value b = if ltb b.capacity value then (false, b) else (true, record b { size = value })

-- `BufferBase::clear`.
unfoldable pub clear : Buffer → Buffer
clear b = record b { size = 0 }

-- `memcpy(end(), value, len); size_ += len;`
unfoldable pub copy_end : Bytes → Buffer → Run Buffer
unfolding write_at
copy_end xs b = do
  p ← write_at b.block b.size xs
  done (record b { block = p; size = (b.size + length xs) % size_mod })

-- `push_back(const void*, size_t)`; the overloads for a `BufferRef` and a `std::string` have the
-- same body. The list is the bytes that the source points to.
unfoldable pub push_back : Realloc → Policy → Bytes → Buffer → Run Buffer
push_back r e [] b = done b
push_back r e (x ∷ xs) b = do
  (room, b') ← reserve r e ((b.size + length (x ∷ xs)) % size_mod) b
  if room then copy_end (x ∷ xs) b' else done b'

-- `push_back(char)`.
unfoldable pub push_back_char : Realloc → Policy → ℕ → Buffer → Run Buffer
push_back_char r e c b = do
  (room, b') ← reserve r e ((b.size + 1) % size_mod) b
  if room then copy_end (c ∷ []) b' else done b'

-- `push_back` of an `int`, a `long` or a `long long`, signed or not: the print is shorter than the
-- 32 bytes of the local array.
unfoldable pub push_back_int : Realloc → Policy → ℤ → Buffer → Run Buffer
push_back_int r e value b = push_back r e (print_int value) b

-- `push_back(const BufferRef&, size_t offset, size_t length)`, with its assertion as written. The
-- source reads `length` bytes behind `offset`, inside the viewed bytes or not.
unfoldable pub push_back_range : Realloc → Policy → Bytes → (offset len : ℕ) → Buffer → Run Buffer
push_back_range r e value offset len b = do
  assert (leb (length value) ((offset + len) % size_mod))
  if len == 0 then done b else do
    (room, b') ← reserve r e ((b.size + len) % size_mod) b
    if not room
        then done b'
        else if leb (offset + len) (length value)
        then copy_end (take len (drop offset value)) b'
        else fault Fault.out_of_bounds

-- `Buffer::Buffer(size_t)`.
unfoldable pub with_capacity : Realloc → ℕ → Run Buffer
with_capacity r n = do (_, b) ← reserve r Policy.mutable n empty_buffer; done b

-- `Buffer::operator=(const BufferRef&)`.
unfoldable pub assign : Realloc → Bytes → Buffer → Run Buffer
unfolding clear
assign r v b = push_back r Policy.mutable v (clear b)

-- `Buffer::operator=(Buffer&&)`: the first component is the target, the second the emptied source.
unfoldable pub move_assign : Realloc → Buffer → Buffer → Run (Buffer × Buffer)
move_assign r b v = do _ ← reserve r Policy.mutable 0 b; done (v, empty_buffer)

-- `Buffer::c_str`: makes room for a terminator and writes it behind the bytes.
unfoldable pub c_str : Realloc → Buffer → Run Buffer
c_str r b = do
  (room, b') ← reserve r Policy.mutable ((b.size + 1) % size_mod) b
  if not room
      then done b'
      else do p ← write_at b'.block b'.size (0 ∷ []); done (record b' { block = p })
