-- ===== src/Buffer/Slice.antt =====
-- `BufferOffset`, `BufferSlice` and `Buffer::slice` (include/xio/Buffer.h): a view of a part of a
-- buffer that names the buffer and not its storage. Also `swap` and the remaining constructors of a
-- buffer.
pub mod Stable
use libxio.Base.{
  ℕ, ◌+◌, ◌-◌, ◌%◌, Bool, true, false, ◌||◌, Option, none, some, [], ◌∷◌, ◌++◌, Bytes, size_mod,
  length, take, drop, Run, done, fault, Fault, ◌>>=◌, ◌>>◌, assert, leb, ◌==◌, if◌then◌else◌,
}
use libxio.Memory.{Block, null, heap, freed, Realloc}
use libxio.Buffer.{Buffer, Policy, empty_buffer, push_back, resize, clear, reserve}
use libxio.BufferRef.{BufferRef, npos}

-- The buffers of the program, by their addresses.
abbrev pub Store : Type 0
Store = ℕ → Buffer

-- One buffer changes.
abbrev pub put : Store → ℕ → Buffer → Store
put st p b q = if p == q then b else st q

-- `buffer_`, null as `none`, `offset_` and `size_`.
pub record BufferSlice : Type 0 where
  pub buffer : Option ℕ
  pub offset : ℕ
  pub size : ℕ

-- `BufferSlice()`, and `BufferSlice(buffer, offset, size)`; copies and assignments copy the fields.
abbrev pub null_slice : BufferSlice
null_slice = record { buffer = none; offset = 0; size = 0 }

abbrev pub slice_of : (p offset size : ℕ) → BufferSlice
slice_of p offset size = record { buffer = some p; offset = offset; size = size }

-- `Buffer::slice(offset)` and `Buffer::slice(offset, count)` of the buffer at `p`.
unfoldable pub slice_from : Store → (p offset : ℕ) → Run BufferSlice
slice_from st p offset = do
  assert (leb offset (st p).size)
  done (slice_of p offset ((st p).size - offset))

unfoldable pub slice : Store → (p offset count : ℕ) → Run BufferSlice
slice st p offset count = do
  assert (leb offset (st p).size)
  assert ((count == npos) || leb ((offset + count) % size_mod) (st p).size)
  done (slice_of p offset (if count == npos then (st p).size - offset else count))

-- What stands in the storage behind a pointer, from an offset on.
unfoldable pub behind : Block → ℕ → Run Bytes
behind null offset = if offset == 0 then done [] else fault Fault.out_of_bounds
behind (heap m) offset =
    if leb offset (length m) then done (drop offset m) else fault Fault.out_of_bounds
behind freed offset = fault Fault.use_after_free

-- `data()`, that is `BufferOffset::operator char*` with its assertion: the bytes from there on.
unfoldable pub slice_data : Store → BufferSlice → Run Bytes
unfolding behind
slice_data st s = elim s.buffer [
  | none ↦ fault Fault.assert_failed
  | some p ↦ behind (st p).block s.offset
]

-- `ref(offset)` and `ref(offset, count)` of a slice.
unfoldable pub slice_ref_from : Store → BufferSlice → ℕ → Run BufferRef
slice_ref_from st s offset = do
  assert (leb offset s.size)
  m ← slice_data st s
  done (record { mem = drop offset m; size = s.size - offset })

unfoldable pub slice_ref : Store → BufferSlice → (offset count : ℕ) → Run BufferRef
slice_ref st s offset count = do
  assert (leb offset s.size)
  assert ((count == npos) || leb ((offset + count) % size_mod) s.size)
  m ← slice_data st s
  done (record { mem = drop offset m; size = if count == npos then s.size - offset else count })

-- `shl(value)` and `shr(value)`, for the bits of `value` as a `size_t`. The difference of two
-- unsigned numbers is never negative, so the assertion of `shl` always holds.
unfoldable pub shl : ℕ → BufferSlice → Run BufferSlice
shl value s = do
  assert (leb 0 ((s.offset + size_mod - value) % size_mod))
  done (record s { offset = (s.offset + size_mod - value) % size_mod })

unfoldable pub shr : ℕ → BufferSlice → BufferSlice
shr value s = record s { size = (s.size + value) % size_mod }

-- `swap` of two buffers.
unfoldable pub swap : Buffer × Buffer → Buffer × Buffer
swap (a, b) = (
  record { block = b.block; size = b.size; capacity = b.capacity },
  record { block = a.block; size = a.size; capacity = a.capacity },
)

-- `Buffer(const std::string&)`, which copies the terminator too and takes it off again.
unfoldable pub from_string : Realloc → Bytes → Run Buffer
from_string r s = do
  b ← push_back r Policy.mutable (s ++ (0 ∷ [])) empty_buffer
  done (resize (length s) b).1

-- `Buffer(const Buffer&)`, for the bytes of the other buffer.
unfoldable pub copy_of : Realloc → Bytes → Run Buffer
copy_of r s = push_back r Policy.mutable s empty_buffer

-- `Buffer(const BufferRef&, offset, count)`; the bytes are those behind the view's pointer.
unfoldable pub from_range : Realloc → BufferRef → (offset count : ℕ) → Run Buffer
from_range r v offset count = do
  assert (leb ((offset + count) % size_mod) v.size)
  if leb (offset + count) (length v.mem)
      then push_back r Policy.mutable (take count (drop offset v.mem)) empty_buffer
      else fault Fault.out_of_bounds

-- `operator=(const std::string&)` and `operator=(const char*)`.
unfoldable pub assign_text : Realloc → Bytes → Buffer → Run Buffer
assign_text r s b = push_back r Policy.mutable s (clear b)

-- `~Buffer()`.
unfoldable pub destroy : Realloc → Buffer → Run Buffer
destroy r b = do (_, b') ← reserve r Policy.mutable 0 b; done b'
