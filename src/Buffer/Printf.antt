-- ===== src/Buffer/Printf.antt =====
-- `MutableBuffer::printf` (include/xio/Buffer.h): the loop that makes room until `snprintf` has put
-- its whole text behind the bytes.
pub mod Put
pub mod Printed
use libxio.Base.{
  ℕ, zero, suc, ◌+◌, ◌-◌, ◌%◌, ◌^◌, Bool, true, false, Option, none, some, [], ◌∷◌, ◌++◌, Bytes,
  size_mod, length, take, Run, done, fault, Fault, ◌>>=◌, ltb, ◌==◌, if◌then◌else◌,
}
use libxio.Memory.{Block, Realloc, write_at}
use libxio.Buffer.{Buffer, Policy, reserve, resize, push_back}

-- `snprintf(p + off, room, fmt, args...)` for a format and arguments that give `text`: as much of it
-- as fits in front of a NUL is written, and nothing where there is no room.
unfoldable pub snprintf : Bytes → Block → (off room : ℕ) → Run Block
unfolding write_at
snprintf text p off zero = done p
snprintf text p off (suc n) = write_at p off (take n text ++ (0 ∷ []))

-- The end of a round whose text did not fit: more room and another round, or, if there is none, a NUL
-- in the last byte of the storage.
unfoldable pub grow_or_stop : (Buffer → Run Buffer) → Bool × Buffer → Run Buffer
unfolding write_at
grow_or_stop next (true, b) = next b
grow_or_stop next (false, b) = do
  p ← write_at b.block ((b.capacity + size_mod - 1) % size_mod) (0 ∷ [])
  done (record b { block = p })

-- `snprintf` returns an `int`: it fails where the text is longer than that can say.
abbrev pub countable : Option Bytes → Option Bytes
countable none = none
countable (some text) = if ltb (length text) (2 ^ 31) then some text else none

-- `while (true) …`, for a number of rounds. The text is `none` where `snprintf` returns -1, which the
-- loop takes for a success.
unfoldable pub printf_loop : Realloc → Policy → Option Bytes → ℕ → Buffer → Run Buffer
unfolding snprintf
printf_loop r e text zero b = fault Fault.out_of_fuel
printf_loop r e none (suc rounds) b = done (resize ((b.size + size_mod - 1) % size_mod) b).1
printf_loop r e (some text) (suc rounds) b =
    let next = printf_loop r e (some text) rounds in
    do
      p ← snprintf text b.block b.size (b.capacity - b.size)
      if ltb (length text) (b.capacity - b.size)
          then done (resize (b.size + length text) (record b { block = p })).1
          else do
            res ← reserve r e ((b.capacity + (length text + 1)) % size_mod) (record b { block = p })
            grow_or_stop next res

-- `printf(fmt, args...)` for a format of `len` bytes; the result of the first `reserve` is not read.
unfoldable pub printf : Realloc → Policy → (rounds len : ℕ) → Option Bytes → Buffer → Run Buffer
printf r e rounds len text b = do
  (_, b') ← reserve r e ((b.size + len + 1) % size_mod) b
  printf_loop r e (countable text) rounds b'

-- `printf(fmt)` without arguments appends the format as it is.
unfoldable pub printf_plain : Realloc → Policy → Bytes → Buffer → Run Buffer
printf_plain r e fmt b = push_back r e fmt b
