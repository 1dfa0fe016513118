-- ===== src/ReadLoop/Tests.antt =====
-- The theorem on the read loop, at a pipe with three bytes.
use libxio.Base.{refl, [], ◌∷◌, Returns, arith}
use libxio.Base.Int.{pos}
use libxio.Memory.{heap}
use libxio.Buffer.{Buffer}
use libxio.Buffer.Valid.{IsValid}
use libxio.ReadLoop.{read_into}
use libxio.ReadLoop.Filled.{Filled, read_into-Filled}
use libxio.Concrete.{
  TwoPipes, two_pipes, two_pipes-IsKernel, plain_realloc, plain_realloc-IsRealloc,
}

abbrev one_byte : Buffer
one_byte = record { block = heap (7 ∷ []); size = 1; capacity = 1 }

one_byte-IsValid : IsValid one_byte
one_byte-IsValid = record { owned = refl; within = omega arith; bounded = omega arith }

abbrev held_bytes : TwoPipes
held_bytes = (1 ∷ 2 ∷ 3 ∷ [], [])

read_into-Filled_example :
    Returns
      (Filled two_pipes two_pipes-IsKernel plain_realloc plain_realloc-IsRealloc
        (pos 3)
        10
        0
        one_byte
        held_bytes)
      (read_into two_pipes plain_realloc (pos 3) 10 one_byte held_bytes)
read_into-Filled_example =
    read_into-Filled two_pipes two_pipes-IsKernel plain_realloc plain_realloc-IsRealloc (pos 3) 10
      one_byte held_bytes one_byte-IsValid (omega arith)
