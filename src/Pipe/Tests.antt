-- ===== src/Pipe/Tests.antt =====
-- The theorems on pipes, with two concrete pipes, and with a kernel that has nothing to read.
use libxio.Base.{◌≡◌, refl, [], ◌∷◌, some, arith}
use libxio.Memory.{heap}
use libxio.Kernel.{Moved}
use libxio.Buffer.{Buffer}
use libxio.Buffer.Valid.{IsValid}
use libxio.Base.Int.{ℤ, pos}
use libxio.Pipe.{Pipe, write, read_byte, clear}
use libxio.Pipe.Synced.{Synced}
use libxio.Pipe.Reach.{stay, more, writes, reads_byte, Steps-Synced}
use libxio.Pipe.Drain.{clear-Synced}
use libxio.Concrete.{TwoPipes, two_pipes, two_pipes-IsKernel, two_pipes-yields}

abbrev full : Pipe
full = record { read_fd = pos 3; write_fd = pos 4; size = 3 }

abbrev other : Pipe
other = record { read_fd = pos 5; write_fd = pos 6; size = 1 }

abbrev held_bytes : TwoPipes
held_bytes = (1 ∷ 2 ∷ 3 ∷ [], 9 ∷ [])

full-Synced : Synced two_pipes two_pipes-IsKernel full held_bytes
full-Synced = record { ends = refl; counted = refl; bounded = omega arith }

clear-Synced_example :
    (p : Pipe) × (s : TwoPipes) × (clear two_pipes 3 full held_bytes ≡ some (p, s))
    × Synced two_pipes two_pipes-IsKernel p s
    × (p.size ≡ 0)
    × (s.0 ≡ [])
clear-Synced_example =
    clear-Synced two_pipes two_pipes-IsKernel 3 full held_bytes full-Synced two_pipes-yields
      (omega arith)

abbrev one_byte : Buffer
one_byte = record { block = heap (7 ∷ []); size = 1; capacity = 1 }

one_byte-IsValid : IsValid one_byte
one_byte-IsValid = record { owned = refl; within = omega arith; bounded = omega arith }

-- Five bytes are written to the first pipe, and one is taken.
abbrev written : Moved × Pipe × TwoPipes
written = write two_pipes (4 ∷ 5 ∷ 6 ∷ 7 ∷ 8 ∷ []) full held_bytes

abbrev taken : ℤ × Pipe × TwoPipes
taken = read_byte two_pipes written.1 written.2

Steps-Synced_example : Synced two_pipes two_pipes-IsKernel taken.1 taken.2
Steps-Synced_example =
    Steps-Synced two_pipes two_pipes-IsKernel full-Synced
      (more (more stay (writes (4 ∷ 5 ∷ 6 ∷ 7 ∷ 8 ∷ []) (omega arith) refl)) (reads_byte refl))
