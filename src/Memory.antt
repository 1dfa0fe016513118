-- ===== src/Memory.antt =====
-- The heap block that a buffer owns (`BufferBase::data_` of include/xio/Buffer.h), and what the C
-- library does with it: `realloc` is a parameter, `free` and `memcpy` act on the block.
use libxio.Base.{
  ℕ, ◌+◌, ◌≤◌, ◌≡◌, Option, none, some, [], ◌++◌, Bytes, length, take, drop, Run, done, fault,
  Fault, leb, if◌then◌else◌,
}

-- What the pointer points to: nothing, an allocated block with its bytes, or a block that was freed.
pub data Block : Type 0 where
  null : Block
  heap : Bytes → Block
  freed : Block

abbrev pub block_bytes : Block → Bytes
block_bytes null = []
block_bytes (heap m) = m
block_bytes freed = []

-- `std::realloc`: the bytes of the new block, or `none` where it returns NULL.
abbrev pub Realloc : Type 0
Realloc = Bytes → ℕ → Option Bytes

-- The allocator returned NULL for some request.
abbrev pub Refuses : Realloc → Type 0
Refuses r = (m : Bytes) × (n : ℕ) × (r m n ≡ none)

-- What the C standard says of `realloc`: a new block has the size asked for and holds the bytes of
-- the old one, as far as both reach.
pub record IsRealloc (r : Realloc) : Type 0 where
  pub sized : (m : Bytes) (n : ℕ) {m' : Bytes} → r m n ≡ some m' → length m' ≡ n
  pub keeps :
      (m : Bytes) (n k : ℕ) {m' : Bytes}
      → r m n ≡ some m'
      → k ≤ n
      → k ≤ length m
      → take k m' ≡ take k m

-- `free(p)`: freeing a block a second time is an error of the program.
unfoldable pub free : Block → Run Block
free null = done null
free (heap m) = done freed
free freed = fault Fault.use_after_free

-- `realloc(p, n)`; `none` is a NULL result, which leaves the block as it is.
unfoldable pub realloc : Realloc → Block → ℕ → Run (Option Block)
realloc r freed n = fault Fault.use_after_free
realloc r null n = done (elim (r [] n) [ none ↦ none | some m ↦ some (heap m) ])
realloc r (heap m) n = done (elim (r m n) [ none ↦ none | some m' ↦ some (heap m') ])

-- `memcpy(p + off, xs, length xs)`.
unfoldable pub write_at : Block → ℕ → Bytes → Run Block
write_at null off xs = fault Fault.out_of_bounds
write_at freed off xs = fault Fault.use_after_free
write_at (heap m) off xs =
    if leb (off + length xs) (length m)
    then done (heap (take off m ++ (xs ++ drop (off + length xs) m)))
    else fault Fault.out_of_bounds
