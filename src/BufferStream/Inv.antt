-- ===== src/BufferStream/Inv.antt =====
-- `size`, `shift`, `read` and `write` of a buffer stream against the queue of its unread bytes.
use libxio.Base.{
  ℕ, ◌+◌, ◌-◌, ◌%◌, ◌≤◌, ◌<◌, min, ◌≡◌, ◌⊎◌, sym, ap, ◌∙◌, ◌++◌, Bytes, size_mod, length, take,
  drop, done, ltb, Returns, Returns-bind, arith, inl, inr, Bool-cases, le→leb, eq→==, ltb→lt,
  ltb→ge, mod_small, drop-drop, drop-take, take-take, length-drop, drop-all, drop-nil, take-nil,
  drop-append_left, length-append, take-min, drop-min,
}
use libxio.Memory.{Block, null, heap, freed, block_bytes, Realloc, IsRealloc, Refuses}
use libxio.Buffer.{Buffer, Policy, contents, chunk_size, push_back}
use libxio.Buffer.Valid.{Owns, IsValid}
use libxio.Buffer.Append.{Pushed, push_back-Pushed, length-contents, clear-IsValid}
use libxio.BufferStream.{BufferStream, size, shift, read_block, write, read}

-- The unread bytes.
abbrev pub pending : BufferStream → Bytes
pending st = drop st.read_offset (contents st.buffer)

pub record IsStream (st : BufferStream) : Type 0 where
  pub valid : IsValid st.buffer
  pub within : st.read_offset ≤ st.buffer.size

read_block_stored :
    (p : Block) (s c off n : ℕ)
    → Owns p c
    → s ≤ c
    → off + n ≤ s
    → read_block p off n ≡ done (take n (drop off (take s (block_bytes p))))
unfolding read_block
read_block_stored null s c off n o le h = rw (
  eq→== n 0 (omega arith),
  take-nil {0} {A = ℕ} s,
  drop-nil {0} {A = ℕ} off,
  take-nil {0} {A = ℕ} n,
)
read_block_stored freed s c off n o le h = absurd o
read_block_stored (heap m) s c off n o le h = rw (
  le→leb (off + n) (length m) (omega arith),
  drop-take off s m,
  take-take n (s - off) (drop off m) (omega arith),
)

module _ (st : BufferStream) (v : IsStream st) where
  pub length-pending : length (pending st) ≡ st.buffer.size - st.read_offset
  length-pending = omega (
    arith,
    length-drop {0} st.read_offset (contents st.buffer),
    length-contents st.buffer v.valid,
  )

  -- `size()` is the number of unread bytes.
  pub size_lem : size st ≡ length (pending st)
  unfolding size
  size_lem = omega (arith, length-pending, v.within, v.valid.within, v.valid.bounded)

  -- `shift` passes bytes that were there to read.
  pub shift-pending :
      (n : ℕ)
      → n ≤ length (pending st)
      → IsStream (shift n st)
        × (pending (shift n st) ≡ drop n (pending st))
        × ((shift n st).buffer.size ≤ st.buffer.size)
  unfolding shift
  shift-pending n h =
      rw
        (mod_small (st.read_offset + n) {m = size_mod}
          (omega (arith, length-pending, v.within, v.valid.within, v.valid.bounded)))
        (elim (Bool-cases (ltb (st.read_offset + n) st.buffer.size)) [
          | inl some_left ↦ rw some_left (
            record { valid = v.valid; within = omega (arith, ltb→lt _ _ some_left) },
            sym (drop-drop n st.read_offset (contents st.buffer)),
            omega arith,
          )
          | inr none_left ↦ rw none_left (
            record { valid = clear-IsValid st.buffer v.valid; within = omega arith },
            sym (drop-all n (pending st) (omega (arith, length-pending, ltb→ge _ _ none_left))),
            omega arith,
          )
        ])

  -- A read of stored bytes.
  pub read_block-contents :
      (off n : ℕ)
      → off + n ≤ st.buffer.size
      → read_block st.buffer.block off n ≡ done (take n (drop off (contents st.buffer)))
  read_block-contents off n h =
      read_block_stored st.buffer.block st.buffer.size st.buffer.capacity off n v.valid.owned
        v.valid.within h

  -- `read(char*, n)` takes the first `n` unread bytes, or all if they are fewer, and leaves the rest.
  pub read_lem :
      (n : ℕ)
      → Returns
          (λ (xs, st').
            (xs ≡ take n (pending st))
            × (pending st' ≡ drop n (pending st))
            × IsStream st'
            × (st'.buffer.size ≤ st.buffer.size))
          (read n st)
  unfolding read
  read_lem n =
      rw
        (
          size_lem,
          read_block-contents st.read_offset (min n (length (pending st)))
              (omega (arith, length-pending, v.within)),
        )
        (let (valid, rest, small) = shift-pending (min n (length (pending st))) (omega arith) in
          (take-min n (pending st), rest ∙ drop-min n (pending st), valid, small))

  -- What a write leaves: all the bytes behind the unread ones, or, if the allocator refuses, none.
  abbrev pub Written : Realloc → Bytes → ℕ × BufferStream → Type 0
  Written r xs (n, st') =
      IsStream st'
      × (((n ≡ length xs) × (pending st' ≡ pending st ++ xs))
          ⊎ ((n ≡ 0) × (pending st' ≡ pending st) × Refuses r))
      × (st'.buffer.size ≤ st.buffer.size + length xs)

  -- `write(buf, n)`, far from the end of `size_t`, commits no fault: it queues all the bytes behind the
  -- unread ones and returns their number, or, if the allocator refuses, queues none and returns 0.
  pub write_lem :
      (r : Realloc) (xs : Bytes)
      → IsRealloc r
      → st.buffer.size + length xs + chunk_size < size_mod
      → Returns (Written r xs) (write r xs st)
  unfolding write
  write_lem r xs ok h =
      Returns-bind (Pushed r Policy.mutable st.buffer xs) (Written r xs)
        (push_back r Policy.mutable xs st.buffer) _
        (push_back-Pushed r Policy.mutable xs st.buffer ok v.valid h)
        λ b p. accept b p.valid p.bytes
    where
      grew :
          (b : Buffer)
          → (k : ℕ) → b.size ≡ st.buffer.size + k
          → st.buffer.size + k < size_mod
          → (b.size + size_mod - st.buffer.size) % size_mod ≡ k
      grew b k e lt = omega arith

      refusal : (Policy.mutable ≡ Policy.immutable) ⊎ Refuses r → Refuses r
      refusal (inl q) = absurd (cc)
      refusal (inr f) = f

      accept :
          (b : Buffer)
          → IsValid b
          → (contents b ≡ contents st.buffer ++ xs)
            ⊎ ((contents b ≡ contents st.buffer)
                × ((Policy.mutable ≡ Policy.immutable) ⊎ Refuses r))
          → Written r xs ((b.size + size_mod - st.buffer.size) % size_mod, record st { buffer = b })
      accept b valid (inl e) =
          let len : b.size ≡ st.buffer.size + length xs =
            sym (length-contents b valid)
            ∙ ap length e
            ∙ length-append (contents st.buffer) xs
            ∙ ap (λ k. k + length xs) (length-contents st.buffer v.valid) in
          (
            record { valid = valid; within = omega (arith, v.within) },
            inl (
              grew b (length xs) len (omega arith),
              ap (drop st.read_offset) e
                  ∙ drop-append_left st.read_offset (contents st.buffer) xs
                      (omega (arith, length-contents st.buffer v.valid, v.within)),
            ),
            omega (arith, len),
          )
      accept b valid (inr e) =
          let len : b.size ≡ st.buffer.size + 0 =
            sym (length-contents b valid)
            ∙ ap length e.0
            ∙ omega (arith, length-contents st.buffer v.valid) in
          (
            record { valid = valid; within = omega (arith, v.within) },
            inr (
              grew b 0 len (omega (arith, v.valid.within, v.valid.bounded)),
              ap (drop st.read_offset) e.0,
              refusal e.1,
            ),
            omega (arith, len),
          )
