-- ===== src/ChunkedStream/Stuck.antt =====
-- Where a chunked stream stops giving its bytes: behind an empty front chunk, and at a pipe chunk
-- whose transfer is not implemented.
use libxio.Base.{
  ℕ, zero, suc, ◌+◌, ◌-◌, ◌<◌, ◌≡◌, ◌≢◌, refl, ap, ◌∙◌, true, ◌||◌, [], ◌∷◌, ◌++◌, append-nil,
  Bytes, size_mod, length, done, fault, Fault, Returns, Returns-bind, ◌>>=◌, ◌==◌, arith, inl, inr,
  eq→==, ne→==, if◌then◌else◌, ◌⊎◌,
}
use libxio.Kernel.{Kernel, Moved}
use libxio.Memory.{Realloc, IsRealloc, Refuses}
use libxio.Buffer.{chunk_size as padding, with_capacity, reserve, set_capacity, push_back}
use libxio.Pipe.{Pipe}
use libxio.BufferStream.{BufferStream, empty_stream}
use libxio.BufferStream
use libxio.ChunkedStream.Round.{stored}
use libxio.ChunkedStream.Write.{create-IsStream}
use libxio.BufferStream.Inv.{IsStream, pending, write_lem, Written}
use libxio.ChunkedStream.{
  Chunk, buffer, pipe, ChunkedStream, chunk_size, empty, tail_buffer, buffer_chunk, write, drain,
  pull_pipe, read, read_pipe,
}

module _ (k : Kernel) where
  open k use {State}

  -- `read(char*, size_t)` behind an empty front chunk gives nothing and changes nothing, whatever the
  -- chunks behind it hold.
  pub read_empty_front :
      (f n : ℕ) (out : Bytes) (c : Chunk) (cs : ChunkedStream) (s : State)
      → chunk_size c ≡ 0
      → (empty (c ∷ cs) ≡ true)
        × (read k f n out (c ∷ cs) s ≡ done (Moved.moved 0, c ∷ cs, (out, s)))
  unfolding empty read drain
  read_empty_front zero n out c cs s z = rw (eq→== (chunk_size c) 0 z) (refl, refl)
  read_empty_front (suc f) n out c cs s z = rw (eq→== (chunk_size c) 0 z) (refl, refl)

  -- `read(Pipe*, size_t)` at a pipe chunk that counts bytes never returns: the loop makes every round
  -- it is given and moves nothing.
  pub read_pipe_endless :
      (f n : ℕ) (pp p : Pipe) (cs : ChunkedStream) (s : State)
      → n ≢ 0
      → p.size ≢ 0
      → read_pipe k f n pp (pipe p ∷ cs) s ≡ fault Fault.out_of_fuel
  unfolding read_pipe drain pull_pipe chunk_size
  read_pipe_endless f n pp p cs s ne full = rounds f n 0 ne
    where
      turn :
          (g m result : ℕ)
          → drain k (pull_pipe k) (suc g) m result (pipe p ∷ cs) (pp, s) ≡ (
              if (p.size == 0) || (m == 0)
              then done (Moved.moved result, pipe p ∷ cs, (pp, s))
              else drain k
                  (pull_pipe k)
                  g
                  (m - 0)
                  (result + 0)
                  (if p.size == 0 then cs else pipe p ∷ cs)
                  (pp, s))
      turn g m result = refl

      rounds :
          (g m result : ℕ)
          → m ≢ 0
          → drain k (pull_pipe k) g m result (pipe p ∷ cs) (pp, s) ≡ fault Fault.out_of_fuel
      rounds zero m result pos = rw (ne→== p.size 0 full, ne→== m 0 pos)
      rounds (suc g) m result pos =
          turn g m result
          ∙ rw (ne→== p.size 0 full, ne→== m 0 pos)
              (rounds g (m - 0) (result + 0) (λ z. pos (omega arith)))

first_write : (r : Realloc) → write r [] [] ≡ done (0, buffer empty_stream ∷ [])
unfolding write buffer_chunk tail_buffer BufferStream.create with_capacity reserve set_capacity
    BufferStream.write push_back BufferStream.size
first_write r = refl

-- The front of a chunked stream and the bytes behind it.
abbrev Behind : BufferStream → Bytes → ℕ × ChunkedStream → Type 0
Behind st xs (n, cs) = (ds : ChunkedStream) × (cs ≡ buffer st ∷ ds) × (stored ds ≡ xs)

second_write :
    (r : Realloc) (xs : Bytes)
    → IsRealloc r
    → ¬ Refuses r
    → length xs + length xs + padding < size_mod
    → Returns (Behind empty_stream xs) (write r xs (buffer empty_stream ∷ []))
unfolding write buffer_chunk tail_buffer BufferStream.size
second_write r xs ok memory h =
    Returns-bind
      (λ (init, st).
        (init ≡ buffer empty_stream ∷ []) × IsStream st × (pending st ≡ []) × (st.buffer.size ≡ 0))
      (Behind empty_stream xs)
      (BufferStream.create r (length xs) >>= λ st. done (buffer empty_stream ∷ [], st)) _
      (Returns-bind (λ st. IsStream st × (pending st ≡ []) × (st.buffer.size ≡ 0)) _
        (BufferStream.create r (length xs)) _ (create-IsStream r (length xs) ok (omega arith))
        λ st (v, e, z). (refl, v, e, z))
      λ (init, st) (shape, v, e, z).
        Returns-bind (Written st v r xs) (Behind empty_stream xs) (BufferStream.write r xs st) _
          (write_lem st v r xs ok (omega (arith, z))) λ (n, st') res. last init st st' shape e res.1
  where
    last :
        (init : ChunkedStream) (st st' : BufferStream) {n : ℕ}
        → init ≡ buffer empty_stream ∷ []
        → pending st ≡ []
        → ((n ≡ length xs) × (pending st' ≡ pending st ++ xs))
          ⊎ ((n ≡ 0) × (pending st' ≡ pending st) × Refuses r)
        → Behind empty_stream xs (n, init ++ (buffer st' ∷ []))
    last init st st' shape e (inl (_, more)) = (
      buffer st' ∷ [],
      ap (λ i. i ++ (buffer st' ∷ [])) shape,
      append-nil (pending st') ∙ more ∙ ap (λ t. t ++ xs) e,
    )
    last init st st' shape e (inr (_, _, refused)) = absurd (memory refused)

module _ (k : Kernel) where
  open k use {State}

  -- After a write of nothing to an empty chunked stream, the next write queues its bytes, but no read
  -- gets any of them: the front chunk is empty.
  pub read_after_empty_write :
      (r : Realloc) (f n : ℕ) (out xs : Bytes) (s : State)
      → IsRealloc r
      → ¬ Refuses r
      → length xs + length xs + padding < size_mod
      → Returns
          (λ (rv, cs, (out', _)). (rv ≡ Moved.moved 0) × (stored cs ≡ xs) × (out' ≡ out))
          (write r [] [] >>= λ (_, cs). write r xs cs >>= λ (_, cs'). read k f n out cs' s)
  read_after_empty_write r f n out xs s ok memory h = rw (first_write r) (
      Returns-bind (Behind empty_stream xs) _ (write r xs (buffer empty_stream ∷ [])) _
        (second_write r xs ok memory h)
        λ (_, cs) (ds, shape, e).
          rw (shape, (read_empty_front k f n out (buffer empty_stream) ds s front).1)
            (refl, e, refl))
    where
      front : chunk_size (buffer empty_stream) ≡ 0
      front = unfold chunk_size BufferStream.size in refl
