-- ===== src/ChunkedStream/Write.antt =====
-- `write(const char*, size_t)` of a chunked stream whose chunks are buffers.
use libxio.Base.{
  ℕ, zero, suc, ◌+◌, ◌<◌, ◌≡◌, ◌⊎◌, refl, sym, ap, ◌∙◌, [], ◌∷◌, ◌++◌, append_assoc, append-nil,
  Bytes, size_mod, length, Option, none, some, done, Returns, Returns-bind, ◌>>=◌, ltb, arith, inl,
  inr, Bool-cases,
}
use libxio.Memory.{Realloc, IsRealloc, Refuses}
use libxio.Buffer.{
  Policy, empty_buffer, contents, chunk_size as padding, with_capacity, reserve, set_capacity,
}
use libxio.Buffer.Valid.{IsValid}
use libxio.Buffer.Reserve.{Reserved, reserve-Reserved}
use libxio.BufferStream.{BufferStream}
use libxio.BufferStream
use libxio.BufferStream.Inv.{IsStream, pending, Written, write_lem}
use libxio.ChunkedStream.{buffer, pipe, ChunkedStream, tail_buffer, buffer_chunk, write}
use libxio.ChunkedStream.Round.{stored}

-- Every chunk is a buffer stream that can take `n` bytes more without the end of `size_t`.
abbrev pub Accepts : ℕ → ChunkedStream → Type 0
Accepts n [] = Unit
Accepts n (buffer st ∷ cs) = IsStream st × (st.buffer.size + n + padding < size_mod) × Accepts n cs
Accepts n (pipe p ∷ cs) = ⊥

-- The chunk that `buffer(size)` chose.
abbrev Chosen : ℕ → ChunkedStream → ChunkedStream × BufferStream → Type 0
Chosen n cs (init, st) =
    IsStream st
    × (st.buffer.size + n + padding < size_mod)
    × (stored cs ≡ stored init ++ pending st)

-- A new buffer stream is valid and empty.
pub create-IsStream :
    (r : Realloc) (n : ℕ)
    → IsRealloc r
    → n + padding < size_mod
    → Returns
        (λ st. IsStream st × (pending st ≡ []) × (st.buffer.size ≡ 0))
        (BufferStream.create r n)
unfolding BufferStream.create with_capacity
create-IsStream r zero ok h =
    unfold reserve set_capacity in
    (
      record {
        valid = record { owned = refl; within = omega arith; bounded = omega arith };
        within = omega arith;
      },
      refl,
      refl,
    )
create-IsStream r (suc n) ok h =
    Returns-bind (λ b. IsValid b × (contents b ≡ []) × (b.size ≡ 0))
      (λ st. IsStream st × (pending st ≡ []) × (st.buffer.size ≡ 0)) (with_capacity r (suc n)) _
      (Returns-bind (Reserved r Policy.mutable empty_buffer (suc n))
        (λ b. IsValid b × (contents b ≡ []) × (b.size ≡ 0))
        (reserve r Policy.mutable (suc n) empty_buffer) _
        (reserve-Reserved r Policy.mutable empty_buffer (suc n) ok
          (record { owned = refl; within = omega arith; bounded = omega arith }) (omega arith) h)
        λ res fit. (fit.valid, fit.kept, fit.size))
      λ b (v, e, z). (record { valid = v; within = omega arith }, e, z)

stored-append : (cs ds : ChunkedStream) → stored (cs ++ ds) ≡ stored cs ++ stored ds
stored-append [] ds = refl
stored-append (buffer st ∷ cs) ds =
    ap (λ t. pending st ++ t) (stored-append cs ds)
    ∙ sym (append_assoc (pending st) (stored cs) (stored ds))
stored-append (pipe p ∷ cs) ds = stored-append cs ds

abbrev Tail : ℕ → ChunkedStream → Option (ChunkedStream × BufferStream) → Type 0
Tail n cs none = Unit
Tail n cs (some res) = Chosen n cs res

tail_buffer-Tail : (n : ℕ) (cs : ChunkedStream) → Accepts n cs → Tail n cs (tail_buffer cs)
unfolding tail_buffer
tail_buffer-Tail n [] v = tt
tail_buffer-Tail n (pipe p ∷ cs) v = absurd v
tail_buffer-Tail n (buffer st ∷ []) v =
    elim (Bool-cases (ltb (BufferStream.size st) st.buffer.capacity)) [
      | inl room ↦ rw room (v.0, v.1, append-nil (pending st))
      | inr full ↦ rw full tt
    ]
tail_buffer-Tail n (buffer st ∷ d ∷ cs) v =
    behind (tail_buffer (d ∷ cs)) (tail_buffer-Tail n (d ∷ cs) v.2)
  where
    behind :
        (o : Option (ChunkedStream × BufferStream))
        → Tail n (d ∷ cs) o
        → Tail n
            (buffer st ∷ d ∷ cs)
            (elim o [ none ↦ none | some (init, t) ↦ some (buffer st ∷ init, t) ])
    behind none h = tt
    behind (some (init, t)) (ok, small, e) = (
      ok,
      small,
      ap (λ k. pending st ++ k) e ∙ sym (append_assoc (pending st) (stored init) (pending t)),
    )

buffer_chunk-Chosen :
    (r : Realloc) (n : ℕ) (cs : ChunkedStream)
    → IsRealloc r
    → Accepts n cs
    → n + n + padding < size_mod
    → Returns (Chosen n cs) (buffer_chunk r n cs)
unfolding buffer_chunk
buffer_chunk-Chosen r n cs ok v h = pick (tail_buffer cs) (tail_buffer-Tail n cs v)
  where
    pick :
        (o : Option (ChunkedStream × BufferStream))
        → Tail n cs o
        → Returns (Chosen n cs) (elim o [
          | some (init, st) ↦ done (init, st)
          | none ↦ BufferStream.create r n >>= λ st. done (cs, st)
        ])
    pick none t =
        Returns-bind (λ st. IsStream st × (pending st ≡ []) × (st.buffer.size ≡ 0)) (Chosen n cs)
          (BufferStream.create r n) _ (create-IsStream r n ok (omega arith))
          λ st (w, e, z).
            (w, omega arith, sym (append-nil (stored cs)) ∙ ap (λ t. stored cs ++ t) (sym e))
    pick (some (init, st)) t = t

-- `write(const char*, size_t)` queues all the bytes behind those that the chunks hold and returns
-- their number, if the allocator has memory and the sizes stay in `size_t`.
pub stored-write :
    (r : Realloc) (xs : Bytes) (cs : ChunkedStream)
    → IsRealloc r
    → ¬ Refuses r
    → Accepts (length xs) cs
    → length xs + length xs + padding < size_mod
    → Returns (λ (n, cs'). (n ≡ length xs) × (stored cs' ≡ stored cs ++ xs)) (write r xs cs)
unfolding write
stored-write r xs cs ok memory v h =
    Returns-bind (Chosen (length xs) cs)
      (λ (n, cs'). (n ≡ length xs) × (stored cs' ≡ stored cs ++ xs)) (buffer_chunk r (length xs) cs)
      _ (buffer_chunk-Chosen r (length xs) cs ok v h)
      λ (init, st) (w, small, e).
        Returns-bind (Written st w r xs)
          (λ (n, cs'). (n ≡ length xs) × (stored cs' ≡ stored cs ++ xs))
          (BufferStream.write r xs st) _ (write_lem st w r xs ok small)
          λ (n, st') h. queued init st w e n st' h.1
  where
    queued :
        (init : ChunkedStream) (st : BufferStream) (w : IsStream st)
        → stored cs ≡ stored init ++ pending st
        → (n : ℕ) (st' : BufferStream)
        → ((n ≡ length xs) × (pending st' ≡ pending st ++ xs))
          ⊎ ((n ≡ 0) × (pending st' ≡ pending st) × Refuses r)
        → (n ≡ length xs) × (stored (init ++ (buffer st' ∷ [])) ≡ stored cs ++ xs)
    queued init st w e n st' (inl (count, more)) = (
      count,
      stored-append init (buffer st' ∷ [])
          ∙ ap (λ t. stored init ++ t) (append-nil (pending st') ∙ more)
          ∙ sym (append_assoc (stored init) (pending st) xs)
          ∙ ap (λ t. t ++ xs) (sym e),
    )
    queued init st w e n st' (inr (z, same, refused)) = absurd (memory refused)
