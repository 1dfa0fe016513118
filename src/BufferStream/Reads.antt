-- ===== src/BufferStream/Reads.antt =====
-- What `read()` and `read(Buffer&, size_t)` of a stream return and leave.
use libxio.Base.{
  ℕ, ◌+◌, ◌%◌, ◌≤◌, ◌<◌, min, ◌≡◌, ◌≢◌, ◌⊎◌, refl, sym, ap, ◌∙◌, false, [], ◌∷◌, ◌++◌, Bytes,
  size_mod, length, take, drop, done, fault, Fault, ◌==◌, Returns, Returns-bind, arith, inl, inr,
  Bool-cases, ==_iff, mod_small, drop-drop, length-take, length-zero, take-min, drop-min,
}
use libxio.Base.Int.{ℤ, negsuc}
use libxio.Memory.{freed, Realloc, IsRealloc, Refuses}
use libxio.Buffer.{Buffer, Policy, contents, chunk_size, push_back, reserve}
use libxio.Buffer.Valid.{IsValid}
use libxio.Buffer.Reserve.{Reserved, reserve-Reserved}
use libxio.Buffer.Append.{Pushed, push_back-Pushed}
use libxio.Buffer.Capacity.{reserve-zero}
use libxio.BufferStream.{BufferStream, shift, read_into, read_byte, char_value}
use libxio.BufferStream.Inv.{
  pending, IsStream, length-pending, size_lem, shift-pending, read_block-contents,
}

module _ (st : BufferStream) (v : IsStream st) where
  -- The outcomes of `read()`.
  abbrev pub NextByte : ℤ × BufferStream → Type 0
  NextByte (ch, st') =
      IsStream st'
      × (((pending st ≡ []) × (ch ≡ negsuc 0) × (pending st' ≡ []))
          ⊎ ((c : ℕ) × (pending st ≡ c ∷ pending st') × (ch ≡ char_value c)))
      × (st'.buffer.size ≤ st.buffer.size)

  -- `read()` commits no fault. At the end it returns -1 and nothing is unread; otherwise it returns
  -- the first unread byte as a signed `char`, and only that byte is no longer unread.
  pub read_byte_lem : Returns NextByte (read_byte st)
  unfolding read_byte
  read_byte_lem = elim (Bool-cases (st.read_offset == st.buffer.size)) [
    | inl at_end ↦ rw at_end (
        let e : pending st ≡ [] =
          length-zero (pending st)
            (omega (arith, length-pending st v, (==_iff st.read_offset st.buffer.size).0 at_end)) in
        (v, inl (e, refl, e), omega arith))
    | inr more ↦
        rw (more, read_block-contents st v st.read_offset 1 (omega (arith, v.within, inside more)))
          (split (pending st) refl (inside more))
  ]
    where
      inside : (st.read_offset == st.buffer.size) ≡ false → st.read_offset < st.buffer.size
      inside h = ground (arith, v.within)

      tail : (t : Bytes) {c : ℕ} → c ∷ t ≡ pending st → t ≡ drop 1 (pending st)
      tail t e = ap (drop 1) e

      split :
          (t : Bytes)
          → t ≡ pending st
          → st.read_offset < st.buffer.size
          → Returns NextByte (elim (take 1 t) [
            | [] ↦ fault Fault.out_of_bounds
            | c ∷ _ ↦
                done (char_value c, record st { read_offset = (st.read_offset + 1) % size_mod })
          ])
      split [] e lt = absurd (omega (arith, length-pending st v, ap length e))
      split (c ∷ t) e lt = (
        record { valid = v.valid; within = omega arith },
        inr (
          c,
          sym e
              ∙ ap (λ k. c ∷ k)
                  (tail t e
                    ∙ drop-drop 1 st.read_offset (contents st.buffer)
                    ∙ ap (λ k. drop k (contents st.buffer))
                        (sym (
                          mod_small (st.read_offset + 1) {m = size_mod}
                            (omega (arith, v.valid.within, v.valid.bounded))))),
          refl,
        ),
        omega arith,
      )

  -- `read(Buffer&, n)` moves the first `n` unread bytes, or all if they are fewer, behind the bytes
  -- of a valid buffer and returns their number, if there is something to move or the buffer is not
  -- empty, the allocator has memory and the sizes stay far from the end of `size_t`.
  pub read_into_lem :
      (r : Realloc) (result : Buffer) (n : ℕ)
      → IsRealloc r
      → ¬ Refuses r
      → IsValid result
      → result.size + min n (length (pending st)) ≢ 0
      → result.size + length (pending st) + chunk_size < size_mod
      → Returns
          (λ (count, result', st').
            (count ≡ min n (length (pending st)))
            × IsValid result'
            × (contents result' ≡ contents result ++ take n (pending st))
            × IsStream st'
            × (pending st' ≡ drop n (pending st)))
          (read_into r result n st)
  unfolding read_into
  read_into_lem r result n ok memory valid some_bytes h =
      rw
        (
          size_lem st v,
          mod_small (result.size + min n (length (pending st))) {m = size_mod} (omega arith),
        )
        (Returns-bind (Reserved r Policy.mutable result (result.size + min n (length (pending st))))
          _ (reserve r Policy.mutable (result.size + min n (length (pending st))) result) _
          (reserve-Reserved r Policy.mutable result (result.size + min n (length (pending st))) ok
            valid some_bytes (omega arith))
          λ res fit.
            rw
              (read_block-contents st v st.read_offset (min n (length (pending st)))
                (omega (arith, length-pending st v, v.within)))
              (Returns-bind
                (Pushed r Policy.mutable res.1 (take (min n (length (pending st))) (pending st))) _
                (push_back r Policy.mutable (take (min n (length (pending st))) (pending st)) res.1)
                _
                (push_back-Pushed r Policy.mutable (take (min n (length (pending st))) (pending st))
                  res.1 ok fit.valid
                  (omega
                    (arith, fit.size, length-take {0} (min n (length (pending st))) (pending st))))
                λ result' p.
                  let (valid', rest, _) =
                    shift-pending st v (min n (length (pending st))) (omega arith) in
                  (
                    refl,
                    p.valid,
                    p.grows refl memory
                        ∙ ap (λ k. k ++ take (min n (length (pending st))) (pending st)) fit.kept
                        ∙ ap (λ k. contents result ++ k) (take-min n (pending st)),
                    valid',
                    rest ∙ drop-min n (pending st),
                  )))

  -- With nothing to move, an empty buffer that has storage loses it: `reserve(0)` has freed the
  -- block to which the buffer still points.
  pub read_into_nothing :
      (r : Realloc) (result : Buffer) (n : ℕ)
      → IsValid result
      → result.size ≡ 0
      → result.capacity ≢ 0
      → min n (length (pending st)) ≡ 0
      → read_into r result n st
        ≡ done (0, record result { block = freed; capacity = 0 }, shift 0 st)
  unfolding read_into push_back
  read_into_nothing r result n valid z stored none_left = rw (
    size_lem st v,
    none_left,
    no_bytes,
    reserve-zero r result valid stored,
    read_block-contents st v st.read_offset 0 (omega (arith, v.within)),
  )
    where
      no_bytes : (result.size + 0) % size_mod ≡ 0
      no_bytes = omega arith
