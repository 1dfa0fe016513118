-- ===== src/ChunkedStream/Round.antt =====
-- The rounds of the loop of `ChunkedStream::read`, over chunks that are buffers.
use libxio.Base.{
  ℕ, zero, suc, ◌+◌, ◌-◌, ◌≤◌, ◌<◌, min, ◌≡◌, ◌≢◌, ◌⊎◌, refl, sym, ap, ◌∙◌, Bool, true, false, ◌||◌,
  [], ◌∷◌, ◌++◌, Bytes, length, take, drop, length-append, length-take, length-drop,
  drop-append_left, drop-append_right, take-all, Run, done, fault, Fault, ◌>>=◌, ◌==◌, arith, inl,
  inr, eq→==, ne→==, if◌then◌else◌,
}
use libxio.Kernel.{Kernel, Moved}
use libxio.BufferStream.{BufferStream}
use libxio.BufferStream
use libxio.BufferStream.Inv.{IsStream, pending}
use libxio.ChunkedStream.{buffer, pipe, ChunkedStream, chunk_size, overwrite, drain, pull_memory}

-- Every chunk is a buffer stream with unread bytes.
abbrev pub Buffers : ChunkedStream → Type 0
Buffers [] = Unit
Buffers (buffer st ∷ cs) = IsStream st × (pending st ≢ []) × Buffers cs
Buffers (pipe p ∷ cs) = ⊥

-- The unread bytes of the buffer chunks, the front first.
abbrev pub stored : ChunkedStream → Bytes
stored [] = []
stored (buffer st ∷ cs) = pending st ++ stored cs
stored (pipe p ∷ cs) = stored cs

-- The caller's array once the first `n` unread bytes have been stored chunk by chunk, each chunk's
-- at the start of the array.
abbrev pub overwrites : ℕ → ChunkedStream → Bytes → Bytes
overwrites n [] out = out
overwrites n (buffer st ∷ cs) out =
    if n == 0
    then out
    else overwrites (n - length (take n (pending st))) cs (overwrite out (take n (pending st)))
overwrites n (pipe p ∷ cs) out = overwrites n cs out

module _ (k : Kernel) where
  open k use {State}

  abbrev pub Taken : ℕ → BufferStream → Bytes × BufferStream → Type 0
  Taken n st (xs, st') =
      (xs ≡ take n (pending st))
      × (pending st' ≡ drop n (pending st))
      × IsStream st'
      × (st'.buffer.size ≤ st.buffer.size)

  -- What a read leaves that had counted `result` bytes before.
  pub record Drained (n result : ℕ) (cs : ChunkedStream) (out : Bytes) (s : State)
      (res : Moved × ChunkedStream × (Bytes × State)) : Type 0 where
    pub count : res.0 ≡ Moved.moved (result + min n (length (stored cs)))
    pub rest : stored res.1 ≡ drop n (stored cs)
    pub chunks : Buffers res.1
    pub array : res.2 ≡ (overwrites n cs out, s)

  overwrites-zero : (n : ℕ) (cs : ChunkedStream) (out : Bytes) → n ≡ 0 → overwrites n cs out ≡ out
  overwrites-zero n [] out z = refl
  overwrites-zero n (buffer st ∷ cs) out z = rw (eq→== n 0 z)
  overwrites-zero n (pipe p ∷ cs) out z = overwrites-zero n cs out z

  or_true : (b c : Bool) → c ≡ true → (b || c) ≡ true
  or_true true c h = refl
  or_true false c h = h

  pub drain_none :
      (f n result : ℕ) (cs : ChunkedStream) (out : Bytes) (s : State)
      → n ≡ 0
      → drain k (pull_memory k) f n result cs (out, s) ≡ done (Moved.moved result, cs, (out, s))
  unfolding drain
  drain_none f n result [] out s z = refl
  drain_none zero n result (c ∷ cs) out s z =
      rw (or_true (chunk_size c == 0) (n == 0) (eq→== n 0 z))
  drain_none (suc f) n result (c ∷ cs) out s z =
      rw (or_true (chunk_size c == 0) (n == 0) (eq→== n 0 z))

  run_cases : {A : Type 0} (m : Run A) → ((a : A) × (m ≡ done a)) ⊎ ((x : Fault) × (m ≡ fault x))
  run_cases (done a) = inl (a, refl)
  run_cases (fault x) = inr (x, refl)

  pub turn :
      (f n result : ℕ) (st : BufferStream) (cs : ChunkedStream) (out : Bytes) (s : State)
      → n ≢ 0
      → BufferStream.size st ≢ 0
      → drain k (pull_memory k) (suc f) n result (buffer st ∷ cs) (out, s) ≡ (
          BufferStream.read n st >>= λ res.
          drain k
            (pull_memory k)
            f
            (n - length res.0)
            (result + length res.0)
            (if BufferStream.size res.1 == 0 then cs else buffer res.1 ∷ cs)
            (overwrite out res.0, s))
  unfolding drain pull_memory chunk_size
  turn f n result st cs out s some_wanted full = go (run_cases (BufferStream.read n st))
    where
      go :
          ((res : Bytes × BufferStream) × (BufferStream.read n st ≡ done res))
            ⊎ ((x : Fault) × (BufferStream.read n st ≡ fault x))
          → drain k (pull_memory k) (suc f) n result (buffer st ∷ cs) (out, s) ≡ (
              BufferStream.read n st >>= λ res.
              drain k
                (pull_memory k)
                f
                (n - length res.0)
                (result + length res.0)
                (if BufferStream.size res.1 == 0 then cs else buffer res.1 ∷ cs)
                (overwrite out res.0, s))
      go (inl ((xs, st'), e)) = rw (e, ne→== (BufferStream.size st) 0 full, ne→== n 0 some_wanted)
      go (inr (x, e)) = rw (e, ne→== (BufferStream.size st) 0 full, ne→== n 0 some_wanted)

  module _ (n result : ℕ) (st : BufferStream) (cs : ChunkedStream) (out : Bytes) (s : State)
      (pos : n ≢ 0) where
    array_step :
        (xs : Bytes)
        → xs ≡ take n (pending st)
        → overwrites n (buffer st ∷ cs) out ≡ overwrites (n - length xs) cs (overwrite out xs)
    array_step xs e = rw (ne→== n 0 pos, e)

    -- The chunk was taken whole.
    pub passed :
        (xs : Bytes) (res : Moved × ChunkedStream × (Bytes × State))
        → xs ≡ take n (pending st)
        → length (pending st) ≤ n
        → Drained (n - length xs) (result + length xs) cs (overwrite out xs) s res
        → Drained n result (buffer st ∷ cs) out s res
    passed xs res e le d =
        let len : length xs ≡ length (pending st) =
          ap length e ∙ ap length (take-all n (pending st) le) in
        record {
          count =
              d.count ∙ ap Moved.moved (omega (arith, len, length-append (pending st) (stored cs)));
          rest =
              d.rest
              ∙ ap (λ j. drop j (stored cs)) (omega (arith, len))
              ∙ sym (drop-append_right n (pending st) (stored cs) le);
          chunks = d.chunks;
          array = d.array ∙ ap (λ o. (o, s)) (sym (array_step xs e));
        }

    -- The read ended inside the chunk.
    pub ended :
        (xs : Bytes) (st' : BufferStream)
        → xs ≡ take n (pending st)
        → pending st' ≡ drop n (pending st)
        → n < length (pending st)
        → IsStream st'
        → Buffers cs
        → Drained n result
            (buffer st ∷ cs)
            out
            s
            (Moved.moved (result + length xs), buffer st' ∷ cs, (overwrite out xs, s))
    ended xs st' e rest lt v bs =
        let len : length xs ≡ n = ap length e ∙ length-take n (pending st) ∙ omega arith in
        record {
          count = ap Moved.moved (omega (arith, len, length-append (pending st) (stored cs)));
          rest =
              ap (λ t. t ++ stored cs) rest
              ∙ sym (drop-append_left n (pending st) (stored cs) (omega arith));
          chunks = (
            v,
            (λ z. absurd (omega (arith, length-drop n (pending st), ap length (sym rest ∙ z)))),
            bs,
          );
          array =
              ap (λ o. (o, s))
                (sym (overwrites-zero (n - length xs) cs (overwrite out xs) (omega (arith, len)))
                  ∙ sym (array_step xs e));
        }

  pub drain_nil :
      (f n result : ℕ) (out : Bytes) (s : State)
      → drain k (pull_memory k) f n result [] (out, s) ≡ done (Moved.moved result, [], (out, s))
  unfolding drain
  drain_nil f n result out s = refl

  pub nothing_wanted :
      (n result : ℕ) (cs : ChunkedStream) (out : Bytes) (s : State)
      → n ≡ 0
      → Buffers cs
      → Drained n result cs out s (Moved.moved result, cs, (out, s))
  nothing_wanted n result cs out s z bs = record {
    count = ap Moved.moved (omega arith);
    rest = sym (ap (λ j. drop j (stored cs)) z);
    chunks = bs;
    array = ap (λ o. (o, s)) (sym (overwrites-zero n cs out z));
  }
