-- ===== src/ChunkedStream/Read.antt =====
-- `read(char*, size_t)` of a chunked stream whose chunks are buffers: how many bytes it takes, what it
-- leaves, and where in the caller's array it stores them.
use libxio.Base.{
  ℕ, zero, suc, ◌+◌, ◌-◌, ◌≤◌, ◌<◌, ◌≡◌, ◌≢◌, ◌⊎◌, refl, sym, ap, ◌∙◌, Bool, true, false, [], ◌∷◌,
  Bytes, length, take, drop, length-take, length-drop, length-zero, drop-nil, Returns, Returns-bind,
  Returns-mono, ◌==◌, arith, inl, inr, ==_iff, Bool-cases, if◌then◌else◌,
}
use libxio.Kernel.{Kernel, Moved}
use libxio.BufferStream.{BufferStream}
use libxio.BufferStream
use libxio.BufferStream.Inv.{IsStream, pending, size_lem, read_lem}
use libxio.ChunkedStream.{buffer, pipe, ChunkedStream, overwrite, drain, pull_memory, read}
use libxio.ChunkedStream.Round.{
  passed, ended, Buffers, Taken, Drained, drain_none, turn, drain_nil, nothing_wanted,
}

module _ (k : Kernel) where
  open k use {State}

  drain-Drained :
      (f n result : ℕ) (cs : ChunkedStream) (out : Bytes) (s : State)
      → length cs ≤ f
      → Buffers cs
      → Returns (Drained k n result cs out s) (drain k (pull_memory k) f n result cs (out, s))
  drain-Drained f n result [] out s le bs = rw (drain_nil k f n result out s) (record {
    count = ap Moved.moved (omega arith);
    rest = sym (drop-nil n);
    chunks = tt;
    array = refl;
  })
  drain-Drained f n result (pipe p ∷ cs) out s le bs = absurd bs
  drain-Drained zero n result (buffer st ∷ cs) out s le bs = absurd (omega arith)
  drain-Drained (suc f) n result (buffer st ∷ cs) out s le (v, ne, bs) =
      elim (Bool-cases (n == 0)) [
        | inl z ↦
            rw (drain_none k (suc f) n result (buffer st ∷ cs) out s ((==_iff n 0).0 z))
              (nothing_wanted k n result (buffer st ∷ cs) out s ((==_iff n 0).0 z) (v, ne, bs))
        | inr more ↦ rw (turn k f n result st cs out s (positive more) (full ne)) (
            Returns-bind (Taken k n st) (Drained k n result (buffer st ∷ cs) out s)
              (BufferStream.read n st) _ (read_lem st v n)
              λ res (e, rest, v', _).
                next (positive more) (λ m r o. drain-Drained f m r cs o s (omega arith) bs) res e
                  rest v' (Bool-cases (BufferStream.size res.1 == 0)))
      ]
    where
      positive : (n == 0) ≡ false → n ≢ 0
      positive h = ground arith

      full : pending st ≢ [] → BufferStream.size st ≢ 0
      full h z = h (length-zero (pending st) (sym (size_lem st v) ∙ z))

      next :
          n ≢ 0
          → ((m r : ℕ) (o : Bytes)
              → Returns (Drained k m r cs o s) (drain k (pull_memory k) f m r cs (o, s)))
          → (res : Bytes × BufferStream) → res.0 ≡ take n (pending st)
          → pending (res.1) ≡ drop n (pending st)
          → IsStream res.1
          → ((BufferStream.size res.1 == 0) ≡ true) ⊎ ((BufferStream.size res.1 == 0) ≡ false)
          → Returns (Drained k n result (buffer st ∷ cs) out s) (
              drain k
                (pull_memory k)
                f
                (n - length res.0)
                (result + length res.0)
                (if BufferStream.size res.1 == 0 then cs else buffer res.1 ∷ cs)
                (overwrite out res.0, s))
      next pos rec (xs, st') e rest v' (inl empty) =
          let left : length (pending st') ≡ 0 =
            sym (size_lem st' v') ∙ (==_iff (BufferStream.size st') 0).0 empty in
          rw empty (
            Returns-mono (Drained k (n - length xs) (result + length xs) cs (overwrite out xs) s)
              (Drained k n result (buffer st ∷ cs) out s)
              (drain k (pull_memory k) f (n - length xs) (result + length xs) cs
                (overwrite out xs, s))
              (rec (n - length xs) (result + length xs) (overwrite out xs))
              λ res d.
                passed k n result st cs out s pos xs res e
                  (omega (arith, left, ap length rest, length-drop n (pending st))) d)
      next pos rec (xs, st') e rest v' (inr more) =
          let left : length (pending st') ≢ 0 =
            λ z. absurd (clash more ((==_iff (BufferStream.size st') 0).1 (size_lem st' v' ∙ z))) in
          let lt : n < length (pending st) =
            omega (arith, left, ap length rest, length-drop n (pending st)) in
          rw
            (
              more,
              drain_none k f (n - length xs) (result + length xs) (buffer st' ∷ cs)
                  (overwrite out xs) s (omega (arith, ap length e, length-take n (pending st), lt)),
            )
            (ended k n result st cs out s pos xs st' e rest lt v' bs)
        where
          clash : {b : Bool} → b ≡ false → b ≡ true → ⊥
          clash p q = cc

  -- `read(char*, size_t)` takes the first `n` unread bytes of the chunks, or all if they are fewer, and
  -- leaves the rest, with no fault; one round for each chunk is enough. But each chunk's bytes go to
  -- the start of the array, over those of the chunks before.
  pub read-Drained :
      (f n : ℕ) (out : Bytes) (cs : ChunkedStream) (s : State)
      → length cs ≤ f
      → Buffers cs
      → Returns (Drained k n 0 cs out s) (read k f n out cs s)
  unfolding read
  read-Drained f n out cs s le bs = drain-Drained f n 0 cs out s le bs
