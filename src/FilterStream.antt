-- ===== src/FilterStream.antt =====
-- `FilterStream` (lib/FilterStream.cpp): the chain of filters of `process`, over two buffers that it
-- swaps, and the reads that run it.
-- The filters are a parameter: a type of filter objects and their virtual method `process`
-- (include/xio/Filter.h).
pub mod Chain
mod Tests
use libxio.Base.{
  ◌+◌, ◌-◌, ◌%◌, min, drop, size_mod, assert, ◌>>◌, leb, ℕ, List, [], ◌∷◌, Bytes, Run, done, ◌>>=◌,
  ◌==◌, if◌then◌else◌,
}
use libxio.Base.Int.{ℤ, pos, negsuc, sub_ℕ}
use libxio.Kernel.{Moved}
use libxio.BufferStream.{read_block}
use libxio.Memory.{Realloc}
use libxio.Buffer.{Buffer, Policy, contents, empty_buffer, reserve, push_back, move_assign}

-- `Filter::process(input, output)` returns a number and the output buffer.
abbrev pub Process : Type 0 → Type 0
Process F = F → Bytes → Buffer → Run (ℤ × Buffer)

module _ (F : Type 0) (apply : Process F) where
  -- `do { result.swap(tmp); (*i++)->process(tmp.ref(), result); } while (i != e);`
  unfoldable pub stages : List F → (result tmp : Buffer) → Run Buffer
  stages [] result tmp = done result
  stages (g ∷ gs) result tmp = do
    (_, result') ← apply g (contents result) tmp
    stages gs result' result

  -- The end of `process`: the result goes behind the output's bytes, or is moved into an output
  -- without storage.
  unfoldable pub deliver : Realloc → (result output : Buffer) → Run Buffer
  deliver r result output =
      if output.capacity == 0
      then (do (output', _) ← move_assign r output result; done output')
      else push_back r Policy.mutable (contents result) output

  -- `process`.
  unfoldable pub process : Realloc → List F → Bytes → Buffer → Run (ℤ × Buffer)
  process r [] input output = done (pos 0, output)
  process r (f ∷ []) input output = apply f input output
  process r (f ∷ g ∷ gs) input output = do
    (_, first) ← apply f input empty_buffer
    result ← stages (g ∷ gs) first empty_buffer
    output' ← deliver r result output
    done (pos result.size, output')

-- The fields `inputBuffer_`, `inputPos_`, `outputBuffer_` and `outputPos_`.
pub record FilterStream : Type 0 where
  pub input : Buffer
  pub input_pos : ℕ
  pub output : Buffer
  pub output_pos : ℕ

-- The parent stream is a parameter: a state and the method `read(Buffer&, size_t)`.
module _ (F : Type 0) (apply : Process F) (S : Type 0)
    (parent_read : Buffer → ℕ → S → Run (Moved × Buffer × S)) where
  -- `pull(size)`. The bytes that the parent has appended are counted in `size()` and again in `rv`.
  unfoldable pub pull : Realloc → ℕ → FilterStream → S → Run (ℤ × FilterStream × S)
  pull r n st s =
      if leb n ((st.input.size + size_mod - st.input_pos) % size_mod)
      then done (pos n, st, s)
      else (do
        (_, b) ← reserve r Policy.mutable ((st.input.size + n) % size_mod) st.input
        (rv, b', s') ← parent_read b n s
        done (
          elim rv [
            | Moved.moved m ↦ pos ((b'.size + size_mod - st.input_pos + m) % size_mod)
            | Moved.failed e ↦ negsuc 0
          ],
          record st { input = b' },
          s',
        ))

  -- `process(inputBuffer_.ref(inputPos_), outputBuffer_)`, with the assertion of `ref`.
  unfoldable pub run_filters : Realloc → List F → FilterStream → Run FilterStream
  run_filters r fs st = do
    assert (leb st.input_pos st.input.size)
    (_, output) ← process F apply r fs (drop st.input_pos (contents st.input)) st.output
    done (record st { output = output })

  -- `read(Buffer&, size_t)`: it returns the old size minus the new one.
  unfoldable pub read_into :
      Realloc → List F → Buffer → ℕ → FilterStream → S → Run (ℤ × Buffer × FilterStream × S)
  read_into r fs result n st s = do
    (_, pulled, s') ← pull r n st s
    ran ← run_filters r fs pulled
    let count = min n ((ran.output.size + size_mod - ran.output_pos) % size_mod)
    xs ← read_block ran.output.block ran.output_pos count
    result' ← push_back r Policy.mutable xs result
    done (sub_ℕ result.size result'.size, result', ran, s')

  -- `read(char*, size_t)`: nothing is stored in the caller's array.
  unfoldable pub read : Realloc → List F → ℕ → FilterStream → S → Run (ℤ × FilterStream × S)
  read r fs n st s = do
    (rv, pulled, s') ← pull r n st s
    ran ← run_filters r fs pulled
    done (rv, ran, s')
