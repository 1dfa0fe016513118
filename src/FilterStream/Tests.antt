-- ===== src/FilterStream/Tests.antt =====
-- A chain of three filters, each of which copies its input.
use libxio.Base.{◌≡◌, refl, [], ◌∷◌, ◌++◌, Bytes, length, done, Returns, Returns-bind, ◌>>=◌, arith}
use libxio.Base.Int.{pos}
use libxio.Memory.{heap}
use libxio.Buffer.{Buffer, Policy, contents, push_back}
use libxio.Buffer.Valid.{IsValid}
use libxio.Buffer.Append.{Pushed, push_back-Pushed}
use libxio.FilterStream.{Process, process}
use libxio.FilterStream.Chain.{Appends, process-leaked}
use libxio.Concrete.{plain_realloc, plain_realloc-IsRealloc, plain_realloc-grants}

-- A filter without state.
data Copier : Type 0 where
  copier : Copier

abbrev copying : Process Copier
copying f input b = do
  b' ← push_back plain_realloc Policy.mutable input b
  done (pos (length input), b')

abbrev same : Copier → Bytes → Bytes
same f input = input

copying-Appends : Appends Copier copying same
copying-Appends f input b v h =
    Returns-bind (Pushed plain_realloc Policy.mutable b input)
      (λ (_, b'). IsValid b' × (contents b' ≡ contents b ++ input))
      (push_back plain_realloc Policy.mutable input b) _
      (push_back-Pushed plain_realloc Policy.mutable input b plain_realloc-IsRealloc v h)
      λ b' p. (p.valid, p.grows refl plain_realloc-grants)

abbrev one_byte : Buffer
one_byte = record { block = heap (7 ∷ []); size = 1; capacity = 1 }

one_byte-IsValid : IsValid one_byte
one_byte-IsValid = record { owned = refl; within = omega arith; bounded = omega arith }

process-leaked_example :
    Returns
      (λ (n, b). (n ≡ pos 2) × IsValid b × (contents b ≡ 7 ∷ 5 ∷ 5 ∷ []))
      (process Copier copying plain_realloc (copier ∷ copier ∷ copier ∷ []) (5 ∷ []) one_byte)
process-leaked_example =
    process-leaked Copier copying same copying-Appends plain_realloc plain_realloc-IsRealloc
      plain_realloc-grants one_byte one_byte-IsValid copier copier (copier ∷ []) (5 ∷ [])
      (omega arith) (omega arith, (omega arith, omega arith)) (omega arith)
