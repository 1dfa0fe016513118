-- ===== src/BufferStream/Queue.antt =====
-- A buffer stream behaves as a queue of bytes, for every sequence of writes and reads.
use libxio.Base.{
  ℕ, ◌+◌, ◌≤◌, ◌<◌, ◌≡◌, refl, sym, ap, ◌∙◌, List, [], ◌∷◌, ◌++◌, Bytes, size_mod, length, take,
  drop, Run, done, fault, ◌>>=◌, Returns, arith, inl, inr,
}
use libxio.Base.Int.{ℤ, negsuc}
use libxio.Memory.{Realloc, IsRealloc, Refuses}
use libxio.Buffer.{chunk_size}
use libxio.BufferStream.{BufferStream, write, read, read_byte, char_value}
use libxio.BufferStream.Inv.{IsStream, pending, read_lem, write_lem, Written}
use libxio.BufferStream.Reads.{read_byte_lem, NextByte}

-- The calls of a client, and what they return.
pub data Op : Type 0 where
  put : Bytes → Op
  get : ℕ → Op
  next : Op

pub data Reply : Type 0 where
  count : ℕ → Reply
  bytes : Bytes → Reply
  char : ℤ → Reply

unfoldable pub run : Realloc → List Op → BufferStream → Run (List Reply)
run r [] st = done []
run r (put xs ∷ ops) st = do
  (n, st') ← write r xs st
  replies ← run r ops st'
  done (count n ∷ replies)
run r (get n ∷ ops) st = do
  (xs, st') ← read n st
  replies ← run r ops st'
  done (bytes xs ∷ replies)
run r (next ∷ ops) st = do
  (ch, st') ← read_byte st
  replies ← run r ops st'
  done (char ch ∷ replies)

-- A queue of bytes.
abbrev head_value : Bytes → ℤ
head_value [] = negsuc 0
head_value (c ∷ q) = char_value c

unfoldable pub run_queue : List Op → Bytes → List Reply
run_queue [] q = []
run_queue (put xs ∷ ops) q = count (length xs) ∷ run_queue ops (q ++ xs)
run_queue (get n ∷ ops) q = bytes (take n q) ∷ run_queue ops (drop n q)
run_queue (next ∷ ops) q = char (head_value q) ∷ run_queue ops (drop 1 q)

-- All the bytes that the calls write.
abbrev pub total : List Op → ℕ
total [] = 0
total (put xs ∷ ops) = length xs + total ops
total (get n ∷ ops) = total ops
total (next ∷ ops) = total ops

prepend :
    (a b : Reply) (m : Run (List Reply)) (rs : List Reply)
    → a ≡ b
    → m ≡ done rs
    → (m >>= λ replies. done (a ∷ replies)) ≡ done (b ∷ rs)
prepend a b m rs e h = rw (h, e)

put_step :
    (r : Realloc) (xs : Bytes) (ops : List Op) (st : BufferStream) (v : IsStream st)
    (m : Run (ℕ × BufferStream))
    → ¬ Refuses r
    → Returns (Written st v r xs) m
    → ((st' : BufferStream)
        → IsStream st'
        → st'.buffer.size ≤ st.buffer.size + length xs
        → run r ops st' ≡ done (run_queue ops (pending st')))
    → (m >>= λ res. run r ops res.1 >>= λ replies. done (count res.0 ∷ replies))
      ≡ done (count (length xs) ∷ run_queue ops (pending st ++ xs))
put_step r xs ops st v (fault e) memory h rec = absurd h
put_step r xs ops st v (done (n, st')) memory (v', inl (e, q), small) rec =
    prepend (count n) (count (length xs)) (run r ops st') (run_queue ops (pending st ++ xs))
      (ap count e) (rec st' v' small ∙ ap (λ k. done (run_queue ops k)) q)
put_step r xs ops st v (done (n, st')) memory (v', inr (e, q, refused), small) rec =
    absurd (memory refused)

get_step :
    (r : Realloc) (n : ℕ) (ops : List Op) (st : BufferStream) (m : Run (Bytes × BufferStream))
    → Returns
        (λ (xs, st').
          (xs ≡ take n (pending st))
          × (pending st' ≡ drop n (pending st))
          × IsStream st'
          × (st'.buffer.size ≤ st.buffer.size))
        m
    → ((st' : BufferStream)
        → IsStream st'
        → st'.buffer.size ≤ st.buffer.size
        → run r ops st' ≡ done (run_queue ops (pending st')))
    → (m >>= λ res. run r ops res.1 >>= λ replies. done (bytes res.0 ∷ replies))
      ≡ done (bytes (take n (pending st)) ∷ run_queue ops (drop n (pending st)))
get_step r n ops st (fault e) h rec = absurd h
get_step r n ops st (done (xs, st')) (e, q, v', small) rec =
    prepend (bytes xs) (bytes (take n (pending st))) (run r ops st')
      (run_queue ops (drop n (pending st))) (ap bytes e)
      (rec st' v' small ∙ ap (λ k. done (run_queue ops k)) q)

next_step :
    (r : Realloc) (ops : List Op) (st : BufferStream) (v : IsStream st) (m : Run (ℤ × BufferStream))
    → Returns (NextByte st v) m
    → ((st' : BufferStream)
        → IsStream st'
        → st'.buffer.size ≤ st.buffer.size
        → run r ops st' ≡ done (run_queue ops (pending st')))
    → (m >>= λ res. run r ops res.1 >>= λ replies. done (char res.0 ∷ replies))
      ≡ done (char (head_value (pending st)) ∷ run_queue ops (drop 1 (pending st)))
next_step r ops st v (fault e) h rec = absurd h
next_step r ops st v (done (ch, st')) (v', inl (e, c, q), small) rec =
    prepend (char ch) (char (head_value (pending st))) (run r ops st')
      (run_queue ops (drop 1 (pending st))) (ap char (c ∙ ap head_value (sym e)))
      (rec st' v' small ∙ ap (λ k. done (run_queue ops k)) (q ∙ ap (drop 1) (sym e)))
next_step r ops st v (done (ch, st')) (v', inr (c, e, q), small) rec =
    prepend (char ch) (char (head_value (pending st))) (run r ops st')
      (run_queue ops (drop 1 (pending st))) (ap char (q ∙ ap head_value (sym e)))
      (rec st' v' small ∙ ap (λ k. done (run_queue ops k)) (ap (drop 1) (sym e)))

-- While the allocator has memory and the sizes stay far from the end of `size_t`, every sequence of
-- calls returns what a queue of the unread bytes returns, with no fault.
pub run_refines :
    (r : Realloc) (ops : List Op) (st : BufferStream)
    → IsRealloc r
    → ¬ Refuses r
    → IsStream st
    → st.buffer.size + total ops + chunk_size < size_mod
    → run r ops st ≡ done (run_queue ops (pending st))
unfolding run run_queue
run_refines r [] st ok memory v h = refl
run_refines r (put xs ∷ ops) st ok memory v h =
    put_step r xs ops st v (write r xs st) memory (write_lem st v r xs ok (omega arith))
      (λ st' v' small. run_refines r ops st' ok memory v' (omega arith))
run_refines r (get n ∷ ops) st ok memory v h =
    get_step r n ops st (read n st) (read_lem st v n)
      (λ st' v' small. run_refines r ops st' ok memory v' (omega arith))
run_refines r (next ∷ ops) st ok memory v h =
    next_step r ops st v (read_byte st) (read_byte_lem st v)
      (λ st' v' small. run_refines r ops st' ok memory v' (omega arith))
