-- ===== src/BufferStream/Transfer/Moves.antt =====
-- What the transfers of a buffer stream from and to descriptors move.
use libxio.Base.{
  ℕ, ◌+◌, ◌-◌, ◌%◌, ◌≤◌, ◌<◌, min, ◌≡◌, ◌≢◌, ◌⊎◌, refl, sym, ap, ◌∙◌, [], ◌∷◌, ◌++◌, append-nil,
  Bytes, size_mod, length, take, drop, done, Returns, Returns-bind, ◌>>=◌, arith, inl, inr,
  mod_small, drop-append_left, drop-drop, length-append, length-take, take-take,
}
use libxio.Base.Int.{ℤ}
use libxio.Kernel.{Kernel, IsKernel, Moved, Received}
use libxio.Memory.{Realloc, IsRealloc}
use libxio.Buffer.{Buffer, Policy, contents, chunk_size, reserve, copy_end}
use libxio.Buffer.Valid.{IsValid}
use libxio.Buffer.Reserve.{Reserved, reserve-Reserved}
use libxio.Buffer.Append.{Appended, copy_end-Appended, length-contents}
use libxio.BufferStream.{BufferStream}
use libxio.BufferStream.Inv.{IsStream, pending, length-pending, size_lem, read_block-contents}
use libxio.BufferStream.Transfer.{store, advance, write_fd, read_fd}

-- What `store` leaves of a buffer with room: the bytes stand behind its own.
abbrev bytes_of : Received → Bytes
bytes_of (Received.got xs) = xs
bytes_of (Received.failed e) = []

abbrev count_of : Received → Moved
count_of (Received.got xs) = Moved.moved (length xs)
count_of (Received.failed e) = Moved.failed e

store_lem :
    (rv : Received) (b : Buffer)
    → IsValid b
    → b.size + length (bytes_of rv) ≤ b.capacity
    → Returns
        (λ r. (r.0 ≡ count_of rv) × IsValid r.1 × (contents r.1 ≡ contents b ++ bytes_of rv))
        (store rv b)
unfolding store
store_lem (Received.failed e) b v room = (refl, v, sym (append-nil (contents b)))
store_lem (Received.got []) b v room = (refl, v, sym (append-nil (contents b)))
store_lem (Received.got (x ∷ xs)) b v room =
    Returns-bind (Appended b (x ∷ xs))
      (λ r.
        (r.0 ≡ Moved.moved (length (x ∷ xs)))
        × IsValid r.1
        × (contents r.1 ≡ contents b ++ (x ∷ xs)))
      (copy_end (x ∷ xs) b) _ (copy_end-Appended (x ∷ xs) b v (λ q. cc) room)
      λ b' a. (refl, a.valid, a.bytes)

module _ (k : Kernel) (ik : IsKernel k) where
  open k use {State}
  open ik use {held, peer}

  -- What a transfer from a descriptor did: the bytes that it took stand behind the unread ones.
  abbrev pub Queued : ℤ → ℕ → BufferStream → State → Moved × BufferStream × State → Type 0
  Queued fd n st s r =
      IsStream r.1
      × ((xs : Bytes) × (pending r.1 ≡ pending st ++ xs)
          × (held s fd ≡ xs ++ held r.2 fd)
          × (length xs ≤ n)
          × ((r.0 ≡ Moved.moved (length xs)) ⊎ (((e : ℕ) × (r.0 ≡ Moved.failed e)) × (xs ≡ []))))

  -- What a read hands over.
  taken :
      (fd : ℤ) (n : ℕ) (s : State) (rv : Received) (s' : State)
      → k.read fd n s ≡ (rv, s')
      → (held s fd ≡ bytes_of rv ++ held s' fd)
        × (length (bytes_of rv) ≤ n)
        × ((count_of rv ≡ Moved.moved (length (bytes_of rv)))
            ⊎ (((e : ℕ) × (count_of rv ≡ Moved.failed e)) × (bytes_of rv ≡ [])))
  taken fd n s (Received.got xs) s' e =
      ((ik.read_takes fd n s s' xs e).1, (ik.read_takes fd n s s' xs e).0, inl refl)
  taken fd n s (Received.failed c) s' e =
      (sym (ik.read_fails fd n s s' c e), omega arith, inr ((c, refl), refl))

  -- `write(int fd, size_t)` into a valid stream for some bytes, with a `realloc` as the C standard has it
  -- and the sizes far from the end of `size_t`, commits no fault: the bytes that the call takes from the
  -- descriptor, at most as many as asked for, are queued in order behind the unread ones, and their
  -- number is returned; where the call fails, nothing is.
  pub write_fd-Queued :
      (r : Realloc) (fd : ℤ) (n : ℕ) (st : BufferStream) (s : State)
      → IsRealloc r
      → IsStream st
      → n ≢ 0
      → st.buffer.size + n + chunk_size < size_mod
      → Returns (Queued fd n st s) (write_fd k r fd n st s)
  unfolding write_fd
  write_fd-Queued r fd n st s ok v some_bytes h =
      rw (mod_small (st.buffer.size + n) {m = size_mod} (omega arith)) (
        Returns-bind (Reserved r Policy.mutable st.buffer (st.buffer.size + n)) (Queued fd n st s)
          (reserve r Policy.mutable (st.buffer.size + n) st.buffer) _
          (reserve-Reserved r Policy.mutable st.buffer (st.buffer.size + n) ok v.valid (omega arith)
            (omega arith))
          λ res fit. after res.1 fit.valid fit.kept fit.size)
    where
      room : Buffer → ℕ
      room b = min ((b.capacity + size_mod - b.size) % size_mod) n

      after :
          (b : Buffer)
          → IsValid b
          → contents b ≡ contents st.buffer
          → b.size ≡ st.buffer.size
          → Returns (Queued fd n st s) (
              store (k.read fd (room b) s).0 b >>= λ x.
              done (x.0, record st { buffer = x.1 }, (k.read fd (room b) s).1))
      after b v' same sized =
          Returns-bind
            (λ x. (x.0 ≡ count_of rv) × IsValid x.1 × (contents x.1 ≡ contents b ++ bytes_of rv))
            (Queued fd n st s) (store rv b) _
            (store_lem rv b v' (omega (arith, got.1, v'.within, v'.bounded)))
            λ x e. (
              record { valid = e.1; within = omega (arith, longer x.1 e.1 e.2, v.within) },
              (
                bytes_of rv,
                ap (drop st.read_offset) (e.2 ∙ ap (λ t. t ++ bytes_of rv) same)
                    ∙ drop-append_left st.read_offset (contents st.buffer) (bytes_of rv)
                        (omega (arith, length-contents st.buffer v.valid, v.within)),
                got.0,
                omega (arith, got.1),
                result x.0 e.0 got.2,
              ),
            )
        where
          rv : Received
          rv = (k.read fd (room b) s).0

          got :
              (held s fd ≡ bytes_of rv ++ held (k.read fd (room b) s).1 fd)
              × (length (bytes_of rv) ≤ room b)
              × ((count_of rv ≡ Moved.moved (length (bytes_of rv)))
                  ⊎ (((e : ℕ) × (count_of rv ≡ Moved.failed e)) × (bytes_of rv ≡ [])))
          got = taken fd (room b) s rv (k.read fd (room b) s).1 refl

          longer :
              (b' : Buffer)
              → IsValid b'
              → contents b' ≡ contents b ++ bytes_of rv
              → st.buffer.size ≤ b'.size
          longer b' v'' e = omega (
            arith,
            length-contents b' v'',
            length-contents b v',
            ap length e,
            length-append {0} (contents b) (bytes_of rv),
          )

          result :
              (m : Moved)
              → m ≡ count_of rv
              → ((count_of rv ≡ Moved.moved (length (bytes_of rv)))
                  ⊎ (((e : ℕ) × (count_of rv ≡ Moved.failed e)) × (bytes_of rv ≡ [])))
              → (m ≡ Moved.moved (length (bytes_of rv)))
                ⊎ (((e : ℕ) × (m ≡ Moved.failed e)) × (bytes_of rv ≡ []))
          result m e (inl q) = inl (e ∙ q)
          result m e (inr ((c, q), z)) = inr ((c, e ∙ q), z)

  -- What a transfer to a descriptor did: it sent the first bytes of the buffer, whether they had been
  -- read or not, and passed as many of the unread ones.
  abbrev pub Sent : ℤ → ℕ → BufferStream → State → Moved × BufferStream × State → Type 0
  Sent fd n st s r =
      IsStream r.1
      × ((m : ℕ) × (m ≤ min n (length (pending st)))
          × (held r.2 (peer fd) ≡ held s (peer fd) ++ take m (contents st.buffer))
          × (pending r.1 ≡ drop m (pending st))
          × ((r.0 ≡ Moved.moved m) ⊎ (((e : ℕ) × (r.0 ≡ Moved.failed e)) × (m ≡ 0))))

  -- `read(int fd, size_t)` from a valid stream commits no fault and passes as many unread bytes as the
  -- descriptor takes; but the bytes that it sends are the first ones of the buffer, also where these
  -- have been read before.
  pub read_fd-Sent :
      (fd : ℤ) (n : ℕ) (st : BufferStream) (s : State)
      → IsStream st
      → Returns (Sent fd n st s) (read_fd k fd n st s)
  unfolding read_fd
  read_fd-Sent fd n st s v =
      rw
        (
          size_lem st v,
          read_block-contents st v 0 (min (length (pending st)) n)
              (omega (arith, length-pending st v)),
        )
        (sent (k.write fd xs s).0 (k.write fd xs s).1 refl)
    where
      xs : Bytes
      xs = take (min (length (pending st)) n) (contents st.buffer)

      sent :
          (rv : Moved) (s' : State)
          → k.write fd xs s ≡ (rv, s')
          → Sent fd n st s (rv, advance rv st, s')
      sent (Moved.failed c) s' e = (
        v,
        (
          0,
          omega arith,
          ik.write_fails fd xs s s' c e ∙ sym (append-nil (held s (peer fd))),
          refl,
          inr ((c, refl), refl),
        ),
      )
      sent (Moved.moved m) s' e =
          rw
            (mod_small (st.read_offset + m) {m = size_mod}
              (omega (arith, fits, v.valid.within, v.valid.bounded, length-pending st v, v.within)))
            (
              record {
                valid = v.valid;
                within = omega (arith, fits, length-pending st v, v.within);
              },
              (
                m,
                omega (arith, fits),
                (ik.write_puts fd xs s s' m e).1
                    ∙ ap (λ t. held s (peer fd) ++ t)
                        (take-take m (min (length (pending st)) n) (contents st.buffer) fits),
                sym (drop-drop m st.read_offset (contents st.buffer)),
                inl refl,
              ),
            )
        where
          fits : m ≤ min (length (pending st)) n
          fits = omega (
            arith,
            (ik.write_puts fd xs s s' m e).0,
            length-take (min (length (pending st)) n) (contents st.buffer),
          )
