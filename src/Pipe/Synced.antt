-- ===== src/Pipe/Synced.antt =====
-- The count of a pipe against the bytes that the kernel holds for it.
use libxio.Base.{
  ℕ, ◌+◌, ◌-◌, ◌≤◌, ◌<◌, ◌≡◌, ◌≢◌, refl, sym, ap, subst, ◌∙◌, ◌++◌, Bytes, size_mod, length, take,
  ◌==◌, arith, inl, inr, Bool-cases, length-append, length-take, length-drop,
}
use libxio.Base.Int.{ℤ}
use libxio.Kernel.{Kernel, IsKernel, Moved, Received}
use libxio.Pipe.{
  Pipe, Mode, filled, drained, sub_size, write, write_pipe, write_from_fd, read, read_to_fd,
  read_byte,
}

module _ (k : Kernel) (law : IsKernel k) where
  open k use {State}
  open law use {held, peer}

  -- The descriptors are the two ends of one pipe, and `size_` counts the bytes in it.
  pub record Synced (p : Pipe) (s : State) : Type 0 where
    pub ends : peer p.write_fd ≡ p.read_fd
    pub counted : p.size ≡ length (held s p.read_fd)
    pub bounded : p.size < size_mod

  filled-Synced :
      (p : Pipe) (s s' : State) (rv : Moved) (xs : Bytes)
      → Synced p s
      → ((n : ℕ)
          → rv ≡ Moved.moved n
          → (n ≤ length xs) × (held s' p.read_fd ≡ held s p.read_fd ++ take n xs))
      → ((e : ℕ) → rv ≡ Moved.failed e → held s' p.read_fd ≡ held s p.read_fd)
      → p.size + length xs < size_mod
      → Synced (filled rv p) s'
  filled-Synced p s s' (Moved.failed e) xs v puts fails h = record {
    ends = v.ends;
    counted = v.counted ∙ ap length (sym (fails e refl));
    bounded = v.bounded;
  }
  filled-Synced p s s' (Moved.moved n) xs v puts fails h =
      let (le, e) = puts n refl in
      let len : length (held s' p.read_fd) ≡ p.size + n =
        ap length e
        ∙ length-append (held s p.read_fd) (take n xs)
        ∙ omega (arith, length-take {0} n xs, v.counted) in
      record { ends = v.ends; counted = omega (arith, len); bounded = omega arith }

  drained-Synced :
      (p : Pipe) (s s' : State) (n : ℕ)
      → Synced p s
      → n ≤ length (held s p.read_fd)
      → length (held s' p.read_fd) ≡ length (held s p.read_fd) - n
      → Synced (sub_size n p) s'
  drained-Synced p s s' n v le e = record {
    ends = v.ends;
    counted = omega (arith, v.counted, v.bounded);
    bounded = omega arith;
  }

  -- `write(const char*, size_t)` keeps the count of a pipe right, whatever the kernel takes, as long as
  -- the count stays in `size_t`.
  pub write-Synced :
      (xs : Bytes) (p : Pipe) (s : State)
      → Synced p s
      → p.size + length xs < size_mod
      → let (rv, p', s') = write k xs p s in Synced p' s'
  unfolding write
  write-Synced xs p s v h =
      filled-Synced p s (k.write p.write_fd xs s).1 (k.write p.write_fd xs s).0 xs v
        (λ n e.
          let (le, q) = law.write_puts p.write_fd xs s (k.write p.write_fd xs s).1 n (pair e) in
          (le, subst (λ fd. held (k.write p.write_fd xs s).1 fd ≡ held s fd ++ take n xs) v.ends q))
        (λ e q.
          subst (λ fd. held (k.write p.write_fd xs s).1 fd ≡ held s fd) v.ends
            (law.write_fails p.write_fd xs s (k.write p.write_fd xs s).1 e (pair q)))
        h
    where
      pair :
          {rv : Moved}
          → (k.write p.write_fd xs s).0 ≡ rv
          → k.write p.write_fd xs s ≡ (rv, (k.write p.write_fd xs s).1)
      pair e = ap (λ (r : Moved). (r, (k.write p.write_fd xs s).1)) e

  pub read_result :
      (n : ℕ) (p : Pipe) (s : State) (rv : Received) (s' : State)
      → Synced p s
      → k.read p.read_fd n s ≡ (rv, s')
      → Synced (elim rv [ Received.got xs ↦ sub_size (length xs) p | Received.failed e ↦ p ]) s'
  read_result n p s (Received.got xs) s' v e =
      let (le, q) = law.read_takes p.read_fd n s s' xs e in
      let len : length (held s p.read_fd) ≡ length xs + length (held s' p.read_fd) =
        ap length q ∙ length-append xs (held s' p.read_fd) in
      drained-Synced p s s' (length xs) v (omega arith) (omega arith)
  read_result n p s (Received.failed e) s' v q = record {
    ends = v.ends;
    counted = v.counted ∙ ap length (sym (law.read_fails p.read_fd n s s' e q));
    bounded = v.bounded;
  }

  -- `read(char*, size_t)` keeps the count of a pipe right, whatever the kernel gives.
  pub read-Synced :
      (n : ℕ) (p : Pipe) (s : State) → Synced p s → let (rv, p', s') = read k n p s in Synced p' s'
  unfolding read
  read-Synced n p s v = read_result n p s (k.read p.read_fd n s).0 (k.read p.read_fd n s).1 v refl

  -- `read()` of a byte keeps the count right.
  pub read_byte-Synced :
      (p : Pipe) (s : State) → Synced p s → let (ch, p', s') = read_byte k p s in Synced p' s'
  unfolding read_byte
  read_byte-Synced p s v = elim (Bool-cases (p.size == 0)) [
    | inl z ↦ rw z v
    | inr n ↦ rw n (read-Synced 1 p s v)
  ]

  splice_out :
      (p : Pipe) (s : State) (n : ℕ) (dst : ℤ) (rv : Moved) (s' : State)
      → Synced p s
      → p.read_fd ≢ peer dst
      → k.splice p.read_fd dst n s ≡ (rv, s')
      → Synced (drained rv p) s'
  splice_out p s n dst (Moved.moved m) s' v apart e =
      let (_, le, rest, _) = law.splice_moves p.read_fd dst n s s' m apart e in
      drained-Synced p s s' m v le (ap length rest ∙ length-drop m (held s p.read_fd))
  splice_out p s n dst (Moved.failed e) s' v apart q = record {
    ends = v.ends;
    counted = v.counted ∙ ap length (sym (law.splice_fails p.read_fd dst n s s' e q).0);
    bounded = v.bounded;
  }

  -- `read(int fd, size_t)` into a descriptor that is not the pipe's own write end keeps its count right.
  pub read_to_fd-Synced :
      (fd : ℤ) (n : ℕ) (p : Pipe) (s : State)
      → Synced p s
      → p.read_fd ≢ peer fd
      → let (rv, p', s') = read_to_fd k fd n p s in Synced p' s'
  unfolding read_to_fd
  read_to_fd-Synced fd n p s v apart =
      splice_out p s n fd (k.splice p.read_fd fd n s).0 (k.splice p.read_fd fd n s).1 v apart refl

  splice_in :
      (p : Pipe) (s : State) (n : ℕ) (src : ℤ) (rv : Moved) (s' : State)
      → Synced p s
      → src ≢ p.read_fd
      → p.size + n < size_mod
      → k.splice src p.write_fd n s ≡ (rv, s')
      → Synced (filled rv p) s'
  splice_in p s n src (Moved.moved m) s' v apart h e =
      let (small, le, _, more) =
        law.splice_moves src p.write_fd n s s' m (λ q. apart (q ∙ v.ends)) e in
      let len : length (held s' p.read_fd) ≡ p.size + m =
        ap length (subst (λ fd. held s' fd ≡ held s fd ++ take m (held s src)) v.ends more)
        ∙ length-append (held s p.read_fd) (take m (held s src))
        ∙ omega (arith, length-take {0} m (held s src), v.counted) in
      record { ends = v.ends; counted = omega (arith, len); bounded = omega arith }
  splice_in p s n src (Moved.failed e) s' v apart h q = record {
    ends = v.ends;
    counted =
        v.counted
        ∙ ap length (
            sym (
              subst (λ fd. held s' fd ≡ held s fd) v.ends
                (law.splice_fails src p.write_fd n s s' e q).1));
    bounded = v.bounded;
  }

  -- `write(int fd, size_t)` from a descriptor that is not the pipe's own read end keeps the count of
  -- the pipe right, as long as it stays in `size_t`.
  pub write_from_fd-Synced :
      (fd : ℤ) (n : ℕ) (p : Pipe) (s : State)
      → Synced p s
      → fd ≢ p.read_fd
      → p.size + n < size_mod
      → let (rv, p', s') = write_from_fd k fd n p s in Synced p' s'
  unfolding write_from_fd
  write_from_fd-Synced fd n p s v apart h =
      splice_in p s n fd (k.splice fd p.write_fd n s).0 (k.splice fd p.write_fd n s).1 v apart h
        refl

  tee_in :
      (src p : Pipe) (s : State) (n : ℕ) (rv : Moved) (s' : State)
      → Synced src s
      → Synced p s
      → src.read_fd ≢ p.read_fd
      → p.size + n < size_mod
      → k.tee src.read_fd p.write_fd n s ≡ (rv, s')
      → Synced (filled rv p) s' × Synced src s'
  tee_in src p s n (Moved.moved m) s' w v apart h e =
      let (small, le, same, more) =
        law.tee_copies src.read_fd p.write_fd n s s' m (λ q. apart (q ∙ v.ends)) e in
      let len : length (held s' p.read_fd) ≡ p.size + length (take m (held s src.read_fd)) =
        ap length (subst (λ fd. held s' fd ≡ held s fd ++ take m (held s src.read_fd)) v.ends more)
        ∙ length-append (held s p.read_fd) (take m (held s src.read_fd))
        ∙ omega (arith, v.counted) in
      (
        record {
          ends = v.ends;
          counted = omega (arith, len, length-take {0} m (held s src.read_fd));
          bounded = omega arith;
        },
        record { ends = w.ends; counted = w.counted ∙ ap length (sym same); bounded = w.bounded },
      )
  tee_in src p s n (Moved.failed e) s' w v apart h q =
      let (same, same') = law.tee_fails src.read_fd p.write_fd n s s' e q in
      (
        record {
          ends = v.ends;
          counted = v.counted ∙ ap length (sym (subst (λ fd. held s' fd ≡ held s fd) v.ends same'));
          bounded = v.bounded;
        },
        record { ends = w.ends; counted = w.counted ∙ ap length (sym same); bounded = w.bounded },
      )

  pub write_pipe-Synced :
      (src : Pipe) (n : ℕ) (mode : Mode) (p : Pipe) (s : State)
      → Synced src s
      → Synced p s
      → src.read_fd ≢ p.read_fd
      → p.size + src.size < size_mod
      → p.size + n < size_mod
      → let (rv, p', src', s') = write_pipe k src n mode p s in Synced p' s' × Synced src' s'
  unfolding write_pipe
  write_pipe-Synced src n Mode.move p s w v apart h h' =
      let call = k.splice src.read_fd p.write_fd src.size s in
      (
        splice_in p s src.size src.read_fd call.0 call.1 v apart h refl,
        splice_out src s src.size p.write_fd call.0 call.1 w (λ q. apart (q ∙ v.ends)) refl,
      )
  write_pipe-Synced src n Mode.copy p s w v apart h h' =
      tee_in src p s n (k.tee src.read_fd p.write_fd n s).0 (k.tee src.read_fd p.write_fd n s).1 w v
        apart h' refl
