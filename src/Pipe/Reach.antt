-- ===== src/Pipe/Reach.antt =====
-- Sequences of the methods of a pipe.
use libxio.Base.{
  zero, suc, min, none, some, Bool-cases, inl, inr, ◌==◌, ℕ, ◌+◌, ◌<◌, ◌≡◌, ◌≢◌, subst, Bytes,
  size_mod, length,
}
use libxio.Base.Int.{ℤ}
use libxio.Kernel.{Kernel, IsKernel, Moved, Received}
use libxio.Pipe.{
  Pipe, Mode, write, write_socket, write_from_fd, read, read_to_fd, read_byte, write_pipe, clear,
}
use libxio.Pipe.Synced.{
  Synced, write-Synced, write_from_fd-Synced, read-Synced, read_to_fd-Synced, read_byte-Synced,
  write_pipe-Synced,
}

module _ (k : Kernel) where
  open k use {State}

  -- One call of a method, with its result; counts stay in `size_t`, and a pipe is not joined to
  -- itself. `read(Buffer&, size_t)` and `Socket::write(Pipe*, size_t)` are not among the calls: they
  -- leave the count as it was.
  pub data Step (law : IsKernel k) (p : Pipe) (s : State) : Pipe → State → Type 0 where
    writes :
        {rv : Moved} {p' : Pipe} {s' : State} (xs : Bytes)
        → p.size + length xs < size_mod
        → write k xs p s ≡ (rv, p', s')
        → Step law p s p' s'
    from_socket :
        {rv : Moved} {p' : Pipe} {s' : State} (handle : ℤ) (n : ℕ) (mode : Mode)
        → handle ≢ p.read_fd
        → p.size + n < size_mod
        → write_socket k handle n mode p s ≡ (rv, p', s')
        → Step law p s p' s'
    from_fd :
        {rv : Moved} {p' : Pipe} {s' : State} (fd : ℤ) (n : ℕ)
        → fd ≢ p.read_fd
        → p.size + n < size_mod
        → write_from_fd k fd n p s ≡ (rv, p', s')
        → Step law p s p' s'
    reads :
        {rv : Received} {p' : Pipe} {s' : State} (n : ℕ)
        → read k n p s ≡ (rv, p', s')
        → Step law p s p' s'
    reads_byte :
        {ch : ℤ} {p' : Pipe} {s' : State} → read_byte k p s ≡ (ch, p', s') → Step law p s p' s'
    to_fd :
        {rv : Moved} {p' : Pipe} {s' : State} (fd : ℤ) (n : ℕ)
        → p.read_fd ≢ law.peer fd
        → read_to_fd k fd n p s ≡ (rv, p', s')
        → Step law p s p' s'
    -- `write(Pipe*, size_t, Mode)`, of this pipe and of the one that bytes are taken from.
    from_pipe :
        {rv : Moved} {p' : Pipe} {src' : Pipe} {s' : State} (src : Pipe) (n : ℕ) (mode : Mode)
        → Synced k law src s
        → src.read_fd ≢ p.read_fd
        → p.size + src.size < size_mod
        → p.size + n < size_mod
        → write_pipe k src n mode p s ≡ (rv, p', src', s')
        → Step law p s p' s'
    to_pipe :
        {rv : Moved} {p' : Pipe} {dst' : Pipe} {s' : State} (dst : Pipe) (n : ℕ) (mode : Mode)
        → Synced k law dst s
        → p.read_fd ≢ dst.read_fd
        → dst.size + p.size < size_mod
        → dst.size + n < size_mod
        → write_pipe k p n mode dst s ≡ (rv, dst', p', s')
        → Step law p s p' s'
    clears :
        {p' : Pipe} {s' : State} (rounds : ℕ)
        → clear k rounds p s ≡ some (p', s')
        → Step law p s p' s'

  -- Any number of calls.
  pub data Steps (law : IsKernel k) (p : Pipe) (s : State) : Pipe → State → Type 0 where
    stay : Steps law p s p s
    more :
        {p' p'' : Pipe} {s' s'' : State}
        → Steps law p s p' s'
        → Step law p' s' p'' s''
        → Steps law p s p'' s''

  payload : {A : Type 0} {a b : A} → some a ≡ some b → a ≡ b
  payload e = cc

  nothing : {A : Type 0} {a : A} → ¬ (none ≡ some a)
  nothing e = cc

  module _ (law : IsKernel k) where
    write_socket-Synced :
        (handle : ℤ) (n : ℕ) (mode : Mode) (p : Pipe) (s : State)
        → Synced k law p s
        → handle ≢ p.read_fd
        → p.size + n < size_mod
        → let (rv, p', s') = write_socket k handle n mode p s in Synced k law p' s'
    unfolding write_socket write_from_fd
    write_socket-Synced handle n Mode.copy p s v apart h = v
    write_socket-Synced handle n Mode.move p s v apart h =
        write_from_fd-Synced k law handle n p s v apart h

    -- `clear`, if it returns, has made some number of reads.
    cleared-Synced :
        (f : ℕ) (p : Pipe) (s : State) {p' : Pipe} {s' : State}
        → Synced k law p s
        → clear k f p s ≡ some (p', s')
        → Synced k law p' s'
    unfolding clear
    cleared-Synced zero p s v = elim (Bool-cases (p.size == 0)) [
      | inl z ↦ rw z (λ e. subst (λ r. Synced k law r.0 r.1) (payload e) v)
      | inr n ↦ rw n (λ e. absurd (nothing e))
    ]
    cleared-Synced (suc f) p s v = elim (Bool-cases (p.size == 0)) [
      | inl z ↦ rw z (λ e. subst (λ r. Synced k law r.0 r.1) (payload e) v)
      | inr n ↦
          let res = read k (min p.size 4096) p s in
          rw n (cleared-Synced f res.1 res.2 (read-Synced k law (min p.size 4096) p s v))
    ]

    Step-Synced :
        {p : Pipe} {s : State} {p' : Pipe} {s' : State}
        → Synced k law p s
        → Step law p s p' s'
        → Synced k law p' s'
    Step-Synced {p = p} {s = s} v (writes xs h e) =
        subst (λ r. Synced k law r.1 r.2) e (write-Synced k law xs p s v h)
    Step-Synced {p = p} {s = s} v (from_socket handle n mode apart h e) =
        subst (λ r. Synced k law r.1 r.2) e (write_socket-Synced handle n mode p s v apart h)
    Step-Synced {p = p} {s = s} v (from_fd fd n apart h e) =
        subst (λ r. Synced k law r.1 r.2) e (write_from_fd-Synced k law fd n p s v apart h)
    Step-Synced {p = p} {s = s} v (reads n e) =
        subst (λ r. Synced k law r.1 r.2) e (read-Synced k law n p s v)
    Step-Synced {p = p} {s = s} v (reads_byte e) =
        subst (λ r. Synced k law r.1 r.2) e (read_byte-Synced k law p s v)
    Step-Synced {p = p} {s = s} v (to_fd fd n apart e) =
        subst (λ r. Synced k law r.1 r.2) e (read_to_fd-Synced k law fd n p s v apart)
    Step-Synced {p = p} {s = s} v (from_pipe src n mode w apart h h' e) =
        subst (λ r. Synced k law r.1 r.3) e
          (write_pipe-Synced k law src n mode p s w v apart h h').0
    Step-Synced {p = p} {s = s} v (to_pipe dst n mode w apart h h' e) =
        subst (λ r. Synced k law r.2 r.3) e
          (write_pipe-Synced k law p n mode dst s v w apart h h').1
    Step-Synced {p = p} {s = s} v (clears f e) = cleared-Synced f p s v e

    -- After any sequence of calls of these methods of a pipe: `write` of bytes, from a socket, from
    -- another descriptor and from another pipe whose count is right, also where this pipe is the one
    -- that such a call takes from, `read` of bytes, of one byte and to a descriptor, and `clear`, if it
    -- returns; but not `read(Buffer&, size_t)` and not `Socket::write(Pipe*, size_t)`: the count of a pipe is the number of bytes that the kernel
    -- holds for it, whatever the calls return, if it was so before and the counts stay in `size_t`.
    pub Steps-Synced :
        {p : Pipe} {s : State} {p' : Pipe} {s' : State}
        → Synced k law p s
        → Steps law p s p' s'
        → Synced k law p' s'
    Steps-Synced v stay = v
    Steps-Synced v (more before step) = Step-Synced (Steps-Synced v before) step
