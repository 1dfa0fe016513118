-- ===== src/Pipe/Drain.antt =====
-- `Pipe::clear`: it ends where the count is right, and never where the count is too high.
use libxio.Base.{
  ℕ, zero, suc, ◌+◌, ◌≤◌, ◌<◌, min, ◌≡◌, ◌≢◌, refl, sym, ap, subst, ◌∙◌, Bool, true, false, [], ◌∷◌,
  Bytes, length, none, some, ◌==◌, arith, inl, inr, Bool-cases, eq→==, ne→==, ==_iff, length-append,
  length-zero, Returns, Returns-bind,
}
use libxio.Base.Int.{ℤ}
use libxio.Kernel.{Kernel, IsKernel, Moved, Received}
use libxio.Pipe.{Pipe, read, read_into, clear}
use libxio.Memory.{Realloc, IsRealloc}
use libxio.Buffer.{Buffer}
use libxio.Buffer.Valid.{IsValid}
use libxio.ReadLoop
use libxio.ReadLoop.Filled.{Outcome, Filled, read_into-Filled}
use libxio.ReadLoop.Room.{Small}
use libxio.Pipe.Synced.{Synced, read_result}

module _ (k : Kernel) (law : IsKernel k) where
  open k use {State}
  open law use {held}

  -- A read of a pipe that holds bytes hands over at least one of them.
  abbrev pub Yields : ℤ → Type 0
  Yields fd =
      (n : ℕ) (s : State)
      → n ≢ 0
      → held s fd ≢ []
      → (x : ℕ) × (xs : Bytes) × (s' : State) × (k.read fd n s ≡ (Received.got (x ∷ xs), s'))

  clash : {b : Bool} → b ≡ false → b ≡ true → ⊥
  clash p q = cc

  drain_step :
      (p : Pipe) (s : State)
      → Synced k law p s
      → Yields p.read_fd
      → p.size ≢ 0
      → let (rv, p', s') = read k (min p.size 4096) p s in
        Synced k law p' s' × (p'.size < p.size) × (p'.read_fd ≡ p.read_fd)
  unfolding read
  drain_step p s v yields ne =
      let (x, xs, s', e) =
        yields (min p.size 4096) s (omega arith) (λ q. ne (v.counted ∙ ap length q)) in
      let (le, q) = law.read_takes p.read_fd (min p.size 4096) s s' (x ∷ xs) e in
      let len : length (held s p.read_fd) ≡ suc (length xs) + length (held s' p.read_fd) =
        ap length q ∙ length-append (x ∷ xs) (held s' p.read_fd) in
      rw e (
        read_result k law (min p.size 4096) p s (Received.got (x ∷ xs)) s' v e,
        omega (arith, v.counted, v.bounded),
        refl,
      )

  -- `clear()` on a pipe whose count is right, and which hands over a byte as long as it holds one, ends:
  -- one call for each byte is enough, the count is right and 0 at the end, and the pipe is empty.
  pub clear-Synced :
      (f : ℕ) (p : Pipe) (s : State)
      → Synced k law p s
      → Yields p.read_fd
      → p.size ≤ f
      → (p' : Pipe) × (s' : State) × (clear k f p s ≡ some (p', s'))
        × Synced k law p' s'
        × (p'.size ≡ 0)
        × (held s' p.read_fd ≡ [])
  unfolding clear
  clear-Synced zero p s v yields le = (
    p,
    s,
    rw (eq→== p.size 0 (omega arith)),
    v,
    omega arith,
    length-zero (held s p.read_fd) (omega (arith, v.counted)),
  )
  clear-Synced (suc f) p s v yields le = elim (Bool-cases (p.size == 0)) [
    | inl z ↦ (
      p,
      s,
      rw z,
      v,
      (==_iff p.size 0).0 z,
      length-zero (held s p.read_fd) (omega (arith, v.counted, (==_iff p.size 0).0 z)),
    )
    | inr more ↦
        let (v', less, fd) =
          drain_step p s v yields (λ e. absurd (clash more ((==_iff p.size 0).1 e))) in
        let next = read k (min p.size 4096) p s in
        let (p'', s'', e, w, z, empty) =
          clear-Synced f next.1 next.2 v' (subst Yields (sym fd) yields) (omega arith) in
        (p'', s'', rw more e, w, z, subst (λ d. held s'' d ≡ []) fd empty)
  ]

-- `clear()` on a pipe that counts bytes, but whose reads all fail, never ends: however many calls it
-- may make, it has not returned.
pub clear_stale :
    (k : Kernel) (f : ℕ) (p : Pipe) (s : k.State)
    → p.size ≢ 0
    → ((n : ℕ) (t : k.State)
        → (e : ℕ) × (t' : k.State) × (k.read p.read_fd n t ≡ (Received.failed e, t')))
    → clear k f p s ≡ none
unfolding clear read
clear_stale k zero p s ne fails = rw (ne→== p.size 0 ne)
clear_stale k (suc f) p s ne fails =
    let (e, t, q) = fails (min p.size 4096) s in
    rw (ne→== p.size 0 ne, q) (clear_stale k f p t ne fails)

-- `read(Buffer&, size_t)` on a pipe whose count is right: whenever the call hands over some bytes, the
-- count is wrong afterwards, since it still has them.
pub read_into-stale :
    (k : Kernel) (law : IsKernel k) (r : Realloc) (b : Buffer) (n : ℕ) (p : Pipe) (s : k.State)
    → IsRealloc r
    → IsValid b
    → Small (b.size + n)
    → Synced k law p s
    → Returns
        (λ (rv, _, p', s'). (m : ℕ) → rv ≡ Moved.moved m → m ≢ 0 → ¬ Synced k law p' s')
        (read_into k r b n p s)
unfolding read_into
read_into-stale k law r b n p s ok valid small v =
    Returns-bind (Filled k law r ok p.read_fd n 0 b s) _ (ReadLoop.read_into k r p.read_fd n b s) _
      (read_into-Filled k law r ok p.read_fd n b s valid small)
      λ res fit m e ne w.
        let len : length (law.held s p.read_fd)
            ≡ length fit.taken + length (law.held res.2 p.read_fd) =
          ap length fit.left ∙ length-append fit.taken (law.held res.2 p.read_fd) in
        absurd (
          some_taken (length fit.taken) res.0 m fit.result e ne
            (omega (arith, len, v.counted, w.counted)))
  where
    some_taken :
        (t : ℕ) (rv : Moved) (m : ℕ) → Outcome 0 t rv → rv ≡ Moved.moved m → m ≢ 0 → t ≡ 0 → ⊥
    some_taken t rv m (inl q) e ne z = ne (omega (arith, number (sym e ∙ q), z))
      where
        number : {a b : ℕ} → Moved.moved a ≡ Moved.moved b → a ≡ b
        number h = cc
    some_taken t rv m (inr (x, q, _, _)) e ne z = cc
