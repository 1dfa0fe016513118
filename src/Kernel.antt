-- ===== src/Kernel.antt =====
-- The system calls that the streams make, as a parameter: a state and one function for each call.
-- Descriptors and errors are the `int`s of the calls.
use libxio.Base.{ℕ, ◌≤◌, ◌≡◌, ◌≢◌, Bytes, ◌++◌, length, take, drop}
use libxio.Base.Int.{ℤ}

-- What a call that moves bytes returns: how many, or `errno`.
pub data Moved : Type 0 where
  moved : ℕ → Moved
  failed : ℕ → Moved

-- The same for a call that hands bytes over.
pub data Received : Type 0 where
  got : Bytes → Received
  failed : ℕ → Received

pub record Kernel : Type 1 where
  pub State : Type 0
  pub read : ℤ → ℕ → State → Received × State
  pub write : ℤ → Bytes → State → Moved × State
  pub splice : ℤ → ℤ → ℕ → State → Moved × State
  pub tee : ℤ → ℤ → ℕ → State → Moved × State

-- What is documented of pipes. `held` gives the bytes in the pipe with a read end; `peer` the read end
-- that belongs to a write end. The calls take bytes from the front, in order, as many as they say,
-- and touch no other pipe; a call that fails moves nothing.
pub record IsKernel (k : Kernel) : Type 1 where
  pub held : k.State → ℤ → Bytes
  pub peer : ℤ → ℤ
  pub read_takes :
      (fd : ℤ) (n : ℕ) (s s' : k.State) (xs : Bytes)
      → k.read fd n s ≡ (Received.got xs, s')
      → (length xs ≤ n) × (held s fd ≡ xs ++ held s' fd)
  pub read_fails :
      (fd : ℤ) (n : ℕ) (s s' : k.State) (e : ℕ)
      → k.read fd n s ≡ (Received.failed e, s')
      → held s' fd ≡ held s fd
  pub write_puts :
      (fd : ℤ) (xs : Bytes) (s s' : k.State) (n : ℕ)
      → k.write fd xs s ≡ (Moved.moved n, s')
      → (n ≤ length xs) × (held s' (peer fd) ≡ held s (peer fd) ++ take n xs)
  pub write_fails :
      (fd : ℤ) (xs : Bytes) (s s' : k.State) (e : ℕ)
      → k.write fd xs s ≡ (Moved.failed e, s')
      → held s' (peer fd) ≡ held s (peer fd)
  pub splice_moves :
      (src dst : ℤ) (n : ℕ) (s s' : k.State) (m : ℕ)
      → src ≢ peer dst
      → k.splice src dst n s ≡ (Moved.moved m, s')
      → (m ≤ n)
        × (m ≤ length (held s src))
        × (held s' src ≡ drop m (held s src))
        × (held s' (peer dst) ≡ held s (peer dst) ++ take m (held s src))
  pub splice_fails :
      (src dst : ℤ) (n : ℕ) (s s' : k.State) (e : ℕ)
      → k.splice src dst n s ≡ (Moved.failed e, s')
      → (held s' src ≡ held s src) × (held s' (peer dst) ≡ held s (peer dst))
  pub tee_copies :
      (src dst : ℤ) (n : ℕ) (s s' : k.State) (m : ℕ)
      → src ≢ peer dst
      → k.tee src dst n s ≡ (Moved.moved m, s')
      → (m ≤ n)
        × (m ≤ length (held s src))
        × (held s' src ≡ held s src)
        × (held s' (peer dst) ≡ held s (peer dst) ++ take m (held s src))
  pub tee_fails :
      (src dst : ℤ) (n : ℕ) (s s' : k.State) (e : ℕ)
      → k.tee src dst n s ≡ (Moved.failed e, s')
      → (held s' src ≡ held s src) × (held s' (peer dst) ≡ held s (peer dst))
