-- ===== src/ReadLoop/Filled.antt =====
-- What the read loop leaves: the bytes that it took from the descriptor stand behind the buffer's.
use libxio.Base.{
  ℕ, zero, suc, ◌+◌, ◌-◌, ◌≤◌, min, ◌≡◌, ◌⊎◌, refl, sym, ap, ◌∙◌, Bool, true, false, not, [], ◌∷◌,
  ◌++◌, append-nil, append_assoc, Bytes, length, Run, done, Returns, Returns-bind, Returns-mono,
  ltb, Bool-cases, arith, inl, inr, if◌then◌else◌, length-append, ne→==,
}
use libxio.Base.Int.{ℤ}
use libxio.Kernel.{Kernel, IsKernel, Moved, Received}
use libxio.Memory.{Realloc, IsRealloc}
use libxio.Buffer.{Buffer, contents, copy_end}
use libxio.Buffer.Valid.{IsValid}
use libxio.Buffer.Append.{Appended, copy_end-Appended, length-contents}
use libxio.ReadLoop.{result_or, free_bytes, make_room, after_read, fill, read_into}
use libxio.ReadLoop.Room.{Small, Roomy, free_bytes_lem, make_room-Roomy}

abbrev pub Outcome : (nread taken : ℕ) → Moved → Type 0
Outcome nread taken rv =
    (rv ≡ Moved.moved (nread + taken))
    ⊎ ((e : ℕ) × (rv ≡ Moved.failed e) × (nread ≡ 0) × (taken ≡ 0))

reason :
    (nread : ℕ) (rv : Moved)
    → (rv ≡ Moved.moved 0) ⊎ ((e : ℕ) × (rv ≡ Moved.failed e))
    → Outcome nread 0 (result_or nread rv)
reason zero rv (inl e) = inl (e ∙ ap Moved.moved (omega arith))
reason zero rv (inr (e, q)) = inr (e, q, refl, refl)
reason (suc n) rv why = rw (ne→== (suc n) 0 (omega arith)) (inl (ap Moved.moved (omega arith)))

module _ (k : Kernel) (law : IsKernel k) (r : Realloc) (ok : IsRealloc r) (fd : ℤ) where
  open k use {State}
  open law use {held}

  -- The bytes taken, in the buffer and gone from the descriptor, and their number as the result; an
  -- error is returned only if none was taken.
  pub record Filled (n nread : ℕ) (b : Buffer) (s : State) (res : Moved × Buffer × State)
      : Type 0 where
    pub taken : Bytes
    pub valid : IsValid res.1
    pub stored : contents res.1 ≡ contents b ++ taken
    pub left : held s fd ≡ taken ++ held res.2 fd
    pub bounded : length taken ≤ n
    pub result : Outcome nread (length taken) res.0

  stop :
      (n nread : ℕ) (b b' : Buffer) (s s' : State) (rv : Moved)
      → IsValid b'
      → contents b' ≡ contents b
      → held s' fd ≡ held s fd
      → (rv ≡ Moved.moved 0) ⊎ ((e : ℕ) × (rv ≡ Moved.failed e))
      → Filled n nread b s (result_or nread rv, b', s')
  stop n nread b b' s s' rv v kept same why = record {
    taken = [];
    valid = v;
    stored = kept ∙ sym (append-nil (contents b));
    left = sym same;
    bounded = omega arith;
    result = reason nread rv why;
  }

  -- A round that took bytes, and what the rounds behind it took.
  go_on :
      (n nread : ℕ) (x : ℕ) (xs : Bytes) (b b' : Buffer) (s s' : State)
      (res : Moved × Buffer × State)
      → contents b' ≡ contents b ++ (x ∷ xs)
      → held s fd ≡ (x ∷ xs) ++ held s' fd
      → length (x ∷ xs) ≤ n
      → Filled (n - length (x ∷ xs)) (nread + length (x ∷ xs)) b' s' res
      → Filled n nread b s res
  go_on n nread x xs b b' s s' res stored took le rest = record {
    taken = (x ∷ xs) ++ rest.taken;
    valid = rest.valid;
    stored =
        rest.stored
        ∙ ap (λ t. t ++ rest.taken) stored
        ∙ append_assoc (contents b) (x ∷ xs) rest.taken;
    left =
        took
        ∙ ap (λ t. (x ∷ xs) ++ t) rest.left
        ∙ sym (append_assoc (x ∷ xs) rest.taken (held res.2 fd));
    bounded = omega (arith, length-append {0} (x ∷ xs) rest.taken, rest.bounded);
    result = outcome rest.result;
  }
    where
      outcome :
          Outcome (nread + length (x ∷ xs)) (length rest.taken) res.0
          → Outcome nread (length ((x ∷ xs) ++ rest.taken)) res.0
      outcome (inl e) =
          inl (e ∙ ap Moved.moved (omega (arith, length-append {0} (x ∷ xs) rest.taken)))
      outcome (inr (e, q, z, _)) = absurd (omega arith)

  after_read-Filled :
      (next : ℕ → ℕ → Buffer → State → Run (Moved × Buffer × State)) (n nread nbytes : ℕ)
      (b : Buffer) (rv : Received) (s s' : State)
      → IsValid b
      → nbytes ≤ n
      → b.size + nbytes ≤ b.capacity
      → k.read fd nbytes s ≡ (rv, s')
      → ((m j : ℕ) (b' : Buffer)
          → suc m ≤ n
          → IsValid b'
          → b'.size + m ≡ b.size + n
          → Returns (Filled m j b' s') (next m j b' s'))
      → Returns (Filled n nread b s) (after_read k r fd next n nread nbytes b rv s')
  unfolding after_read
  after_read-Filled next n nread nbytes b (Received.failed e) s s' v le room q rec =
      stop n nread b b s s' (Moved.failed e) v refl (law.read_fails fd nbytes s s' e q)
        (inr (e, refl))
  after_read-Filled next n nread nbytes b (Received.got []) s s' v le room q rec =
      stop n nread b b s s' (Moved.moved 0) v refl (sym (law.read_takes fd nbytes s s' [] q).1)
        (inl refl)
  after_read-Filled next n nread nbytes b (Received.got (x ∷ xs)) s s' v le room q rec =
      let (short, took) = law.read_takes fd nbytes s s' (x ∷ xs) q in
      Returns-bind (Appended b (x ∷ xs)) (Filled n nread b s) (copy_end (x ∷ xs) b) _
        (copy_end-Appended (x ∷ xs) b v (λ z. cc) (omega arith))
        λ b' a.
          let grew : b'.size ≡ b.size + length (x ∷ xs) =
            sym (length-contents b' a.valid)
            ∙ ap length a.bytes
            ∙ length-append (contents b) (x ∷ xs)
            ∙ ap (λ j. j + length (x ∷ xs)) (length-contents b v) in
          elim (Bool-cases (ltb (length (x ∷ xs)) nbytes)) [
            | inl less ↦ rw less (
                go_on n nread x xs b b' s s' _ a.bytes took (omega arith) (record {
                  taken = [];
                  valid = a.valid;
                  stored = sym (append-nil (contents b'));
                  left = refl;
                  bounded = omega arith;
                  result = inl (ap Moved.moved (omega arith));
                }))
            | inr full ↦ rw full (
                Returns-mono (Filled (n - length (x ∷ xs)) (nread + length (x ∷ xs)) b' s')
                  (Filled n nread b s) (next (n - length (x ∷ xs)) (nread + length (x ∷ xs)) b' s')
                  (rec (n - length (x ∷ xs)) (nread + length (x ∷ xs)) b' (omega arith) a.valid
                    (omega arith))
                  λ res f. go_on n nread x xs b b' s s' res a.bytes took (omega arith) f)
          ]

  nothing :
      (nread : ℕ) (b : Buffer) (s : State)
      → IsValid b
      → Filled 0 nread b s (Moved.moved nread, b, s)
  nothing nread b s v = record {
    taken = [];
    valid = v;
    stored = sym (append-nil (contents b));
    left = refl;
    bounded = omega arith;
    result = inl (ap Moved.moved (omega arith));
  }

  round :
      (f n nread : ℕ) (b : Buffer) (s : State)
      → Small (b.size + suc n)
      → (res : Bool × Buffer) → Roomy b res
      → ((m j : ℕ) (b' : Buffer) (s' : State)
          → suc m ≤ suc n
          → IsValid b'
          → b'.size + m ≡ b.size + suc n
          → Returns (Filled m j b' s') (fill k r fd f m j b' s'))
      → Returns (Filled (suc n) nread b s) (
          if not res.0
          then done (result_or nread (Moved.failed 12), res.1, s)
          else after_read k r fd
              (fill k r fd f)
              (suc n)
              nread
              (min (free_bytes res.1) (suc n))
              res.1
              (k.read fd (min (free_bytes res.1) (suc n)) s).0
              (k.read fd (min (free_bytes res.1) (suc n)) s).1)
  round f n nread b s h (false, b') fit rec =
      stop (suc n) nread b b' s s (Moved.failed 12) fit.valid fit.kept refl (inr (12, refl))
  round f n nread b s h (true, b') fit rec =
      let nbytes = min (free_bytes b') (suc n) in
      Returns-mono (Filled (suc n) nread b' s) (Filled (suc n) nread b s)
        (after_read k r fd (fill k r fd f) (suc n) nread nbytes b' (k.read fd nbytes s).0
          (k.read fd nbytes s).1)
        (after_read-Filled (fill k r fd f) (suc n) nread nbytes b' (k.read fd nbytes s).0 s
          (k.read fd nbytes s).1 fit.valid (omega arith)
          (omega (arith, free_bytes_lem b' fit.valid, fit.valid.within)) refl
          (λ m j b'' small v' same.
            rec m j b'' (k.read fd nbytes s).1 small v' (omega (arith, same, fit.size))))
        λ res g. record {
          taken = g.taken;
          valid = g.valid;
          stored = g.stored ∙ ap (λ t. t ++ g.taken) fit.kept;
          left = g.left;
          bounded = g.bounded;
          result = g.result;
        }

  fill-Filled :
      (f n nread : ℕ) (b : Buffer) (s : State)
      → n ≤ f
      → IsValid b
      → Small (b.size + n)
      → Returns (Filled n nread b s) (fill k r fd f n nread b s)
  unfolding fill
  fill-Filled zero zero nread b s le v h = nothing nread b s v
  fill-Filled zero (suc n) nread b s le v h = absurd (omega arith)
  fill-Filled (suc f) zero nread b s le v h = nothing nread b s v
  fill-Filled (suc f) (suc n) nread b s le v h =
      Returns-bind (Roomy b) (Filled (suc n) nread b s) (make_room r b) _
        (make_room-Roomy r b ok v (omega arith))
        λ res fit.
          round f n nread b s h res fit
            (λ m j b' s' small v' same. fill-Filled f m j b' s' (omega arith) v' (omega arith))

-- `read(Buffer&, size_t)` into a valid buffer, as long as the sizes stay in `size_t`, commits no fault
-- and ends: the bytes taken from the descriptor, at most as many as wanted, are appended in order, and
-- their number is returned, or an error where none was taken.
pub read_into-Filled :
    (k : Kernel) (law : IsKernel k) (r : Realloc) (ok : IsRealloc r) (fd : ℤ) (n : ℕ) (b : Buffer)
    (s : k.State)
    → IsValid b
    → Small (b.size + n)
    → Returns (Filled k law r ok fd n 0 b s) (read_into k r fd n b s)
unfolding read_into
read_into-Filled k law r ok fd n b s v h = fill-Filled k law r ok fd n n 0 b s (omega arith) v h
